-- ===== src/Lib.antt =====
-- mcp-kit: the parts of the library that an MCP server is built from, in Go, as far as they keep
-- state or decide who is let through: the signing keys of its OAuth server, the storage of the OAuth
-- engine's requests, the middleware that admits bearer tokens, the registration of clients, the
-- clients that describe themselves by a document, the consent of a user, the cache that answers
-- repeated refreshes, the middleware around the MCP endpoint, and the login of a command line program.
--
-- How the parts interact. The key manager (oauth/keys/manager.go) creates and rotates keys through
-- the interface `Store`, and the rotator (oauth/keys/rotator.go) calls the manager from a loop and
-- reports to the audit emitter (audit/emitter.go). The adapter (oauth/storage/storage.go) gives the
-- OAuth engine its storage, over an interface `Store` again. Both interfaces have an implementation
-- in memory, and the theorems about their clients suppose only a contract, which that implementation
-- keeps. Registration (oauth/register.go) saves clients in the store that the adapter looks them up
-- in. The middleware (oauth/middleware.go) asks the engine or a validator of personal access tokens
-- (oauth/pat.go) for the identity behind a token. The consent handler (oauth/consent/handler.go)
-- issues and consumes approval tokens through the interface `ApprovalTokenStore`, whose contract its
-- two implementations keep, and reports to the audit emitter. The fetcher of metadata documents
-- (oauth/cimd.go) resolves the clients that the adapter does not find in its store. The MCP middleware (mcpmw) stands
-- alone, and so does the login (cliauth), whose operations share the file of a credential store.
--
-- The files, by the code that they model:
--   Prelude, Text    what the files share: lists, tests and signed numbers; Go's functions on texts
--   Audit            `Event` of audit/emitter.go
--   Keys.Memory      `MemoryStore` of oauth/keys/memory.go: `find_active_signing_key` is
--                    `FindActiveSigningKey`, and so on; Invariant, Grace and Retire hold
--                    the lemmas on it
--   Keys.Manager     `Manager` of oauth/keys/manager.go: `ensure_key` is `EnsureSigningKey`,
--                    `rotate_key_at` is `rotateSigningKeyAt`, `jwks` is `JWKS`; Race interleaves the
--                    calls of `EnsureSigningKey` of any number of processes
--   Keys.Rotator     `Rotator` of oauth/keys/rotator.go: `rotate_and_cleanup` is one round of `run`
--   Storage.Memory   `MemoryStore` of oauth/storage/memory.go
--   Storage.Request  the stored request data of oauth/storage/storage.go, to and from JSON
--                    (Storage.Json)
--   Storage.Adapter  `Storage` of oauth/storage/storage.go, less its transactions
--   Bearer.Context, Bearer.Challenge, Bearer.Middleware
--                    the context values, the challenges and the handlers of oauth/middleware.go, with
--                    oauth/pat.go, oauth/token_validator.go and oauth/error.go
--   Register.Uris, Register.Scopes, Register.Handler
--                    the validation of URIs, the scopes and the handler of oauth/register.go
--   Token.Replay     the replay cache of oauth/provider.go and `handleReplayableRefresh` of
--                    oauth/handlers.go; Flights interleaves the requests of many clients
--   Token.Handler    `TokenHandler` of oauth/handlers.go, of a request alone or in a flight of another;
--                    Events has what its audit events tell
--   Token.Authorize  `AuthorizeHandler` of oauth/handlers.go: `authorize`, with what it grants
--   Consent.Params, Consent.Page, Consent.Config
--                    oauth/consent/params.go, page.go and redirect.go, and what the handler works on
--   Consent.Store    the interface of oauth/consent/store.go with its contract; Once has what follows
--                    from the contract
--   Consent.HmacStore, Consent.SessionStore
--                    oauth/consent/hmacstore and its copy default_store.go; oauth/consent/sessionstore
--   Consent.Handler  `Handler` of oauth/consent/handler.go: `serve_http` is `ServeHTTP`; Moves has
--                    what a request does to the tokens, Genuine and Once whole runs of requests
--   Cimd.Url, Cimd.Document, Cimd.Lifetime, Cimd.Cache, Cimd.Fetcher
--                    oauth/cimd.go: `resolve_client` is `ResolveClient`
--   Cimd.Dial        oauth/cimd_transport.go
--   Cliauth.Credstore
--                    `CredStore` of cliauth/credstore.go: `load_host` is `LoadHost`, and so on
--   Cliauth.Discovery, Cliauth.Login
--                    cliauth/discovery.go and cliauth/login.go: `get_access_token` is `GetAccessToken`
--   Classify         oauth/login_classify.go
--   Provider         `applyDefaults` of oauth/config.go
--   Mcpmw.Origin, Mcpmw.Envelope
--                    mcpmw/origin.go, and mcpmw/envelope.go with its buffered writer
--
-- How the code is read. An instant is a number of nanoseconds, and a duration a signed one, without bounds but for the
-- product of a lifetime in Cliauth.Login, which wraps at 64 bits; a zero
-- time is `none` or 0, as each file says. A method under a mutex is one step on the state, which it
-- returns. A call that can fail returns a result; the text that wrapping adds to an error is left out,
-- where `errors.Is` does not read it. Loops are recursion on the list that they go through, so that
-- no fuel is needed. What the code reads from a library or its surroundings is a parameter: random
-- values, generated keys, PEM, bcrypt, `url.Parse`, the clock, the introspection and the token
-- exchange of the OAuth engine.
--
-- Not modelled: what writes to a network, a log or a screen; the engine fosite; code that ent
-- generates; the defaults of the consent configuration; the OpenID endpoints (oidc), which are a
-- component of their own; the listener, the browser and the pasted redirect of cliauth; the revoke
-- handler of oauth/handlers.go.
pub mod Prelude
pub mod Text
pub mod Audit
pub mod Keys
pub mod Storage
pub mod Bearer
pub mod Register
pub mod Token
pub mod Cimd
pub mod Classify
pub mod Cliauth
pub mod Consent
pub mod Mcpmw
pub mod Provider
