-- ===== src/Cimd/Fetcher.antt =====
-- `ClientIDMetadataFetcher` of oauth/cimd.go: the resolution of a client by its document. What the
-- network answers is an input.
pub mod Laws
use mcp_kit.Prelude.{
  ℕ, zero, suc, String, Bool, true, false, not, Option, none, some, nat_eq, if◌then◌else◌,
}
use mcp_kit.Prelude.Int.{ℤ, pos, negsuc}
use mcp_kit.Storage.Types.{Client}
use mcp_kit.Storage.Adapter.{Resolution, resolved, not_a_client_metadata_url, unresolved}
use mcp_kit.Register.Uris.{Url}
use mcp_kit.Cimd.Url.{MetadataUrl, client_metadata_url_string}
use mcp_kit.Cimd.Document.{
  ClientMetadataDocument, ClientMetadataPolicy, FetchError, request_not_built, fetch_failed,
  not_decoded, returned_status, Fetched, got, failed, ◌>>=◌, client_from_document,
}
use mcp_kit.Cimd.Lifetime.{Parsers, CacheHeader, cache_lifetime}
use mcp_kit.Cimd.Cache.{Cache, cached, StoreInputs, store}

-- `DefaultClientMetadataCacheTTL`, in nanoseconds.
abbrev pub default_client_metadata_cache_ttl : ℕ
default_client_metadata_cache_ttl = 300_000_000_000

-- `ClientIDMetadataFetcher`, less its cache.
pub record ClientIdMetadataFetcher : Type 0 where
  pub allow_loopback : Bool
  pub cache_ttl : ℕ
  pub policy : ClientMetadataPolicy

abbrev or_default : ℤ → ℕ
or_default (pos zero) = default_client_metadata_cache_ttl
or_default (pos (suc n)) = suc n
or_default (negsuc n) = default_client_metadata_cache_ttl

-- `NewClientIDMetadataFetcher`
unfoldable pub new_client_id_metadata_fetcher :
    Bool → ℤ → ClientMetadataPolicy → ClientIdMetadataFetcher
new_client_id_metadata_fetcher allow_loopback cache_ttl policy = record {
  allow_loopback = allow_loopback;
  cache_ttl = or_default cache_ttl;
  policy = policy;
}

-- What a fetch meets: the body is `none` where it is too long or not decoded.
pub data Response : Type 0 where
  not_built not_answered : Response
  response : ℕ → CacheHeader → Option ClientMetadataDocument → Response

-- What a resolution reads besides its cache.
pub record Inputs : Type 0 where
  pub looked_at : ℕ
  pub response : Response
  pub fetched_at : ℕ
  pub store_inputs : StoreInputs

-- The libraries that read addresses, headers and texts.
pub record Libraries : Type 0 where
  pub parse : String → Option Url
  pub parse_metadata : String → Option MetadataUrl
  pub parsers : Parsers

module _ (lib : Libraries) (f : ClientIdMetadataFetcher) where
  abbrev decoded :
      ℕ → CacheHeader → Option ClientMetadataDocument → Fetched (ClientMetadataDocument × ℕ)
  decoded now header none = failed not_decoded
  decoded now header (some d) = got (d, cache_lifetime lib.parsers header f.cache_ttl now)

  unfoldable pub fetch : ℕ → Response → Fetched (ClientMetadataDocument × ℕ)
  unfolding cache_lifetime
  fetch now not_built = failed request_not_built
  fetch now not_answered = failed fetch_failed
  fetch now (response status header body) =
      if not (nat_eq status 200) then failed (returned_status status) else decoded now header body

  -- The outcome of a resolution, and the lifetime of the client that is made.
  abbrev pub described : String → ClientMetadataDocument × ℕ → Fetched (Client × ℕ)
  described id (d, lifetime) = do
    client ← client_from_document lib.parse f.policy id d
    got (client, lifetime)

  abbrev pub to_store : StoreInputs → String → Cache → Fetched (Client × ℕ) → Fetched Client × Cache
  to_store i id c (got (client, lifetime)) = (got client, store i id client lifetime c)
  to_store i id c (failed e) = (failed e, c)

  abbrev pub or_fetched : Inputs → String → Option Client × Cache → Fetched Client × Cache
  or_fetched i id (some client, c) = (got client, c)
  or_fetched i id (none, c) =
      to_store i.store_inputs id c (fetch i.fetched_at i.response >>= described id)

  abbrev pub look : ℕ → String → Cache → Option Client × Cache
  look now id c = if nat_eq f.cache_ttl 0 then (none, c) else cached id now c

  -- `ResolveClient`; `none` for an identifier that is not an address of a document.
  unfoldable pub resolve_client : Inputs → String → Cache → Option (Fetched Client) × Cache
  unfolding client_metadata_url_string cached store fetch client_from_document
  resolve_client i id c =
      let r = or_fetched i id (look i.looked_at id c) in
      if client_metadata_url_string lib.parse_metadata f.allow_loopback id
      then (some r.0, r.1)
      else (none, c)

-- What the storage adapter makes of an outcome.
abbrev pub to_resolution : Option (Fetched Client) → Resolution
to_resolution none = not_a_client_metadata_url
to_resolution (some (got c)) = resolved c
to_resolution (some (failed e)) = unresolved
