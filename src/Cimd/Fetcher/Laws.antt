-- ===== src/Cimd/Fetcher/Laws.antt =====
-- What a resolution yields, however resolutions interleave.
use mcp_kit.Prelude.{
  ℕ, ◌≤◌, ◌<◌, String, ◌≡◌, inl, inr, refl, arith, Option, none, some, [], All, length, nat_eq,
  Option-cases, Bool-cases,
}
use mcp_kit.Storage.Types.{Client, Store, err, not_found}
use mcp_kit.Storage.Adapter.{answer, get_client, resolve}
use mcp_kit.Cimd.Url.{
  MetadataUrl, IsDocumentUrl, client_metadata_url_string, client_metadata_url_string_iff,
}
use mcp_kit.Cimd.Document.{
  ClientMetadataDocument, Fetched, got, failed, ◌>>=◌, client_from_document,
}
use mcp_kit.Cimd.Document.Policy.{IsWithin, client_from_document-IsWithin}
use mcp_kit.Cimd.Cache.{CachedMetadataDocument, Cache, is_expired, find, cached, StoreInputs, store}
use mcp_kit.Cimd.Cache.Laws.{cached-All, store-All, find-All, store-le, cached-le}
use mcp_kit.Cimd.Fetcher.{
  ClientIdMetadataFetcher, Inputs, Libraries, described, to_store, or_fetched, look, resolve_client,
  to_resolution,
}

module _ (lib : Libraries) (f : ClientIdMetadataFetcher) where
  -- The caches of a fetcher: each look and each storing holds the lock, and they come in any
  -- order. What is stored was made of a document.
  pub data Reach : Cache → Type 0 where
    start : Reach []
    looked : {c : Cache} (id : String) (now : ℕ) → Reach c → Reach (cached id now c).1
    stored :
        {c : Cache} (i : StoreInputs) (id : String) (d : ClientMetadataDocument) (client : Client)
        (lifetime : ℕ)
        → Reach c
        → client_from_document lib.parse f.policy id d ≡ got client
        → Reach (store i id client lifetime c)

  abbrev pub Within : String → Client → Type 0
  Within id client = IsWithin lib.parse f.policy id client

  IsSound : CachedMetadataDocument → Type 0
  IsSound e = Within e.client_id e.client

  Reach-IsSound : {c : Cache} → Reach c → All IsSound c
  unfolding IsSound
  Reach-IsSound start = tt
  Reach-IsSound (looked id now r) = cached-All IsSound id now _ (Reach-IsSound r)
  Reach-IsSound (stored i id d client n r h) =
      store-All IsSound i id client n _
        (client_from_document-IsWithin lib.parse f.policy id d client h).1 (Reach-IsSound r)

  -- However looks and storings interleave, the cache never has more than 256 entries.
  pub Reach-le : (c : Cache) → Reach c → length c ≤ 256
  Reach-le c start = omega arith
  Reach-le c (looked id now r) = cached-le id now _ (Reach-le _ r)
  Reach-le c (stored i id d client n r h) = store-le i id client n _ (Reach-le _ r)

  -- Whatever a fetcher has in its cache, a client that it answers from there is within the policy,
  -- under the identifier that was asked for, and the lifetime of its entry is not over.
  pub cached-eq-some :
      (c : Cache) (id : String) (now : ℕ) (client : Client)
      → Reach c
      → (cached id now c).0 ≡ some client
      → Within id client
        × ((e : CachedMetadataDocument) × (find id c ≡ some e)
            × (e.client ≡ client)
            × (now < e.expires_at))
  unfolding cached IsSound
  cached-eq-some c id now client r h = elim (Option-cases (find id c)) [
    | inl e ↦ absurd (cc (rw e at h))
    | inr (x, e) ↦ elim (Bool-cases (is_expired now x)) [
      | inl b ↦ absurd (cc (rw (e, b) at h))
      | inr b ↦
          let is : x.client ≡ client = cc (rw (e, b) at h) in
          let (sound, same) = find-All IsSound id c x (Reach-IsSound r) e in
          (rw (← same, ← is) sound, (x, e, is, ground arith))
    ]
  ]

  -- What a fetch makes was made of a document.
  abbrev IsDescribed : String → Fetched (Client × ℕ) → Type 0
  IsDescribed id m =
      (client : Client) (n : ℕ)
      → m ≡ got (client, n)
      → (d : ClientMetadataDocument) × (client_from_document lib.parse f.policy id d ≡ got client)

  IsDescribed-from :
      (id : String) (d : ClientMetadataDocument) (lifetime : ℕ) (m : Fetched Client)
      → client_from_document lib.parse f.policy id d ≡ m
      → IsDescribed id (do client ← m; got (client, lifetime))
  IsDescribed-from id d lifetime (got made) is client n h =
      let same : made ≡ client = cc in (d, rw is (rw same refl))
  IsDescribed-from id d lifetime (failed e) is client n h = absurd (cc)

  fetched-IsDescribed :
      (id : String) (m : Fetched (ClientMetadataDocument × ℕ))
      → IsDescribed id (m >>= described lib f id)
  fetched-IsDescribed id (got (d, lifetime)) = IsDescribed-from id d lifetime _ refl
  fetched-IsDescribed id (failed e) = λ client n h. absurd (cc)

  to_store-Within :
      (i : StoreInputs) (id : String) (c : Cache) (m : Fetched (Client × ℕ)) (client : Client)
      → IsDescribed id m
      → (to_store lib f i id c m).0 ≡ got client
      → Within id client
  to_store-Within i id c (failed e) client made h = absurd (cc)
  to_store-Within i id c (got (known, n)) client made h =
      let (d, is) = made known n refl in
      let same : known ≡ client = cc in
      rw (← same) (client_from_document-IsWithin lib.parse f.policy id d known is).1

  or_fetched-Within :
      (i : Inputs) (id : String) (o : Option Client) (c : Cache) (client : Client)
      → ((known : Client) → o ≡ some known → Within id known)
      → (or_fetched lib f i id (o, c)).0 ≡ got client
      → Within id client
  or_fetched-Within i id (some known) c client sound h = sound client (cc)
  or_fetched-Within i id none c client sound h =
      to_store-Within i.store_inputs id c _ client (fetched-IsDescribed id _) h

  to_store-Reach :
      (i : StoreInputs) (id : String) (c : Cache) (m : Fetched (Client × ℕ))
      → Reach c
      → IsDescribed id m
      → Reach (to_store lib f i id c m).1
  to_store-Reach i id c (failed e) r made = r
  to_store-Reach i id c (got (known, n)) r made =
      let (d, is) = made known n refl in stored i id d known n r is

  or_fetched-Reach :
      (i : Inputs) (id : String) (o : Option Client) (c : Cache)
      → Reach c
      → Reach (or_fetched lib f i id (o, c)).1
  or_fetched-Reach i id (some known) c r = r
  or_fetched-Reach i id none c r = to_store-Reach i.store_inputs id c _ r (fetched-IsDescribed id _)

  look-Within :
      (now : ℕ) (id : String) (c : Cache)
      → Reach c
      → Reach (look lib f now id c).1
        × ((known : Client) → (look lib f now id c).0 ≡ some known → Within id known)
  look-Within now id c r = elim (Bool-cases (nat_eq f.cache_ttl 0)) [
    | inl e ↦ rw e (r, λ known h. absurd (cc))
    | inr e ↦ rw e (looked id now r, λ known h. (cached-eq-some c id now known r h).0)
  ]

  -- A resolution leaves the cache one that the fetcher can have.
  pub resolve_client-Reach :
      (i : Inputs) (id : String) (c : Cache) → Reach c → Reach (resolve_client lib f i id c).1
  unfolding resolve_client
  resolve_client-Reach i id c r =
      let (looks, sound) = look-Within i.looked_at id c r in
      elim (Bool-cases (client_metadata_url_string lib.parse_metadata f.allow_loopback id)) [
        | inr e ↦ rw e r
        | inl e ↦ rw e (or_fetched-Reach i id _ _ looks)
      ]

  -- Whatever the fetcher has in its cache, what it resolves is a client within the policy under
  -- the identifier asked for, which is an address that may name a document, whether the client
  -- comes from the cache or from a document that is fetched.
  pub resolve_client-eq-got :
      (i : Inputs) (id : String) (c : Cache) (client : Client)
      → Reach c
      → (resolve_client lib f i id c).0 ≡ some (got client)
      → Within id client
        × ((u : MetadataUrl) × (lib.parse_metadata id ≡ some u) × IsDocumentUrl f.allow_loopback u)
  unfolding resolve_client
  resolve_client-eq-got i id c client r h =
      let (_, sound) = look-Within i.looked_at id c r in
      elim (Bool-cases (client_metadata_url_string lib.parse_metadata f.allow_loopback id)) [
        | inr e ↦ absurd (cc (rw e at h))
        | inl e ↦
            let is : (or_fetched lib f i id (look lib f i.looked_at id c)).0 ≡ got client =
              cc (rw e at h) in
            (
              or_fetched-Within i id _ _ client sound is,
              (client_metadata_url_string_iff lib.parse_metadata f.allow_loopback id).0 e,
            )
      ]

  resolved-is :
      (o : Option (Fetched Client)) (client : Client)
      → resolve (to_resolution o) ≡ answer client
      → o ≡ some (got client)
  resolved-is none client h = absurd (cc)
  resolved-is (some (failed e)) client h = absurd (cc)
  resolved-is (some (got known)) client h = let same : known ≡ client = cc in rw same refl

  -- The storage adapter with the fetcher behind its store: a client that it finds where the store
  -- has none is public, without a secret, and within the policy under the identifier asked for.
  pub get_client-resolve_client :
      {S : Type 0} (store : Store S) (i : Inputs) (id : String) (c : Cache) (s : S)
      (client : Client)
      → Reach c
      → store.get_client id s ≡ err not_found
      → get_client store (some (λ x. to_resolution (resolve_client lib f i x c).0)) id s
        ≡ answer client
      → Within id client
  unfolding get_client
  get_client-resolve_client store i id c s client r missing h =
      let is = resolved-is (resolve_client lib f i id c).0 client (rw missing at h) in
      (resolve_client-eq-got i id c client r is).0
