-- ===== src/Cimd/Cache.antt =====
-- The cache of documents of oauth/cimd.go: `cached`, `store` and `evictExpiredLocked`, each of which
-- holds the lock. Which entry the iteration of a map gives first is an input.
pub mod Laws
use mcp_kit.Prelude.{
  ℕ, zero, suc, ◌+◌, String, Bool, true, false, Option, none, some, List, [], ◌∷◌, length, ltb, leb,
  ◌==◌, if◌then◌else◌,
}
use mcp_kit.Storage.Types.{Client}

-- `cachedMetadataDocument`, with its key.
pub record CachedMetadataDocument : Type 0 where
  pub client_id : String
  pub client : Client
  pub expires_at : ℕ

abbrev pub client_metadata_max_cache_items : ℕ
client_metadata_max_cache_items = 256

abbrev pub Cache : Type 0
Cache = List CachedMetadataDocument

-- Whether an entry is expired: `expiresAt` is not after the instant.
abbrev pub is_expired : ℕ → CachedMetadataDocument → Bool
is_expired now e = leb e.expires_at now

unfoldable pub find : String → Cache → Option CachedMetadataDocument
find id [] = none
find id (e ∷ c) = let rest = find id c in if e.client_id == id then some e else rest

unfoldable pub delete : String → Cache → Cache
delete id [] = []
delete id (e ∷ c) = let rest = delete id c in if e.client_id == id then rest else e ∷ rest

abbrev pub cached_entry : String → ℕ → Cache → Option CachedMetadataDocument → Option Client × Cache
cached_entry id now c none = (none, c)
cached_entry id now c (some e) =
    if is_expired now e then (none, delete id c) else (some e.client, c)

-- `cached`; the configured lifetime is never 0 in a fetcher that is made.
unfoldable pub cached : String → ℕ → Cache → Option Client × Cache
unfolding find delete
cached id now c = cached_entry id now c (find id c)

unfoldable pub evict_expired : ℕ → Cache → Cache
evict_expired now [] = []
evict_expired now (e ∷ c) =
    let rest = evict_expired now c in if is_expired now e then rest else e ∷ rest

-- One entry less: that at a place, or the last.
unfoldable pub remove_at : ℕ → Cache → Cache
remove_at i [] = []
remove_at i (e ∷ []) = []
remove_at zero (e ∷ f ∷ c) = f ∷ c
remove_at (suc i) (e ∷ f ∷ c) = e ∷ remove_at i (f ∷ c)

abbrev is_full : Cache → Bool
is_full c = leb client_metadata_max_cache_items (length c)

-- The readings of the clock in `store`, and the place of the entry that a full cache loses.
pub record StoreInputs : Type 0 where
  pub evicted_at : ℕ
  pub stored_at : ℕ
  pub first : ℕ

-- The two evictions.
unfoldable pub make_room : StoreInputs → Cache → Cache
unfolding evict_expired remove_at
make_room i c =
    let swept = if is_full c then evict_expired i.evicted_at c else c in
    if is_full swept then remove_at i.first swept else swept

unfoldable pub store : StoreInputs → String → Client → ℕ → Cache → Cache
unfolding make_room delete
store i id client zero c = c
store i id client (suc n) c =
    record { client_id = id; client = client; expires_at = i.stored_at + suc n }
    ∷ delete id (make_room i c)
