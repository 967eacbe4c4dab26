-- ===== src/Cimd/Cache/Laws.antt =====
-- The bounds of the cache, and what it answers.
use mcp_kit.Prelude.{
  ℕ, zero, suc, ◌+◌, ◌≤◌, ◌<◌, String, true, false, ◌≡◌, inl, inr, refl, arith, none, some, [], ◌∷◌,
  All, length, leb, leb→le, ◌==◌, eq_iff, eq_refl, Bool-cases, Option-cases,
}
use mcp_kit.Storage.Types.{Client}
use mcp_kit.Cimd.Cache.{
  CachedMetadataDocument, Cache, is_expired, find, delete, cached, evict_expired, remove_at,
  StoreInputs, make_room, store,
}

module _ (P : CachedMetadataDocument → Type 0) where
  delete-All : (id : String) (c : Cache) → All P c → All P (delete id c)
  unfolding delete
  delete-All id [] h = tt
  delete-All id (e ∷ c) h = elim (Bool-cases (e.client_id == id)) [
    | inl b ↦ rw b (delete-All id c h.1)
    | inr b ↦ rw b (h.0, delete-All id c h.1)
  ]

  evict_expired-All : (now : ℕ) (c : Cache) → All P c → All P (evict_expired now c)
  unfolding evict_expired
  evict_expired-All now [] h = tt
  evict_expired-All now (e ∷ c) h = elim (Bool-cases (is_expired now e)) [
    | inl b ↦ rw b (evict_expired-All now c h.1)
    | inr b ↦ rw b (h.0, evict_expired-All now c h.1)
  ]

  remove_at-All : (i : ℕ) (c : Cache) → All P c → All P (remove_at i c)
  unfolding remove_at
  remove_at-All i [] h = tt
  remove_at-All i (e ∷ []) h = tt
  remove_at-All zero (e ∷ f ∷ c) h = h.1
  remove_at-All (suc i) (e ∷ f ∷ c) h = (h.0, remove_at-All i (f ∷ c) h.1)

  make_room-All : (i : StoreInputs) (c : Cache) → All P c → All P (make_room i c)
  unfolding make_room
  make_room-All i c h = elim (Bool-cases (leb 256 (length c))) [
    | inl full ↦
        let swept = evict_expired-All i.evicted_at c h in
        elim (Bool-cases (leb 256 (length (evict_expired i.evicted_at c)))) [
          | inl b ↦ rw (full, b) (remove_at-All i.first (evict_expired i.evicted_at c) swept)
          | inr b ↦ rw (full, b) swept
        ]
    | inr room ↦ rw (room, room) h
  ]

  pub cached-All : (id : String) (now : ℕ) (c : Cache) → All P c → All P (cached id now c).1
  unfolding cached
  cached-All id now c h = elim (Option-cases (find id c)) [
    | inl e ↦ rw e h
    | inr (x, e) ↦ elim (Bool-cases (is_expired now x)) [
      | inl b ↦ rw (e, b) (delete-All id c h)
      | inr b ↦ rw (e, b) h
    ]
  ]

  pub store-All :
      (i : StoreInputs) (id : String) (client : Client) (n : ℕ) (c : Cache)
      → P (record { client_id = id; client = client; expires_at = i.stored_at + n })
      → All P c
      → All P (store i id client n c)
  unfolding store
  store-All i id client zero c p h = h
  store-All i id client (suc n) c p h = (p, delete-All id (make_room i c) (make_room-All i c h))

  pub find-All :
      (id : String) (c : Cache) (e : CachedMetadataDocument)
      → All P c
      → find id c ≡ some e
      → P e × (e.client_id ≡ id)
  unfolding find
  find-All id [] e h is = absurd (cc)
  find-All id (x ∷ c) e h is = elim (Bool-cases (x.client_id == id)) [
    | inl b ↦
        let same : x ≡ e = cc (rw b at is) in
        (rw (← same) h.0, rw (← same) ((eq_iff x.client_id id).0 b))
    | inr b ↦ find-All id c e h.1 (rw b at is)
  ]

delete-le : (id : String) (c : Cache) → length (delete id c) ≤ length c
unfolding delete
delete-le id [] = omega arith
delete-le id (e ∷ c) = elim (Bool-cases (e.client_id == id)) [
  | inl b ↦ rw b (omega (arith, delete-le id c))
  | inr b ↦ rw b (omega (arith, delete-le id c))
]

evict_expired-le : (now : ℕ) (c : Cache) → length (evict_expired now c) ≤ length c
unfolding evict_expired
evict_expired-le now [] = omega arith
evict_expired-le now (e ∷ c) = elim (Bool-cases (is_expired now e)) [
  | inl b ↦ rw b (omega (arith, evict_expired-le now c))
  | inr b ↦ rw b (omega (arith, evict_expired-le now c))
]

remove_at-lt : (i : ℕ) (c : Cache) → 1 ≤ length c → suc (length (remove_at i c)) ≤ length c
unfolding remove_at
remove_at-lt i [] h = h
remove_at-lt i (e ∷ []) h = omega arith
remove_at-lt zero (e ∷ f ∷ c) h = omega arith
remove_at-lt (suc i) (e ∷ f ∷ c) h = omega (arith, remove_at-lt i (f ∷ c) (omega arith))

make_room-lt : (i : StoreInputs) (c : Cache) → length c ≤ 256 → length (make_room i c) < 256
unfolding make_room
make_room-lt i c h = elim (Bool-cases (leb 256 (length c))) [
  | inl full ↦
      let swept = evict_expired-le i.evicted_at c in
      elim (Bool-cases (leb 256 (length (evict_expired i.evicted_at c)))) [
        | inl b ↦
            let some_entry = leb→le 256 (length (evict_expired i.evicted_at c)) b in
            let less =
              remove_at-lt i.first (evict_expired i.evicted_at c) (omega (arith, some_entry)) in
            rw (full, b) (omega (arith, less, swept))
        | inr b ↦ rw (full, b) (ground arith)
      ]
  | inr room ↦ rw (room, room) (ground arith)
]

pub store-le :
    (i : StoreInputs) (id : String) (client : Client) (n : ℕ) (c : Cache)
    → length c ≤ 256
    → length (store i id client n c) ≤ 256
unfolding store
store-le i id client zero c h = h
store-le i id client (suc n) c h = omega (arith, delete-le id (make_room i c), make_room-lt i c h)

pub cached-le :
    (id : String) (now : ℕ) (c : Cache) → length c ≤ 256 → length (cached id now c).1 ≤ 256
unfolding cached
cached-le id now c h = elim (Option-cases (find id c)) [
  | inl e ↦ rw e h
  | inr (x, e) ↦ elim (Bool-cases (is_expired now x)) [
    | inl b ↦ rw (e, b) (omega (arith, delete-le id c))
    | inr b ↦ rw (e, b) h
  ]
]

-- A client that is stored is answered until its lifetime is over, and no longer; with no lifetime
-- the cache stays as it was.
pub cached-store :
    (i : StoreInputs) (id : String) (client : Client) (n now : ℕ) (c : Cache)
    → (((0 < n) × (now < i.stored_at + n))
        → (cached id now (store i id client n c)).0 ≡ some client)
      × (((0 < n) × (i.stored_at + n ≤ now)) → (cached id now (store i id client n c)).0 ≡ none)
      × ((n ≡ 0) → store i id client n c ≡ c)
unfolding cached store find
cached-store i id client zero now c =
    (λ h. absurd (omega (arith, h.0)), λ h. absurd (omega (arith, h.0)), λ h. refl)
cached-store i id client (suc n) now c = (
  λ h.
      let fresh : leb (i.stored_at + suc n) now ≡ false = ground arith in
      rw (eq_refl id, fresh) refl,
  λ h. let late : leb (i.stored_at + suc n) now ≡ true = ground arith in rw (eq_refl id, late) refl,
  λ h. absurd (omega (arith, h)),
)
