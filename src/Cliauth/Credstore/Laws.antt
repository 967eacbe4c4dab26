-- ===== src/Cliauth/Credstore/Laws.antt =====
-- What the credential store keeps: what is saved, whose credentials are found, and which host is
-- current.
use mcp_kit.Prelude.{
  String, Bool, true, false, ◌≡◌, ◌≢◌, ◌⊎◌, inl, inr, refl, none, some, List, [], ◌∷◌, is_some,
  ◌==◌, eq_iff, eq_refl, Bool-cases, Option-cases,
}
use mcp_kit.Cliauth.Credstore.{
  Credentials, Hosts, Contents, File, absent, unreadable, unparsable, without_hosts, holding, Error,
  not_logged_in, Result, ok, err, load_all, write, find, put, delete, before, insert, sorted_keys,
  first_of, first_host, load_host, with_host, save_host, save_host_in, leave, delete_host,
}

pub find-put : (h : String) (c : Credentials) (hs : Hosts) → find h (put h c hs) ≡ some c
unfolding find put
find-put h c [] = rw (eq_refl h) refl
find-put h c ((k, d) ∷ hs) = elim (Bool-cases (k == h)) [
  | inl e ↦ rw (e, eq_refl h) refl
  | inr e ↦ rw (e, e) (find-put h c hs)
]

pub find-put_other :
    (h k : String) (c : Credentials) (hs : Hosts)
    → (h == k) ≡ false
    → find k (put h c hs) ≡ find k hs
unfolding find put
find-put_other h k c [] ne = rw ne refl
find-put_other h k c ((l, d) ∷ hs) ne = elim (Bool-cases (l == h)) [
  | inl e ↦
      let same : l ≡ h = (eq_iff l h).0 e in
      let other : (l == k) ≡ false = rw same ne in rw (e, ne, other) refl
  | inr e ↦ elim (Bool-cases (l == k)) [
    | inl f ↦ rw (e, f) refl
    | inr f ↦ rw (e, f) (find-put_other h k c hs ne)
  ]
]

find-delete : (h : String) (hs : Hosts) → find h (delete h hs) ≡ none
unfolding find delete
find-delete h [] = refl
find-delete h ((k, d) ∷ hs) = elim (Bool-cases (k == h)) [
  | inl e ↦ rw e (find-delete h hs)
  | inr e ↦ rw (e, e) (find-delete h hs)
]

pub find-delete_other :
    (h k : String) (hs : Hosts) → (h == k) ≡ false → find k (delete h hs) ≡ find k hs
unfolding find delete
find-delete_other h k [] ne = refl
find-delete_other h k ((l, d) ∷ hs) ne = elim (Bool-cases (l == h)) [
  | inl e ↦
      let same : l ≡ h = (eq_iff l h).0 e in
      let other : (l == k) ≡ false = rw same ne in rw (e, other) (find-delete_other h k hs ne)
  | inr e ↦ elim (Bool-cases (l == k)) [
    | inl f ↦ rw (e, f) refl
    | inr f ↦ rw (e, f) (find-delete_other h k hs ne)
  ]
]

first_of-insert :
    (s : String) (ts : List String)
    → (first_of (insert s ts) ≡ s) ⊎ ((ts ≢ []) × (first_of (insert s ts) ≡ first_of ts))
unfolding insert
first_of-insert s [] = inl refl
first_of-insert s (t ∷ ts) = elim (Bool-cases (before s t)) [
  | inl e ↦ rw e (inl refl)
  | inr e ↦ rw e (inr (λ h. absurd (cc), refl))
]

find-cons :
    (h : String) (c : Credentials) (hs : Hosts) (x y : String)
    → x ≡ y
    → is_some (find y hs) ≡ true
    → is_some (find x ((h, c) ∷ hs)) ≡ true
unfolding find
find-cons h c hs x y same is = elim (Bool-cases (h == x)) [
  | inl e ↦ rw e refl
  | inr e ↦ let moved : is_some (find x hs) ≡ true = rw same is in rw e moved
]

-- The first host of a map that is not empty is in the map.
pub find-first_host :
    (h : String × Credentials) (hs : Hosts) → is_some (find (first_host (h ∷ hs)) (h ∷ hs)) ≡ true
unfolding find first_host sorted_keys
find-first_host (h, c) [] = rw (eq_refl h) refl
find-first_host (h, c) (k ∷ hs) = elim (first_of-insert h (sorted_keys (k ∷ hs))) [
  | inl e ↦ rw (e, eq_refl h) refl
  | inr (_, e) ↦
      find-cons h c (k ∷ hs) (first_host ((h, c) ∷ k ∷ hs)) (first_host (k ∷ hs)) e
        (find-first_host k hs)
]

-- A result that is a success; a host that another result finds.
abbrev pub Saved : String → Credentials → File → Result (Unit {0}) × File → Type 0
Saved host creds f r =
    ((r.0 ≡ ok tt)
      × (load_host host r.1 ≡ ok creds)
      × ((k : String) → (host == k) ≡ false → load_host k r.1 ≡ load_host k f))
    ⊎ ((e : Error) × (r.0 ≡ err e) × (r.1 ≡ f))

write_none-Saved :
    (w : Bool) (host : String) (creds : Credentials) (f : File)
    → load_all f ≡ err not_logged_in
    → Saved host creds f (write w (with_host host creds (record { current = ""; hosts = [] })) f)
unfolding load_host with_host find
write_none-Saved false host creds f h = inr (_, refl, refl)
write_none-Saved true host creds f h =
    inl (
      refl,
      rw (find-put host creds []) refl,
      λ k ne. rw (h, find-put_other host k creds [] ne) refl,
    )

write_some-Saved :
    (w : Bool) (host : String) (creds : Credentials) (c : Contents)
    → Saved host creds (holding c) (write w (with_host host creds c) (holding c))
unfolding load_host with_host
write_some-Saved false host creds c = inr (_, refl, refl)
write_some-Saved true host creds c = inl (
  refl,
  rw (find-put host creds c.hosts) refl,
  λ k ne. rw (find-put_other host k creds c.hosts ne) refl,
)

-- Saving a host's credentials either succeeds, and then they are those that are loaded for that
-- host and those of all other hosts are as before, or fails and leaves the file as it was.
pub load_host-save_host :
    (w : Bool) (host : String) (creds : Credentials) (f : File)
    → Saved host creds f (save_host w host creds f)
unfolding save_host load_all
load_host-save_host w host creds f = elim (Bool-cases (host == "")) [
  | inl e ↦ rw e (inr (_, refl, refl))
  | inr e ↦ rw e (by_file f)
]
  where
    by_file : (f : File) → Saved host creds f (save_host_in w host creds f (load_all f))
    by_file absent = write_none-Saved w host creds absent refl
    by_file without_hosts = write_none-Saved w host creds without_hosts refl
    by_file unreadable = inr (_, refl, refl)
    by_file unparsable = inr (_, refl, refl)
    by_file (holding c) = write_some-Saved w host creds c

abbrev pub Deleted : String → File → Result (Unit {0}) × File → Type 0
Deleted host f r =
    ((r.0 ≡ ok tt)
      × (load_host host r.1 ≡ err not_logged_in)
      × ((k : String) → (host == k) ≡ false → load_host k r.1 ≡ load_host k f))
    ⊎ ((e : Error) × (r.0 ≡ err e) × (r.1 ≡ f))

leave-Deleted :
    (w : Bool) (current host : String) (c : Contents) (hs : Hosts)
    → delete host c.hosts ≡ hs
    → Deleted host (holding c) (leave w current hs (holding c))
unfolding load_host find
leave-Deleted false current host c [] is = inr (_, refl, refl)
leave-Deleted true current host c [] is = inl (
  refl,
  refl,
  λ k ne.
      let kept : find k [] ≡ find k c.hosts = rw is at (find-delete_other host k c.hosts ne) in
      rw (← kept) refl,
)
leave-Deleted false current host c (h ∷ hs) is = inr (_, refl, refl)
leave-Deleted true current host c (h ∷ hs) is =
    let gone : find host (h ∷ hs) ≡ none = rw is at (find-delete host c.hosts) in
    inl (
      refl,
      rw gone refl,
      λ k ne.
          let kept : find k (h ∷ hs) ≡ find k c.hosts =
            rw is at (find-delete_other host k c.hosts ne) in
          rw kept refl,
    )

-- Deleting a host either succeeds, and then nothing is loaded for that host and the credentials of
-- all other hosts are as before, or fails and leaves the file as it was.
pub load_host-delete_host :
    (w : Bool) (host : String) (f : File) → Deleted host f (delete_host w host f)
unfolding delete_host load_host
load_host-delete_host w host absent = inl (refl, refl, λ k ne. refl)
load_host-delete_host w host without_hosts = inl (refl, refl, λ k ne. refl)
load_host-delete_host w host unreadable = inr (_, refl, refl)
load_host-delete_host w host unparsable = inr (_, refl, refl)
load_host-delete_host w host (holding c) = elim (Option-cases (find host c.hosts)) [
  | inl e ↦ rw e (inl (refl, rw e refl, λ k ne. refl))
  | inr (d, e) ↦ rw e (leave-Deleted w _ host c (delete host c.hosts) refl)
]
