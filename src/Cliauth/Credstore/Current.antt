-- ===== src/Cliauth/Credstore/Current.antt =====
-- Which host is current in the credential store, over every sequence of its calls.
use mcp_kit.Prelude.{
  String, Bool, true, false, ◌≡◌, ◌≢◌, ◌⊎◌, inl, inr, refl, sym, arith, Option, none, some, [], ◌∷◌,
  is_some, ◌==◌, eq_iff, Bool-cases, Option-cases, if◌then◌else◌,
}
use mcp_kit.Cliauth.Credstore.{
  Credentials, Hosts, Contents, File, absent, unreadable, unparsable, without_hosts, holding,
  not_logged_in, ok, err, load_all, find, put, delete, first_host, load_host, load_current,
  with_host, save_host, save_host_in, use_host, use_found, leave, delete_found, delete_host,
}
use mcp_kit.Cliauth.Credstore.Laws.{find-put, find-put_other, find-delete_other, find-first_host}

-- A host that is current is in the map, and no host is the empty text.
abbrev IsCurrent : File → Type 0
IsCurrent absent = Unit
IsCurrent unreadable = ⊥
IsCurrent unparsable = ⊥
IsCurrent without_hosts = ⊥
IsCurrent (holding c) = (is_some (find c.current c.hosts) ≡ true) × (find "" c.hosts ≡ none)

-- The files that the store's calls make, from none, where nothing else changes the file.
pub data Reach : File → Type 0 where
  start : Reach absent
  saved :
      {f : File} (w : Bool) (host : String) (creds : Credentials)
      → Reach f
      → Reach (save_host w host creds f).1
  used : {f : File} (w : Bool) (host : String) → Reach f → Reach (use_host w host f).1
  deleted : {f : File} (w : Bool) (host : String) → Reach f → Reach (delete_host w host f).1

put-IsCurrent :
    (host : String) (creds : Credentials) (c : Contents)
    → (host == "") ≡ false
    → (c.current ≡ "") ⊎ (is_some (find c.current c.hosts) ≡ true)
    → find "" c.hosts ≡ none
    → IsCurrent (holding (with_host host creds c))
unfolding with_host
put-IsCurrent host creds c ne cur empty =
    let no_empty : find "" (put host creds c.hosts) ≡ none =
      rw (find-put_other host "" creds c.hosts ne) empty in
    elim (Bool-cases (c.current == "")) [
      | inl e ↦ rw e (rw (find-put host creds c.hosts) refl, no_empty)
      | inr e ↦ elim (Bool-cases (host == c.current)) [
        | inl f ↦
            let same : c.current ≡ host = sym ((eq_iff host c.current).0 f) in
            rw (e, same, find-put host creds c.hosts) (refl, no_empty)
        | inr f ↦ elim cur [
          | inl none_yet ↦ absurd (cc (rw none_yet at e))
          | inr is ↦ rw (e, find-put_other host c.current creds c.hosts f) (is, no_empty)
        ]
      ]
    ]

save-IsCurrent :
    (w : Bool) (host : String) (creds : Credentials) (f : File)
    → (host == "") ≡ false
    → IsCurrent f
    → IsCurrent (save_host_in w host creds f (load_all f)).1
unfolding load_all find
save-IsCurrent true host creds absent ne h =
    put-IsCurrent host creds (record { current = ""; hosts = [] }) ne (inl refl) refl
save-IsCurrent false host creds absent ne h = tt
save-IsCurrent w host creds unreadable ne h = absurd h
save-IsCurrent w host creds unparsable ne h = absurd h
save-IsCurrent w host creds without_hosts ne h = absurd h
save-IsCurrent true host creds (holding c) ne h = put-IsCurrent host creds c ne (inr h.0) h.1
save-IsCurrent false host creds (holding c) ne h = h

use-IsCurrent :
    (w : Bool) (host : String) (c : Contents) (o : Option Credentials)
    → find host c.hosts ≡ o
    → IsCurrent (holding c)
    → IsCurrent (use_found w host c (holding c) o).1
use-IsCurrent w host c none is h = h
use-IsCurrent true host c (some d) is h = (rw is refl, h.1)
use-IsCurrent false host c (some d) is h = h

leave-IsCurrent :
    (w : Bool) (host : String) (c : Contents) (hs : Hosts)
    → (host == "") ≡ false
    → delete host c.hosts ≡ hs
    → IsCurrent (holding c)
    → IsCurrent (leave w (if c.current == host then first_host hs else c.current) hs (holding c)).1
leave-IsCurrent true host c [] ne is h = tt
leave-IsCurrent false host c [] ne is h = h
leave-IsCurrent false host c (k ∷ hs) ne is h = h
leave-IsCurrent true host c (k ∷ hs) ne is h =
    let kept = find-delete_other host "" c.hosts ne in
    let no_empty : find "" (k ∷ hs) ≡ none = rw (← is, kept) h.1 in
    elim (Bool-cases (c.current == host)) [
      | inl e ↦ rw e (find-first_host k hs, no_empty)
      | inr e ↦
          let other : (host == c.current) ≡ false =
            ground (arith, eq_iff host c.current, eq_iff c.current host) in
          let same : find c.current (k ∷ hs) ≡ find c.current c.hosts =
            rw (← is) (find-delete_other host c.current c.hosts other) in
          rw (e, same) (h.0, no_empty)
    ]

delete-IsCurrent :
    (w : Bool) (host : String) (c : Contents) (o : Option Credentials)
    → find host c.hosts ≡ o
    → IsCurrent (holding c)
    → IsCurrent (delete_found w host c (holding c) o).1
delete-IsCurrent w host c none is h = h
delete-IsCurrent w host c (some d) is h = elim (Bool-cases (host == "")) [
  | inl e ↦
      let empty : host ≡ "" = (eq_iff host "").0 e in
      let there : find "" c.hosts ≡ some d = rw (← empty) is in absurd (cc (there, h.1))
  | inr e ↦ leave-IsCurrent w host c (delete host c.hosts) e refl h
]

Reach-IsCurrent : {f : File} → Reach f → IsCurrent f
unfolding save_host use_host delete_host load_all
Reach-IsCurrent start = tt
Reach-IsCurrent (saved {f = f} w host creds r) =
    let h = Reach-IsCurrent r in
    elim (Bool-cases (host == "")) [
      | inl e ↦ rw e h
      | inr e ↦ rw e (save-IsCurrent w host creds f e h)
    ]
Reach-IsCurrent (used {f = f} w host r) = use_file f (Reach-IsCurrent r)
  where
    use_file : (f : File) → IsCurrent f → IsCurrent (use_host w host f).1
    use_file absent h = tt
    use_file unreadable h = absurd h
    use_file unparsable h = absurd h
    use_file without_hosts h = absurd h
    use_file (holding c) h = use-IsCurrent w host c (find host c.hosts) refl h
Reach-IsCurrent (deleted {f = f} w host r) = delete_file f (Reach-IsCurrent r)
  where
    delete_file : (f : File) → IsCurrent f → IsCurrent (delete_host w host f).1
    delete_file absent h = tt
    delete_file unreadable h = absurd h
    delete_file unparsable h = absurd h
    delete_file without_hosts h = absurd h
    delete_file (holding c) h = delete-IsCurrent w host c (find host c.hosts) refl h

-- Whatever is saved, chosen and deleted, and whether or not the system writes and removes the file,
-- there is no file, and then no login is current; or a host is current, its credentials are those
-- that are loaded for it, and it has a name.
pub Reach-load_current :
    (f : File)
    → Reach f
    → ((f ≡ absent) × (load_current f ≡ err not_logged_in))
      ⊎ ((host : String) × (creds : Credentials) × (host ≢ "")
          × (load_current f ≡ ok (host, creds))
          × (load_host host f ≡ ok creds))
unfolding load_current load_host load_all
Reach-load_current absent r = inl (refl, refl)
Reach-load_current unreadable r = absurd (Reach-IsCurrent r)
Reach-load_current unparsable r = absurd (Reach-IsCurrent r)
Reach-load_current without_hosts r = absurd (Reach-IsCurrent r)
Reach-load_current (holding c) r =
    let (is, empty) = Reach-IsCurrent r in
    elim (Option-cases (find c.current c.hosts)) [
      | inl e ↦ absurd (cc (rw e at is))
      | inr (creds, e) ↦
          let has_name : c.current ≢ "" = λ h.
            let there : find "" c.hosts ≡ some creds = rw (← h) e in absurd (cc (there, empty)) in
          let ne : (c.current == "") ≡ false = ground (arith, eq_iff c.current "", has_name) in
          inr (c.current, creds, has_name, rw (ne, e) refl, rw e refl)
    ]
