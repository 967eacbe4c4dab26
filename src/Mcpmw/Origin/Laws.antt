-- ===== src/Mcpmw/Origin/Laws.antt =====
-- Which origins are let through.
use mcp_kit.Prelude.{
  String, Bool, true, ◌≡◌, ◌≢◌, ◌↔◌, ◌⊎◌, inl, inr, arith, Option, some, contains, ◌==◌, eq_iff,
  Bool-cases, Option-cases,
}
use mcp_kit.Mcpmw.Origin.{
  OriginConfig, served, strip_brackets, host_is_loopback, is_loopback_origin, enforce,
}

module _ (hostname : String → Option String) (parse_ip : String → Option Bool) where
  -- The origin's host is `localhost`, or an address that is a loopback one.
  abbrev pub IsLoopback : String → Type 0
  IsLoopback origin =
      (host : String) × (hostname origin ≡ some host)
      × (host ≢ "")
      × ((host ≡ "localhost") ⊎ (parse_ip (strip_brackets host) ≡ some true))

  abbrev IsLocal : String → Type 0
  IsLocal host = (host ≢ "") × ((host ≡ "localhost") ⊎ (parse_ip (strip_brackets host) ≡ some true))

  host_is_loopback_sound :
      (host : String) → host_is_loopback hostname parse_ip (some host) ≡ true → IsLocal host
  host_is_loopback_sound host h = elim (Bool-cases (host == "localhost")) [
    | inl e ↦ (ground (arith, eq_iff host ""), inl ((eq_iff host "localhost").0 e))
    | inr e ↦ elim (Option-cases (parse_ip (strip_brackets host))) [
      | inl n ↦ absurd (ground arith)
      | inr (b, n) ↦ (ground (arith, eq_iff host ""), inr (ground arith))
    ]
  ]

  host_is_loopback_complete :
      (host : String) → IsLocal host → host_is_loopback hostname parse_ip (some host) ≡ true
  host_is_loopback_complete host (n, inl e) =
      ground (arith, eq_iff host "", eq_iff host "localhost")
  host_is_loopback_complete host (n, inr e) =
      ground (arith, eq_iff host "", eq_iff host "localhost")

  is_loopback_origin_iff :
      (origin : String) → (is_loopback_origin hostname parse_ip origin ≡ true) ↔ IsLoopback origin
  unfolding is_loopback_origin
  is_loopback_origin_iff origin = elim (Option-cases (hostname origin)) [
    | inl e ↦ (λ h. absurd (ground arith), λ (host, p, n, x). absurd (cc (rw e at p)))
    | inr (host, e) ↦ (
      λ h. let (n, x) = host_is_loopback_sound host (rw e at h) in (host, e, n, x),
      λ (host2, p, n, x). rw p (host_is_loopback_complete host2 (n, x)),
    )
  ]

  -- A request is let through exactly when it has no origin, its origin is one of those allowed, or
  -- loopback origins are allowed and its origin is one.
  pub enforce-eq-served_iff :
      (cfg : OriginConfig) (origin : String)
      → (enforce hostname parse_ip cfg origin ≡ served) ↔ (
          (origin ≡ "")
          ⊎ ((contains cfg.allowed origin ≡ true)
              ⊎ ((cfg.allow_loopback ≡ true) × IsLoopback origin)))
  unfolding enforce
  enforce-eq-served_iff cfg origin =
      elim (Bool-cases (is_loopback_origin hostname parse_ip origin)) [
        | inl l ↦ elim (Bool-cases (origin == "")) [
          | inl o ↦ (λ h. inl ((eq_iff origin "").0 o), λ h. ground arith)
          | inr o ↦ elim (Bool-cases (contains cfg.allowed origin)) [
            | inl a ↦ (λ h. inr (inl a), λ h. ground arith)
            | inr a ↦ (
              λ h. inr (inr (ground arith, (is_loopback_origin_iff origin).0 l)),
              λ h. ground (arith, eq_iff origin ""),
            )
          ]
        ]
        | inr l ↦ (
          λ h. elim (Bool-cases (origin == "")) [
            | inl o ↦ inl ((eq_iff origin "").0 o)
            | inr o ↦ inr (inl (ground arith))
          ],
          λ h. elim h [
            | inl e ↦ ground (arith, eq_iff origin "")
            | inr (inl e) ↦ ground arith
            | inr (inr (a, e)) ↦ ground (arith, (is_loopback_origin_iff origin).1 e)
          ],
        )
      ]
