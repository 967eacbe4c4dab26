-- ===== src/Cimd/Url.antt =====
-- `clientMetadataURL` of oauth/cimd.go: which addresses name a document. What Go's `net/url` parses
-- a text to is a parameter.
use mcp_kit.Prelude.{
  String, Bool, true, false, not, ◌&&◌, ◌||◌, ◌≡◌, ◌≢◌, ◌↔◌, ◌⊎◌, inl, inr, refl, arith, Option,
  none, some, ◌==◌, eq_iff, Option-cases, if◌then◌else◌,
}
use mcp_kit.Register.Uris.{is_loopback_host}

-- `url.URL`, as far as the check reads it.
pub record MetadataUrl : Type 0 where
  pub scheme : String
  pub host : String
  pub hostname : String
  pub path : String
  pub fragment : String
  pub has_user : Bool

unfoldable pub client_metadata_url : Bool → MetadataUrl → Bool
unfolding is_loopback_host
client_metadata_url allow_loopback u =
    if u.host == ""
    then false
    else if u.has_user || not (u.fragment == "")
    then false
    else if u.path == "" || u.path == "/"
    then false
    else if u.scheme == "https"
    then true
    else if u.scheme == "http"
    then allow_loopback && is_loopback_host u.hostname
    else false

-- Where a document may be: at a path of a host, by https, or by http on this host where that is
-- allowed.
abbrev pub IsDocumentUrl : Bool → MetadataUrl → Type 0
IsDocumentUrl allow_loopback u =
    (u.host ≢ "")
    × (u.has_user ≡ false)
    × (u.fragment ≡ "")
    × (u.path ≢ "")
    × (u.path ≢ "/")
    × ((u.scheme ≡ "https")
        ⊎ ((u.scheme ≡ "http")
            × (allow_loopback ≡ true)
            × ((u.hostname ≡ "localhost") ⊎ ((u.hostname ≡ "127.0.0.1") ⊎ (u.hostname ≡ "::1")))))

abbrev pub checked_url : Bool → Option MetadataUrl → Bool
checked_url allow_loopback none = false
checked_url allow_loopback (some u) = client_metadata_url allow_loopback u

-- `clientMetadataURLString`
unfoldable pub client_metadata_url_string : (String → Option MetadataUrl) → Bool → String → Bool
unfolding client_metadata_url
client_metadata_url_string parse allow_loopback raw = checked_url allow_loopback (parse raw)

client_metadata_url_iff :
    (allow_loopback : Bool) (u : MetadataUrl)
    → (client_metadata_url allow_loopback u ≡ true) ↔ IsDocumentUrl allow_loopback u
unfolding client_metadata_url is_loopback_host
client_metadata_url_iff allow u = (
  λ h. ground (
    arith,
    eq_iff u.host "",
    eq_iff u.fragment "",
    eq_iff u.path "",
    eq_iff u.path "/",
    eq_iff u.scheme "https",
    eq_iff u.scheme "http",
    eq_iff u.hostname "localhost",
    eq_iff u.hostname "127.0.0.1",
    eq_iff u.hostname "::1",
  ),
  λ h. ground (
    arith,
    eq_iff u.host "",
    eq_iff u.fragment "",
    eq_iff u.path "",
    eq_iff u.path "/",
    eq_iff u.scheme "https",
    eq_iff u.scheme "http",
    eq_iff u.hostname "localhost",
    eq_iff u.hostname "127.0.0.1",
    eq_iff u.hostname "::1",
  ),
)

-- A text names a document exactly when it parses to an address with a host, without user
-- information and fragment, and with a path other than "/", whose scheme is https, or http on a
-- loopback host where loopback is allowed.
pub client_metadata_url_string_iff :
    (parse : String → Option MetadataUrl) (allow_loopback : Bool) (raw : String)
    → (client_metadata_url_string parse allow_loopback raw ≡ true)
      ↔ ((u : MetadataUrl) × (parse raw ≡ some u) × IsDocumentUrl allow_loopback u)
unfolding client_metadata_url_string
client_metadata_url_string_iff parse allow raw = elim (Option-cases (parse raw)) [
  | inl e ↦ rw e (λ h. absurd (cc), λ (u, p, t). absurd (cc))
  | inr (u, e) ↦ rw e (
    λ h. (u, refl, (client_metadata_url_iff allow u).0 h),
    λ (v, p, t). let same : v ≡ u = cc in (client_metadata_url_iff allow u).1 (rw (← same) t),
  )
]
