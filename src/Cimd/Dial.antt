-- ===== src/Cimd/Dial.antt =====
-- oauth/cimd_transport.go: which addresses the fetch client dials, and which redirects it follows.
-- The classes of an address are those of Go's `net`; the resolver and the dialer are inputs.
use mcp_kit.Prelude.{
  ℕ, String, Bool, true, false, not, ◌&&◌, ◌≡◌, ◌⊎◌, inl, inr, refl, arith, Option, none, some,
  List, [], ◌∷◌, All, leb, Bool-cases, if◌then◌else◌,
}
use mcp_kit.Cimd.Url.{MetadataUrl, client_metadata_url}

-- `net.IP`, with what its methods say of it.
pub record Ip : Type 0 where
  pub text : String
  pub is_loopback : Bool
  pub is_private : Bool
  pub is_link_local_unicast : Bool
  pub is_link_local_multicast : Bool
  pub is_interface_local_multicast : Bool
  pub is_multicast : Bool
  pub is_unspecified : Bool

unfoldable pub client_metadata_target_allowed : Ip → Bool → Bool
client_metadata_target_allowed ip allow_loopback =
    if ip.is_loopback
    then allow_loopback
    else not ip.is_private
      && not ip.is_link_local_unicast
      && not ip.is_link_local_multicast
      && not ip.is_interface_local_multicast
      && not ip.is_multicast
      && not ip.is_unspecified

pub data DialError : Type 0 where
  split_failed resolve_failed no_addresses blocked_host : DialError
  blocked dial_failed : Ip → DialError

-- A connection is to an address.
pub data Dialed : Type 0 where
  connected : Ip → Dialed
  refused : DialError → Dialed

abbrev last_error : Option DialError → DialError
last_error none = blocked_host
last_error (some e) = e

module _ (allow_loopback : Bool) (connects : Ip → Bool) where
  -- The loop over the addresses, with its last error, and the addresses that it dials, in order.
  unfoldable pub dial_each : Option DialError → List Ip → Dialed × List Ip
  unfolding client_metadata_target_allowed
  dial_each last [] = (refused (last_error last), [])
  dial_each last (ip ∷ ips) =
      let after_block = dial_each (some (blocked ip)) ips in
      let after_failure = dial_each (some (dial_failed ip)) ips in
      if not (client_metadata_target_allowed ip allow_loopback)
      then after_block
      else if connects ip
      then (connected ip, ip ∷ [])
      else (after_failure.0, ip ∷ after_failure.1)

  abbrev dial_resolved : Option (List Ip) → Dialed × List Ip
  dial_resolved none = (refused resolve_failed, [])
  dial_resolved (some []) = (refused no_addresses, [])
  dial_resolved (some (ip ∷ ips)) = dial_each none (ip ∷ ips)

  -- `DialContext`, where `host` is that of the address and `none` an address that is not split.
  unfoldable pub dial_context : (String → Option (List Ip)) → Option String → Dialed × List Ip
  unfolding dial_each
  dial_context lookup none = (refused split_failed, [])
  dial_context lookup (some host) = dial_resolved (lookup host)

  -- An address that may be dialed: of this host only where that is allowed, otherwise a public
  -- unicast address.
  abbrev pub IsTarget : Ip → Type 0
  IsTarget ip =
      ((ip.is_loopback ≡ true) × (allow_loopback ≡ true))
      ⊎ ((ip.is_loopback ≡ false)
          × (ip.is_private ≡ false)
          × (ip.is_link_local_unicast ≡ false)
          × (ip.is_link_local_multicast ≡ false)
          × (ip.is_interface_local_multicast ≡ false)
          × (ip.is_multicast ≡ false)
          × (ip.is_unspecified ≡ false))

  allowed-IsTarget :
      (ip : Ip) → client_metadata_target_allowed ip allow_loopback ≡ true → IsTarget ip
  unfolding client_metadata_target_allowed
  allowed-IsTarget ip h = ground arith

  -- The first address that is allowed and connects, if any does.
  unfoldable pub first_target : List Ip → Option Ip
  first_target [] = none
  first_target (ip ∷ ips) =
      let rest = first_target ips in
      if client_metadata_target_allowed ip allow_loopback && connects ip then some ip else rest

  abbrev pub Answers : Option Ip → Dialed → Type 0
  Answers (some ip) d = d ≡ connected ip
  Answers none d = (e : DialError) × (d ≡ refused e)

  dial_each-Answers :
      (last : Option DialError) (ips : List Ip)
      → Answers (first_target ips) (dial_each last ips).0 × All IsTarget (dial_each last ips).1
  unfolding dial_each first_target
  dial_each-Answers last [] = ((last_error last, refl), tt)
  dial_each-Answers last (ip ∷ ips) =
      elim (Bool-cases (client_metadata_target_allowed ip allow_loopback)) [
        | inr e ↦ rw e (dial_each-Answers (some (blocked ip)) ips)
        | inl e ↦ elim (Bool-cases (connects ip)) [
          | inl f ↦ rw (e, f) (refl, (allowed-IsTarget ip e, tt))
          | inr f ↦
              let (a, all) = dial_each-Answers (some (dial_failed ip)) ips in
              rw (e, f) (a, (allowed-IsTarget ip e, all))
        ]
      ]

  -- The addresses that a name resolves to, none where it does not.
  abbrev pub resolved : (String → Option (List Ip)) → Option String → List Ip
  resolved lookup none = []
  resolved lookup (some host) = elim (lookup host) [ none ↦ [] | some ips ↦ ips ]

  dial_resolved-Answers :
      (o : Option (List Ip))
      → Answers (first_target (elim o [ none ↦ [] | some ips ↦ ips ])) (dial_resolved o).0
        × All IsTarget (dial_resolved o).1
  unfolding first_target
  dial_resolved-Answers none = ((resolve_failed, refl), tt)
  dial_resolved-Answers (some []) = ((no_addresses, refl), tt)
  dial_resolved-Answers (some (ip ∷ ips)) = dial_each-Answers none (ip ∷ ips)

  -- Every address that is dialed is a target. The connection is to the first of the addresses
  -- resolved that is a target and connects, and there is an error where there is none.
  pub dial_context-Answers :
      (lookup : String → Option (List Ip)) (host : Option String)
      → Answers (first_target (resolved lookup host)) (dial_context lookup host).0
        × All IsTarget (dial_context lookup host).1
  unfolding dial_context first_target
  dial_context-Answers lookup none = ((split_failed, refl), tt)
  dial_context-Answers lookup (some host) = dial_resolved-Answers (lookup host)

abbrev pub client_metadata_max_redirects : ℕ
client_metadata_max_redirects = 3

-- `CheckRedirect`, on the address and the number of requests before it.
unfoldable pub check_redirect : Bool → MetadataUrl → ℕ → Bool
unfolding client_metadata_url
check_redirect allow_loopback u via =
    if leb client_metadata_max_redirects via then false else client_metadata_url allow_loopback u
