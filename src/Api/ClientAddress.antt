-- ===== src/Api/ClientAddress.antt =====
-- `resolve_client_ip` of app/api/client_address.py. The `ipaddress` library is an argument.
pub mod Forged
mod Tests
use multi_platform_crypto_tr.Base.{
  ℕ, String, Bool, true, false, not, ◌||◌, Option, none, some, List, [], ◌∷◌, str_eq, ◌==◌, is_none,
  if◌then◌else◌,
}
use mathlib.Core.List.{reverse}
use Prim.Native.Char.{code}
use multi_platform_crypto_tr.Security.Words.{Words}

-- `ip_network(entry, strict=False)` and `ip_address(candidate)`, none where they raise a
-- `ValueError`, and `address in network`.
pub record IpLibrary : Type 1 where
  pub Network : Type 0
  pub Address : Type 0
  pub ip_network : String → Option Network
  pub ip_address : String → Option Address
  pub has : Network → Address → Bool

-- `text.split(c)`: the first part, and the others
unfoldable pub split_all : ℕ → String → String × List String
split_all c String.[] = (String.[], [])
split_all c (String.◌∷◌ x s) =
    let (first, others) = split_all c s in
    if code x == c then (String.[], first ∷ others) else (String.◌∷◌ x first, others)

-- `[hop.strip() for hop in hops if hop.strip()]`
unfoldable pub stripped : Words → List String → List String
stripped w [] = []
stripped w (hop ∷ hops) =
    let rest = stripped w hops in if str_eq (w.strip hop) "" then rest else w.strip hop ∷ rest

unfoldable pub hops_of : Words → String → List String
hops_of w header = let (first, others) = split_all b',' header in stripped w (first ∷ others)

abbrev pub is_empty {ℓ} : {A : Type ℓ} → List A → Bool
is_empty [] = true
is_empty (x ∷ xs) = false

abbrev pub or_peer : Option String → String → String
or_peer none peer = peer
or_peer (some hop) peer = hop

-- `request.headers.get("x-forwarded-for", "")`
abbrev pub header_or_empty : Option String → String
header_or_empty none = ""
header_or_empty (some h) = h

module _ (ip : IpLibrary) where
  open ip use {Network, Address, ip_network, ip_address, has}

  -- `_parse_networks`
  unfoldable pub parse_networks : Words → List String → List Network
  parse_networks w [] = []
  parse_networks w (entry ∷ raw) =
      let rest = parse_networks w raw in
      if str_eq (w.strip entry) ""
      then rest
      else elim (ip_network (w.strip entry)) [ none ↦ rest | some network ↦ network ∷ rest ]

  abbrev pub any_has : List Network → Address → Bool
  any_has [] address = false
  any_has (n ∷ networks) address = has n address || any_has networks address

  abbrev trusts : Option Address → List Network → Bool
  trusts none networks = false
  trusts (some address) networks = any_has networks address

  -- `_is_trusted`
  unfoldable pub is_trusted : String → List Network → Bool
  is_trusted candidate networks = trusts (ip_address candidate) networks

  -- the loop over the hops, the nearest first
  unfoldable pub first_untrusted : List Network → List String → Option String
  first_untrusted networks [] = none
  first_untrusted networks (hop ∷ hops) =
      let rest = first_untrusted networks hops in if is_trusted hop networks then rest else some hop

  -- `resolve_client_ip`: the peer, the configured proxies, and the header
  unfoldable pub resolve_client_ip :
      Words → Option String → List String → Option String → Option String
  resolve_client_ip w none trusted forwarded = none
  resolve_client_ip w (some peer) trusted forwarded =
      let networks = parse_networks w trusted in
      if is_empty networks || not (is_trusted peer networks)
      then some peer
      else some (
          or_peer (first_untrusted networks (reverse (hops_of w (header_or_empty forwarded)))) peer)
