-- ===== src/Api/ClientAddress/Forged.antt =====
-- What a caller can do with a forwarding header.
use multi_platform_crypto_tr.Base.{
  ◌≡◌, refl, ap, inl, inr, String, false, not, ◌||◌, Option, some, List, [], ◌∷◌, ◌++◌, arith,
  Bool-cases, Option-cases, ◌⊎◌,
}
use mathlib.Core.List.{reverse, reverse-append}
use multi_platform_crypto_tr.Security.Words.{Words}
use multi_platform_crypto_tr.Api.ClientAddress.{
  IpLibrary, split_all, stripped, hops_of, parse_networks, is_trusted, first_untrusted, is_empty,
  header_or_empty, resolve_client_ip,
}

-- `s + t`
unfoldable pub append : String → String → String
append String.[] t = t
append (String.◌∷◌ x s) t = String.◌∷◌ x (append s t)

-- a comma between two texts separates their parts
split_all-append :
    (s t : String)
    → split_all b',' (append s (append "," t))
      ≡ ((split_all b',' s).0, (split_all b',' s).1 ++ (split_all b',' t).0 ∷ (split_all b',' t).1)
unfolding split_all append
split_all-append String.[] t = refl
split_all-append (String.◌∷◌ x s) t = ground (arith, split_all-append s t)

stripped-append :
    (w : Words) (xs ys : List String) → stripped w (xs ++ ys) ≡ stripped w xs ++ stripped w ys
unfolding stripped
stripped-append w [] ys = refl
stripped-append w (x ∷ xs) ys = ground (arith, stripped-append w xs ys)

pub hops_of-append :
    (w : Words) (s t : String) → hops_of w (append s (append "," t)) ≡ hops_of w s ++ hops_of w t
unfolding hops_of
hops_of-append w s t = rw (split_all-append s t) (
    stripped-append w ((split_all b',' s).0 ∷ (split_all b',' s).1)
      ((split_all b',' t).0 ∷ (split_all b',' t).1))

module _ (ip : IpLibrary) (w : Words) (peer : String) (trusted : List String) where
  first_untrusted-append :
      (networks : List ip.Network) (xs ys : List String) (hop : String)
      → first_untrusted ip networks xs ≡ some hop
      → first_untrusted ip networks (xs ++ ys) ≡ some hop
  unfolding first_untrusted
  first_untrusted-append networks [] ys hop e = ground (arith, e)
  first_untrusted-append networks (x ∷ xs) ys hop e = elim (Bool-cases (is_trusted ip x networks)) [
    | inl proxy ↦
        ground
          (arith, proxy, e, first_untrusted-append networks xs ys hop (ground (arith, proxy, e)))
    | inr other ↦ ground (arith, other, e)
  ]

  -- The header that reached the application ends in what the proxies appended. If that end holds a hop
  -- that is no trusted proxy, the answer does not depend on anything that a caller put before it.
  pub forged_prefix_ignored :
      (forged chain hop : String)
      → first_untrusted ip (parse_networks ip w trusted) (reverse (hops_of w chain)) ≡ some hop
      → resolve_client_ip ip w (some peer) trusted (some (append forged (append "," chain)))
        ≡ resolve_client_ip ip w (some peer) trusted (some chain)
  unfolding resolve_client_ip
  forged_prefix_ignored forged chain hop e =
      let networks = parse_networks ip w trusted in
      let split = hops_of-append w forged chain in
      let turned = reverse-append (hops_of w forged) (hops_of w chain) in
      let found =
        first_untrusted-append networks (reverse (hops_of w chain)) (reverse (hops_of w forged)) hop
          e in
      rw (split, turned, found, e) refl

  first_untrusted-found :
      (networks : List ip.Network) (hops : List String) (hop : String)
      → first_untrusted ip networks hops ≡ some hop
      → is_trusted ip hop networks ≡ false
  unfolding first_untrusted
  first_untrusted-found networks [] hop e = ground (arith, e)
  first_untrusted-found networks (x ∷ hops) hop e = elim (Bool-cases (is_trusted ip x networks)) [
    | inl proxy ↦ first_untrusted-found networks hops hop (ground (arith, proxy, e))
    | inr other ↦ ground (arith, other, e)
  ]

  -- The header counts only if the peer is a trusted proxy: from any other peer, or with no proxy
  -- configured, the answer is the peer. It is always the peer or a hop that is no trusted proxy.
  pub client_is_peer_or_untrusted :
      (forwarded : Option String)
      → (client : String) × (resolve_client_ip ip w (some peer) trusted forwarded ≡ some client)
        × ((client ≡ peer) ⊎ (is_trusted ip client (parse_networks ip w trusted) ≡ false))
        × (is_trusted ip peer (parse_networks ip w trusted) ≡ false → client ≡ peer)
        × (parse_networks ip w trusted ≡ [] → client ≡ peer)
  unfolding resolve_client_ip
  client_is_peer_or_untrusted forwarded =
      let networks = parse_networks ip w trusted in
      let hops = reverse (hops_of w (header_or_empty forwarded)) in
      elim (Bool-cases (is_empty networks || not (is_trusted ip peer networks))) [
        | inl direct ↦ (peer, rw direct refl, inl refl, λ e. refl, λ e. refl)
        | inr proxied ↦ elim (Option-cases (first_untrusted ip networks hops)) [
          | inl absent ↦ (peer, rw (proxied, absent) refl, inl refl, λ e. refl, λ e. refl)
          | inr (hop, found) ↦ (
            hop,
            rw (proxied, found) refl,
            inr (first_untrusted-found networks hops hop found),
            λ e. ground (arith, e, proxied),
            λ e. ground (arith, ap is_empty e, proxied),
          )
        ]
      ]
