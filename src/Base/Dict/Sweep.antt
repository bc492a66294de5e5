-- ===== src/Base/Dict/Sweep.antt =====
-- `stale = [k for k, v in d.items() if p(v)]`, and then `del d[k]` for each of them.
use mathlib.Core.Path.{◌≡◌, refl}
use mathlib.Core.Bool.{Bool, false, ◌||◌}
use mathlib.Core.Option.{Option, none, some}
use mathlib.Core.List.{List, [], ◌∷◌}
use native.Mathlib.Omega.{arith}
use text.Mathlib.Text.{◌==◌}
use text.Mathlib.TextEquality.{eq_iff}
use Prim.Native.String.{String}
use multi_platform_crypto_tr.Base.Checks.{if◌then◌else◌}
use multi_platform_crypto_tr.Base.Dict.{
  Dict, lookup, erase, lookup-erase, HasUniqueKeys, erase-HasUniqueKeys,
}

abbrev contains : String → List String → Bool
contains k [] = false
contains k (j ∷ keys) = k == j || contains k keys

module _ {ℓ} {V : Type ℓ} where
  keys_where : (V → Bool) → Dict V → List String
  keys_where p [] = []
  keys_where p ((k, v) ∷ d) = let rest = keys_where p d in if p v then k ∷ rest else rest

  erase_all : List String → Dict V → Dict V
  erase_all [] d = d
  erase_all (k ∷ keys) d = erase_all keys (erase k d)

  unfoldable pub sweep : (V → Bool) → Dict V → Dict V
  unfolding keys_where erase_all
  sweep p d = erase_all (keys_where p d) d

  lookup-erase_all :
      (keys : List String) (j : String) (d : Dict V)
      → lookup j (erase_all keys d) ≡ (if contains j keys then none else lookup j d)
  unfolding erase_all
  lookup-erase_all [] j d = refl
  lookup-erase_all (k ∷ keys) j d =
      ground
        (arith, lookup-erase_all keys j (erase k d), lookup-erase k j d, eq_iff k j, eq_iff j k)

  abbrev satisfies : (V → Bool) → Option V → Bool
  satisfies p none = false
  satisfies p (some v) = p v

  contains-keys_where :
      (p : V → Bool) (j : String) (d : Dict V)
      → HasUniqueKeys d
      → contains j (keys_where p d) ≡ satisfies p (lookup j d)
  unfolding keys_where lookup
  contains-keys_where p j [] u = refl
  contains-keys_where p j ((k, v) ∷ d) u =
      ground (arith, contains-keys_where p j d u.1, eq_iff k j, eq_iff j k, u.0)

  -- What a sweep leaves of an entry.
  abbrev pub unless : (V → Bool) → Option V → Option V
  unless p none = none
  unless p (some v) = if p v then none else some v

  pub lookup-sweep :
      (p : V → Bool) (j : String) (d : Dict V)
      → HasUniqueKeys d
      → lookup j (sweep p d) ≡ unless p (lookup j d)
  unfolding sweep
  lookup-sweep p j d u =
      ground (arith, lookup-erase_all (keys_where p d) j d, contains-keys_where p j d u)

  erase_all-HasUniqueKeys :
      (keys : List String) (d : Dict V) → HasUniqueKeys d → HasUniqueKeys (erase_all keys d)
  unfolding erase_all
  erase_all-HasUniqueKeys [] d u = u
  erase_all-HasUniqueKeys (k ∷ keys) d u =
      erase_all-HasUniqueKeys keys (erase k d) (erase-HasUniqueKeys k d u)

  pub sweep-HasUniqueKeys :
      (p : V → Bool) (d : Dict V) → HasUniqueKeys d → HasUniqueKeys (sweep p d)
  unfolding sweep
  sweep-HasUniqueKeys p d u = erase_all-HasUniqueKeys (keys_where p d) d u
