-- ===== src/Base/Dict.antt =====
-- Python's dict with text keys, as an association list in insertion order.
pub mod Sweep
use mathlib.Core.Path.{◌≡◌, refl, sym}
use mathlib.Core.Logic.{inl, inr}
use mathlib.Core.Option.{Option, none, some}
use mathlib.Core.List.{List, [], ◌∷◌}
use native.Mathlib.Omega.{arith}
use text.Mathlib.Text.{◌==◌}
use text.Mathlib.TextEquality.{eq_iff}
use Prim.Native.String.{String}
use multi_platform_crypto_tr.Base.Checks.{if◌then◌else◌, Bool-cases}
use multi_platform_crypto_tr.Base.Lists.{All}

abbrev pub Dict {ℓ} : Type ℓ → Type ℓ
Dict V = List (String × V)

module _ {ℓ} {V : Type ℓ} where
  -- `d.get(k)`
  unfoldable pub lookup : String → Dict V → Option V
  lookup k [] = none
  lookup k ((j, v) ∷ d) = if j == k then some v else lookup k d

  -- `d[k] = v`
  unfoldable pub insert : String → V → Dict V → Dict V
  insert k v [] = (k, v) ∷ []
  insert k v ((j, w) ∷ d) = if j == k then (j, v) ∷ d else (j, w) ∷ insert k v d

  -- `d.pop(k, None)`; keys are unique in a Python dict, so one entry goes
  unfoldable pub erase : String → Dict V → Dict V
  erase k [] = []
  erase k ((j, w) ∷ d) = if j == k then erase k d else (j, w) ∷ erase k d

  pub lookup-insert :
      (k j : String) (v : V) (d : Dict V)
      → lookup j (insert k v d) ≡ (if k == j then some v else lookup j d)
  unfolding lookup insert
  lookup-insert k j v [] = refl
  lookup-insert k j v ((i, w) ∷ d) =
      ground (arith, eq_iff k j, eq_iff i k, eq_iff i j, lookup-insert k j v d)

  pub lookup-insert_self : (k : String) (v : V) (d : Dict V) → lookup k (insert k v d) ≡ some v
  lookup-insert_self k v d = ground (arith, lookup-insert k k v d, eq_iff k k)

  pub lookup-erase :
      (k j : String) (d : Dict V) → lookup j (erase k d) ≡ (if k == j then none else lookup j d)
  unfolding lookup erase
  lookup-erase k j [] = ground arith
  lookup-erase k j ((i, w) ∷ d) =
      ground (arith, eq_iff k j, eq_iff i k, eq_iff i j, lookup-erase k j d)

  erase-absent : (k : String) (d : Dict V) → lookup k d ≡ none → erase k d ≡ d
  unfolding lookup erase
  erase-absent k [] h = refl
  erase-absent k ((i, w) ∷ d) h = ground (arith, h, eq_iff i k, erase-absent k d)

  -- Removing a key that was added as a new one undoes the addition.
  pub erase-insert_new :
      (k : String) (v : V) (d : Dict V) → lookup k d ≡ none → erase k (insert k v d) ≡ d
  unfolding lookup insert erase
  erase-insert_new k v [] h = ground (arith, eq_iff k k)
  erase-insert_new k v ((i, w) ∷ d) h = ground (arith, h, eq_iff i k, erase-insert_new k v d)

  -- No key stands twice, as in every Python dict.
  abbrev pub HasUniqueKeys : Dict V → Type ℓ
  HasUniqueKeys [] = Unit
  HasUniqueKeys ((k, v) ∷ d) = (lookup k d ≡ none) × HasUniqueKeys d

  pub insert-HasUniqueKeys :
      (k : String) (v : V) (d : Dict V) → HasUniqueKeys d → HasUniqueKeys (insert k v d)
  unfolding insert
  insert-HasUniqueKeys k v [] h = (unfold lookup in refl, tt)
  insert-HasUniqueKeys k v ((j, w) ∷ d) h =
      ground (arith, eq_iff j k, eq_iff k j, lookup-insert k j v d, insert-HasUniqueKeys k v d h.1)

  pub erase-HasUniqueKeys : (k : String) (d : Dict V) → HasUniqueKeys d → HasUniqueKeys (erase k d)
  unfolding erase
  erase-HasUniqueKeys k [] h = tt
  erase-HasUniqueKeys k ((j, w) ∷ d) h =
      ground (arith, lookup-erase k j d, erase-HasUniqueKeys k d h.1)

-- What holds of every entry of a dict holds of the one that is found.
pub lookup-All {ℓ} :
    {V : Type 0} (P : String → V → Type ℓ) (id : String) (v : V) (d : Dict V)
    → All (λ e. P e.0 e.1) d
    → lookup id d ≡ some v
    → P id v
unfolding lookup
lookup-All P id v [] h found = ground (arith, found)
lookup-All P id v ((k, u) ∷ d) h found = elim (Bool-cases (k == id)) [
  | inl e ↦
      let key : id ≡ k = sym ((eq_iff k id).0 e) in
      let value : v ≡ u = ground (arith, e, found) in rw (key, value) h.0
  | inr e ↦ lookup-All P id v d h.1 (ground (arith, e, found))
]
