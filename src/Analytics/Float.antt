-- ===== src/Analytics/Float.antt =====
-- The operations of Python's floats that the indicators use. Nothing is assumed of them, since what is
-- shown of the indicators is where they are defined.
use multi_platform_crypto_tr.Base.{ℕ, Bool, List, [], ◌∷◌, if◌then◌else◌}

pub record Float : Type 1 where
  pub F : Type 0
  pub of_ℕ : ℕ → F
  pub add : F → F → F
  pub sub : F → F → F
  pub mul : F → F → F
  pub div : F → F → F
  pub neg : F → F
  pub lt : F → F → Bool
  pub eq : F → F → Bool
  pub abs : F → F
  pub sqrt : F → F  -- `x**0.5`
  pub square : F → F  -- `x**2`

-- `max(a, b)` and `min(a, b)`, the first of equals
abbrev pub fmax : (fl : Float) → fl.F → fl.F → fl.F
fmax fl a b = if fl.lt a b then b else a

abbrev pub fmin : (fl : Float) → fl.F → fl.F → fl.F
fmin fl a b = if fl.lt b a then b else a

-- `sum(values)`
abbrev pub total : (fl : Float) → fl.F → List fl.F → fl.F
total fl start [] = start
total fl start (v ∷ vs) = total fl (fl.add start v) vs
