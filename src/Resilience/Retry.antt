-- ===== src/Resilience/Retry.antt =====
-- `async_retry` of app/core/resilience.py.
mod Laws
mod Tests
use multi_platform_crypto_tr.Base.{
  ℕ, zero, suc, ◌+◌, ◌*◌, Bool, Option, none, some, List, [], ◌∷◌, min, ◌==◌, if◌then◌else◌,
}

-- How one call of the wrapped function ends: `raises e` where `e` is an exception.
pub data Outcome (E A : Type 0) : Type 0 where
  returns : A → Outcome E A
  raises : E → Outcome E A

-- How the wrapper ends; `assertion_error` is the failed `assert last_exc is not None`.
pub data Retried (E A : Type 0) : Type 0 where
  returned : A → Retried E A
  raised : E → Retried E A
  assertion_error : Retried E A

-- The wrapper's end, the pauses that it made, and how often it called.
pub record Run (E A : Type 0) : Type 0 where
  pub result : Retried E A
  pub pauses : List ℕ
  pub calls : ℕ

module _ {E A : Type 0} where
  abbrev pub give_up : Option E → Run E A
  give_up none = record { result = assertion_error; pauses = []; calls = 0 }
  give_up (some e) = record { result = raised e; pauses = []; calls = 0 }

  abbrev pub counted : Run E A → Run E A
  counted r = record r { calls = suc r.calls }

  abbrev pub paused : ℕ → Run E A → Run E A
  paused d r = record r { pauses = d ∷ r.pauses }

-- The `for` loop of the wrapper with `rounds` attempts to come, of which this is number `i` from 0;
-- `caught` tells which exceptions `except exceptions` catches.
module _ {E A : Type 0} (caught : E → Bool) (max_delay : ℕ) (func : ℕ → Outcome E A) where
  pub wrapper_loop : ℕ → ℕ → ℕ → Option E → Run E A
  wrapper_loop zero i delay last_exc = give_up last_exc
  wrapper_loop (suc rounds) i delay last_exc = elim (func i) [
    | returns a ↦ record { result = returned a; pauses = []; calls = 1 }
    | raises e ↦
        let again = wrapper_loop rounds (suc i) (delay * 2) (some e) in
        if caught e
        then (if rounds == 0
            then counted (give_up (some e))
            else counted (paused (min delay max_delay) again))
        else record { result = raised e; pauses = []; calls = 1 }
  ]

  -- `async_retry(attempts=, base_delay=, max_delay=, exceptions=)` around `func`
  pub async_retry : ℕ → ℕ → Run E A
  unfolding wrapper_loop
  async_retry attempts base_delay = wrapper_loop attempts 0 base_delay none
