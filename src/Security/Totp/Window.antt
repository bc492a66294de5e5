-- ===== src/Security/Totp/Window.antt =====
-- Which codes the drift window accepts, and for which step.
use multi_platform_crypto_tr.Base.{
  ℕ, zero, suc, ◌+◌, ◌-◌, ◌*◌, ◌/◌, ◌≤◌, ◌<◌, ◌≡◌, ◌⊎◌, refl, ap, ◌∙◌, inl, inr, String, true,
  Option, none, some, arith, eq_iff, str_eq, Bool-cases, if◌then◌else◌,
}
use native.Mathlib.Nat.{add-mul-div_right}
use native.Mathlib.Decide.{dec_lt}
use multi_platform_crypto_tr.Base.Result.{ok}
use multi_platform_crypto_tr.Security.Words.{Words}
use multi_platform_crypto_tr.Security.Totp.{Otp, match_loop, verify_counter}

module _ (otp : Otp) (secret code : String) (base : ℕ) where
  -- Step number `k` of the window has this code, and this counter.
  abbrev Hits : ℕ → ℕ → Type 0
  Hits k c =
      (otp.code_at secret (base + k * otp.interval) ≡ code)
      × (c ≡ (base + k * otp.interval) / otp.interval)

  loop-Hits :
      (n k : ℕ) (matched : Option ℕ) (c : ℕ)
      → match_loop otp secret code base n k matched ≡ some c
      → (matched ≡ some c) ⊎ ((j : ℕ) × (k ≤ j) × (j < k + n) × Hits j c)
  unfolding match_loop
  loop-Hits zero k matched c h = inl h
  loop-Hits (suc n) k matched c h =
      let at = base + k * otp.interval in
      let next =
        if str_eq (otp.code_at secret at) code then some (at / otp.interval) else matched in
      elim (loop-Hits n (suc k) next c h) [
        | inl e ↦ elim (Bool-cases (str_eq (otp.code_at secret at) code)) [
          | inl same ↦
              inr (k, omega arith, omega arith, ground (arith, eq_iff (otp.code_at secret at) code))
          | inr other ↦ inl (ground arith)
        ]
        | inr (j, lo, hi, hit) ↦ inr (j, omega arith, omega arith, hit)
      ]

  -- A match is never lost.
  loop_keeps : (n k : ℕ) (c : ℕ) → (d : ℕ) × (match_loop otp secret code base n k (some c) ≡ some d)
  unfolding match_loop
  loop_keeps zero k c = (c, refl)
  loop_keeps (suc n) k c =
      elim (Bool-cases (str_eq (otp.code_at secret (base + k * otp.interval)) code)) [
        | inl same ↦ rw same (loop_keeps n (suc k) ((base + k * otp.interval) / otp.interval))
        | inr other ↦ rw other (loop_keeps n (suc k) c)
      ]

  loop_accepts :
      (n k j : ℕ) (matched : Option ℕ)
      → k ≤ j
      → j < k + n
      → otp.code_at secret (base + j * otp.interval) ≡ code
      → (d : ℕ) × (match_loop otp secret code base n k matched ≡ some d)
  unfolding match_loop
  loop_accepts zero k j matched lo hi e = absurd (omega arith)
  loop_accepts (suc n) k j matched lo hi e = elim (dec_lt k j) [
    | yes later ↦ loop_accepts n (suc k) j _ later (omega arith) e
    | no here ↦
        let same_step : k ≡ j = omega arith in
        let same : str_eq (otp.code_at secret (base + k * otp.interval)) code ≡ true =
          rw same_step ((eq_iff (otp.code_at secret (base + j * otp.interval)) code).1 e) in
        rw same (loop_keeps n (suc k) ((base + k * otp.interval) / otp.interval))
  ]

-- The window around the current step, in steps.
window_steps :
    (current w i j : ℕ)
    → 0 < i
    → w * i ≤ current
    → ((current - w * i + j * i) / i ≡ (current - w * i) / i + j)
      × (current / i ≡ (current - w * i) / i + w)
window_steps current w i j pos late = (
  add-mul-div_right (current - w * i) j pos,
  let whole : current ≡ current - w * i + w * i = omega arith in
      ap (λ (t : ℕ). t / i) whole ∙ add-mul-div_right (current - w * i) w pos,
)

module _ (w : Words) (otp : Otp) (valid_window : ℕ) (secret raw : String) (current : ℕ) where
  abbrev earliest : ℕ
  earliest = current - valid_window * otp.interval

  accepted_by_loop :
      (c : ℕ)
      → verify_counter w otp valid_window secret raw current ≡ ok (some c)
      → (w.is_digit (w.strip raw) ≡ true)
        × (match_loop otp secret (w.strip raw) earliest (valid_window + suc valid_window) 0 none
            ≡ some c)
  unfolding verify_counter
  accepted_by_loop c h = ground arith

  -- An accepted counter belongs to a step at most `valid_window` away from the current one, and the
  -- code, stripped, consists of digits and is the code of a time in that step.
  pub accepted_in_window :
      (c : ℕ)
      → 0 < otp.interval
      → valid_window * otp.interval ≤ current
      → verify_counter w otp valid_window secret raw current ≡ ok (some c)
      → (w.is_digit (w.strip raw) ≡ true)
        × (current / otp.interval ≤ c + valid_window)
        × (c ≤ current / otp.interval + valid_window)
        × ((at : ℕ) × (otp.code_at secret at ≡ w.strip raw) × (c ≡ at / otp.interval))
  accepted_in_window c pos late h =
      let (digits, found) = accepted_by_loop c h in
      elim (loop-Hits otp secret (w.strip raw) earliest (valid_window + suc valid_window) 0 none c
        found) [
          | inl e ↦ absurd (cc)
          | inr (j, lo, hi, (same, counter)) ↦
              let steps = window_steps current valid_window otp.interval j pos late in
              (
                digits,
                omega (arith, steps, counter, hi),
                omega (arith, steps, counter, hi),
                (earliest + j * otp.interval, same, counter),
              )
        ]

  -- Every code of ASCII digits that is the code of a candidate time in the window is accepted, for
  -- some counter.
  pub window_accepts :
      (j : ℕ)
      → j ≤ valid_window + valid_window
      → w.is_digit (w.strip raw) ≡ true
      → w.is_ascii (w.strip raw) ≡ true
      → otp.code_at secret (earliest + j * otp.interval) ≡ w.strip raw
      → (c : ℕ) × (verify_counter w otp valid_window secret raw current ≡ ok (some c))
  unfolding verify_counter
  window_accepts j hi digits ascii same =
      let (c, found) =
        loop_accepts otp secret (w.strip raw) earliest (valid_window + suc valid_window) 0 j none
          (omega arith) (omega arith) same in
      (c, rw (digits, ascii, found))
