-- ===== src/Analytics/Samples.antt =====
-- Whole numbers in place of floats, and some candles, for the witnesses.
use multi_platform_crypto_tr.Base.{ℕ, ◌+◌, ◌-◌, ◌*◌, ◌/◌, [], ◌∷◌, List, ltb, ◌==◌}
use multi_platform_crypto_tr.Analytics.Float.{Float}
use multi_platform_crypto_tr.Analytics.Indicators.{Candle}

abbrev pub whole : Float
whole = record {
  F = ℕ;
  of_ℕ = λ n. n;
  add = λ a b. a + b;
  sub = λ a b. a - b;
  mul = λ a b. a * b;
  div = λ a b. a / b;
  neg = λ a. 0;
  lt = ltb;
  eq = λ a b. a == b;
  abs = λ a. a;
  sqrt = λ a. a;
  square = λ a. a * a;
}

abbrev pub candle : ℕ → ℕ → ℕ → Candle ℕ
candle high low close = record { high = high; low = low; close = close; volume = 1 }

abbrev pub candles : List (Candle ℕ)
candles = candle 12 10 11 ∷ candle 14 11 13 ∷ candle 13 4 5 ∷ []
