-- ===== src/Security/Words.antt =====
-- The methods of `str` whose results rest on Unicode tables: `str.strip`, `str.lower`,
-- `str.isdigit` and `str.isascii`.
use multi_platform_crypto_tr.Base.{String, Bool, true}

pub record Words : Type 0 where
  pub strip : String → String
  pub lower : String → String
  pub is_digit : String → Bool
  pub is_ascii : String → Bool

-- Texts that are stripped, in lower case, and made of ASCII digits already.
abbrev pub plain : Words
plain = record { strip = λ s. s; lower = λ s. s; is_digit = λ s. true; is_ascii = λ s. true }
