-- ===== src/Exchange/Ccxt/Response.antt =====
-- What ccxt answers with, and how app/exchange/ccxt_adapter.py reads a value of it: `_dec`, `_dec0`
-- and the use of `dict.get`.
use multi_platform_crypto_tr.Base.{
  ℕ, String, Bool, true, false, not, Option, none, some, str_eq, if◌then◌else◌,
}
use multi_platform_crypto_tr.Base.Result.{Result, ok, err, map_ok}
use multi_platform_crypto_tr.Decimal.{Decimal, deq}
use multi_platform_crypto_tr.Exceptions.{AppError, unhandled}

-- A Python value read from JSON, over the type `N` of numbers; `fields` is a dict.
mutual
  pub data Json (N : Type 0) : Type 0 where
    null : Json N
    text : String → Json N
    flag : Bool → Json N
    number : N → Json N
    dict : Fields N → Json N

  pub data Fields (N : Type 0) : Type 0 where
    end : Fields N
    field : String → Json N → Fields N → Fields N

-- The conversions of Python: `str(value)`, `Decimal(text)`, `int(value)` and `float(decimal)`, none
-- where they raise, and whether a number is truthy.
pub record Conversions (N : Type 0) (D : Type 0) : Type 0 where
  pub to_str : Json N → String
  pub to_decimal : String → Option D
  pub to_int : Json N → Option ℕ
  pub to_float : D → N
  pub is_truthy : N → Bool

module _ {N : Type 0} where
  -- `d.get(key, default)`
  unfoldable pub get : String → Json N → Fields N → Json N
  get key default end = default
  get key default (field k v rest) =
      let later = get key default rest in if str_eq k key then v else later

  -- `d[key] = value`
  unfoldable pub set_field : String → Json N → Fields N → Fields N
  set_field key value end = field key value end
  set_field key value (field k v rest) =
      let later = set_field key value rest in
      if str_eq k key then field k value rest else field k v later

  -- `d.get(...)` on a value that may be no dict, which is an `AttributeError` then
  abbrev pub as_dict : Json N → Result AppError (Fields N)
  as_dict (dict d) = ok d
  as_dict _ = err unhandled

module _ {N : Type 0} (dec : Decimal) (cv : Conversions N dec.D) where
  open dec use {D, d0}

  abbrev pub truthy : Json N → Bool
  truthy null = false
  truthy (text s) = not (str_eq s "")
  truthy (flag b) = b
  truthy (number n) = cv.is_truthy n
  truthy (dict end) = false
  truthy (dict (field k v d)) = true

  -- `value is None or value == ""`
  abbrev pub is_blank : Json N → Bool
  is_blank null = true
  is_blank (text s) = str_eq s ""
  is_blank (flag b) = false
  is_blank (number n) = false
  is_blank (dict d) = false

  -- `decimal.InvalidOperation` is no `AppError`
  abbrev pub parsed : Option D → Result AppError (Option D)
  parsed none = err unhandled
  parsed (some d) = ok (some d)

  -- `_dec`
  unfoldable pub optional_decimal : Json N → Result AppError (Option D)
  optional_decimal v = if is_blank v then ok none else parsed (cv.to_decimal (cv.to_str v))

  -- `d or Decimal(0)`
  abbrev pub or_zero : Option D → D
  or_zero none = d0
  or_zero (some d) = if deq dec d d0 then d0 else d

  -- `_dec0`
  unfoldable pub decimal_or_zero : Json N → Result AppError D
  decimal_or_zero v = map_ok or_zero (optional_decimal v)
