-- ===== src/Schemas.antt =====
-- `OrderCreate` of app/schemas/trading.py: what a request to place an order must satisfy.
pub mod Symbols
pub mod Accepted
mod Tests
use Prim.Native.Char.{code}
use multi_platform_crypto_tr.Base.{
  ℕ, suc, ◌+◌, String, Bool, true, false, not, ◌&&◌, ◌||◌, Option, none, some, leb, ◌==◌, is_none,
  if◌then◌else◌,
}
use multi_platform_crypto_tr.Decimal.{Decimal, lt}
use multi_platform_crypto_tr.Exchange.Models.{OrderRequest}
use multi_platform_crypto_tr.Trading.{
  OrderSide, OrderType, market, limit, stop, stop_limit, take_profit, trailing_stop, TimeInForce,
}

-- `[A-Z0-9]`
abbrev pub in_class : ℕ → Bool
in_class c = (leb b'A' c && leb c b'Z') || (leb b'0' c && leb c b'9')

-- `[A-Z0-9]*`, as far as it reaches: how many characters, and what is left
unfoldable pub run : String → ℕ × String
run String.[] = (0, String.[])
run (String.◌∷◌ x s) =
    let (n, rest) = run s in if in_class (code x) then (suc n, rest) else (0, String.◌∷◌ x s)

-- `{1,20}`
abbrev pub is_token : ℕ → Bool
is_token n = leb 1 n && leb n 20

-- one character of the pattern, and what follows it
abbrev pub after : ℕ → String → Option String
after c String.[] = none
after c (String.◌∷◌ x s) = if code x == c then some s else none

abbrev pub is_end : String → Bool
is_end String.[] = true
is_end (String.◌∷◌ x s) = false

-- a token up to the end of the text
abbrev pub ends_in_token : Option String → Bool
ends_in_token none = false
ends_in_token (some s) = let (n, rest) = run s in is_token n && is_end rest

-- the quote asset, and the settlement asset if there is one
abbrev pub quote_matches : Option String → Bool
quote_matches none = false
quote_matches (some s) =
    let (n, rest) = run s in is_token n && (is_end rest || ends_in_token (after b':' rest))

-- `SYMBOL_PATTERN`; `/` and `:` are in no token, so a token reaches as far as it can
unfoldable pub matches_symbol_pattern : String → Bool
matches_symbol_pattern s = let (n, rest) = run s in is_token n && quote_matches (after b'/' rest)

module _ (dec : Decimal) where
  open dec use {D, d0}

  pub record OrderCreate : Type 0 where
    pub account_id : String
    pub symbol : String
    pub side : OrderSide
    pub type : OrderType
    pub amount : D
    pub price : Option D
    pub stop_price : Option D
    pub time_in_force : TimeInForce
    pub reduce_only : Bool
    pub post_only : Bool
    pub leverage : Option ℕ

  -- `gt=0`, of a field that may be missing
  abbrev pub is_positive : Option D → Bool
  is_positive none = true
  is_positive (some d) = lt dec d0 d

  abbrev in_range : Option ℕ → Bool
  in_range none = true
  in_range (some n) = leb 1 n && leb n 125

  abbrev needs_price : OrderType → Bool
  needs_price limit = true
  needs_price stop_limit = true
  needs_price _ = false

  abbrev needs_stop_price : OrderType → Bool
  needs_stop_price stop = true
  needs_stop_price stop_limit = true
  needs_stop_price _ = false

  -- whether the model validates: its fields, then `_price_required_for_limit`
  unfoldable pub is_accepted : OrderCreate → Bool
  is_accepted p =
      matches_symbol_pattern p.symbol
      && lt dec d0 p.amount
      && is_positive p.price
      && is_positive p.stop_price
      && in_range p.leverage
      && not (needs_price p.type && is_none p.price)
      && not (needs_stop_price p.type && is_none p.stop_price)

  -- the `OrderRequest` that `place_order` builds from the payload
  unfoldable pub request_of : OrderCreate → String → OrderRequest D
  request_of p client_order_id = record {
    symbol = p.symbol;
    side = p.side;
    type = p.type;
    amount = p.amount;
    price = p.price;
    stop_price = p.stop_price;
    time_in_force = p.time_in_force;
    reduce_only = p.reduce_only;
    post_only = p.post_only;
    leverage = p.leverage;
    client_order_id = some client_order_id;
  }
