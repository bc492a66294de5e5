-- ===== src/Exchange/Models.antt =====
-- The value objects of app/exchange/models.py, over the type `D` of decimals.
use multi_platform_crypto_tr.Base.{ℕ, String, Bool, Option}
use multi_platform_crypto_tr.Base.Dict.{Dict}
use multi_platform_crypto_tr.Trading.{OrderSide, OrderType, OrderStatus, TimeInForce}

pub record Ticker (D : Type 0) : Type 0 where
  pub symbol : String
  pub last : D
  pub bid : Option D
  pub ask : Option D
  pub timestamp : Option ℕ

pub record Balance (D : Type 0) : Type 0 where
  pub asset : String
  pub free : D
  pub used : D

-- `params` is passed to ccxt alone and left out
pub record OrderRequest (D : Type 0) : Type 0 where
  pub symbol : String
  pub side : OrderSide
  pub type : OrderType
  pub amount : D
  pub price : Option D
  pub stop_price : Option D
  pub time_in_force : TimeInForce
  pub reduce_only : Bool
  pub post_only : Bool
  pub leverage : Option ℕ
  pub client_order_id : Option String

pub record Order (D : Type 0) : Type 0 where
  pub id : String
  pub symbol : String
  pub side : OrderSide
  pub type : OrderType
  pub status : OrderStatus
  pub amount : D
  pub filled : D
  pub price : Option D
  pub average : Option D
  pub timestamp : Option ℕ
  pub client_order_id : Option String
  pub fee : D
  pub is_paper : Bool

-- `PaperLedger` of app/exchange/paper_store.py
pub record PaperLedger (D : Type 0) : Type 0 where
  pub quote_asset : String
  pub starting_balance : D
  pub balances : Dict (Balance D)
  pub orders : Dict (Order D)
