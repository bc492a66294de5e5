-- ===== src/Trading/Service/Store.antt =====
-- What the trading service keeps in the database: order rows, of app/models/order.py, and the paper
-- ledgers as app/repositories/paper_ledger_repository.py loads and saves them.
pub mod Saved
use multi_platform_crypto_tr.Base.{
  String, Bool, true, false, not, ◌&&◌, Option, none, some, [], ◌∷◌, str_eq, if◌then◌else◌,
}
use multi_platform_crypto_tr.Base.Dict.{Dict, lookup, insert}
use multi_platform_crypto_tr.Decimal.{Decimal}
use multi_platform_crypto_tr.Exchange.Models.{Balance, Order, PaperLedger}
use multi_platform_crypto_tr.Exchange.Paper.{is_working}
use multi_platform_crypto_tr.Trading.{OrderSide, OrderType, OrderStatus}

-- `OrderRecord` of app/models/order.py
pub record OrderRecord (D : Type 0) : Type 0 where
  pub user_id : String
  pub account_id : String
  pub exchange_order_id : Option String
  pub client_order_id : Option String
  pub symbol : String
  pub side : OrderSide
  pub type : OrderType
  pub status : OrderStatus
  pub amount : D
  pub filled : D
  pub price : Option D
  pub average : Option D
  pub fee : D
  pub is_paper : Bool

-- The owner of each account, the paper balances of each account by asset, and the order rows by their
-- id.
pub record Desk (D : Type 0) : Type 0 where
  pub owners : Dict String
  pub balances : Dict (Dict (Balance D))
  pub records : Dict (OrderRecord D)

-- `get_account`: the account of that user
unfoldable pub is_owner : Option String → String → Bool
is_owner none user_id = false
is_owner (some owner) user_id = str_eq owner user_id

module _ (dec : Decimal) where
  open dec use {D, d0}

  -- the `Order` that `_load_open_orders` builds from a row
  abbrev order_of : String → OrderRecord D → Order D
  order_of id r = record {
    id = id;
    symbol = r.symbol;
    side = r.side;
    type = r.type;
    status = r.status;
    amount = r.amount;
    filled = r.filled;
    price = r.price;
    average = r.average;
    timestamp = none;
    client_order_id = r.client_order_id;
    fee = r.fee;
    is_paper = true;
  }

  abbrev load_row : Option String → String → OrderRecord D → Dict (Order D) → Dict (Order D)
  load_row none account_id r orders = orders
  load_row (some id) account_id r orders =
      if str_eq r.account_id account_id
        && r.is_paper
        && is_working dec r.status
        && not (str_eq id "")
      then insert id (order_of id r) orders
      else orders

  -- `_load_open_orders`, row after row
  unfoldable pub load_open_orders : String → Dict (OrderRecord D) → Dict (Order D) → Dict (Order D)
  load_open_orders account_id [] orders = orders
  load_open_orders account_id ((id, r) ∷ rest) orders =
      load_open_orders account_id rest (load_row r.exchange_order_id account_id r orders)

  -- the balances of an account, seeded if there are none
  unfoldable pub seeded : D → Option (Dict (Balance D)) → Dict (Balance D)
  seeded starting none = ("USDT", record { asset = "USDT"; free = starting; used = d0 }) ∷ []
  seeded starting (some []) = ("USDT", record { asset = "USDT"; free = starting; used = d0 }) ∷ []
  seeded starting (some (b ∷ bs)) = b ∷ bs

  -- `PaperLedgerRepository.load`
  unfoldable pub load : D → String → Desk D → PaperLedger D
  load starting account_id desk = record {
    quote_asset = "USDT";
    starting_balance = starting;
    balances = seeded starting (lookup account_id desk.balances);
    orders = load_open_orders account_id desk.records [];
  }

  -- the upsert of each balance, and `PaperLedgerRepository.save`
  unfoldable pub upsert : Dict (Balance D) → Dict (Balance D) → Dict (Balance D)
  upsert [] rows = rows
  upsert ((asset, bal) ∷ rest) rows = upsert rest (insert asset bal rows)

  abbrev rows_of : Option (Dict (Balance D)) → Dict (Balance D)
  rows_of none = []
  rows_of (some rows) = rows

  unfoldable pub save : String → PaperLedger D → Desk D → Desk D
  save account_id ledger desk = record desk {
    balances =
        insert account_id (upsert ledger.balances (rows_of (lookup account_id desk.balances)))
          desk.balances;
  }
