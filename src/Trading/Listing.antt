-- ===== src/Trading/Listing.antt =====
-- The listing of orders: `list_orders` and `get_order` of app/services/trading_service.py with the
-- queries of app/repositories/order_repository.py, and the page count of app/schemas/common.py. Each
-- row comes with its `created_at`. Rows of one moment, whose order the query leaves to the database,
-- are taken in the order in which the table is given.
pub mod Newest
pub mod Pages
mod Tests
use multi_platform_crypto_tr.Base.{
  ℕ, ◌+◌, ◌-◌, ◌*◌, ◌/◌, String, Bool, true, false, ◌&&◌, Option, none, some, List, [], ◌∷◌, map,
  ltb, length, str_eq, ◌==◌, if◌then◌else◌,
}
use multi_platform_crypto_tr.Base.Dict.{Dict}
use multi_platform_crypto_tr.Base.Result.{Result, ok, err}
use multi_platform_crypto_tr.Exceptions.{AppError, not_found}
use multi_platform_crypto_tr.Accounts.{truthy}
use multi_platform_crypto_tr.Analytics.Indicators.{take, drop}
use multi_platform_crypto_tr.Trading.{
  OrderStatus, pending, opened, partially_filled, filled, canceled, rejected, expired,
}
use multi_platform_crypto_tr.Trading.Service.Store.{OrderRecord}

abbrev pub status_value : OrderStatus → String
status_value pending = "pending"
status_value opened = "open"
status_value partially_filled = "partially_filled"
status_value filled = "filled"
status_value canceled = "canceled"
status_value rejected = "rejected"
status_value expired = "expired"

-- `if wanted: stmt.where(column == wanted)`
abbrev pub is_wanted : Option String → String → Bool
is_wanted none column = true
is_wanted (some wanted) column = str_eq column wanted

module _ {D : Type 0} where
  abbrev pub is_listed : String → Option String → Option String → OrderRecord D → Bool
  is_listed user_id symbol status r =
      str_eq r.user_id user_id
      && is_wanted (truthy symbol) r.symbol
      && is_wanted (truthy status) (status_value r.status)

  -- the `where` clauses of both queries, on rows with their `created_at`
  unfoldable pub matching :
      String → Option String → Option String → List (ℕ × OrderRecord D) → List (ℕ × OrderRecord D)
  matching user_id symbol status [] = []
  matching user_id symbol status (r ∷ rows) =
      let rest = matching user_id symbol status rows in
      if is_listed user_id symbol status r.1 then r ∷ rest else rest

  -- a row in front of the rows that are not newer
  unfoldable pub place : ℕ × OrderRecord D → List (ℕ × OrderRecord D) → List (ℕ × OrderRecord D)
  place r [] = r ∷ []
  place r (s ∷ rows) = let rest = place r rows in if ltb r.0 s.0 then s ∷ rest else r ∷ s ∷ rows

  -- `order_by(created_at.desc())`
  unfoldable pub newest_first : List (ℕ × OrderRecord D) → List (ℕ × OrderRecord D)
  newest_first [] = []
  newest_first (r ∷ rows) = place r (newest_first rows)

  unfoldable pub list_for_user :
      String
      → Option String
      → Option String
      → ℕ
      → ℕ
      → List (ℕ × OrderRecord D)
      → List (OrderRecord D)
  list_for_user user_id symbol status limit offset rows =
      take limit (drop offset (map (λ r. r.1) (newest_first (matching user_id symbol status rows))))

  unfoldable pub count_for_user :
      String → Option String → Option String → List (ℕ × OrderRecord D) → ℕ
  count_for_user user_id symbol status rows = length (matching user_id symbol status rows)

  -- `list_orders`, for a page from 1 on
  unfoldable pub list_orders :
      String
      → Option String
      → Option String
      → ℕ
      → ℕ
      → List (ℕ × OrderRecord D)
      → List (OrderRecord D) × ℕ
  list_orders user_id symbol status page page_size rows = (
    list_for_user user_id symbol status page_size ((page - 1) * page_size) rows,
    count_for_user user_id symbol status rows,
  )

-- `PageMeta.pages`
unfoldable pub pages : ℕ → ℕ → ℕ
pages total page_size = if page_size == 0 then 0 else (total + page_size - 1) / page_size
