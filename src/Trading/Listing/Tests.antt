-- ===== src/Trading/Listing/Tests.antt =====
-- Witness for the listing: the two orders of a user on pages of one.
use mathlib.Core.List.{Perm}
use multi_platform_crypto_tr.Base.{
  ℕ, ◌≡◌, ◌≤◌, String, none, List, [], ◌∷◌, map, arith, length, All, true,
}
use multi_platform_crypto_tr.Trading.{buy, OrderType, OrderStatus}
use multi_platform_crypto_tr.Trading.Service.Store.{OrderRecord}
use multi_platform_crypto_tr.Trading.Listing.{matching, newest_first, list_orders, pages}
use multi_platform_crypto_tr.Trading.Listing.Newest.{IsNewestFirst}
use multi_platform_crypto_tr.Trading.Listing.Pages.{read_pages, pages_cover}

abbrev order : String → String → OrderRecord ℕ
order user_id symbol = record {
  user_id = user_id;
  account_id = "a1";
  exchange_order_id = none;
  client_order_id = none;
  symbol = symbol;
  side = buy;
  type = OrderType.market;
  status = OrderStatus.filled;
  amount = 1;
  filled = 1;
  price = none;
  average = none;
  fee = 0;
  is_paper = true;
}

-- the later of the two orders of "ann" stands last in the table
abbrev rows : List (ℕ × OrderRecord ℕ)
rows = (5, order "ann" "BTC/USDT") ∷ (6, order "bob" "BTC/USDT") ∷ (7, order "ann" "ETH/USDT") ∷ []

pages_cover_example :
    let all = matching "ann" none none rows in
    let (items, total) = list_orders "ann" none none 2 1 rows in
    (read_pages "ann" none none 1 rows 0 (pages total 1) ≡ map (λ r. r.1) (newest_first all))
    × Perm (newest_first all) all
    × IsNewestFirst (newest_first all)
    × (total ≡ length all)
    × (length items ≤ 1)
    × All (λ r. r.1.user_id ≡ "ann") all
pages_cover_example = pages_cover "ann" none none 1 rows 2 (omega arith)
