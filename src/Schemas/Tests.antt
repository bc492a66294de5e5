-- ===== src/Schemas/Tests.antt =====
-- Witnesses for accepted orders.
use multi_platform_crypto_tr.Base.{◌⊎◌, ◌≡◌, ◌≤◌, refl, String, false, none, some}
use Prim.Native.Char.{Char, code}
use multi_platform_crypto_tr.Api.ClientAddress.Forged.{append}
use multi_platform_crypto_tr.Base.Result.{ok}
use multi_platform_crypto_tr.Config.{len}
use multi_platform_crypto_tr.Decimal.Fixed.{pos, fixed, fixed-IsRounding}
use multi_platform_crypto_tr.Exchange.Paper.{create_order}
use multi_platform_crypto_tr.Exchange.Paper.Ledger.{IsValid}
use multi_platform_crypto_tr.Exchange.Paper.Samples.{adapter, ledger, ticker, valid, fair}
use multi_platform_crypto_tr.Exchange.Symbol.{split_symbol}
use multi_platform_crypto_tr.Schemas.{
  run, matches_symbol_pattern, OrderCreate, is_accepted, request_of,
}
use multi_platform_crypto_tr.Schemas.Accepted.{accepted_order-IsValid}
use multi_platform_crypto_tr.Trading.{buy, limit, gtc}
use multi_platform_crypto_tr.Schemas.Symbols.{HasClass, Starts, accepted_symbol_splits}

accepted_symbol_splits_example :
    (base : String) × (quote : String) × ((default : String)
      → split_symbol "BTC/USDT:USDT" default ≡ (base, quote))
    × (1 ≤ len base)
    × (len base ≤ 20)
    × (1 ≤ len quote)
    × (len quote ≤ 20)
    × HasClass base
    × HasClass quote
    × (slash : Char) × (code slash ≡ b'/')
    × (rest : String) × ("BTC/USDT:USDT" ≡ append base (String.◌∷◌ slash (append quote rest)))
    × ((rest ≡ "") ⊎ ((settle : String) × Starts b':' rest settle))
unfolding matches_symbol_pattern run
accepted_symbol_splits_example = accepted_symbol_splits "BTC/USDT:USDT" refl

abbrev payload : OrderCreate fixed
payload = record {
  account_id = "a1";
  symbol = "BTC/USDT";
  side = buy;
  type = limit;
  amount = pos 20000;
  price = some (pos 900000);
  stop_price = none;
  time_in_force = gtc;
  reduce_only = false;
  post_only = false;
  leverage = some 5;
}

accepted_order-IsValid_example :
    IsValid fixed
      (create_order fixed adapter (ok ticker) "p1" (request_of fixed payload "c1") ledger).1
unfolding is_accepted matches_symbol_pattern run
accepted_order-IsValid_example =
    accepted_order-IsValid fixed fixed-IsRounding payload "c1" "p1" adapter (ok ticker) ledger refl
      fair refl valid
