-- ===== src/Exchange/Paper/Samples.antt =====
-- An account of 1000 USDT with a fee of 4 in 10000, for the witnesses.
use multi_platform_crypto_tr.Base.{refl, none, [], ◌∷◌, arith, eq_iff}
use multi_platform_crypto_tr.Base.Dict.{lookup}
use multi_platform_crypto_tr.Decimal.Fixed.{ℤ, pos, fixed}
use multi_platform_crypto_tr.Exchange.Models.{Ticker, PaperLedger}
use multi_platform_crypto_tr.Exchange.Paper.Funds.{PaperAdapter}
use multi_platform_crypto_tr.Exchange.Paper.Ledger.{IsValid, IsFair}

abbrev pub adapter : PaperAdapter fixed
adapter = record { quote = "USDT"; fee_rate = pos 4 }

abbrev pub ledger : PaperLedger ℤ
ledger = record {
  quote_asset = "USDT";
  starting_balance = pos 10000000;
  balances = ("USDT", record { asset = "USDT"; free = pos 10000000; used = pos 0 }) ∷ [];
  orders = [];
}

abbrev pub ticker : Ticker ℤ
ticker = record {
  symbol = "BTC/USDT";
  last = pos 1000000;
  bid = none;
  ask = none;
  timestamp = none;
}

pub fair : IsFair fixed adapter
fair = record { fee_nonneg = refl; fee_le_cost = refl }

pub valid : IsValid fixed ledger
unfolding lookup
valid = record {
  solvent = record { at = λ k b e. ground (arith, eq_iff "USDT" k) };
  priced = λ k o e. cc;
}
