-- ===== src/Accounts/Tests.antt =====
-- Witnesses for the accounts, with a cipher that puts one character in front of a text.
use multi_platform_crypto_tr.Base.{
  ◌≡◌, String, true, false, none, some, [], arith, Bool, ap, ◌∙◌, eq_iff, Option,
}
use multi_platform_crypto_tr.Base.Dict.{lookup, insert}
use multi_platform_crypto_tr.Base.Result.{Result, ok, err}
use multi_platform_crypto_tr.Exceptions.{AppError, not_found, unhandled}
use multi_platform_crypto_tr.Exchange.Factory.{Policy}
use multi_platform_crypto_tr.Accounts.{
  ExchangeAccount, Book, Cipher, NewAccount, is_taken, create_paper_account, get_account,
  delete_account,
}
use multi_platform_crypto_tr.Accounts.Owners.{foreign_account_hidden}
use multi_platform_crypto_tr.Api.ClientAddress.Forged.{append}

unfoldable opened : String → Result AppError String
opened String.[] = err unhandled
opened (String.◌∷◌ c s) = ok s

abbrev prefixing : Cipher
prefixing = record { encrypt = append "!"; decrypt = opened }

has_text : String → Bool
has_text String.[] = false
has_text (String.◌∷◌ c s) = true

abbrev wanted : NewAccount
wanted = record {
  id = "a1";
  user_id = "ann";
  exchange_id = "okx";
  label = "main";
  market_type = "swap";
}

abbrev policy : Policy
policy = record { allow_live_trading = true; use_exchange_testnet = true }

abbrev with_ann : Book
with_ann = (create_paper_account wanted (record { accounts = []; audit = [] })).1

-- the book of another user, who has the same label at the same exchange
abbrev with_bob : Book
with_bob =
    (create_paper_account (record wanted { id = "b1"; user_id = "bob" })
      (record { accounts = []; audit = [] })).1

owner_in : Option ExchangeAccount → String
owner_in none = ""
owner_in (some a) = a.user_id

owned_by_ann :
    (a : ExchangeAccount) → lookup "a1" with_ann.accounts ≡ some a → a.user_id ≡ "bob" → ⊥
unfolding create_paper_account is_taken insert lookup owner_in
owned_by_ann a found e = ground (arith, (eq_iff "ann" "bob").1 (ap owner_in found ∙ e))

foreign_account_hidden_example :
    (get_account "a1" "bob" with_ann ≡ err not_found)
    × (delete_account "a1" "bob" with_ann ≡ (err not_found, with_ann))
foreign_account_hidden_example = foreign_account_hidden "a1" "bob" with_ann owned_by_ann
