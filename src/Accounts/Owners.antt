-- ===== src/Accounts/Owners.antt =====
-- Who reaches an account, and what a stored account leads to.
use multi_platform_crypto_tr.Base.{
  ◌≡◌, ◌≢◌, refl, inl, inr, String, true, false, none, some, [], ◌∷◌, All, arith, eq_iff,
  Option-cases,
}
use multi_platform_crypto_tr.Base.Dict.{Dict, lookup, lookup-insert_self, erase-insert_new}
use multi_platform_crypto_tr.Base.Result.{ok, err}
use multi_platform_crypto_tr.Exceptions.{not_found}
use multi_platform_crypto_tr.Accounts.{
  ExchangeAccount, Book, NewAccount, is_taken, create_paper_account, get_account, delete_account,
}
use multi_platform_crypto_tr.Security.Words.{Words}

-- For a user who does not own the account of this id, and for an id that there is no account of,
-- reading and deleting answer that there is none, and nothing is deleted or audited.
pub foreign_account_hidden :
    (account_id user_id : String) (b : Book)
    → ((a : ExchangeAccount) → lookup account_id b.accounts ≡ some a → a.user_id ≢ user_id)
    → (get_account account_id user_id b ≡ err not_found)
      × (delete_account account_id user_id b ≡ (err not_found, b))
unfolding get_account delete_account
foreign_account_hidden account_id user_id b foreign =
    elim (Option-cases (lookup account_id b.accounts)) [
      | inl absent ↦ ground (arith, absent)
      | inr (a, found) ↦ ground (arith, found, foreign a found, eq_iff a.user_id user_id)
    ]

-- The user has no account at this exchange with this label yet.
abbrev pub IsFree : NewAccount → Dict ExchangeAccount → Type 0
IsFree n accounts =
    All (λ e. (e.1.user_id ≡ n.user_id) → (e.1.exchange_id ≡ n.exchange_id) → (e.1.label ≢ n.label))
      accounts

free_lem :
    (n : NewAccount) (accounts : Dict ExchangeAccount)
    → IsFree n accounts
    → is_taken n accounts ≡ false
unfolding is_taken
free_lem n [] h = refl
free_lem n ((id, a) ∷ rest) h = ground (
  arith,
  h.0,
  eq_iff a.user_id n.user_id,
  eq_iff a.exchange_id n.exchange_id,
  eq_iff a.label n.label,
  free_lem n rest h.1,
)

-- A paper account that was created under a new id and a new label is read by its owner as it was
-- returned; once its owner deletes it, the accounts are what they were, and both steps are in the
-- audit trail.
pub create_delete_round_trip :
    (n : NewAccount) (b : Book)
    → lookup n.id b.accounts ≡ none
    → IsFree n b.accounts
    → let created = (create_paper_account n b).1 in
      let (answer, deleted) = delete_account n.id n.user_id created in
      (get_account n.id n.user_id created ≡ (create_paper_account n b).0)
      × (answer ≡ ok tt)
      × (deleted.accounts ≡ b.accounts)
      × (deleted.audit
          ≡ record { action = "account.delete"; user_id = some n.user_id; ip_address = none }
            ∷ record {
              action = "account.create_paper";
              user_id = some n.user_id;
              ip_address = none;
            }
            ∷ b.audit)
unfolding create_paper_account get_account delete_account
create_delete_round_trip n b new free =
    let account : ExchangeAccount = record {
      user_id = n.user_id;
      exchange_id = n.exchange_id;
      label = n.label;
      market_type = n.market_type;
      is_paper = true;
      api_key_enc = none;
      api_secret_enc = none;
      passphrase_enc = none;
      is_active = true;
    } in
    let open_label = free_lem n b.accounts free in
    let found = lookup-insert_self n.id account b.accounts in
    let gone = erase-insert_new n.id account b.accounts new in
    let same = (eq_iff n.user_id n.user_id).1 refl in
    (
      ground (arith, open_label, found, same),
      ground (arith, open_label, found, same),
      ground (arith, open_label, found, same, gone),
      ground (arith, open_label, found, same),
    )
