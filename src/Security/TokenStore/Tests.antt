-- ===== src/Security/TokenStore/Tests.antt =====
-- Witnesses for the store of revoked tokens.
use multi_platform_crypto_tr.Base.{◌≡◌, refl, true, [], ◌∷◌, arith}
use multi_platform_crypto_tr.Base.Dict.{lookup, HasUniqueKeys}
use multi_platform_crypto_tr.Security.TokenStore.{TokenStore, revoke, is_revoked}
use multi_platform_crypto_tr.Security.TokenStore.Revocation.{revoke_exact}

abbrev store : TokenStore
store = ("old", 2000000000) ∷ ("other", 90000000000) ∷ []

store-HasUniqueKeys : HasUniqueKeys store
unfolding lookup
store-HasUniqueKeys = (refl, (refl, tt))

revoke_exact_example : (is_revoked 9000000000 "j1" (revoke 3000000000 "j1" 10 store)).0 ≡ true
revoke_exact_example =
    revoke_exact 3000000000 9000000000 10 "j1" "j1" store store-HasUniqueKeys (omega arith)
