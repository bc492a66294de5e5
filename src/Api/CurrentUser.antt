-- ===== src/Api/CurrentUser.antt =====
-- `get_current_user` of app/api/deps.py, and the guard of a route that requires a permission.
pub mod Admitted
mod Tests
use multi_platform_crypto_tr.Base.{ℕ, String}
use multi_platform_crypto_tr.Base.Result.{Result, and_then, map_ok}
use multi_platform_crypto_tr.Exceptions.{AppError}
use multi_platform_crypto_tr.Security.Rbac.{Permission, CurrentUser, require}
use multi_platform_crypto_tr.Security.Tokens.{TokenClaims, TokenService, access, decode}

abbrev user_of : TokenClaims → CurrentUser
user_of claims = record { id = claims.subject; role = claims.role }

unfoldable pub get_current_user : TokenService → ℕ → String → Result AppError CurrentUser
get_current_user tokens now credentials = map_ok user_of (decode tokens now credentials access)

-- `Depends(require(permission))`, whose user is `Depends(get_current_user)`
unfoldable pub guarded : TokenService → ℕ → Permission → String → Result AppError CurrentUser
guarded tokens now permission credentials =
    and_then (get_current_user tokens now credentials) (require permission)
