-- ===== src/Security/Rbac.antt =====
-- The permission model of app/security/rbac.py, and the guard `require` of app/api/deps.py.
pub mod Hierarchy
use multi_platform_crypto_tr.Base.{
  ℕ, String, Bool, true, false, ◌||◌, Option, none, some, List, [], ◌∷◌, ◌++◌, str_eq, ◌==◌,
  if◌then◌else◌,
}
use multi_platform_crypto_tr.Base.Result.{Result, ok, err}
use multi_platform_crypto_tr.Exceptions.{AppError, permission_denied}

pub data Role : Type 0 where
  admin trader viewer : Role

pub data Permission : Type 0 where
  account_read account_write market_read portfolio_read : Permission
  order_read order_create order_cancel admin_manage : Permission

abbrev pub viewer_permissions : List Permission
viewer_permissions = market_read ∷ portfolio_read ∷ order_read ∷ account_read ∷ []

abbrev pub trader_permissions : List Permission
trader_permissions = viewer_permissions ++ account_write ∷ order_create ∷ order_cancel ∷ []

abbrev pub admin_permissions : List Permission
admin_permissions = trader_permissions ++ admin_manage ∷ []

-- `ROLE_PERMISSIONS`
abbrev pub role_permissions : Role → List Permission
role_permissions viewer = viewer_permissions
role_permissions trader = trader_permissions
role_permissions admin = admin_permissions

-- `Role(role)`, which raises a `ValueError` for any other text
unfoldable pub role_of : String → Option Role
role_of role =
    if str_eq role "admin"
    then some admin
    else if str_eq role "trader"
    then some trader
    else if str_eq role "viewer"
    then some viewer
    else none

unfoldable pub permissions_for : String → List Permission
unfolding role_of
permissions_for role = elim (role_of role) [ none ↦ [] | some r ↦ role_permissions r ]

-- a number for each permission, to compare them by
abbrev rank : Permission → ℕ
rank account_read = 0
rank account_write = 1
rank market_read = 2
rank portfolio_read = 3
rank order_read = 4
rank order_create = 5
rank order_cancel = 6
rank admin_manage = 7

-- `permission in permissions`
abbrev pub contains : Permission → List Permission → Bool
contains p [] = false
contains p (q ∷ qs) = rank p == rank q || contains p qs

unfoldable pub has_permission : String → Permission → Bool
unfolding permissions_for
has_permission role permission = contains permission (permissions_for role)

-- `CurrentUser` and the dependency that `require(permission)` returns
pub record CurrentUser : Type 0 where
  pub id : String
  pub role : String

unfoldable pub require : Permission → CurrentUser → Result AppError CurrentUser
unfolding has_permission
require permission user =
    if has_permission user.role permission then ok user else err permission_denied
