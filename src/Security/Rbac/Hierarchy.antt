-- ===== src/Security/Rbac/Hierarchy.antt =====
-- Who may do what.
use multi_platform_crypto_tr.Base.{String, ◌≡◌, ◌⊎◌, ◌↔◌, true, arith, eq_iff}
use multi_platform_crypto_tr.Base.Result.{ok, err}
use multi_platform_crypto_tr.Exceptions.{permission_denied}
use multi_platform_crypto_tr.Security.Rbac.{
  Permission, account_read, account_write, order_create, order_cancel, admin_manage, has_permission,
  CurrentUser, require,
}

-- The roles that hold a permission: reading is for all three, writing and trading for traders and
-- administrators, administration for administrators.
abbrev pub Holds : String → Permission → Type 0
Holds role admin_manage = role ≡ "admin"
Holds role account_write = (role ≡ "admin") ⊎ (role ≡ "trader")
Holds role order_create = (role ≡ "admin") ⊎ (role ≡ "trader")
Holds role order_cancel = (role ≡ "admin") ⊎ (role ≡ "trader")
Holds role _ = (role ≡ "admin") ⊎ (role ≡ "trader") ⊎ (role ≡ "viewer")

-- A role has a permission exactly if it is one of those that hold it, so an unknown role has none;
-- the guard lets a user through unchanged if so, and refuses the request otherwise.
pub has_permission_exact :
    (permission : Permission) (user : CurrentUser)
    → ((has_permission user.role permission ≡ true) ↔ Holds user.role permission)
      × ((require permission user ≡ ok user) ↔ Holds user.role permission)
      × ((require permission user ≡ ok user) ⊎ (require permission user ≡ err permission_denied))
unfolding has_permission require
has_permission_exact account_read user =
    ground (arith, eq_iff user.role "admin", eq_iff user.role "trader", eq_iff user.role "viewer")
has_permission_exact p user =
    ground (arith, eq_iff user.role "admin", eq_iff user.role "trader", eq_iff user.role "viewer")
