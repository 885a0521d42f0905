-- ===== src/Routes/Owners.antt =====
-- The owners of forums, over sequences of requests on admins.
use tenjin.Common.{◌≡◌, Option, some}
use tenjin.Common.Int.{ℤ}
use tenjin.Routes.{AdminRole, owner, AccessClaims, Server}
use tenjin.Routes.Admins.{NewRole, remove_admin, edit_admin_permissions, add_admin}
use tenjin.Routes.AdminLaws.{
  IsAdminStore, add_admin-Keeps, remove_admin-Keeps, edit_admin_permissions-Keeps,
}

-- A request on the admins of any forum, by any user, with the worlds before and after it.
pub data Handled {W : Type 0} (server : Server W) : W → W → Type 0 where
  nothing : (w : W) → Handled server w w
  added_one :
      (forum user : ℤ) (role : NewRole) (token : AccessClaims) (w v : W)
      → Handled server w v
      → Handled server w (add_admin server forum token user role v).1
  removed_one :
      (forum user : ℤ) (token : AccessClaims) (w v : W)
      → Handled server w v
      → Handled server w (remove_admin server forum token user v).1
  changed_one :
      (forum user : ℤ) (role : NewRole) (token : AccessClaims) (w v : W)
      → Handled server w v
      → Handled server w (edit_admin_permissions server forum token user role v).1

owns_stays :
    {W : Type 0} (server : Server W) (roles : W → ℤ → ℤ → Option AdminRole)
    (owns : W → ℤ → ℤ → Type 0) (store : IsAdminStore server roles owns) (forum user : ℤ) (w v : W)
    → Handled server w v
    → owns w forum user
    → owns v forum user
owns_stays server roles owns store forum user _ _ (nothing w) h = h
owns_stays server roles owns store forum user _ _ (added_one f u role token w v past) h =
    add_admin-Keeps server roles owns store forum user f token u role v
      (owns_stays server roles owns store forum user w v past h)
owns_stays server roles owns store forum user _ _ (removed_one f u token w v past) h =
    remove_admin-Keeps server roles owns store forum user f token u v
      (owns_stays server roles owns store forum user w v past h)
owns_stays server roles owns store forum user _ _ (changed_one f u role token w v past) h =
    edit_admin_permissions-Keeps server roles owns store forum user f token u role v
      (owns_stays server roles owns store forum user w v past h)

-- Whatever requests on admins are handled in sequence, by whomever and also where they fail: who owns
-- a forum stays its owner, with a server whose lookups and statements are those of an admin store,
-- whose cache may be stale on everyone else.
pub owner_stays :
    {W : Type 0} (server : Server W) (roles : W → ℤ → ℤ → Option AdminRole)
    (owns : W → ℤ → ℤ → Type 0) (store : IsAdminStore server roles owns) (forum user : ℤ) (w v : W)
    → Handled server w v
    → owns w forum user
    → (roles v forum user ≡ some owner) × owns v forum user
owner_stays server roles owns store forum user w v past h =
    let still = owns_stays server roles owns store forum user w v past h in
    (store.is_owner forum user v still, still)
