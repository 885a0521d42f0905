-- ===== src/Routes/AdminRanks.antt =====
-- resource_server/routers/forums.py: the roles that the checks on admins admit.
use tenjin.Common.{ℕ, ◌<◌, ◌≤◌, ◌≡◌, ◌≢◌, ap, arith}
use tenjin.Common.Action.{ok}
use tenjin.Routes.{AdminRole, admin, super, owner}
use tenjin.Routes.Permissions.{check_permission}
use tenjin.Routes.Admins.{
  NewRole, new_super, new_admin, role_of, same_role, require, check_addition, check_removal,
  check_change,
}

abbrev pub rank : AdminRole → ℕ
rank admin = 0
rank super = 1
rank owner = 2

pub check_addition-Below :
    (actor : AdminRole) (role : NewRole)
    → check_addition actor role ≡ ok tt
    → rank (role_of role) < rank actor
unfolding check_addition require check_permission role_of
check_addition-Below admin new_super h = cc
check_addition-Below admin new_admin h = cc
check_addition-Below super new_super h = cc
check_addition-Below super new_admin h = omega arith
check_addition-Below owner new_super h = omega arith
check_addition-Below owner new_admin h = omega arith

pub check_removal-Below :
    (actor existing : AdminRole) → check_removal actor existing ≡ ok tt → rank existing < rank actor
unfolding check_removal require check_permission
check_removal-Below actor owner h = cc
check_removal-Below admin admin h = cc
check_removal-Below super admin h = omega arith
check_removal-Below owner admin h = omega arith
check_removal-Below admin super h = cc
check_removal-Below super super h = cc
check_removal-Below owner super h = omega arith

pub check_change-Below :
    (actor existing : AdminRole) (role : NewRole)
    → check_change actor existing role ≡ ok tt
    → (rank existing < rank actor) × (rank (role_of role) ≤ rank actor)
unfolding check_change require check_permission role_of same_role
check_change-Below actor owner role h = cc
check_change-Below admin admin new_super h = cc
check_change-Below super admin new_super h = (omega arith, omega arith)
check_change-Below owner admin new_super h = (omega arith, omega arith)
check_change-Below actor admin new_admin h = cc
check_change-Below actor super new_super h = cc
check_change-Below admin super new_admin h = cc
check_change-Below super super new_admin h = cc
check_change-Below owner super new_admin h = (omega arith, omega arith)

pub Below-ne-owner : (actor existing : AdminRole) → rank existing < rank actor → existing ≢ owner
Below-ne-owner actor existing below e = at_most_owner actor (rw (ap rank e) at below)
  where
    at_most_owner : (role : AdminRole) → 2 < rank role → ⊥
    at_most_owner admin h = omega (arith, h)
    at_most_owner super h = omega (arith, h)
    at_most_owner owner h = omega (arith, h)
