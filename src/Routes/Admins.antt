-- ===== src/Routes/Admins.antt =====
-- resource_server/routers/forums.py: add_admin, remove_admin and edit_admin_permissions.
use tenjin.Common.{Bool, true, false, if◌then◌else◌, Option, none, some}
use tenjin.Common.Action.{Action, Result, ok, err, http_error, raise, lift, pure, done, ◌>>=◌, ◌>>◌}
use tenjin.Common.Int.{ℤ}
use tenjin.Cache.Guard.{derive_cache_key}
use tenjin.Routes.{AdminRole, admin, super, owner, ForumAdminResult, AccessClaims, Server}
use tenjin.Routes.Permissions.{
  AdminPermission, add_admin as may_add_admin, add_super, remove_admin as may_remove_admin,
  remove_super, demote_to_admin, promote_to_super, check_permission,
}
use tenjin.Routes.Parts.{Response, message, forum_or_404, forum_admin, or_http}

-- models/requests.py: `Literal[AdminRoles.SUPER, AdminRoles.ADMIN]`
pub data NewRole : Type 0 where
  new_super new_admin : NewRole

unfoldable pub role_of : NewRole → AdminRole
role_of new_super = super
role_of new_admin = admin

unfoldable pub same_role : AdminRole → AdminRole → Bool
same_role admin admin = true
same_role super super = true
same_role owner owner = true
same_role _ _ = false

unfoldable pub addition_permission : NewRole → AdminPermission
addition_permission new_admin = may_add_admin
addition_permission new_super = add_super

unfoldable pub removal_permission : AdminRole → AdminPermission
removal_permission admin = may_remove_admin
removal_permission _ = remove_super

unfoldable pub change_permission : NewRole → AdminPermission
change_permission new_admin = demote_to_admin
change_permission new_super = promote_to_super

unfoldable pub require : AdminRole → AdminPermission → Result (Unit {0})
unfolding check_permission
require role permission = if check_permission role permission then ok tt else err (http_error 403)

-- the checks of the three handlers on the role of the user who asks, with that of the admin who is
-- removed or changed
unfoldable pub check_addition : AdminRole → NewRole → Result (Unit {0})
unfolding require addition_permission
check_addition actor role = require actor (addition_permission role)

unfoldable pub check_removal : AdminRole → AdminRole → Result (Unit {0})
unfolding require removal_permission
check_removal actor owner = err (http_error 403)
check_removal actor existing = require actor (removal_permission existing)

unfoldable pub check_change : AdminRole → AdminRole → NewRole → Result (Unit {0})
unfolding require change_permission same_role role_of
check_change actor owner role = err (http_error 403)
check_change actor existing role =
    if same_role (role_of role) existing
    then err (http_error 409)
    else if same_role existing actor
    then err (http_error 403)
    else require actor (change_permission role)

module _ {W : Type 0} (server : Server W) (forum_id : ℤ) (token : AccessClaims) where
  -- the checks that the forum is there and that the user is an admin of it
  unfoldable pub acting_admin : Action W ForumAdminResult
  unfolding forum_or_404 forum_admin or_http
  acting_admin =
      forum_or_404 server forum_id >> forum_admin server forum_id token.sid >>= or_http 403

  -- the user, looked up under the key of the forum
  unfoldable pub unless_admin : ℤ → Option ForumAdminResult → Action W (Unit {0})
  unfolding derive_cache_key
  unless_admin user_id (some existing) = raise (http_error 409)
  unless_admin user_id none =
      server.user_or_load (derive_cache_key "forums" forum_id) user_id >>= λ found.
      if found then done else raise (http_error 404)

  unfoldable pub add_admin : ℤ → NewRole → Action W Response
  unfolding acting_admin check_addition unless_admin role_of forum_admin
  add_admin user_id role = do
    actor ← acting_admin
    lift (check_addition actor.role role)
    existing ← forum_admin server forum_id user_id
    unless_admin user_id existing
    server.add_forum_admin forum_id user_id (role_of role)
    pure (message 201 "Admin added")

  -- what follows the lookups of `remove_admin`
  unfoldable pub remove_checked : ForumAdminResult → ForumAdminResult → Action W Response
  unfolding check_removal
  remove_checked actor existing =
      lift (check_removal actor.role existing.role)
      >> server.remove_forum_admin forum_id existing.user_id
      >> pure (message 200 "Admin removed")

  unfoldable pub remove_admin : ℤ → Action W Response
  unfolding acting_admin remove_checked forum_admin or_http
  remove_admin user_id = do
    actor ← acting_admin
    existing ← forum_admin server forum_id user_id >>= or_http 404
    remove_checked actor existing

  unfoldable pub change_checked :
      ℤ → NewRole → ForumAdminResult → ForumAdminResult → Action W Response
  unfolding check_change role_of
  change_checked user_id role actor existing =
      lift (check_change actor.role existing.role role)
      >> server.update_admin_role forum_id user_id (role_of role)
      >> pure (message 200 "Updated role")

  unfoldable pub edit_admin_permissions : ℤ → NewRole → Action W Response
  unfolding acting_admin change_checked forum_admin or_http
  edit_admin_permissions user_id role = do
    actor ← acting_admin
    existing ← forum_admin server forum_id user_id >>= or_http 404
    change_checked user_id role actor existing
