-- ===== src/Routes/Permissions.antt =====
-- resource_server/models/admin_permissions.py
use tenjin.Common.{Bool, true, false, not}
use tenjin.Routes.{AdminRole, admin, super, owner}

pub data AdminPermission : Type 0 where
  add_rule add_admin add_super edit_forum demote_to_admin promote_to_super : AdminPermission
  remove_admin remove_super delete_comment delete_post delete_rule delete_forum : AdminPermission

-- `_OWNER_EXCLUSIVE_PERMISSIONS` as a test
unfoldable pub is_owner_exclusive : AdminPermission → Bool
is_owner_exclusive add_super = true
is_owner_exclusive remove_super = true
is_owner_exclusive delete_forum = true
is_owner_exclusive _ = false

-- `permission in ADMIN_PERMISSIONS_MAPPING[role]`
unfoldable pub check_permission : AdminRole → AdminPermission → Bool
unfolding is_owner_exclusive
check_permission owner permission = true
check_permission super permission = not (is_owner_exclusive permission)
check_permission admin delete_post = true
check_permission admin delete_comment = true
check_permission admin _ = false
