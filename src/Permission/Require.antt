-- ===== src/Permission/Require.antt =====
-- lsp/permission: permissions for single commands, and the options by which a
-- command asks for permission.
use ddbot_nexus.Prelude.{if◌then◌else◌, Text, ℤ, Bool, true, false, none, some, List, [], ◌∷◌}
use ddbot_nexus.Buntdb.Interface.{
  BuntDb, permission_exist, permission_not_exist, global_disabled, err,
}
use ddbot_nexus.Buntdb.Key.{int_part, text_part}
use ddbot_nexus.Buntdb.ShortCut.{Act, set, delete, exist, remove_by_prefix_and_index}
use ddbot_nexus.Buntdb.Options.{no_option, set_no_over_write_opt}
use ddbot_nexus.Permission.{
  Members, MemberPermission, permission_key, group_permission_key, group_enabled_key, rollback_as,
  not_found_as, Query, check_role, check_group_role, admin, group_admin, owner, administrator,
  member,
}
use ddbot_nexus.Permission.Switches.{check_global_command_disabled}

unfoldable pub is_manager : MemberPermission → Bool
is_manager owner = true
is_manager administrator = true
is_manager member = false

unfoldable pub check_group_administrator : Members → ℤ → ℤ → Bool
check_group_administrator members group caller = elim (members group) [
  | none ↦ false
  | some find_member ↦ elim (find_member caller) [ none ↦ false | some p ↦ is_manager p ]
]

module _ ⦃b : BuntDb⦄ where
  unfoldable pub command_key : ℤ → ℤ → Text → Text
  command_key group caller command =
      permission_key (int_part group ∷ int_part caller ∷ text_part command ∷ [])

  unfoldable pub check_group_command_permission : ℤ → ℤ → Text → Query
  check_group_command_permission group caller command s =
      let (is_admin, s') = check_role caller admin s in
      if is_admin then (true, s') else exist (command_key group caller command) no_option s'

  unfoldable pub grant_permission : ℤ → ℤ → Text → Act (Unit {0})
  grant_permission group target command s =
      let (off, s') = check_global_command_disabled command s in
      let (r, s'') =
        set (command_key group target command) [] (set_no_over_write_opt no_option) s' in
      if off then (err global_disabled, s') else (rollback_as permission_exist r, s'')

  unfoldable pub ungrant_permission : ℤ → ℤ → Text → Act (Unit {0})
  ungrant_permission group target command s =
      let (off, s') = check_global_command_disabled command s in
      let (r, s'') = delete (command_key group target command) no_option s' in
      if off then (err global_disabled, s') else (not_found_as permission_not_exist r, s'')

  unfoldable pub remove_all_by_group_code : ℤ → Act (List Text)
  remove_all_by_group_code group =
      remove_by_prefix_and_index
        (group_permission_key (int_part group ∷ [])
          ∷ permission_key (int_part group ∷ [])
          ∷ group_enabled_key (int_part group ∷ [])
          ∷ [])
        (group_permission_key [] ∷ permission_key [] ∷ group_enabled_key [] ∷ [])

-- The constructors of RequireOption: AdminRoleRequireOption, GroupAdminRoleRequireOption,
-- QQAdminRequireOption and GroupCommandRequireOption.
pub data RequireOption : Type 0 where
  admin_role : ℤ → RequireOption
  group_admin_role : ℤ → ℤ → RequireOption
  qq_admin : ℤ → ℤ → RequireOption
  group_command : ℤ → ℤ → Text → RequireOption

module _ ⦃b : BuntDb⦄ (members : Members) where
  unfoldable pub validate : RequireOption → Query
  validate (admin_role uin) s = check_role uin admin s
  validate (group_admin_role group uin) s = check_group_role group uin group_admin s
  validate (qq_admin group uin) s = (check_group_administrator members group uin, s)
  validate (group_command group uin command) s = check_group_command_permission group uin command s

  unfoldable pub require_any : List RequireOption → Query
  require_any [] s = (false, s)
  require_any (o ∷ os) s =
      let (pass, s') = validate o s in
      let later = require_any os s' in if pass then (true, s') else later
