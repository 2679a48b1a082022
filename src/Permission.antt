-- ===== src/Permission.antt =====
-- lsp/permission: roles, command switches, silence and the block list, kept in the database. Each
-- method of `StateManager` is an action on a session. What the bot's client knows of a group's
-- members is an argument of the checks that ask it. Logging is left out.
pub mod Switches
pub mod Require
pub mod Laws
use ddbot_nexus.Prelude.{
  if◌then◌else◌, is_empty, Text, bytes, ◌==ₜ◌, ℤ, Bool, true, false, Option, List, [], ◌∷◌,
}
use ddbot_nexus.Buntdb.Interface.{
  BuntDb, Error, Reply, is_rollback, is_not_found, key_exist, permission_exist,
  permission_not_exist, error_role, ok, err,
}
use ddbot_nexus.Buntdb.Key.{
  KeyPart, int_part, text_part, KeyFamily, family_key, permission, block_list, group_permission,
  group_enabled, global_enabled, group_silence, global_silence,
}
use ddbot_nexus.Buntdb.ShortCut.{Session, Act, set, delete, exist}
use ddbot_nexus.Buntdb.Options.{no_option, set_expire_opt, set_no_over_write_opt}

-- The constants of `RoleType`; `unknown` stands for every other number too.
pub data RoleType : Type 0 where
  unknown admin group_admin user : RoleType

unfoldable pub role_string : RoleType → Text
role_string admin = bytes "Admin"
role_string group_admin = bytes "GroupAdmin"
role_string user = bytes "User"
role_string unknown = []

unfoldable pub new_role_from_string : Text → RoleType
new_role_from_string s =
    if s ==ₜ bytes "Admin"
    then admin
    else if s ==ₜ bytes "GroupAdmin"
    then group_admin
    else if s ==ₜ bytes "User"
    then user
    else unknown

abbrev pub enable : Text
enable = bytes "enable"

abbrev pub disable : Text
disable = bytes "disable"

-- client.MemberPermission
pub data MemberPermission : Type 0 where
  owner administrator member : MemberPermission

-- FindGroup and FindMember: the permission of a member of a group, if both are known.
abbrev pub Members : Type 0
Members = ℤ → Option (ℤ → Option MemberPermission)

abbrev pub permission_key : List KeyPart → Text
permission_key = family_key KeyFamily.permission

abbrev pub group_permission_key : List KeyPart → Text
group_permission_key = family_key KeyFamily.group_permission

abbrev pub group_enabled_key : List KeyPart → Text
group_enabled_key = family_key KeyFamily.group_enabled

abbrev pub global_enabled_key : List KeyPart → Text
global_enabled_key = family_key KeyFamily.global_enabled

abbrev pub group_silence_key : List KeyPart → Text
group_silence_key = family_key KeyFamily.group_silence

abbrev pub global_silence_key : List KeyPart → Text
global_silence_key = family_key KeyFamily.global_silence

abbrev pub block_list_key : List KeyPart → Text
block_list_key = family_key KeyFamily.block_list

-- Errors are replaced by those of the package.
unfoldable pub rollback_as : {A : Type 0} → Error → Reply A → Reply (Unit {0})
unfolding is_rollback
rollback_as e' (ok a) = ok tt
rollback_as e' (err e) = if is_rollback e then err e' else err e

unfoldable pub not_found_as : {A : Type 0} → Error → Reply A → Reply (Unit {0})
unfolding is_not_found
not_found_as e' (ok a) = ok tt
not_found_as e' (err e) = if is_not_found e then err e' else err e

unfoldable pub drop_value : {A : Type 0} → Reply A → Reply (Unit {0})
drop_value (ok a) = ok tt
drop_value (err e) = err e

unfoldable pub role_key : ℤ → RoleType → Text
role_key caller role = permission_key (int_part caller ∷ text_part (role_string role) ∷ [])

unfoldable pub group_role_key : ℤ → ℤ → RoleType → Text
group_role_key group caller role =
    group_permission_key (int_part group ∷ int_part caller ∷ text_part (role_string role) ∷ [])

-- The block list and the roles.
module _ ⦃b : BuntDb⦄ where
  abbrev pub Query : Type 0
  Query = Session → Bool × Session

  unfoldable pub check_block_list : ℤ → Query
  check_block_list caller = exist (block_list_key (int_part caller ∷ [])) no_option

  unfoldable pub add_block_list : ℤ → ℤ → Act (Unit {0})
  add_block_list caller d s =
      let (r, s') =
        set (block_list_key (int_part caller ∷ [])) []
          (set_no_over_write_opt (set_expire_opt d no_option)) s in
      (rollback_as key_exist r, s')

  unfoldable pub delete_block_list : ℤ → Act (Unit {0})
  delete_block_list caller s =
      let (r, s') = delete (block_list_key (int_part caller ∷ [])) no_option s in (drop_value r, s')

  unfoldable pub check_role : ℤ → RoleType → Query
  check_role caller role s =
      if is_empty (role_string role) then (false, s) else exist (role_key caller role) no_option s

  unfoldable pub check_admin : ℤ → Query
  check_admin caller = check_role caller admin

  unfoldable pub check_group_role : ℤ → ℤ → RoleType → Query
  check_group_role group caller role s =
      if is_empty (role_string role)
      then (false, s)
      else exist (group_role_key group caller role) no_option s

  unfoldable pub check_group_admin : ℤ → ℤ → Query
  check_group_admin group caller = check_group_role group caller group_admin

  unfoldable pub grant_role : ℤ → RoleType → Act (Unit {0})
  grant_role target role s =
      if is_empty (role_string role)
      then (err error_role, s)
      else let (r, s') = set (role_key target role) [] (set_no_over_write_opt no_option) s in
        (rollback_as permission_exist r, s')

  unfoldable pub ungrant_role : ℤ → RoleType → Act (Unit {0})
  ungrant_role target role s =
      if is_empty (role_string role)
      then (err error_role, s)
      else let (r, s') = delete (role_key target role) no_option s in
        (not_found_as permission_not_exist r, s')

  unfoldable pub grant_group_role : ℤ → ℤ → RoleType → Act (Unit {0})
  grant_group_role group target role s =
      if is_empty (role_string role)
      then (err error_role, s)
      else let (r, s') =
          set (group_role_key group target role) [] (set_no_over_write_opt no_option) s in
        (rollback_as permission_exist r, s')

  unfoldable pub ungrant_group_role : ℤ → ℤ → RoleType → Act (Unit {0})
  ungrant_group_role group target role s =
      if is_empty (role_string role)
      then (err error_role, s)
      else let (r, s') = delete (group_role_key group target role) no_option s in
        (not_found_as permission_not_exist r, s')
