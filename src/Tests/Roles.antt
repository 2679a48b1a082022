-- ===== src/Tests/Roles.antt =====
-- Transactions, roles and switches (lsp/buntdb/shortcut.go, lsp/permission/stateManager.go) on a
-- database where user 23 is an administrator.
use ddbot_nexus.Prelude.{
  if◌then◌else◌, any, Text, bytes, ◌==ₜ◌, has_prefix, join, elem, pos, format_int, IsInt64, ◌≡◌,
  refl, ◌↔◌, ◌⊎◌, true, false, ◌&&◌, List, [], ◌∷◌, arith,
}
use ddbot_nexus.Buntdb.Interface.{
  ok, err, permission_exist, permission_denied, not_found, permission_not_exist, global_disabled,
  is_not_found, Error,
}
use ddbot_nexus.Permission.Require.{remove_all_by_group_code}
use ddbot_nexus.Buntdb.Memory.{
  memory_laws-Live, memory, memory_laws, Table, lookup, set_entry, ascend_entries, keep_on_error,
}
use ddbot_nexus.Buntdb.ShortCut.{
  Session, inside, idle, rw_cover, throw, Act, ◌>>◌, remove_by_prefix_and_index, rw_cover_tx,
  r_cover_tx, r_cover, set, get, or_false, tx_of,
}
use ddbot_nexus.Buntdb.ShortCut.Laws.{rw_cover_atomic, read}
use ddbot_nexus.Permission.{
  RoleType, check_role, grant_role, admin, user, disable, role_key, ungrant_role, role_string,
  rollback_as,
}
use ddbot_nexus.Permission.Laws.Roles.{
  grant_role_reply, ungrant_role_reply, check_role-grant_role, check_role-ungrant_role,
}
use ddbot_nexus.Permission.Laws.Removal.{permission_indexes, remove_all_by_group_code_takes_roles}
use ddbot_nexus.Buntdb.ShortCut.Removal.{keys_of, entries_of, read-remove_by_prefix_and_index}
use ddbot_nexus.Permission.Switches.{
  check_global_command_disabled, check_group_command_enabled, check_group_command_disabled,
  enable_group_command, disable_group_command, judge, check_command_func, check_global_command_func,
}
use ddbot_nexus.Permission.Laws.Commands.{globally_disabled, switch_takes_effect}
use ddbot_nexus.Buntdb.Key.{family_name, family_key}

abbrev table : Table
table = record {
  entries = (bytes "Permission:23:Admin", []) ∷ (bytes "GlobalEnable:roll", bytes "disable") ∷ [];
  indexes = permission_indexes;
}

abbrev role_entries : List (Text × Text)
role_entries = (bytes "Permission:23:Admin", []) ∷ []

abbrev session : Session
session = inside table

abbrev add_then_fail : Act (Unit {0})
add_then_fail = grant_role (pos 7) RoleType.user >> throw permission_denied

live : memory_laws.Live table
live = memory_laws-Live table

rw_cover_atomic_example :
    let (r, s) = add_then_fail (inside (memory_laws.begin table)) in
    ((e : Error) × (r ≡ err e) × (rw_cover add_then_fail (idle table) ≡ (err e, idle table)))
    ⊎ ((a : Unit {0}) × (r ≡ ok a)
        × ((rw_cover add_then_fail (idle table)
              ≡ (ok a, idle (memory_laws.snapshot (tx_of (memory_laws.begin table) s))))
            ⊎ ((e : Error) × (rw_cover add_then_fail (idle table) ≡ (err e, idle table)))))
rw_cover_atomic_example = rw_cover_atomic memory_laws add_then_fail table

undone : rw_cover add_then_fail (idle table) ≡ (err permission_denied, idle table)
unfolding rw_cover ddbot_nexus.Buntdb.Memory.keep_on_error grant_role
    ddbot_nexus.Permission.role_string ddbot_nexus.Permission.rollback_as
    ddbot_nexus.Buntdb.ShortCut.set ddbot_nexus.Buntdb.ShortCut.rw_cover_tx
    ddbot_nexus.Buntdb.Memory.set_entry ddbot_nexus.Prelude.◌==ₜ◌ role_key
    ddbot_nexus.Buntdb.Key.family_key ddbot_nexus.Prelude.join ddbot_nexus.Buntdb.Key.family_name
    format_int
undone = refl

small : IsInt64 (pos 23)
small = ground arith

grant_role_reply_test :
    (grant_role (pos 23) RoleType.admin session).0
    ≡ (if (check_role (pos 23) RoleType.admin session).0 then err permission_exist else ok tt)
unfolding role_string
grant_role_reply_test = grant_role_reply memory_laws session live (pos 23) RoleType.admin refl

ungrant_role_reply_test :
    (ungrant_role (pos 23) RoleType.admin session).0
    ≡ (if (check_role (pos 23) RoleType.admin session).0 then ok tt else err permission_not_exist)
unfolding role_string
ungrant_role_reply_test = ungrant_role_reply memory_laws session live (pos 23) RoleType.admin refl

check_role-grant_role_example :
    ((check_role (pos 23) RoleType.admin (grant_role (pos 23) RoleType.user session).1).0 ≡ true)
    ↔ (((pos 23 ≡ pos 23) × (RoleType.user ≡ RoleType.admin))
        ⊎ ((check_role (pos 23) RoleType.admin session).0 ≡ true))
unfolding role_string
check_role-grant_role_example =
    check_role-grant_role memory_laws session (pos 23) (pos 23) RoleType.user RoleType.admin live
      small small refl refl

check_role-ungrant_role_example :
    ((check_role (pos 23) RoleType.admin (ungrant_role (pos 23) RoleType.user session).1).0 ≡ true)
    ↔ ((¬ ((pos 23 ≡ pos 23) × (RoleType.user ≡ RoleType.admin)))
        × ((check_role (pos 23) RoleType.admin session).0 ≡ true))
unfolding role_string
check_role-ungrant_role_example =
    check_role-ungrant_role memory_laws session (pos 23) (pos 23) RoleType.user RoleType.admin live
      small small refl refl

roll_disabled : (check_global_command_disabled (bytes "roll") session).0 ≡ true
unfolding check_global_command_disabled check_global_command_func check_command_func or_false
    r_cover judge get r_cover_tx lookup ◌==ₜ◌ family_key join family_name
roll_disabled = refl

globally_disabled_test :
    (enable_group_command (pos 1) (bytes "roll") session ≡ (err global_disabled, session))
    × (disable_group_command (pos 1) (bytes "roll") session ≡ (err global_disabled, session))
    × ((check_group_command_enabled (pos 1) (bytes "roll") session).0 ≡ false)
    × ((check_group_command_disabled (pos 1) (bytes "roll") session).0 ≡ true)
globally_disabled_test =
    globally_disabled memory_laws session live (pos 1) (bytes "roll") roll_disabled

watch_allowed : (check_global_command_disabled (bytes "watch") session).0 ≡ false
unfolding check_global_command_disabled ddbot_nexus.Permission.Switches.check_global_command_func
    ddbot_nexus.Permission.Switches.check_command_func ddbot_nexus.Buntdb.ShortCut.or_false
    ddbot_nexus.Buntdb.ShortCut.r_cover ddbot_nexus.Permission.Switches.judge
    ddbot_nexus.Buntdb.ShortCut.get ddbot_nexus.Buntdb.ShortCut.r_cover_tx
    ddbot_nexus.Buntdb.Memory.lookup ddbot_nexus.Prelude.◌==ₜ◌ ddbot_nexus.Buntdb.Key.family_key
    ddbot_nexus.Prelude.join ddbot_nexus.Buntdb.Key.family_name
    ddbot_nexus.Buntdb.Interface.is_not_found
watch_allowed = refl

switch_takes_effect_example :
    ((check_group_command_enabled
        (pos 1)
        (bytes "watch")
        (enable_group_command (pos 1) (bytes "watch") session).1).0
      ≡ true)
    × ((check_group_command_disabled
          (pos 1)
          (bytes "watch")
          (enable_group_command (pos 1) (bytes "watch") session).1).0
        ≡ false)
    × ((check_group_command_enabled
          (pos 1)
          (bytes "watch")
          (disable_group_command (pos 1) (bytes "watch") session).1).0
        ≡ false)
    × ((check_group_command_disabled
          (pos 1)
          (bytes "watch")
          (disable_group_command (pos 1) (bytes "watch") session).1).0
        ≡ true)
    × ((check_global_command_disabled
          (bytes "roll")
          (enable_group_command (pos 1) (bytes "watch") session).1).0
        ≡ (check_global_command_disabled (bytes "roll") session).0)
    × ((check_global_command_disabled
          (bytes "roll")
          (disable_group_command (pos 1) (bytes "watch") session).1).0
        ≡ (check_global_command_disabled (bytes "roll") session).0)
switch_takes_effect_example =
    switch_takes_effect memory_laws session (pos 1) (bytes "watch") (bytes "roll") live
      watch_allowed

listed : entries_of table permission_indexes ≡ ok role_entries
unfolding entries_of ddbot_nexus.Buntdb.Memory.ascend_entries elem ddbot_nexus.Prelude.◌==ₜ◌
    ddbot_nexus.Buntdb.Key.family_key ddbot_nexus.Prelude.join ddbot_nexus.Buntdb.Key.family_name
    has_prefix
listed = refl

has_the_role : elem (role_key (pos 23) RoleType.admin) (keys_of role_entries) ≡ true
unfolding elem ddbot_nexus.Prelude.◌==ₜ◌ role_key ddbot_nexus.Buntdb.Key.family_key
    ddbot_nexus.Prelude.join ddbot_nexus.Buntdb.Key.family_name format_int
    ddbot_nexus.Permission.role_string
has_the_role = refl

begins : has_prefix (format_int (pos 23)) (format_int (pos 2)) ≡ true
unfolding has_prefix format_int
begins = refl

remove_all_by_group_code_takes_roles_example :
    (check_role (pos 23) RoleType.admin (remove_all_by_group_code (pos 2) session).1).0 ≡ false
remove_all_by_group_code_takes_roles_example =
    remove_all_by_group_code_takes_roles memory_laws table role_entries (pos 2) (pos 23)
      RoleType.admin live listed has_the_role begins

abbrev prefixes : List Text
prefixes = bytes "Permission:2" ∷ []

read-remove_by_prefix_and_index_example :
    read
      (remove_by_prefix_and_index prefixes permission_indexes session).1
      (bytes "Permission:23:Admin")
    ≡ (if any (has_prefix (bytes "Permission:23:Admin")) prefixes
          && elem (bytes "Permission:23:Admin") (keys_of role_entries)
        then err not_found
        else read session (bytes "Permission:23:Admin"))
read-remove_by_prefix_and_index_example =
    read-remove_by_prefix_and_index memory_laws table prefixes permission_indexes role_entries
      (bytes "Permission:23:Admin") live listed
