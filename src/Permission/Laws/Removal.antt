-- ===== src/Permission/Laws/Removal.antt =====
-- What leaving a group removes of the permissions (RemoveAllByGroupCode, lsp/permission).
use ddbot_nexus.Prelude.{
  Bool-cases, is_empty, Text, bytes, has_prefix, elem, ℤ, format_int, ◌≡◌, refl, ap, ◌∙◌, inl, inr,
  true, false, List, [], ◌∷◌, arith,
}
use ddbot_nexus.Buntdb.Interface.{BuntDb, BuntDbLaws, not_found, ok, err, is_ok}
use ddbot_nexus.Buntdb.Key.{family_key, KeyFamily, family_name}
use ddbot_nexus.Buntdb.ShortCut.{inside, exist, remove_by_prefix_and_index}
use ddbot_nexus.Buntdb.ShortCut.Laws.{read}
use ddbot_nexus.Buntdb.ShortCut.Removal.{entries_of, keys_of, read-remove_by_prefix_and_index}
use ddbot_nexus.Permission.{
  RoleType, role_key, permission_key, group_permission_key, group_enabled_key, role_string,
  check_role,
}
use ddbot_nexus.Permission.Require.{remove_all_by_group_code}
use ddbot_nexus.Buntdb.Key.Laws.{has_prefix_number}

abbrev pub permission_indexes : List Text
permission_indexes = group_permission_key [] ∷ permission_key [] ∷ group_enabled_key [] ∷ []

module _ ⦃b : BuntDb⦄ (l : BuntDbLaws b) (t : b.Tx) (entries : List (Text × Text)) where
  read-remove_all :
      (g u : ℤ) (r : RoleType)
      → l.Live t
      → entries_of t permission_indexes ≡ ok entries
      → elem (role_key u r) (keys_of entries) ≡ true
      → has_prefix (format_int u) (format_int g) ≡ true
      → read (remove_all_by_group_code g (inside t)).1 (role_key u r) ≡ err not_found
  unfolding remove_all_by_group_code role_key family_key
  read-remove_all g u r live listed here digits =
      let prefixed =
        has_prefix_number (bytes (family_name KeyFamily.permission)) g u (role_string r) digits in
      read-remove_by_prefix_and_index l t _ permission_indexes entries (role_key u r) live listed
      ∙ ground (arith, prefixed)

  -- In a live transaction whose indexes list a role of a user, removing all of a group takes the
  -- role from the user, a global one too, whenever the digits of the group's number begin the
  -- user's.
  pub remove_all_by_group_code_takes_roles :
      (g u : ℤ) (r : RoleType)
      → l.Live t
      → entries_of t permission_indexes ≡ ok entries
      → elem (role_key u r) (keys_of entries) ≡ true
      → has_prefix (format_int u) (format_int g) ≡ true
      → (check_role u r (remove_all_by_group_code g (inside t)).1).0 ≡ false
  unfolding check_role
  remove_all_by_group_code_takes_roles g u r live listed here digits =
      let gone = read-remove_all g u r live listed here digits in
      elim (Bool-cases (is_empty (role_string r))) [
        | inl h ↦ rw h refl
        | inr h ↦
            rw h (
              unfold remove_all_by_group_code remove_by_prefix_and_index exist read in
              ap is_ok gone)
      ]
