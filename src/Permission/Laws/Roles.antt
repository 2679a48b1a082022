-- ===== src/Permission/Laws/Roles.antt =====
-- Granting and revoking roles (lsp/permission/stateManager.go).
use ddbot_nexus.Prelude.{
  if◌then◌else◌, Bool-cases, is_empty, Text, bytes, ◌==ₜ◌, ==ₜ_refl, ==ₜ_eq, lacks, ℤ, IsInt64, ◌≡◌,
  refl, sym, ap, ◌∙◌, ◌↔◌, ◌⊎◌, inl, inr, true, false, [], arith,
}
use ddbot_nexus.Buntdb.Interface.{
  BuntDb, BuntDbLaws, is_ok, permission_exist, ok, err, Error, Reply, is_rollback, is_not_found,
  replaced, not_found, permission_not_exist,
}
use ddbot_nexus.Buntdb.Key.{family_key, KeyFamily, family_name, parse_concern_state_key_with_string}
use ddbot_nexus.Buntdb.Key.Laws.{parse-text_key, family_name-lacks}
use ddbot_nexus.Buntdb.ShortCut.{Session, no_over_write_reply}
use ddbot_nexus.Buntdb.Options.{no_option, set_no_over_write_opt}
use ddbot_nexus.Buntdb.ShortCut.Laws.{
  IsLive, read, exist-read, read-set, set-IsLive, set_reply, read_error, delete-IsLive,
  delete_reply, read-delete,
}
use ddbot_nexus.Permission.{
  RoleType, role_string, new_role_from_string, role_key, check_role, grant_role, admin, rollback_as,
  not_found_as, ungrant_role,
}

-- The role is one that can be granted.
abbrev pub IsRole : RoleType → Type 0
IsRole r = is_empty (role_string r) ≡ false

role_string-lacks : (r : RoleType) → lacks b':' (role_string r) ≡ true
unfolding role_string
role_string-lacks admin = refl
role_string-lacks _ = refl

new_role_from_string-role_string : (r : RoleType) → new_role_from_string (role_string r) ≡ r
unfolding role_string new_role_from_string ◌==ₜ◌
new_role_from_string-role_string admin = refl
new_role_from_string-role_string _ = refl

-- A role key names one user and one role.
role_key-injective :
    (u u' : ℤ) (r r' : RoleType)
    → IsInt64 u
    → IsInt64 u'
    → role_key u r ≡ role_key u' r'
    → (u ≡ u') × (r ≡ r')
unfolding role_key family_key
role_key-injective u u' r r' hu hu' e =
    let name = bytes (family_name KeyFamily.permission) in
    let named = family_name-lacks KeyFamily.permission in
    let here = parse-text_key name u (role_string r) named (role_string-lacks r) hu in
    let there = parse-text_key name u' (role_string r') named (role_string-lacks r') hu' in
    let same = sym here ∙ ap parse_concern_state_key_with_string e ∙ there in
    (cc same, cc (same, new_role_from_string-role_string r, new_role_from_string-role_string r'))

role_key_iff :
    (u u' : ℤ) (r r' : RoleType)
    → IsInt64 u
    → IsInt64 u'
    → ((role_key u r ==ₜ role_key u' r') ≡ true) ↔ ((u ≡ u') × (r ≡ r'))
role_key_iff u u' r r' hu hu' = (
  λ e. role_key-injective u u' r r' hu hu' (==ₜ_eq _ _ e),
  λ e. rw (e.0, e.1) (==ₜ_refl (role_key u' r')),
)

module _ ⦃b : BuntDb⦄ where
  rollback_as-replaced :
      (e : Error) (r : Reply Text)
      → rollback_as e (no_over_write_reply true (ok (replaced r)))
        ≡ (if is_ok r then err e else ok tt)
  unfolding rollback_as no_over_write_reply is_rollback
  rollback_as-replaced e (ok v) = refl
  rollback_as-replaced e (err e') = refl

not_found_as_missing :
    (e : Error) (r : Reply Text)
    → (is_ok r ≡ false → r ≡ err not_found)
    → not_found_as e r ≡ (if is_ok r then ok tt else err e)
unfolding not_found_as is_not_found
not_found_as_missing e (ok v) h = refl
not_found_as_missing e (err e') h = ap (not_found_as {A = Text} e) (h refl)

module _ ⦃b : BuntDb⦄ (l : BuntDbLaws b) (s : Session) (live : IsLive l s) where
  check_role-read :
      (u : ℤ) (r : RoleType) → IsRole r → (check_role u r s).0 ≡ is_ok (read s (role_key u r))
  unfolding check_role
  check_role-read u r h = rw (h, exist-read l s (role_key u r) live)

  read-grant_role :
      (u : ℤ) (r : RoleType) (j : Text)
      → IsRole r
      → read (grant_role u r s).1 j ≡ (if role_key u r ==ₜ j then ok [] else read s j)
  unfolding grant_role
  read-grant_role u r j h =
      rw (h, read-set l s (role_key u r) j [] (set_no_over_write_opt no_option) live)

  grant_role-IsLive : (u : ℤ) (r : RoleType) → IsLive l (grant_role u r s).1
  unfolding grant_role
  grant_role-IsLive u r = elim (Bool-cases (is_empty (role_string r))) [
    | inl h ↦ rw h live
    | inr h ↦ rw h (set-IsLive l s (role_key u r) [] (set_no_over_write_opt no_option) live)
  ]

  -- A grant is refused exactly when the user has the role.
  pub grant_role_reply :
      (u : ℤ) (r : RoleType)
      → IsRole r
      → (grant_role u r s).0 ≡ (if (check_role u r s).0 then err permission_exist else ok tt)
  unfolding grant_role
  grant_role_reply u r h =
      rw
        (
          h,
          check_role-read u r h,
          set_reply l s (role_key u r) [] (set_no_over_write_opt no_option) live,
        )
        (rollback_as-replaced permission_exist (read s (role_key u r)))

  read-ungrant_role :
      (u : ℤ) (r : RoleType) (j : Text)
      → IsRole r
      → read (ungrant_role u r s).1 j ≡ (if role_key u r ==ₜ j then err not_found else read s j)
  unfolding ungrant_role
  read-ungrant_role u r j h = rw (h, read-delete l s (role_key u r) j no_option live)

  ungrant_role-IsLive : (u : ℤ) (r : RoleType) → IsLive l (ungrant_role u r s).1
  unfolding ungrant_role
  ungrant_role-IsLive u r = elim (Bool-cases (is_empty (role_string r))) [
    | inl h ↦ rw h live
    | inr h ↦ rw h (delete-IsLive l s (role_key u r) no_option live)
  ]

  -- A revocation is refused exactly when the user has not the role.
  pub ungrant_role_reply :
      (u : ℤ) (r : RoleType)
      → IsRole r
      → (ungrant_role u r s).0 ≡ (if (check_role u r s).0 then ok tt else err permission_not_exist)
  unfolding ungrant_role
  ungrant_role_reply u r h =
      rw (h, check_role-read u r h, delete_reply l s (role_key u r) live)
        (not_found_as_missing permission_not_exist (read s (role_key u r))
          (read_error l s (role_key u r) live))

module _ ⦃b : BuntDb⦄ (l : BuntDbLaws b) (s : Session) where
  -- In a live transaction, after a grant a user has a role exactly when it is what was granted, or
  -- the user had it before.
  pub check_role-grant_role :
      (u u' : ℤ) (r r' : RoleType)
      → IsLive l s
      → IsInt64 u
      → IsInt64 u'
      → IsRole r
      → IsRole r'
      → ((check_role u' r' (grant_role u r s).1).0 ≡ true)
        ↔ (((u ≡ u') × (r ≡ r')) ⊎ ((check_role u' r' s).0 ≡ true))
  check_role-grant_role u u' r r' live hu hu' h h' =
      rw
        (
          check_role-read l (grant_role u r s).1 (grant_role-IsLive l s live u r) u' r' h',
          check_role-read l s live u' r' h',
          read-grant_role l s live u r (role_key u' r') h,
        )
        (ground (arith, role_key_iff u u' r r' hu hu'))

  -- In a live transaction, after a revocation a user has a role exactly when the user had it before
  -- and it is not what was revoked.
  pub check_role-ungrant_role :
      (u u' : ℤ) (r r' : RoleType)
      → IsLive l s
      → IsInt64 u
      → IsInt64 u'
      → IsRole r
      → IsRole r'
      → ((check_role u' r' (ungrant_role u r s).1).0 ≡ true)
        ↔ ((¬ ((u ≡ u') × (r ≡ r'))) × ((check_role u' r' s).0 ≡ true))
  check_role-ungrant_role u u' r r' live hu hu' h h' =
      rw
        (
          check_role-read l (ungrant_role u r s).1 (ungrant_role-IsLive l s live u r) u' r' h',
          check_role-read l s live u' r' h',
          read-ungrant_role l s live u r (role_key u' r') h,
        )
        (ground (arith, role_key_iff u u' r r' hu hu'))
