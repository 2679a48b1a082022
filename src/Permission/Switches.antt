-- ===== src/Permission/Switches.antt =====
-- lsp/permission: which commands a group may use, and silence.
use ddbot_nexus.Prelude.{if◌then◌else◌, Text, ◌==ₜ◌, ℤ, Bool, true, false, ◌&&◌, [], ◌∷◌}
use ddbot_nexus.Buntdb.Interface.{
  BuntDb, Error, Reply, is_not_found, permission_exist, global_disabled, global_silenced, ok, err,
}
use ddbot_nexus.Buntdb.Key.{int_part, text_part}
use ddbot_nexus.Buntdb.ShortCut.{Act, or_false, r_cover, set, get, delete, exist, ◌>>=◌}
use ddbot_nexus.Buntdb.Options.{no_option, ignore_not_found_opt}
use ddbot_nexus.Permission.{
  enable, disable, group_enabled_key, global_enabled_key, group_silence_key, global_silence_key,
  drop_value, Query,
}

-- The status of a switch, as the callback of a check sees it.
unfoldable pub judge : (Text → Bool → Bool) → Reply Text → Reply Bool
judge f (ok v) = ok (f v true)
judge f (err e) = if is_not_found e then ok (f [] false) else err e

unfoldable pub status_exist : Text × Bool → Text → Reply (Unit {0})
status_exist (prev, overwritten) status =
    if overwritten && prev ==ₜ status then err permission_exist else ok tt

module _ ⦃b : BuntDb⦄ where
  unfoldable pub operator_enable_key : Text → Text → Act (Unit {0})
  operator_enable_key key status = do
    outcome ← set key status no_option
    λ s. (status_exist outcome status, s)

  -- The body that CheckGroupCommandFunc and CheckGlobalCommandFunc share.
  unfoldable pub check_command_func : Text → (Text → Bool → Bool) → Query
  check_command_func key f s =
      let (r, s') = r_cover (λ s₁. let (v, s₂) = get key no_option s₁ in (judge f v, s₂)) s in
      (or_false r, s')

  unfoldable pub check_group_command_func : ℤ → Text → (Text → Bool → Bool) → Query
  check_group_command_func group command =
      check_command_func (group_enabled_key (int_part group ∷ text_part command ∷ []))

  unfoldable pub check_global_command_func : Text → (Text → Bool → Bool) → Query
  check_global_command_func command =
      check_command_func (global_enabled_key (text_part command ∷ []))

  abbrev pub exists_as : Text → Text → Bool → Bool
  exists_as status val exists = exists && val ==ₜ status

  unfoldable pub check_global_command_disabled : Text → Query
  check_global_command_disabled command = check_global_command_func command (exists_as disable)

  -- A query as an action, in a read-only transaction; an error is answered by false.
  unfoldable pub in_r_cover : Query → Query
  in_r_cover q s =
      let (r, s') = r_cover (λ s₁. let (x, s₂) = q s₁ in (ok x, s₂)) s in (or_false r, s')

  unfoldable pub check_group_command_enabled : ℤ → Text → Query
  check_group_command_enabled group command = in_r_cover λ s.
      let (off, s') = check_global_command_disabled command s in
      if off then (false, s') else check_group_command_func group command (exists_as enable) s'

  unfoldable pub check_group_command_disabled : ℤ → Text → Query
  check_group_command_disabled group command = in_r_cover λ s.
      let (off, s') = check_global_command_disabled command s in
      if off then (true, s') else check_group_command_func group command (exists_as disable) s'

  -- The guard that several methods begin with.
  unfoldable pub unless : Query → Error → Act (Unit {0}) → Act (Unit {0})
  unless q e m s = let (x, s') = q s in if x then (err e, s') else m s'

  unfoldable pub enable_group_command : ℤ → Text → Act (Unit {0})
  enable_group_command group command =
      unless (check_global_command_disabled command) global_disabled
        (operator_enable_key (group_enabled_key (int_part group ∷ text_part command ∷ [])) enable)

  unfoldable pub disable_group_command : ℤ → Text → Act (Unit {0})
  disable_group_command group command =
      unless (check_global_command_disabled command) global_disabled
        (operator_enable_key (group_enabled_key (int_part group ∷ text_part command ∷ [])) disable)

  unfoldable pub global_enable_group_command : Text → Act (Unit {0})
  global_enable_group_command command =
      operator_enable_key (global_enabled_key (text_part command ∷ [])) enable

  unfoldable pub global_disable_group_command : Text → Act (Unit {0})
  global_disable_group_command command =
      operator_enable_key (global_enabled_key (text_part command ∷ [])) disable

  unfoldable pub check_global_silence : Query
  check_global_silence = exist (global_silence_key []) no_option

  unfoldable pub global_silence : Act (Unit {0})
  global_silence s = let (r, s') = set (global_silence_key []) [] no_option s in (drop_value r, s')

  unfoldable pub undo_global_silence : Act (Unit {0})
  undo_global_silence s =
      let (r, s') = delete (global_silence_key []) (ignore_not_found_opt no_option) s in
      (drop_value r, s')

  unfoldable pub check_group_silence : ℤ → Query
  check_group_silence group s =
      let (silenced, s') = check_global_silence s in
      if silenced then (true, s') else exist (group_silence_key (int_part group ∷ [])) no_option s'

  unfoldable pub group_silence : ℤ → Act (Unit {0})
  group_silence group = unless check_global_silence global_silenced λ s.
      let (r, s') = set (group_silence_key (int_part group ∷ [])) [] no_option s in
      (drop_value r, s')

  unfoldable pub undo_group_silence : ℤ → Act (Unit {0})
  undo_group_silence group = unless check_global_silence global_silenced λ s.
      let (r, s') =
        delete (group_silence_key (int_part group ∷ [])) (ignore_not_found_opt no_option) s in
      (drop_value r, s')
