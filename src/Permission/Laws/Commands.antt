-- ===== src/Permission/Laws/Commands.antt =====
-- Switching commands on and off, and silence (lsp/permission/stateManager.go).
use ddbot_nexus.Prelude.{
  if◌then◌else◌, Bool-cases, Text, ◌==ₜ◌, ==ₜ_refl, ==ₜ_eq, ℤ, ◌≡◌, refl, sym, ap, ◌∙◌, inl, inr,
  Bool, true, false, ◌&&◌, ◌||◌, not, [], ◌∷◌, arith,
}
use ddbot_nexus.Buntdb.Interface.{
  BuntDb, BuntDbLaws, Reply, ok, err, is_not_found, not_found, permission_exist, replaced,
  global_disabled,
}
use ddbot_nexus.Buntdb.Key.{int_part, text_part, KeyFamily}
use ddbot_nexus.Buntdb.Key.Laws.{family_key-injective}
use ddbot_nexus.Buntdb.ShortCut.{Session, or_false, set}
use ddbot_nexus.Buntdb.Options.{no_option}
use ddbot_nexus.Buntdb.ShortCut.Laws.{
  r_cover-live, IsLive, read, get-read, set-IsLive, set_plain_reply, read-set,
}
use ddbot_nexus.Permission.{enable, disable, group_enabled_key, global_enabled_key, Query}
use ddbot_nexus.Permission.Switches.{
  check_command_func, check_global_command_func, exists_as, check_global_command_disabled,
  check_group_command_enabled, judge, status_exist, operator_enable_key, check_group_command_func,
  in_r_cover, check_group_command_disabled, unless, enable_group_command, disable_group_command,
}

abbrev group_key : ℤ → Text → Text
group_key group command = group_enabled_key (int_part group ∷ text_part command ∷ [])

abbrev global_key : Text → Text
global_key command = global_enabled_key (text_part command ∷ [])

-- Is the entry there, with the value?
abbrev holds : Reply Text → Text → Bool
holds (ok v) status = v ==ₜ status
holds (err e) status = false

or_false-judge :
    ⦃b : BuntDb⦄ (status : Text) (r : Reply Text)
    → or_false (judge (exists_as status) r) ≡ holds r status
unfolding or_false judge is_not_found
or_false-judge status (ok v) = refl
or_false-judge status (err not_found) = refl
or_false-judge status (err _) = refl

status_exist-replaced :
    (status : Text) (r : Reply Text)
    → status_exist (replaced r) status ≡ (if holds r status then err permission_exist else ok tt)
unfolding status_exist
status_exist-replaced status (ok v) = refl
status_exist-replaced status (err e) = refl

module _ ⦃b : BuntDb⦄ (l : BuntDbLaws b) (s : Session) (live : IsLive l s) where
  check_command_func-read :
      (key status : Text)
      → check_command_func key (exists_as status) s ≡ (holds (read s key) status, s)
  unfolding check_command_func
  check_command_func-read key status =
      rw (r_cover-live l _ s live, get-read l s key live)
        (ap (λ x. (x, s)) (or_false-judge status (read s key)))

  global_disabled-read :
      (command : Text)
      → check_global_command_disabled command s ≡ (holds (read s (global_key command)) disable, s)
  unfolding check_global_command_disabled check_global_command_func
  global_disabled-read command = check_command_func-read (global_key command) disable

  group_switch-read :
      (g : ℤ) (command status : Text)
      → check_group_command_func g command (exists_as status) s
        ≡ (holds (read s (group_key g command)) status, s)
  unfolding check_group_command_func
  group_switch-read g command status = check_command_func-read (group_key g command) status

  in_r_cover-live : (q : Query) → in_r_cover q s ≡ q s
  unfolding in_r_cover or_false
  in_r_cover-live q = rw (r_cover-live l _ s live)

  enabled-read :
      (g : ℤ) (command : Text)
      → check_group_command_enabled g command s ≡ (
        not (holds (read s (global_key command)) disable)
            && holds (read s (group_key g command)) enable,
        s,
      )
  unfolding check_group_command_enabled
  enabled-read g command =
      rw (in_r_cover-live, global_disabled-read command, group_switch-read g command enable)
        (ground arith)

  disabled-read :
      (g : ℤ) (command : Text)
      → check_group_command_disabled g command s ≡ (
        holds (read s (global_key command)) disable || holds (read s (group_key g command)) disable,
        s,
      )
  unfolding check_group_command_disabled
  disabled-read g command =
      rw (in_r_cover-live, global_disabled-read command, group_switch-read g command disable)
        (ground arith)

  operator_reply :
      (key status : Text)
      → (operator_enable_key key status s).0
        ≡ (if holds (read s key) status then err permission_exist else ok tt)
  unfolding operator_enable_key
  operator_reply key status =
      rw (set_plain_reply l s key status live) (status_exist-replaced status (read s key))

  operator_session :
      (key status : Text) → (operator_enable_key key status s).1 ≡ (set key status no_option s).1
  unfolding operator_enable_key
  operator_session key status = rw (set_plain_reply l s key status live)

  -- After a switch of a group's command, what a key of the database holds.
  read-operator :
      (key status j : Text)
      → read (operator_enable_key key status s).1 j ≡ (if key ==ₜ j then ok status else read s j)
  read-operator key status j =
      rw (operator_session key status) (read-set l s key j status no_option live)

  operator-IsLive : (key status : Text) → IsLive l (operator_enable_key key status s).1
  operator-IsLive key status =
      rw (operator_session key status) (set-IsLive l s key status no_option live)

  -- While a command is globally disabled, no group can switch it: both methods fail and change
  -- nothing, and in every group the command is disabled and not enabled.
  pub globally_disabled :
      (g : ℤ) (command : Text)
      → (check_global_command_disabled command s).0 ≡ true
      → (enable_group_command g command s ≡ (err global_disabled, s))
        × (disable_group_command g command s ≡ (err global_disabled, s))
        × ((check_group_command_enabled g command s).0 ≡ false)
        × ((check_group_command_disabled g command s).0 ≡ true)
  unfolding enable_group_command disable_group_command unless
  globally_disabled g command h =
      let off = sym (ap (λ x. x.0) (global_disabled-read command)) ∙ h in
      (
        rw (global_disabled-read command, off) refl,
        rw (global_disabled-read command, off) refl,
        rw (enabled-read g command, off) refl,
        rw (disabled-read g command, off) refl,
      )

global_key-ne : (g : ℤ) (c c' : Text) → (group_key g c ==ₜ global_key c') ≡ false
global_key-ne g c c' = elim (Bool-cases (group_key g c ==ₜ global_key c')) [
  | inl e ↦ cc (
      family_key-injective KeyFamily.group_enabled KeyFamily.global_enabled
        (int_part g ∷ text_part c ∷ []) (text_part c' ∷ []) (==ₜ_eq _ _ e))
  | inr e ↦ e
]

module _ ⦃b : BuntDb⦄ (l : BuntDbLaws b) (s : Session) (live : IsLive l s) (g : ℤ) (c : Text) where
  -- What the checks answer after the group's switch is written, and the command is not globally
  -- disabled.
  record Answers (s' : Session) (status : Text) : Type 0 where
    enabled : (check_group_command_enabled g c s').0 ≡ (status ==ₜ enable)
    disabled_here : (check_group_command_disabled g c s').0 ≡ (status ==ₜ disable)
    globally :
        (c' : Text)
        → (check_global_command_disabled c' s').0 ≡ (check_global_command_disabled c' s).0

  operator-Answers :
      (status : Text)
      → (check_global_command_disabled c s).0 ≡ false
      → Answers (operator_enable_key (group_key g c) status s).1 status
  operator-Answers status h =
      let s' = (operator_enable_key (group_key g c) status s).1 in
      let live' = operator-IsLive l s live (group_key g c) status in
      let here : read s' (group_key g c) ≡ ok status =
        rw (read-operator l s live (group_key g c) status (group_key g c), ==ₜ_refl (group_key g c))
          refl in
      let there = λ (c' : Text).
        read-operator l s live (group_key g c) status (global_key c')
        ∙ ap (λ x. if x then ok status else read s (global_key c')) (global_key-ne g c c') in
      let off = sym (ap (λ x. x.0) (global_disabled-read l s live c)) ∙ h in
      record {
        enabled = rw (enabled-read l s' live' g c, there c, off, here);
        disabled_here = rw (disabled-read l s' live' g c, there c, off, here);
        globally = λ c'.
            rw (global_disabled-read l s' live' c', global_disabled-read l s live c', there c');
      }

module _ ⦃b : BuntDb⦄ (l : BuntDbLaws b) (s : Session) where
  -- In a live transaction, a group's switch of a command that is not globally disabled takes effect
  -- at once: enabling it makes it enabled and not disabled, disabling it the converse, and what is
  -- disabled globally stays as it was.
  pub switch_takes_effect :
      (g : ℤ) (c c' : Text)
      → IsLive l s
      → (check_global_command_disabled c s).0 ≡ false
      → ((check_group_command_enabled g c (enable_group_command g c s).1).0 ≡ true)
        × ((check_group_command_disabled g c (enable_group_command g c s).1).0 ≡ false)
        × ((check_group_command_enabled g c (disable_group_command g c s).1).0 ≡ false)
        × ((check_group_command_disabled g c (disable_group_command g c s).1).0 ≡ true)
        × ((check_global_command_disabled c' (enable_group_command g c s).1).0
            ≡ (check_global_command_disabled c' s).0)
        × ((check_global_command_disabled c' (disable_group_command g c s).1).0
            ≡ (check_global_command_disabled c' s).0)
  unfolding enable_group_command disable_group_command unless ◌==ₜ◌
  switch_takes_effect g c c' live h =
      let off = sym (ap (λ x. x.0) (global_disabled-read l s live c)) ∙ h in
      let on = operator-Answers l s live g c enable h in
      let out = operator-Answers l s live g c disable h in
      rw (global_disabled-read l s live c, off)
        (
          on.enabled,
          on.disabled_here,
          out.enabled,
          out.disabled_here,
          on.globally c',
          out.globally c',
        )
