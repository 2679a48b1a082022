-- ===== src/Notify/Mentions.antt =====
-- Whom a notification mentions (lsp/notify.go, handleConcernNotify): all members at most once while
-- the mark stands, and only where the bot is an administrator and the group wants it.
use ddbot_nexus.Prelude.{
  Bool-cases, Text, ==ₜ_refl, ℤ, pos, ◌≡◌, refl, ap, ◌∙◌, inl, inr, Bool, true, false, ◌&&◌, [],
  ◌∷◌, map,
}
use ddbot_nexus.Notify.{ConcernNotify, Surroundings, NotifyState, at_all_wanted, with_mentions}
use ddbot_nexus.Mmsg.{Msg, new_at_ids_msg}
use ddbot_nexus.Permission.Require.{check_group_administrator}
use ddbot_nexus.Concern.KeySet.{ConcernId, id_part, group_at_all_mark_key}
use ddbot_nexus.Concern.StateManager
use ddbot_nexus.Concern.StateManager.{check_and_set_at_all_mark, Manager}
use ddbot_nexus.Concern.Config.{check_at_all, get_at_someone_list}
use ddbot_nexus.Groupux.Manager.{Moment}
use ddbot_nexus.Groupux.Types.{GroupUxPolicy}
use ddbot_nexus.Buntdb.Interface.{Reply, is_ok, BuntDb, replaced, BuntDbLaws, ok, err}
use ddbot_nexus.Buntdb.ShortCut.{Session, no_over_write_reply, set}
use ddbot_nexus.Buntdb.ShortCut.Laws.{IsLive, read, set-IsLive, set_reply, read-set}
use ddbot_nexus.Buntdb.Key.{int_part}
use ddbot_nexus.Buntdb.Options.{no_option, set_expire_opt, set_no_over_write_opt}

module _ ⦃b : BuntDb⦄ where
  guarded :
      (r : Reply Text) {v : Text}
      → r ≡ ok v
      → is_ok (no_over_write_reply true (ok (replaced r))) ≡ false
  unfolding no_over_write_reply
  guarded (ok v) h = refl
  guarded (err e) h = cc h

module _ ⦃b : BuntDb⦄ (l : BuntDbLaws b) where
  -- The mark is set at most once while it stands.
  check_and_set_twice :
      (c : StateManager.Manager) (group : ℤ) (i : ConcernId) (s : Session)
      → IsLive l s
      → (check_and_set_at_all_mark c group i (check_and_set_at_all_mark c group i s).1).0 ≡ false
  unfolding check_and_set_at_all_mark
  check_and_set_twice c group i s live =
      let key = group_at_all_mark_key c.keys (int_part group ∷ id_part i ∷ []) in
      let o = set_no_over_write_opt (set_expire_opt (pos 7200000000000) no_option) in
      let s' = (set key [] o s).1 in
      ap is_ok (set_reply l s' key [] o (set-IsLive l s key [] o live))
      ∙ guarded (read s' key) {v = []} (read-set l s key key [] o live ∙ rw (==ₜ_refl key))

module _ ⦃b : BuntDb⦄ {C P : Type 0} (w : Surroundings C P) where
  -- Once a notification may mention all members, a later one of the same group and subject may not
  -- while the mark stands.
  pub at_all_wanted_once :
      (l : BuntDbLaws b) (origin n : ConcernNotify C P) (s : Session)
      → IsLive l s
      → (at_all_wanted w origin n s).0 ≡ true
      → (at_all_wanted w origin n (at_all_wanted w origin n s).1).0 ≡ false
  unfolding at_all_wanted
  at_all_wanted_once l origin n s live h =
      let config = w.at_config origin.site origin.group_code origin.uid in
      elim (Bool-cases (
        check_group_administrator w.members n.group_code w.uin
        && check_at_all config n.hook.ctype)) [
          | inl e ↦
              rw e (check_and_set_twice l (w.state_manager origin.site) n.group_code n.uid s live)
          | inr e ↦ cc (let h' : false ≡ true = rw e at h in h')
        ]

  abbrev may_mention_all : ConcernNotify C P → ConcernNotify C P → Bool
  may_mention_all origin n =
      check_group_administrator w.members n.group_code w.uin
      && check_at_all (w.at_config origin.site origin.group_code origin.uid) n.hook.ctype

  -- Where the bot is no administrator of the group, or the group does not want all its members
  -- mentioned for the type, a notification that may mention at all gets the mentions of single members
  -- that are configured and no other change, and no cooldown starts.
  pub with_mentions_single :
      (origin n : ConcernNotify C P) (p : GroupUxPolicy) (now : Moment) (m : Msg C P)
      (st : NotifyState)
      → may_mention_all origin n ≡ false
      → (w.at_before origin.site n.hook).pass ≡ true
      → ((with_mentions w origin n p now m st).0
          ≡ new_at_ids_msg
              (map w.mention (
                get_at_someone_list
                  (w.at_config origin.site origin.group_code origin.uid)
                  n.hook.ctype))
              m)
        × ((with_mentions w origin n p now m st).1 ≡ st)
  unfolding with_mentions at_all_wanted
  with_mentions_single origin n p now m st h pass = rw (pass, h) (refl, refl)
