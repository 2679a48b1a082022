-- ===== src/Concern/StateManager/Limit.antt =====
-- The limit of subscriptions of a group (AddGroupConcern, lsp/concern/stateManager.go).
use ddbot_nexus.Prelude.{ℤ, ◌≤◌, ◌<◌, ◌≡◌, ◌∙◌, ◌⊎◌, false, List, [], arith}
use ddbot_nexus.Buntdb.Interface.{BuntDb, BuntDbLaws, max_group_concern_exceed, ok, err}
use ddbot_nexus.Buntdb.ShortCut.{Session, rw_cover}
use ddbot_nexus.Buntdb.ShortCut.Laws.{read, IsLive, rw_cover-live}
use ddbot_nexus.Concern.StateManager.{
  Manager, state_key, Subscription, Filter, list_concern_state, distinct_ids, check_limit,
  add_in_tx, emit_after_add, add_group_concern,
}
use ddbot_nexus.Concern.StateManager.Laws.{held, then_emit-err, add_in_tx-full}
use ddbot_nexus.ConcernType.{ConcernType, contain_all}
use ddbot_nexus.Concern.KeySet.{ConcernId, int_eq}

module _ ⦃b : BuntDb⦄ (l : BuntDbLaws b) (c : Manager) (s : Session) where
  -- The subscriptions of a group.
  abbrev pub of_group : ℤ → Filter
  of_group g = λ g' i p. int_eq g' g

  check_limit-full :
      (g : ℤ) (subs : List Subscription)
      → (list_concern_state c (of_group g) s).0 ≡ ok subs
      → 0 < c.max_group_concern
      → c.max_group_concern ≤ distinct_ids c subs
      → (check_limit c g s).0 ≡ err max_group_concern_exceed
  unfolding check_limit
  check_limit-full g subs listed limited full = ground (arith, listed)

  -- In a live transaction, where a group has a limit and its subscriptions are for as many ids as
  -- that, AddGroupConcern of types that are not all subscribed to fails, changes nothing and calls
  -- no emit queue. This holds for an id to which the group is subscribed already, too.
  pub add_group_concern_full :
      (g : ℤ) (i : ConcernId) (ctype : ConcernType) (subs : List Subscription)
      → IsLive l s
      → contain_all (held (read s (state_key c g i))) ctype ≡ false
      → (list_concern_state c (of_group g) s).0 ≡ ok subs
      → 0 < c.max_group_concern
      → c.max_group_concern ≤ distinct_ids c subs
      → add_group_concern c g i ctype s ≡ (err max_group_concern_exceed, [], s)
  unfolding add_group_concern
  add_group_concern_full g i ctype subs live new listed limited full =
      let failed =
        rw_cover-live l (add_in_tx c g i ctype) s live
        ∙ add_in_tx-full l c s live g i ctype max_group_concern_exceed new
            (check_limit-full g subs listed limited full) in
      then_emit-err c (rw_cover (add_in_tx c g i ctype)) (emit_after_add c i) s failed

  pub room_left :
      (g : ℤ) (subs : List Subscription)
      → (list_concern_state c (of_group g) s).0 ≡ ok subs
      → (c.max_group_concern ≡ 0) ⊎ (distinct_ids c subs < c.max_group_concern)
      → (check_limit c g s).0 ≡ ok tt
  unfolding check_limit
  room_left g subs listed room = ground (arith, listed)
