-- ===== src/Concern/StateManager/Removal.antt =====
-- What RemoveGroupConcern does in a live transaction (lsp/concern/stateManager.go).
use ddbot_nexus.Prelude.{
  if◌then◌else◌, Bool-cases, is_empty, Text, ◌==ₜ◌, ℤ, ◌≡◌, refl, ap, ◌∙◌, inl, inr, true, false,
  [], ◌∷◌,
}
use ddbot_nexus.Buntdb.Interface.{BuntDb, BuntDbLaws, not_found, already_exists, ok, err, Error}
use ddbot_nexus.Buntdb.ShortCut.{Session, Act, rw_cover}
use ddbot_nexus.Buntdb.Options.{no_option}
use ddbot_nexus.Buntdb.ShortCut.Laws.{
  read, get-read, delete_reply, IsLive, rw_cover-live, set-IsLive, set_plain_reply, read-set,
  delete-IsLive, read-delete,
}
use ddbot_nexus.ConcernType.{remove, ConcernType, contain_all}
use ddbot_nexus.Concern.StateManager.{
  Manager, state_key, write_back, remove_concern_type, remove_in_tx, remove_group_concern,
  check_group_concern, emit_after_remove, when_exists,
}
use ddbot_nexus.Concern.StateManager.Laws.{
  held, then_emit-ok, then_emit-err, emit_after_remove-session, check_group_concern-read,
}
use ddbot_nexus.Concern.KeySet.{ConcernId}

module _ ⦃b : BuntDb⦄ (l : BuntDbLaws b) (s : Session) (live : IsLive l s) where
  -- An entry that is there is written back with its new types, or removed.
  record WritesBack (m : Act ConcernType) (key : Text) (t : ConcernType) : Type 0 where
    reply : (m s).0 ≡ ok t
    keeps : IsLive l (m s).1
    entries :
        (j : Text)
        → read (m s).1 j
          ≡ (if key ==ₜ j then (if is_empty t then err not_found else ok t) else read s j)

  write_back-WritesBack :
      (key : Text) (t old : ConcernType) → read s key ≡ ok old → WritesBack (write_back key t) key t
  unfolding write_back
  write_back-WritesBack key t old there = elim (Bool-cases (is_empty t)) [
    | inl gone ↦ record {
      reply = rw (gone, delete_reply l s key live, there) refl;
      keeps = rw (gone, delete_reply l s key live, there) (delete-IsLive l s key no_option live);
      entries =
          λ j. rw (gone, delete_reply l s key live, there) (read-delete l s key j no_option live);
    }
    | inr left ↦ record {
      reply = rw (left, set_plain_reply l s key t live) refl;
      keeps = rw (left, set_plain_reply l s key t live) (set-IsLive l s key t no_option live);
      entries =
          λ j. rw (left, set_plain_reply l s key t live) (read-set l s key j t no_option live);
    }
  ]

  remove_concern_type-eq :
      (key : Text) (ctype old : ConcernType)
      → read s key ≡ ok old
      → contain_all old ctype ≡ true
      → remove_concern_type key ctype s ≡ write_back key (remove old (ctype ∷ [])) s
  unfolding remove_concern_type
  remove_concern_type-eq key ctype old there within =
      rw (rw_cover-live l _ s live, get-read l s key live, there, within) refl

module _ ⦃b : BuntDb⦄ (c : Manager) (s : Session) (g : ℤ) (i : ConcernId)
    (ctype : ConcernType) where
  remove_in_tx-exists :
      {e : Error}
      → check_group_concern c g i ctype s ≡ (err e, s)
      → remove_in_tx c g i ctype s ≡ remove_concern_type (state_key c g i) ctype s
  unfolding remove_in_tx
  remove_in_tx-exists e =
      ap (λ p. when_exists c p.0 (remove_concern_type (state_key c g i) ctype) p.1) e

  remove_in_tx-missing :
      check_group_concern c g i ctype s ≡ (ok tt, s)
      → remove_in_tx c g i ctype s ≡ (err not_found, s)
  unfolding remove_in_tx
  remove_in_tx-missing e =
      ap (λ p. when_exists c p.0 (remove_concern_type (state_key c g i) ctype) p.1) e

module _ ⦃b : BuntDb⦄ (l : BuntDbLaws b) (c : Manager) (s : Session) where
  -- In a live transaction, RemoveGroupConcern of types that the subscription holds returns what is
  -- left of them; the entry of the subscription holds that afterwards, or is gone if it is nothing,
  -- and every other entry of the database is as it was.
  pub remove_group_concern_succeeds :
      (g : ℤ) (i : ConcernId) (ctype old : ConcernType)
      → IsLive l s
      → read s (state_key c g i) ≡ ok old
      → contain_all old ctype ≡ true
      → ((remove_group_concern c g i ctype s).0 ≡ ok (remove old (ctype ∷ [])))
        × ((j : Text)
            → read (remove_group_concern c g i ctype s).2 j ≡ (
                if state_key c g i ==ₜ j
                then (if is_empty (remove old (ctype ∷ []))
                    then err not_found
                    else ok (remove old (ctype ∷ [])))
                else read s j))
  unfolding remove_group_concern held
  remove_group_concern_succeeds g i ctype old live there within =
      let key = state_key c g i in
      let t = remove old (ctype ∷ []) in
      let w = write_back-WritesBack l s live key t old there in
      let held_all : contain_all (held (read s key)) ctype ≡ true = rw (there, held) within in
      let checked : check_group_concern c g i ctype s ≡ (err already_exists, s) =
        check_group_concern-read l c s live g i ctype
        ∙ ap (λ x. (if x then err already_exists else ok tt, s)) held_all in
      let inner : remove_in_tx c g i ctype s ≡ write_back key t s =
        remove_in_tx-exists c s g i ctype checked
        ∙ remove_concern_type-eq l s live key ctype old there within in
      let done : rw_cover (remove_in_tx c g i ctype) s ≡ (ok t, (write_back key t s).1) =
        rw_cover-live l (remove_in_tx c g i ctype) s live ∙ inner ∙ λ k.
        (w.reply k, (write_back key t s).1) in
      rw (then_emit-ok c (rw_cover (remove_in_tx c g i ctype)) (emit_after_remove c i) s done) (
        refl,
        λ j. rw (emit_after_remove-session l c (write_back key t s).1 w.keeps i) (w.entries j),
      )

  -- In a live transaction, RemoveGroupConcern of types that the group has not all subscribed to
  -- fails as not found, changes nothing and calls no emit queue.
  pub remove_group_concern_missing :
      (g : ℤ) (i : ConcernId) (ctype : ConcernType)
      → IsLive l s
      → contain_all (held (read s (state_key c g i))) ctype ≡ false
      → remove_group_concern c g i ctype s ≡ (err not_found, [], s)
  unfolding remove_group_concern
  remove_group_concern_missing g i ctype live new =
      let checked : check_group_concern c g i ctype s ≡ (ok tt, s) =
        check_group_concern-read l c s live g i ctype
        ∙ ap (λ x. (if x then err already_exists else ok tt, s)) new in
      let failed : rw_cover (remove_in_tx c g i ctype) s ≡ (err not_found, s) =
        rw_cover-live l (remove_in_tx c g i ctype) s live
        ∙ remove_in_tx-missing c s g i ctype checked in
      then_emit-err c (rw_cover (remove_in_tx c g i ctype)) (emit_after_remove c i) s failed
