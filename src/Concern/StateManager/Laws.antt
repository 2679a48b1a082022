-- ===== src/Concern/StateManager/Laws.antt =====
-- What adding and removing subscriptions does in a live transaction (lsp/concern/stateManager.go).
use ddbot_nexus.Prelude.{
  if◌then◌else◌, Text, ◌==ₜ◌, ℤ, ◌≡◌, refl, ap, ◌∙◌, true, false, List, [], ◌∷◌, arith,
}
use ddbot_nexus.Buntdb.Interface.{BuntDb, BuntDbLaws, Reply, already_exists, ok, err, Error}
use ddbot_nexus.Buntdb.ShortCut.{Session, set, continue, pure, Act, rw_cover}
use ddbot_nexus.Buntdb.Options.{no_option}
use ddbot_nexus.Buntdb.ShortCut.Laws.{
  read, get-read, IsLive, rw_cover-live, get_ignoring-read, or_empty, r_cover_tx-session,
  set_plain_reply, set-IsLive, read-set,
}
use ddbot_nexus.ConcernType.{add, ConcernType, empty_type, contain_all}
use ddbot_nexus.Concern.StateManager.{
  Manager, state_key, check_group_concern, upsert_concern_type, Filter, list_concern_state,
  get_concern, check_limit, emit_after_add, add_in_tx, emit_after_remove, add_group_concern,
  EmitCall, then_emit, after_emit,
}
use ddbot_nexus.Concern.KeySet.{ConcernId, int_eq}

-- The types that an entry holds, none if it is absent.
unfoldable pub held : Reply Text → ConcernType
held (ok t) = t
held (err e) = empty_type

or_empty-held : (r : Reply Text) → or_empty r ≡ ok (held r)
unfolding or_empty held
or_empty-held (ok v) = refl
or_empty-held (err e) = refl

pair_path : {A B : Type 0} {p : A × B} {x : A} {y : B} → p.0 ≡ x → p.1 ≡ y → p ≡ (x, y)
pair_path e f = λ i. (e i, f i)

pub then_emit-ok :
    ⦃b : BuntDb⦄ (c : Manager) (m : Act ConcernType) (emit : Session → List EmitCall × Session)
    (s : Session) {t : ConcernType} {s' : Session}
    → m s ≡ (ok t, s')
    → then_emit c m emit s ≡ (ok t, (emit s').0, (emit s').1)
unfolding then_emit
then_emit-ok c m emit s e = ap (λ p. after_emit c p.0 emit p.1) e

pub then_emit-err :
    ⦃b : BuntDb⦄ (c : Manager) (m : Act ConcernType) (emit : Session → List EmitCall × Session)
    (s : Session) {e : Error} {s' : Session}
    → m s ≡ (err e, s')
    → then_emit c m emit s ≡ (err e, [], s')
unfolding then_emit
then_emit-err c m emit s e = ap (λ p. after_emit c p.0 emit p.1) e

continue-session :
    ⦃b : BuntDb⦄ {A B : Type 0} (r : Reply A) (f : A → Act B) (s : Session)
    → ((a : A) (s' : Session) → (f a s').1 ≡ s')
    → (continue r f s).1 ≡ s
continue-session (ok a) f s h = h a s
continue-session (err e) f s h = refl

module _ ⦃b : BuntDb⦄ (l : BuntDbLaws b) (c : Manager) (s : Session) (live : IsLive l s) where
  pub check_group_concern-read :
      (g : ℤ) (i : ConcernId) (ctype : ConcernType)
      → check_group_concern c g i ctype s ≡ (
        if contain_all (held (read s (state_key c g i))) ctype then err already_exists else ok tt,
        s,
      )
  unfolding check_group_concern held
  check_group_concern-read g i ctype = rw (get-read l s (state_key c g i) live)

  upsert-read :
      (key : Text) (ctype : ConcernType)
      → upsert_concern_type key ctype s ≡ (
        ok (add (held (read s key)) (ctype ∷ [])),
        (set key (add (held (read s key)) (ctype ∷ [])) no_option s).1,
      )
  unfolding upsert_concern_type
  upsert-read key ctype =
      rw (rw_cover-live l _ s live, get_ignoring-read l s key live, or_empty-held (read s key))
        (ap
          (λ r.
            continue r (λ _. pure (add (held (read s key)) (ctype ∷ [])))
              (set key (add (held (read s key)) (ctype ∷ [])) no_option s).1)
          (set_plain_reply l s key (add (held (read s key)) (ctype ∷ [])) live))

  list-session : (f : Filter) → (list_concern_state c f s).1 ≡ s
  unfolding list_concern_state
  list-session f = r_cover_tx-session l _ s live (λ t. refl)

  get_concern-session : (i : ConcernId) → (get_concern c i s).1 ≡ s
  unfolding get_concern
  get_concern-session i = continue-session _ _ _ (λ a s'. refl) ∙ list-session _

  emit_after_add-session : (i : ConcernId) → (emit_after_add c i s).1 ≡ s
  unfolding emit_after_add
  emit_after_add-session i = ground (arith, get_concern-session i)

  pub emit_after_remove-session : (i : ConcernId) → (emit_after_remove c i s).1 ≡ s
  unfolding emit_after_remove
  emit_after_remove-session i = ground (arith, get_concern-session i)

  check_limit-session : (g : ℤ) → (check_limit c g s).1 ≡ s
  unfolding check_limit
  check_limit-session g = ground (arith, list-session (λ g' i p. int_eq g' g))

  -- What the transaction of AddGroupConcern returns and leaves.
  add_in_tx-read :
      (g : ℤ) (i : ConcernId) (ctype : ConcernType)
      → contain_all (held (read s (state_key c g i))) ctype ≡ false
      → (check_limit c g s).0 ≡ ok tt
      → add_in_tx c g i ctype s ≡ upsert_concern_type (state_key c g i) ctype s
  unfolding add_in_tx
  add_in_tx-read g i ctype new room =
      let limit : check_limit c g s ≡ (ok tt, s) = pair_path room (check_limit-session g) in
      rw (check_group_concern-read g i ctype, new, limit) refl

  add_in_tx-exists :
      (g : ℤ) (i : ConcernId) (ctype : ConcernType)
      → contain_all (held (read s (state_key c g i))) ctype ≡ true
      → add_in_tx c g i ctype s ≡ (err already_exists, s)
  unfolding add_in_tx
  add_in_tx-exists g i ctype old = rw (check_group_concern-read g i ctype, old) refl

  pub add_in_tx-full :
      (g : ℤ) (i : ConcernId) (ctype : ConcernType) (e : Error)
      → contain_all (held (read s (state_key c g i))) ctype ≡ false
      → (check_limit c g s).0 ≡ err e
      → add_in_tx c g i ctype s ≡ (err e, s)
  unfolding add_in_tx
  add_in_tx-full g i ctype e new full =
      let limit : check_limit c g s ≡ (err e, s) = pair_path full (check_limit-session g) in
      rw (check_group_concern-read g i ctype, new, limit) refl

module _ ⦃b : BuntDb⦄ (l : BuntDbLaws b) (c : Manager) (s : Session) where
  -- In a live transaction, AddGroupConcern of types that the group has not all subscribed to, with
  -- room left, returns the union of the old types and the new; the subscription holds it
  -- afterwards, and every other entry of the database is as it was.
  pub add_group_concern_succeeds :
      (g : ℤ) (i : ConcernId) (ctype : ConcernType)
      → IsLive l s
      → contain_all (held (read s (state_key c g i))) ctype ≡ false
      → (check_limit c g s).0 ≡ ok tt
      → ((add_group_concern c g i ctype s).0
          ≡ ok (add (held (read s (state_key c g i))) (ctype ∷ [])))
        × ((j : Text)
            → read (add_group_concern c g i ctype s).2 j ≡ (
                if state_key c g i ==ₜ j
                then ok (add (held (read s (state_key c g i))) (ctype ∷ []))
                else read s j))
  unfolding add_group_concern
  add_group_concern_succeeds g i ctype live new room =
      let key = state_key c g i in
      let t = add (held (read s key)) (ctype ∷ []) in
      let s' = (set key t no_option s).1 in
      let done : rw_cover (add_in_tx c g i ctype) s ≡ (ok t, s') =
        rw_cover-live l (add_in_tx c g i ctype) s live
        ∙ add_in_tx-read l c s live g i ctype new room
        ∙ upsert-read l c s live key ctype in
      let after = emit_after_add-session l c s' (set-IsLive l s key t no_option live) i in
      rw (then_emit-ok c (rw_cover (add_in_tx c g i ctype)) (emit_after_add c i) s done)
        (refl, λ j. rw after (read-set l s key j t no_option live))

  -- In a live transaction, AddGroupConcern fails and changes nothing, and calls no emit queue, where
  -- the group has subscribed to all the types.
  pub add_group_concern_exists :
      (g : ℤ) (i : ConcernId) (ctype : ConcernType)
      → IsLive l s
      → contain_all (held (read s (state_key c g i))) ctype ≡ true
      → add_group_concern c g i ctype s ≡ (err already_exists, [], s)
  unfolding add_group_concern
  add_group_concern_exists g i ctype live old =
      let failed =
        rw_cover-live l (add_in_tx c g i ctype) s live
        ∙ add_in_tx-exists l c s live g i ctype old in
      then_emit-err c (rw_cover (add_in_tx c g i ctype)) (emit_after_add c i) s failed
