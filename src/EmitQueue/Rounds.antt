-- ===== src/EmitQueue/Rounds.antt =====
-- The queue emits its elements in turn (utils/emitQueue.go).
use ddbot_nexus.Prelude.{length, ℕ, suc, ◌≡◌, refl, sym, ap, ◌∙◌, List, [], ◌∷◌, ◌++◌}
use ddbot_nexus.EmitQueue.{EmitE, EmitQueue, core_step, core_steps, pick, elements}

abbrev steps_result : List EmitE → List EmitE → List EmitE × EmitQueue
steps_result emitted q = (emitted, record { before = q; after = [] })

append_one :
    (xs : List EmitE) (y : EmitE) (ys : List EmitE) → (xs ++ (y ∷ [])) ++ ys ≡ xs ++ (y ∷ ys)
append_one [] y ys = refl
append_one (x ∷ xs) y ys = ap (λ l. x ∷ l) (append_one xs y ys)

append_nil : (xs : List EmitE) → xs ++ [] ≡ xs
append_nil [] = refl
append_nil (x ∷ xs) = ap (λ l. x ∷ l) (append_nil xs)

-- The front comes next where the cursor is nil.
core_step_front :
    (before : List EmitE)
    → core_step (record { before = before; after = [] })
      ≡ core_step (record { before = []; after = before })
unfolding core_step pick
core_step_front [] = refl
core_step_front (h ∷ before) = refl

core_steps_next :
    (n : ℕ) (before after : List EmitE) (h : EmitE)
    → core_steps (suc n) (record { before = before; after = h ∷ after }) ≡ (
      h ∷ (core_steps n (record { before = before ++ (h ∷ []); after = after })).0,
      (core_steps n (record { before = before ++ (h ∷ []); after = after })).1,
    )
unfolding core_steps core_step pick
core_steps_next n before after h = refl

-- From its cursor on, the queue emits what is left of the list.
core_steps_rest :
    (before after : List EmitE)
    → core_steps (length after) (record { before = before; after = after })
      ≡ steps_result after (before ++ after)
unfolding core_steps
core_steps_rest before [] = ap (steps_result []) (sym (append_nil before))
core_steps_rest before (h ∷ after) =
    let ih = core_steps_rest (before ++ (h ∷ [])) after in
    core_steps_next (length after) before after h
    ∙ ap (λ r. (h ∷ r.0, r.1)) ih
    ∙ ap (steps_result (h ∷ after)) (append_one before h after)

core_steps_front :
    (n : ℕ) (before : List EmitE)
    → core_steps (suc n) (record { before = before; after = [] })
      ≡ core_steps (suc n) (record { before = []; after = before })
unfolding core_steps core_step pick
core_steps_front n [] = refl
core_steps_front n (h ∷ before) = refl

-- Once its cursor is nil, the queue emits all its elements in order, each once, in as many rounds of
-- the loop as it has elements, and its cursor is nil again: so no element waits for more than that.
pub core_steps_round :
    (es : List EmitE)
    → core_steps (length es) (record { before = es; after = [] })
      ≡ (es, record { before = es; after = [] })
core_steps_round [] = core_steps_rest [] []
core_steps_round (h ∷ es) = core_steps_front (length es) (h ∷ es) ∙ core_steps_rest [] (h ∷ es)

-- From wherever its cursor is, the queue emits each element from there on, in order, and its cursor
-- is nil then.
pub core_steps_to_end :
    (q : EmitQueue)
    → core_steps (length q.after) q ≡ (q.after, record { before = elements q; after = [] })
core_steps_to_end q = core_steps_rest q.before q.after
