-- ===== src/EmitQueue/Distinct.antt =====
-- The queue never holds an id twice (utils/emitQueue.go).
use ddbot_nexus.Prelude.{
  ◌==◌, if◌then◌else◌, Bool-cases, length, any, ==ₜ_iff, ◌≡◌, refl, sym, ap, ◌∙◌, inl, inr, Bool,
  true, false, ◌&&◌, ◌||◌, not, List, [], ◌∷◌, ◌++◌, arith,
}
use ddbot_nexus.Concern.KeySet.{ConcernId, id_eq, int_eq_sym, int_id, text_id}
use ddbot_nexus.EmitQueue.{
  EmitE, merge_first, set_types, remove_first, has_id, EmitQueue, new_emit_queue, elements,
  push_back, start_cursor, add_element, update_element, delete_element, pick, core_step, Operation,
  apply, apply_all, adding, updating, deleting, emitting,
}

abbrev has : ConcernId → List ConcernId → Bool
has i is = any (λ j. id_eq j i) is

-- No id is equal to a later one.
abbrev pub distinct : List ConcernId → Bool
distinct [] = true
distinct (i ∷ is) = not (has i is) && distinct is

abbrev pub ids : List EmitE → List ConcernId
ids [] = []
ids (e ∷ es) = e.id ∷ ids es

id_eq_sym : (i j : ConcernId) → id_eq i j ≡ id_eq j i
unfolding id_eq
id_eq_sym (int_id m) (int_id n) = int_eq_sym m n
id_eq_sym (text_id s) (text_id t) = ground (arith, ==ₜ_iff s t, ==ₜ_iff t s)
id_eq_sym (int_id m) (text_id t) = refl
id_eq_sym (text_id s) (int_id n) = refl

has-ids : (i : ConcernId) (es : List EmitE) → has i (ids es) ≡ has_id i es
has-ids i [] = refl
has-ids i (e ∷ es) = ground (arith, has-ids i es)

ids-append : (es fs : List EmitE) → ids (es ++ fs) ≡ ids es ++ ids fs
ids-append [] fs = refl
ids-append (e ∷ es) fs = ap (λ l. e.id ∷ l) (ids-append es fs)

ids-merge_first : (e : EmitE) (es : List EmitE) → ids (merge_first e es) ≡ ids es
unfolding merge_first
ids-merge_first e [] = refl
ids-merge_first e (h ∷ es) = elim (Bool-cases (id_eq h.id e.id)) [
  | inl c ↦ rw c
  | inr c ↦ rw c (ap (λ l. h.id ∷ l) (ids-merge_first e es))
]

ids-set_types : (e : EmitE) (es : List EmitE) → ids (set_types e es) ≡ ids es
unfolding set_types
ids-set_types e [] = refl
ids-set_types e (h ∷ es) = elim (Bool-cases (id_eq h.id e.id)) [
  | inl c ↦ rw c (ap (λ l. h.id ∷ l) (ids-set_types e es))
  | inr c ↦ rw c (ap (λ l. h.id ∷ l) (ids-set_types e es))
]

abbrev without : ConcernId → List ConcernId → List ConcernId
without i [] = []
without i (j ∷ js) = if id_eq j i then js else j ∷ without i js

ids-remove_first : (i : ConcernId) (es : List EmitE) → ids (remove_first i es) ≡ without i (ids es)
unfolding remove_first
ids-remove_first i [] = refl
ids-remove_first i (h ∷ es) = elim (Bool-cases (id_eq h.id i)) [
  | inl c ↦ rw c
  | inr c ↦ rw c (ap (λ l. h.id ∷ l) (ids-remove_first i es))
]

has-append : (i : ConcernId) (is js : List ConcernId) → has i (is ++ js) ≡ (has i is || has i js)
has-append i [] js = refl
has-append i (k ∷ is) js = ground (arith, has-append i is js)

has-without :
    (i j : ConcernId) (is : List ConcernId) → has i is ≡ false → has i (without j is) ≡ false
has-without i j [] h = refl
has-without i j (k ∷ is) h = ground (arith, has-without i j is)

distinct-snoc :
    (i : ConcernId) (is : List ConcernId)
    → distinct is ≡ true
    → has i is ≡ false
    → distinct (is ++ (i ∷ [])) ≡ true
distinct-snoc i [] d h = refl
distinct-snoc i (j ∷ is) d h =
    ground (arith, distinct-snoc i is, has-append j is (i ∷ []), id_eq_sym i j)

distinct-without_left :
    (i : ConcernId) (is js : List ConcernId)
    → distinct (is ++ js) ≡ true
    → distinct (without i is ++ js) ≡ true
distinct-without_left i [] js d = d
distinct-without_left i (k ∷ is) js d = ground (
  arith,
  distinct-without_left i is js,
  has-append k is js,
  has-append k (without i is) js,
  has-without k i is,
)

distinct-without_right :
    (i : ConcernId) (is js : List ConcernId)
    → distinct (is ++ js) ≡ true
    → distinct (is ++ without i js) ≡ true
distinct-without_right i [] [] d = refl
distinct-without_right i [] (k ∷ js) d =
    ground (arith, distinct-without_right i [] js, has-without k i js)
distinct-without_right i (k ∷ is) js d = ground (
  arith,
  distinct-without_right i is js,
  has-append k is js,
  has-append k is (without i js),
  has-without k i js,
)

-- The ids of a queue, in the order of its list.
abbrev pub queue_ids : EmitQueue → List ConcernId
queue_ids q = ids q.before ++ ids q.after

queue_ids-elements : (q : EmitQueue) → queue_ids q ≡ ids (elements q)
queue_ids-elements q = sym (ids-append q.before q.after)

queue_ids-start_cursor : (q : EmitQueue) → queue_ids (start_cursor q) ≡ queue_ids q
unfolding start_cursor
queue_ids-start_cursor q = elim (Bool-cases (length (elements q) == 1)) [
  | inl c ↦ rw c (sym (queue_ids-elements q))
  | inr c ↦ rw c
]

append_nil : (is : List ConcernId) → is ++ [] ≡ is
append_nil [] = refl
append_nil (i ∷ is) = ap (λ l. i ∷ l) (append_nil is)

append_assoc : (is js ks : List ConcernId) → (is ++ js) ++ ks ≡ is ++ (js ++ ks)
append_assoc [] js ks = refl
append_assoc (i ∷ is) js ks = ap (λ l. i ∷ l) (append_assoc is js ks)

queue_ids-push_back :
    (e : EmitE) (before after : List EmitE)
    → queue_ids (push_back e (record { before = before; after = after }))
      ≡ (ids before ++ ids after) ++ (e.id ∷ [])
unfolding push_back
queue_ids-push_back e before [] =
    append_nil (ids (before ++ (e ∷ [])))
    ∙ ids-append before (e ∷ [])
    ∙ ap (λ l. l ++ (e.id ∷ [])) (sym (append_nil (ids before)))
queue_ids-push_back e before (h ∷ after) =
    ap (λ l. ids before ++ l) (ids-append (h ∷ after) (e ∷ []))
    ∙ sym (append_assoc (ids before) (ids (h ∷ after)) (e.id ∷ []))

distinct-add_element :
    (e : EmitE) (q : EmitQueue)
    → distinct (queue_ids q) ≡ true
    → distinct (queue_ids (add_element e q)) ≡ true
unfolding add_element
distinct-add_element e q d = elim (Bool-cases (has_id e.id q.before)) [
  | inl here ↦ rw here (
      ap distinct (queue_ids-start_cursor (record q { before = merge_first e q.before }))
      ∙ ap (λ l. distinct (l ++ ids q.after)) (ids-merge_first e q.before)
      ∙ d)
  | inr out ↦ elim (Bool-cases (has_id e.id q.after)) [
    | inl here ↦
        rw (out, here)
          (ap distinct (queue_ids-start_cursor (record q { after = merge_first e q.after }))
            ∙ ap (λ l. distinct (ids q.before ++ l)) (ids-merge_first e q.after)
            ∙ d)
    | inr away ↦
        rw (out, away)
          (ap distinct
              (queue_ids-start_cursor (push_back e q) ∙ queue_ids-push_back e q.before q.after)
            ∙ distinct-snoc e.id (queue_ids q) d (
                has-append e.id (ids q.before) (ids q.after)
                ∙ ground (arith, has-ids e.id q.before, has-ids e.id q.after)))
  ]
]

distinct-update_element :
    (e : EmitE) (q : EmitQueue)
    → distinct (queue_ids q) ≡ true
    → distinct (queue_ids (update_element e q)) ≡ true
unfolding update_element
distinct-update_element e q d =
    ap (λ l. distinct (l ++ ids (set_types e q.after))) (ids-set_types e q.before)
    ∙ ap (λ l. distinct (ids q.before ++ l)) (ids-set_types e q.after)
    ∙ d

distinct-delete_element :
    (i : ConcernId) (q : EmitQueue)
    → distinct (queue_ids q) ≡ true
    → distinct (queue_ids (delete_element i q)) ≡ true
unfolding delete_element
distinct-delete_element i q d = elim (Bool-cases (has_id i q.before)) [
  | inl here ↦ rw here (
      ap (λ l. distinct (l ++ ids q.after)) (ids-remove_first i q.before)
      ∙ distinct-without_left i (ids q.before) (ids q.after) d)
  | inr out ↦ rw out (
      ap (λ l. distinct (ids q.before ++ l)) (ids-remove_first i q.after)
      ∙ distinct-without_right i (ids q.before) (ids q.after) d)
]

queue_ids-core_step :
    (before after : List EmitE)
    → queue_ids (core_step (record { before = before; after = after })).1 ≡ ids before ++ ids after
unfolding core_step pick
queue_ids-core_step [] [] = refl
queue_ids-core_step (h ∷ before) [] = ap (λ l. h.id ∷ l) (sym (append_nil (ids before)))
queue_ids-core_step before (h ∷ after) =
    ap (λ l. l ++ ids after) (ids-append before (h ∷ []))
    ∙ append_assoc (ids before) (h.id ∷ []) (ids after)

distinct-apply :
    (o : Operation) (q : EmitQueue)
    → distinct (queue_ids q) ≡ true
    → distinct (queue_ids (apply o q)) ≡ true
unfolding apply
distinct-apply (adding e) q d = distinct-add_element e q d
distinct-apply (updating e) q d = distinct-update_element e q d
distinct-apply (deleting i) q d = distinct-delete_element i q d
distinct-apply emitting q d = ap distinct (queue_ids-core_step q.before q.after) ∙ d

distinct-apply_all :
    (os : List Operation) (q : EmitQueue)
    → distinct (queue_ids q) ≡ true
    → distinct (queue_ids (apply_all os q)) ≡ true
unfolding apply_all
distinct-apply_all [] q d = d
distinct-apply_all (o ∷ os) q d = distinct-apply_all os (apply o q) (distinct-apply o q d)

-- Whatever is added, updated, deleted and emitted, in any order, the queue never holds an id twice.
pub apply_all-distinct :
    (os : List Operation) → distinct (queue_ids (apply_all os new_emit_queue)) ≡ true
apply_all-distinct os = distinct-apply_all os new_emit_queue refl
