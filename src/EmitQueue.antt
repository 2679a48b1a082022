-- ===== src/EmitQueue.antt =====
-- utils/emitQueue.go: the queue that hands out subscribed ids one after another, over and over. The
-- list `eqlist` is `before ++ after`, and the cursor `eqlistCur` is the first element of `after`, or
-- nil where `after` is empty. The lock is held through each operation, and through the part of the
-- loop that picks an element; the timer, the channel and the stop are left out. Arguments are not nil.
pub mod Rounds
pub mod Distinct
use ddbot_nexus.Prelude.{
  ◌==◌, if◌then◌else◌, length, any, is_empty, ℕ, zero, suc, Bool, Option, none, some, List, [], ◌∷◌,
  ◌++◌,
}
use ddbot_nexus.ConcernType.{ConcernType, add}
use ddbot_nexus.Concern.KeySet.{ConcernId, id_eq}

pub record EmitE : Type 0 where
  pub id : ConcernId
  pub types : ConcernType

pub record EmitQueue : Type 0 where
  pub before : List EmitE
  pub after : List EmitE

abbrev pub new_emit_queue : EmitQueue
new_emit_queue = record { before = []; after = [] }

abbrev pub elements : EmitQueue → List EmitE
elements q = q.before ++ q.after

abbrev pub has_id : ConcernId → List EmitE → Bool
has_id i es = any (λ e. id_eq e.id i) es

-- `headE.Type = headE.Type.Add(e.Type)` at the first element of the id
unfoldable pub merge_first : EmitE → List EmitE → List EmitE
merge_first e [] = []
merge_first e (h ∷ es) =
    let rest = merge_first e es in
    if id_eq h.id e.id then record h { types = add h.types (e.types ∷ []) } ∷ es else h ∷ rest

-- PushBack; an element that is appended is not under a cursor that is nil.
unfoldable pub push_back : EmitE → EmitQueue → EmitQueue
push_back e q =
    if is_empty q.after
    then record q { before = q.before ++ (e ∷ []) }
    else record q { after = q.after ++ (e ∷ []) }

-- The cursor is put on the only element of a list.
unfoldable pub start_cursor : EmitQueue → EmitQueue
start_cursor q = if length (elements q) == 1 then record { before = []; after = elements q } else q

unfoldable pub add_element : EmitE → EmitQueue → EmitQueue
unfolding merge_first push_back start_cursor
add_element e q = start_cursor (
    if has_id e.id q.before
    then record q { before = merge_first e q.before }
    else if has_id e.id q.after
    then record q { after = merge_first e q.after }
    else push_back e q)

unfoldable pub set_types : EmitE → List EmitE → List EmitE
set_types e [] = []
set_types e (h ∷ es) =
    (if id_eq h.id e.id then record h { types = e.types } else h) ∷ set_types e es

unfoldable pub update_element : EmitE → EmitQueue → EmitQueue
update_element e q = record { before = set_types e q.before; after = set_types e q.after }

-- The loop of Delete removes one element: an element that is removed has no next one.
unfoldable pub remove_first : ConcernId → List EmitE → List EmitE
remove_first i [] = []
remove_first i (h ∷ es) = let rest = remove_first i es in if id_eq h.id i then es else h ∷ rest

unfoldable pub delete_element : ConcernId → EmitQueue → EmitQueue
delete_element i q =
    if has_id i q.before
    then record q { before = remove_first i q.before }
    else record q { after = remove_first i q.after }

-- The element under the cursor is picked, and the cursor moves on.
unfoldable pub pick : List EmitE → List EmitE → Option EmitE × EmitQueue
pick before [] = (none, record { before = before; after = [] })
pick before (h ∷ after) = (some h, record { before = before ++ (h ∷ []); after = after })

-- A round of the loop; a cursor that is nil is put on the front first.
unfoldable pub core_step : EmitQueue → Option EmitE × EmitQueue
unfolding pick
core_step q = if is_empty q.after then pick [] q.before else pick q.before q.after

unfoldable pub core_steps : ℕ → EmitQueue → List EmitE × EmitQueue
core_steps zero q = ([], q)
core_steps (suc n) q =
    let (e, next) = core_step q in
    let (es, last) = core_steps n next in (elim e [ none ↦ es | some h ↦ h ∷ es ], last)

pub data Operation : Type 0 where
  adding updating : EmitE → Operation
  deleting : ConcernId → Operation
  emitting : Operation

unfoldable pub apply : Operation → EmitQueue → EmitQueue
apply (adding e) q = add_element e q
apply (updating e) q = update_element e q
apply (deleting i) q = delete_element i q
apply emitting q = (core_step q).1

unfoldable pub apply_all : List Operation → EmitQueue → EmitQueue
unfolding apply
apply_all [] q = q
apply_all (o ∷ os) q = apply_all os (apply o q)
