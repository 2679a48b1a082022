-- ===== src/Tests/Queue.antt =====
-- The emit queue (utils/emitQueue.go) with two ids.
use ddbot_nexus.Prelude.{bytes, pos, ◌≡◌, true, List, [], ◌∷◌}
use ddbot_nexus.Concern.KeySet.{int_id}
use ddbot_nexus.EmitQueue.{
  EmitE, Operation, apply_all, core_steps, adding, emitting, deleting, new_emit_queue,
}
use ddbot_nexus.EmitQueue.Distinct.{apply_all-distinct, distinct, queue_ids}
use ddbot_nexus.EmitQueue.Rounds.{core_steps_round}

abbrev first : EmitE
first = record { id = int_id (pos 1); types = bytes "live" }

abbrev second : EmitE
second = record { id = int_id (pos 2); types = bytes "news" }

abbrev operations : List Operation
operations = adding first ∷ adding second ∷ emitting ∷ adding first ∷ deleting (int_id (pos 2)) ∷ []

apply_all-distinct_example : distinct (queue_ids (apply_all operations new_emit_queue)) ≡ true
apply_all-distinct_example = apply_all-distinct operations

core_steps_round_example :
    core_steps 2 (record { before = first ∷ second ∷ []; after = [] })
    ≡ (first ∷ second ∷ [], record { before = first ∷ second ∷ []; after = [] })
core_steps_round_example = core_steps_round (first ∷ second ∷ [])
