-- ===== src/Checkpoint/Steps.antt =====
-- What the engine (statefulengine.go) does with the manager, as steps, and what is counted over them.
use tp_lavado_dinero.Prelude.{
  ℕ, ◌+◌, Bool, false, ◌&&◌, List, [], ◌∷◌, Bytes, bytes_eq, ◌==◌, if◌then◌else◌,
}
use tp_lavado_dinero.Checkpoint.Line.{Codec}
use tp_lavado_dinero.Checkpoint.Defs.{
  Delivery, Processor, Coordinator, System, begin_batch, abort_batch, commit_batch,
  flush_pending_batches, clear_state,
}

-- What the engine does with the manager
pub data Op : Type 0 where
  begun : Delivery → Op
  aborted cleared eof_arrived : (client_id : Bytes) → Op
  committed : (client_id batch_id : Bytes) → ℕ → Op

abbrev pub bit : Bool → ℕ
bit b = if b then 1 else 0

module _ {P C : Type 0} (k : Codec) (p : Processor P) (c : Coordinator C) where
  unfoldable pub step : Op → System P C → System P C
  unfolding begin_batch abort_batch commit_batch flush_pending_batches clear_state
  step (begun d) s = (begin_batch k p c d s).1
  step (aborted id) s = abort_batch k p c id s
  step (committed id b n) s = (commit_batch k p c id b n s).1
  step (eof_arrived id) s = (flush_pending_batches k p c id s).1
  step (cleared id) s = (clear_state k p c id s).1

  unfoldable pub run : List Op → System P C → System P C
  unfolding step
  run [] s = s
  run (o ∷ os) s = run os (step o s)

  -- Whether a step hands the batch `b` of the client `id` to the processor
  abbrev pub hands_over : Bytes → Bytes → Op → System P C → Bool
  hands_over id b (begun d) s = id == d.client_id && b == d.batch_id && (begin_batch k p c d s).0
  hands_over id b (aborted j) s = false
  hands_over id b (committed j e n) s = false
  hands_over id b (eof_arrived j) s = false
  hands_over id b (cleared j) s = false

  abbrev pub handed_over : Bytes → Bytes → List Op → System P C → ℕ
  handed_over id b [] s = 0
  handed_over id b (o ∷ os) s = bit (hands_over id b o s) + handed_over id b os (step o s)

abbrev pub clears : Bytes → Op → ℕ
clears id (cleared j) = bit (id == j)
clears id (begun d) = 0
clears id (aborted j) = 0
clears id (committed j e n) = 0
clears id (eof_arrived j) = 0

abbrev pub clears_in : Bytes → List Op → ℕ
clears_in id [] = 0
clears_in id (o ∷ os) = clears id o + clears_in id os
