-- ===== src/Processors/Journal.antt =====
-- checkpointable.go: how a worker and its log use a processor. The worker gives it items, and at a
-- checkpoint of a client drains its changes; if they cannot be written they are given back. What
-- was written is what a restart applies to a new processor.
use tp_lavado_dinero.Prelude.{
  List, [], ◌∷◌, ◌++◌, Bytes, bytes_eq, ◌==◌, if◌then◌else◌, Exec, Result, ok, err,
}
use tp_lavado_dinero.Checkpoint.Line.{CheckpointChange}
use tp_lavado_dinero.Checkpoint.Defs.{Processor}
use tp_lavado_dinero.Processors.Loops.{for_each}

-- An item of a client, a checkpoint that is written, and one that is not.
pub data Op (M : Type 0) : Type 0 where
  received : (client_id : Bytes) → (item : M) → Op M
  saved lost : (client_id : Bytes) → Op M

module _ {P M : Type 0} (c : Processor P) (process : Bytes → M → Exec P (Unit {0})) where
  -- `ApplyChange` on one change after the other, up to the first error
  unfoldable pub apply_all : Bytes → List CheckpointChange → Exec P (Unit {0})
  unfolding for_each
  apply_all id = for_each (c.apply_change id)

  -- The processor with the changes of the client `id` that are in its log.
  abbrev pub Logged : Type 0
  Logged = P × List CheckpointChange

  unfoldable pub after_saved :
      Bytes → Bytes → List CheckpointChange → Result (List CheckpointChange) × P → Logged
  after_saved id j log (ok changes, p) = (p, if j == id then log ++ changes else log)
  after_saved id j log (err e, p) = (p, log)

  unfoldable pub after_lost :
      Bytes → List CheckpointChange → Result (List CheckpointChange) × P → Logged
  after_lost j log (ok changes, p) = ((c.restore_changes j changes p).1, log)
  after_lost j log (err e, p) = (p, log)

  -- `id` is the client whose log is kept.
  unfoldable pub step : Bytes → Op M → Logged → Logged
  unfolding after_saved after_lost
  step id (received j item) (p, log) = ((process j item p).1, log)
  step id (saved j) (p, log) = after_saved id j log (c.drain_changes j p)
  step id (lost j) (p, log) = after_lost j log (c.drain_changes j p)

  unfoldable pub run : Bytes → List (Op M) → Logged → Logged
  unfolding step
  run id [] s = s
  run id (o ∷ os) s = run id os (step id o s)

  -- What every step keeps, a run keeps.
  pub run_keeps {κ} :
      (I : Logged → Type κ) (id : Bytes)
      → ((o : Op M) (s : Logged) → I s → I (step id o s))
      → (os : List (Op M)) (s : Logged) → I s
      → I (run id os s)
  unfolding run
  run_keeps I id h [] s i = i
  run_keeps I id h (o ∷ os) s i = run_keeps I id h os (step id o s) (h o s i)
