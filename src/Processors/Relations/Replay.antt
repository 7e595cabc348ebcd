-- ===== src/Processors/Relations/Replay.antt =====
-- groupers/origindestination: what the log of a client gives back.
use tp_lavado_dinero.Prelude.{
  ◌≡◌, refl, sym, Option, none, some, List, [], ◌∷◌, ◌++◌, arith, Bytes, bytes_eq, ok, append-nil,
}
use tp_lavado_dinero.GoMap.{Map}
use tp_lavado_dinero.Checkpoint.Line.{CheckpointChange}
use tp_lavado_dinero.Processors.Model.{Json}
use tp_lavado_dinero.Processors.Loops.{each, for_each-append, for_each-each, set_all}
use tp_lavado_dinero.Processors.Dirty.{InStep, InStep-saved, InStep-same}
use tp_lavado_dinero.Processors.Journal.{Op, apply_all, run, run_keeps}
use tp_lavado_dinero.Processors.Relations.Defs.{
  ScatterGather, Relation, relation_eq, Side, P, new_processor, dirty, process, relation_change,
  drained, drained_from, drain_changes, set_relation, apply_change, checkpointable,
}
use tp_lavado_dinero.Processors.Relations.Views.{has}
use tp_lavado_dinero.Processors.Relations.Logging.{
  relation_applied, set_all-relations, step-Synced, start-Synced, Synced,
}

module _ (side : Side) (json : Json Relation) where
  -- A new processor to which `changes` are applied: there is no error, and it has the relations that
  -- the client has in `p`, and no others.
  pub record RestoresRelations (id : Bytes) (p : P) (changes : List CheckpointChange) : Type 0 where
    pub returned :
        (apply_all (checkpointable json) (process side) id changes new_processor).0 ≡ ok tt
    pub relations_back :
        (v : Relation)
        → has id (apply_all (checkpointable json) (process side) id changes new_processor).1 v
          ≡ has id p v

  drained-RestoresRelations :
      (id : Bytes) (p : P) (log : List CheckpointChange) (m : Map Relation (Unit {0}))
      (r : Option (List CheckpointChange)) (changes : List CheckpointChange)
      → dirty id p ≡ m
      → each (relation_change json) m ≡ r
      → Synced side json id (p, log)
      → (drained json id p r).0 ≡ ok changes
      → RestoresRelations id p (log ++ changes)
  drained-RestoresRelations id p log m none changes hm hr s h = absurd (ground (arith, h))
  drained-RestoresRelations id p log m (some xs) changes hm hr s h =
      let written : changes ≡ xs = ground (arith, h) in
      let d : InStep (has id p) m (has id s.restored) = rw (sym hm) s.synced in
      let q = set_all (set_relation id) m s.restored in
      let applied : apply_all (checkpointable json) (process side) id (log ++ xs) new_processor
          ≡ (ok tt, q) =
        (unfold apply_all in
          rw (for_each-append (apply_change json id) log xs new_processor, s.applies)
            (for_each-each (apply_change json id) (relation_change json) (set_relation id)
              (relation_applied side json id) m xs s.restored hr)) in
      rw written (record {
        returned = rw applied refl;
        relations_back = λ v. rw applied (
            InStep-same (has id p) (has id q)
              (InStep-saved (has id p) m (has id s.restored) (has id q)
                (λ w. set_all-relations side json id m s.restored w d.distinct) d)
              v);
      })

  from-RestoresRelations :
      (id : Bytes) (p : P) (log : List CheckpointChange) (m : Map Relation (Unit {0}))
      (changes : List CheckpointChange)
      → dirty id p ≡ m
      → Synced side json id (p, log)
      → (drained_from json id p m).0 ≡ ok changes
      → RestoresRelations id p (log ++ changes)
  from-RestoresRelations id p log [] changes hm s h =
      let written : changes ≡ [] = ground (arith, h) in
      let d : InStep (has id p) [] (has id s.restored) = rw (sym hm) s.synced in
      rw (written, append-nil log)
        (record {
          returned = rw (s.applies) refl;
          relations_back = λ v. rw (s.applies) (InStep-same (has id p) (has id s.restored) d v);
        })
  from-RestoresRelations id p log (x ∷ m) changes hm s h =
      drained-RestoresRelations id p log (x ∷ m) _ changes hm refl s h

  -- However items of clients come in and checkpoints of clients succeed or fail: when the changes of a
  -- client are drained once more, its log with them gives a new processor, without an error, exactly
  -- the relations that the worker has for the client. This holds for both groupers.
  pub run-RestoresRelations :
      (id : Bytes) (ops : List (Op ScatterGather)) (changes : List CheckpointChange)
      → (drain_changes json id
          (run (checkpointable json) (process side) id ops (new_processor, [])).0).0
        ≡ ok changes
      → RestoresRelations id
          (run (checkpointable json) (process side) id ops (new_processor, [])).0
          ((run (checkpointable json) (process side) id ops (new_processor, [])).1 ++ changes)
  unfolding drain_changes
  run-RestoresRelations id ops changes h =
      let s = run (checkpointable json) (process side) id ops (new_processor, []) in
      from-RestoresRelations id s.0 s.1 (dirty id s.0) changes refl
        (run_keeps (checkpointable json) (process side) (Synced side json id) id
          (step-Synced side json id) ops _ (start-Synced side json id))
        h
