-- ===== src/Processors/MaxBank/Replay.antt =====
-- groupers/maxbank: what the log of a client gives back.
use tp_lavado_dinero.Prelude.{
  ◌≡◌, refl, Option, none, some, List, [], ◌++◌, arith, Bytes, bytes_eq, ok,
}
use tp_lavado_dinero.GoMap.{get}
use tp_lavado_dinero.Checkpoint.Line.{CheckpointChange}
use tp_lavado_dinero.Processors.Model.{ℤ, int_eq, Json, Floats}
use tp_lavado_dinero.Processors.Loops.{each, for_each-append}
use tp_lavado_dinero.Processors.Dirty.{InStep-saved_map, InStep-same}
use tp_lavado_dinero.Processors.Journal.{Op, apply_all, run, run_keeps}
use tp_lavado_dinero.Processors.MaxBank.Defs.{
  MaxBank, BankNameValue, MaxTxValue, P, new_processor, process, name_change, max_change,
  dirty_names, dirty_max, drained, drain_changes, apply_change, checkpointable,
}
use tp_lavado_dinero.Processors.MaxBank.Views.{
  names, maxima, restored_by, restored_by-names, restored_by-maxima,
}
use tp_lavado_dinero.Processors.MaxBank.Changes.{changes_applied}
use tp_lavado_dinero.Processors.MaxBank.Logging.{step-Synced, start-Synced, Synced}

module _ (fl : Floats) (jn : Json BankNameValue) (jm : Json (MaxTxValue fl.F)) where
  -- A new processor to which `changes` are applied: there is no error, and it has the names and the
  -- greatest transfers that the client has in `p`.
  pub record RestoresMaxima (id : Bytes) (p : P fl) (changes : List CheckpointChange) : Type 0 where
    pub returned :
        (apply_all (checkpointable fl jn jm) (process fl) id changes (new_processor fl)).0 ≡ ok tt
    pub names_back :
        (bank : ℤ)
        → get
            (names fl id
              (apply_all (checkpointable fl jn jm) (process fl) id changes (new_processor fl)).1)
            bank
          ≡ get (names fl id p) bank
    pub maxima_back :
        (bank : ℤ)
        → get
            (maxima fl id
              (apply_all (checkpointable fl jn jm) (process fl) id changes (new_processor fl)).1)
            bank
          ≡ get (maxima fl id p) bank

  drained-RestoresMaxima :
      (id : Bytes) (p : P fl) (log : List CheckpointChange) (n x : Option (List CheckpointChange))
      (changes : List CheckpointChange)
      → each (name_change fl jn jm) (dirty_names fl id p) ≡ n
      → each (max_change fl jn jm) (dirty_max fl id p) ≡ x
      → Synced fl jn jm id (p, log)
      → (drained fl id p n x).0 ≡ ok changes
      → RestoresMaxima id p (log ++ changes)
  drained-RestoresMaxima id p log none x changes hn hx s h = absurd (ground (arith, h))
  drained-RestoresMaxima id p log (some ns) none changes hn hx s h = absurd (ground (arith, h))
  drained-RestoresMaxima id p log (some ns) (some xs) changes hn hx s h =
      let written : changes ≡ ns ++ xs = ground (arith, h) in
      let n = dirty_names fl id p in
      let x = dirty_max fl id p in
      let q = restored_by fl id n x s.restored in
      let applied : apply_all (checkpointable fl jn jm) (process fl) id (log ++ (ns ++ xs))
            (new_processor fl)
          ≡ (ok tt, q) =
        (unfold apply_all in
          rw
            (
              for_each-append (apply_change fl jn jm id) log (ns ++ xs) (new_processor fl),
              s.applies,
            )
            (changes_applied fl jn jm id n x ns xs s.restored hn hx)) in
      rw written (record {
        returned = rw applied refl;
        names_back = λ bank.
            rw (applied, restored_by-names fl id n x s.restored)
              (InStep-same _ _ (InStep-saved_map _ _ _ s.names_synced) bank);
        maxima_back = λ bank.
            rw (applied, restored_by-maxima fl id n x s.restored)
              (InStep-same _ _ (InStep-saved_map _ _ _ s.maxima_synced) bank);
      })

  -- However items of clients come in and checkpoints of clients succeed or fail: when the changes of a
  -- client are drained once more, its log with them gives a new processor, without an error, all
  -- bank names and greatest transfers that the worker has for the client.
  pub run-RestoresMaxima :
      (id : Bytes) (ops : List (Op MaxBank)) (changes : List CheckpointChange)
      → (drain_changes fl jn jm id
          (run (checkpointable fl jn jm) (process fl) id ops (new_processor fl, [])).0).0
        ≡ ok changes
      → RestoresMaxima id
          (run (checkpointable fl jn jm) (process fl) id ops (new_processor fl, [])).0
          ((run (checkpointable fl jn jm) (process fl) id ops (new_processor fl, [])).1 ++ changes)
  unfolding drain_changes
  run-RestoresMaxima id ops changes h =
      let s = run (checkpointable fl jn jm) (process fl) id ops (new_processor fl, []) in
      drained-RestoresMaxima id s.0 s.1 _ _ changes refl refl
        (run_keeps (checkpointable fl jn jm) (process fl) (Synced fl jn jm id) id
          (step-Synced fl jn jm id) ops _ (start-Synced fl jn jm id))
        h
