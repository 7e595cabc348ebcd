-- ===== src/Processors/Conversions/Counted.antt =====
-- joiners/conversionjoin: the count that a restart finds in the log is the number of items that came in.
use tp_lavado_dinero.Prelude.{
  ℕ, ◌+◌, ◌≡◌, refl, ap, ◌∙◌, subst, inl, inr, false, Option, none, some, List, [], ◌∷◌, ◌++◌,
  append-nil, arith, Bytes, bytes_eq, bytes_beq_iff, ◌==◌, Bool-cases, if◌then◌else◌, Result, ok,
}
use tp_lavado_dinero.GoMap.{get, remove}
use tp_lavado_dinero.Checkpoint.Line.{CheckpointChange}
use tp_lavado_dinero.Processors.Model.{Json}
use tp_lavado_dinero.Processors.Loops.{for_each}
use tp_lavado_dinero.Processors.Journal.{
  Op, received, saved, lost, apply_all, Logged, after_saved, after_lost, step, run,
}
use tp_lavado_dinero.Processors.Conversions.Defs.{
  CountValue, ConversionJoin, new_join, result_of, is_dirty, process_amount, change_of,
  drained_text, drain_counts, count_checkpointable,
}
use tp_lavado_dinero.Processors.Conversions.Synced.{
  received_in, is_dirty-remove, received-Synced, logged-Synced, saved-Synced, lost-Synced, Synced,
}

module _ (A : Type 0) (json : Json CountValue) where
  abbrev pub State : Type 0
  State = Logged (count_checkpointable json) (process_amount {A = A})

  abbrev pub running : Bytes → List (Op A) → State → State
  running id ops s = run (count_checkpointable json) (process_amount {A = A}) id ops s

  run-Synced :
      (id : Bytes) (ops : List (Op A)) (n m : ℕ) (p : ConversionJoin) (log : List CheckpointChange)
      → m ≡ received_in id ops + n
      → Synced json id n p log
      → Synced json id m (running id ops (p, log)).0 (running id ops (p, log)).1
  unfolding run step
  run-Synced id [] n m p log e s = subst (λ x. Synced json id x p log) (omega (arith, e)) s
  run-Synced id (received j a ∷ ops) n m p log e s =
      let k : ℕ = (if id == j then 1 else 0) + n in
      run-Synced id ops k m (process_amount j a p).1 log (omega (arith, e))
        (received-Synced json id j a n k p log refl s)
  run-Synced id (saved j ∷ ops) n m p log e s =
      let r =
        after_saved (count_checkpointable json) (process_amount {A = A}) id j log
          (drain_counts json j p) in
      run-Synced id ops n m r.0 r.1 e (saved-Synced json A id j n p log s)
  run-Synced id (lost j ∷ ops) n m p log e s =
      let r =
        after_lost (count_checkpointable json) (process_amount {A = A}) j log
          (drain_counts json j p) in
      run-Synced id ops n m r.0 r.1 e (lost-Synced json A id j n p log s)

  start-Synced : (id : Bytes) → Synced json id 0 new_join []
  unfolding for_each get
  start-Synced id = record {
    counted = refl;
    restored = new_join;
    applies = refl;
    clean = λ d. refl;
  }

  drained_text-Restores :
      (id : Bytes) (n : ℕ) (p : ConversionJoin) (log changes : List CheckpointChange)
      (o : Option Bytes)
      → json.marshal (record { count = result_of id p }) ≡ o
      → (drained_text json id p o).0 ≡ ok changes
      → Synced json id n p log
      → Synced json id n (record p { dirty_counts = remove p.dirty_counts id }) (log ++ changes)
  drained_text-Restores id n p log changes none w h s = absurd (ground (arith, h))
  drained_text-Restores id n p log changes (some text) w h s =
      let q = record p { dirty_counts = remove p.dirty_counts id } in
      let written : change_of json id text ∷ [] ≡ changes = ground (arith, h) in
      subst (λ x. Synced json id n q (log ++ x)) written
        (logged-Synced json id text n p q log w refl s)

  -- Applied to a new processor, `changes` return no error and give the client the count `n`.
  pub record RestoresCount (id : Bytes) (n : ℕ) (changes : List CheckpointChange) : Type 0 where
    pub returned :
        (apply_all (count_checkpointable json) (process_amount {A = A}) id changes new_join).0
        ≡ ok tt
    pub count_back :
        result_of id
          (apply_all (count_checkpointable json) (process_amount {A = A}) id changes new_join).1
        ≡ n

  Synced-Restores :
      (id : Bytes) (n : ℕ) (p : ConversionJoin) (log : List CheckpointChange)
      → is_dirty id p ≡ false
      → Synced json id n p log
      → RestoresCount id n log
  unfolding apply_all
  Synced-Restores id n p log d s = record {
    returned = ap (λ (r : Result (Unit {0}) × ConversionJoin). r.0) s.applies;
    count_back =
        ap (λ (r : Result (Unit {0}) × ConversionJoin). result_of id r.1) s.applies ∙ s.clean d;
  }

  drained-Restores :
      (id : Bytes) (n : ℕ) (p : ConversionJoin) (log changes : List CheckpointChange)
      → (drain_counts json id p).0 ≡ ok changes
      → Synced json id n p log
      → RestoresCount id n (log ++ changes)
  unfolding drain_counts
  drained-Restores id n p log changes h s = elim (Bool-cases (is_dirty id p)) [
    | inl yes' ↦
        let h' : (drained_text json id p (json.marshal (record { count = result_of id p }))).0
            ≡ ok changes =
          rw (yes', drain_counts) at h in
        let q = record p { dirty_counts = remove p.dirty_counts id } in
        Synced-Restores id n q (log ++ changes)
          (ground (arith, is_dirty-remove id id p, bytes_beq_iff id id))
          (drained_text-Restores id n p log changes _ refl h' s)
    | inr no' ↦
        let h' : ok [] ≡ ok changes = rw (no', drain_counts) at h in
        let none' : changes ≡ [] = ground (arith, h') in
        rw (none', append-nil log) (Synced-Restores id n p log no' s)
  ]

  -- However items of clients come in and checkpoints of clients succeed or fail: when the changes of a
  -- client are drained once more, its log with them gives a new processor, without an error, the number
  -- of the client's items as its count.
  pub run-RestoresCount :
      (id : Bytes) (ops : List (Op A)) (changes : List CheckpointChange)
      → (drain_counts json id (running id ops (new_join, [])).0).0 ≡ ok changes
      → RestoresCount id (received_in id ops) ((running id ops (new_join, [])).1 ++ changes)
  run-RestoresCount id ops changes h =
      drained-Restores id (received_in id ops) (running id ops (new_join, [])).0
        (running id ops (new_join, [])).1 changes h
        (run-Synced id ops 0 (received_in id ops) new_join [] (omega arith) (start-Synced id))
