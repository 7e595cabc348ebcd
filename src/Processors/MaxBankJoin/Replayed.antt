-- ===== src/Processors/MaxBankJoin/Replayed.antt =====
-- joiners/maxbankjoin: every checkpoint of a client has all of its results again, and a restart adds
-- them all up.
use tp_lavado_dinero.Prelude.{
  ℕ, suc, ◌≡◌, refl, sym, ap, ◌∙◌, subst, true, Option, some, List, [], ◌∷◌, ◌++◌, append-nil,
  append_assoc, arith, Bytes, bytes_eq, bytes_beq, bytes_beq_iff, ◌==◌, Result, ok, after,
}
use tp_lavado_dinero.GoMap.{get, remove, get-put}
use tp_lavado_dinero.Checkpoint.Line.{CheckpointChange}
use tp_lavado_dinero.Checkpoint.Defs.{truth_of, slice_of}
use tp_lavado_dinero.Processors.Model.{Json}
use tp_lavado_dinero.Processors.Loops.{for_each, for_each-append}
use tp_lavado_dinero.Processors.Journal.{Op, received, saved, apply_all, after_saved, step, run}
use tp_lavado_dinero.Processors.MaxBank.Defs.{MaxBankResult}
use tp_lavado_dinero.Processors.MaxBankJoin.Defs.{
  MaxBankJoin, new_max_bank_join, gathered, add_result, mark_result_added, process_result,
  result_change, result_changes, drain_results, apply_result, results_checkpointable,
}

-- Some results, and a checkpoint behind them
abbrev pub Round : Type 0
Round = MaxBankResult × List MaxBankResult

abbrev pub receive_all :
    Bytes → List MaxBankResult → List (Op MaxBankResult) → List (Op MaxBankResult)
receive_all id [] ops = ops
receive_all id (r ∷ rs) ops = received id r ∷ receive_all id rs ops

abbrev pub rounds_of : Bytes → List Round → List (Op MaxBankResult)
rounds_of id [] = []
rounds_of id ((r, rs) ∷ rounds) = receive_all id (r ∷ rs) (saved id ∷ rounds_of id rounds)

-- For each checkpoint all results so far, which begin with `seen`
abbrev pub all_so_far : List MaxBankResult → List Round → List MaxBankResult
all_so_far seen [] = []
all_so_far seen ((r, rs) ∷ rounds) = (seen ++ r ∷ rs) ++ all_so_far (seen ++ r ∷ rs) rounds

abbrev add_each : Bytes → List MaxBankResult → MaxBankJoin → MaxBankJoin
add_each id [] p = p
add_each id (r ∷ rs) p = add_each id rs (add_result id r p)

stored-add :
    (id : Bytes) (r : MaxBankResult) (p : MaxBankJoin)
    → get (add_result id r p).result_stores id ≡ some (gathered id p ++ r ∷ [])
unfolding add_result
stored-add id r p =
    ground (arith, get-put p.result_stores id id (gathered id p ++ r ∷ []), bytes_beq_iff id id)

gathered-add_each :
    (id : Bytes) (rs : List MaxBankResult) (p : MaxBankJoin)
    → gathered id (add_each id rs p) ≡ gathered id p ++ rs
gathered-add_each id [] p = sym (append-nil (gathered id p))
gathered-add_each id (r ∷ rs) p =
    gathered-add_each id rs (add_result id r p)
    ∙ (ap (λ o. slice_of o ++ rs) (stored-add id r p) ∙ append_assoc (gathered id p) (r ∷ []) rs)

-- A client whose results are `rs`, and that has a mark
record Ready (id : Bytes) (rs : List MaxBankResult) (p : MaxBankJoin) : Type 0 where
  pub marked : truth_of (get p.dirty_keys id) ≡ true
  pub stored : get p.result_stores id ≡ some rs

process-Ready :
    (id : Bytes) (r : MaxBankResult) (p : MaxBankJoin)
    → Ready id (gathered id p ++ r ∷ []) (process_result id r p).1
unfolding process_result mark_result_added add_result
process-Ready id r p = record {
  marked = ground (arith, get-put p.dirty_keys id id true, bytes_beq_iff id id);
  stored = stored-add id r p;
}

module _ (json : Json MaxBankResult)
    (writes : (r : MaxBankResult) → (text : Bytes) × (json.marshal r ≡ some text)) where
  -- The changes of results, and what they do when they are applied
  record Written (id : Bytes) (i : ℕ) (rs : List MaxBankResult) : Type 0 where
    pub changes : List CheckpointChange
    pub drained : result_changes json id i rs ≡ some changes
    pub applied :
        (q : MaxBankJoin) → for_each (apply_result json id) changes q ≡ (ok tt, add_each id rs q)

  written : (id : Bytes) (i : ℕ) (rs : List MaxBankResult) → Written id i rs
  unfolding result_changes for_each
  written id i [] = record { changes = []; drained = refl; applied = λ q. refl }
  written id i (r ∷ rs) =
      let (text, w) = writes r in
      let more = written id (suc i) rs in
      let one : (q : MaxBankJoin)
          → apply_result json id (result_change json id i text) q ≡ (ok tt, add_result id r q) =
        λ q.
          unfold apply_result result_change bytes_beq in
          rw (json.unmarshal-marshal r text w) refl in
      record {
        changes = result_change json id i text ∷ more.changes;
        drained = rw (w, more.drained, result_changes) refl;
        applied = λ q.
            ap (after (λ (_ : Unit {0}). for_each (apply_result json id) more.changes)) (one q)
            ∙ more.applied (add_result id r q);
      }

  abbrev running :
      Bytes
      → List (Op MaxBankResult)
      → MaxBankJoin × List CheckpointChange
      → MaxBankJoin × List CheckpointChange
  running id ops s = run (results_checkpointable json) process_result id ops s

  -- Behind some more results
  record Received (id : Bytes) (rs : List MaxBankResult) (ops : List (Op MaxBankResult))
      (log : List CheckpointChange) (from : MaxBankJoin × List CheckpointChange) : Type 0 where
    pub worker : MaxBankJoin
    pub ready : Ready id rs worker
    pub same : from ≡ running id ops (worker, log)

  Received-more :
      (id : Bytes) (rs xs : List MaxBankResult) (ops : List (Op MaxBankResult)) (p : MaxBankJoin)
      (log : List CheckpointChange)
      → Ready id rs p
      → Received id (rs ++ xs) ops log (running id (receive_all id xs ops) (p, log))
  unfolding run step
  Received-more id rs [] ops p log h = record {
    worker = p;
    ready = subst (λ x. Ready id x p) (sym (append-nil rs)) h;
    same = refl;
  }
  Received-more id rs (x ∷ xs) ops p log h =
      let next = (process_result id x p).1 in
      let g : Ready id (rs ++ x ∷ []) next =
        subst (λ (o : Option (List MaxBankResult)). Ready id (slice_of o ++ x ∷ []) next) h.stored
          (process-Ready id x p) in
      let more = Received-more id (rs ++ x ∷ []) xs ops next log g in
      record {
        worker = more.worker;
        ready = subst (λ ys. Ready id ys more.worker) (append_assoc rs (x ∷ []) xs) more.ready;
        same = more.same;
      }

  cleaned : Bytes → MaxBankJoin → MaxBankJoin
  cleaned id p = record p { dirty_keys = remove p.dirty_keys id }

  saved-Ready :
      (id : Bytes) (rs : List MaxBankResult) (p : MaxBankJoin) (log : List CheckpointChange)
      → Ready id rs p
      → after_saved (results_checkpointable json) process_result id id log (drain_results json id p)
        ≡ (cleaned id p, log ++ (written id 0 rs).changes)
  unfolding drain_results after_saved cleaned
  saved-Ready id rs p log h =
      let same : (id == id) ≡ true = ground (arith, bytes_beq_iff id id) in
      rw (h.marked, h.stored, (written id 0 rs).drained, same, drain_results) refl

  -- The log of a run can be applied; what it gives the client, and what the worker has for it
  record Replays (id : Bytes) (own back : List MaxBankResult)
      (s : MaxBankJoin × List CheckpointChange) : Type 0 where
    pub worker : gathered id s.0 ≡ own
    pub restored : MaxBankJoin
    pub applies : for_each (apply_result json id) s.1 new_max_bank_join ≡ (ok tt, restored)
    pub found : gathered id restored ≡ back

  abbrev pub all_of : List MaxBankResult → List Round → List MaxBankResult
  all_of seen [] = seen
  all_of seen ((r, rs) ∷ rounds) = all_of (seen ++ r ∷ rs) rounds

  rounds-Replays :
      (id : Bytes) (rounds : List Round) (own back : List MaxBankResult) (p : MaxBankJoin)
      (log : List CheckpointChange)
      → Replays id own back (p, log)
      → Replays id
          (all_of own rounds)
          (back ++ all_so_far own rounds)
          (running id (rounds_of id rounds) (p, log))
  unfolding run step cleaned
  rounds-Replays id [] own back p log h =
      subst (λ x. Replays id own x (p, log)) (sym (append-nil back)) h
  rounds-Replays id ((r, rs) ∷ rounds) own back p log h =
      let first = (process_result id r p).1 in
      let g : Ready id (own ++ r ∷ []) first =
        subst (λ x. Ready id (x ++ r ∷ []) first) h.worker (process-Ready id r p) in
      let got = Received-more id (own ++ r ∷ []) rs (saved id ∷ rounds_of id rounds) first log g in
      let all = own ++ r ∷ rs in
      let ready : Ready id all got.worker =
        subst (λ ys. Ready id ys got.worker) (append_assoc own (r ∷ []) rs) got.ready in
      let wrote = written id 0 all in
      let q = cleaned id got.worker in
      let log' = log ++ wrote.changes in
      let next : Replays id all (back ++ all) (q, log') = record {
        worker = ap slice_of ready.stored;
        restored = add_each id all h.restored;
        applies =
            for_each-append (apply_result json id) log wrote.changes new_max_bank_join
            ∙ (ap (after (λ (_ : Unit {0}). for_each (apply_result json id) wrote.changes))
                  h.applies
                ∙ wrote.applied h.restored);
        found = gathered-add_each id all h.restored ∙ ap (λ x. x ++ all) h.found;
      } in
      let rest = rounds-Replays id rounds all (back ++ all) q log' next in
      let path : running id (rounds_of id ((r, rs) ∷ rounds)) (p, log)
          ≡ running id (rounds_of id rounds) (q, log') =
        got.same
        ∙ ap (running id (rounds_of id rounds)) (saved-Ready id all got.worker log ready) in
      subst (Replays id (all_of all rounds) (back ++ (all ++ all_so_far all rounds))) (sym path) (
        subst (λ x. Replays id (all_of all rounds) x (running id (rounds_of id rounds) (q, log')))
          (append_assoc back all (all_so_far all rounds)) rest)

  -- A client gets results, with a checkpoint that succeeds behind every round of them, and the values can
  -- be marshalled. The worker then has each result once, but a new processor to which its log is applied
  -- has, without an error, for every checkpoint all the results up to it.
  pub rounds-replayed :
      (id : Bytes) (rounds : List Round)
      → let s =
          run
            (results_checkpointable json)
            process_result
            id
            (rounds_of id rounds)
            (new_max_bank_join, []) in
        let back =
          apply_all (results_checkpointable json) process_result id s.1 new_max_bank_join in
        (gathered id s.0 ≡ all_of [] rounds)
        × (back.0 ≡ ok tt)
        × (gathered id back.1 ≡ all_so_far [] rounds)
  unfolding apply_all for_each get
  rounds-replayed id rounds =
      let h =
        rounds-Replays id rounds [] [] new_max_bank_join []
          (record { worker = refl; restored = new_max_bank_join; applies = refl; found = refl }) in
      (
        h.worker,
        ap (λ (r : Result (Unit {0}) × MaxBankJoin). r.0) h.applies,
        ap (λ (r : Result (Unit {0}) × MaxBankJoin). gathered id r.1) h.applies ∙ h.found,
      )
