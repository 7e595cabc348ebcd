-- ===== src/Checkpoint/Durable.antt =====
-- checkpoint_manager.go: what has been acked is in the log, or waits to be written.
use tp_lavado_dinero.Prelude.{
  ℕ, ◌≡◌, refl, sym, ap, ◌∙◌, inl, inr, Bool, true, false, not, ◌||◌, List, [], ◌∷◌, ◌++◌, arith,
  Bytes, bytes_eq, bytes_beq_iff, ◌==◌, Bool-cases, leb, ltb, Result, ok, err,
}
use tp_lavado_dinero.GoMap.{get, remove}
use tp_lavado_dinero.Checkpoint.Line.{Codec}
use tp_lavado_dinero.Checkpoint.Defs.{
  Delivery, Processor, Coordinator, System, count_of, slice_of, is_processed, begin_batch,
  abort_batch, commit_batch, flush_pending_batches, file_call, by_processor, clear_state, counted,
}
use tp_lavado_dinero.Checkpoint.Noted.{
  noted-Durable, forgotten-Durable, removed-Durable, others-Durable,
}
use tp_lavado_dinero.Checkpoint.Logged.{logged, waits, acked-Durable}
use tp_lavado_dinero.Checkpoint.Covered.{Covered, persist_and_ack-Covered}

module _ {P C : Type 0} (k : Codec) (p : Processor P) (c : Coordinator C) where
  pub flush_pending_batches-Covered :
      (id j : Bytes) (s : System P C)
      → Covered k p c id s
      → Covered k p c id (flush_pending_batches k p c j s).1
  unfolding flush_pending_batches
  flush_pending_batches-Covered id j s g =
      let r = c.reached_eof_amount j s.coordinator in
      elim (Bool-cases r.0) [
        | inl yes' ↦
            rw (yes', flush_pending_batches)
              (persist_and_ack-Covered k p c id j (record s { coordinator = r.1 }) g)
        | inr no' ↦ rw (no', flush_pending_batches) g
      ]

  counted-Covered :
      (id j b : Bytes) (n : ℕ) (s : System P C)
      → Covered k p c id s
      → Covered k p c id (record s { manager = counted k p c j b n s.manager })
  unfolding is_processed
  counted-Covered id j b n s g = record {
    aligned = g.aligned;
    owned = g.owned;
    readable = g.readable;
    processed = g.processed;
    acks = g.acks;
  }

  pub commit_batch-Covered :
      (id j b : Bytes) (n : ℕ) (s : System P C)
      → Covered k p c id s
      → Covered k p c id (commit_batch k p c j b n s).1
  unfolding commit_batch
  commit_batch-Covered id j b n s g =
      let s' = record s { manager = counted k p c j b n s.manager } in
      let g' = counted-Covered id j b n s g in
      elim (Bool-cases
        (leb s.manager.checkpoint_every_batches (count_of (get s.manager.batch_count j)))) [
          | inl yes' ↦ rw (yes', commit_batch) (persist_and_ack-Covered k p c id j s' g')
          | inr no' ↦ rw (no', commit_batch) (flush_pending_batches-Covered id j s' g')
        ]

  already :
      (id : Bytes) (d : Delivery) (s : System P C)
      → is_processed s.manager d.client_id d.batch_id ≡ true
      → Covered k p c id s
      → (not (id == d.client_id)
          || logged k s.logs id d.batch_id
          || waits k s.manager id d.batch_id)
        ≡ true
  already id d s old g = elim (Bool-cases (id == d.client_id)) [
    | inl same ↦
        let eq : d.client_id ≡ id = ground (arith, same, bytes_beq_iff id d.client_id) in
        let mine = ap (λ x. is_processed s.manager x d.batch_id) (sym eq) ∙ old in
        ground (arith, mine, g.processed d.batch_id)
    | inr other ↦ ground (arith, other)
  ]

  pub begin_batch-Covered :
      (id : Bytes) (d : Delivery) (s : System P C)
      → Covered k p c id s
      → Covered k p c id (begin_batch k p c d s).1
  unfolding begin_batch
  begin_batch-Covered id d s g = elim (Bool-cases (is_processed s.manager d.client_id d.batch_id)) [
    | inl old ↦
        rw (old, begin_batch)
          (acked-Durable k id s.manager s.logs s.acked (d ∷ []) g (already id d s old g, tt))
    | inr new' ↦ rw (new', begin_batch) (noted-Durable k p c id d s.manager s.logs s.acked g)
  ]

  pub abort_batch-Covered :
      (id j : Bytes) (s : System P C)
      → Covered k p c id s
      → Covered k p c id (abort_batch k p c j s)
  unfolding abort_batch is_processed
  abort_batch-Covered id j s g =
      elim (Bool-cases (ltb 0 (count_of (get s.manager.batch_count j)))) [
        | inl some' ↦
            rw (some', abort_batch)
              (record {
                aligned = g.aligned;
                owned = g.owned;
                readable = g.readable;
                processed = g.processed;
                acks = g.acks;
              })
        | inr none' ↦ rw (none', abort_batch) g
      ]

  removal-Covered :
      (os : List Bool) (id j : Bytes) (s : System P C)
      → s.outcomes ≡ os
      → (j == id) ≡ false
      → Covered k p c id s
      → Covered k p c id
          (file_call k p c (λ (t : System P C). record t { logs = remove t.logs j }) s).1
  unfolding file_call
  removal-Covered [] id j s e other g =
      rw (e, file_call) (removed-Durable k p c id j s.manager s.logs s.acked other g)
  removal-Covered (true ∷ os) id j s e other g =
      rw (e, file_call) (removed-Durable k p c id j s.manager s.logs s.acked other g)
  removal-Covered (false ∷ os) id j s e other g = rw (e, file_call) g

  pub cleared-Covered :
      (id j : Bytes) (s : System P C) (r : Result (Unit {0}) × P)
      → p.clear_client_state j s.processor ≡ r
      → (j == id) ≡ false
      → Covered k p c id s
      → Covered k p c id (clear_state k p c j s).1
  unfolding clear_state by_processor
  cleared-Covered id j s (err x, q) e other g = rw e g
  cleared-Covered id j s (ok _, q) e other g =
      let ds : List Delivery = slice_of (get s.manager.pending_acks j) in
      let g' = others-Durable k p c id j s.manager s.logs s.acked ds other (g.owned j) g in
      rw e (
        removal-Covered s.outcomes id j _ refl other
          (forgotten-Durable k p c id j s.manager s.logs (s.acked ++ ds) other g'))
