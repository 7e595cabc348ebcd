-- ===== src/Checkpoint/Aborted.antt =====
-- checkpoint_manager.go: `AbortBatch` takes back the count of a batch, but not the mark that the batch
-- is processed.
use tp_lavado_dinero.Prelude.{
  ℕ, ◌≡◌, refl, ap, ◌∙◌, inl, inr, Bool, true, false, [], ◌∷◌, ◌++◌, arith, Bytes, bytes_eq,
  bytes_beq_iff, Bool-cases, ltb,
}
use tp_lavado_dinero.GoMap.{get}
use tp_lavado_dinero.Checkpoint.Line.{Codec}
use tp_lavado_dinero.Checkpoint.Defs.{
  Delivery, Processor, Coordinator, Manager, System, count_of, is_processed, noted, begin_batch,
  abort_batch,
}
use tp_lavado_dinero.Checkpoint.Once.{noted-processed}

module _ {P C : Type 0} (k : Codec) (p : Processor P) (c : Coordinator C) where
  begin_batch-noted :
      (d : Delivery) (s : System P C)
      → is_processed s.manager d.client_id d.batch_id ≡ false
      → begin_batch k p c d s ≡ (true, record s { manager = noted k p c d s.manager })
  unfolding begin_batch
  begin_batch-noted d s new' = rw (new', begin_batch) refl

  begin_batch-acked :
      (d : Delivery) (s : System P C)
      → is_processed s.manager d.client_id d.batch_id ≡ true
      → begin_batch k p c d s ≡ (false, record s { acked = s.acked ++ d ∷ [] })
  unfolding begin_batch
  begin_batch-acked d s old = rw (old, begin_batch) refl

  abort_batch-processed :
      (j id b : Bytes) (s : System P C)
      → (is_processed (abort_batch k p c j s).manager id b ≡ is_processed s.manager id b)
        × ((abort_batch k p c j s).acked ≡ s.acked)
  unfolding abort_batch is_processed
  abort_batch-processed j id b s =
      elim (Bool-cases (ltb 0 (count_of (get s.manager.batch_count j)))) [
        | inl some' ↦ rw (some', abort_batch) (refl, refl)
        | inr none' ↦ rw (none', abort_batch) (refl, refl)
      ]

  noted-IsProcessed :
      (d : Delivery) (m : Manager) → is_processed (noted k p c d m) d.client_id d.batch_id ≡ true
  unfolding is_processed
  noted-IsProcessed d m = ground (
    arith,
    noted-processed k p c m.processed_batches d.client_id d.batch_id d.client_id d.batch_id,
    bytes_beq_iff d.client_id d.client_id,
    bytes_beq_iff d.batch_id d.batch_id,
  )

  -- A batch that is begun and aborted, since the processor failed, is not processed when its message
  -- comes again: `BeginBatch` says no, and acks the message.
  pub begin_batch-abort_batch :
      (d : Delivery) (tag : ℕ) (s : System P C)
      → is_processed s.manager d.client_id d.batch_id ≡ false
      → let again = record d { tag = tag } in
        let s' = abort_batch k p c d.client_id (begin_batch k p c d s).1 in
        ((begin_batch k p c again s').0 ≡ false)
        × ((begin_batch k p c again s').1.acked ≡ s.acked ++ again ∷ [])
  begin_batch-abort_batch d tag s new' =
      let again = record d { tag = tag } in
      let t : System P C = (begin_batch k p c d s).1 in
      let begun' = ap (λ (r : Bool × System P C). r.1) (begin_batch-noted d s new') in
      let (kept, acks) = abort_batch-processed d.client_id d.client_id d.batch_id t in
      let marked : is_processed (abort_batch k p c d.client_id t).manager d.client_id d.batch_id
          ≡ true =
        kept
        ∙ ap (λ (u : System P C). is_processed u.manager d.client_id d.batch_id) begun'
        ∙ noted-IsProcessed d s.manager in
      let e = begin_batch-acked again (abort_batch k p c d.client_id t) marked in
      (
        ap (λ (r : Bool × System P C). r.0) e,
        ap (λ (r : Bool × System P C). r.1.acked) e
            ∙ ap (λ ds. ds ++ again ∷ []) (acks ∙ ap (λ (u : System P C). u.acked) begun'),
      )
