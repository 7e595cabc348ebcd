-- ===== src/Checkpoint/Noted.antt =====
-- checkpoint_manager.go: a manager that notes a batch, releases one or forgets a client keeps its acks
-- covered.
use tp_lavado_dinero.Prelude.{
  ◌≡◌, refl, sym, ap, ◌∙◌, subst, inl, inr, true, false, not, ◌&&◌, ◌||◌, List, [], ◌∷◌, ◌++◌,
  arith, Bytes, bytes_eq, bytes_beq_iff, ◌==◌, Bool-cases, contains, All, All-append,
}
use tp_lavado_dinero.GoMap.{get, remove, get-remove}
use tp_lavado_dinero.Checkpoint.Line.{Codec}
use tp_lavado_dinero.Checkpoint.Defs.{
  Delivery, Processor, Coordinator, Manager, slice_of, is_processed, noted, forgotten,
}
use tp_lavado_dinero.Checkpoint.Once.{noted-processed}
use tp_lavado_dinero.Checkpoint.Persisting.{released}
use tp_lavado_dinero.Checkpoint.Logged.{
  Logs, names, names_more, names-append, logged, waits, Durable, All-weaken, slice-put,
  slice-remove, acked-Durable, IsAligned, IsAligned-put, IsOwned-put, IsOwned-remove,
}

module _ {P C : Type 0} (k : Codec) (p : Processor P) (c : Coordinator C) where
  -- When a checkpoint of `j` releases its messages, the waiting ones of `j` are all in the log.
  pub released-Durable :
      (id j : Bytes) (m : Manager) (logs : Logs) (acked : List Delivery)
      → Durable k id m logs acked
      → ((b : Bytes) → (not (j == id) || not (waits k m id b) || logged k logs id b) ≡ true)
      → Durable k id (released k p c j m) logs acked
  unfolding is_processed
  released-Durable id j m logs acked h all =
      let acks' = slice-put m.pending_acks j id [] in
      record {
        aligned = IsAligned-put m.pending_batches m.pending_acks j id [] [] h.aligned (inl refl);
        owned = IsOwned-put m.pending_acks j [] h.owned tt;
        readable = h.readable;
        processed = λ b. ground (arith, h.processed b, all b, acks');
        acks = All-weaken acked h.acks (λ d v. ground (arith, v, all d.batch_id, acks'));
      }

  noted-waits :
      (id : Bytes) (d : Delivery) (m : Manager) (b : Bytes)
      → waits k (noted k p c d m) id b ≡ (waits k m id b || d.client_id == id && d.batch_id == b)
  noted-waits id d m b =
      let j : Bytes = d.client_id in
      let old : List Delivery = slice_of (get m.pending_acks j) in
      elim (Bool-cases (j == id)) [
        | inl same ↦
            let eq : j ≡ id = ground (arith, same, bytes_beq_iff j id) in
            rw (slice-put m.pending_acks j id (old ++ d ∷ []), same)
              (names_more old d b
                ∙ ap (λ x. contains (names (slice_of (get m.pending_acks x))) b || d.batch_id == b)
                    eq)
        | inr other ↦ rw (slice-put m.pending_acks j id (old ++ d ∷ []), other) (ground arith)
      ]

  noted-IsAligned :
      (id : Bytes) (d : Delivery) (m : Manager)
      → IsAligned m.pending_batches m.pending_acks id
      → IsAligned (noted k p c d m).pending_batches (noted k p c d m).pending_acks id
  noted-IsAligned id d m h =
      let j : Bytes = d.client_id in
      let old : List Delivery = slice_of (get m.pending_acks j) in
      IsAligned-put m.pending_batches m.pending_acks j id _ (old ++ d ∷ []) h
        (elim (Bool-cases (j == id)) [
          | inl same ↦
              let eq : id ≡ j = ground (arith, same, bytes_beq_iff j id) in
              inl (
                ap (λ bs. bs ++ d.batch_id ∷ [])
                  (subst (IsAligned m.pending_batches m.pending_acks) eq h)
                ∙ sym (names-append old (d ∷ [])))
          | inr other ↦ inr other
        ])

  pub noted-Durable :
      (id : Bytes) (d : Delivery) (m : Manager) (logs : Logs) (acked : List Delivery)
      → Durable k id m logs acked
      → Durable k id (noted k p c d m) logs acked
  unfolding is_processed
  noted-Durable id d m logs acked h =
      let j : Bytes = d.client_id in
      let old : List Delivery = slice_of (get m.pending_acks j) in
      record {
        aligned = noted-IsAligned id d m h.aligned;
        owned =
            IsOwned-put m.pending_acks j (old ++ d ∷ []) h.owned
              (All-append _ old (d ∷ []) (h.owned j) ((bytes_beq_iff j j).1 refl, tt));
        readable = h.readable;
        processed = λ b. ground (
          arith,
          h.processed b,
          noted-processed k p c m.processed_batches j d.batch_id id b,
          noted-waits id d m b,
          bytes_beq_iff id j,
          bytes_beq_iff j id,
          bytes_beq_iff b d.batch_id,
          bytes_beq_iff d.batch_id b,
        );
        acks = All-weaken acked h.acks (λ x v. ground (arith, v, noted-waits id d m x.batch_id));
      }

  -- to forget another client
  pub forgotten-Durable :
      (id j : Bytes) (m : Manager) (logs : Logs) (acked : List Delivery)
      → (j == id) ≡ false
      → Durable k id m logs acked
      → Durable k id (forgotten k p c j m) logs acked
  unfolding is_processed
  forgotten-Durable id j m logs acked other h =
      let acks' = slice-remove m.pending_acks j id in
      record {
        aligned = rw (slice-remove m.pending_batches j id, acks', other) h.aligned;
        owned = IsOwned-remove m.pending_acks j h.owned;
        readable = h.readable;
        processed =
            λ b. ground (arith, h.processed b, acks', get-remove m.processed_batches j id, other);
        acks = All-weaken acked h.acks (λ d v. ground (arith, v, acks', other));
      }

  -- to remove another client's log
  pub removed-Durable :
      (id j : Bytes) (m : Manager) (logs : Logs) (acked : List Delivery)
      → (j == id) ≡ false
      → Durable k id m logs acked
      → Durable k id m (remove logs j) acked
  removed-Durable id j m logs acked other h =
      let lines = slice-remove logs j id in
      record {
        aligned = h.aligned;
        owned = h.owned;
        readable = rw (lines, other) h.readable;
        processed = λ b. rw (lines, other) (h.processed b);
        acks = rw (lines, other) h.acks;
      }

  -- Messages of another client are acked.
  pub others-Durable :
      (id j : Bytes) (m : Manager) (logs : Logs) (acked ds : List Delivery)
      → (j == id) ≡ false
      → All (λ d. (j == d.client_id) ≡ true) ds
      → Durable k id m logs acked
      → Durable k id m logs (acked ++ ds)
  others-Durable id j m logs acked ds other own h = acked-Durable k id m logs acked ds h (
      All-weaken ds own (λ d v. ground (
        arith,
        v,
        other,
        bytes_beq_iff j d.client_id,
        bytes_beq_iff id d.client_id,
        bytes_beq_iff j id,
      )))
