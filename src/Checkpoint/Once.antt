-- ===== src/Checkpoint/Once.antt =====
-- checkpoint_manager.go: a batch goes to the processor at most once.
use tp_lavado_dinero.Prelude.{
  ℕ, suc, ◌+◌, ◌≤◌, ◌≡◌, refl, ap, ◌⊎◌, inl, inr, Bool, true, false, ◌&&◌, ◌||◌, List, [], ◌∷◌,
  arith, Bytes, bytes_eq, bytes_beq_iff, ◌==◌, Bool-cases, leb, Result, ok, err,
}
use tp_lavado_dinero.GoMap.{Map, get, put, remove, or_empty, get-put, get-remove}
use tp_lavado_dinero.Checkpoint.Line.{Codec}
use tp_lavado_dinero.Checkpoint.Defs.{
  Delivery, Processor, Coordinator, Manager, System, count_of, truth_of, is_processed, begin_batch,
  abort_batch, commit_batch, flush_pending_batches, persist_and_ack, file_call, by_processor,
  clear_state, counted, forgotten,
}
use tp_lavado_dinero.Checkpoint.Steps.{
  Op, begun, aborted, cleared, eof_arrived, committed, step, run, bit, hands_over, handed_over,
  clears, clears_in,
}
use tp_lavado_dinero.Checkpoint.Persisting.{Persists, persist_and_ack-Persists}

module _ {P C : Type 0} (k : Codec) (p : Processor P) (c : Coordinator C) where
  abbrev pub Seen : Type 0
  Seen = Map Bytes (Map Bytes Bool)

  abbrev seen : System P C → Seen
  seen s = s.manager.processed_batches

  Persists-seen :
      (id : Bytes) (s : System P C) (r : Result (Unit {0}) × System P C)
      → Persists k p c id s r
      → seen r.1 ≡ seen s
  Persists-seen id s r (inl h) = ap (λ (m : Manager). m.processed_batches) h.manager
  Persists-seen id s r (inr l) = elim l.then' [
    | inl (e, m, a) ↦ ap (λ (n : Manager). n.processed_batches) m
    | inr (e, m, a) ↦ ap (λ (n : Manager). n.processed_batches) m
  ]

  persist_and_ack-seen :
      (id : Bytes) (s : System P C) → seen (persist_and_ack k p c id s).1 ≡ seen s
  persist_and_ack-seen id s = Persists-seen id s _ (persist_and_ack-Persists k p c id s)

  flush_pending_batches-seen :
      (id : Bytes) (s : System P C) → seen (flush_pending_batches k p c id s).1 ≡ seen s
  unfolding flush_pending_batches
  flush_pending_batches-seen id s =
      let r = c.reached_eof_amount id s.coordinator in
      elim (Bool-cases r.0) [
        | inl yes' ↦
            rw (yes', flush_pending_batches)
              (persist_and_ack-seen id (record s { coordinator = r.1 }))
        | inr no' ↦ rw (no', flush_pending_batches) refl
      ]

  commit_batch-seen :
      (id b : Bytes) (n : ℕ) (s : System P C) → seen (commit_batch k p c id b n s).1 ≡ seen s
  unfolding commit_batch
  commit_batch-seen id b n s =
      let s' = record s { manager = counted k p c id b n s.manager } in
      elim (Bool-cases
        (leb s.manager.checkpoint_every_batches (count_of (get s.manager.batch_count id)))) [
          | inl yes' ↦ rw (yes', commit_batch) (persist_and_ack-seen id s')
          | inr no' ↦ rw (no', commit_batch) (flush_pending_batches-seen id s')
        ]

  outcome-seen :
      (os : List Bool) (f : System P C → System P C) (s : System P C)
      → s.outcomes ≡ os
      → ((t : System P C) → (f t).manager ≡ t.manager)
      → (file_call k p c f s).1.manager ≡ s.manager
  unfolding file_call
  outcome-seen [] f s e h = rw (e, file_call) (h (record s { outcomes = [] }))
  outcome-seen (true ∷ os) f s e h = rw (e, file_call) (h (record s { outcomes = os }))
  outcome-seen (false ∷ os) f s e h = rw (e, file_call) refl

  cleared_manager :
      (id : Bytes) (s : System P C) (r : Result (Unit {0}) × P)
      → p.clear_client_state id s.processor ≡ r
      → ((clear_state k p c id s).1.manager ≡ s.manager)
        ⊎ ((clear_state k p c id s).1.manager ≡ forgotten k p c id s.manager)
  unfolding clear_state by_processor
  cleared_manager id s (err x, q) e = rw e (inl refl)
  cleared_manager id s (ok _, q) e = rw e (inr (outcome-seen s.outcomes _ _ refl (λ t. refl)))

  pub clear_state-manager :
      (id : Bytes) (s : System P C)
      → ((clear_state k p c id s).1.manager ≡ s.manager)
        ⊎ ((clear_state k p c id s).1.manager ≡ forgotten k p c id s.manager)
  clear_state-manager id s = cleared_manager id s (p.clear_client_state id s.processor) refl

  abbrev processed : Seen → Bytes → Bytes → ℕ
  processed m id b = bit (truth_of (get (or_empty (get m id)) b))

  abbrev AtMost : Bytes → Bytes → Op → System P C → Type 0
  AtMost id b o s =
      bit (hands_over k p c id b o s) + processed (seen s) id b
      ≤ processed (seen (step k p c o s)) id b + clears id o

  bit_le : (b : Bool) → bit b ≤ 1
  bit_le true = omega arith
  bit_le false = omega arith

  pub noted-processed :
      (m : Seen) (j e id b : Bytes)
      → truth_of (get (or_empty (get (put m j (put (or_empty (get m j)) e true)) id)) b)
        ≡ (id == j && b == e || truth_of (get (or_empty (get m id)) b))
  noted-processed m j e id b = ground (
    arith,
    get-put m j id (put (or_empty (get m j)) e true),
    get-put (or_empty (get m j)) e b true,
    bytes_beq_iff id j,
    bytes_beq_iff j id,
    bytes_beq_iff b e,
    bytes_beq_iff e b,
  )

  removed-processed :
      (m : Seen) (j id b : Bytes) → processed m id b ≤ processed (remove m j) id b + bit (id == j)
  removed-processed m j id b =
      ground (arith, get-remove m j id, bytes_beq_iff id j, bytes_beq_iff j id)

  begun-AtMost : (id b : Bytes) (d : Delivery) (s : System P C) → AtMost id b (begun d) s
  unfolding step begin_batch is_processed
  begun-AtMost id b d s =
      let m : Seen = seen s in
      elim (Bool-cases (truth_of (get (or_empty (get m d.client_id)) d.batch_id))) [
        | inl old ↦ rw (old, begin_batch) (ground arith)
        | inr new' ↦
            rw (new', begin_batch)
              (ground (
                arith,
                noted-processed m d.client_id d.batch_id id b,
                bytes_beq_iff id d.client_id,
                bytes_beq_iff b d.batch_id,
                new',
              ))
      ]

  step-AtMost : (id b : Bytes) (o : Op) (s : System P C) → AtMost id b o s
  unfolding step begin_batch abort_batch is_processed
  step-AtMost id b (begun d) s = begun-AtMost id b d s
  step-AtMost id b (aborted j) s = ground arith
  step-AtMost id b (committed j e n) s = rw (commit_batch-seen j e n s) (omega arith)
  step-AtMost id b (eof_arrived j) s = rw (flush_pending_batches-seen j s) (omega arith)
  step-AtMost id b (cleared j) s = elim (clear_state-manager j s) [
    | inl e ↦
        let same = ap (λ (m : Manager). processed m.processed_batches id b) e in omega (arith, same)
    | inr e ↦
        let same = ap (λ (m : Manager). processed m.processed_batches id b) e in
        omega (arith, same, removed-processed (seen s) j id b)
  ]

  run-AtMost :
      (id b : Bytes) (os : List Op) (s : System P C)
      → handed_over k p c id b os s + processed (seen s) id b
        ≤ processed (seen (run k p c os s)) id b + clears_in id os
  unfolding run
  run-AtMost id b [] s = omega arith
  run-AtMost id b (o ∷ os) s =
      let first = step-AtMost id b o s in
      let later = run-AtMost id b os (step k p c o s) in omega (arith, first, later)

  -- In any run of the engine's calls a batch of a client is given to the processor at most once, and
  -- once more for each clean-up of the client, however often its message is delivered and whatever
  -- calls fail; a batch that counts as processed, not before a clean-up.
  pub run-handed_over :
      (id b : Bytes) (os : List Op) (s : System P C)
      → handed_over k p c id b os s + bit (is_processed s.manager id b) ≤ suc (clears_in id os)
  unfolding is_processed
  run-handed_over id b os s =
      let one = bit_le (truth_of (get (or_empty (get (seen (run k p c os s)) id)) b)) in
      let all = run-AtMost id b os s in omega (arith, all, one)
