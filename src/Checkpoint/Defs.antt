-- ===== src/Checkpoint/Defs.antt =====
-- checkpoint_manager.go: the manager and its operations. A run is one worker's: the mutex is not
-- modelled, since one goroutine calls the operations. The directory of a client is its log, a list of lines
-- without their newlines; to make, open or remove it are calls that may fail, as are the write of a
-- line and the sync behind it. The bytes of a write that fails are not in the log.
use tp_lavado_dinero.Prelude.{
  ℕ, suc, ◌+◌, ◌-◌, ◌%◌, Bool, true, false, Option, none, some, List, [], ◌∷◌, ◌++◌, map, Bytes,
  bytes_eq, leb, ltb, nat_beq, if◌then◌else◌, Exec, Result, ok, err, call_failed, ◌>>=◌, ◌>>◌,
  raise, modify,
}
use tp_lavado_dinero.Decimal.{u64_size}
use tp_lavado_dinero.GoMap.{Map, get, put, remove, or_empty}
use tp_lavado_dinero.Checkpoint.Line.{CheckpointChange, LogEntry, Codec, log_line}

-- The message of a batch; to ack it is what its `ack` does.
pub record Delivery : Type 0 where
  pub client_id : Bytes
  pub batch_id : Bytes
  pub tag : ℕ

-- Checkpointable, on a state of the processor's
pub record Processor (P : Type 0) : Type 0 where
  pub clear_client_state : Bytes → Exec P (Unit {0})
  pub drain_changes : Bytes → Exec P (List CheckpointChange)
  pub restore_changes : Bytes → List CheckpointChange → Exec P (Unit {0})
  pub apply_change : Bytes → CheckpointChange → Exec P (Unit {0})

-- What the manager calls of coordinator.Coordinator
pub record Coordinator (C : Type 0) : Type 0 where
  pub record_batch : Bytes → Bytes → ℕ → ℕ → Exec C (Unit {0})
  pub reached_eof_amount : Bytes → C → Bool × C

pub record Manager : Type 0 where
  pub checkpoint_every_batches : ℕ
  pub next_seq : Map Bytes ℕ
  pub batch_count : Map Bytes ℕ
  pub processed_batches : Map Bytes (Map Bytes Bool)
  pub pending_batches : Map Bytes (List Bytes)
  pub pending_acks : Map Bytes (List Delivery)
  pub eof_sent : Map Bytes Bool
  pub finalize_complete : Map Bytes Bool
  pub processed_count : Map Bytes (Map Bytes ℕ)

-- The manager with its processor, its coordinator, the logs and the messages acked so far;
-- `outcomes` says which of the file calls to come succeed, and those behind its end do.
pub record System (P C : Type 0) : Type 0 where
  pub manager : Manager
  pub processor : P
  pub coordinator : C
  pub logs : Map Bytes (List Bytes)
  pub acked : List Delivery
  pub outcomes : List Bool

-- m[k], on a map to numbers, to Booleans or to slices
abbrev pub count_of : Option ℕ → ℕ
count_of none = 0
count_of (some n) = n

abbrev pub truth_of : Option Bool → Bool
truth_of none = false
truth_of (some b) = b

abbrev pub slice_of {ℓ} : {A : Type ℓ} → Option (List A) → List A
slice_of none = []
slice_of (some xs) = xs

unfoldable pub is_processed : Manager → Bytes → Bytes → Bool
is_processed m client_id batch_id =
    truth_of (get (or_empty (get m.processed_batches client_id)) batch_id)

unfoldable pub new_manager : ℕ → Manager
new_manager every = record {
  checkpoint_every_batches = every;
  next_seq = [];
  batch_count = [];
  processed_batches = [];
  pending_batches = [];
  pending_acks = [];
  eof_sent = [];
  finalize_complete = [];
  processed_count = [];
}

module _ {P C : Type 0} (k : Codec) (p : Processor P) (c : Coordinator C) where
  abbrev pub Action : Type 0
  Action = Exec (System P C) (Unit {0})

  abbrev with_outcome : List Bool → (System P C → System P C) → Action
  with_outcome [] f s = (ok tt, f s)
  with_outcome (true ∷ os) f s = (ok tt, f (record s { outcomes = os }))
  with_outcome (false ∷ os) f s = (err call_failed, record s { outcomes = os })

  -- A call on the file system, with what it does if it succeeds.
  unfoldable pub file_call : (System P C → System P C) → Action
  file_call f s = with_outcome s.outcomes f s

  unfoldable pub by_processor {κ} : {A : Type κ} → Exec P A → Exec (System P C) A
  by_processor f s = let (r, q) = f s.processor in (r, record s { processor = q })

  unfoldable pub by_coordinator {κ} : {A : Type κ} → Exec C A → Exec (System P C) A
  by_coordinator f s = let (r, d) = f s.coordinator in (r, record s { coordinator = d })

  unfoldable pub set_checkpoint_every_batches : ℕ → System P C → System P C
  set_checkpoint_every_batches n s = record s {
    manager = record s.manager { checkpoint_every_batches = n };
  }

  abbrev pub noted : Delivery → Manager → Manager
  noted d m = record m {
    processed_batches =
        put m.processed_batches d.client_id
          (put (or_empty (get m.processed_batches d.client_id)) d.batch_id true);
    pending_batches =
        put m.pending_batches d.client_id
          (slice_of (get m.pending_batches d.client_id) ++ d.batch_id ∷ []);
    pending_acks =
        put m.pending_acks d.client_id (slice_of (get m.pending_acks d.client_id) ++ d ∷ []);
    batch_count = put m.batch_count d.client_id (suc (count_of (get m.batch_count d.client_id)));
  }

  -- Whether the batch is to be processed; there is no error.
  unfoldable pub begin_batch : Delivery → System P C → Bool × System P C
  unfolding is_processed
  begin_batch d s =
      if is_processed s.manager d.client_id d.batch_id
      then (false, record s { acked = s.acked ++ d ∷ [] })
      else (true, record s { manager = noted d s.manager })

  unfoldable pub abort_batch : Bytes → System P C → System P C
  abort_batch client_id s =
      let n : ℕ = count_of (get s.manager.batch_count client_id) in
      if ltb 0 n
      then record s {
        manager = record s.manager { batch_count = put s.manager.batch_count client_id (n - 1) };
      }
      else s

  -- AckEOF and AckCleanup
  unfoldable pub ack_now : Delivery → System P C → System P C
  ack_now d s = record s { acked = s.acked ++ d ∷ [] }

  unfoldable pub append_line : Bytes → Bytes → System P C → System P C
  append_line client_id line s = record s {
    logs = put s.logs client_id (slice_of (get s.logs client_id) ++ line ∷ []);
  }

  -- The directory and the opening are calls before the write, the sync is one behind it.
  unfoldable pub append_text : Bytes → Bytes → Action
  unfolding file_call append_line log_line
  append_text client_id text = do
    file_call (λ s. s)
    file_call (λ s. s)
    file_call (append_line client_id (log_line k text))
    file_call (λ s. s)

  unfoldable pub append_log_entry : Bytes → LogEntry → Action
  unfolding append_text
  append_log_entry client_id entry = elim (k.encode entry) [
    | none ↦ raise call_failed
    | some text ↦ append_text client_id text
  ]

  -- the loop over processedCount; the errors are dropped
  unfoldable pub record_counts : Bytes → Map Bytes ℕ → System P C → System P C
  record_counts client_id [] s = s
  record_counts client_id ((batch_id, n) ∷ m) s =
      record_counts client_id m
        (record s { coordinator = (c.record_batch client_id batch_id n 0 s.coordinator).1 })

  -- The end of `persistAndAck`, behind the log.
  unfoldable pub release : Bytes → ℕ → System P C → System P C
  release client_id seq s = record s {
    manager = record s.manager {
      next_seq = put s.manager.next_seq client_id ((seq + 1) % u64_size);
      batch_count = put s.manager.batch_count client_id 0;
      pending_batches = put s.manager.pending_batches client_id [];
      pending_acks = put s.manager.pending_acks client_id [];
      processed_count = put s.manager.processed_count client_id [];
    };
    acked = s.acked ++ slice_of (get s.manager.pending_acks client_id);
  }

  unfoldable pub entry_of : Bytes → List CheckpointChange → System P C → LogEntry
  entry_of client_id changes s = record {
    seq = count_of (get s.manager.next_seq client_id);
    batches = slice_of (get s.manager.pending_batches client_id);
    changes = changes;
    processed_counts =
        map (λ b. count_of (get (or_empty (get s.manager.processed_count client_id)) b))
          (slice_of (get s.manager.pending_batches client_id));
  }

  -- Behind `appendLogEntry`: its error gives the changes back to the processor.
  unfoldable pub settle :
      Bytes
      → ℕ
      → List CheckpointChange
      → Result (Unit {0}) × System P C
      → Result (Unit {0}) × System P C
  unfolding by_processor record_counts release
  settle client_id seq changes (err e, s) =
      (err e, (by_processor (p.restore_changes client_id changes) s).1)
  settle client_id seq changes (ok _, s) = (
    ok tt,
    release client_id seq
        (record_counts client_id (or_empty (get s.manager.processed_count client_id)) s),
  )

  unfoldable pub persist_drained : Bytes → List CheckpointChange → Action
  unfolding entry_of append_log_entry settle
  persist_drained client_id changes s =
      let entry = entry_of client_id changes s in
      settle client_id entry.seq changes (append_log_entry client_id entry s)

  unfoldable pub persist_and_ack : Bytes → Action
  unfolding by_processor persist_drained
  persist_and_ack client_id s =
      if nat_beq (count_of (get s.manager.batch_count client_id)) 0
      then (ok tt, s)
      else (by_processor (p.drain_changes client_id) >>= persist_drained client_id) s

  -- coordinator.ReachedEOFAmount(clientID), and a checkpoint if it is so
  unfoldable pub flush_pending_batches : Bytes → Action
  unfolding persist_and_ack
  flush_pending_batches client_id s =
      let (reached, d) = c.reached_eof_amount client_id s.coordinator in
      let s' = record s { coordinator = d } in
      if reached then persist_and_ack client_id s' else (ok tt, s')

  abbrev pub counted : Bytes → Bytes → ℕ → Manager → Manager
  counted client_id batch_id n m = record m {
    processed_count =
        put m.processed_count client_id
          (put (or_empty (get m.processed_count client_id)) batch_id n);
  }

  unfoldable pub commit_batch : Bytes → Bytes → ℕ → Action
  unfolding flush_pending_batches persist_and_ack
  commit_batch client_id batch_id processed_count s =
      let s' = record s { manager = counted client_id batch_id processed_count s.manager } in
      if leb s.manager.checkpoint_every_batches (count_of (get s.manager.batch_count client_id))
      then persist_and_ack client_id s'
      else flush_pending_batches client_id s'

  abbrev pub forgotten : Bytes → Manager → Manager
  forgotten client_id m = record m {
    next_seq = remove m.next_seq client_id;
    batch_count = remove m.batch_count client_id;
    processed_batches = remove m.processed_batches client_id;
    pending_batches = remove m.pending_batches client_id;
    pending_acks = remove m.pending_acks client_id;
    eof_sent = remove m.eof_sent client_id;
    finalize_complete = remove m.finalize_complete client_id;
    processed_count = remove m.processed_count client_id;
  }

  unfoldable pub clear_state : Bytes → Action
  unfolding by_processor file_call
  clear_state client_id = do
    by_processor (p.clear_client_state client_id)
    modify λ s. record s {
      manager = forgotten client_id s.manager;
      acked = s.acked ++ slice_of (get s.manager.pending_acks client_id);
    }
    file_call (λ s. record s { logs = remove s.logs client_id })
