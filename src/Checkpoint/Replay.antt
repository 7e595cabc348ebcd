-- ===== src/Checkpoint/Replay.antt =====
-- checkpoint_manager.go: `LoadState`, which replays the logs of the clients.
use tp_lavado_dinero.Prelude.{
  ℕ, ◌+◌, ◌%◌, Bool, true, Option, none, some, List, [], ◌∷◌, ◌++◌, Bytes, bytes_eq, ◌==◌,
  if◌then◌else◌, Exec, ok, err, index_out_of_range, ◌>>=◌, ◌>>◌, pure, modify,
}
use tp_lavado_dinero.Decimal.{u64_size}
use tp_lavado_dinero.GoMap.{Map, get, put}
use tp_lavado_dinero.Checkpoint.Line.{CheckpointChange, LogEntry, Codec, parse_log_line}
use tp_lavado_dinero.Checkpoint.Defs.{
  Processor, Coordinator, System, file_call, by_processor, by_coordinator,
}

abbrev pub eof_sent_kind : Bytes
eof_sent_kind = b'e' ∷ b'o' ∷ b'f' ∷ b'S' ∷ b'e' ∷ b'n' ∷ b't' ∷ []

abbrev pub finalize_complete_kind : Bytes
finalize_complete_kind =
    b'f' ∷ b'i' ∷ b'n' ∷ b'a' ∷ b'l' ∷ b'i' ∷ b'z' ∷ b'e' ∷ b'C' ∷ b'o' ∷ b'm' ∷ b'p' ∷ b'l' ∷ b'e'
    ∷ b't' ∷ b'e' ∷ []

-- entry.Batches with entry.ProcessedCounts[i], which panics behind the end of the counts
unfoldable pub with_counts : List Bytes → List ℕ → Option (List (Bytes × ℕ))
with_counts [] counts = some []
with_counts (b ∷ bs) [] = none
with_counts (b ∷ bs) (n ∷ counts) = elim (with_counts bs counts) [
  | none ↦ none
  | some rest ↦ some ((b, n) ∷ rest)
]

-- What the loop over the lines has gathered
pub record Replay : Type 0 where
  pub batches : Map Bytes Bool
  pub restored : List (Bytes × ℕ)
  pub last_seq : ℕ

unfoldable pub mark_batches : List Bytes → Map Bytes Bool → Map Bytes Bool
mark_batches [] m = m
mark_batches (b ∷ bs) m = mark_batches bs (put m b true)

module _ {P C : Type 0} (k : Codec) (p : Processor P) (c : Coordinator C) where
  abbrev Action : Type 0
  Action = Exec (System P C) (Unit {0})

  unfoldable pub apply_change : Bytes → CheckpointChange → Action
  unfolding by_processor
  apply_change client_id change =
      if eof_sent_kind == change.kind
      then modify (λ s. record s {
        manager = record s.manager { eof_sent = put s.manager.eof_sent client_id true };
      })
      else if finalize_complete_kind == change.kind
      then modify (λ s. record s {
        manager = record s.manager {
          finalize_complete = put s.manager.finalize_complete client_id true;
        };
      })
      else by_processor k p c (p.apply_change client_id change)

  unfoldable pub apply_changes : Bytes → List CheckpointChange → Action
  unfolding apply_change
  apply_changes client_id [] = pure tt
  apply_changes client_id (x ∷ xs) = do apply_change client_id x; apply_changes client_id xs

  -- One entry of the log
  unfoldable pub replay_entry : Bytes → LogEntry → Replay → Exec (System P C) Replay
  unfolding apply_changes with_counts mark_batches
  replay_entry client_id entry r = do
    apply_changes client_id entry.changes
    λ s. elim (with_counts entry.batches entry.processed_counts) [
      | none ↦ (err index_out_of_range, s)
      | some pairs ↦ (
        ok (record {
          batches = mark_batches entry.batches r.batches;
          restored = r.restored ++ pairs;
          last_seq = entry.seq;
        }),
        s,
      )
    ]

  -- The loop over the lines; a line that is not taken ends it.
  unfoldable pub replay_lines : Bytes → List Bytes → Replay → Exec (System P C) Replay
  unfolding replay_entry parse_log_line
  replay_lines client_id [] r = pure r
  replay_lines client_id (line ∷ lines) r = elim (parse_log_line k line) [
    | none ↦ pure r
    | some entry ↦ replay_entry client_id entry r >>= replay_lines client_id lines
  ]

  unfoldable pub record_restored : Bytes → List (Bytes × ℕ) → Action
  unfolding by_coordinator
  record_restored client_id [] = pure tt
  record_restored client_id ((batch_id, n) ∷ rest) = do
    by_coordinator k p c (c.record_batch client_id batch_id n 0)
    record_restored client_id rest

  unfoldable pub install : Bytes → Replay → System P C → System P C
  install client_id r s = record s {
    manager = record s.manager {
      processed_batches = put s.manager.processed_batches client_id r.batches;
      next_seq = put s.manager.next_seq client_id ((r.last_seq + 1) % u64_size);
      batch_count = put s.manager.batch_count client_id 0;
      pending_batches = put s.manager.pending_batches client_id [];
      pending_acks = put s.manager.pending_acks client_id [];
    };
  }

  unfoldable pub load_log : Bytes → List Bytes → Action
  unfolding replay_lines record_restored install
  load_log client_id lines = do
    r ← replay_lines client_id lines (record { batches = []; restored = []; last_seq = 0 })
    record_restored client_id r.restored
    modify (install client_id r)

  -- A client without a log is passed over; to open and to scan are calls.
  unfoldable pub load_client_state : Bytes → Action
  unfolding file_call load_log
  load_client_state client_id s = elim (get s.logs client_id) [
    | none ↦ (ok tt, s)
    | some lines ↦
        (do file_call k p c (λ s. s); file_call k p c (λ s. s); load_log client_id lines) s
  ]

  unfoldable pub load_clients : List Bytes → Action
  unfolding load_client_state
  load_clients [] = pure tt
  load_clients (client_id ∷ clients) = do load_client_state client_id; load_clients clients

  -- `LoadState`: the directory is made and read, and `clients` are those that it lists.
  unfoldable pub load_state : List Bytes → Action
  unfolding file_call load_clients
  load_state clients = do file_call k p c (λ s. s); file_call k p c (λ s. s); load_clients clients
