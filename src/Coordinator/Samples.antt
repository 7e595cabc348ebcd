-- ===== src/Coordinator/Samples.antt =====
-- Worker 0 of two workers, a client `c`, two batches `x` and `y` and two EOFs `e` and `f`.
use tp_lavado_dinero.Prelude.{
  ℕ, suc, ◌+◌, ◌%◌, ◌≤◌, ◌≡◌, refl, inl, true, false, some, List, [], ◌∷◌, ◌++◌, arith, Bytes,
  bytes_eq, bytes_beq, ◌==◌, if◌then◌else◌, contains, total, Subset, SameSet,
}
use tp_lavado_dinero.Decimal.{u64_size, parse_uint, format_uint, parse_uint-format_uint}
use tp_lavado_dinero.GoMap.{get, put, keys}
use tp_lavado_dinero.Coordinator.ClientState.{
  BatchRecord, ClientState, u32_size, totals, eof_totals, is_ready_to_flush, get_last_eof_id,
  add_own_eof, add_peer_eof, new_client_state, peer_keys, tally_own, tally_peers, tally_peer,
  count_record, copy_eofs, merge_peer_eofs, merge_eofs, sum_eofs, has_all_eofs,
}
use tp_lavado_dinero.Coordinator.ClientState.Totals.{batch_ids, totals_once}
use tp_lavado_dinero.Coordinator.ClientState.Counting.{records, merged, processed_of, survivors_of}
use tp_lavado_dinero.Coordinator.ClientState.Eofs.{eof_ids, eof_totals_once}
use tp_lavado_dinero.Coordinator.ClientState.Barrier.{Upstream, Honest, ready-Subset}
use tp_lavado_dinero.Coordinator.ClientState.Sorting.{
  IsGreatest, add_eof-IsGreatest, last_eof_id-SameSet,
}
use tp_lavado_dinero.Coordinator.World.{World, Files, Message, cleanup, batch_information, blank}
use tp_lavado_dinero.Coordinator.Storage.{
  insert, load_batches, load_eofs, load_flushed, batch_line, eof_line, flushed_line,
}
use tp_lavado_dinero.Coordinator.Storage.RoundTrip.{
  IsPlain, load_batches-batch_line, load_eofs-eof_line, load_flushed-flushed_line,
}
use tp_lavado_dinero.Coordinator.Protocol.{
  Config, client_of, Op, batch_recorded, eof_handled, delivered, run, clears_in, flush_count,
  record_batch, handle_local_eof, handle_remote_eof, handle_remote_batch, restore_from_storage,
}
use tp_lavado_dinero.Coordinator.Protocol.Flushing.{Change}
use tp_lavado_dinero.Coordinator.Protocol.Once.{
  record_batch-Change, handle_local_eof-Change, handle_remote_eof-Change,
  handle_remote_batch-Change,
}
use tp_lavado_dinero.Coordinator.Protocol.Calm.{Calm, run-Calm}
use tp_lavado_dinero.Coordinator.Protocol.Settling.{Settled}
use tp_lavado_dinero.Coordinator.Protocol.Settled.{
  record_batch-Settled, handle_local_eof-Settled, handle_remote_eof-Settled,
  handle_remote_batch-Settled,
}
use tp_lavado_dinero.Coordinator.Protocol.Lifetime.{mark, run-flush_count}
use tp_lavado_dinero.Coordinator.Protocol.Recovery.{started_on, Recovered, restore-Recovered}
mod Barrier
mod Life
mod Logs
mod Restart

abbrev pub client : Bytes
client = b'c' ∷ []

abbrev pub x : Bytes
x = b'x' ∷ []

abbrev pub y : Bytes
y = b'y' ∷ []

abbrev pub e : Bytes
e = b'e' ∷ []

abbrev pub f : Bytes
f = b'f' ∷ []

abbrev pub record_x : BatchRecord
record_x = record { batch_id = x; processed = 2; survivors = 1 }

abbrev pub record_y : BatchRecord
record_y = record { batch_id = y; processed = 3; survivors = 2 }

abbrev pub config : Config
config = record {
  worker_id = 0;
  worker_name = b'w' ∷ [];
  expected_eofs = 1;
  publish_keys = (b'w' ∷ b'.' ∷ b'1' ∷ []) ∷ [];
  inner_batch_weight = 100;
  size = λ i. 10;
}

abbrev pub no_files : Files
no_files = record { batch_log = []; eof_log = []; flushed_log = [] }

abbrev pub start : World
start = started_on no_files
