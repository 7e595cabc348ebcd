-- ===== src/Coordinator/Storage/Operations.antt =====
-- batchstorage.go: the operations on the files. A write that fails leaves its file as it was.
use tp_lavado_dinero.Prelude.{ℕ, Bool, [], ◌∷◌, ◌++◌, Bytes, bytes_eq, Exec, ok, ◌>>=◌, ◌>>◌, pure}
use tp_lavado_dinero.GoMap.{Map, remove}
use tp_lavado_dinero.Coordinator.ClientState.{BatchRecord}
use tp_lavado_dinero.Coordinator.World.{World, Action, call}
use tp_lavado_dinero.Coordinator.Storage.{
  BatchLog, EofLog, load_batches, load_eofs, load_flushed, batch_line, eof_line, flushed_line,
}

unfoldable pub write_batch : Bytes → BatchRecord → Action
unfolding call
write_batch client_id r = call (λ w. record w {
  files = record w.files { batch_log = w.files.batch_log ++ batch_line client_id r };
})

unfoldable pub write_eof : Bytes → Bytes → ℕ → Action
unfolding call
write_eof client_id eof_id expected_total = call (λ w. record w {
  files = record w.files { eof_log = w.files.eof_log ++ eof_line client_id eof_id expected_total };
})

unfoldable pub write_flushed : Bytes → Action
unfolding call
write_flushed client_id = call (λ w. record w {
  files = record w.files { flushed_log = w.files.flushed_log ++ flushed_line client_id };
})

-- A call on a file that has no effect of its own: a flush of an empty buffer, or a seek.
unfoldable pub touch : Action
unfolding call
touch = call (λ w. w)

-- `LoadBatches` and `LoadEOFs` seek to the start, and scan.
unfoldable pub read_batches : Exec World BatchLog
unfolding touch
read_batches = do touch; touch; λ w. (ok (load_batches w.files.batch_log), w)

unfoldable pub read_eofs : Exec World EofLog
unfolding touch
read_eofs = do touch; touch; λ w. (ok (load_eofs w.files.eof_log), w)

unfoldable pub truncate_batches : Action
unfolding call
truncate_batches = call (λ w. record w { files = record w.files { batch_log = [] } })

unfoldable pub truncate_eofs : Action
unfolding call
truncate_eofs = call (λ w. record w { files = record w.files { eof_log = [] } })

unfoldable pub write_client_batches : Bytes → Map Bytes BatchRecord → Action
unfolding write_batch
write_client_batches client_id [] = pure tt
write_client_batches client_id ((id, r) ∷ m) = do
  write_batch client_id r
  write_client_batches client_id m

unfoldable pub write_all_batches : BatchLog → Action
unfolding write_client_batches
write_all_batches [] = pure tt
write_all_batches ((client_id, m) ∷ rest) = do
  write_client_batches client_id m
  write_all_batches rest

unfoldable pub write_client_eofs : Bytes → Map Bytes ℕ → Action
unfolding write_eof
write_client_eofs client_id [] = pure tt
write_client_eofs client_id ((id, n) ∷ m) = do
  write_eof client_id id n
  write_client_eofs client_id m

unfoldable pub write_all_eofs : EofLog → Action
unfolding write_client_eofs
write_all_eofs [] = pure tt
write_all_eofs ((client_id, m) ∷ rest) = do write_client_eofs client_id m; write_all_eofs rest

-- `BatchStorage.ClearClient`: the logs of batches and EOFs are written anew without the client; the
-- log of flushed clients stays.
unfoldable pub clear_storage : Bytes → Action
unfolding touch read_batches read_eofs truncate_batches truncate_eofs write_all_batches
    write_all_eofs
clear_storage client_id = do
  touch
  touch
  batches ← read_batches
  eofs ← read_eofs
  touch
  truncate_batches
  touch
  write_all_batches (remove batches client_id)
  touch
  truncate_eofs
  touch
  write_all_eofs (remove eofs client_id)

unfoldable pub read_flushed : Exec World (Map Bytes Bool)
unfolding touch
read_flushed = do touch; touch; λ w. (ok (load_flushed w.files.flushed_log), w)
