-- ===== src/Coordinator/Protocol/Restore.antt =====
-- eofcoordinator.go: `restoreFromStorage`, which builds the clients anew from the logs.
use tp_lavado_dinero.Prelude.{ℕ, Bool, true, [], ◌∷◌, Bytes, bytes_eq, ◌>>=◌, ◌>>◌, modify}
use tp_lavado_dinero.GoMap.{Map}
use tp_lavado_dinero.Coordinator.ClientState.{BatchRecord, ClientState, add_own_batch, add_own_eof}
use tp_lavado_dinero.Coordinator.World.{World, Action, set_client}
use tp_lavado_dinero.Coordinator.Storage.{BatchLog, EofLog}
use tp_lavado_dinero.Coordinator.Storage.Operations.{read_batches, read_eofs, read_flushed}
use tp_lavado_dinero.Coordinator.Protocol.Sending.{client_of}

unfoldable pub restore_client_batches : Map Bytes BatchRecord → ClientState → ClientState
unfolding add_own_batch
restore_client_batches [] cs = cs
restore_client_batches ((id, r) ∷ m) cs = restore_client_batches m (add_own_batch cs r)

unfoldable pub restore_batches : BatchLog → World → World
unfolding restore_client_batches client_of set_client
restore_batches [] w = w
restore_batches ((client_id, m) ∷ log) w =
    restore_batches log (set_client client_id (restore_client_batches m (client_of w client_id)) w)

unfoldable pub restore_client_eofs : Map Bytes ℕ → ClientState → ClientState
unfolding add_own_eof
restore_client_eofs [] cs = cs
restore_client_eofs ((eof_id, n) ∷ m) cs = restore_client_eofs m (add_own_eof cs eof_id n)

unfoldable pub restore_eofs : EofLog → World → World
unfolding restore_client_eofs client_of set_client
restore_eofs [] w = w
restore_eofs ((client_id, m) ∷ log) w =
    restore_eofs log (set_client client_id (restore_client_eofs m (client_of w client_id)) w)

unfoldable pub restore_flushed : Map Bytes Bool → World → World
unfolding client_of set_client
restore_flushed [] w = w
restore_flushed ((client_id, b) ∷ log) w =
    restore_flushed log (set_client client_id (record (client_of w client_id) { flushed = true }) w)

unfoldable pub restore_from_storage : Action
unfolding read_batches read_eofs read_flushed restore_batches restore_eofs restore_flushed
restore_from_storage = do
  batches ← read_batches
  eofs ← read_eofs
  flushed ← read_flushed
  modify (restore_batches batches)
  modify (restore_eofs eofs)
  modify (restore_flushed flushed)
