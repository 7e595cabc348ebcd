-- ===== src/Coordinator/Protocol/Defs.antt =====
-- eofcoordinator.go: the operations and the handlers. Each runs under the coordinator's mutex, so it
-- is one step of the state; logging is left out.
use tp_lavado_dinero.Prelude.{
  ℕ, ◌%◌, Bool, true, false, ◌||◌, Option, none, some, List, [], ◌∷◌, Bytes, bytes_eq,
  if◌then◌else◌, Exec, Result, ok, err, ◌>>=◌, ◌>>◌, pure, modify,
}
use tp_lavado_dinero.GoMap.{Map, put, remove}
use tp_lavado_dinero.Coordinator.ClientState.{
  BatchRecord, ClientState, u32_size, has_own_batch, add_own_batch, add_peer_batch, has_own_eof,
  has_peer_eof, add_own_eof, add_peer_eof, totals, has_all_eofs, is_ready_to_flush,
}
use tp_lavado_dinero.Coordinator.World.{
  Kind, wakeup, eof_arrived, batch_information, cleanup, unknown, BatchInformation, Message, blank,
  World, Action, when, set_client,
}
use tp_lavado_dinero.Coordinator.Storage.Operations.{
  write_batch, write_eof, write_flushed, clear_storage,
}
use tp_lavado_dinero.Coordinator.Protocol.Sending.{
  Config, worker_key, get_client_state, is_cleaned, transform_batch_to_proto, record_of,
  call_flush_handler, broadcast, broadcast_batch, broadcast_eof, send_eof, response_to_wake_up,
  send_records, broadcast_own_batches,
}

-- the loop over the batches of a message
unfoldable pub add_peer_batches : ℕ → List BatchInformation → ClientState → ClientState
unfolding record_of
add_peer_batches peer_id [] cs = cs
add_peer_batches peer_id (i ∷ is) cs =
    add_peer_batches peer_id is
      (if has_own_batch cs i.batch_id then cs else add_peer_batch cs peer_id (record_of i))

module _ (c : Config) where
  unfoldable pub try_flush : Bytes → ClientState → Action
  unfolding call_flush_handler write_flushed set_client
  try_flush client_id cs =
      if is_ready_to_flush cs c.expected_eofs
      then (do
        call_flush_handler client_id (totals cs).1 cs.last_eof_id
        modify (set_client client_id (record cs { flushed = true }))
        write_flushed client_id)
      else pure tt

  unfoldable pub has_seen_batch : Bytes → Bytes → Exec World Bool
  unfolding get_client_state
  has_seen_batch client_id batch_id = do
    cs ← get_client_state client_id
    pure (has_own_batch cs batch_id)

  unfoldable pub reached_eof_amount : Bytes → Exec World Bool
  unfolding get_client_state
  reached_eof_amount client_id = do
    cs ← get_client_state client_id
    pure (has_all_eofs cs c.expected_eofs)

  -- `RecordBatch` of a batch that the worker does not have; `cs` is the state of its client.
  unfoldable pub record_new_batch : Bytes → ClientState → BatchRecord → Action
  unfolding broadcast_batch transform_batch_to_proto write_batch set_client try_flush
  record_new_batch client_id cs r = do
    when (has_all_eofs cs c.expected_eofs)
        (broadcast_batch c (transform_batch_to_proto r ∷ []) client_id)
    write_batch client_id r
    modify (set_client client_id (add_own_batch cs r))
    try_flush client_id (add_own_batch cs r)

  unfoldable pub record_batch : Bytes → Bytes → ℕ → ℕ → Action
  unfolding get_client_state record_new_batch
  record_batch client_id batch_id processed survivors = do
    cs ← get_client_state client_id
    if has_own_batch cs batch_id
        then pure tt
        else record_new_batch client_id cs
            (record { batch_id = batch_id; processed = processed; survivors = survivors })

  -- What `HandleLocalEOF` and `handleRemoteEOF` do when they have noted a new EOF in `cs`.
  unfoldable pub share_and_flush : Bytes → ClientState → Action
  unfolding broadcast_own_batches try_flush
  share_and_flush client_id cs = do
    when (has_all_eofs cs c.expected_eofs) (broadcast_own_batches c client_id cs)
    try_flush client_id cs

  unfoldable pub note_local_eof : Bytes → ClientState → ℕ → Bytes → Action
  unfolding write_eof set_client broadcast_eof share_and_flush
  note_local_eof client_id cs expected_total eof_id = do
    write_eof client_id eof_id expected_total
    modify (set_client client_id (add_own_eof cs eof_id expected_total))
    broadcast_eof c client_id eof_id expected_total
    share_and_flush client_id (add_own_eof cs eof_id expected_total)

  unfoldable pub handle_local_eof : Bytes → ℕ → Bytes → Action
  unfolding get_client_state note_local_eof
  handle_local_eof client_id expected_total eof_id = do
    cs ← get_client_state client_id
    if has_own_eof cs eof_id then pure tt else note_local_eof client_id cs expected_total eof_id

  unfoldable pub note_remote_eof : ClientState → Message → Action
  unfolding set_client share_and_flush
  note_remote_eof cs msg = do
    modify (set_client msg.client_id (add_peer_eof cs msg.sender_id msg.eof_id msg.expected_total))
    share_and_flush msg.client_id (add_peer_eof cs msg.sender_id msg.eof_id msg.expected_total)

  unfoldable pub handle_remote_eof : Message → Action
  unfolding get_client_state note_remote_eof
  handle_remote_eof msg = do
    cs ← get_client_state msg.client_id
    cleaned ← λ w. (ok (is_cleaned w msg.client_id), w)
    if cleaned || has_peer_eof cs msg.sender_id msg.eof_id then pure tt else note_remote_eof cs msg

  unfoldable pub note_remote_batches : ClientState → Message → Action
  unfolding set_client add_peer_batches try_flush
  note_remote_batches cs msg = do
    modify (set_client msg.client_id (add_peer_batches msg.sender_id msg.information cs))
    try_flush msg.client_id (add_peer_batches msg.sender_id msg.information cs)

  unfoldable pub handle_remote_batch : Message → Action
  unfolding get_client_state note_remote_batches
  handle_remote_batch msg w =
      if is_cleaned w msg.client_id
      then (ok tt, w)
      else (do cs ← get_client_state msg.client_id; note_remote_batches cs msg) w

  unfoldable pub send_eofs : Bytes → Bytes → Map Bytes ℕ → Action
  unfolding send_eof
  send_eofs key client_id [] = pure tt
  send_eofs key client_id ((eof_id, n) ∷ m) = do
    send_eof c key client_id eof_id n
    send_eofs key client_id m

  -- what a woken peer is told of one client
  unfoldable pub tell_client : Bytes → Bytes → ClientState → Action
  unfolding send_eofs send_records response_to_wake_up
  tell_client key client_id cs = do
    send_eofs key client_id cs.own_eofs
    when (has_all_eofs cs c.expected_eofs)
        (send_records c (λ items _. response_to_wake_up c items client_id key) cs.own_batches)

  unfoldable pub tell_clients : Bytes → Map Bytes ClientState → Action
  unfolding tell_client
  tell_clients key [] = pure tt
  tell_clients key ((client_id, cs) ∷ m) = do tell_client key client_id cs; tell_clients key m

  unfoldable pub handle_wake_up : Message → Action
  unfolding worker_key tell_clients
  handle_wake_up msg w = tell_clients (worker_key c.worker_name msg.sender_id) w.clients w

  unfoldable pub clear_client : Bytes → Action
  unfolding clear_storage
  clear_client client_id = do
    modify λ w. record w {
      cleaned_clients = put w.cleaned_clients client_id true;
      clients = remove w.clients client_id;
    }
    clear_storage client_id

  unfoldable pub broadcast_cleanup : Bytes → Action
  unfolding broadcast
  broadcast_cleanup client_id =
      broadcast c
        (record blank { kind = cleanup; client_id = client_id; sender_id = c.worker_id % u32_size })

  -- The error of `ClearClient` is dropped.
  unfoldable pub handle_remote_cleanup : Message → Action
  unfolding clear_client
  handle_remote_cleanup msg w =
      if is_cleaned w msg.client_id then (ok tt, w) else (ok tt, (clear_client msg.client_id w).1)

  unfoldable pub dispatch : Kind → Message → Action
  unfolding handle_wake_up handle_remote_eof handle_remote_batch handle_remote_cleanup
  dispatch wakeup = handle_wake_up
  dispatch eof_arrived = handle_remote_eof
  dispatch batch_information = handle_remote_batch
  dispatch cleanup = handle_remote_cleanup
  dispatch unknown = λ msg. pure tt

  abbrev acked : Result (Unit {0}) → Bool
  acked (ok _) = true
  acked (err _) = false

  -- Whether a message is acked, and the state behind it; `none` is a message that cannot be read.
  unfoldable pub handle_coordination_message : Option Message → World → Bool × World
  unfolding dispatch
  handle_coordination_message none w = (false, w)
  handle_coordination_message (some msg) w = let (r, w') = dispatch msg.kind msg w in (acked r, w')
