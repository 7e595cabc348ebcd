-- ===== src/Coordinator/Protocol/Settled.antt =====
-- Where no call fails, an operation of the coordinator leaves no client that is ready and not flushed.
use tp_lavado_dinero.Prelude.{
  ℕ, ◌≡◌, refl, inl, inr, true, false, ◌||◌, [], Bytes, bytes_eq, Bool-cases, if◌then◌else◌, ◌>>=◌,
  ◌>>◌, pure, modify,
}
use tp_lavado_dinero.Coordinator.ClientState.{
  ClientState, BatchRecord, is_ready_to_flush, add_own_batch, add_own_eof, add_peer_eof,
  has_own_batch, has_own_eof, has_peer_eof, totals,
}
use tp_lavado_dinero.Coordinator.World.{World, Action, Message, set_client}
use tp_lavado_dinero.Coordinator.Storage.Operations.{write_flushed}
use tp_lavado_dinero.Coordinator.Protocol.Sending.{
  Config, client_of, get_client_state, is_cleaned, call_flush_handler,
}
use tp_lavado_dinero.Coordinator.Protocol.Defs.{
  try_flush, record_new_batch, record_batch, share_and_flush, note_local_eof, handle_local_eof,
  note_remote_eof, handle_remote_eof, add_peer_batches, note_remote_batches, handle_remote_batch,
}
use tp_lavado_dinero.Coordinator.Protocol.Quiet.{
  Quiet-when, Quiet-write_batch, Quiet-write_eof, Quiet-broadcast_batch, Quiet-broadcast_eof,
  Quiet-broadcast_own_batches,
}
use tp_lavado_dinero.Coordinator.Protocol.Fine.{
  after-Fine, Fine-call_flush_handler, Fine-when, Fine-write_batch, Fine-write_eof,
  Fine-broadcast_batch, Fine-broadcast_eof, Fine-broadcast_own_batches,
}
use tp_lavado_dinero.Coordinator.Protocol.Settling.{
  Settled, Settles, Settled-before, set_client-client_of, set_client-others, Settles-done,
  Settles-if, Settles-then, Settles-set, flush_settles, call_flush_handler-client_of,
}

module _ (c : Config) where
  try_flush-Settles :
      (id : Bytes) (cs : ClientState) → Settles c.expected_eofs id cs (try_flush c id cs)
  unfolding try_flush
  try_flush-Settles id cs = elim (Bool-cases (is_ready_to_flush cs c.expected_eofs)) [
    | inl h ↦ record {
      at = λ w e s.
          let f = Fine-call_flush_handler id (totals cs).1 cs.last_eof_id in
          let m = call_flush_handler id (totals cs).1 cs.last_eof_id in
          let k = modify (set_client id (record cs { flushed = true })) >> write_flushed id in
          rw (h, after-Fine m k w f e)
            (Settled-before c.expected_eofs id w (m w).1 (k (m w).1)
              (λ j ne. call_flush_handler-client_of id (totals cs).1 cs.last_eof_id w j)
              (flush_settles c.expected_eofs id cs (m w).1 (f.at w e).1));
    }
    | inr h ↦ rw h (Settles-done c.expected_eofs id cs h)
  ]

  record_new_batch-Settles :
      (id : Bytes) (cs : ClientState) (r : BatchRecord)
      → Settles c.expected_eofs id cs (record_new_batch c id cs r)
  unfolding record_new_batch
  record_new_batch-Settles id cs r =
      Settles-then _ id cs _ _ (Fine-when _ _ (Fine-broadcast_batch c _ id))
        (Quiet-when _ _ (Quiet-broadcast_batch c _ id))
        (Settles-then _ id cs _ _ (Fine-write_batch id r) (Quiet-write_batch id r)
          (Settles-set _ id cs (add_own_batch cs r) _ (try_flush-Settles id (add_own_batch cs r))))

  share_and_flush-Settles :
      (id : Bytes) (cs : ClientState) → Settles c.expected_eofs id cs (share_and_flush c id cs)
  unfolding share_and_flush
  share_and_flush-Settles id cs =
      Settles-then _ id cs _ _ (Fine-when _ _ (Fine-broadcast_own_batches c id cs))
        (Quiet-when _ _ (Quiet-broadcast_own_batches c id cs)) (try_flush-Settles id cs)

  note_local_eof-Settles :
      (id : Bytes) (cs : ClientState) (n : ℕ) (eof_id : Bytes)
      → Settles c.expected_eofs id cs (note_local_eof c id cs n eof_id)
  unfolding note_local_eof
  note_local_eof-Settles id cs n eof_id =
      let cs' = add_own_eof cs eof_id n in
      Settles-then _ id cs _ _ (Fine-write_eof id eof_id n) (Quiet-write_eof id eof_id n) (
        Settles-set _ id cs cs' _ (
          Settles-then _ id cs' _ _ (Fine-broadcast_eof c id eof_id n)
            (Quiet-broadcast_eof c id eof_id n) (share_and_flush-Settles id cs')))

  note_remote_eof-Settles :
      (cs : ClientState) (msg : Message)
      → Settles c.expected_eofs msg.client_id cs (note_remote_eof c cs msg)
  unfolding note_remote_eof
  note_remote_eof-Settles cs msg =
      let cs' = add_peer_eof cs msg.sender_id msg.eof_id msg.expected_total in
      Settles-set _ msg.client_id cs cs' _ (share_and_flush-Settles msg.client_id cs')

  note_remote_batches-Settles :
      (cs : ClientState) (msg : Message)
      → Settles c.expected_eofs msg.client_id cs (note_remote_batches c cs msg)
  unfolding note_remote_batches
  note_remote_batches-Settles cs msg =
      let cs' = add_peer_batches msg.sender_id msg.information cs in
      Settles-set _ msg.client_id cs cs' _ (try_flush-Settles msg.client_id cs')

  -- An action that first looks up, or makes, the state of its client.
  looked_up :
      (id : Bytes) (m : ClientState → Action) (w : World)
      → w.outcomes ≡ []
      → Settles c.expected_eofs id (client_of w id) (m (client_of w id))
      → Settled c.expected_eofs id w ((get_client_state id >>= m) w)
  unfolding get_client_state
  looked_up id m w e h =
      let cs = client_of w id in
      Settled-before c.expected_eofs id w (set_client id cs w) _ (set_client-others id cs w)
        (h.at (set_client id cs w) (unfold set_client in e) (set_client-client_of id cs w))

  -- Where no call fails and the client that `RecordBatch` is for is not ready to flush before it, the
  -- operation returns no error, leaves that client not ready, so that it flushes if it opens the
  -- barrier, keeps the states of the other clients, and still no call fails.
  pub record_batch-Settled :
      (id batch_id : Bytes) (p s : ℕ) (w : World)
      → w.outcomes ≡ []
      → is_ready_to_flush (client_of w id) c.expected_eofs ≡ false
      → Settled c.expected_eofs id w (record_batch c id batch_id p s w)
  unfolding record_batch
  record_batch-Settled id batch_id p s w e h =
      let r : BatchRecord = record { batch_id = batch_id; processed = p; survivors = s } in
      let cs = client_of w id in
      looked_up id (λ x. if has_own_batch x batch_id then pure tt else record_new_batch c id x r) w
        e
        (Settles-if _ id cs (has_own_batch cs batch_id) _ _ (Settles-done _ id cs h)
          (record_new_batch-Settles id cs r))

  -- Where no call fails and the client that `HandleLocalEOF` is for is not ready to flush before it, the
  -- operation returns no error, leaves that client not ready, so that it flushes if it opens the
  -- barrier, keeps the states of the other clients, and still no call fails.
  pub handle_local_eof-Settled :
      (id : Bytes) (n : ℕ) (eof_id : Bytes) (w : World)
      → w.outcomes ≡ []
      → is_ready_to_flush (client_of w id) c.expected_eofs ≡ false
      → Settled c.expected_eofs id w (handle_local_eof c id n eof_id w)
  unfolding handle_local_eof
  handle_local_eof-Settled id n eof_id w e h =
      let cs = client_of w id in
      looked_up id (λ x. if has_own_eof x eof_id then pure tt else note_local_eof c id x n eof_id) w
        e
        (Settles-if _ id cs (has_own_eof cs eof_id) _ _ (Settles-done _ id cs h)
          (note_local_eof-Settles id cs n eof_id))

  -- Where no call fails and the client that `handleRemoteEOF` is for is not ready to flush before it, the
  -- operation returns no error, leaves that client not ready, so that it flushes if it opens the
  -- barrier, keeps the states of the other clients, and still no call fails.
  pub handle_remote_eof-Settled :
      (msg : Message) (w : World)
      → w.outcomes ≡ []
      → is_ready_to_flush (client_of w msg.client_id) c.expected_eofs ≡ false
      → Settled c.expected_eofs msg.client_id w (handle_remote_eof c msg w)
  unfolding handle_remote_eof
  handle_remote_eof-Settled msg w e h =
      let id = msg.client_id in
      let cs = client_of w id in
      looked_up id
        (λ cs v.
          (if is_cleaned v id || has_peer_eof cs msg.sender_id msg.eof_id
              then pure tt
              else note_remote_eof c cs msg)
            v)
        w e
        (record {
          at = λ v.
              (Settles-if _ id cs (is_cleaned v id || has_peer_eof cs msg.sender_id msg.eof_id) _ _
                  (Settles-done _ id cs h) (note_remote_eof-Settles cs msg)).at
                v;
        })

  -- Where no call fails and the client that `handleRemoteBatch` is for is not ready to flush before it, the
  -- operation returns no error, leaves that client not ready, so that it flushes if it opens the
  -- barrier, keeps the states of the other clients, and still no call fails.
  pub handle_remote_batch-Settled :
      (msg : Message) (w : World)
      → w.outcomes ≡ []
      → is_ready_to_flush (client_of w msg.client_id) c.expected_eofs ≡ false
      → Settled c.expected_eofs msg.client_id w (handle_remote_batch c msg w)
  unfolding handle_remote_batch
  handle_remote_batch-Settled msg w e h = elim (Bool-cases (is_cleaned w msg.client_id)) [
    | inl gone ↦ rw gone (record { returned = refl; outcomes = e; calm = h; others = λ j ne. refl })
    | inr here' ↦ rw here' (
        looked_up msg.client_id (λ cs. note_remote_batches c cs msg) w e
          (note_remote_batches-Settles (client_of w msg.client_id) msg))
  ]
