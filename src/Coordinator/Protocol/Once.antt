-- ===== src/Coordinator/Protocol/Once.antt =====
-- Every operation of the coordinator flushes at most one client, and a client at most once.
use tp_lavado_dinero.Prelude.{
  ℕ, ◌≡◌, refl, ◌∙◌, inl, inr, ◌||◌, List, [], ◌∷◌, Bytes, bytes_eq, bytes_beq_iff, arith,
  Bool-cases, if◌then◌else◌, ◌>>=◌, pure,
}
use tp_lavado_dinero.Coordinator.ClientState.{
  ClientState, BatchRecord, add_own_batch, add_own_eof, add_peer_eof, add_peer_batch, has_own_batch,
  has_own_eof, has_peer_eof,
}
use tp_lavado_dinero.Coordinator.World.{World, Action, Message, BatchInformation, set_client}
use tp_lavado_dinero.Coordinator.Protocol.Sending.{Config, client_of, get_client_state, is_cleaned}
use tp_lavado_dinero.Coordinator.Protocol.Defs.{
  record_new_batch, record_batch, share_and_flush, note_local_eof, handle_local_eof,
  note_remote_eof, handle_remote_eof, add_peer_batches, note_remote_batches, handle_remote_batch,
}
use tp_lavado_dinero.Coordinator.Protocol.Quiet.{
  Quiet-when, Quiet-write_batch, Quiet-write_eof, Quiet-broadcast_batch, Quiet-broadcast_eof,
  Quiet-broadcast_own_batches,
}
use tp_lavado_dinero.Coordinator.Protocol.Flushing.{
  Unflushed-refl, Change, Change-after, Tries, Tries-done, Tries-if, Tries-Quiet, Tries-set,
  try_flush-Tries, set_client-Unflushed, client_of-set_client,
}

pub add_peer_batches-flushed :
    (p : ℕ) (is : List BatchInformation) (cs : ClientState)
    → (add_peer_batches p is cs).flushed ≡ cs.flushed
unfolding add_peer_batches
add_peer_batches-flushed p [] cs = refl
add_peer_batches-flushed p (i ∷ is) cs =
    add_peer_batches-flushed p is _ ∙ (unfold add_peer_batch in ground arith)

module _ (c : Config) where
  record_new_batch-Tries :
      (id : Bytes) (cs : ClientState) (r : BatchRecord)
      → Tries c.expected_eofs id cs (record_new_batch c id cs r)
  unfolding record_new_batch
  record_new_batch-Tries id cs r =
      Tries-Quiet _ id cs _ _ (Quiet-when _ _ (Quiet-broadcast_batch c _ id)) (
        Tries-Quiet _ id cs _ _ (Quiet-write_batch id r) (
          Tries-set _ id cs (add_own_batch cs r) _ (unfold add_own_batch in refl)
            (try_flush-Tries c id (add_own_batch cs r))))

  share_and_flush-Tries :
      (id : Bytes) (cs : ClientState) → Tries c.expected_eofs id cs (share_and_flush c id cs)
  unfolding share_and_flush
  share_and_flush-Tries id cs =
      Tries-Quiet _ id cs _ _ (Quiet-when _ _ (Quiet-broadcast_own_batches c id cs))
        (try_flush-Tries c id cs)

  note_local_eof-Tries :
      (id : Bytes) (cs : ClientState) (n : ℕ) (eof_id : Bytes)
      → Tries c.expected_eofs id cs (note_local_eof c id cs n eof_id)
  unfolding note_local_eof
  note_local_eof-Tries id cs n eof_id =
      let cs' = add_own_eof cs eof_id n in
      Tries-Quiet _ id cs _ _ (Quiet-write_eof id eof_id n) (
        Tries-set _ id cs cs' _ (unfold add_own_eof in refl) (
          Tries-Quiet _ id cs' _ _ (Quiet-broadcast_eof c id eof_id n)
            (share_and_flush-Tries id cs')))

  note_remote_eof-Tries :
      (cs : ClientState) (msg : Message)
      → Tries c.expected_eofs msg.client_id cs (note_remote_eof c cs msg)
  unfolding note_remote_eof
  note_remote_eof-Tries cs msg =
      let cs' = add_peer_eof cs msg.sender_id msg.eof_id msg.expected_total in
      Tries-set _ msg.client_id cs cs' _ (unfold add_peer_eof in refl)
        (share_and_flush-Tries msg.client_id cs')

  note_remote_batches-Tries :
      (cs : ClientState) (msg : Message)
      → Tries c.expected_eofs msg.client_id cs (note_remote_batches c cs msg)
  unfolding note_remote_batches
  note_remote_batches-Tries cs msg =
      let cs' = add_peer_batches msg.sender_id msg.information cs in
      Tries-set _ msg.client_id cs cs' _ (add_peer_batches-flushed msg.sender_id msg.information cs)
        (try_flush-Tries c msg.client_id cs')

  -- An action that first looks up, or makes, the state of its client.
  looked_up :
      (id : Bytes) (m : ClientState → Action) (w : World)
      → ((cs : ClientState) → Tries c.expected_eofs id cs (m cs))
      → Change c.expected_eofs w ((get_client_state id >>= m) w).1
  unfolding get_client_state
  looked_up id m w h =
      let cs = client_of w id in
      Change-after c.expected_eofs w (set_client id cs w) _ (set_client-Unflushed id cs w refl) (
        (h cs).at (set_client id cs w)
          (ground (arith, client_of-set_client id id cs w, bytes_beq_iff id id)))

  -- `RecordBatch` either flushes nothing, or calls the flush handler once, with success, for a client
  -- that was not marked and whose barrier is open, with that client's survivors and last EOF, and
  -- marks that client and no other, whatever calls fail.
  pub record_batch-Change :
      (id batch_id : Bytes) (p s : ℕ) (w : World)
      → Change c.expected_eofs w (record_batch c id batch_id p s w).1
  unfolding record_batch
  record_batch-Change id batch_id p s w = looked_up id _ w λ cs.
      let r : BatchRecord = record { batch_id = batch_id; processed = p; survivors = s } in
      Tries-if _ id cs (has_own_batch cs batch_id) _ _ (Tries-done _ id cs)
        (record_new_batch-Tries id cs r)

  -- `HandleLocalEOF` either flushes nothing, or calls the flush handler once, with success, for a
  -- client that was not marked and whose barrier is open, with that client's survivors and last EOF,
  -- and marks that client and no other, whatever calls fail.
  pub handle_local_eof-Change :
      (id : Bytes) (n : ℕ) (eof_id : Bytes) (w : World)
      → Change c.expected_eofs w (handle_local_eof c id n eof_id w).1
  unfolding handle_local_eof
  handle_local_eof-Change id n eof_id w = looked_up id _ w λ cs.
      Tries-if _ id cs (has_own_eof cs eof_id) _ _ (Tries-done _ id cs)
        (note_local_eof-Tries id cs n eof_id)

  -- `handleRemoteEOF` either flushes nothing, or calls the flush handler once, with success, for a
  -- client that was not marked and whose barrier is open, with that client's survivors and last EOF,
  -- and marks that client and no other, whatever calls fail.
  pub handle_remote_eof-Change :
      (msg : Message) (w : World) → Change c.expected_eofs w (handle_remote_eof c msg w).1
  unfolding handle_remote_eof
  handle_remote_eof-Change msg w =
      looked_up msg.client_id
        (λ cs v.
          (if is_cleaned v msg.client_id || has_peer_eof cs msg.sender_id msg.eof_id
              then pure tt
              else note_remote_eof c cs msg)
            v)
        w
        λ cs. record {
          at = λ v e.
              (Tries-if _ msg.client_id cs
                  (is_cleaned v msg.client_id || has_peer_eof cs msg.sender_id msg.eof_id) _ _
                  (Tries-done _ msg.client_id cs) (note_remote_eof-Tries cs msg)).at
                v e;
        }

  -- `handleRemoteBatch` either flushes nothing, or calls the flush handler once, with success, for a
  -- client that was not marked and whose barrier is open, with that client's survivors and last EOF,
  -- and marks that client and no other, whatever calls fail.
  pub handle_remote_batch-Change :
      (msg : Message) (w : World) → Change c.expected_eofs w (handle_remote_batch c msg w).1
  unfolding handle_remote_batch
  handle_remote_batch-Change msg w = elim (Bool-cases (is_cleaned w msg.client_id)) [
    | inl gone ↦ rw gone (inl (Unflushed-refl w))
    | inr here' ↦ rw here' (looked_up msg.client_id _ w λ cs. note_remote_batches-Tries cs msg)
  ]
