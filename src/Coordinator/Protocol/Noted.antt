-- ===== src/Coordinator/Protocol/Noted.antt =====
-- What RecordBatch, HandleLocalEOF and ClearClient leave behind when they return no error, whatever
-- calls fail within them.
use tp_lavado_dinero.Prelude.{
  ℕ, ◌≡◌, ap, ◌∙◌, true, false, none, some, [], ◌∷◌, Bytes, bytes_eq, bytes_beq_iff, arith, ok,
  ◌>>◌, modify,
}
use tp_lavado_dinero.GoMap.{Map, get, put, get-put, remove, get-remove, is_some}
use tp_lavado_dinero.Coordinator.ClientState.{
  BatchRecord, ClientState, has_own_batch, has_own_eof, add_own_batch, add_own_eof, get_last_eof_id,
  has_all_eofs,
}
use tp_lavado_dinero.Coordinator.World.{World, Action, when, set_client}
use tp_lavado_dinero.Coordinator.Storage.Operations.{write_batch, write_eof}
use tp_lavado_dinero.Coordinator.Protocol.Sending.{
  Config, client_of, broadcast_eof, broadcast_own_batches, broadcast_batch,
  transform_batch_to_proto,
}
use tp_lavado_dinero.Coordinator.Protocol.Defs.{
  try_flush, record_new_batch, record_batch, share_and_flush, note_local_eof, handle_local_eof,
  clear_client, broadcast_cleanup,
}
use tp_lavado_dinero.Coordinator.Protocol.Quiet.{
  Quiet-broadcast, Quiet-when, Quiet-broadcast_eof, Quiet-broadcast_own_batches,
}
use tp_lavado_dinero.Coordinator.Protocol.QuietSteps.{Quiet-clear_storage}
use tp_lavado_dinero.Coordinator.Protocol.Keeping.{
  Keeps, Makes, Keeps-Quiet, Keeps-then, Makes-then, Makes-set, Keeps-try_flush, noted_already,
}

module _ (c : Config) (id : Bytes) where
  has-put : {V : Type 0} (m : Map Bytes V) (k : Bytes) (v : V) → is_some (get (put m k v) k) ≡ true
  has-put m k v = ground (arith, get-put m k k v, bytes_beq_iff k k)

  record_new_batch-Makes :
      (P : ClientState → Type 0) (cs : ClientState) (r : BatchRecord)
      → P (add_own_batch cs r)
      → P (record (add_own_batch cs r) { flushed = true })
      → Makes id P (record_new_batch c id cs r)
  unfolding record_new_batch
  record_new_batch-Makes P cs r p q =
      let told : Action =
        when (has_all_eofs cs c.expected_eofs)
          (broadcast_batch c (transform_batch_to_proto r ∷ []) id) in
      let rest : Action =
        (write_batch id r
          >> (modify (set_client id (add_own_batch cs r))
              >> try_flush c id (add_own_batch cs r))) in
      Makes-then id P told rest (
        Makes-then id P (write_batch id r)
          (modify (set_client id (add_own_batch cs r)) >> try_flush c id (add_own_batch cs r))
          (Makes-set id P (add_own_batch cs r) (try_flush c id (add_own_batch cs r)) p
            (Keeps-try_flush id P c (add_own_batch cs r) q)))

  pub record_batch-Noted :
      (batch_id : Bytes) (p s : ℕ) (w : World)
      → (record_batch c id batch_id p s w).0 ≡ ok tt
      → has_own_batch (client_of (record_batch c id batch_id p s w).1 id) batch_id ≡ true
  unfolding record_batch
  record_batch-Noted batch_id p s w =
      let r : BatchRecord = record { batch_id = batch_id; processed = p; survivors = s } in
      noted_already id (λ x. has_own_batch x batch_id ≡ true) (λ x. has_own_batch x batch_id)
        (λ x. record_new_batch c id x r) w (λ t. t)
        (record_new_batch-Makes (λ x. has_own_batch x batch_id ≡ true) (client_of w id) r
          (unfold add_own_batch has_own_batch in has-put (client_of w id).own_batches batch_id r)
          (unfold add_own_batch has_own_batch in has-put (client_of w id).own_batches batch_id r))

  put-here : {V : Type 0} (m : Map Bytes V) (k : Bytes) (v : V) → get (put m k v) k ≡ some v
  put-here m k v = ground (arith, get-put m k k v, bytes_beq_iff k k)

  -- A batch that the worker did not have is recorded with its counts.
  pub record_batch-Recorded :
      (batch_id : Bytes) (p s : ℕ) (w : World)
      → has_own_batch (client_of w id) batch_id ≡ false
      → (record_batch c id batch_id p s w).0 ≡ ok tt
      → get (client_of (record_batch c id batch_id p s w).1 id).own_batches batch_id
        ≡ some (record { batch_id = batch_id; processed = p; survivors = s })
  unfolding record_batch
  record_batch-Recorded batch_id p s w fresh =
      let r : BatchRecord = record { batch_id = batch_id; processed = p; survivors = s } in
      let P = λ (x : ClientState). get x.own_batches batch_id ≡ some r in
      noted_already id P (λ x. has_own_batch x batch_id) (λ x. record_new_batch c id x r) w
        (λ t. absurd (ground (arith, t, fresh)))
        (record_new_batch-Makes P (client_of w id) r
          (unfold add_own_batch in put-here (client_of w id).own_batches batch_id r)
          (unfold add_own_batch in put-here (client_of w id).own_batches batch_id r))

  share_and_flush-Keeps :
      (P : ClientState → Type 0) (cs : ClientState)
      → P (record cs { flushed = true })
      → Keeps id P (share_and_flush c id cs)
  unfolding share_and_flush
  share_and_flush-Keeps P cs q =
      let told : Action = when (has_all_eofs cs c.expected_eofs) (broadcast_own_batches c id cs) in
      Keeps-then id P told (try_flush c id cs)
        (Keeps-Quiet id P told (
          Quiet-when (has_all_eofs cs c.expected_eofs) (broadcast_own_batches c id cs)
            (Quiet-broadcast_own_batches c id cs)))
        (Keeps-try_flush id P c cs q)

  note_local_eof-Makes :
      (cs : ClientState) (n : ℕ) (eof_id : Bytes)
      → Makes id (λ x. has_own_eof x eof_id ≡ true) (note_local_eof c id cs n eof_id)
  unfolding note_local_eof
  note_local_eof-Makes cs n eof_id =
      let P = λ (x : ClientState). has_own_eof x eof_id ≡ true in
      let cs' = add_own_eof cs eof_id n in
      let p : P cs' =
        unfold add_own_eof get_last_eof_id has_own_eof in has-put cs.own_eofs eof_id n in
      let q : P (record cs' { flushed = true }) =
        unfold add_own_eof get_last_eof_id has_own_eof in has-put cs.own_eofs eof_id n in
      let told : Action = (broadcast_eof c id eof_id n >> share_and_flush c id cs') in
      Makes-then id P (write_eof id eof_id n) (modify (set_client id cs') >> told) (
        Makes-set id P cs' told p (
          Keeps-then id P (broadcast_eof c id eof_id n) (share_and_flush c id cs')
            (Keeps-Quiet id P (broadcast_eof c id eof_id n) (Quiet-broadcast_eof c id eof_id n))
            (share_and_flush-Keeps P cs' q)))

  pub handle_local_eof-Noted :
      (n : ℕ) (eof_id : Bytes) (w : World)
      → (handle_local_eof c id n eof_id w).0 ≡ ok tt
      → has_own_eof (client_of (handle_local_eof c id n eof_id w).1 id) eof_id ≡ true
  unfolding handle_local_eof
  handle_local_eof-Noted n eof_id w =
      noted_already id (λ x. has_own_eof x eof_id ≡ true) (λ x. has_own_eof x eof_id)
        (λ x. note_local_eof c id x n eof_id) w (λ t. t)
        (note_local_eof-Makes (client_of w id) n eof_id)

  -- The client's state is gone, whether or not its files could be rewritten.
  pub clear_client-Noted : (w : World) → get (clear_client c id w).1.clients id ≡ none
  unfolding clear_client
  clear_client-Noted w =
      let w' = record w {
        cleaned_clients = put w.cleaned_clients id true;
        clients = remove w.clients id;
      } in
      ap (λ (m : Map Bytes ClientState). get m id) ((Quiet-clear_storage id).at w').clients
      ∙ ground (arith, get-remove w.clients id id, bytes_beq_iff id id)

  -- It is still gone when the peers have been told.
  pub broadcast_cleanup-Noted :
      (w : World) → get (broadcast_cleanup c id (clear_client c id w).1).1.clients id ≡ none
  unfolding broadcast_cleanup
  broadcast_cleanup-Noted w =
      ap (λ (m : Map Bytes ClientState). get m id)
        ((Quiet-broadcast c _).at (clear_client c id w).1).clients
      ∙ clear_client-Noted w
