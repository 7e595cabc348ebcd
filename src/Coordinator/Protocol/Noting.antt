-- ===== src/Coordinator/Protocol/Noting.antt =====
-- eofcoordinator.go: what the worker tells its coordinator goes into the memory and into the logs.
use tp_lavado_dinero.Prelude.{
  ℕ, ◌<◌, refl, sym, ap, subst, inl, inr, true, List, [], ◌∷◌, Bytes, bytes_eq, Bool-cases,
  if◌then◌else◌, ◌>>◌, modify, pure,
}
use tp_lavado_dinero.Decimal.{u64_size}
use tp_lavado_dinero.Coordinator.ClientState.{
  BatchRecord, ClientState, has_own_batch, add_own_batch, has_own_eof, add_own_eof,
  is_ready_to_flush, totals,
}
use tp_lavado_dinero.Coordinator.World.{World, Action, set_client}
use tp_lavado_dinero.Coordinator.Storage.Operations.{write_batch, write_eof, write_flushed}
use tp_lavado_dinero.Coordinator.Storage.RoundTrip.{IsPlain}
use tp_lavado_dinero.Coordinator.Protocol.Sending.{
  Config, client_of, transform_batch_to_proto, call_flush_handler, broadcast_eof,
}
use tp_lavado_dinero.Coordinator.Protocol.Moving.{
  Moves-when, Moves-broadcast, Moves-broadcast_batch, Moves-broadcast_own_batches,
}
use tp_lavado_dinero.Coordinator.Protocol.Defs.{
  try_flush, record_new_batch, record_batch, share_and_flush, note_local_eof, handle_local_eof,
}
use tp_lavado_dinero.Coordinator.Protocol.Synced.{Entry, Synced, peers-Synced}
use tp_lavado_dinero.Coordinator.Protocol.Written.{
  batch_written, eof_written, batch-Synced, eof-Synced,
}
use tp_lavado_dinero.Coordinator.Protocol.Safe.{
  Still, Still-Journey, Still-send_with_key, Still-call_flush_handler, Safe, Safe-done, Safe-then,
  Safe-set, Safe-write, Safe-write_flushed, Safe-found, Safe-if,
}

module _ (known : List Entry) (c : Config) (id : Bytes) (pc : IsPlain id) where
  pub try_flush-Safe : (cs : ClientState) → Safe known id cs (try_flush c id cs)
  unfolding try_flush
  try_flush-Safe cs =
      let marked = record cs { flushed = true } in
      elim (Bool-cases (is_ready_to_flush cs c.expected_eofs)) [
        | inl yes' ↦
            rw (yes', try_flush)
              (Safe-then known id cs (call_flush_handler id (totals cs).1 cs.last_eof_id) _
                (Still-call_flush_handler id (totals cs).1 cs.last_eof_id)
                (Safe-set known id cs marked (write_flushed id)
                  (λ w e s.
                    peers-Synced id marked w s (ap (λ (x : ClientState). x.own_batches) (sym e))
                      (ap (λ (x : ClientState). x.own_eofs) (sym e)) (λ m. refl))
                  (Safe-write_flushed known id marked pc refl)))
        | inr no' ↦ rw (no', try_flush) (Safe-done known id cs)
      ]

  pub share_and_flush-Safe : (cs : ClientState) → Safe known id cs (share_and_flush c id cs)
  unfolding share_and_flush
  share_and_flush-Safe cs =
      Safe-then known id cs _ (try_flush c id cs)
        (Moves-when Still Still-Journey _ _
          (Moves-broadcast_own_batches Still Still-Journey Still-send_with_key c id cs))
        (try_flush-Safe cs)

  pub record_new_batch-Safe :
      (cs : ClientState) (r : BatchRecord)
      → IsPlain r.batch_id
      → r.processed < u64_size
      → r.survivors < u64_size
      → Safe known id cs (record_new_batch c id cs r)
  unfolding record_new_batch write_batch
  record_new_batch-Safe cs r pb lp ls =
      let cs' = add_own_batch cs r in
      Safe-then known id cs _
        (write_batch id r >> (modify (set_client id cs') >> try_flush c id cs'))
        (Moves-when Still Still-Journey _ _ (
          Moves-broadcast_batch Still Still-Journey Still-send_with_key c
            (transform_batch_to_proto r ∷ []) id))
        (Safe-write known id _ cs cs' (try_flush c id cs')
          (λ w e s.
            subst
              (λ (x : ClientState).
                Synced known (set_client id (add_own_batch x r) (batch_written id r w)))
              e (batch-Synced id r w s pc pb lp ls))
          (try_flush-Safe cs'))

  pub note_local_eof-Safe :
      (cs : ClientState) (n : ℕ) (eof_id : Bytes)
      → IsPlain eof_id
      → n < u64_size
      → Safe known id cs (note_local_eof c id cs n eof_id)
  unfolding note_local_eof write_eof broadcast_eof
  note_local_eof-Safe cs n eof_id pe lt =
      let cs' = add_own_eof cs eof_id n in
      let told : Action = (broadcast_eof c id eof_id n >> share_and_flush c id cs') in
      Safe-write known id _ cs cs' told
        (λ w e s.
          subst
            (λ (x : ClientState).
              Synced known (set_client id (add_own_eof x eof_id n) (eof_written id eof_id n w)))
            e (eof-Synced id eof_id n w s pc pe lt))
        (Safe-then known id cs' _ (share_and_flush c id cs')
          (Moves-broadcast Still Still-Journey Still-send_with_key c _) (share_and_flush-Safe cs'))

  pub record_batch-Synced :
      (batch_id : Bytes) (p s : ℕ) (w : World)
      → IsPlain batch_id
      → p < u64_size
      → s < u64_size
      → Synced known w
      → Synced known (record_batch c id batch_id p s w).1
  unfolding record_batch
  record_batch-Synced batch_id p s w pb lp ls h =
      let r : BatchRecord = record { batch_id = batch_id; processed = p; survivors = s } in
      Safe-found known id
        (λ cs. if has_own_batch cs batch_id then pure tt else record_new_batch c id cs r) w
        (Safe-if known id (client_of w id) _ _ (record_new_batch-Safe (client_of w id) r pb lp ls))
        h

  pub handle_local_eof-Synced :
      (n : ℕ) (eof_id : Bytes) (w : World)
      → IsPlain eof_id
      → n < u64_size
      → Synced known w
      → Synced known (handle_local_eof c id n eof_id w).1
  unfolding handle_local_eof
  handle_local_eof-Synced n eof_id w pe lt h =
      Safe-found known id
        (λ cs. if has_own_eof cs eof_id then pure tt else note_local_eof c id cs n eof_id) w
        (Safe-if known id (client_of w id) _ _
          (note_local_eof-Safe (client_of w id) n eof_id pe lt))
        h
