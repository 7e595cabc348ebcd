-- ===== src/Coordinator/Protocol/Surviving.antt =====
-- eofcoordinator.go: in a life without clean-ups the memory and the logs go on saying the same.
use tp_lavado_dinero.Prelude.{
  ℕ, ◌<◌, ◌≡◌, ◌≢◌, refl, sym, ap, ◌∙◌, inl, inr, ◌||◌, none, some, List, [], ◌∷◌, Bytes, bytes_eq,
  Bool-cases, All, ◌>>◌, modify, pure,
}
use tp_lavado_dinero.Decimal.{u64_size}
use tp_lavado_dinero.Coordinator.ClientState.{
  ClientState, has_own_batch, add_peer_batch, has_peer_eof, add_peer_eof, get_last_eof_id,
}
use tp_lavado_dinero.Coordinator.World.{
  Kind, wakeup, eof_arrived, batch_information, cleanup, unknown, BatchInformation, Message, World,
  Action, set_client,
}
use tp_lavado_dinero.Coordinator.Storage.RoundTrip.{IsPlain}
use tp_lavado_dinero.Coordinator.Protocol.Sending.{
  Config, client_of, get_client_state, is_cleaned, record_of,
}
use tp_lavado_dinero.Coordinator.Protocol.Telling.{
  Moves-tell_clients, Moves-wake_up_notification, Moves-broadcast_cleanup,
}
use tp_lavado_dinero.Coordinator.Protocol.Defs.{
  add_peer_batches, try_flush, share_and_flush, note_remote_eof, handle_remote_eof,
  note_remote_batches, handle_remote_batch, handle_wake_up, dispatch, handle_coordination_message,
  has_seen_batch, reached_eof_amount,
}
use tp_lavado_dinero.Coordinator.Protocol.Settling.{set_client-client_of}
use tp_lavado_dinero.Coordinator.Protocol.Once.{add_peer_batches-flushed}
use tp_lavado_dinero.Coordinator.Protocol.Steps.{
  Op, started, batch_recorded, eof_handled, batch_asked, eofs_asked, client_cleared, cleanup_sent,
  delivered, step, run,
}
use tp_lavado_dinero.Coordinator.Protocol.Synced.{Entry, Synced, peers-Synced}
use tp_lavado_dinero.Coordinator.Protocol.Safe.{
  Still, Still-Journey, Still-send_with_key, Still-Synced, Safe, Safe-done, Safe-set, Safe-found,
  Safe-if,
}
use tp_lavado_dinero.Coordinator.Protocol.Noting.{
  try_flush-Safe, share_and_flush-Safe, record_batch-Synced, handle_local_eof-Synced,
}

-- What the peers tell leaves the worker's own records alone.
add_peer_batches-own :
    (peer_id : ℕ) (is : List BatchInformation) (cs : ClientState)
    → ((add_peer_batches peer_id is cs).own_batches ≡ cs.own_batches)
      × ((add_peer_batches peer_id is cs).own_eofs ≡ cs.own_eofs)
unfolding add_peer_batches add_peer_batch
add_peer_batches-own peer_id [] cs = (refl, refl)
add_peer_batches-own peer_id (i ∷ is) cs = elim (Bool-cases (has_own_batch cs i.batch_id)) [
  | inl e ↦ rw (e, add_peer_batches) (add_peer_batches-own peer_id is cs)
  | inr e ↦
      rw (e, add_peer_batches)
        (add_peer_batches-own peer_id is (add_peer_batch cs peer_id (record_of i)))
]

module _ (known : List Entry) (c : Config) where
  told-Safe :
      (id : Bytes) (cs cs' : ClientState) (k : Action)
      → cs'.own_batches ≡ cs.own_batches
      → cs'.own_eofs ≡ cs.own_eofs
      → cs'.flushed ≡ cs.flushed
      → Safe known id cs' k
      → Safe known id cs (modify (set_client id cs') >> k)
  told-Safe id cs cs' k b e f h =
      Safe-set known id cs cs' k
        (λ w same s.
          peers-Synced id cs' w s (b ∙ ap (λ (x : ClientState). x.own_batches) (sym same))
            (e ∙ ap (λ (x : ClientState). x.own_eofs) (sym same))
            (λ m. f ∙ ap (λ (x : ClientState). x.flushed) (sym same) ∙ m))
        h

  handle_remote_eof-Synced :
      (msg : Message) (w : World)
      → IsPlain msg.client_id
      → Synced known w
      → Synced known (handle_remote_eof c msg w).1
  unfolding handle_remote_eof note_remote_eof add_peer_eof get_last_eof_id get_client_state
  handle_remote_eof-Synced msg w pc s =
      let id = msg.client_id in
      let cs = client_of w id in
      let cs' = add_peer_eof cs msg.sender_id msg.eof_id msg.expected_total in
      let v = set_client id cs w in
      let noted : Safe known id cs (note_remote_eof c cs msg) =
        told-Safe id cs cs' (share_and_flush c id cs') refl refl refl
          (share_and_flush-Safe known c id pc cs') in
      let same : Synced known v = peers-Synced id cs w s refl refl (λ m. m) in
      (Safe-if known id cs (is_cleaned v id || has_peer_eof cs msg.sender_id msg.eof_id) _ noted).at
        v (set_client-client_of id cs w) same

  handle_remote_batch-Synced :
      (msg : Message) (w : World)
      → IsPlain msg.client_id
      → Synced known w
      → Synced known (handle_remote_batch c msg w).1
  unfolding handle_remote_batch note_remote_batches
  handle_remote_batch-Synced msg w pc s =
      let id = msg.client_id in
      let cs = client_of w id in
      let cs' = add_peer_batches msg.sender_id msg.information cs in
      let own = add_peer_batches-own msg.sender_id msg.information cs in
      let noted : Safe known id cs (note_remote_batches c cs msg) =
        told-Safe id cs cs' (try_flush c id cs') own.0 own.1
          (add_peer_batches-flushed msg.sender_id msg.information cs)
          (try_flush-Safe known c id pc cs') in
      elim (Bool-cases (is_cleaned w id)) [
        | inl e ↦ rw (e, handle_remote_batch) s
        | inr e ↦
            rw (e, handle_remote_batch)
              (Safe-found known id (λ x. note_remote_batches c x msg) w noted s)
      ]

  dispatch-Synced :
      (k : Kind) (msg : Message) (w : World)
      → k ≢ cleanup
      → IsPlain msg.client_id
      → Synced known w
      → Synced known (dispatch c k msg w).1
  unfolding dispatch handle_wake_up
  dispatch-Synced wakeup msg w other pc s =
      Still-Synced w _
        ((Moves-tell_clients Still Still-Journey Still-send_with_key c _ w.clients).at w) s
  dispatch-Synced eof_arrived msg w other pc s = handle_remote_eof-Synced msg w pc s
  dispatch-Synced batch_information msg w other pc s = handle_remote_batch-Synced msg w pc s
  dispatch-Synced cleanup msg w other pc s = absurd (other refl)
  dispatch-Synced unknown msg w other pc s = s

-- What the workers and the peers may bring: no clean-up, and names and counts that a line can hold.
abbrev pub IsRecordable : Op → Type 0
IsRecordable started = Unit {0}
IsRecordable (batch_recorded id b p s) = IsPlain id × IsPlain b × (p < u64_size) × (s < u64_size)
IsRecordable (eof_handled id e n) = IsPlain id × IsPlain e × (n < u64_size)
IsRecordable (batch_asked id b) = Unit {0}
IsRecordable (eofs_asked id) = Unit {0}
IsRecordable (client_cleared id) = ⊥
IsRecordable (cleanup_sent id) = Unit {0}
IsRecordable (delivered none) = Unit {0}
IsRecordable (delivered (some msg)) = (msg.kind ≢ cleanup) × IsPlain msg.client_id

module _ (known : List Entry) (c : Config) where
  pub step-Synced :
      (o : Op) (w : World) → IsRecordable o → Synced known w → Synced known (step c o w)
  unfolding step has_seen_batch reached_eof_amount handle_coordination_message
  step-Synced started w h s =
      Still-Synced w _ ((Moves-wake_up_notification Still Still-Journey Still-send_with_key c).at w)
        s
  step-Synced (batch_recorded id b p n) w (pc, pb, lp, ls) s =
      record_batch-Synced known c id pc b p n w pb lp ls s
  step-Synced (eof_handled id e n) w (pc, pe, lt) s =
      handle_local_eof-Synced known c id pc n e w pe lt s
  step-Synced (batch_asked id b) w h s =
      Safe-found known id (λ cs. pure tt) w (Safe-done known id (client_of w id)) s
  step-Synced (eofs_asked id) w h s =
      Safe-found known id (λ cs. pure tt) w (Safe-done known id (client_of w id)) s
  step-Synced (client_cleared id) w h s = absurd h
  step-Synced (cleanup_sent id) w h s =
      Still-Synced w _ ((Moves-broadcast_cleanup Still Still-Journey Still-send_with_key c id).at w)
        s
  step-Synced (delivered none) w h s = s
  step-Synced (delivered (some msg)) w (other, pc) s =
      dispatch-Synced known c msg.kind msg w other pc s

  pub run-Synced :
      (os : List Op) (w : World) → All IsRecordable os → Synced known w → Synced known (run c os w)
  unfolding run
  run-Synced [] w h s = s
  run-Synced (o ∷ os) w h s = run-Synced os (step c o w) h.1 (step-Synced o w h.0 s)
