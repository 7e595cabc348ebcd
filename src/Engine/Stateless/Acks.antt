-- ===== src/Engine/Stateless/Acks.antt =====
-- statelessengine.go: a message is acked once, and only when the coordinator has noted what it says,
-- whatever calls fail.
use tp_lavado_dinero.Prelude.{
  ℕ, ◌%◌, ◌≡◌, refl, ap, ◌⊎◌, inl, inr, Bool, true, none, List, [], ◌∷◌, ◌++◌, Bytes, bytes_eq,
  Bool-cases, length, Exec, Error, Result, ok, err, ◌>>◌, after, modify,
}
use tp_lavado_dinero.Decimal.{u64_size}
use tp_lavado_dinero.GoMap.{get}
use tp_lavado_dinero.Checkpoint.Defs.{Delivery}
use tp_lavado_dinero.Coordinator.ClientState.{has_own_batch, has_own_eof}
use tp_lavado_dinero.Coordinator.World.{World, set_client}
use tp_lavado_dinero.Coordinator.Protocol.{
  Config, client_of, has_seen_batch, record_batch, handle_local_eof, get_client_state,
}
use tp_lavado_dinero.Coordinator.Protocol.Keeping.{set-P}
use tp_lavado_dinero.Coordinator.Protocol.Noted.{
  record_batch-Noted, handle_local_eof-Noted, broadcast_cleanup-Noted,
}
use tp_lavado_dinero.Engine.Events.{MessageType, data_message, eof_message, cleanup_message, Event}
use tp_lavado_dinero.Engine.Sender.{flush_client}
use tp_lavado_dinero.Engine.Stateless.Apart.{process_items-Apart}
use tp_lavado_dinero.Engine.Stateless.Defs.{
  StatelessEngine, by_sender, by_coordinator, ack, process_items, handle_new_batch,
  handle_data_message, handle_cleanup_message, handle_kind, handle_event,
}

-- What the coordinator has noted of a message
abbrev pub Noted : MessageType → Delivery → World → Type 0
Noted data_message d w = has_own_batch (client_of w d.client_id) d.batch_id ≡ true
Noted eof_message d w = has_own_eof (client_of w d.client_id) d.batch_id ≡ true
Noted cleanup_message d w = get w.clients d.client_id ≡ none

module _ {Q T V : Type 0} where
  -- An error and no ack, or no error, one ack and a coordinator that has noted the message.
  abbrev pub Answer :
      MessageType → Delivery → List Delivery → Result (Unit {0}) × StatelessEngine Q T V → Type 0
  Answer kind d acked r =
      ((x : Error) × (r.0 ≡ err x) × (r.1.acked ≡ acked))
      ⊎ ((r.0 ≡ ok tt) × (r.1.acked ≡ acked ++ d ∷ []) × Noted kind d r.1.coordinator)

  -- A step that acks nothing, and what comes behind it if it returns no error.
  Answer-after {κ} :
      {B : Type κ} (kind : MessageType) (d : Delivery) (acked : List Delivery)
      (k : B → Exec (StatelessEngine Q T V) (Unit {0})) (r : Result B × StatelessEngine Q T V)
      → r.1.acked ≡ acked
      → ((b : B) → r.0 ≡ ok b → Answer kind d acked (k b r.1))
      → Answer kind d acked (after k r)
  Answer-after kind d acked k (ok b, s) e h = h b refl
  Answer-after kind d acked k (err x, s) e h = inl (x, refl, e)

  Answer-ack :
      (kind : MessageType) (d : Delivery) (acked : List Delivery) (s : StatelessEngine Q T V)
      → s.acked ≡ acked
      → Noted kind d s.coordinator
      → Answer kind d acked (modify (ack d) s)
  unfolding ack
  Answer-ack kind d acked s e n = inr (refl, ap (λ ds. ds ++ d ∷ []) e, n)

module _ {Q A T V : Type 0} (c : Config) (process : Bytes → A → Exec Q (List T × Bool)) where
  handle_new_batch-Answer :
      (e : Event A) (s : StatelessEngine Q T V)
      → Answer data_message e.delivery s.acked (handle_new_batch c process e s)
  unfolding handle_new_batch by_sender by_coordinator
  handle_new_batch-Answer e s =
      let d = e.delivery in
      let total : ℕ = length e.items % u64_size in
      let r = process_items c process d.client_id d.batch_id e.items 0 s in
      let kept : r.1.acked ≡ s.acked =
        (process_items-Apart c process d.client_id d.batch_id e.items 0 s s
          (record { acked = refl; coordinator = refl })).acked in
      let t = (by_sender (flush_client d.client_id) r.1).1 in
      Answer-after data_message d s.acked
        (λ (n : ℕ).
          by_sender (flush_client d.client_id)
          >> (by_coordinator (record_batch c d.client_id d.batch_id total n) >> modify (ack d)))
        r kept
        (λ n _.
          Answer-after data_message d s.acked
            (λ (_ : Unit {0}).
              by_coordinator (record_batch c d.client_id d.batch_id total n) >> modify (ack d))
            (by_sender (flush_client d.client_id) r.1) kept
            (λ _ _.
              Answer-after data_message d s.acked (λ (_ : Unit {0}). modify (ack d))
                (by_coordinator (record_batch c d.client_id d.batch_id total n) t) kept
                (λ _ returned.
                  Answer-ack data_message d s.acked
                    (by_coordinator (record_batch c d.client_id d.batch_id total n) t).1 kept
                    (record_batch-Noted c d.client_id d.batch_id total n t.coordinator returned))))

  handle_data_message-Answer :
      (e : Event A) (s : StatelessEngine Q T V)
      → Answer data_message e.delivery s.acked (handle_data_message c process e s)
  unfolding handle_data_message by_coordinator has_seen_batch get_client_state
  handle_data_message-Answer e s =
      let d = e.delivery in
      let cs = client_of s.coordinator d.client_id in
      let t = record s { coordinator = set_client d.client_id cs s.coordinator } in
      elim (Bool-cases (has_own_batch cs d.batch_id)) [
        | inl seen ↦
            rw (seen, handle_data_message)
              (Answer-ack data_message d s.acked t refl
                (set-P d.client_id (λ x. has_own_batch x d.batch_id ≡ true) cs s.coordinator seen))
        | inr fresh ↦ rw (fresh, handle_data_message) (handle_new_batch-Answer e t)
      ]

  handle_kind-Answer :
      (kind : MessageType) (e : Event A) (s : StatelessEngine Q T V)
      → Answer kind e.delivery s.acked (handle_kind c process kind e s)
  unfolding handle_kind by_coordinator by_sender handle_cleanup_message
  handle_kind-Answer data_message e s = handle_data_message-Answer e s
  handle_kind-Answer eof_message e s =
      let d = e.delivery in
      Answer-after eof_message d s.acked (λ (_ : Unit {0}). modify (ack d))
        (by_coordinator (handle_local_eof c d.client_id e.eof_count d.batch_id) s) refl
        (λ _ returned.
          Answer-ack eof_message d s.acked
            (by_coordinator (handle_local_eof c d.client_id e.eof_count d.batch_id) s).1 refl
            (handle_local_eof-Noted c d.client_id e.eof_count d.batch_id s.coordinator returned))
  handle_kind-Answer cleanup_message e s =
      Answer-ack cleanup_message e.delivery s.acked (handle_cleanup_message c process e s) refl
        (broadcast_cleanup-Noted c e.delivery.client_id s.coordinator)

  -- Whatever calls fail, `handleEvent` either returns an error and acks nothing, or returns none, acks
  -- its message once, and leaves a coordinator that has noted it: the batch or the EOF is one of the
  -- client's own, and after a clean-up the client's state is gone.
  pub handle_event-Answer :
      (e : Event A) (s : StatelessEngine Q T V)
      → Answer e.kind e.delivery s.acked (handle_event c process e s)
  unfolding handle_event
  handle_event-Answer e s = handle_kind-Answer e.kind e s
