-- ===== src/Engine/Stateless/Serving.antt =====
-- statelessengine.go: in a run of the engine without clean-ups the coordinator's memory and its logs
-- go on saying the same.
use tp_lavado_dinero.Prelude.{
  ℕ, ◌%◌, ◌<◌, ◌≢◌, refl, sym, subst, Bool, true, List, [], ◌∷◌, arith, Bytes, bytes_eq,
  if◌then◌else◌, false, length, All, Exec, ok, ◌>>◌, modify,
}
use tp_lavado_dinero.Decimal.{u64_size}
use tp_lavado_dinero.Coordinator.Storage.RoundTrip.{IsPlain}
use tp_lavado_dinero.Coordinator.Protocol.{
  Config, has_seen_batch, record_batch, handle_local_eof, Op, step, batch_asked,
}
use tp_lavado_dinero.Coordinator.Protocol.Synced.{Entry, Synced}
use tp_lavado_dinero.Coordinator.Protocol.Surviving.{IsRecordable, step-Synced}
use tp_lavado_dinero.Coordinator.Protocol.Noting.{record_batch-Synced, handle_local_eof-Synced}
use tp_lavado_dinero.Engine.Events.{MessageType, data_message, eof_message, cleanup_message, Event}
use tp_lavado_dinero.Engine.Sender.{flush_client, send_eof_message}
use tp_lavado_dinero.Engine.Stateless.Defs.{
  StatelessEngine, is_leader, by_sender, by_coordinator, ack, process_items, handle_new_batch,
  handle_data_message, handle_kind, handle_event, handle_true_eof,
}
use tp_lavado_dinero.Engine.Stateless.Apart.{Fits, behind, process_items-Apart, process_items-Fits}

-- An event, a call of the flush handler, or an operation of the coordinator's own goroutine
pub data Turn (A : Type 0) : Type 0 where
  handled : Event A → Turn A
  flushed : (client_id : Bytes) (survivor_count : ℕ) (eof_id : Bytes) → Turn A
  coordinated : Op → Turn A

-- No clean-up, and names and counts that a line of a log can hold
abbrev pub IsServable : {A : Type 0} → Turn A → Type 0
IsServable (handled e) =
    (e.kind ≢ cleanup_message)
    × IsPlain e.delivery.client_id
    × IsPlain e.delivery.batch_id
    × (e.eof_count < u64_size)
IsServable (flushed id n eof_id) = Unit {0}
IsServable (coordinated o) = IsRecordable o

module _ {Q A T V : Type 0} (c : Config) (process : Bytes → A → Exec Q (List T × Bool)) where
  unfoldable pub take_turn : Turn A → StatelessEngine Q T V → StatelessEngine Q T V
  unfolding handle_event handle_true_eof step
  take_turn (handled e) s = (handle_event c process e s).1
  take_turn (flushed client_id survivor_count eof_id) s =
      (handle_true_eof c process client_id survivor_count eof_id s).1
  take_turn (coordinated o) s = record s { coordinator = step c o s.coordinator }

  unfoldable pub take_turns : List (Turn A) → StatelessEngine Q T V → StatelessEngine Q T V
  unfolding take_turn
  take_turns [] s = s
  take_turns (o ∷ os) s = take_turns os (take_turn o s)

module _ {Q A T V : Type 0} (c : Config) (process : Bytes → A → Exec Q (List T × Bool))
    (known : List Entry) where
  abbrev InStep : StatelessEngine Q T V → Type 0
  InStep s = Synced known s.coordinator

  handle_new_batch-Synced :
      (e : Event A) (s : StatelessEngine Q T V)
      → IsServable (handled e)
      → Synced known s.coordinator
      → InStep (handle_new_batch c process e s).1
  unfolding handle_new_batch by_sender by_coordinator ack
  handle_new_batch-Synced e s (other, pc, pb, le) h =
      let d = e.delivery in
      let total : ℕ = length e.items % u64_size in
      let r = process_items c process d.client_id d.batch_id e.items 0 s in
      let apart =
        process_items-Apart c process d.client_id d.batch_id e.items 0 s s
          (record { acked = refl; coordinator = refl }) in
      let kept : Synced known r.1.coordinator = subst (Synced known) (sym apart.coordinator) h in
      let fits = process_items-Fits c process d.client_id d.batch_id e.items 0 s (omega arith) in
      let t = (by_sender (flush_client d.client_id) r.1).1 in
      behind InStep
        (λ (n : ℕ).
          by_sender (flush_client d.client_id)
          >> (by_coordinator (record_batch c d.client_id d.batch_id total n) >> modify (ack d)))
        r kept
        (λ n is.
          (let noted : Synced known
                (record_batch c d.client_id d.batch_id total n t.coordinator).1 =
              record_batch-Synced known c d.client_id pc d.batch_id total n t.coordinator pb
                (omega arith) (subst Fits is fits) kept in
            behind InStep
              (λ (_ : Unit {0}).
                by_coordinator (record_batch c d.client_id d.batch_id total n) >> modify (ack d))
              (by_sender (flush_client d.client_id) r.1) kept
              (λ _ _.
                behind InStep (λ (_ : Unit {0}). modify (ack d))
                  (by_coordinator (record_batch c d.client_id d.batch_id total n) t) noted
                  (λ _ _. noted))))

  handle_data_message-Synced :
      (e : Event A) (s : StatelessEngine Q T V)
      → IsServable (handled e)
      → Synced known s.coordinator
      → InStep (handle_data_message c process e s).1
  unfolding handle_data_message by_coordinator ack
  handle_data_message-Synced e s fine h =
      let d = e.delivery in
      let asked = by_coordinator (has_seen_batch c d.client_id d.batch_id) s in
      let looked : Synced known asked.1.coordinator =
        unfold step in
        step-Synced known c (batch_asked d.client_id d.batch_id) s.coordinator tt h in
      behind InStep (λ (seen : Bool). if seen then modify (ack d) else handle_new_batch c process e)
        asked looked
        (λ seen _.
          elim seen
            as (λ b.
              InStep ((if b then modify (ack d) else handle_new_batch c process e) asked.1).1) [
                | true ↦ looked
                | false ↦ handle_new_batch-Synced e asked.1 fine looked
              ])

  handle_kind-Synced :
      (kind : MessageType) (e : Event A) (s : StatelessEngine Q T V)
      → kind ≢ cleanup_message
      → IsServable (handled e)
      → Synced known s.coordinator
      → InStep (handle_kind c process kind e s).1
  unfolding handle_kind by_coordinator ack
  handle_kind-Synced data_message e s other fine h = handle_data_message-Synced e s fine h
  handle_kind-Synced eof_message e s other (k, pc, pb, le) h =
      let d = e.delivery in
      let noted : Synced known
          (handle_local_eof c d.client_id e.eof_count d.batch_id s.coordinator).1 =
        handle_local_eof-Synced known c d.client_id pc e.eof_count d.batch_id s.coordinator pb le
          h in
      behind InStep (λ (_ : Unit {0}). modify (ack d))
        (by_coordinator (handle_local_eof c d.client_id e.eof_count d.batch_id) s) noted
        (λ _ _. noted)
  handle_kind-Synced cleanup_message e s other fine h = absurd (other refl)

  pub take_turn-Synced :
      (o : Turn A) (s : StatelessEngine Q T V)
      → IsServable o
      → Synced known s.coordinator
      → Synced known (take_turn c process o s).coordinator
  unfolding take_turn handle_event handle_true_eof by_sender
  take_turn-Synced (handled e) s fine h = handle_kind-Synced e.kind e s fine.0 fine h
  take_turn-Synced (flushed id n eof_id) s fine h =
      elim (is_leader c)
        as (λ b.
          Synced known
            (if b then by_sender (send_eof_message id n eof_id) s else (ok tt, s)).1.coordinator) [
              | true ↦ h
              | false ↦ h
            ]
  take_turn-Synced (coordinated o) s fine h = step-Synced known c o s.coordinator fine h

  pub take_turns-Synced :
      (os : List (Turn A)) (s : StatelessEngine Q T V)
      → All IsServable os
      → Synced known s.coordinator
      → Synced known (take_turns c process os s).coordinator
  unfolding take_turns
  take_turns-Synced [] s fine h = h
  take_turns-Synced (o ∷ os) s fine h =
      take_turns-Synced os (take_turn c process o s) fine.1 (take_turn-Synced o s fine.0 h)
