-- ===== src/Engine/Stateless/Defs.antt =====
-- statelessengine.go. The coordinator calls `handle_true_eof` as its flush handler: in the
-- coordinator's state that call is one of the noted flushes, and one of its outcomes.
use tp_lavado_dinero.Prelude.{
  ℕ, ◌+◌, ◌%◌, Bool, true, false, List, [], ◌∷◌, ◌++◌, Bytes, nat_beq, length, if◌then◌else◌, Exec,
  ok, ◌>>=◌, ◌>>◌, pure, modify,
}
use tp_lavado_dinero.Decimal.{u64_size}
use tp_lavado_dinero.Checkpoint.Defs.{Delivery}
use tp_lavado_dinero.Coordinator.World.{World}
use tp_lavado_dinero.Coordinator.Protocol.{
  Config, has_seen_batch, record_batch, handle_local_eof, clear_client, broadcast_cleanup,
}
use tp_lavado_dinero.Engine.Events.{MessageType, data_message, eof_message, cleanup_message, Event}
use tp_lavado_dinero.Engine.Sender.{
  SingleSender, add_item, flush_client, cleanup_client, send_eof_message,
}

-- The engine with the state of its processor and the messages acked so far
pub record StatelessEngine (Q T V : Type 0) : Type 0 where
  pub processor : Q
  pub sender : SingleSender T V
  pub coordinator : World
  pub acked : List Delivery

-- `IsLeader`
unfoldable pub is_leader : Config → Bool
is_leader c = nat_beq c.worker_id 0

-- The survivors of one item: its results, or that it has any.
abbrev pub survivors_of : {T : Type 0} → List T × Bool → ℕ
survivors_of (results, true) = length results
survivors_of ([], false) = 0
survivors_of (x ∷ xs, false) = 1

module _ {Q T V : Type 0} where
  unfoldable pub by_processor {κ} : {B : Type κ} → Exec Q B → Exec (StatelessEngine Q T V) B
  by_processor f s = let (r, q) = f s.processor in (r, record s { processor = q })

  unfoldable pub by_sender {κ} :
      {B : Type κ} → Exec (SingleSender T V) B → Exec (StatelessEngine Q T V) B
  by_sender f s = let (r, q) = f s.sender in (r, record s { sender = q })

  unfoldable pub by_coordinator {κ} : {B : Type κ} → Exec World B → Exec (StatelessEngine Q T V) B
  by_coordinator f s = let (r, w) = f s.coordinator in (r, record s { coordinator = w })

  -- The results of one item
  unfoldable pub send_results : Bytes → Bytes → List T → Exec (StatelessEngine Q T V) (Unit {0})
  unfolding by_sender add_item
  send_results client_id batch_id [] = pure tt
  send_results client_id batch_id (x ∷ xs) = do
    by_sender (add_item client_id x batch_id)
    send_results client_id batch_id xs

  unfoldable pub ack : Delivery → StatelessEngine Q T V → StatelessEngine Q T V
  ack d s = record s { acked = s.acked ++ d ∷ [] }

module _ {Q A T V : Type 0} (c : Config) (process : Bytes → A → Exec Q (List T × Bool)) where
  -- The loop over the items, with the survivors so far
  unfoldable pub process_items : Bytes → Bytes → List A → ℕ → Exec (StatelessEngine Q T V) ℕ
  unfolding by_processor send_results
  process_items client_id batch_id [] n = pure n
  process_items client_id batch_id (a ∷ as') n = do
    r ← by_processor (process client_id a)
    send_results client_id batch_id r.0
    process_items client_id batch_id as' ((n + survivors_of r) % u64_size)

  -- `handleDataMessage` of a batch that the coordinator does not have
  unfoldable pub handle_new_batch : Event A → Exec (StatelessEngine Q T V) (Unit {0})
  unfolding process_items by_sender by_coordinator flush_client record_batch ack
  handle_new_batch e = do
    n ← process_items e.delivery.client_id e.delivery.batch_id e.items 0
    by_sender (flush_client e.delivery.client_id)
    by_coordinator
        (record_batch c e.delivery.client_id e.delivery.batch_id (length e.items % u64_size) n)
    modify (ack e.delivery)

  unfoldable pub handle_data_message : Event A → Exec (StatelessEngine Q T V) (Unit {0})
  unfolding by_coordinator has_seen_batch handle_new_batch ack
  handle_data_message e = do
    seen ← by_coordinator (has_seen_batch c e.delivery.client_id e.delivery.batch_id)
    if seen then modify (ack e.delivery) else handle_new_batch e

  -- The errors of the three calls are dropped.
  unfoldable pub handle_cleanup_message : Event A → StatelessEngine Q T V → StatelessEngine Q T V
  unfolding by_coordinator by_sender clear_client broadcast_cleanup cleanup_client
  handle_cleanup_message e s =
      let s1 = (by_coordinator (clear_client c e.delivery.client_id) s).1 in
      let s2 = (by_coordinator (broadcast_cleanup c e.delivery.client_id) s1).1 in
      (by_sender (cleanup_client e.delivery.client_id) s2).1

  unfoldable pub handle_kind : MessageType → Event A → Exec (StatelessEngine Q T V) (Unit {0})
  unfolding handle_data_message by_coordinator handle_local_eof handle_cleanup_message ack
  handle_kind data_message e = handle_data_message e
  handle_kind eof_message e = do
    by_coordinator (handle_local_eof c e.delivery.client_id e.eof_count e.delivery.batch_id)
    modify (ack e.delivery)
  handle_kind cleanup_message e = λ s. (ok tt, ack e.delivery (handle_cleanup_message e s))

  unfoldable pub handle_event : Event A → Exec (StatelessEngine Q T V) (Unit {0})
  unfolding handle_kind
  handle_event e = handle_kind e.kind e

  -- The flush handler: only the leader sends the EOF on.
  unfoldable pub handle_true_eof : Bytes → ℕ → Bytes → Exec (StatelessEngine Q T V) (Unit {0})
  unfolding is_leader by_sender send_eof_message
  handle_true_eof client_id survivor_count eof_id s =
      if is_leader c
      then by_sender (send_eof_message client_id survivor_count eof_id) s
      else (ok tt, s)
