-- ===== src/Engine/Stateful/Defs.antt =====
-- statefulengine.go. The coordinator calls `handle_true_eof` as its flush handler, which is a step of
-- its own here.
use tp_lavado_dinero.Prelude.{
  ℕ, Bool, true, List, [], ◌∷◌, ◌++◌, Bytes, bytes_eq, length, ◌%◌, if◌then◌else◌, Exec, Result, ok,
  err, ◌>>=◌, ◌>>◌, pure, modify,
}
use tp_lavado_dinero.Decimal.{u64_size, format_uint}
use tp_lavado_dinero.GoMap.{Map, get, put}
use tp_lavado_dinero.Checkpoint.Line.{Codec}
use tp_lavado_dinero.Checkpoint.Defs.{
  Delivery, Processor, Coordinator, System, truth_of, by_processor, by_coordinator, begin_batch,
  abort_batch, commit_batch, flush_pending_batches, clear_state,
}
use tp_lavado_dinero.Engine.Events.{MessageType, data_message, eof_message, cleanup_message, Event}

-- sender.Sender
pub record Sender (X R : Type 0) : Type 0 where
  pub add : Bytes → R → Bytes → Exec X (Unit {0})
  pub flush : Bytes → Exec X (Unit {0})
  pub cleanup : Bytes → Exec X (Unit {0})
  pub send_eof : Bytes → ℕ → Bytes → Exec X (Unit {0})

-- StatefulProcessor with Checkpointable. `Finalize` gets its `yield` with the state that this changes.
pub record StatefulProcessor (P A R : Type 0) : Type 1 where
  pub checkpointable : Processor P
  pub process : Bytes → A → Exec P (Unit {0})
  pub finalize : {W : Type 0} → Bytes → (R → Exec W (Unit {0})) → P → W → Result ℕ × P × W
  pub cleanup : Bytes → Exec P (Unit {0})

-- What the engine, and its checkpoint manager, call of coordinator.Coordinator
pub record Services (C : Type 0) : Type 0 where
  pub for_manager : Coordinator C
  pub handle_local_eof : Bytes → ℕ → Bytes → Exec C (Unit {0})
  pub clear_client : Bytes → Exec C (Unit {0})

-- The engine with the checkpoint manager, the processor and the coordinator in `system`; `replied` are
-- the messages acked but for those that the manager acks with their batches.
pub record StatefulEngine (P C X : Type 0) : Type 0 where
  pub system : System P C
  pub sender : X
  pub cleanup_messages : Map Bytes Bool
  pub replied : List Delivery

module _ {P C X : Type 0} where
  -- AckFn, and AckEOF and AckCleanup of the manager
  unfoldable pub reply : Delivery → StatefulEngine P C X → StatefulEngine P C X
  reply d s = record s { replied = s.replied ++ d ∷ [] }

  unfoldable pub in_system {κ} : {B : Type κ} → Exec (System P C) B → Exec (StatefulEngine P C X) B
  in_system f s = let (r, t) = f s.system in (r, record s { system = t })

module _ {P C X A R : Type 0} (k : Codec) (worker_id : ℕ) (p : StatefulProcessor P A R)
    (c : Services C) (x : Sender X R) where
  -- `Process` for one item after the other
  unfoldable pub process_items : Bytes → List A → Exec (System P C) (Unit {0})
  unfolding by_processor
  process_items client_id [] = pure tt
  process_items client_id (a ∷ items) = do
    by_processor k p.checkpointable c.for_manager (p.process client_id a)
    process_items client_id items

  -- A batch that fails is aborted, and its error returned.
  unfoldable pub or_abort : Bytes → Result (Unit {0}) × System P C → Result (Unit {0}) × System P C
  unfolding abort_batch
  or_abort client_id (ok _, s) = (ok tt, s)
  or_abort client_id (err e, s) = (err e, abort_batch k p.checkpointable c.for_manager client_id s)

  -- The items of a batch that is to be processed, and its end
  unfoldable pub process_batch : Event A → Exec (System P C) (Unit {0})
  unfolding process_items or_abort commit_batch
  process_batch e = do
    λ s. or_abort e.delivery.client_id (process_items e.delivery.client_id e.items s)
    commit_batch k p.checkpointable c.for_manager e.delivery.client_id e.delivery.batch_id
        (length e.items % u64_size)

  unfoldable pub handle_data_message : Event A → Exec (System P C) (Unit {0})
  unfolding begin_batch process_batch
  handle_data_message e s =
      let (should_process, t) = begin_batch k p.checkpointable c.for_manager e.delivery s in
      if should_process then process_batch e t else (ok tt, t)

  -- The flush handler. `Finalize` adds its results to the sender under the new name.
  unfoldable pub new_eof : Bytes → Bytes
  new_eof eof_id = eof_id ++ b'-' ∷ format_uint worker_id

  abbrev pub finalized : StatefulEngine P C X → Result ℕ × P × X → Result ℕ × StatefulEngine P C X
  finalized s (r, q, y) = (r, record s { system = record s.system { processor = q }; sender = y })

  unfoldable pub by_sender {κ} : {B : Type κ} → Exec X B → Exec (StatefulEngine P C X) B
  by_sender f s = let (r, y) = f s.sender in (r, record s { sender = y })

  unfoldable pub handle_true_eof : Bytes → Bytes → Exec (StatefulEngine P C X) (Unit {0})
  unfolding new_eof by_sender
  handle_true_eof client_id eof_id = do
    survivors ← λ s.
        finalized s (
          p.finalize client_id (λ r. x.add client_id r (new_eof eof_id)) s.system.processor
            s.sender)
    by_sender (x.flush client_id)
    by_sender (x.send_eof client_id survivors (new_eof eof_id))

  -- Behind `processor.Cleanup`; the errors of the three calls are dropped.
  unfoldable pub clear_all : Bytes → StatefulEngine P C X → StatefulEngine P C X
  unfolding in_system by_coordinator by_sender clear_state
  clear_all client_id s =
      let s1 =
        (in_system (by_coordinator k p.checkpointable c.for_manager (c.clear_client client_id))
          s).1 in
      let s2 = (by_sender (x.cleanup client_id) s1).1 in
      let s3 = (in_system (clear_state k p.checkpointable c.for_manager client_id) s2).1 in
      record s3 { cleanup_messages = put s3.cleanup_messages client_id true }

  unfoldable pub handle_cleanup_message : Bytes → Exec (StatefulEngine P C X) (Unit {0})
  unfolding in_system by_processor clear_all
  handle_cleanup_message client_id = do
    in_system (by_processor k p.checkpointable c.for_manager (p.cleanup client_id))
    λ s. (ok tt, clear_all client_id s)

  unfoldable pub handle_kind : MessageType → Event A → Exec (StatefulEngine P C X) (Unit {0})
  unfolding in_system handle_data_message by_coordinator flush_pending_batches reply
      handle_cleanup_message
  handle_kind data_message e = in_system (handle_data_message e)
  handle_kind eof_message e = do
    in_system (
        by_coordinator k p.checkpointable c.for_manager
          (c.handle_local_eof e.delivery.client_id e.eof_count e.delivery.batch_id))
    in_system (flush_pending_batches k p.checkpointable c.for_manager e.delivery.client_id)
    modify (reply e.delivery)
  handle_kind cleanup_message e = do
    handle_cleanup_message e.delivery.client_id
    modify (reply e.delivery)

  -- The messages of a client that is cleaned up are acked, and that is all.
  unfoldable pub handle_event : Event A → Exec (StatefulEngine P C X) (Unit {0})
  unfolding handle_kind reply
  handle_event e s =
      if truth_of (get s.cleanup_messages e.delivery.client_id)
      then (ok tt, reply e.delivery s)
      else handle_kind e.kind e s
