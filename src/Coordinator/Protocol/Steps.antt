-- ===== src/Coordinator/Protocol/Steps.antt =====
-- eofcoordinator.go: what happens to a coordinator in its life, as steps. The worker calls an
-- exported operation, or the broker delivers a message to `handleCoordinationMessage`.
use tp_lavado_dinero.Prelude.{
  ℕ, ◌+◌, Bool, Option, none, some, List, [], ◌∷◌, Bytes, bytes_eq, ◌==◌, if◌then◌else◌,
}
use tp_lavado_dinero.Coordinator.World.{
  Kind, wakeup, eof_arrived, batch_information, cleanup, unknown, World, Flush, Message,
}
use tp_lavado_dinero.Coordinator.Protocol.Sending.{Config, wake_up_notification}
use tp_lavado_dinero.Coordinator.Protocol.Defs.{
  record_batch, handle_local_eof, has_seen_batch, reached_eof_amount, clear_client,
  broadcast_cleanup, handle_coordination_message,
}

pub data Op : Type 0 where
  started : Op
  batch_recorded : (client_id batch_id : Bytes) → (processed survivors : ℕ) → Op
  eof_handled : (client_id eof_id : Bytes) → (expected_total : ℕ) → Op
  batch_asked : (client_id batch_id : Bytes) → Op
  eofs_asked client_cleared cleanup_sent : (client_id : Bytes) → Op
  delivered : Option Message → Op

module _ (c : Config) where
  -- The world behind an operation, whatever it returns.
  unfoldable pub step : Op → World → World
  unfolding wake_up_notification record_batch handle_local_eof has_seen_batch reached_eof_amount
      clear_client broadcast_cleanup handle_coordination_message
  step started w = (wake_up_notification c w).1
  step (batch_recorded id b p s) w = (record_batch c id b p s w).1
  step (eof_handled id e n) w = (handle_local_eof c id n e w).1
  step (batch_asked id b) w = (has_seen_batch c id b w).1
  step (eofs_asked id) w = (reached_eof_amount c id w).1
  step (client_cleared id) w = (clear_client c id w).1
  step (cleanup_sent id) w = (broadcast_cleanup c id w).1
  step (delivered m) w = (handle_coordination_message c m w).1

  unfoldable pub run : List Op → World → World
  unfolding step
  run [] w = w
  run (o ∷ os) w = run os (step o w)

abbrev pub bit : Bool → ℕ
bit b = if b then 1 else 0

abbrev pub message_clears : Bytes → Kind → Bytes → ℕ
message_clears id cleanup j = bit (id == j)
message_clears id wakeup j = 0
message_clears id eof_arrived j = 0
message_clears id batch_information j = 0
message_clears id unknown j = 0

-- How often a step, or all of a list, may clear the client `id`.
abbrev pub clears : Bytes → Op → ℕ
clears id (client_cleared j) = bit (id == j)
clears id (delivered (some msg)) = message_clears id msg.kind msg.client_id
clears id (delivered none) = 0
clears id started = 0
clears id (batch_recorded j b p s) = 0
clears id (eof_handled j e n) = 0
clears id (batch_asked j b) = 0
clears id (eofs_asked j) = 0
clears id (cleanup_sent j) = 0

abbrev pub clears_in : Bytes → List Op → ℕ
clears_in id [] = 0
clears_in id (o ∷ os) = clears id o + clears_in id os

-- How often the flush handler was called for the client `id`.
abbrev pub flush_count : Bytes → List Flush → ℕ
flush_count id [] = 0
flush_count id (f ∷ fs) = bit (id == f.client_id) + flush_count id fs
