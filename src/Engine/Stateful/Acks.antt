-- ===== src/Engine/Stateful/Acks.antt =====
-- statefulengine.go: which messages the engine acks by itself, past its checkpoint manager.
use tp_lavado_dinero.Prelude.{ℕ, ◌+◌, ◌≤◌, ◌≡◌, false, List, [], ◌∷◌, Bytes, bytes_eq, ◌==◌}
use tp_lavado_dinero.GoMap.{get}
use tp_lavado_dinero.Checkpoint.Line.{Codec}
use tp_lavado_dinero.Checkpoint.Defs.{Delivery, truth_of}
use tp_lavado_dinero.Checkpoint.Logged.{Durable}
use tp_lavado_dinero.Checkpoint.Steps.{bit}
use tp_lavado_dinero.Engine.Events.{MessageType, data_message, eof_message, cleanup_message}
use tp_lavado_dinero.Engine.Stateful.Defs.{Sender, StatefulProcessor, Services, StatefulEngine}
use tp_lavado_dinero.Engine.Stateful.Durable.{Step, handled, flushed, coordinated}

-- How many of the messages are the client's
abbrev pub replies_to : Bytes → List Delivery → ℕ
replies_to id [] = 0
replies_to id (d ∷ ds) = bit (d.client_id == id) + replies_to id ds

abbrev eofs_of_kind : Bytes → MessageType → Bytes → ℕ
eofs_of_kind id data_message j = 0
eofs_of_kind id eof_message j = bit (j == id)
eofs_of_kind id cleanup_message j = 0

abbrev eofs_in_step : {A C : Type 0} → Bytes → Step A C → ℕ
eofs_in_step id (handled e) = eofs_of_kind id e.kind e.delivery.client_id
eofs_in_step id (flushed j n) = 0
eofs_in_step id (coordinated f) = 0

-- How many EOFs of the client a run handles
abbrev pub eofs_in : {A C : Type 0} → Bytes → List (Step A C) → ℕ
eofs_in id [] = 0
eofs_in id (o ∷ os) = eofs_in_step id o + eofs_in id os

module _ {P C X A R : Type 0} (k : Codec) (worker_id : ℕ) (p : StatefulProcessor P A R)
    (c : Services C) (x : Sender X R) (id : Bytes) where
  -- The client is not cleaned up, and at most `n` of its messages are acked past the manager.
  abbrev Acks : ℕ → StatefulEngine P C X → Type 0
  Acks n s = (truth_of (get s.cleanup_messages id) ≡ false) × (replies_to id s.replied ≤ n)
