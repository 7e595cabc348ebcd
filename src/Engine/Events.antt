-- ===== src/Engine/Events.antt =====
-- internal/workers/receiver/receiver.go: the events that a receiver hands to an engine.
use tp_lavado_dinero.Prelude.{ℕ, List}
use tp_lavado_dinero.Checkpoint.Defs.{Delivery}

-- MessageType
pub data MessageType : Type 0 where
  data_message eof_message cleanup_message : MessageType

-- Event; `delivery` has its ClientID and its EventID, and stands for its AckFn.
pub record Event (A : Type 0) : Type 0 where
  pub delivery : Delivery
  pub kind : MessageType
  pub items : List A
  pub eof_count : ℕ
