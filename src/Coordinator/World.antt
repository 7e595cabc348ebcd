-- ===== src/Coordinator/World.antt =====
-- The state of one coordinator with what its calls do outside: the files of its logs, the messages
-- that it has sent and the flushes that it has asked for. `outcomes` says which of the calls to come
-- succeed, in their order; those behind its end do. A call that fails has no effect here.
use tp_lavado_dinero.Prelude.{
  ℕ, Bool, true, false, List, [], ◌∷◌, ◌++◌, Bytes, bytes_eq, Exec, ok, err, call_failed,
}
use tp_lavado_dinero.GoMap.{Map, put}
use tp_lavado_dinero.Coordinator.ClientState.{ClientState}

-- CoordinationMessageType of the protocol; `unknown` is any other number.
pub data Kind : Type 0 where
  wakeup eof_arrived batch_information cleanup unknown : Kind

-- protobuf.BatchInformation
pub record BatchInformation : Type 0 where
  pub batch_id : Bytes
  pub processed_count : ℕ
  pub survivor_count : ℕ

-- protobuf.EOFCoordination; a field that a message does not set has its zero value.
pub record Message : Type 0 where
  pub kind : Kind
  pub client_id : Bytes
  pub sender_id : ℕ
  pub eof_id : Bytes
  pub expected_total : ℕ
  pub information : List BatchInformation

abbrev pub blank : Message
blank = record {
  kind = eof_arrived;
  client_id = [];
  sender_id = 0;
  eof_id = [];
  expected_total = 0;
  information = [];
}

-- BatchStorage: the contents of batches.log, eofs.log and flushed.log
pub record Files : Type 0 where
  pub batch_log : Bytes
  pub eof_log : Bytes
  pub flushed_log : Bytes

-- One call of the flush handler: client, survivors, name of the last EOF.
pub record Flush : Type 0 where
  pub client_id : Bytes
  pub survivors : ℕ
  pub eof_id : Bytes

pub record World : Type 0 where
  pub clients : Map Bytes ClientState
  pub cleaned_clients : Map Bytes Bool
  pub files : Files
  pub sent : List (Bytes × Message)
  pub flushes : List Flush
  pub outcomes : List Bool

abbrev pub Action : Type 0
Action = Exec World (Unit {0})

-- A call outside the program, with what it does if it succeeds.
abbrev pub with_outcome : List Bool → (World → World) → Action
with_outcome [] f w = (ok tt, f w)
with_outcome (true ∷ os) f w = (ok tt, f (record w { outcomes = os }))
with_outcome (false ∷ os) f w = (err call_failed, record w { outcomes = os })

unfoldable pub call : (World → World) → Action
call f w = with_outcome w.outcomes f w

abbrev pub when : Bool → Action → Action
when true a w = a w
when false a w = (ok tt, w)

-- exchange.SendWithKey
unfoldable pub send_with_key : Bytes → Message → Action
unfolding call
send_with_key key msg = call (λ w. record w { sent = w.sent ++ (key, msg) ∷ [] })

-- serializer.SerializeCoordinationMessage
unfoldable pub serialize : Message → Action
unfolding call
serialize msg = call (λ w. w)

unfoldable pub set_client : Bytes → ClientState → World → World
set_client client_id cs w = record w { clients = put w.clients client_id cs }
