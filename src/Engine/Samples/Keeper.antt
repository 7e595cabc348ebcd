-- ===== src/Engine/Samples/Keeper.antt =====
-- The stateful engine with a processor that keeps nothing.
use tp_lavado_dinero.Prelude.{ℕ, suc, List, [], ◌∷◌, ok}
use tp_lavado_dinero.Checkpoint.Defs.{Delivery}
use tp_lavado_dinero.Checkpoint.Logged.{Durable}
use tp_lavado_dinero.Checkpoint.Samples.{processor, coordinator, client, x, first, second, start}
use tp_lavado_dinero.Engine.Events.{data_message, eof_message, Event}
use tp_lavado_dinero.Engine.Stateful.Defs.{Sender, StatefulProcessor, Services, StatefulEngine}
use tp_lavado_dinero.Engine.Stateful.Durable.{Step, handled, flushed, coordinated}

abbrev keeper : StatefulProcessor (Unit {0}) ℕ ℕ
keeper = record {
  checkpointable = processor;
  process = λ id n q. (ok tt, q);
  finalize = λ id yield q w. (ok 0, q, w);
  cleanup = λ id q. (ok tt, q);
}

abbrev services : Services ℕ
services = record {
  for_manager = coordinator;
  handle_local_eof = λ id n eof_id d. (ok tt, d);
  clear_client = λ id d. (ok tt, d);
}

-- It counts what it is asked to send.
abbrev counter : Sender ℕ ℕ
counter = record {
  add = λ id r name n. (ok tt, suc n);
  flush = λ id n. (ok tt, n);
  cleanup = λ id n. (ok tt, n);
  send_eof = λ id m name n. (ok tt, suc n);
}

abbrev engine : StatefulEngine (Unit {0}) ℕ ℕ
engine = record { system = start; sender = 0; cleanup_messages = []; replied = [] }

abbrev numbers : Delivery → Event ℕ
numbers d = record { delivery = d; kind = data_message; items = 3 ∷ 5 ∷ []; eof_count = 0 }

abbrev steps : List (Step ℕ ℕ)
steps =
    handled (numbers first)
    ∷ handled (numbers second)
    ∷ handled (record (numbers second) { kind = eof_message; eof_count = 1 })
    ∷ coordinated (λ d. d)
    ∷ flushed client x
    ∷ []
