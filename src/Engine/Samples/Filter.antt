-- ===== src/Engine/Samples/Filter.antt =====
-- The stateless engine with a filter that keeps the numbers below ten.
use tp_lavado_dinero.Prelude.{
  ℕ, refl, Bool, false, none, List, [], ◌∷◌, arith, Bytes, bytes_eq, ltb, if◌then◌else◌, Exec, ok,
}
use tp_lavado_dinero.GoMap.{get}
use tp_lavado_dinero.Coordinator.ClientState.{
  is_ready_to_flush, has_own_batch, has_all_eofs, eof_totals, copy_eofs, merge_peer_eofs, sum_eofs,
}
use tp_lavado_dinero.Coordinator.Protocol.{client_of}
use tp_lavado_dinero.Batch.Defs.{new, new_batcher}
use tp_lavado_dinero.Coordinator.Samples.{config, start}
use tp_lavado_dinero.Engine.Events.{data_message, Event}
use tp_lavado_dinero.Engine.Sender.{SingleSender, batcher_of}
use tp_lavado_dinero.Engine.Sender.Clients.{Sound}
use tp_lavado_dinero.Engine.Stateless.Defs.{StatelessEngine, handle_event, handle_data_message}
use tp_lavado_dinero.Engine.Stateless.Acks.{Answer, handle_event-Answer}
use tp_lavado_dinero.Engine.Stateless.Results.{Published, handle_data_message-Published}

abbrev pub filter : Bytes → ℕ → Exec (Unit {0}) (List ℕ × Bool)
filter id n q = (ok (if ltb n 10 then n ∷ [] else [], false), q)

abbrev pub sender : SingleSender ℕ (List ℕ)
sender = record {
  namespace = b'n' ∷ [];
  wrapper = λ xs. xs;
  sizer = λ n. n;
  max_weight = 6;
  key_resolver = λ id. none;
  output = record { published = []; outcomes = [] };
  batchers = [];
}

abbrev engine : StatelessEngine (Unit {0}) ℕ (List ℕ)
engine = record { processor = tt; sender = sender; coordinator = start; acked = [] }

abbrev pub numbers : Event ℕ
numbers = record {
  delivery = record { client_id = b'c' ∷ []; batch_id = b'x' ∷ []; tag = 0 };
  kind = data_message;
  items = 3 ∷ 12 ∷ 5 ∷ [];
  eof_count = 0;
}

handle_event-Answer_example :
    Answer data_message numbers.delivery [] (handle_event config filter numbers engine)
handle_event-Answer_example = handle_event-Answer config filter numbers engine

sender-Sound : Sound (λ xs. xs) (λ n. n) (b'c' ∷ []) sender
unfolding batcher_of new new_batcher get
sender-Sound = record {
  outcomes = refl;
  batcher = record {
    sends = λ v name w. refl;
    wraps = λ xs. refl;
    sizes = λ n. refl;
    heavy = tt;
    weighs = refl;
  };
}

handle_data_message-Published_example :
    Published
      (λ xs. xs)
      (λ n. n)
      config
      filter
      numbers
      ((3 ∷ [], false) ∷ ([], false) ∷ (5 ∷ [], false) ∷ [])
      tt
      engine
      (handle_data_message config filter numbers engine)
handle_data_message-Published_example =
    handle_data_message-Published (λ xs. xs) (λ n. n) config filter numbers
      ((3 ∷ [], false) ∷ ([], false) ∷ (5 ∷ [], false) ∷ []) tt engine sender-Sound
      (omega arith, (omega arith, tt)) (tt, refl, (tt, refl, (tt, refl, refl))) refl
      (unfold is_ready_to_flush has_all_eofs eof_totals copy_eofs merge_peer_eofs sum_eofs client_of
          get in
        refl)
      (unfold has_own_batch client_of get in refl)
