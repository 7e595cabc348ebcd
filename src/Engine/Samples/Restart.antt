-- ===== src/Engine/Samples/Restart.antt =====
-- The filter with one message behind another, an EOF of a peer, and a write that fails.
use tp_lavado_dinero.Prelude.{inl, refl, true, false, some, List, [], ◌∷◌, ℕ, All, arith, bytes_eq}
use tp_lavado_dinero.Coordinator.World.{blank, eof_arrived}
use tp_lavado_dinero.Coordinator.Storage.RoundTrip.{IsPlain}
use tp_lavado_dinero.Coordinator.Protocol.{delivered}
use tp_lavado_dinero.Coordinator.Protocol.Synced.{AreComplete}
use tp_lavado_dinero.Coordinator.Samples.{config, no_files, client, x, e}
use tp_lavado_dinero.Engine.Events.{eof_message, Event}
use tp_lavado_dinero.Engine.Stateless.Defs.{handle_event}
use tp_lavado_dinero.Engine.Stateless.Serving.{
  Turn, handled, flushed, coordinated, IsServable, take_turns,
}
use tp_lavado_dinero.Engine.Stateless.Lasting.{begun, Lasts, handle_event-Lasts}
use tp_lavado_dinero.Engine.Samples.Filter.{filter, sender, numbers}

abbrev last_one : Event ℕ
last_one = record numbers {
  delivery = record { client_id = client; batch_id = e; tag = 1 };
  kind = eof_message;
  items = [];
  eof_count = 3;
}

abbrev earlier : List (Turn ℕ)
earlier = handled last_one ∷ flushed client 2 e ∷ []

abbrev later : List (Turn ℕ)
later =
    coordinated (
      delivered (
        some (record blank {
          kind = eof_arrived;
          client_id = client;
          sender_id = 1;
          eof_id = x;
          expected_total = 2;
        })))
    ∷ []

client-IsPlain : IsPlain client
client-IsPlain = record { no_bar = (ground arith, tt); no_newline = (ground arith, tt) }

numbers-IsServable : IsServable (handled numbers)
numbers-IsServable = (
  (λ h. absurd (ground (arith, h))),
  client-IsPlain,
  record { no_bar = (ground arith, tt); no_newline = (ground arith, tt) },
  omega arith,
)

earlier-All : All IsServable earlier
earlier-All = (
  (
    (λ h. absurd (ground (arith, h))),
    client-IsPlain,
    record { no_bar = (ground arith, tt); no_newline = (ground arith, tt) },
    omega arith,
  ),
  (tt, tt),
)

later-All : All IsServable later
later-All = (((λ h. absurd (ground (arith, h))), client-IsPlain), tt)

no_files-AreComplete : AreComplete [] no_files
no_files-AreComplete = record {
  batches = inl refl;
  eofs = inl refl;
  flushes = inl refl;
  entries = tt;
}

handle_event-Lasts_example :
    let s =
      take_turns config filter earlier (begun tt sender no_files (true ∷ true ∷ false ∷ [])) in
    let r = handle_event config filter numbers s in
    Lasts numbers.kind numbers.delivery s r (take_turns config filter later r.1).coordinator.files
handle_event-Lasts_example =
    handle_event-Lasts config filter tt sender no_files (true ∷ true ∷ false ∷ []) earlier later
      numbers no_files-AreComplete earlier-All numbers-IsServable later-All
