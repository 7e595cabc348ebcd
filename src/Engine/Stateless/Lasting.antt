-- ===== src/Engine/Stateless/Lasting.antt =====
-- statelessengine.go: the engine with its coordinator over a run without clean-ups, and a restart of
-- the coordinator on the files that the run leaves.
use tp_lavado_dinero.Prelude.{
  ◌≡◌, ◌≢◌, refl, sym, ap, ◌∙◌, ◌⊎◌, inl, inr, Bool, List, [], ◌∷◌, ◌++◌, Bytes, bytes_eq, All,
  Exec, Error, Result, ok, err,
}
use tp_lavado_dinero.GoMap.{is_some}
use tp_lavado_dinero.Checkpoint.Defs.{Delivery}
use tp_lavado_dinero.Coordinator.ClientState.{has_own_batch, has_own_eof}
use tp_lavado_dinero.Coordinator.World.{Files, World}
use tp_lavado_dinero.Coordinator.Protocol.{Config}
use tp_lavado_dinero.Coordinator.Protocol.Synced.{
  Entry, batch_entry, eof_entry, AreComplete, Synced,
}
use tp_lavado_dinero.Coordinator.Protocol.Recalled.{restarted, restarted-Synced}
use tp_lavado_dinero.Engine.Events.{MessageType, data_message, eof_message, cleanup_message, Event}
use tp_lavado_dinero.Engine.Sender.{SingleSender}
use tp_lavado_dinero.Engine.Stateless.Defs.{StatelessEngine, handle_event}
use tp_lavado_dinero.Engine.Stateless.Acks.{Noted, handle_event-Answer}
use tp_lavado_dinero.Engine.Stateless.Serving.{
  Turn, handled, IsServable, take_turn, take_turns, take_turn-Synced, take_turns-Synced,
}

-- What the logs have of a message that is noted
noted_entries : MessageType → Delivery → List Entry
noted_entries data_message d = batch_entry d.client_id d.batch_id ∷ []
noted_entries eof_message d = eof_entry d.client_id d.batch_id ∷ []
noted_entries cleanup_message d = []

Noted-Synced :
    (kind : MessageType) (d : Delivery) (w : World)
    → Synced [] w
    → Noted kind d w
    → Synced (noted_entries kind d) w
unfolding noted_entries has_own_batch has_own_eof
Noted-Synced data_message d w s h =
    let batches = (s.agree d.client_id).batches d.batch_id in
    record {
      complete = record {
        batches = s.complete.batches;
        eofs = s.complete.eofs;
        flushes = s.complete.flushes;
        entries = (ap is_some (sym batches) ∙ h, tt);
      };
      agree = s.agree;
    }
Noted-Synced eof_message d w s h =
    let eofs = (s.agree d.client_id).eofs d.batch_id in
    record {
      complete = record {
        batches = s.complete.batches;
        eofs = s.complete.eofs;
        flushes = s.complete.flushes;
        entries = (ap is_some (sym eofs) ∙ h, tt);
      };
      agree = s.agree;
    }
Noted-Synced cleanup_message d w s h = s

Synced-Noted :
    (kind : MessageType) (d : Delivery) (w : World)
    → kind ≢ cleanup_message
    → Synced (noted_entries kind d) w
    → Noted kind d w
unfolding noted_entries has_own_batch has_own_eof
Synced-Noted data_message d w other s =
    ap is_some ((s.agree d.client_id).batches d.batch_id) ∙ s.complete.entries.0
Synced-Noted eof_message d w other s =
    ap is_some ((s.agree d.client_id).eofs d.batch_id) ∙ s.complete.entries.0
Synced-Noted cleanup_message d w other s = absurd (other refl)

-- The engine of a worker that starts on these files
abbrev pub begun :
    {Q T V : Type 0} → Q → SingleSender T V → Files → List Bool → StatelessEngine Q T V
begun q x files outcomes = record {
  processor = q;
  sender = x;
  coordinator = restarted files outcomes;
  acked = [];
}

-- From `s` to `r` the message is refused with an error and not acked, or it is acked once, and a
-- coordinator that is started anew on `files` has it.
abbrev pub Lasts :
    {Q T V : Type 0}
    → MessageType
    → Delivery
    → StatelessEngine Q T V
    → Result (Unit {0}) × StatelessEngine Q T V
    → Files
    → Type 0
Lasts kind d s r files =
    ((x : Error) × (r.0 ≡ err x) × (r.1.acked ≡ s.acked))
    ⊎ ((r.0 ≡ ok tt) × (r.1.acked ≡ s.acked ++ d ∷ []) × Noted kind d (restarted files []))

-- A worker starts on logs that end with complete lines, and serves events, calls of the flush
-- handler and its coordinator's own operations, none of them a clean-up, and with names and counts
-- that a line can hold, whatever calls fail. Then any event of the run either ends in an error and
-- is not acked, or it is acked once, and whenever the worker is later started anew and reads its
-- coordinator's files without an error, the batch or the EOF is one of the client's own.
pub handle_event-Lasts :
    {Q A T V : Type 0} (c : Config) (process : Bytes → A → Exec Q (List T × Bool)) (q : Q)
    (x : SingleSender T V) (files : Files) (outcomes : List Bool) (earlier later : List (Turn A))
    (e : Event A)
    → AreComplete [] files
    → All IsServable earlier
    → IsServable (handled e)
    → All IsServable later
    → let s = take_turns c process earlier (begun q x files outcomes) in
      let r = handle_event c process e s in
      Lasts e.kind e.delivery s r (take_turns c process later r.1).coordinator.files
unfolding take_turn
handle_event-Lasts c process q x files outcomes earlier later e complete fine one more =
    let s = take_turns c process earlier (begun q x files outcomes) in
    let r = handle_event c process e s in
    let t = take_turns c process later r.1 in
    let before : Synced [] s.coordinator =
      take_turns-Synced c process [] earlier (begun q x files outcomes) fine
        (restarted-Synced files outcomes complete) in
    let now : Synced [] r.1.coordinator = take_turn-Synced c process [] (handled e) s one before in
    elim (handle_event-Answer c process e s) [
      | inl refused ↦ inl refused
      | inr (returned, acked, noted) ↦
          let known = noted_entries e.kind e.delivery in
          let kept : Synced known t.coordinator =
            take_turns-Synced c process known later r.1 more
              (Noted-Synced e.kind e.delivery r.1.coordinator now noted) in
          inr (
            returned,
            acked,
            Synced-Noted e.kind e.delivery (restarted t.coordinator.files []) one.0
                (restarted-Synced t.coordinator.files [] kept.complete),
          )
    ]
