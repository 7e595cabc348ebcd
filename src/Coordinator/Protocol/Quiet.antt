-- ===== src/Coordinator/Protocol/Quiet.antt =====
-- Actions that leave the clients, the set of cleaned clients and the list of flushes alone: all that
-- only send messages or write to the files.
use tp_lavado_dinero.Prelude.{
  ℕ, ◌≡◌, ◌≤◌, refl, ap, ◌∙◌, arith, length, Bool, List, Bytes, Exec, ok, ◌>>=◌,
}
use tp_lavado_dinero.GoMap.{Map}
use tp_lavado_dinero.Coordinator.ClientState.{BatchRecord, ClientState}
use tp_lavado_dinero.Coordinator.World.{
  BatchInformation, Message, World, Action, call, when, send_with_key, serialize,
}
use tp_lavado_dinero.Coordinator.Storage.Operations.{write_batch, write_eof, write_flushed}
use tp_lavado_dinero.Coordinator.Protocol.Sending.{
  Config, broadcast, broadcast_batch, broadcast_eof, send_records, broadcast_own_batches,
}
use tp_lavado_dinero.Coordinator.Protocol.Moving.{
  Journey, Moves, Moves-bind, Moves-call, Moves-ok, Moves-when, Moves-broadcast, Moves-send_records,
  Moves-broadcast_batch, Moves-broadcast_own_batches,
}

pub record SameCore (v w : World) : Type 0 where
  pub clients : w.clients ≡ v.clients
  pub cleaned : w.cleaned_clients ≡ v.cleaned_clients
  pub flushes : w.flushes ≡ v.flushes
  pub spent : length w.outcomes ≤ length v.outcomes

pub SameCore-refl : (w : World) → SameCore w w
SameCore-refl w = record { clients = refl; cleaned = refl; flushes = refl; spent = omega arith }

pub SameCore-trans : {u v w : World} → SameCore u v → SameCore v w → SameCore u w
SameCore-trans p q = record {
  clients = q.clients ∙ p.clients;
  cleaned = q.cleaned ∙ p.cleaned;
  flushes = q.flushes ∙ p.flushes;
  spent = omega (arith, p.spent, q.spent);
}

pub SameCore-Journey : Journey SameCore
SameCore-Journey = record {
  stay = SameCore-refl;
  join = SameCore-trans;
  spend = λ w b os e. record {
    clients = refl;
    cleaned = refl;
    flushes = refl;
    spent = omega (arith, ap length e);
  };
}

abbrev pub Quiet {κ} : {A : Type κ} → Exec World A → Type κ
Quiet m = Moves SameCore m

pub Quiet-bind {κ ι} :
    {A : Type κ} {B : Type ι} (m : Exec World A) (f : A → Exec World B)
    → Quiet m
    → ((a : A) → Quiet (f a))
    → Quiet (m >>= f)
Quiet-bind = Moves-bind SameCore SameCore-Journey

pub Quiet-call : (f : World → World) → ((v : World) → SameCore v (f v)) → Quiet (call f)
Quiet-call = Moves-call SameCore SameCore-Journey

pub Quiet-write_batch : (client_id : Bytes) (r : BatchRecord) → Quiet (write_batch client_id r)
unfolding write_batch
Quiet-write_batch client_id r =
    Quiet-call _
      (λ v. record { clients = refl; cleaned = refl; flushes = refl; spent = omega arith })

pub Quiet-write_eof : (client_id eof_id : Bytes) (n : ℕ) → Quiet (write_eof client_id eof_id n)
unfolding write_eof
Quiet-write_eof client_id eof_id n =
    Quiet-call _
      (λ v. record { clients = refl; cleaned = refl; flushes = refl; spent = omega arith })

pub Quiet-write_flushed : (client_id : Bytes) → Quiet (write_flushed client_id)
unfolding write_flushed
Quiet-write_flushed client_id =
    Quiet-call _
      (λ v. record { clients = refl; cleaned = refl; flushes = refl; spent = omega arith })

pub Quiet-send_with_key : (key : Bytes) (msg : Message) → Quiet (send_with_key key msg)
unfolding send_with_key
Quiet-send_with_key key msg =
    Quiet-call _
      (λ v. record { clients = refl; cleaned = refl; flushes = refl; spent = omega arith })

pub Quiet-serialize : (msg : Message) → Quiet (serialize msg)
unfolding serialize
Quiet-serialize msg = Quiet-call _ SameCore-refl

pub Quiet-ok : Quiet {A = Unit {0}} (λ w. (ok tt, w))
Quiet-ok = Moves-ok SameCore SameCore-Journey

pub Quiet-when : (b : Bool) (m : Action) → Quiet m → Quiet (when b m)
Quiet-when = Moves-when SameCore SameCore-Journey

module _ (c : Config) where
  pub Quiet-broadcast : (msg : Message) → Quiet (broadcast c msg)
  Quiet-broadcast = Moves-broadcast SameCore SameCore-Journey Quiet-send_with_key c

  pub Quiet-broadcast_batch :
      (information : List BatchInformation) (client_id : Bytes)
      → Quiet (broadcast_batch c information client_id)
  Quiet-broadcast_batch = Moves-broadcast_batch SameCore SameCore-Journey Quiet-send_with_key c

  pub Quiet-broadcast_eof :
      (client_id eof_id : Bytes) (n : ℕ) → Quiet (broadcast_eof c client_id eof_id n)
  unfolding broadcast_eof
  Quiet-broadcast_eof client_id eof_id n = Quiet-broadcast _

  pub Quiet-send_records :
      (on_flush : List BatchInformation → Bytes → Action) (records : Map Bytes BatchRecord)
      → ((v : List BatchInformation) (id : Bytes) → Quiet (on_flush v id))
      → Quiet (send_records c on_flush records)
  Quiet-send_records = Moves-send_records SameCore SameCore-Journey Quiet-send_with_key c

  pub Quiet-broadcast_own_batches :
      (client_id : Bytes) (cs : ClientState) → Quiet (broadcast_own_batches c client_id cs)
  Quiet-broadcast_own_batches =
      Moves-broadcast_own_batches SameCore SameCore-Journey Quiet-send_with_key c
