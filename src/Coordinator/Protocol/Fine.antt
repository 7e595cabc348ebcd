-- ===== src/Coordinator/Protocol/Fine.antt =====
-- Actions that return no error where no call fails: sending, writing, and the batcher's loop over them.
use tp_lavado_dinero.Prelude.{
  ℕ, ◌≡◌, refl, ap, ◌∙◌, inl, inr, Bool, true, false, List, [], ◌∷◌, Bytes, arith, Bool-cases,
  Result, ok, err, ◌>>◌, after,
}
use tp_lavado_dinero.Batch.Defs.{
  Batch, Batcher, add, add_emptied, add_all, flush_pending, send_all, new_batcher, try_add,
  is_empty, flush, clear,
}
use tp_lavado_dinero.Coordinator.ClientState.{BatchRecord, ClientState}
use tp_lavado_dinero.Coordinator.World.{
  BatchInformation, Message, World, Action, with_outcome, call, when, send_with_key, serialize,
}
use tp_lavado_dinero.Coordinator.Storage.Operations.{write_batch, write_eof, write_flushed}
use tp_lavado_dinero.Coordinator.Protocol.Sending.{
  Config, call_flush_handler, send_keys, broadcast, broadcast_batch, broadcast_eof, send_records,
  broadcast_own_batches,
}

pub record Fine (m : Action) : Type 0 where
  pub at : (w : World) → w.outcomes ≡ [] → ((m w).0 ≡ ok tt) × ((m w).1.outcomes ≡ [])

all_right :
    (os : List Bool) (f : World → World) (w : World)
    → os ≡ []
    → (f w).outcomes ≡ []
    → ((with_outcome os f w).0 ≡ ok tt) × ((with_outcome os f w).1.outcomes ≡ [])
all_right [] f w e h = (refl, h)
all_right (o ∷ os) f w e h = absurd (ground (arith, e))

Fine-call : (f : World → World) → ((v : World) → (f v).outcomes ≡ v.outcomes) → Fine (call f)
unfolding call
Fine-call f h = record { at = λ w e. all_right w.outcomes f w e (h w ∙ e) }

pub after-Fine : (m k : Action) (w : World) → Fine m → w.outcomes ≡ [] → (m >> k) w ≡ k (m w).1
after-Fine m k w f e =
    ap (λ (r : Result (Unit {0})). after (λ (_ : Unit {0}). k) (r, (m w).1)) ((f.at w e).0)

Fine-then : (m k : Action) → Fine m → Fine k → Fine (m >> k)
Fine-then m k f g = record {
  at = λ w e.
      let same = after-Fine m k w f e in
      let v = g.at (m w).1 (f.at w e).1 in
      (
        ap (λ (r : Result (Unit {0}) × World). r.0) same ∙ v.0,
        ap (λ (r : Result (Unit {0}) × World). r.1.outcomes) same ∙ v.1,
      );
}

pub Fine-write_batch : (client_id : Bytes) (r : BatchRecord) → Fine (write_batch client_id r)
unfolding write_batch
Fine-write_batch client_id r = Fine-call _ (λ v. refl)

pub Fine-write_eof : (client_id eof_id : Bytes) (n : ℕ) → Fine (write_eof client_id eof_id n)
unfolding write_eof
Fine-write_eof client_id eof_id n = Fine-call _ (λ v. refl)

pub Fine-write_flushed : (client_id : Bytes) → Fine (write_flushed client_id)
unfolding write_flushed
Fine-write_flushed client_id = Fine-call _ (λ v. refl)

pub Fine-call_flush_handler :
    (client_id : Bytes) (n : ℕ) (eof_id : Bytes) → Fine (call_flush_handler client_id n eof_id)
unfolding call_flush_handler
Fine-call_flush_handler client_id n eof_id = Fine-call _ (λ v. refl)

Fine-ok : Fine (λ w. (ok tt, w))
Fine-ok = record { at = λ w e. (refl, e) }

pub Fine-when : (b : Bool) (m : Action) → Fine m → Fine (when b m)
Fine-when true m h = record { at = h.at }
Fine-when false m h = record { at = λ w e. (refl, e) }

Fine-send_keys : (keys : List Bytes) (msg : Message) → Fine (send_keys keys msg)
unfolding send_keys send_with_key
Fine-send_keys [] msg = Fine-ok
Fine-send_keys (key ∷ keys) msg =
    Fine-then (send_with_key key msg) (send_keys keys msg) (Fine-call _ (λ v. refl))
      (Fine-send_keys keys msg)

try_add_empty : {T V : Type 0} (b : Batch T V) (x : T) → (try_add (clear b) x).0 ≡ true
unfolding try_add clear
try_add_empty b x = ground arith

module _ {T V : Type 0} where
  abbrev IsFine : Batcher World T V → Type 0
  IsFine s = (v : V) (id : Bytes) → Fine (s.on_flush v id)

  abbrev Goes : Result (Unit {0}) × Batcher World T V × World → Type 0
  Goes (r, s, w) = (r ≡ ok tt) × IsFine s × (w.outcomes ≡ [])

  add_emptied-Goes :
      (s : Batcher World T V) (b : Batch T V) (x : T) (r : Result (Unit {0}) × World)
      → s.batch ≡ clear b
      → IsFine s
      → r.0 ≡ ok tt
      → r.1.outcomes ≡ []
      → Goes (add_emptied s x r)
  unfolding add_emptied
  add_emptied-Goes s b x (ok _, w) e q o h =
      let added : (try_add s.batch x).0 ≡ true =
        ap (λ (a : Batch T V). (try_add a x).0) e ∙ try_add_empty b x in
      rw (added, add_emptied) (refl, q, h)
  add_emptied-Goes s b x (err y, w) e q o h = absurd (ground (arith, o))

  add-Goes :
      (s : Batcher World T V) (x : T) (w : World) → IsFine s → w.outcomes ≡ [] → Goes (add s x w)
  unfolding add flush
  add-Goes s x w q h = elim (Bool-cases (try_add s.batch x).0) [
    | inl fits ↦ rw (fits, add) (refl, q, h)
    | inr full ↦
        let v = (q (s.batch.wrapper s.batch.items) s.batch.sub_id).at w h in
        rw (full, add) (add_emptied-Goes _ s.batch x _ refl q v.0 v.1)
  ]

  flush_pending-Goes :
      (s : Batcher World T V) (w : World) → IsFine s → w.outcomes ≡ [] → Goes (flush_pending s w)
  unfolding flush_pending flush
  flush_pending-Goes s w q h = elim (Bool-cases (is_empty s.batch)) [
    | inl none' ↦ rw (none', flush_pending) (refl, q, h)
    | inr some' ↦
        let v = (q (s.batch.wrapper s.batch.items) s.batch.sub_id).at w h in
        rw (some', flush_pending) (v.0, q, v.1)
  ]

  add_all-Goes :
      (xs : List T) (s : Batcher World T V) (w : World)
      → IsFine s
      → w.outcomes ≡ []
      → Goes (add_all s xs w)
  unfolding add_all
  add_all-Goes [] s w q h = (refl, q, h)
  add_all-Goes (x ∷ xs) s w q h =
      let (e, q', h') = add-Goes s x w q h in
      rw (e, add_all) (add_all-Goes xs (add s x w).1 (add s x w).2 q' h')

  send_all-Goes :
      (xs : List T) (s : Batcher World T V) (w : World)
      → IsFine s
      → w.outcomes ≡ []
      → Goes (send_all s xs w)
  unfolding send_all
  send_all-Goes xs s w q h =
      let (e, q', h') = add_all-Goes xs s w q h in
      rw (e, send_all) (flush_pending-Goes (add_all s xs w).1 (add_all s xs w).2 q' h')

module _ (c : Config) where
  Fine-broadcast : (msg : Message) → Fine (broadcast c msg)
  unfolding broadcast serialize
  Fine-broadcast msg =
      Fine-then (serialize msg) (send_keys c.publish_keys msg) (Fine-call _ (λ v. refl))
        (Fine-send_keys c.publish_keys msg)

  pub Fine-broadcast_batch :
      (information : List BatchInformation) (id : Bytes) → Fine (broadcast_batch c information id)
  unfolding broadcast_batch
  Fine-broadcast_batch information id = Fine-broadcast _

  pub Fine-broadcast_eof : (id eof_id : Bytes) (n : ℕ) → Fine (broadcast_eof c id eof_id n)
  unfolding broadcast_eof
  Fine-broadcast_eof id eof_id n = Fine-broadcast _

  pub Fine-broadcast_own_batches :
      (id : Bytes) (cs : ClientState) → Fine (broadcast_own_batches c id cs)
  unfolding broadcast_own_batches send_records new_batcher
  Fine-broadcast_own_batches id cs = record {
    at = λ w e. let (r, q, h) = send_all-Goes _ _ w (λ v _. Fine-broadcast_batch v id) e in (r, h);
  }
