-- ===== src/Coordinator/Protocol/Moving.antt =====
-- Actions under which the state only moves along a relation that can be composed, whatever calls of
-- theirs fail. The loops of the messages to the peers and the batcher are gone through once, for
-- every such relation.
use tp_lavado_dinero.Prelude.{
  ◌≡◌, refl, Bool, true, false, List, [], ◌∷◌, Bytes, Bool-cases, inl, inr, Error, ◌⊎◌, Exec,
  Result, ok, err, ◌>>=◌, ◌>>◌, after,
}
use tp_lavado_dinero.GoMap.{Map}
use tp_lavado_dinero.Batch.Defs.{
  Batcher, add, add_emptied, add_all, flush_pending, send_all, new_batcher, try_add, is_empty,
}
use tp_lavado_dinero.Coordinator.ClientState.{BatchRecord, ClientState}
use tp_lavado_dinero.Coordinator.World.{
  BatchInformation, Message, World, Action, with_outcome, call, when, send_with_key, serialize,
}
use tp_lavado_dinero.Coordinator.Protocol.Sending.{
  Config, send_keys, broadcast, broadcast_batch, send_records, broadcast_own_batches,
}

-- A relation of states that can be composed, and that the end of a call goes along with.
pub record Journey (R : World → World → Type 0) : Type 0 where
  pub stay : (w : World) → R w w
  pub join : {u v w : World} → R u v → R v w → R u w
  pub spend :
      (w : World) (b : Bool) (os : List Bool)
      → w.outcomes ≡ b ∷ os
      → R w (record w { outcomes = os })

Result-cases : (r : Result (Unit {0})) → (r ≡ ok tt) ⊎ ((e : Error) × (r ≡ err e))
Result-cases (ok tt) = inl refl
Result-cases (err e) = inr (e, refl)

module _ (R : World → World → Type 0) where
  pub record Moves {κ} {A : Type κ} (m : Exec World A) : Type κ where
    pub at : (w : World) → R w (m w).1

module _ (R : World → World → Type 0) (j : Journey R) where
  after-Moves {κ ι} :
      {A : Type κ} {B : Type ι} (f : A → Exec World B) (v : World) (r : Result A × World)
      → R v r.1
      → ((a : A) → Moves R (f a))
      → R v (after f r).1
  after-Moves f v (ok a, w) h q = j.join h ((q a).at w)
  after-Moves f v (err e, w) h q = h

  pub Moves-bind {κ ι} :
      {A : Type κ} {B : Type ι} (m : Exec World A) (f : A → Exec World B)
      → Moves R m
      → ((a : A) → Moves R (f a))
      → Moves R (m >>= f)
  Moves-bind m f hm hf = record { at = λ w. after-Moves f w (m w) (hm.at w) hf }

  pub Moves-then {ι} :
      {B : Type ι} (m : Action) (k : Exec World B) → Moves R m → Moves R k → Moves R (m >> k)
  Moves-then m k hm hk = Moves-bind m (λ _. k) hm (λ _. hk)

  with_outcome-Moves :
      (os : List Bool) (f : World → World) (w : World)
      → w.outcomes ≡ os
      → ((v : World) → R v (f v))
      → R w (with_outcome os f w).1
  with_outcome-Moves [] f w e h = h w
  with_outcome-Moves (true ∷ os) f w e h =
      j.join (j.spend w true os e) (h (record w { outcomes = os }))
  with_outcome-Moves (false ∷ os) f w e h = j.spend w false os e

  pub Moves-call : (f : World → World) → ((v : World) → R v (f v)) → Moves R (call f)
  unfolding call
  Moves-call f h = record { at = λ w. with_outcome-Moves w.outcomes f w refl h }

  pub Moves-ok : Moves R {A = Unit {0}} (λ w. (ok tt, w))
  Moves-ok = record { at = j.stay }

  pub Moves-when : (b : Bool) (m : Action) → Moves R m → Moves R (when b m)
  Moves-when true m h = record { at = h.at }
  Moves-when false m h = record { at = j.stay }

module _ (R : World → World → Type 0) (j : Journey R) where
  module _ {κ} {T V : Type κ} where
    -- A batcher whose callback moves along.
    abbrev IsMoving : Batcher World T V → Type κ
    IsMoving s = (v : V) (id : Bytes) → Moves R (s.on_flush v id)

    abbrev Stays :
        Batcher World T V → World → Result (Unit {0}) × Batcher World T V × World → Type κ
    Stays s w (r, s', w') = IsMoving s' × R w w'

    add_emptied-Stays :
        (s : Batcher World T V) (x : T) (w : World) (r : Result (Unit {0}) × World)
        → IsMoving s
        → R w r.1
        → Stays s w (add_emptied s x r)
    unfolding add_emptied
    add_emptied-Stays s x w (err e, w') q h = (q, h)
    add_emptied-Stays s x w (ok _, w') q h = elim (Bool-cases (try_add s.batch x).0) [
      | inl yes' ↦ rw (yes', add_emptied) (q, h)
      | inr no' ↦ rw (no', add_emptied) (q, h)
    ]

    add-Stays : (s : Batcher World T V) (x : T) (w : World) → IsMoving s → Stays s w (add s x w)
    unfolding add
    add-Stays s x w q = elim (Bool-cases (try_add s.batch x).0) [
      | inl yes' ↦ rw (yes', add) (q, j.stay w)
      | inr no' ↦ rw (no', add) (add_emptied-Stays _ x w _ q ((q _ _).at w))
    ]

    flush_pending-Stays :
        (s : Batcher World T V) (w : World) → IsMoving s → Stays s w (flush_pending s w)
    unfolding flush_pending
    flush_pending-Stays s w q = elim (Bool-cases (is_empty s.batch)) [
      | inl none' ↦ rw (none', flush_pending) (q, j.stay w)
      | inr some' ↦ rw (some', flush_pending) (q, (q _ _).at w)
    ]

    add_all-Stays :
        (xs : List T) (s : Batcher World T V) (w : World) → IsMoving s → Stays s w (add_all s xs w)
    unfolding add_all
    add_all-Stays [] s w q = (q, j.stay w)
    add_all-Stays (x ∷ xs) s w q =
        let (q', h) = add-Stays s x w q in
        elim (Result-cases (add s x w).0) [
          | inl e ↦
              let (q'', h') = add_all-Stays xs (add s x w).1 (add s x w).2 q' in
              rw (e, add_all) (q'', j.join h h')
          | inr (x', e) ↦ rw (e, add_all) (q', h)
        ]

    pub send_all-Stays :
        (xs : List T) (s : Batcher World T V) (w : World) → IsMoving s → Stays s w (send_all s xs w)
    unfolding send_all
    send_all-Stays xs s w q =
        let (q', h) = add_all-Stays xs s w q in
        elim (Result-cases (add_all s xs w).0) [
          | inl e ↦
              let (q'', h') = flush_pending-Stays (add_all s xs w).1 (add_all s xs w).2 q' in
              rw (e, send_all) (q'', j.join h h')
          | inr (x', e) ↦ rw (e, send_all) (q', h)
        ]

-- Messages to the peers
module _ (R : World → World → Type 0) (j : Journey R)
    (sends : (key : Bytes) (msg : Message) → Moves R (send_with_key key msg)) (c : Config) where
  pub Moves-serialize : (msg : Message) → Moves R (serialize msg)
  unfolding serialize
  Moves-serialize msg = Moves-call R j _ j.stay

  Moves-send_keys : (keys : List Bytes) (msg : Message) → Moves R (send_keys keys msg)
  unfolding send_keys
  Moves-send_keys [] msg = Moves-ok R j
  Moves-send_keys (key ∷ keys) msg =
      Moves-bind R j (send_with_key key msg) (λ _. send_keys keys msg) (sends key msg)
        (λ _. Moves-send_keys keys msg)

  pub Moves-broadcast : (msg : Message) → Moves R (broadcast c msg)
  unfolding broadcast
  Moves-broadcast msg =
      Moves-bind R j (serialize msg) (λ _. send_keys c.publish_keys msg) (Moves-serialize msg)
        (λ _. Moves-send_keys c.publish_keys msg)

  pub Moves-send_records :
      (on_flush : List BatchInformation → Bytes → Action) (records : Map Bytes BatchRecord)
      → ((v : List BatchInformation) (id : Bytes) → Moves R (on_flush v id))
      → Moves R (send_records c on_flush records)
  unfolding send_records new_batcher
  Moves-send_records on_flush records q = record { at = λ w. (send_all-Stays R j _ _ w q).1 }

  pub Moves-broadcast_batch :
      (information : List BatchInformation) (client_id : Bytes)
      → Moves R (broadcast_batch c information client_id)
  unfolding broadcast_batch
  Moves-broadcast_batch information client_id = Moves-broadcast _

  pub Moves-broadcast_own_batches :
      (client_id : Bytes) (cs : ClientState) → Moves R (broadcast_own_batches c client_id cs)
  unfolding broadcast_own_batches
  Moves-broadcast_own_batches client_id cs =
      Moves-send_records _ cs.own_batches (λ v _. Moves-broadcast_batch v client_id)
