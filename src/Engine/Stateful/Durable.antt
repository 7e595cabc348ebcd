-- ===== src/Engine/Stateful/Durable.antt =====
-- statefulengine.go: the engine over any run keeps the promise of its checkpoint manager.
use tp_lavado_dinero.Prelude.{
  ℕ, ◌+◌, ◌≡◌, refl, inl, inr, false, List, [], ◌∷◌, arith, Bytes, bytes_eq, bytes_beq_iff, ◌==◌,
  Bool-cases, length, ◌%◌, Exec, Result, ok, err, ◌>>◌, after, modify,
}
use tp_lavado_dinero.Decimal.{u64_size}
use tp_lavado_dinero.GoMap.{get}
use tp_lavado_dinero.Checkpoint.Line.{Codec}
use tp_lavado_dinero.Checkpoint.Defs.{
  System, truth_of, begin_batch, commit_batch, by_processor, by_coordinator, flush_pending_batches,
}
use tp_lavado_dinero.Checkpoint.Logged.{Durable}
use tp_lavado_dinero.Checkpoint.Steps.{bit}
use tp_lavado_dinero.Checkpoint.Covered.{Covered}
use tp_lavado_dinero.Checkpoint.Durable.{
  begin_batch-Covered, abort_batch-Covered, commit_batch-Covered, flush_pending_batches-Covered,
  cleared-Covered,
}
use tp_lavado_dinero.Engine.Events.{MessageType, data_message, eof_message, cleanup_message, Event}
use tp_lavado_dinero.Engine.Stateful.Defs.{
  Sender, StatefulProcessor, Services, StatefulEngine, reply, in_system, process_items, or_abort,
  process_batch, handle_data_message, handle_true_eof, new_eof, finalized, clear_all,
  handle_cleanup_message, handle_kind, handle_event, by_sender,
}

-- An event, a call of the flush handler, and what the coordinator does by itself
pub data Step (A C : Type 0) : Type 0 where
  handled : Event A → Step A C
  flushed : (client_id eof_id : Bytes) → Step A C
  coordinated : (C → C) → Step A C

abbrev pub cleans_kind : Bytes → MessageType → Bytes → ℕ
cleans_kind id cleanup_message j = bit (id == j)
cleans_kind id data_message j = 0
cleans_kind id eof_message j = 0

-- How often a client is cleaned up, by a step and by a run
abbrev pub cleans_in_step : {A C : Type 0} → Bytes → Step A C → ℕ
cleans_in_step id (handled e) = cleans_kind id e.kind e.delivery.client_id
cleans_in_step id (flushed j n) = 0
cleans_in_step id (coordinated f) = 0

abbrev pub cleans : {A C : Type 0} → Bytes → List (Step A C) → ℕ
cleans id [] = 0
cleans id (o ∷ os) = cleans_in_step id o + cleans id os

module _ {P C X A R : Type 0} (k : Codec) (worker_id : ℕ) (p : StatefulProcessor P A R)
    (c : Services C) (x : Sender X R) where
  unfoldable pub step : Step A C → StatefulEngine P C X → StatefulEngine P C X
  unfolding handle_event handle_true_eof
  step (handled e) s = (handle_event k worker_id p c x e s).1
  step (flushed client_id eof_id) s = (handle_true_eof k worker_id p c x client_id eof_id s).1
  step (coordinated f) s = record s {
    system = record s.system { coordinator = f s.system.coordinator };
  }

  unfoldable pub run : List (Step A C) → StatefulEngine P C X → StatefulEngine P C X
  unfolding step
  run [] s = s
  run (o ∷ os) s = run os (step o s)

  abbrev Kept : Bytes → System P C → Type 0
  Kept id s = Covered k p.checkpointable c.for_manager id s

  after-Kept :
      {B D : Type 0} (id : Bytes) (f : B → Exec (System P C) D) (r : Result B × System P C)
      → Kept id r.1
      → ((b : B) → Kept id (f b r.1).1)
      → Kept id (after f r).1
  after-Kept id f (ok b, s) g h = h b
  after-Kept id f (err e, s) g h = g

  process_items-Kept :
      (id j : Bytes) (items : List A) (s : System P C)
      → Kept id s
      → Kept id (process_items k worker_id p c x j items s).1
  unfolding process_items by_processor
  process_items-Kept id j [] s g = g
  process_items-Kept id j (a ∷ items) s g =
      after-Kept id (λ (_ : Unit {0}). process_items k worker_id p c x j items)
        (by_processor k p.checkpointable c.for_manager (p.process j a) s) g
        (λ _.
          process_items-Kept id j items
            (by_processor k p.checkpointable c.for_manager (p.process j a) s).1 g)

  or_abort-Kept :
      (id j : Bytes) (r : Result (Unit {0}) × System P C)
      → Kept id r.1
      → Kept id (or_abort k worker_id p c x j r).1
  unfolding or_abort
  or_abort-Kept id j (ok _, s) g = g
  or_abort-Kept id j (err e, s) g = abort_batch-Covered k p.checkpointable c.for_manager id j s g

  process_batch-Kept :
      (id : Bytes) (e : Event A) (s : System P C)
      → Kept id s
      → Kept id (process_batch k worker_id p c x e s).1
  unfolding process_batch
  process_batch-Kept id e s g =
      let d = e.delivery in
      let n : ℕ = length e.items % u64_size in
      let r =
        or_abort k worker_id p c x d.client_id
          (process_items k worker_id p c x d.client_id e.items s) in
      let g' =
        or_abort-Kept id d.client_id (process_items k worker_id p c x d.client_id e.items s)
          (process_items-Kept id d.client_id e.items s g) in
      after-Kept id
        (λ (_ : Unit {0}). commit_batch k p.checkpointable c.for_manager d.client_id d.batch_id n) r
        g'
        (λ _.
          commit_batch-Covered k p.checkpointable c.for_manager id d.client_id d.batch_id n r.1 g')

  handle_data_message-Kept :
      (id : Bytes) (e : Event A) (s : System P C)
      → Kept id s
      → Kept id (handle_data_message k worker_id p c x e s).1
  unfolding handle_data_message
  handle_data_message-Kept id e s g =
      let r = begin_batch k p.checkpointable c.for_manager e.delivery s in
      let g' = begin_batch-Covered k p.checkpointable c.for_manager id e.delivery s g in
      elim (Bool-cases r.0) [
        | inl yes' ↦ rw (yes', handle_data_message) (process_batch-Kept id e r.1 g')
        | inr no' ↦ rw (no', handle_data_message) g'
      ]

  engine-after :
      {B : Type 0} {D : Type 0} (id : Bytes) (f : B → Exec (StatefulEngine P C X) D)
      (r : Result B × StatefulEngine P C X)
      → Kept id r.1.system
      → ((b : B) → Kept id (f b r.1).1.system)
      → Kept id (after f r).1.system
  engine-after id f (ok b, s) g h = h b
  engine-after id f (err e, s) g h = g

  clear_all-Kept :
      (id j : Bytes) (s : StatefulEngine P C X)
      → (j == id) ≡ false
      → Kept id s.system
      → Kept id (clear_all k worker_id p c x j s).system
  unfolding clear_all in_system by_coordinator by_sender
  clear_all-Kept id j s other g =
      let t = (by_coordinator k p.checkpointable c.for_manager (c.clear_client j) s.system).1 in
      cleared-Covered k p.checkpointable c.for_manager id j t
        (p.checkpointable.clear_client_state j t.processor) refl other g

  handle_kind-Kept :
      (id : Bytes) (kind : MessageType) (e : Event A) (s : StatefulEngine P C X)
      → cleans_kind id kind e.delivery.client_id ≡ 0
      → Kept id s.system
      → Kept id (handle_kind k worker_id p c x kind e s).1.system
  unfolding handle_kind in_system by_coordinator by_processor handle_cleanup_message reply
  handle_kind-Kept id data_message e s z g = handle_data_message-Kept id e s.system g
  handle_kind-Kept id eof_message e s z g =
      let d = e.delivery in
      let heard : Exec (StatefulEngine P C X) (Unit {0}) = in_system (
        by_coordinator k p.checkpointable c.for_manager
          (c.handle_local_eof d.client_id e.eof_count d.batch_id)) in
      let written : Exec (StatefulEngine P C X) (Unit {0}) =
        in_system (flush_pending_batches k p.checkpointable c.for_manager d.client_id) in
      let t = (heard s).1 in
      let g' =
        flush_pending_batches-Covered k p.checkpointable c.for_manager id d.client_id t.system g in
      engine-after id (λ (_ : Unit {0}). written >> modify (reply d)) (heard s) g
        (λ _. engine-after id (λ (_ : Unit {0}). modify (reply d)) (written t) g' (λ _. g'))
  handle_kind-Kept id cleanup_message e s z g =
      let d = e.delivery in
      let other : (d.client_id == id) ≡ false =
        ground (arith, z, bytes_beq_iff id d.client_id, bytes_beq_iff d.client_id id) in
      let done : Exec (StatefulEngine P C X) (Unit {0}) =
        in_system (by_processor k p.checkpointable c.for_manager (p.cleanup d.client_id)) in
      let cleared : Exec (StatefulEngine P C X) (Unit {0}) =
        λ t. (ok tt, clear_all k worker_id p c x d.client_id t) in
      let g' =
        engine-after id (λ (_ : Unit {0}). cleared) (done s) g
          (λ _. clear_all-Kept id d.client_id (done s).1 other g) in
      engine-after id (λ (_ : Unit {0}). modify (reply d))
        (handle_cleanup_message k worker_id p c x d.client_id s) g' (λ _. g')

  handle_true_eof-Kept :
      (id j eof_id : Bytes) (s : StatefulEngine P C X)
      → Kept id s.system
      → Kept id (handle_true_eof k worker_id p c x j eof_id s).1.system
  unfolding handle_true_eof by_sender
  handle_true_eof-Kept id j eof_id s g =
      let name : Bytes = new_eof k worker_id p c x eof_id in
      let finish : Exec (StatefulEngine P C X) ℕ = λ t.
        finalized k worker_id p c x t
          (p.finalize j (λ r. x.add j r name) t.system.processor t.sender) in
      let flush : Exec (StatefulEngine P C X) (Unit {0}) =
        by_sender k worker_id p c x (x.flush j) in
      engine-after id (λ (n : ℕ). flush >> by_sender k worker_id p c x (x.send_eof j n name))
        (finish s) g
        (λ n.
          engine-after id (λ (_ : Unit {0}). by_sender k worker_id p c x (x.send_eof j n name))
            (flush (finish s).1) g (λ _. g))

  handle_event-Kept :
      (id : Bytes) (e : Event A) (s : StatefulEngine P C X)
      → cleans_kind id e.kind e.delivery.client_id ≡ 0
      → Kept id s.system
      → Kept id (handle_event k worker_id p c x e s).1.system
  unfolding handle_event reply
  handle_event-Kept id e s z g =
      elim (Bool-cases (truth_of (get s.cleanup_messages e.delivery.client_id))) [
        | inl gone ↦ rw (gone, handle_event) g
        | inr known ↦ rw (known, handle_event) (handle_kind-Kept id e.kind e s z g)
      ]

  step-Kept :
      (id : Bytes) (o : Step A C) (s : StatefulEngine P C X)
      → cleans_in_step id o ≡ 0
      → Kept id s.system
      → Kept id (step o s).system
  unfolding step
  step-Kept id (flushed j eof_id) s z g = handle_true_eof-Kept id j eof_id s g
  step-Kept id (coordinated f) s z g = g
  step-Kept id (handled e) s z g = handle_event-Kept id e s z g

  pub run-Kept :
      (id : Bytes) (os : List (Step A C)) (s : StatefulEngine P C X)
      → cleans id os ≡ 0
      → Durable k id s.system.manager s.system.logs s.system.acked
      → let t = (run os s).system in Durable k id t.manager t.logs t.acked
  unfolding run
  run-Kept id [] s z g = g
  run-Kept id (o ∷ os) s z g =
      run-Kept id os (step o s) (omega (arith, z)) (step-Kept id o s (omega (arith, z)) g)
