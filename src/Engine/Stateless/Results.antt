-- ===== src/Engine/Stateless/Results.antt =====
-- statelessengine.go: what a data message publishes and what the coordinator is told of it, where no
-- call fails.
use tp_lavado_dinero.Prelude.{
  All, All-split, ℕ, ◌+◌, ◌%◌, ◌<◌, ◌≡◌, refl, sym, ap, ◌∙◌, subst, Bool, false, some, List, [],
  ◌∷◌, ◌++◌, append-nil, append_assoc, arith, Bytes, bytes_eq, length, total, Exec, Result, ok,
  ◌>>◌, after, modify,
}
use tp_lavado_dinero.Decimal.{u64_size}
use tp_lavado_dinero.Coordinator.ClientState.{has_own_batch, is_ready_to_flush}
use tp_lavado_dinero.Coordinator.World.{set_client}
use tp_lavado_dinero.Coordinator.Protocol.{
  Config, client_of, has_seen_batch, record_batch, get_client_state,
}
use tp_lavado_dinero.GoMap.{get}
use tp_lavado_dinero.Coordinator.Protocol.Settling.{set_client-client_of}
use tp_lavado_dinero.Coordinator.Protocol.Settled.{record_batch-Settled}
use tp_lavado_dinero.Coordinator.Protocol.Noted.{record_batch-Recorded}
use tp_lavado_dinero.Engine.Events.{Event}
use tp_lavado_dinero.Engine.Sender.{flush_client}
use tp_lavado_dinero.Engine.Sender.Rows.{rows}
use tp_lavado_dinero.Engine.Sender.Clients.{waiting, Sound, flush_client-Sends}
use tp_lavado_dinero.Engine.Stateless.Defs.{
  StatelessEngine, survivors_of, by_processor, by_sender, by_coordinator, send_results, ack,
  process_items, handle_new_batch, handle_data_message,
}
use tp_lavado_dinero.Engine.Stateless.Sent.{results, after_ok, Processes, so_far, send_results-Sent}

-- The survivors, as the loop adds them up
abbrev counted : {T : Type 0} → ℕ → List (List T × Bool) → ℕ
counted n [] = n
counted n (r ∷ rs) = counted ((n + survivors_of r) % u64_size) rs

counted-total :
    {T : Type 0} (n : ℕ) (rs : List (List T × Bool))
    → n < u64_size
    → counted n rs ≡ (n + total survivors_of rs) % u64_size
counted-total n [] h = omega (arith, h)
counted-total n (r ∷ rs) h =
    counted-total ((n + survivors_of r) % u64_size) rs (omega arith) ∙ omega arith

module _ {Q A T V : Type 0} (unwrap : V → List T) (size : T → ℕ) (c : Config)
    (process : Bytes → A → Exec Q (List T × Bool)) where
  record Processed (id : Bytes) (all : List T) (n : ℕ) (q : Q) (s : StatelessEngine Q T V)
      (r : Result ℕ × StatelessEngine Q T V) : Type 0 where
    pub returned : r.0 ≡ ok n
    pub sound : Sound unwrap size id r.1.sender
    pub content : so_far unwrap id r.1 ≡ all
    pub frame : r.1 ≡ record s { sender = r.1.sender; processor = q }

  process_items-Processed :
      (id batch_id : Bytes) (items : List A) (rs : List (List T × Bool)) (q : Q) (n : ℕ)
      (s : StatelessEngine Q T V)
      → Sound unwrap size id s.sender
      → All (λ x. 0 < size x) (results rs)
      → Processes process id items rs s.processor q
      → Processed id
          (so_far unwrap id s ++ results rs)
          (counted n rs)
          q
          s
          (process_items c process id batch_id items n s)
  unfolding process_items by_processor
  process_items-Processed id batch_id [] [] q n s h g p = record {
    returned = refl;
    sound = h;
    content = sym (append-nil (so_far unwrap id s));
    frame = ap (λ (x : Q). record s { processor = x }) p;
  }
  process_items-Processed id batch_id [] (r ∷ rs) q n s h g p = absurd p
  process_items-Processed id batch_id (a ∷ items) [] q n s h g p = absurd p
  process_items-Processed id batch_id (a ∷ items) (r ∷ rs) q n s h g (next, one, p) =
      let (g0, g1) = All-split (λ x. 0 < size x) r.0 (results rs) g in
      let s1 = record s { processor = next } in
      let sent = send_results-Sent unwrap size id batch_id r.0 s1 g0 h in
      let s2 = record s1 { sender = (send_results id batch_id r.0 s1).1.sender } in
      let m = (n + survivors_of r) % u64_size in
      let rest = process_items-Processed id batch_id items rs q m s2 sent.sound g1 p in
      let loop = process_items c process id batch_id items m in
      let behind : Exec (StatelessEngine Q T V) ℕ = send_results id batch_id r.0 >> loop in
      let path : process_items c process id batch_id (a ∷ items) n s ≡ loop s2 =
        ap
          (λ (x : Result (List T × Bool) × Q).
            after
              (λ r'.
                send_results id batch_id r'.0
                >> process_items c process id batch_id items ((n + survivors_of r') % u64_size))
              (x.0, record s { processor = x.1 }))
          one
        ∙ after_ok (λ (_ : Unit {0}). loop) (send_results id batch_id r.0 s1) tt sent.returned
        ∙ ap loop sent.frame in
      subst (Processed id (so_far unwrap id s ++ results (r ∷ rs)) (counted n (r ∷ rs)) q s)
        (sym path)
        (record {
          returned = rest.returned;
          sound = rest.sound;
          content =
              rest.content
              ∙ (ap (λ xs. xs ++ results rs) sent.content
                  ∙ append_assoc (so_far unwrap id s) r.0 (results rs));
          frame = rest.frame;
        })

  -- The engine before and after a data message
  pub record Published (e : Event A) (rs : List (List T × Bool)) (q : Q) (s : StatelessEngine Q T V)
      (r : Result (Unit {0}) × StatelessEngine Q T V) : Type 0 where
    pub returned : r.0 ≡ ok tt
    pub sound : Sound unwrap size e.delivery.client_id r.1.sender
    pub published :
        rows unwrap e.delivery.client_id r.1.sender.output.published
        ≡ so_far unwrap e.delivery.client_id s ++ results rs
    pub nothing_waits : waiting unwrap e.delivery.client_id r.1.sender ≡ []
    pub processor : r.1.processor ≡ q
    pub acked : r.1.acked ≡ s.acked ++ e.delivery ∷ []
    pub recorded :
        get (client_of r.1.coordinator e.delivery.client_id).own_batches e.delivery.batch_id
        ≡ some (record {
          batch_id = e.delivery.batch_id;
          processed = length e.items % u64_size;
          survivors = total survivors_of rs % u64_size;
        })

  handle_new_batch-Published :
      (e : Event A) (rs : List (List T × Bool)) (q : Q) (s : StatelessEngine Q T V)
      → Sound unwrap size e.delivery.client_id s.sender
      → All (λ x. 0 < size x) (results rs)
      → Processes process e.delivery.client_id e.items rs s.processor q
      → (record_batch c e.delivery.client_id e.delivery.batch_id
          (length e.items % u64_size)
          (counted 0 rs)
          s.coordinator).0
        ≡ ok tt
      → has_own_batch (client_of s.coordinator e.delivery.client_id) e.delivery.batch_id ≡ false
      → Published e rs q s (handle_new_batch c process e s)
  unfolding handle_new_batch by_sender by_coordinator ack
  handle_new_batch-Published e rs q s h g p fine fresh =
      let d = e.delivery in
      let all = so_far unwrap d.client_id s ++ results rs in
      let done = process_items-Processed d.client_id d.batch_id e.items rs q 0 s h g p in
      let s1 = (process_items c process d.client_id d.batch_id e.items 0 s).1 in
      let (flushed, empty) = flush_client-Sends unwrap size d.client_id s1.sender done.sound in
      let t = (flush_client d.client_id s1.sender).1 in
      let s2 = record s { sender = t; processor = q } in
      let note = record_batch c d.client_id d.batch_id (length e.items % u64_size) in
      let n = counted 0 rs in
      let acking : Exec (StatelessEngine Q T V) (Unit {0}) = modify (ack d) in
      let noting : ℕ → Exec (StatelessEngine Q T V) (Unit {0}) =
        λ m. by_coordinator (note m) >> acking in
      let path : handle_new_batch c process e s ≡ acking (by_coordinator (note n) s2).1 =
        after_ok (λ (m : ℕ). by_sender (flush_client d.client_id) >> noting m)
          (process_items c process d.client_id d.batch_id e.items 0 s) n done.returned
        ∙ after_ok (λ (_ : Unit {0}). noting n) (by_sender (flush_client d.client_id) s1) tt
            flushed.returned
        ∙ ap (λ (x : StatelessEngine Q T V). noting n (record x { sender = t })) done.frame
        ∙ after_ok (λ (_ : Unit {0}). acking) (by_coordinator (note n) s2) tt fine in
      let sum : n ≡ total survivors_of rs % u64_size =
        omega (arith, counted-total 0 rs (omega arith)) in
      subst (Published e rs q s) (sym path) (record {
        returned = refl;
        sound = flushed.sound;
        published =
            sym (append-nil (rows unwrap d.client_id t.output.published))
            ∙ ap (λ xs. rows unwrap d.client_id t.output.published ++ xs) (sym empty)
            ∙ flushed.content
            ∙ done.content;
        nothing_waits = empty;
        processor = refl;
        acked = refl;
        recorded =
            record_batch-Recorded c d.client_id d.batch_id (length e.items % u64_size) n
              s.coordinator fresh fine
            ∙ ap
                (λ m. some (record {
                  batch_id = d.batch_id;
                  processed = length e.items % u64_size;
                  survivors = m;
                }))
                sum;
      })

  -- Where no call fails, the client is not ready to flush, and its batcher sends and wraps its
  -- rows as the sender's own do and has their weights, none of those that wait being zero:
  -- `handleDataMessage` of a batch that is new, and that the processor takes with results that
  -- each have a weight, publishes what waited for the client and then exactly the results, in
  -- their order, leaves nothing waiting, has the coordinator record the batch with the number of
  -- its items and of their survivors, and acks the message.
  pub handle_data_message-Published :
      (e : Event A) (rs : List (List T × Bool)) (q : Q) (s : StatelessEngine Q T V)
      → Sound unwrap size e.delivery.client_id s.sender
      → All (λ x. 0 < size x) (results rs)
      → Processes process e.delivery.client_id e.items rs s.processor q
      → s.coordinator.outcomes ≡ []
      → is_ready_to_flush (client_of s.coordinator e.delivery.client_id) c.expected_eofs ≡ false
      → has_own_batch (client_of s.coordinator e.delivery.client_id) e.delivery.batch_id ≡ false
      → Published e rs q s (handle_data_message c process e s)
  unfolding handle_data_message by_coordinator has_seen_batch get_client_state
  handle_data_message-Published e rs q s h g p o calm fresh =
      let d = e.delivery in
      let cs = client_of s.coordinator d.client_id in
      let w = set_client d.client_id cs s.coordinator in
      let t = record s { coordinator = w } in
      let same : client_of w d.client_id ≡ cs = set_client-client_of d.client_id cs s.coordinator in
      let settled =
        record_batch-Settled c d.client_id d.batch_id (length e.items % u64_size) (counted 0 rs) w
          (unfold set_client in o) (ap (λ x. is_ready_to_flush x c.expected_eofs) same ∙ calm) in
      let new_one =
        handle_new_batch-Published e rs q t h g p settled.returned
          (ap (λ x. has_own_batch x d.batch_id) same ∙ fresh) in
      rw (fresh, handle_data_message)
        (record {
          returned = new_one.returned;
          sound = new_one.sound;
          published = new_one.published;
          nothing_waits = new_one.nothing_waits;
          processor = new_one.processor;
          acked = new_one.acked;
          recorded = new_one.recorded;
        })
