-- ===== src/Coordinator/Protocol/Calm.antt =====
-- eofcoordinator.go: as long as no call fails, no client is left ready and not flushed.
use tp_lavado_dinero.Prelude.{
  ℕ, ◌+◌, ◌≤◌, ◌≡◌, ◌≢◌, refl, ap, ◌∙◌, inl, inr, Bool, true, false, none, some, List, [], ◌∷◌,
  arith, Bytes, bytes_eq, bytes_beq_iff, ◌==◌, Bool-cases, length, Result,
}
use tp_lavado_dinero.GoMap.{put, remove, get-remove}
use tp_lavado_dinero.Coordinator.ClientState.{
  ClientState, is_ready_to_flush, has_all_eofs, eof_totals, copy_eofs, merge_peer_eofs, sum_eofs,
  new_client_state,
}
use tp_lavado_dinero.Coordinator.World.{
  Kind, wakeup, eof_arrived, batch_information, cleanup, unknown, World, Message, set_client,
}
use tp_lavado_dinero.Coordinator.Protocol.Sending.{
  Config, client_of, get_client_state, is_cleaned, worker_key,
}
use tp_lavado_dinero.Coordinator.Protocol.Defs.{
  has_seen_batch, reached_eof_amount, clear_client, handle_wake_up, handle_remote_cleanup, dispatch,
  handle_coordination_message,
}
use tp_lavado_dinero.Coordinator.Protocol.Steps.{
  Op, started, batch_recorded, eof_handled, batch_asked, eofs_asked, client_cleared, cleanup_sent,
  delivered, step, run, flush_count,
}
use tp_lavado_dinero.Coordinator.Protocol.Lifetime.{mark, run-Balance}
use tp_lavado_dinero.Coordinator.Protocol.Quiet.{SameCore}
use tp_lavado_dinero.Coordinator.Protocol.QuietSteps.{
  Quiet-clear_storage, Quiet-tell_clients, Quiet-wake_up_notification, Quiet-broadcast_cleanup,
}
use tp_lavado_dinero.Coordinator.Protocol.Flushing.{client_of-SameCore, client_of-set_client}
use tp_lavado_dinero.Coordinator.Protocol.Settling.{Settled}
use tp_lavado_dinero.Coordinator.Protocol.Settled.{
  record_batch-Settled, handle_local_eof-Settled, handle_remote_eof-Settled,
  handle_remote_batch-Settled,
}

-- No call is to fail, and no client is ready to flush: where its barrier is open, it is marked.
pub record Calm (n : ℕ) (w : World) : Type 0 where
  pub outcomes : w.outcomes ≡ []
  pub calm : (id : Bytes) → is_ready_to_flush (client_of w id) n ≡ false

no_outcomes : (os ps : List Bool) → length ps ≤ length os → os ≡ [] → ps ≡ []
no_outcomes os [] h e = refl
no_outcomes os (p ∷ ps) h e = absurd (omega (arith, h, ap length e))

Calm-SameCore : (n : ℕ) (v w : World) → Calm n v → SameCore v w → Calm n w
Calm-SameCore n v w h s = record {
  outcomes = no_outcomes v.outcomes w.outcomes s.spent h.outcomes;
  calm = λ id.
      ap (λ (x : ClientState). is_ready_to_flush x n) (client_of-SameCore v w id s) ∙ h.calm id;
}

Calm-Settled :
    (n : ℕ) (id : Bytes) (w : World) (r : Result (Unit {0}) × World)
    → Calm n w
    → Settled n id w r
    → Calm n r.1
Calm-Settled n id w r h s = record {
  outcomes = s.outcomes;
  calm = λ j. elim (Bool-cases (j == id)) [
    | inl e ↦
        let same : j ≡ id = ground (arith, e, bytes_beq_iff j id) in
        ap (λ (i : Bytes). is_ready_to_flush (client_of r.1 i) n) same ∙ s.calm
    | inr e ↦
        let other : j ≢ id = ground (arith, e, bytes_beq_iff j id) in
        ap (λ (x : ClientState). is_ready_to_flush x n) (s.others j other) ∙ h.calm j
  ];
}

new_not_ready : (n : ℕ) → 1 ≤ n → is_ready_to_flush new_client_state n ≡ false
unfolding is_ready_to_flush has_all_eofs eof_totals copy_eofs merge_peer_eofs sum_eofs
new_not_ready n h = ground arith

Calm-removed :
    (n : ℕ) (id : Bytes) (w : World)
    → 1 ≤ n
    → Calm n w
    → Calm n (record w {
      cleaned_clients = put w.cleaned_clients id true;
      clients = remove w.clients id;
    })
unfolding client_of
Calm-removed n id w p h = record {
  outcomes = h.outcomes;
  calm = λ j. ground (arith, get-remove w.clients id j, h.calm j, new_not_ready n p);
}

looking-Calm : (n : ℕ) (id : Bytes) (w : World) → Calm n w → Calm n (get_client_state id w).1
unfolding get_client_state
looking-Calm n id w h = record {
  outcomes = unfold set_client in h.outcomes;
  calm = λ j.
      let same : client_of (set_client id (client_of w id) w) j ≡ client_of w j =
        ground (arith, client_of-set_client id j (client_of w id) w, bytes_beq_iff id j) in
      ap (λ (x : ClientState). is_ready_to_flush x n) same ∙ h.calm j;
}

module _ (c : Config) where
  clear_client-Calm :
      (id : Bytes) (w : World)
      → 1 ≤ c.expected_eofs
      → Calm c.expected_eofs w
      → Calm c.expected_eofs (clear_client c id w).1
  unfolding clear_client
  clear_client-Calm id w p h =
      Calm-SameCore c.expected_eofs _ _ (Calm-removed c.expected_eofs id w p h)
        ((Quiet-clear_storage id).at _)

  dispatch-Calm :
      (k : Kind) (msg : Message) (w : World)
      → 1 ≤ c.expected_eofs
      → Calm c.expected_eofs w
      → Calm c.expected_eofs (dispatch c k msg w).1
  unfolding dispatch handle_wake_up handle_remote_cleanup
  dispatch-Calm wakeup msg w p h =
      Calm-SameCore c.expected_eofs w _ h
        ((Quiet-tell_clients c (worker_key c.worker_name msg.sender_id) w.clients).at w)
  dispatch-Calm eof_arrived msg w p h =
      Calm-Settled c.expected_eofs msg.client_id w _ h
        (handle_remote_eof-Settled c msg w h.outcomes (h.calm msg.client_id))
  dispatch-Calm batch_information msg w p h =
      Calm-Settled c.expected_eofs msg.client_id w _ h
        (handle_remote_batch-Settled c msg w h.outcomes (h.calm msg.client_id))
  dispatch-Calm cleanup msg w p h = elim (Bool-cases (is_cleaned w msg.client_id)) [
    | inl e ↦ rw e h
    | inr e ↦ rw e (clear_client-Calm msg.client_id w p h)
  ]
  dispatch-Calm unknown msg w p h = h

  step-Calm :
      (o : Op) (w : World)
      → 1 ≤ c.expected_eofs
      → Calm c.expected_eofs w
      → Calm c.expected_eofs (step c o w)
  unfolding step has_seen_batch reached_eof_amount handle_coordination_message
  step-Calm started w p h =
      Calm-SameCore c.expected_eofs w _ h ((Quiet-wake_up_notification c).at w)
  step-Calm (batch_recorded j b k s) w p h =
      Calm-Settled c.expected_eofs j w _ h (record_batch-Settled c j b k s w h.outcomes (h.calm j))
  step-Calm (eof_handled j e n) w p h =
      Calm-Settled c.expected_eofs j w _ h
        (handle_local_eof-Settled c j n e w h.outcomes (h.calm j))
  step-Calm (batch_asked j b) w p h = looking-Calm c.expected_eofs j w h
  step-Calm (eofs_asked j) w p h = looking-Calm c.expected_eofs j w h
  step-Calm (client_cleared j) w p h = clear_client-Calm j w p h
  step-Calm (cleanup_sent j) w p h =
      Calm-SameCore c.expected_eofs w _ h ((Quiet-broadcast_cleanup c j).at w)
  step-Calm (delivered none) w p h = h
  step-Calm (delivered (some msg)) w p h = dispatch-Calm msg.kind msg w p h

  end-Calm :
      (os : List Op) (w : World)
      → 1 ≤ c.expected_eofs
      → Calm c.expected_eofs w
      → Calm c.expected_eofs (run c os w)
  unfolding run
  end-Calm [] w p h = h
  end-Calm (o ∷ os) w p h = end-Calm os (step c o w) p (step-Calm o w p h)

  -- In a coordinator that expects at least one EOF and of which no call fails, let every client
  -- whose barrier is open be marked as flushed. Then so it is after any run of operations and
  -- messages, in any order and with any duplicates and clean-ups; and in any part of the run, down
  -- to a single step, the flush handler is called with success for each client that is marked
  -- behind that part and was not before it.
  pub run-Calm :
      (earlier later : List Op) (w : World)
      → 1 ≤ c.expected_eofs
      → Calm c.expected_eofs w
      → let v = run c earlier w in
        let t = run c later v in
        Calm c.expected_eofs t
        × ((id : Bytes)
            → flush_count id v.flushes + mark t id ≤ flush_count id t.flushes + mark v id)
  run-Calm earlier later w p h =
      let v = run c earlier w in
      (end-Calm later v p (end-Calm earlier w p h), λ id. (run-Balance c id later v).1)
