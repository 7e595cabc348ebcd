-- ===== src/Coordinator/Protocol/Lifetime.antt =====
-- eofcoordinator.go: how often the flush handler is called in the life of a coordinator.
use tp_lavado_dinero.Prelude.{
  ℕ, suc, ◌+◌, ◌≤◌, ◌≡◌, ◌≢◌, refl, ap, ◌∙◌, inl, inr, Bool, true, false, none, some, List, [], ◌∷◌,
  ◌++◌, arith, Bytes, bytes_eq, bytes_beq_iff, ◌==◌, Bool-cases,
}
use tp_lavado_dinero.GoMap.{put, remove, get-remove}
use tp_lavado_dinero.Coordinator.ClientState.{ClientState, new_client_state}
use tp_lavado_dinero.Coordinator.World.{
  Kind, wakeup, eof_arrived, batch_information, cleanup, unknown, World, Flush, Message,
}
use tp_lavado_dinero.Coordinator.Storage.Operations.{clear_storage}
use tp_lavado_dinero.Coordinator.Protocol.Sending.{
  Config, client_of, get_client_state, is_cleaned, worker_key,
}
use tp_lavado_dinero.Coordinator.Protocol.Defs.{
  has_seen_batch, reached_eof_amount, clear_client, handle_wake_up, handle_remote_cleanup, dispatch,
  handle_coordination_message,
}
use tp_lavado_dinero.Coordinator.Protocol.Steps.{
  Op, started, batch_recorded, eof_handled, batch_asked, eofs_asked, client_cleared, cleanup_sent,
  delivered, step, run, clears, message_clears, clears_in, flush_count, bit,
}
use tp_lavado_dinero.Coordinator.Protocol.QuietSteps.{
  Quiet-clear_storage, Quiet-tell_clients, Quiet-wake_up_notification, Quiet-broadcast_cleanup,
}
use tp_lavado_dinero.Coordinator.Protocol.Flushing.{
  is_flushed, Change, Unflushed, Unflushed-refl, SameCore-Unflushed, set_client-Unflushed,
  client_of-SameCore, flush_of,
}
use tp_lavado_dinero.Coordinator.Protocol.Once.{
  record_batch-Change, handle_local_eof-Change, handle_remote_eof-Change,
  handle_remote_batch-Change,
}

-- Whether a client is marked as flushed, as a number.
abbrev pub mark : World → Bytes → ℕ
mark w id = bit (is_flushed w id)

-- The calls and marks for `id` in `w`, against those in `v`, with `k` marks that may be taken back.
-- No mark is set without a call.
abbrev pub Balance : Bytes → ℕ → World → World → Type 0
Balance id k v w =
    (flush_count id w.flushes + mark v id ≤ flush_count id v.flushes + mark w id + k)
    × (flush_count id v.flushes + mark w id ≤ flush_count id w.flushes + mark v id)

bit_le : (b : Bool) → bit b ≤ 1
bit_le true = omega arith
bit_le false = omega arith

flush_count-append :
    (id : Bytes) (fs : List Flush) (f : Flush)
    → flush_count id (fs ++ f ∷ []) ≡ flush_count id fs + bit (id == f.client_id)
flush_count-append id [] f = omega arith
flush_count-append id (g ∷ fs) f = let rest = flush_count-append id fs f in omega (arith, rest)

Change-Balance : (id : Bytes) (n : ℕ) (v w : World) → Change n v w → Balance id 0 v w
Change-Balance id n v w (inl s) =
    let counted : flush_count id w.flushes ≡ flush_count id v.flushes =
      ap (flush_count id) s.flushes in
    let marked : mark w id ≡ mark v id = ap bit (s.marks id) in
    (omega (arith, counted, marked), omega (arith, counted, marked))
Change-Balance id n v w (inr f) =
    let counted =
      ap (flush_count id) f.flushes ∙ flush_count-append id v.flushes (flush_of f.client f.state) in
    elim (Bool-cases (id == f.client)) [
      | inl e ↦
          let same : id ≡ f.client = ground (arith, e, bytes_beq_iff id f.client) in
          let one : bit (id == f.client) ≡ 1 = ap bit e in
          let before : mark v id ≡ 0 = ap (mark v) same ∙ ap bit f.unmarked in
          let behind : mark w id ≡ 1 =
            ap (mark w) same ∙ ap (λ (cs : ClientState). bit cs.flushed) f.now in
          (omega (arith, counted, one, before, behind), omega (arith, counted, one, before, behind))
      | inr e ↦
          let other : id ≢ f.client = ground (arith, e, bytes_beq_iff id f.client) in
          let none' : bit (id == f.client) ≡ 0 = ap bit e in
          let marked : mark w id ≡ mark v id = ap bit (f.marks id other) in
          (omega (arith, counted, none', marked), omega (arith, counted, none', marked))
    ]

Unflushed-Balance : (id : Bytes) (v w : World) → Unflushed v w → Balance id 0 v w
Unflushed-Balance id v w s = Change-Balance id 0 v w (inl s)

module _ (c : Config) where
  clear_client-Balance :
      (id j : Bytes) (w : World)
      → Balance id (clears id (client_cleared j)) w (clear_client c j w).1
  unfolding clear_client
  clear_client-Balance id j w =
      let w' : World = (record w {
        cleaned_clients = put w.cleaned_clients j true;
        clients = remove w.clients j;
      }) in
      let s = (Quiet-clear_storage j).at w' in
      let counted = ap (flush_count id) s.flushes in
      let gone : (id == j) ≡ true → client_of w' id ≡ new_client_state = λ e.
        unfold client_of in
        ground (arith, get-remove w.clients j id, bytes_beq_iff j id, bytes_beq_iff id j, e) in
      elim (Bool-cases (id == j)) [
        | inl e ↦
            let one : bit (id == j) ≡ 1 = ap bit e in
            let m = bit_le (is_flushed w id) in
            let fresh : mark (clear_storage j w').1 id ≡ 0 =
              ap (λ (cs : ClientState). bit cs.flushed) (client_of-SameCore w' _ id s ∙ gone e) in
            (omega (arith, counted, one, m), omega (arith, counted, fresh))
        | inr e ↦
            let kept' : client_of w' id ≡ client_of w id =
              (unfold client_of in
                ground
                  (arith, get-remove w.clients j id, bytes_beq_iff j id, bytes_beq_iff id j, e)) in
            let marked : mark (clear_storage j w').1 id ≡ mark w id =
              ap (λ (cs : ClientState). bit cs.flushed)
                (client_of-SameCore w' (clear_storage j w').1 id s ∙ kept') in
            (omega (arith, counted, marked), omega (arith, counted, marked))
      ]

  looking-Balance : (id j : Bytes) (w : World) → Balance id 0 w (get_client_state j w).1
  unfolding get_client_state
  looking-Balance id j w = Unflushed-Balance id w _ (set_client-Unflushed j (client_of w j) w refl)

  dispatch-Balance :
      (id : Bytes) (k : Kind) (msg : Message) (w : World)
      → Balance id (message_clears id k msg.client_id) w (dispatch c k msg w).1
  unfolding dispatch handle_wake_up handle_remote_cleanup
  dispatch-Balance id wakeup msg w = Unflushed-Balance id w _ (
      SameCore-Unflushed w _
        ((Quiet-tell_clients c (worker_key c.worker_name msg.sender_id) w.clients).at w))
  dispatch-Balance id eof_arrived msg w =
      Change-Balance id c.expected_eofs w _ (handle_remote_eof-Change c msg w)
  dispatch-Balance id batch_information msg w =
      Change-Balance id c.expected_eofs w _ (handle_remote_batch-Change c msg w)
  dispatch-Balance id cleanup msg w = elim (Bool-cases (is_cleaned w msg.client_id)) [
    | inl e ↦ rw e ((omega arith, omega arith))
    | inr e ↦ rw e (clear_client-Balance id msg.client_id w)
  ]
  dispatch-Balance id unknown msg w = Unflushed-Balance id w w (Unflushed-refl w)

  step-Balance : (id : Bytes) (o : Op) (w : World) → Balance id (clears id o) w (step c o w)
  unfolding step has_seen_batch reached_eof_amount handle_coordination_message
  step-Balance id started w =
      Unflushed-Balance id w _ (SameCore-Unflushed w _ ((Quiet-wake_up_notification c).at w))
  step-Balance id (batch_recorded j b p s) w =
      Change-Balance id c.expected_eofs w _ (record_batch-Change c j b p s w)
  step-Balance id (eof_handled j e n) w =
      Change-Balance id c.expected_eofs w _ (handle_local_eof-Change c j n e w)
  step-Balance id (batch_asked j b) w = looking-Balance id j w
  step-Balance id (eofs_asked j) w = looking-Balance id j w
  step-Balance id (client_cleared j) w = clear_client-Balance id j w
  step-Balance id (cleanup_sent j) w =
      Unflushed-Balance id w _ (SameCore-Unflushed w _ ((Quiet-broadcast_cleanup c j).at w))
  step-Balance id (delivered none) w = Unflushed-Balance id w w (Unflushed-refl w)
  step-Balance id (delivered (some msg)) w = dispatch-Balance id msg.kind msg w

  pub run-Balance :
      (id : Bytes) (os : List Op) (w : World) → Balance id (clears_in id os) w (run c os w)
  unfolding run
  run-Balance id [] w = (omega arith, omega arith)
  run-Balance id (o ∷ os) w =
      let first = step-Balance id o w in
      let later = run-Balance id os (step c o w) in
      (omega (arith, first.0, later.0), omega (arith, first.1, later.1))

  -- However the operations of a coordinator and the messages of its peers follow each other, and
  -- whichever calls of the broker, the disk and the handler fail: for a client that is not marked as
  -- flushed, the flush handler is called with success at most once, and once more for each clean-up
  -- of the client; for a client that is marked, not before a clean-up.
  pub run-flush_count :
      (id : Bytes) (os : List Op) (w : World)
      → flush_count id (run c os w).flushes + mark w id
        ≤ flush_count id w.flushes + suc (clears_in id os)
  run-flush_count id os w =
      let m = bit_le (is_flushed (run c os w) id) in omega (arith, m, (run-Balance id os w).0)
