-- ===== src/Leader/Stuck.antt =====
-- An election that a peer has answered ends only with a heartbeat.
use tp_lavado_dinero.Prelude.{
  ℕ, zero, suc, ◌≡◌, refl, ap, ◌∙◌, inl, inr, true, false, List, [], ◌∷◌, arith, Bool-cases, leb,
}
use tp_lavado_dinero.Leader.Defs.{
  Settings, Node, Note, Pending, election, answer, heartbeat, send, is_leader, start_election,
  finish_election_if_unanswered, tick, handle_election, handle_ok, handle_message, close, Task,
  start_task, campaign_task, timeout_task, takeover_task, announce_task, run_task, Event, ticked,
  received, task_run, was_closed, react, react_all,
}
use tp_lavado_dinero.Leader.Peers.{send-Kept}
use tp_lavado_dinero.Leader.Terms.{heartbeats_in, heartbeats_in-cons}

module _ (c : Settings) where
  -- The node has asked its peers, one has answered, and no goroutine of the node is on its way to
  -- campaign or to take over; timers may still be set.
  pub record Waiting (s : Node) : Type 0 where
    pub not_leader : is_leader s.leader_id c.id ≡ false
    pub in_progress : s.election_in_progress ≡ true
    pub answered : s.got_answer ≡ true
    pub no_campaign : s.pending.campaigns ≡ 0
    pub no_takeover : s.pending.takeovers ≡ 0
    pub no_announce : s.pending.announces ≡ 0

  sent-Waiting : (peer : ℕ) (note : Note) (s : Node) → Waiting s → Waiting (send peer note s).1
  sent-Waiting peer note s h =
      let k = send-Kept peer note s in
      record {
        not_leader = ap (λ o. is_leader o c.id) k.leader_id ∙ h.not_leader;
        in_progress = k.election_in_progress ∙ h.in_progress;
        answered = k.got_answer ∙ h.answered;
        no_campaign = ap (λ (p : Pending). p.campaigns) k.pending ∙ h.no_campaign;
        no_takeover = ap (λ (p : Pending). p.takeovers) k.pending ∙ h.no_takeover;
        no_announce = ap (λ (p : Pending). p.announces) k.pending ∙ h.no_announce;
      }

  with_start-Waiting :
      (n : ℕ) (s : Node)
      → Waiting s
      → Waiting (record s { pending = record s.pending { starts = n } })
  with_start-Waiting n s h = record {
    not_leader = h.not_leader;
    in_progress = h.in_progress;
    answered = h.answered;
    no_campaign = h.no_campaign;
    no_takeover = h.no_takeover;
    no_announce = h.no_announce;
  }

  with_timeout-Waiting :
      (n : ℕ) (s : Node)
      → Waiting s
      → Waiting (record s { pending = record s.pending { timeouts = n } })
  with_timeout-Waiting n s h = record {
    not_leader = h.not_leader;
    in_progress = h.in_progress;
    answered = h.answered;
    no_campaign = h.no_campaign;
    no_takeover = h.no_takeover;
    no_announce = h.no_announce;
  }

  tick-stays : (now : ℕ) (s : Node) → Waiting s → tick c now s ≡ s
  unfolding tick
  tick-stays now s h = ground (arith, h.not_leader, h.in_progress)

  start_election-stays : (s : Node) → Waiting s → start_election c s ≡ s
  unfolding start_election
  start_election-stays s h = ground (arith, h.not_leader, h.in_progress)

  finish-stays : (s : Node) → Waiting s → finish_election_if_unanswered c s ≡ s
  unfolding finish_election_if_unanswered
  finish-stays s h = ground (arith, h.in_progress, h.answered)

  handle_election-Waiting :
      (sender : ℕ) (s : Node) → Waiting s → Waiting (handle_election c sender s)
  unfolding handle_election
  handle_election-Waiting sender s h = elim (Bool-cases (leb c.id sender)) [
    | inl lower ↦ rw (h.not_leader, lower) h
    | inr higher ↦
        rw (h.not_leader, higher) (with_start-Waiting _ _ (sent-Waiting sender (answer c.id) s h))
  ]

  start_run :
      (n : ℕ) (s : Node)
      → s.pending.starts ≡ n
      → Waiting s
      → Waiting (elim n [
        | zero ↦ s
        | suc m ↦ start_election c (record s { pending = record s.pending { starts = m } })
      ])
  start_run zero s e h = h
  start_run (suc m) s e h =
      let v = with_start-Waiting m s h in
      rw (start_election-stays (record s { pending = record s.pending { starts = m } }) v) v

  timeout_run :
      (n : ℕ) (s : Node)
      → s.pending.timeouts ≡ n
      → Waiting s
      → Waiting (elim n [
        | zero ↦ s
        | suc m ↦
            finish_election_if_unanswered c
              (record s { pending = record s.pending { timeouts = m } })
      ])
  timeout_run zero s e h = h
  timeout_run (suc m) s e h =
      let v = with_timeout-Waiting m s h in
      rw (finish-stays (record s { pending = record s.pending { timeouts = m } }) v) v

  run_task-Waiting : (t : Task) (now : ℕ) (s : Node) → Waiting s → Waiting (run_task c t now s)
  unfolding run_task
  run_task-Waiting start_task now s h = start_run s.pending.starts s refl h
  run_task-Waiting campaign_task now s h = rw (h.no_campaign, run_task) h
  run_task-Waiting timeout_task now s h = timeout_run s.pending.timeouts s refl h
  run_task-Waiting takeover_task now s h = rw (h.no_takeover, run_task) h
  run_task-Waiting announce_task now s h = rw (h.no_announce, run_task) h

  react-Waiting :
      (e : Event) (s : Node) → heartbeats_in (e ∷ []) ≡ 0 → Waiting s → Waiting (react c e s)
  unfolding react handle_message handle_ok close
  react-Waiting (ticked now) s q h = rw (tick-stays now s h) h
  react-Waiting (received (election sender) now) s q h = handle_election-Waiting sender s h
  react-Waiting (received (answer sender) now) s q h = record {
    not_leader = h.not_leader;
    in_progress = h.in_progress;
    answered = refl;
    no_campaign = h.no_campaign;
    no_takeover = h.no_takeover;
    no_announce = h.no_announce;
  }
  react-Waiting (received (heartbeat leader) now) s q h = absurd (ground (arith, q))
  react-Waiting (task_run t now) s q h = run_task-Waiting t now s h
  react-Waiting was_closed s q h = record {
    not_leader = h.not_leader;
    in_progress = h.in_progress;
    answered = h.answered;
    no_campaign = h.no_campaign;
    no_takeover = h.no_takeover;
    no_announce = h.no_announce;
  }

  -- A node that waits after an answer waits for ever unless a heartbeat arrives: whatever ticks,
  -- elections, answers and timers follow, it neither campaigns again nor takes the leadership.
  pub react_all-Waiting :
      (es : List Event) (s : Node) → heartbeats_in es ≡ 0 → Waiting s → Waiting (react_all c es s)
  unfolding react_all
  react_all-Waiting [] s q h = h
  react_all-Waiting (e ∷ es) s q h =
      let split = heartbeats_in-cons e es in
      let now' : heartbeats_in (e ∷ []) ≡ 0 = omega (arith, q, split) in
      let later : heartbeats_in es ≡ 0 = omega (arith, q, split) in
      react_all-Waiting es (react c e s) later (react-Waiting e s now' h)
