-- ===== src/Leader/Terms.antt =====
-- How often a node takes the leadership.
use tp_lavado_dinero.Prelude.{
  ℕ, zero, suc, ◌+◌, ◌-◌, ◌≤◌, ◌≡◌, refl, ap, Bool, true, some, List, [], ◌∷◌, ◌++◌, arith,
  if◌then◌else◌,
}
use tp_lavado_dinero.Leader.Defs.{
  Settings, Node, Call, become_leader_called, mark_ready_called, election, answer, heartbeat,
  is_leader, start_election, become_leader, campaign, announce, finish_election_if_unanswered, tick,
  handle_election, handle_ok, handle_coordinator, handle_message, close, Task, start_task,
  campaign_task, timeout_task, takeover_task, announce_task, run_task, broadcast_coordinator, Event,
  ticked, received, task_run, was_closed, react, react_all,
}
use tp_lavado_dinero.Leader.Peers.{Kept, send-Kept, send_heartbeats-Kept, send_elections-Kept}

abbrev bit : Bool → ℕ
bit b = if b then 1 else 0

-- How often `BecomeLeader` of the handler has been called
abbrev pub terms_in : List Call → ℕ
terms_in [] = 0
terms_in (become_leader_called ∷ cs) = suc (terms_in cs)
terms_in (mark_ready_called ∷ cs) = terms_in cs

-- How many heartbeats have been received
abbrev pub heartbeats_in : List Event → ℕ
heartbeats_in [] = 0
heartbeats_in (received (heartbeat leader) now ∷ es) = suc (heartbeats_in es)
heartbeats_in (received (election sender_id) now ∷ es) = heartbeats_in es
heartbeats_in (received (answer sender_id) now ∷ es) = heartbeats_in es
heartbeats_in (ticked now ∷ es) = heartbeats_in es
heartbeats_in (task_run t now ∷ es) = heartbeats_in es
heartbeats_in (was_closed ∷ es) = heartbeats_in es

pub heartbeats_in-cons :
    (e : Event) (es : List Event)
    → heartbeats_in (e ∷ es) ≡ heartbeats_in (e ∷ []) + heartbeats_in es
heartbeats_in-cons (ticked now) es = omega arith
heartbeats_in-cons (received (election sender) now) es = omega arith
heartbeats_in-cons (received (answer sender) now) es = omega arith
heartbeats_in-cons (received (heartbeat leader) now) es = omega arith
heartbeats_in-cons (task_run t now) es = omega arith
heartbeats_in-cons was_closed es = omega arith

-- The terms begun: those that the handler knows of, and those that it is still to be told.
abbrev pub terms : Node → ℕ
terms s = terms_in s.calls + s.pending.announces

terms_in-become : (cs : List Call) → terms_in (cs ++ become_leader_called ∷ []) ≡ suc (terms_in cs)
terms_in-become [] = refl
terms_in-become (become_leader_called ∷ cs) = ap suc (terms_in-become cs)
terms_in-become (mark_ready_called ∷ cs) = terms_in-become cs

terms_in-ready : (cs : List Call) → terms_in (cs ++ mark_ready_called ∷ []) ≡ terms_in cs
terms_in-ready [] = refl
terms_in-ready (become_leader_called ∷ cs) = ap suc (terms_in-ready cs)
terms_in-ready (mark_ready_called ∷ cs) = terms_in-ready cs

module _ (c : Settings) where
  abbrev pub leads : Node → ℕ
  leads s = bit (is_leader s.leader_id c.id)

  -- From `s` to `s'` at most as many terms begin as the node takes the lead, and `k` more.
  abbrev AtMost : ℕ → Node → Node → Type 0
  AtMost k s s' = terms s' + leads s ≤ terms s + leads s' + k

  Kept-AtMost : (s s' : Node) → Kept s s' → AtMost 0 s s'
  Kept-AtMost s s' h = ground (arith, h.calls, h.pending, h.leader_id)

  start_election-AtMost : (s : Node) → AtMost 0 s (start_election c s)
  unfolding start_election
  start_election-AtMost s = ground arith

  self_leads : is_leader (some c.id) c.id ≡ true
  unfolding is_leader
  self_leads = ground arith

  become_leader-AtMost : (now : ℕ) (s : Node) → AtMost 0 s (become_leader c now s)
  unfolding become_leader
  become_leader-AtMost now s = ground (arith, self_leads)

  tick-AtMost : (now : ℕ) (s : Node) → AtMost 0 s (tick c now s)
  unfolding tick broadcast_coordinator
  tick-AtMost now s = ground (arith, Kept-AtMost s _ (send_heartbeats-Kept c.id 0 c.count s))

  handle_election-AtMost : (sender : ℕ) (s : Node) → AtMost 0 s (handle_election c sender s)
  unfolding handle_election
  handle_election-AtMost sender s =
      let h = send-Kept sender (answer c.id) s in ground (arith, h.calls, h.pending, h.leader_id)

  handle_coordinator-AtMost :
      (leader now : ℕ) (s : Node) → AtMost 1 s (handle_coordinator c leader now s)
  unfolding handle_coordinator
  handle_coordinator-AtMost leader now s = ground (arith, terms_in-ready s.calls)

  campaign-AtMost : (now : ℕ) (s : Node) → AtMost 0 s (campaign c now s)
  unfolding campaign
  campaign-AtMost now s =
      let h = send_elections-Kept c.id (suc c.id) (c.count - suc c.id) s in
      ground (arith, become_leader-AtMost now s, h.calls, h.pending, h.leader_id)

  announce-AtMost :
      (now n : ℕ) (s : Node)
      → s.pending.announces ≡ suc n
      → AtMost 0 s (announce c now (record s { pending = record s.pending { announces = n } }))
  unfolding announce broadcast_coordinator
  announce-AtMost now n s e =
      let s' = record s {
        pending = record s.pending { announces = n };
        calls = s.calls ++ become_leader_called ∷ [];
        last_leader_seen = now;
      } in
      let h = send_heartbeats-Kept c.id 0 c.count s' in
      ground (arith, h.calls, h.pending, h.leader_id, terms_in-become s.calls, e)

  run-AtMost :
      (n : ℕ) (s : Node) (f : ℕ → Node)
      → ((m : ℕ) → n ≡ suc m → AtMost 0 s (f m))
      → AtMost 0 s (elim n [ zero ↦ s | suc m ↦ f m ])
  run-AtMost zero s f h = omega arith
  run-AtMost (suc m) s f h = h m refl

  run_task-AtMost : (t : Task) (now : ℕ) (s : Node) → AtMost 0 s (run_task c t now s)
  unfolding run_task finish_election_if_unanswered
  run_task-AtMost start_task now s =
      run-AtMost s.pending.starts s _
        λ m e. start_election-AtMost (record s { pending = record s.pending { starts = m } })
  run_task-AtMost campaign_task now s =
      run-AtMost s.pending.campaigns s _
        λ m e. campaign-AtMost now (record s { pending = record s.pending { campaigns = m } })
  run_task-AtMost timeout_task now s = ground arith
  run_task-AtMost takeover_task now s =
      run-AtMost s.pending.takeovers s _
        λ m e. become_leader-AtMost now (record s { pending = record s.pending { takeovers = m } })
  run_task-AtMost announce_task now s =
      run-AtMost s.pending.announces s _ λ m e. announce-AtMost now m s e

  react-AtMost : (e : Event) (s : Node) → AtMost (heartbeats_in (e ∷ [])) s (react c e s)
  unfolding react handle_message handle_ok close
  react-AtMost (ticked now) s = tick-AtMost now s
  react-AtMost (received (election sender) now) s = handle_election-AtMost sender s
  react-AtMost (received (answer sender) now) s = omega arith
  react-AtMost (received (heartbeat leader) now) s = handle_coordinator-AtMost leader now s
  react-AtMost (task_run t now) s = run_task-AtMost t now s
  react-AtMost was_closed s = omega arith

  react_all-AtMost : (es : List Event) (s : Node) → AtMost (heartbeats_in es) s (react_all c es s)
  unfolding react_all
  react_all-AtMost [] s = omega arith
  react_all-AtMost (e ∷ es) s =
      let first = react-AtMost e s in
      let later = react_all-AtMost es (react c e s) in
      omega (arith, first, later, heartbeats_in-cons e es)

  -- However ticks, messages, timers and goroutines of a node follow each other, and whichever sends
  -- fail: of a node that does not lead, the handler is told at most once to become the leader, and
  -- once more for each heartbeat that the node receives; a node that leads takes no new term before
  -- a heartbeat. Terms that begin are counted with those of which the handler is still to be told.
  pub react_all-terms :
      (es : List Event) (s : Node)
      → terms (react_all c es s) + leads s ≤ terms s + suc (heartbeats_in es)
  react_all-terms es s =
      let one : leads (react_all c es s) ≤ 1 = ground arith in
      let all = react_all-AtMost es s in omega (arith, all, one)
