-- ===== src/Leader/Defs.antt =====
-- internal/fault_hypervisor/leader: coordinator.go, handlers.go, sender.go and state.go. What runs
-- under the mutex in one piece is one function here; what a goroutine or a timer does after it has let
-- the mutex go is a task, which may run at any later time. IDs are natural numbers, as those of the
-- nodes are, and a time is a number; -1, the ID of no leader, is `none`. Logging is left out.
use tp_lavado_dinero.Prelude.{
  ℕ, zero, suc, ◌+◌, ◌-◌, Bool, true, false, not, ◌&&◌, ◌||◌, Option, none, some, List, [], ◌∷◌,
  ◌++◌, Bytes, ltb, leb, nat_beq, if◌then◌else◌,
}
use tp_lavado_dinero.Decimal.{format_uint}

pub record Settings : Type 0 where
  pub id : ℕ
  pub count : ℕ
  pub leader_timeout : ℕ

-- The messages, each with the ID of its sender.
pub data Note : Type 0 where
  election answer heartbeat : ℕ → Note

-- The calls of the LeadershipHandler
pub data Call : Type 0 where
  become_leader_called mark_ready_called : Call

-- What is still to come: `startElection`, its part behind the mutex, `finishElectionIfUnanswered`,
-- `becomeLeader`, and the part of that behind the mutex.
pub data Task : Type 0 where
  start_task campaign_task timeout_task takeover_task announce_task : Task

-- How many of each
pub record Pending : Type 0 where
  pub starts : ℕ
  pub campaigns : ℕ
  pub timeouts : ℕ
  pub takeovers : ℕ
  pub announces : ℕ

pub record Node : Type 0 where
  pub leader_id : Option ℕ
  pub last_leader_seen : ℕ
  pub election_in_progress : Bool
  pub got_answer : Bool
  pub closed : Bool
  pub pending : Pending
  pub sent : List (Bytes × Note)
  pub calls : List Call
  pub outcomes : List Bool

-- "hypervisor.%d"
unfoldable pub routing_key : ℕ → Bytes
routing_key id =
    b'h' ∷ b'y' ∷ b'p' ∷ b'e' ∷ b'r' ∷ b'v' ∷ b'i' ∷ b's' ∷ b'o' ∷ b'r' ∷ b'.' ∷ format_uint id

-- Serialisation and `SendWithKey`; `outcomes` says which of the sends to come succeed, and those
-- behind its end do.
unfoldable pub send : ℕ → Note → Node → Bool × Node
unfolding routing_key
send peer_id note s = elim s.outcomes [
  | [] ↦ (true, record s { sent = s.sent ++ (routing_key peer_id, note) ∷ [] })
  | true ∷ os ↦
      (true, record s { sent = s.sent ++ (routing_key peer_id, note) ∷ []; outcomes = os })
  | false ∷ os ↦ (false, record s { outcomes = os })
]

unfoldable pub is_leader : Option ℕ → ℕ → Bool
is_leader none id = false
is_leader (some leader) id = nat_beq leader id

unfoldable pub knows_leader : Option ℕ → Bool
knows_leader none = false
knows_leader (some leader) = true

-- the loop of `broadcastCoordinator`, from `peer_id` on with `k` rounds left; an error ends it
unfoldable pub send_heartbeats : ℕ → ℕ → ℕ → Node → Node
unfolding send
send_heartbeats id peer_id zero s = s
send_heartbeats id peer_id (suc k) s = elim (nat_beq peer_id id) [
  | true ↦ send_heartbeats id (suc peer_id) k s
  | false ↦
      let (fine, s') = send peer_id (heartbeat id) s in
      elim fine [ true ↦ send_heartbeats id (suc peer_id) k s' | false ↦ s' ]
]

-- the loop of `startElection`; an error is only logged
unfoldable pub send_elections : ℕ → ℕ → ℕ → Node → Node
unfolding send
send_elections id peer_id zero s = s
send_elections id peer_id (suc k) s =
    send_elections id (suc peer_id) k (send peer_id (election id) s).1

module _ (c : Settings) where
  unfoldable pub broadcast_coordinator : Node → Node
  unfolding send_heartbeats
  broadcast_coordinator s = send_heartbeats c.id 0 c.count s

  -- `startElection` up to its second unlock
  unfoldable pub start_election : Node → Node
  unfolding is_leader
  start_election s =
      if is_leader s.leader_id c.id || s.closed || s.election_in_progress then s else record s {
        election_in_progress = true;
        got_answer = false;
        pending = record s.pending { campaigns = suc s.pending.campaigns };
      }

  -- `becomeLeader` up to the call of the handler
  unfoldable pub become_leader : ℕ → Node → Node
  unfolding is_leader
  become_leader now s = if s.closed || is_leader s.leader_id c.id then s else record s {
    leader_id = some c.id;
    last_leader_seen = now;
    election_in_progress = false;
    got_answer = false;
    pending = record s.pending { announces = suc s.pending.announces };
  }

  -- the rest of `startElection`
  unfoldable pub campaign : ℕ → Node → Node
  unfolding become_leader send_elections
  campaign now s =
      if leb c.count (suc c.id)
      then become_leader now s
      else let s' = send_elections c.id (suc c.id) (c.count - suc c.id) s in
        record s' { pending = record s'.pending { timeouts = suc s'.pending.timeouts } }

  -- the rest of `becomeLeader`; an error of the handler is only logged
  unfoldable pub announce : ℕ → Node → Node
  unfolding broadcast_coordinator
  announce now s =
      broadcast_coordinator
        (record s { calls = s.calls ++ become_leader_called ∷ []; last_leader_seen = now })

  unfoldable pub finish_election_if_unanswered : Node → Node
  finish_election_if_unanswered s =
      if s.closed || not s.election_in_progress || s.got_answer
      then s
      else record s { pending = record s.pending { takeovers = suc s.pending.takeovers } }

  -- one round of `runTicker`, which ends when the node is closed
  unfoldable pub tick : ℕ → Node → Node
  unfolding is_leader knows_leader broadcast_coordinator
  tick now s =
      if s.closed
      then s
      else if is_leader s.leader_id c.id
      then broadcast_coordinator s
      else if knows_leader s.leader_id
          && ltb (s.last_leader_seen + c.leader_timeout) now
          && not s.election_in_progress
      then record s { pending = record s.pending { starts = suc s.pending.starts } }
      else s

  unfoldable pub handle_election : ℕ → Node → Node
  unfolding is_leader send
  handle_election sender_id s =
      if is_leader s.leader_id c.id
      then (send sender_id (answer c.id) s).1
      else if leb c.id sender_id
      then s
      else let s' = (send sender_id (answer c.id) s).1 in
        record s' { pending = record s'.pending { starts = suc s'.pending.starts } }

  unfoldable pub handle_ok : ℕ → Node → Node
  handle_ok sender_id s = record s { got_answer = true }

  unfoldable pub handle_coordinator : ℕ → ℕ → Node → Node
  unfolding knows_leader
  handle_coordinator leader_id now s = record s {
    leader_id = some leader_id;
    last_leader_seen = now;
    election_in_progress = false;
    got_answer = false;
    calls = if knows_leader s.leader_id then s.calls else s.calls ++ mark_ready_called ∷ [];
  }

  -- `handleMessage` of a message that can be read
  unfoldable pub handle_message : Note → ℕ → Node → Node
  unfolding handle_election handle_ok handle_coordinator
  handle_message (election sender_id) now s = handle_election sender_id s
  handle_message (answer sender_id) now s = handle_ok sender_id s
  handle_message (heartbeat leader) now s = handle_coordinator leader now s

  unfoldable pub close : Node → Node
  close s = record s { closed = true }

  -- A task runs, if there is one of its kind.
  unfoldable pub run_task : Task → ℕ → Node → Node
  unfolding start_election campaign finish_election_if_unanswered become_leader announce
  run_task start_task now s = elim s.pending.starts [
    | zero ↦ s
    | suc n ↦ start_election (record s { pending = record s.pending { starts = n } })
  ]
  run_task campaign_task now s = elim s.pending.campaigns [
    | zero ↦ s
    | suc n ↦ campaign now (record s { pending = record s.pending { campaigns = n } })
  ]
  run_task timeout_task now s = elim s.pending.timeouts [
    | zero ↦ s
    | suc n ↦
        finish_election_if_unanswered (record s { pending = record s.pending { timeouts = n } })
  ]
  run_task takeover_task now s = elim s.pending.takeovers [
    | zero ↦ s
    | suc n ↦ become_leader now (record s { pending = record s.pending { takeovers = n } })
  ]
  run_task announce_task now s = elim s.pending.announces [
    | zero ↦ s
    | suc n ↦ announce now (record s { pending = record s.pending { announces = n } })
  ]

  -- A node that `Run` has just started, in a cluster of more than one: the first timer is set.
  unfoldable pub started_node : ℕ → Node
  started_node now = record {
    leader_id = none;
    last_leader_seen = now;
    election_in_progress = false;
    got_answer = false;
    closed = false;
    pending = record { starts = 1; campaigns = 0; timeouts = 0; takeovers = 0; announces = 0 };
    sent = [];
    calls = [];
    outcomes = [];
  }

-- What can happen to a node, and when
pub data Event : Type 0 where
  ticked : ℕ → Event
  received : Note → ℕ → Event
  task_run : Task → ℕ → Event
  was_closed : Event

module _ (c : Settings) where
  unfoldable pub react : Event → Node → Node
  unfolding tick handle_message run_task close
  react (ticked now) = tick c now
  react (received note now) = handle_message c note now
  react (task_run task now) = run_task c task now
  react was_closed = close c

  unfoldable pub react_all : List Event → Node → Node
  unfolding react
  react_all [] s = s
  react_all (e ∷ es) s = react_all es (react e s)
