-- ===== src/Leader/Samples.antt =====
-- Node 1 of a cluster of three.
use tp_lavado_dinero.Prelude.{
  suc, ◌+◌, ◌≤◌, ◌≡◌, refl, false, some, List, [], ◌∷◌, ◌++◌, without, nat_eq,
}
use tp_lavado_dinero.Leader.Defs.{
  Settings, Node, election, answer, heartbeat, Event, ticked, received, task_run, start_task,
  campaign_task, timeout_task, react, react_all, started_node, handle_message, handle_ok, run_task,
  start_election, campaign, send_elections, send, is_leader, broadcast_coordinator,
}
use tp_lavado_dinero.Leader.Peers.{addressed, ids_from, broadcast_coordinator-sent}
use tp_lavado_dinero.Leader.Terms.{terms, leads, heartbeats_in, react_all-terms}
use tp_lavado_dinero.Leader.Stuck.{Waiting, react_all-Waiting}

abbrev one_of_three : Settings
one_of_three = record { id = 1; count = 3; leader_timeout = 6 }

-- The first timer fires, node 2 is asked, and answers.
abbrev asked : List Event
asked = task_run start_task 6 ∷ task_run campaign_task 6 ∷ received (answer 2) 7 ∷ []

abbrev later_events : List Event
later_events =
    task_run timeout_task 9
    ∷ ticked 10
    ∷ received (election 0) 11
    ∷ task_run start_task 12
    ∷ ticked 100
    ∷ []

unfoldable waiting : Node
unfolding react_all
waiting = react_all one_of_three asked (started_node one_of_three 0)

waiting-Waiting : Waiting one_of_three waiting
unfolding waiting react_all react run_task start_election campaign send_elections send started_node
    is_leader handle_message handle_ok
waiting-Waiting = record {
  not_leader = refl;
  in_progress = refl;
  answered = refl;
  no_campaign = refl;
  no_takeover = refl;
  no_announce = refl;
}

react_all-Waiting_example : Waiting one_of_three (react_all one_of_three later_events waiting)
react_all-Waiting_example = react_all-Waiting one_of_three later_events waiting refl waiting-Waiting

react_all-terms_example :
    terms (react_all one_of_three asked waiting) + leads one_of_three waiting
    ≤ terms waiting + suc (heartbeats_in asked)
react_all-terms_example = react_all-terms one_of_three asked waiting

abbrev fresh : Node
fresh = record {
  leader_id = some 1;
  last_leader_seen = 0;
  election_in_progress = false;
  got_answer = false;
  closed = false;
  pending = record { starts = 0; campaigns = 0; timeouts = 0; takeovers = 0; announces = 0 };
  sent = [];
  calls = [];
  outcomes = [];
}

broadcast_coordinator-sent_example :
    (broadcast_coordinator one_of_three fresh).sent
    ≡ fresh.sent ++ addressed (heartbeat 1) (without 1 (ids_from 0 3))
broadcast_coordinator-sent_example = broadcast_coordinator-sent one_of_three fresh refl
