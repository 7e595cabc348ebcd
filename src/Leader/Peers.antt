-- ===== src/Leader/Peers.antt =====
-- Who gets the messages of a node, and that sending changes nothing else.
use tp_lavado_dinero.Prelude.{
  ℕ, zero, suc, ◌-◌, ◌≡◌, refl, sym, ap, ◌∙◌, inl, inr, Bool, true, false, List, [], ◌∷◌, ◌++◌, map,
  append_assoc, append-nil, arith, Bytes, nat_beq, nat_eq, leb, Bool-cases, without, Option, none,
  some, if◌then◌else◌,
}
use tp_lavado_dinero.Leader.Defs.{
  Settings, Node, Note, Pending, election, heartbeat, routing_key, send, send_heartbeats,
  send_elections, broadcast_coordinator, campaign, become_leader, is_leader,
}

-- All but the messages and the outcomes to come
pub record Kept (s s' : Node) : Type 0 where
  pub leader_id : s'.leader_id ≡ s.leader_id
  pub election_in_progress : s'.election_in_progress ≡ s.election_in_progress
  pub got_answer : s'.got_answer ≡ s.got_answer
  pub closed : s'.closed ≡ s.closed
  pub pending : s'.pending ≡ s.pending
  pub calls : s'.calls ≡ s.calls

Kept-refl : (s : Node) → Kept s s
Kept-refl s = record {
  leader_id = refl;
  election_in_progress = refl;
  got_answer = refl;
  closed = refl;
  pending = refl;
  calls = refl;
}

Kept-trans : {s t u : Node} → Kept s t → Kept t u → Kept s u
Kept-trans p q = record {
  leader_id = q.leader_id ∙ p.leader_id;
  election_in_progress = q.election_in_progress ∙ p.election_in_progress;
  got_answer = q.got_answer ∙ p.got_answer;
  closed = q.closed ∙ p.closed;
  pending = q.pending ∙ p.pending;
  calls = q.calls ∙ p.calls;
}

send_with-Kept :
    (os : List Bool) (peer : ℕ) (note : Note) (s : Node)
    → s.outcomes ≡ os
    → Kept s (send peer note s).1
unfolding send
send_with-Kept [] peer note s e =
    rw (e, send)
      (record {
        leader_id = refl;
        election_in_progress = refl;
        got_answer = refl;
        closed = refl;
        pending = refl;
        calls = refl;
      })
send_with-Kept (true ∷ os) peer note s e =
    rw (e, send)
      (record {
        leader_id = refl;
        election_in_progress = refl;
        got_answer = refl;
        closed = refl;
        pending = refl;
        calls = refl;
      })
send_with-Kept (false ∷ os) peer note s e =
    rw (e, send)
      (record {
        leader_id = refl;
        election_in_progress = refl;
        got_answer = refl;
        closed = refl;
        pending = refl;
        calls = refl;
      })

pub send-Kept : (peer : ℕ) (note : Note) (s : Node) → Kept s (send peer note s).1
send-Kept peer note s = send_with-Kept s.outcomes peer note s refl

pub send_heartbeats-Kept : (id from k : ℕ) (s : Node) → Kept s (send_heartbeats id from k s)
unfolding send_heartbeats
send_heartbeats-Kept id from zero s = Kept-refl s
send_heartbeats-Kept id from (suc k) s = elim (Bool-cases (nat_beq from id)) [
  | inl self ↦ rw (self, send_heartbeats) (send_heartbeats-Kept id (suc from) k s)
  | inr peer ↦
      let first = send-Kept from (heartbeat id) s in
      elim (Bool-cases (send from (heartbeat id) s).0) [
        | inl fine ↦
            rw (peer, fine, send_heartbeats)
              (Kept-trans first
                (send_heartbeats-Kept id (suc from) k (send from (heartbeat id) s).1))
        | inr failed ↦ rw (peer, failed, send_heartbeats) first
      ]
]

pub send_elections-Kept : (id from k : ℕ) (s : Node) → Kept s (send_elections id from k s)
unfolding send_elections
send_elections-Kept id from zero s = Kept-refl s
send_elections-Kept id from (suc k) s =
    Kept-trans (send-Kept from (election id) s)
      (send_elections-Kept id (suc from) k (send from (election id) s).1)

-- from, from + 1, and so on: `k` IDs
abbrev pub ids_from : ℕ → ℕ → List ℕ
ids_from from zero = []
ids_from from (suc k) = from ∷ ids_from (suc from) k

abbrev pub addressed : Note → List ℕ → List (Bytes × Note)
addressed note ids = map (λ id. (routing_key id, note)) ids

-- a send that succeeds
abbrev noted : ℕ → Note → Node → Node
noted peer note s = record s { sent = s.sent ++ (routing_key peer, note) ∷ [] }

send_fine :
    (peer : ℕ) (note : Note) (s : Node)
    → s.outcomes ≡ []
    → send peer note s ≡ (true, noted peer note s)
unfolding send
send_fine peer note s e = rw e refl

send_heartbeats-sent :
    (id from k : ℕ) (s : Node)
    → s.outcomes ≡ []
    → (send_heartbeats id from k s).sent
      ≡ s.sent ++ addressed (heartbeat id) (without id (ids_from from k))
unfolding send_heartbeats
send_heartbeats-sent id from zero s e = sym (append-nil s.sent)
send_heartbeats-sent id from (suc k) s e =
    let rest : List ℕ = ids_from (suc from) k in
    elim (Bool-cases (nat_beq from id)) [
      | inl self ↦
          rw (self, send_heartbeats)
            (send_heartbeats-sent id (suc from) k s e
              ∙ ap (λ ids. s.sent ++ addressed (heartbeat id) ids)
                  (ground (arith, self, nat_eq.beq_iff id from, nat_eq.beq_iff from id)))
      | inr peer ↦
          let skip : without id (from ∷ rest) ≡ from ∷ without id rest =
            ground (arith, peer, nat_eq.beq_iff id from, nat_eq.beq_iff from id) in
          rw
            (
              peer,
              ap (λ (r : Bool × Node). r.0) (send_fine from (heartbeat id) s e),
              send_heartbeats,
            )
            (ap (λ (r : Bool × Node). (send_heartbeats id (suc from) k r.1).sent)
                (send_fine from (heartbeat id) s e)
              ∙ send_heartbeats-sent id (suc from) k (noted from (heartbeat id) s) e
              ∙ append_assoc s.sent _ _
              ∙ ap (λ ids. s.sent ++ addressed (heartbeat id) ids) (sym skip))
    ]

send_elections-sent :
    (id from k : ℕ) (s : Node)
    → s.outcomes ≡ []
    → (send_elections id from k s).sent ≡ s.sent ++ addressed (election id) (ids_from from k)
unfolding send_elections
send_elections-sent id from zero s e = sym (append-nil s.sent)
send_elections-sent id from (suc k) s e =
    ap (λ (r : Bool × Node). (send_elections id (suc from) k r.1).sent)
      (send_fine from (election id) s e)
    ∙ send_elections-sent id (suc from) k (noted from (election id) s) e
    ∙ append_assoc s.sent _ _

pub is_leader_iff : (o : Option ℕ) (id : ℕ) → is_leader o id ≡ true → o ≡ some id
unfolding is_leader
is_leader_iff none id h = ground (arith, h)
is_leader_iff (some leader) id h = ap some (ground (arith, h))

module _ (c : Settings) where
  become_leader-sent : (now : ℕ) (s : Node) → (become_leader c now s).sent ≡ s.sent
  unfolding become_leader
  become_leader-sent now s = ground arith

  become_leader-leader :
      (now : ℕ) (s : Node) → s.closed ≡ false → (become_leader c now s).leader_id ≡ some c.id
  unfolding become_leader
  become_leader-leader now s open' = elim (Bool-cases (is_leader s.leader_id c.id)) [
    | inl leads ↦ rw (open', leads) (is_leader_iff s.leader_id c.id leads)
    | inr other ↦ rw (open', other) refl
  ]

  -- Where no send fails, a heartbeat goes once to every node of the cluster but the sender.
  pub broadcast_coordinator-sent :
      (s : Node)
      → s.outcomes ≡ []
      → (broadcast_coordinator c s).sent
        ≡ s.sent ++ addressed (heartbeat c.id) (without c.id (ids_from 0 c.count))
  unfolding broadcast_coordinator
  broadcast_coordinator-sent s e = send_heartbeats-sent c.id 0 c.count s e

  -- Where no send fails, an open node that is not the last of its cluster asks each node with a higher
  -- ID, once, and sets a timer; the last one asks nobody, and leads.
  campaign-sent :
      (now : ℕ) (s : Node)
      → s.outcomes ≡ []
      → s.closed ≡ false
      → ((campaign c now s).sent
          ≡ s.sent ++ addressed (election c.id) (ids_from (suc c.id) (c.count - suc c.id)))
        × (if leb c.count (suc c.id)
            then ((campaign c now s).leader_id ≡ some c.id)
            else ((campaign c now s).pending.timeouts ≡ suc s.pending.timeouts))
  unfolding campaign
  campaign-sent now s e open' = elim (Bool-cases (leb c.count (suc c.id))) [
    | inl last ↦
        let nobody : c.count - suc c.id ≡ 0 = ground (arith, last) in
        rw (last, nobody, campaign)
          (become_leader-sent now s ∙ sym (append-nil s.sent), become_leader-leader now s open')
    | inr more ↦
        rw (more, campaign)
          (
            send_elections-sent c.id (suc c.id) (c.count - suc c.id) s e,
            ap (λ (p : Pending). suc p.timeouts)
                (send_elections-Kept c.id (suc c.id) (c.count - suc c.id) s).pending,
          )
  ]
