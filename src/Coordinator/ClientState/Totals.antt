-- ===== src/Coordinator/ClientState/Totals.antt =====
-- `totals` counts each batch once, whoever reports it and how often.
use tp_lavado_dinero.Prelude.{
  ℕ, ◌%◌, ◌≡◌, List, [], ◌++◌, arith, Bytes, bytes_eq, nat_eq, total, Distinct, total-same_set,
  SameSet,
}
use tp_lavado_dinero.Decimal.{u64_size}
use tp_lavado_dinero.GoMap.{get, keys}
use tp_lavado_dinero.Coordinator.ClientState.Defs.{BatchRecord, ClientState, totals, peer_keys}
use tp_lavado_dinero.Coordinator.ClientState.Counting.{
  no_tally, records, keys-records, totals-tally_peer, new_ids, contains-new_ids, Distinct-new_ids,
  Agrees, processed_of, survivors_of, tally_peer-total, tally_peer-lt,
}

-- The IDs of all batches that a worker knows of, its own and its peers'.
abbrev pub batch_ids : ClientState → List Bytes
batch_ids cs = keys cs.own_batches ++ peer_keys cs.peer_batches

new_ids-SameSet :
    (m : List (Bytes × BatchRecord)) (ids : List Bytes)
    → SameSet ids (keys m)
    → SameSet (new_ids [] m) ids
new_ids-SameSet m ids h = (
  λ a k. h.1 a (unfold get in ground (arith, contains-new_ids [] m a)),
  λ a k. unfold get in ground (arith, contains-new_ids [] m a, h.0 a k),
)

pub known_batches : (cs : ClientState) → SameSet (new_ids [] (records cs)) (batch_ids cs)
known_batches cs =
    rw (← keys-records cs) (new_ids-SameSet (records cs) (keys (records cs)) (λ a k. k, λ a k. k))

-- Where all reports of a batch agree with `truth`, the totals are the sums of the true counts over
-- the set of known batches, each once, modulo 2 ^ 64, however often a batch was reported and in
-- whatever order the maps are visited.
pub totals_once :
    (truth : Bytes → BatchRecord) (cs : ClientState) (ids : List Bytes)
    → Distinct (keys cs.own_batches)
    → Agrees truth (records cs)
    → Distinct ids
    → SameSet ids (batch_ids cs)
    → ((totals cs).0 ≡ total (processed_of truth) ids % u64_size)
      × ((totals cs).1 ≡ total (survivors_of truth) ids % u64_size)
totals_once truth cs ids d g di same =
    let (p, s) = tally_peer-total truth (records cs) no_tally g in
    let c = new_ids-SameSet (records cs) ids (rw keys-records same) in
    let sum = λ (f : Bytes → ℕ).
      total-same_set f (new_ids [] (records cs)) ids (Distinct-new_ids [] (records cs)) di c.0
        c.1 in
    let (lp, ls) = tally_peer-lt (records cs) no_tally (omega arith) (omega arith) in
    rw (totals-tally_peer cs d) (
      omega (arith, p, lp, sum (processed_of truth)),
      omega (arith, s, ls, sum (survivors_of truth)),
    )
