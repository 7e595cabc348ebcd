-- ===== src/Coordinator/ClientState/Barrier.antt =====
-- `isReadyToFlush` is a barrier: it opens only when every batch of the client has been processed.
use tp_lavado_dinero.Prelude.{
  ℕ, ◌≤◌, ◌<◌, ◌≡◌, true, List, [], arith, Bytes, bytes_eq, nat_eq, length, total, contains,
  Distinct, Subset, SameSet, All, total-same_set, total-Subset-le, Subset-of_total_le,
  Subset-of_length_le,
}
use tp_lavado_dinero.Decimal.{u64_size}
use tp_lavado_dinero.GoMap.{keys}
use tp_lavado_dinero.Coordinator.ClientState.Defs.{BatchRecord, ClientState, is_ready_to_flush}
use tp_lavado_dinero.Coordinator.ClientState.Counting.{
  merged, records, new_ids, Distinct-new_ids, Agrees, processed_of,
}
use tp_lavado_dinero.Coordinator.ClientState.Totals.{batch_ids, known_batches, totals_once}
use tp_lavado_dinero.Coordinator.ClientState.Eofs.{
  EofsAgree, eof_ids, merged_eofs, known_eofs, eof_totals_once,
}

-- What the stage before sent for one client: batches that each hold a row, and EOFs whose expected
-- totals add up to the rows of the batches.
pub record Upstream : Type 0 where
  pub batches : List Bytes
  pub eofs : List Bytes
  pub truth : Bytes → BatchRecord
  pub expected : Bytes → ℕ
  pub distinct_batches : Distinct batches
  pub distinct_eofs : Distinct eofs
  pub rows : All (λ b. 0 < processed_of truth b) batches
  pub balance : total expected eofs ≡ total (processed_of truth) batches
  pub few_rows : total (processed_of truth) batches < u64_size

-- What a worker knows comes from there.
pub record Honest (u : Upstream) (cs : ClientState) : Type 0 where
  pub own_distinct : Distinct (keys cs.own_batches)
  pub batches_agree : Agrees u.truth (records cs)
  pub own_eofs_agree : EofsAgree u.expected cs.own_eofs
  pub peer_eofs_agree : EofsAgree u.expected (merged cs.peer_eofs)
  pub batches_known : Subset (batch_ids cs) u.batches
  pub eofs_known : Subset (eof_ids cs) u.eofs

module _ (u : Upstream) (cs : ClientState) (h : Honest u cs) where
  all_eofs :
      (known : List Bytes)
      → Distinct known
      → SameSet known (eof_ids cs)
      → is_ready_to_flush cs (length u.eofs) ≡ true
      → Subset u.eofs known
  unfolding is_ready_to_flush
  all_eofs known d same ready =
      Subset-of_length_le known u.eofs d u.distinct_eofs (λ a k. h.eofs_known a (same.0 a k))
        (ground
          (arith, eof_totals_once u.expected cs known h.own_eofs_agree h.peer_eofs_agree d same))

  -- Let the stage before have sent for a client different batches, each with a row, and different
  -- EOFs, the expected totals of which add up to the rows, less than 2 ^ 64 of them; and let a
  -- worker know only batches and EOFs that were sent, with each report of a batch or an EOF, its
  -- own or a peer's, giving the true counts. When the worker finds itself ready to flush after as
  -- many EOFs as were sent, every batch of the client has been processed, by itself or by a peer.
  pub ready-Subset : is_ready_to_flush cs (length u.eofs) ≡ true → Subset u.batches (batch_ids cs)
  unfolding is_ready_to_flush
  ready-Subset ready a b =
      let (d, same) = known_eofs u.expected cs h.own_eofs_agree h.peer_eofs_agree in
      let eofs : List Bytes = keys (merged_eofs cs) in
      let ids : List Bytes = new_ids [] (records cs) in
      let di = Distinct-new_ids [] (records cs) in
      let (sub, sup) = known_batches cs in
      let inside = λ (c : Bytes) (k : contains ids c ≡ true). h.batches_known c (sub c k) in
      let sums : total (processed_of u.truth) u.batches ≤ total (processed_of u.truth) ids =
        ground (
          arith,
          eof_totals_once u.expected cs eofs h.own_eofs_agree h.peer_eofs_agree d same,
          totals_once u.truth cs ids h.own_distinct h.batches_agree di (sub, sup),
          total-same_set u.expected eofs u.eofs d u.distinct_eofs
              (λ c k. h.eofs_known c (same.0 c k)) (all_eofs eofs d same ready),
          total-Subset-le (processed_of u.truth) ids u.batches di u.distinct_batches inside,
          u.balance,
          u.few_rows,
        ) in
      sub a (
        Subset-of_total_le (processed_of u.truth) ids u.batches di u.distinct_batches inside u.rows
          sums a b)
