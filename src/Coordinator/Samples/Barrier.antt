-- ===== src/Coordinator/Samples/Barrier.antt =====
-- clientState.go: what a worker knows, at a worker that has all of it.
use tp_lavado_dinero.Prelude.{
  ℕ, ◌%◌, ◌≡◌, refl, true, false, List, [], ◌∷◌, arith, Bytes, bytes_eq, bytes_beq, ◌==◌,
  if◌then◌else◌, contains, total, Subset, SameSet,
}
use tp_lavado_dinero.Decimal.{u64_size}
use tp_lavado_dinero.GoMap.{get, put, keys}
use tp_lavado_dinero.Coordinator.ClientState.{
  BatchRecord, ClientState, u32_size, totals, eof_totals, is_ready_to_flush, get_last_eof_id,
  add_own_eof, add_peer_eof, new_client_state, peer_keys, tally_own, tally_peers, tally_peer,
  count_record, copy_eofs, merge_peer_eofs, merge_eofs, sum_eofs, has_all_eofs,
}
use tp_lavado_dinero.Coordinator.ClientState.Totals.{batch_ids, totals_once}
use tp_lavado_dinero.Coordinator.ClientState.Counting.{records, merged, processed_of, survivors_of}
use tp_lavado_dinero.Coordinator.ClientState.Eofs.{eof_ids, eof_totals_once}
use tp_lavado_dinero.Coordinator.ClientState.Barrier.{Upstream, Honest, ready-Subset}
use tp_lavado_dinero.Coordinator.ClientState.Sorting.{
  IsGreatest, add_eof-IsGreatest, last_eof_id-SameSet,
}
use tp_lavado_dinero.Coordinator.Samples.{x, y, e, f, record_x, record_y}

abbrev truth : Bytes → BatchRecord
truth id = if id == x then record_x else record_y

abbrev expected : Bytes → ℕ
expected id = if id == e then 2 else 3

-- A worker that has processed `x`, knows of `y` and of a second report of `x`, and has both EOFs.
abbrev informed : ClientState
informed = record {
  own_batches = (x, record_x) ∷ [];
  peer_batches = (1, (y, record_y) ∷ (x, record_x) ∷ []) ∷ [];
  own_eofs = (e, 2) ∷ [];
  peer_eofs = (1, (f, 3) ∷ (e, 2) ∷ []) ∷ [];
  last_eof_id = f;
  flushed = false;
}

known_by_informed : (batch_ids informed ≡ x ∷ y ∷ x ∷ []) × (eof_ids informed ≡ e ∷ f ∷ e ∷ [])
unfolding keys peer_keys
known_by_informed = (refl, refl)

once : {ids : List Bytes} {a b : Bytes} → ids ≡ a ∷ b ∷ a ∷ [] → SameSet (a ∷ b ∷ []) ids
once {ids} {a} {b} h = rw h (λ k m. ground (arith, m), λ k m. ground (arith, m))

totals_once_example :
    ((totals informed).0 ≡ total (processed_of truth) (x ∷ y ∷ []) % u64_size)
    × ((totals informed).1 ≡ total (survivors_of truth) (x ∷ y ∷ []) % u64_size)
unfolding bytes_beq
totals_once_example =
    totals_once truth informed (x ∷ y ∷ []) (unfold keys in (refl, tt))
      (unfold records merged bytes_beq in (refl, (refl, (refl, tt)))) (refl, (refl, tt))
      (once known_by_informed.0)

eof_totals_once_example :
    eof_totals informed ≡ (2 % u32_size, total expected (e ∷ f ∷ []) % u64_size)
unfolding bytes_beq
eof_totals_once_example =
    eof_totals_once expected informed (e ∷ f ∷ []) (unfold bytes_beq in (refl, tt))
      (unfold merged bytes_beq in (refl, (refl, tt))) (refl, (refl, tt)) (once known_by_informed.1)

abbrev upstream : Upstream
upstream = record {
  batches = x ∷ y ∷ [];
  eofs = e ∷ f ∷ [];
  truth = truth;
  expected = expected;
  distinct_batches = unfold bytes_beq in (refl, (refl, tt));
  distinct_eofs = unfold bytes_beq in (refl, (refl, tt));
  rows = unfold bytes_beq in (omega arith, (omega arith, tt));
  balance = unfold bytes_beq in refl;
  few_rows = unfold bytes_beq in omega arith;
}

informed-Honest : Honest upstream informed
informed-Honest = record {
  own_distinct = unfold keys in (refl, tt);
  batches_agree = unfold records merged bytes_beq in (refl, (refl, (refl, tt)));
  own_eofs_agree = unfold bytes_beq in (refl, tt);
  peer_eofs_agree = unfold merged bytes_beq in (refl, (refl, tt));
  batches_known = (once known_by_informed.0).1;
  eofs_known = (once known_by_informed.1).1;
}

informed_ready : is_ready_to_flush informed 2 ≡ true
unfolding is_ready_to_flush has_all_eofs eof_totals copy_eofs merge_peer_eofs merge_eofs sum_eofs
    totals tally_own tally_peers tally_peer count_record get put bytes_beq
informed_ready = refl

ready-Subset_example : Subset (x ∷ y ∷ []) (batch_ids informed)
ready-Subset_example = ready-Subset upstream informed informed-Honest informed_ready

add_eof-IsGreatest_example :
    let own = add_own_eof informed f 3 in
    let peer = add_peer_eof informed 1 f 3 in
    (contains (eof_ids own) f ≡ true)
    × IsGreatest (eof_ids own) own.last_eof_id
    × (contains (eof_ids peer) f ≡ true)
    × IsGreatest (eof_ids peer) peer.last_eof_id
add_eof-IsGreatest_example = add_eof-IsGreatest informed 1 f 3

-- a worker with the same EOFs from the other side
abbrev other : ClientState
other = record new_client_state { own_eofs = (f, 3) ∷ []; peer_eofs = (2, (e, 2) ∷ []) ∷ [] }

other-SameSet : SameSet (eof_ids informed) (eof_ids other)
unfolding keys peer_keys
other-SameSet = (λ k m. ground (arith, m), λ k m. ground (arith, m))

last_eof_id-SameSet_example :
    (get_last_eof_id informed).last_eof_id ≡ (get_last_eof_id other).last_eof_id
last_eof_id-SameSet_example =
    last_eof_id-SameSet informed other other-SameSet e (unfold keys peer_keys bytes_beq in refl)
