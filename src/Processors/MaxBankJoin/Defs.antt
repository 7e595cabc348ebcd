-- ===== src/Processors/MaxBankJoin/Defs.antt =====
-- joiners/maxbankjoin: the store, the processor and the tracker.
use tp_lavado_dinero.Prelude.{
  ℕ, suc, Bool, true, Option, none, some, List, [], ◌∷◌, ◌++◌, Bytes, bytes_eq, ◌==◌, if◌then◌else◌,
  Exec, Result, ok, err, call_failed, ◌>>◌, pure,
}
use tp_lavado_dinero.Decimal.{format_uint}
use tp_lavado_dinero.GoMap.{Map, get, put, remove}
use tp_lavado_dinero.Checkpoint.Line.{CheckpointChange}
use tp_lavado_dinero.Checkpoint.Defs.{Processor, truth_of, slice_of}
use tp_lavado_dinero.Processors.Model.{Json}
use tp_lavado_dinero.Processors.Loops.{for_each}
use tp_lavado_dinero.Processors.MaxBank.Defs.{MaxBankResult}

abbrev pub result_kind : Bytes
result_kind = b'r' ∷ b'e' ∷ b's' ∷ b'u' ∷ b'l' ∷ b't' ∷ []

-- A store is the list of its results; a client without one has none.
pub record MaxBankJoin : Type 0 where
  pub result_stores : Map Bytes (List MaxBankResult)
  pub dirty_keys : Map Bytes Bool

abbrev pub new_max_bank_join : MaxBankJoin
new_max_bank_join = record { result_stores = []; dirty_keys = [] }

abbrev pub gathered : Bytes → MaxBankJoin → List MaxBankResult
gathered id p = slice_of (get p.result_stores id)

-- `getOrCreateStore` and the store's `Add`
unfoldable pub add_result : Bytes → MaxBankResult → MaxBankJoin → MaxBankJoin
add_result id r p = record p { result_stores = put p.result_stores id (gathered id p ++ r ∷ []) }

unfoldable pub mark_result_added : Bytes → MaxBankJoin → MaxBankJoin
mark_result_added id p = record p { dirty_keys = put p.dirty_keys id true }

unfoldable pub process_result : Bytes → MaxBankResult → Exec MaxBankJoin (Unit {0})
unfolding add_result mark_result_added
process_result id r p = (ok tt, mark_result_added id (add_result id r p))

-- `Cleanup` and `ClearClientState`
unfoldable pub cleanup_results : Bytes → MaxBankJoin → MaxBankJoin
cleanup_results id p = record {
  result_stores = remove p.result_stores id;
  dirty_keys = remove p.dirty_keys id;
}

unfoldable pub yield_results {κ} :
    {W : Type κ} → (MaxBankResult → Exec W (Unit {0})) → List MaxBankResult → ℕ → Exec W ℕ
yield_results yield [] total = pure total
yield_results yield (r ∷ rs) total = do yield r; yield_results yield rs (suc total)

-- The client is cleaned up behind an error of `yield` as well.
unfoldable pub finalize_results {κ} :
    {W : Type κ}
    → Bytes
    → (MaxBankResult → Exec W (Unit {0}))
    → MaxBankJoin
    → W
    → Result ℕ × MaxBankJoin × W
unfolding yield_results cleanup_results
finalize_results id yield p w =
    let (r, w') = yield_results yield (gathered id p) 0 w in (r, cleanup_results id p, w')

module _ (j : Json MaxBankResult) where
  -- "%s:%d"
  unfoldable pub result_change : Bytes → ℕ → Bytes → CheckpointChange
  result_change id i text = record {
    kind = result_kind;
    key = id ++ b':' ∷ format_uint i;
    value = text;
  }

  -- The changes of all results, the first of which has the index `i`
  unfoldable pub result_changes : Bytes → ℕ → List MaxBankResult → Option (List CheckpointChange)
  unfolding result_change
  result_changes id i [] = some []
  result_changes id i (r ∷ rs) = elim (j.marshal r) [
    | none ↦ none
    | some text ↦ elim (result_changes id (suc i) rs) [
      | none ↦ none
      | some changes ↦ some (result_change id i text ∷ changes)
    ]
  ]

  abbrev pub drained_results :
      Bytes
      → MaxBankJoin
      → Option (List CheckpointChange)
      → Result (List CheckpointChange) × MaxBankJoin
  drained_results id p none = (err call_failed, p)
  drained_results id p (some changes) =
      (ok changes, record p { dirty_keys = remove p.dirty_keys id })

  unfoldable pub drain_results : Bytes → Exec MaxBankJoin (List CheckpointChange)
  unfolding result_changes
  drain_results id p =
      if truth_of (get p.dirty_keys id)
      then elim (get p.result_stores id) [
        | none ↦ (ok [], p)
        | some results ↦ drained_results id p (result_changes id 0 results)
      ]
      else (ok [], p)

  -- A change of another kind is passed over.
  unfoldable pub restore_result : Bytes → CheckpointChange → Exec MaxBankJoin (Unit {0})
  unfolding add_result mark_result_added
  restore_result id change p =
      if result_kind == change.kind
      then elim (j.unmarshal change.value) [
        | none ↦ (err call_failed, p)
        | some r ↦ (ok tt, mark_result_added id (add_result id r p))
      ]
      else (ok tt, p)

  unfoldable pub restore_results : Bytes → List CheckpointChange → Exec MaxBankJoin (Unit {0})
  unfolding restore_result for_each
  restore_results id = for_each (restore_result id)

  unfoldable pub apply_result : Bytes → CheckpointChange → Exec MaxBankJoin (Unit {0})
  unfolding add_result
  apply_result id change p =
      if result_kind == change.kind
      then elim (j.unmarshal change.value) [
        | none ↦ (err call_failed, p)
        | some r ↦ (ok tt, add_result id r p)
      ]
      else (err call_failed, p)

  -- Checkpointable
  abbrev pub results_checkpointable : Processor MaxBankJoin
  results_checkpointable = record {
    clear_client_state = λ id p. (ok tt, cleanup_results id p);
    drain_changes = drain_results;
    restore_changes = restore_results;
    apply_change = apply_result;
  }
