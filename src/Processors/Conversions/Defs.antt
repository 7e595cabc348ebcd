-- ===== src/Processors/Conversions/Defs.antt =====
-- joiners/conversionjoin: the processor, which counts, and its tracker. A count is an int and not cut
-- off.
use tp_lavado_dinero.Prelude.{
  ℕ, suc, Bool, true, Option, none, some, List, [], ◌∷◌, Bytes, bytes_eq, ◌==◌, if◌then◌else◌, Exec,
  Result, ok, err, call_failed,
}
use tp_lavado_dinero.GoMap.{Map, get, put, remove}
use tp_lavado_dinero.Checkpoint.Line.{CheckpointChange}
use tp_lavado_dinero.Checkpoint.Defs.{Processor, count_of, truth_of}
use tp_lavado_dinero.Processors.Model.{Json}
use tp_lavado_dinero.Processors.Loops.{for_each}

abbrev pub count_kind : Bytes
count_kind = b'c' ∷ b'o' ∷ b'u' ∷ b'n' ∷ b't' ∷ []

-- countCheckpointValue
pub record CountValue : Type 0 where
  pub count : ℕ

pub record ConversionJoin : Type 0 where
  pub client_results : Map Bytes ℕ
  pub dirty_counts : Map Bytes Bool

abbrev pub new_join : ConversionJoin
new_join = record { client_results = []; dirty_counts = [] }

-- p.clientResults[clientID] and t.dirtyCounts[clientID]
abbrev pub result_of : Bytes → ConversionJoin → ℕ
result_of id p = count_of (get p.client_results id)

abbrev pub is_dirty : Bytes → ConversionJoin → Bool
is_dirty id p = truth_of (get p.dirty_counts id)

abbrev pub set_result : Bytes → ℕ → ConversionJoin → ConversionJoin
set_result id n p = record p { client_results = put p.client_results id n }

unfoldable pub mark_count_changed : Bytes → ConversionJoin → ConversionJoin
mark_count_changed id p = record p { dirty_counts = put p.dirty_counts id true }

-- `Process`: the amount itself does not matter.
unfoldable pub process_amount {κ} : {A : Type κ} → Bytes → A → Exec ConversionJoin (Unit {0})
unfolding mark_count_changed
process_amount id a p = (ok tt, mark_count_changed id (set_result id (suc (result_of id p)) p))

-- `Cleanup` and `ClearClientState`
unfoldable pub cleanup_counts : Bytes → ConversionJoin → ConversionJoin
cleanup_counts id p = record {
  client_results = remove p.client_results id;
  dirty_counts = remove p.dirty_counts id;
}

-- An error of `yield` is dropped, and the client kept.
unfoldable pub finalize_count {κ} :
    {W : Type κ}
    → Bytes
    → (ℕ → Exec W (Unit {0}))
    → ConversionJoin
    → W
    → Result ℕ × ConversionJoin × W
unfolding cleanup_counts
finalize_count id yield p w = elim ((yield (result_of id p) w).0) [
  | ok _ ↦ (ok 1, cleanup_counts id p, (yield (result_of id p) w).1)
  | err e ↦ (ok 0, p, (yield (result_of id p) w).1)
]

module _ (j : Json CountValue) where
  abbrev pub change_of : Bytes → Bytes → CheckpointChange
  change_of id text = record { kind = count_kind; key = id; value = text }

  abbrev pub drained_text :
      Bytes → ConversionJoin → Option Bytes → Result (List CheckpointChange) × ConversionJoin
  drained_text id p none = (err call_failed, p)
  drained_text id p (some text) =
      (ok (change_of id text ∷ []), record p { dirty_counts = remove p.dirty_counts id })

  unfoldable pub drain_counts : Bytes → Exec ConversionJoin (List CheckpointChange)
  drain_counts id p =
      if is_dirty id p
      then drained_text id p (j.marshal (record { count = result_of id p }))
      else (ok [], p)

  -- A change of another kind is passed over.
  unfoldable pub restore_count : Bytes → CheckpointChange → Exec ConversionJoin (Unit {0})
  unfolding mark_count_changed
  restore_count id change p =
      if count_kind == change.kind
      then elim (j.unmarshal change.value) [
        | none ↦ (err call_failed, p)
        | some v ↦ (ok tt, mark_count_changed id (set_result id v.count p))
      ]
      else (ok tt, p)

  unfoldable pub restore_counts : Bytes → List CheckpointChange → Exec ConversionJoin (Unit {0})
  unfolding restore_count for_each
  restore_counts id = for_each (restore_count id)

  unfoldable pub apply_count : Bytes → CheckpointChange → Exec ConversionJoin (Unit {0})
  apply_count id change p =
      if count_kind == change.kind
      then elim (j.unmarshal change.value) [
        | none ↦ (err call_failed, p)
        | some v ↦ (ok tt, set_result id v.count p)
      ]
      else (err call_failed, p)

  -- Checkpointable
  abbrev pub count_checkpointable : Processor ConversionJoin
  count_checkpointable = record {
    clear_client_state = λ id p. (ok tt, cleanup_counts id p);
    drain_changes = drain_counts;
    restore_changes = restore_counts;
    apply_change = apply_count;
  }
