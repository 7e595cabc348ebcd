-- ===== src/Processors/MaxBank/Changes.antt =====
-- groupers/maxbank: the changes of a checkpoint, applied to a processor or given back to it.
use tp_lavado_dinero.Prelude.{
  ◌≡◌, some, List, ◌++◌, arith, Bytes, bytes_eq, bytes_beq, Option-cases, inl, inr, ok,
}
use tp_lavado_dinero.GoMap.{Map}
use tp_lavado_dinero.Checkpoint.Line.{CheckpointChange}
use tp_lavado_dinero.Processors.Model.{ℤ, int_eq, Json, Floats}
use tp_lavado_dinero.Processors.Loops.{each, for_each, for_each-append, for_each-each}
use tp_lavado_dinero.Processors.MaxBank.Store.{Record}
use tp_lavado_dinero.Processors.MaxBank.Defs.{
  BankNameValue, MaxTxValue, P, mark_bank_name, mark_max_transaction, name_change, max_value,
  max_change, restore_change, restore_changes, set_bank_name, apply_change,
}
use tp_lavado_dinero.Processors.MaxBank.Views.{set_max, restored_by, marked_by}

module _ (fl : Floats) (jn : Json BankNameValue) (jm : Json (MaxTxValue fl.F)) where
  pub name_applied :
      (id : Bytes) (bank : ℤ) (name : Bytes) (a : CheckpointChange) (p : P fl)
      → name_change fl jn jm bank name ≡ some a
      → apply_change fl jn jm id a p ≡ (ok tt, set_bank_name fl id bank name p)
  unfolding name_change apply_change bytes_beq
  name_applied id bank name a p h =
      let v : BankNameValue = record { bank_id = bank; bank_name = name } in
      elim (Option-cases (jn.marshal v)) [
        | inl e ↦ absurd (ground (arith, h, e))
        | inr (text, e) ↦ ground (arith, h, e, jn.unmarshal-marshal v text)
      ]

  pub max_applied :
      (id : Bytes) (bank : ℤ) (r : Record fl.F) (a : CheckpointChange) (p : P fl)
      → max_change fl jn jm bank r ≡ some a
      → apply_change fl jn jm id a p ≡ (ok tt, set_max fl id bank r p)
  unfolding max_change apply_change bytes_beq max_value set_max
  max_applied id bank r a p h =
      let v = max_value fl bank r in
      elim (Option-cases (jm.marshal v)) [
        | inl e ↦ absurd (ground (arith, h, e))
        | inr (text, e) ↦ ground (arith, h, e, jm.unmarshal-marshal v text)
      ]

  pub name_restored :
      (id : Bytes) (bank : ℤ) (name : Bytes) (a : CheckpointChange) (p : P fl)
      → name_change fl jn jm bank name ≡ some a
      → restore_change fl jn jm id a p ≡ (ok tt, mark_bank_name fl id bank name p)
  unfolding name_change restore_change bytes_beq
  name_restored id bank name a p h =
      let v : BankNameValue = record { bank_id = bank; bank_name = name } in
      elim (Option-cases (jn.marshal v)) [
        | inl e ↦ absurd (ground (arith, h, e))
        | inr (text, e) ↦ ground (arith, h, e, jn.unmarshal-marshal v text)
      ]

  pub max_restored :
      (id : Bytes) (bank : ℤ) (r : Record fl.F) (a : CheckpointChange) (p : P fl)
      → max_change fl jn jm bank r ≡ some a
      → restore_change fl jn jm id a p ≡ (ok tt, mark_max_transaction fl id bank r p)
  unfolding max_change restore_change bytes_beq max_value
  max_restored id bank r a p h =
      let v = max_value fl bank r in
      elim (Option-cases (jm.marshal v)) [
        | inl e ↦ absurd (ground (arith, h, e))
        | inr (text, e) ↦ ground (arith, h, e, jm.unmarshal-marshal v text)
      ]

  pub changes_applied :
      (id : Bytes) (n : Map ℤ Bytes) (x : Map ℤ (Record fl.F)) (ns xs : List CheckpointChange)
      (p : P fl)
      → each (name_change fl jn jm) n ≡ some ns
      → each (max_change fl jn jm) x ≡ some xs
      → for_each (apply_change fl jn jm id) (ns ++ xs) p ≡ (ok tt, restored_by fl id n x p)
  unfolding restored_by
  changes_applied id n x ns xs p hn hx =
      rw
        (
          for_each-append (apply_change fl jn jm id) ns xs p,
          for_each-each (apply_change fl jn jm id) (name_change fl jn jm) (set_bank_name fl id)
              (name_applied id) n ns p hn,
        )
        (for_each-each (apply_change fl jn jm id) (max_change fl jn jm) (set_max fl id)
          (max_applied id) x xs _ hx)

  pub changes_restored :
      (j : Bytes) (n : Map ℤ Bytes) (x : Map ℤ (Record fl.F)) (ns xs : List CheckpointChange)
      (p : P fl)
      → each (name_change fl jn jm) n ≡ some ns
      → each (max_change fl jn jm) x ≡ some xs
      → restore_changes fl jn jm j (ns ++ xs) p ≡ (ok tt, marked_by fl j n x p)
  unfolding marked_by restore_changes
  changes_restored j n x ns xs p hn hx =
      rw
        (
          for_each-append (restore_change fl jn jm j) ns xs p,
          for_each-each (restore_change fl jn jm j) (name_change fl jn jm) (mark_bank_name fl j)
              (name_restored j) n ns p hn,
        )
        (for_each-each (restore_change fl jn jm j) (max_change fl jn jm) (mark_max_transaction fl j)
          (max_restored j) x xs _ hx)
