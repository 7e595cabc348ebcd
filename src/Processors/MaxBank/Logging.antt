-- ===== src/Processors/MaxBank/Logging.antt =====
-- groupers/maxbank: what the store, the marks and the log of a client have to do with each other.
use tp_lavado_dinero.Prelude.{
  ◌≡◌, refl, ap, Option, none, some, List, [], ◌++◌, Bytes, bytes_eq, bytes_beq_iff, ◌==◌,
  Bool-cases, Option-cases, inl, inr, ok,
}
use tp_lavado_dinero.GoMap.{get}
use tp_lavado_dinero.Checkpoint.Line.{CheckpointChange}
use tp_lavado_dinero.Processors.Model.{ℤ, int_eq, Json, Floats}
use tp_lavado_dinero.Processors.Loops.{each, for_each-append}
use tp_lavado_dinero.Processors.Dirty.{
  InStep, InStep-start, InStep-put_map, InStep-saved_map, InStep-lost,
}
use tp_lavado_dinero.Processors.Journal.{
  Op, received, saved, lost, apply_all, Logged, after_saved, after_lost, step,
}
use tp_lavado_dinero.Processors.MaxBank.Store.{
  Record, Store, update_bank_name, update_max_transaction,
}
use tp_lavado_dinero.Processors.MaxBank.Defs.{
  no_payload, bank_metadata, transfer_summary, MaxBank, BankNameValue, MaxTxValue, P, new_processor,
  store_of, get_store, mark_bank_name, mark_max_transaction, process_name, process_transfer,
  process_amount, process_payload, process, name_change, max_change, dirty_names, dirty_max,
  undirty, drained, drain_changes, set_bank_name, apply_change, checkpointable,
}
use tp_lavado_dinero.Processors.MaxBank.Views.{
  names, maxima, Kept, set_max, names_set, maxima_set, names_marked, maxima_marked, Kept-get_store,
  restored_by, restored_by-names, restored_by-maxima, marked_by, marked_by-names, marked_by-maxima,
  marked_by-others, marked_by-stores, undirty-names, undirty-maxima, stores_alike,
}
use tp_lavado_dinero.Processors.MaxBank.Changes.{changes_applied, changes_restored}

module _ (fl : Floats) (jn : Json BankNameValue) (jm : Json (MaxTxValue fl.F)) where
  -- A client's state in the processor, what a checkpoint of it writes, and what its log gives back
  pub record Synced (id : Bytes) (s : Logged (checkpointable fl jn jm) (process fl)) : Type 0 where
    pub restored : P fl
    pub applies :
        apply_all (checkpointable fl jn jm) (process fl) id s.1 (new_processor fl)
        ≡ (ok tt, restored)
    pub names_synced :
        InStep (get (names fl id s.0)) (dirty_names fl id s.0) (get (names fl id restored))
    pub maxima_synced :
        InStep (get (maxima fl id s.0)) (dirty_max fl id s.0) (get (maxima fl id restored))

  Synced-Kept :
      (id : Bytes) (p q : P fl) (log : List CheckpointChange)
      → Kept fl id p q
      → Synced id (p, log)
      → Synced id (q, log)
  Synced-Kept id p q log k s = record {
    restored = s.restored;
    applies = s.applies;
    names_synced = rw (k.names_kept, k.dirty_names_kept) s.names_synced;
    maxima_synced = rw (k.maxima_kept, k.dirty_max_kept) s.maxima_synced;
  }

  name_noted :
      (j id : Bytes) (bank : ℤ) (name : Bytes) (p : P fl) (log : List CheckpointChange)
      → Synced id (p, log)
      → Synced id (mark_bank_name fl j bank name (set_bank_name fl j bank name p), log)
  unfolding mark_bank_name store_of
  name_noted j id bank name p log s =
      let n = names_set fl j id bank name p in
      let d = names_marked fl j id bank name p in
      elim (Bool-cases (j == id)) [
        | inl e ↦ record {
          restored = s.restored;
          applies = s.applies;
          names_synced = rw (n.0, d, e) (InStep-put_map _ _ _ bank name s.names_synced);
          maxima_synced = rw (n.1) s.maxima_synced;
        }
        | inr e ↦ record {
          restored = s.restored;
          applies = s.applies;
          names_synced = rw (n.0, d, e) s.names_synced;
          maxima_synced = rw (n.1) s.maxima_synced;
        }
      ]

  transfer_noted :
      (j id : Bytes) (bank : ℤ) (r : Record fl.F) (p : P fl) (log : List CheckpointChange)
      → Synced id (p, log)
      → Synced id (mark_max_transaction fl j bank r (set_max fl j bank r p), log)
  unfolding mark_max_transaction store_of set_max
  transfer_noted j id bank r p log s =
      let n = maxima_set fl j id bank r p in
      let d = maxima_marked fl j id bank r p in
      elim (Bool-cases (j == id)) [
        | inl e ↦ record {
          restored = s.restored;
          applies = s.applies;
          names_synced = rw (n.0) s.names_synced;
          maxima_synced = rw (n.1, d, e) (InStep-put_map _ _ _ bank r s.maxima_synced);
        }
        | inr e ↦ record {
          restored = s.restored;
          applies = s.applies;
          names_synced = rw (n.0) s.names_synced;
          maxima_synced = rw (n.1, d, e) s.maxima_synced;
        }
      ]

  process_name-Synced :
      (j id : Bytes) (bank : ℤ) (name : Bytes) (p : P fl) (log : List CheckpointChange)
      → Synced id (p, log)
      → Synced id (process_name fl j bank name p, log)
  unfolding process_name update_bank_name
  process_name-Synced j id bank name p log s =
      let unchanged = Synced-Kept id p (get_store fl j p) log (Kept-get_store fl j id p) s in
      let changed = name_noted j id bank name p log s in
      elim (Option-cases (get (names fl j p) bank)) [
        | inl e ↦ rw (e, update_bank_name) changed
        | inr (current, e) ↦ elim (Bool-cases (current == name)) [
          | inl same ↦ rw (e, same, update_bank_name) (unfold get_store in unchanged)
          | inr other ↦ rw (e, other, update_bank_name) changed
        ]
      ]

  process_transfer-Synced :
      (j id : Bytes) (bank : ℤ) (r : Record fl.F) (p : P fl) (log : List CheckpointChange)
      → Synced id (p, log)
      → Synced id (process_transfer fl j bank r p, log)
  unfolding process_transfer update_max_transaction set_max
  process_transfer-Synced j id bank r p log s =
      let unchanged = Synced-Kept id p (get_store fl j p) log (Kept-get_store fl j id p) s in
      let changed = transfer_noted j id bank r p log s in
      elim (Option-cases (get (maxima fl j p) bank)) [
        | inl e ↦ rw (e, update_max_transaction) changed
        | inr (current, e) ↦ elim (Bool-cases (fl.gt r.amount_value current.amount_value)) [
          | inl more ↦ rw (e, more, update_max_transaction) changed
          | inr less ↦ rw (e, less, update_max_transaction) (unfold get_store in unchanged)
        ]
      ]

  process-Synced :
      (j id : Bytes) (m : MaxBank) (p : P fl) (log : List CheckpointChange)
      → Synced id (p, log)
      → Synced id ((process fl j m p).1, log)
  unfolding process process_payload process_amount
  process-Synced j id m p log s =
      let unchanged = Synced-Kept id p (get_store fl j p) log (Kept-get_store fl j id p) s in
      elim m.payload as (λ y. Synced id ((process_payload fl j m.from_bank y p).1, log)) [
        | no_payload ↦ unchanged
        | bank_metadata name ↦ process_name-Synced j id m.from_bank name p log s
        | transfer_summary account amount ↦
            elim (fl.parse_float amount)
              as (λ v. Synced id ((process_amount fl j m.from_bank account amount v p).1, log)) [
                | none ↦ unchanged
                | some v ↦
                    process_transfer-Synced j id m.from_bank
                      (record { account = account; amount_value = v; amount_string = amount }) p log
                      s
              ]
      ]

  drained_saved :
      (j id : Bytes) (p : P fl) (log : List CheckpointChange) (n x : Option (List CheckpointChange))
      → each (name_change fl jn jm) (dirty_names fl j p) ≡ n
      → each (max_change fl jn jm) (dirty_max fl j p) ≡ x
      → Synced id (p, log)
      → Synced id (after_saved (checkpointable fl jn jm) (process fl) id j log (drained fl j p n x))
  unfolding after_saved apply_all restored_by
  drained_saved j id p log none x hn hx s = s
  drained_saved j id p log (some ns) none hn hx s = s
  drained_saved j id p log (some ns) (some xs) hn hx s =
      let un = undirty-names fl j id p in
      let ux = undirty-maxima fl j id p in
      elim (Bool-cases (j == id)) [
        | inr e ↦ rw e (
            Synced-Kept id p (undirty fl j p) log
              (record {
                names_kept = unfold store_of in refl;
                maxima_kept = unfold store_of in refl;
                dirty_names_kept = rw (un, e) refl;
                dirty_max_kept = rw (ux, e) refl;
              })
              s)
        | inl e ↦
            let same : j ≡ id = (bytes_beq_iff j id).0 e in
            let n = dirty_names fl j p in
            let x = dirty_max fl j p in
            let d = InStep-saved_map _ _ _ s.names_synced in
            let g = InStep-saved_map _ _ _ s.maxima_synced in
            rw e (record {
              restored = restored_by fl id n x s.restored;
              applies =
                  rw
                    (
                      for_each-append (apply_change fl jn jm id) log (ns ++ xs) (new_processor fl),
                      s.applies,
                    )
                    (changes_applied fl jn jm id n x ns xs s.restored hn hx);
              names_synced =
                  rw (un, e, restored_by-names fl id n x s.restored, same) (unfold store_of in d);
              maxima_synced =
                  rw (ux, e, restored_by-maxima fl id n x s.restored, same) (unfold store_of in g);
            })
      ]

  drained_lost :
      (j id : Bytes) (p : P fl) (log : List CheckpointChange) (n x : Option (List CheckpointChange))
      → each (name_change fl jn jm) (dirty_names fl j p) ≡ n
      → each (max_change fl jn jm) (dirty_max fl j p) ≡ x
      → Synced id (p, log)
      → Synced id (after_lost (checkpointable fl jn jm) (process fl) j log (drained fl j p n x))
  unfolding after_lost
  drained_lost j id p log none x hn hx s = s
  drained_lost j id p log (some ns) none hn hx s = s
  drained_lost j id p log (some ns) (some xs) hn hx s =
      let n = dirty_names fl j p in
      let x = dirty_max fl j p in
      let u = undirty fl j p in
      let un = undirty-names fl j id p in
      let ux = undirty-maxima fl j id p in
      let stores = stores_alike fl id p (marked_by fl j n x u) (marked_by-stores fl j n x u) in
      let kept_names = ap (λ (t : Store fl). t.bank_names) stores in
      let kept_maxima = ap (λ (t : Store fl). t.max_transactions) stores in
      rw (changes_restored fl jn jm j n x ns xs u hn hx) (elim (Bool-cases (j == id)) [
        | inr e ↦
            let others = marked_by-others fl j id n x u e in
            Synced-Kept id p (marked_by fl j n x u) log
              (record {
                names_kept = kept_names;
                maxima_kept = kept_maxima;
                dirty_names_kept = rw (others.0, un, e) refl;
                dirty_max_kept = rw (others.1, ux, e) refl;
              })
              s
        | inl e ↦
            let same : j ≡ id = (bytes_beq_iff j id).0 e in
            let d = InStep-lost _ _ _ s.names_synced in
            let g = InStep-lost _ _ _ s.maxima_synced in
            record {
              restored = s.restored;
              applies = s.applies;
              names_synced = rw (kept_names, marked_by-names fl j id n x u e, un, e, same) d;
              maxima_synced = rw (kept_maxima, marked_by-maxima fl j id n x u e, ux, e, same) g;
            }
      ])

  pub step-Synced :
      (id : Bytes) (o : Op MaxBank) (s : Logged (checkpointable fl jn jm) (process fl))
      → Synced id s
      → Synced id (step (checkpointable fl jn jm) (process fl) id o s)
  unfolding step drain_changes
  step-Synced id (received j m) (p, log) s = process-Synced j id m p log s
  step-Synced id (saved j) (p, log) s = drained_saved j id p log _ _ refl refl s
  step-Synced id (lost j) (p, log) s = drained_lost j id p log _ _ refl refl s

  pub start-Synced : (id : Bytes) → Synced id (new_processor fl, [])
  unfolding apply_all store_of get
  start-Synced id = record {
    restored = new_processor fl;
    applies = refl;
    names_synced = InStep-start;
    maxima_synced = InStep-start;
  }
