-- ===== src/Processors/MaxBank/Defs.antt =====
-- groupers/maxbank: the reader of a store, the tracker of changes and the processor. A
-- store is reached by one map only, so that a method on it is a write to that map.
use tp_lavado_dinero.Prelude.{
  ℕ, suc, ◌%◌, Option, none, some, List, [], ◌∷◌, ◌++◌, Bytes, bytes_eq, ◌==◌, if◌then◌else◌, Exec,
  Result, ok, err, call_failed, ◌>>◌, pure,
}
use tp_lavado_dinero.Decimal.{u64_size}
use tp_lavado_dinero.GoMap.{Map, get, put, remove, or_empty}
use tp_lavado_dinero.Checkpoint.Line.{CheckpointChange}
use tp_lavado_dinero.Checkpoint.Defs.{Processor}
use tp_lavado_dinero.Processors.Model.{ℤ, int_eq, format_int, Json, Floats}
use tp_lavado_dinero.Processors.Loops.{each, for_each}
use tp_lavado_dinero.Processors.MaxBank.Store.{
  Record, MaxBankStore, Store, new_store, update_bank_name, bank_name_of, set_max_transaction,
  update_max_transaction,
}

abbrev pub bank_name_kind : Bytes
bank_name_kind = b'b' ∷ b'a' ∷ b'n' ∷ b'k' ∷ b'N' ∷ b'a' ∷ b'm' ∷ b'e' ∷ []

abbrev pub max_tx_kind : Bytes
max_tx_kind = b'm' ∷ b'a' ∷ b'x' ∷ b'T' ∷ b'x' ∷ []

-- protobuf.MaxBank, with the payload that is set
pub data Payload : Type 0 where
  no_payload : Payload
  bank_metadata : (bank_name : Bytes) → Payload
  transfer_summary : (account amount : Bytes) → Payload

pub record MaxBank : Type 0 where
  pub from_bank : ℤ
  pub payload : Payload

pub record MaxBankResult : Type 0 where
  pub bank_name : Bytes
  pub account : Bytes
  pub amount : Bytes

pub record BankNameValue : Type 0 where
  pub bank_id : ℤ
  pub bank_name : Bytes

pub record MaxTxValue (F : Type 0) : Type 0 where
  pub bank_id : ℤ
  pub account : Bytes
  pub amount_value : F
  pub amount_string : Bytes

pub record Tracker (F : Type 0) : Type 0 where
  pub dirty_bank_names : Map Bytes (Map ℤ Bytes)
  pub dirty_max_tx : Map Bytes (Map ℤ (Record F))

pub record MaxBankProcessor (F : Type 0) : Type 0 where
  pub max_bank_stores : Map Bytes (MaxBankStore F)
  pub tracker : Tracker F

module _ (fl : Floats) where
  open fl use {F, parse_float}

  abbrev pub P : Type 0
  P = MaxBankProcessor F

  abbrev pub new_processor : P
  new_processor = record {
    max_bank_stores = [];
    tracker = record { dirty_bank_names = []; dirty_max_tx = [] };
  }

  -- The store of a client as it is found, or a new one.
  unfoldable pub store_of : Bytes → P → Store fl
  store_of id p = elim (get p.max_bank_stores id) [ none ↦ new_store fl | some s ↦ s ]

  -- the store of a client, written
  abbrev pub with_store : Bytes → Store fl → P → P
  with_store id s p = record p { max_bank_stores = put p.max_bank_stores id s }

  -- `getStore`: a new store stays in the map.
  unfoldable pub get_store : Bytes → P → P
  unfolding store_of
  get_store id p = with_store id (store_of id p) p

  unfoldable pub mark_bank_name : Bytes → ℤ → Bytes → P → P
  mark_bank_name id bank name p = record p {
    tracker = record p.tracker {
      dirty_bank_names =
          put p.tracker.dirty_bank_names id
            (put (or_empty (get p.tracker.dirty_bank_names id)) bank name);
    };
  }

  unfoldable pub mark_max_transaction : Bytes → ℤ → Record F → P → P
  mark_max_transaction id bank r p = record p {
    tracker = record p.tracker {
      dirty_max_tx =
          put p.tracker.dirty_max_tx id (put (or_empty (get p.tracker.dirty_max_tx id)) bank r);
    };
  }

  -- The two branches of `Process`
  unfoldable pub process_name : Bytes → ℤ → Bytes → P → P
  unfolding update_bank_name store_of mark_bank_name
  process_name id bank name p =
      let (changed, s) = update_bank_name fl bank name (store_of id p) in
      if changed then mark_bank_name id bank name (with_store id s p) else with_store id s p

  unfoldable pub process_transfer : Bytes → ℤ → Record F → P → P
  unfolding update_max_transaction store_of mark_max_transaction
  process_transfer id bank r p =
      let (changed, s) = update_max_transaction fl bank r (store_of id p) in
      if changed then mark_max_transaction id bank r (with_store id s p) else with_store id s p

  unfoldable pub process_amount : Bytes → ℤ → Bytes → Bytes → Option F → Exec P (Unit {0})
  unfolding get_store process_transfer
  process_amount id bank account amount none p = (err call_failed, get_store id p)
  process_amount id bank account amount (some v) p = (
    ok tt,
    process_transfer id bank
        (record { account = account; amount_value = v; amount_string = amount }) p,
  )

  unfoldable pub process_payload : Bytes → ℤ → Payload → Exec P (Unit {0})
  unfolding get_store process_name process_amount
  process_payload id bank no_payload p = (ok tt, get_store id p)
  process_payload id bank (bank_metadata name) p = (ok tt, process_name id bank name p)
  process_payload id bank (transfer_summary account amount) p =
      process_amount id bank account amount (parse_float amount) p

  unfoldable pub process : Bytes → MaxBank → Exec P (Unit {0})
  unfolding process_payload
  process id m = process_payload id m.from_bank m.payload

  -- `Cleanup` and `ClearClientState`
  unfoldable pub cleanup : Bytes → P → P
  cleanup id p = record p {
    tracker = record {
      dirty_bank_names = remove p.tracker.dirty_bank_names id;
      dirty_max_tx = remove p.tracker.dirty_max_tx id;
    };
    max_bank_stores = remove p.max_bank_stores id;
  }

  -- The reader's records, from its bank on; `yield` may change a state and fail.
  unfoldable pub yield_all {κ} :
      {W : Type κ}
      → (MaxBankResult → Exec W (Unit {0}))
      → Store fl
      → Map ℤ (Record F)
      → ℕ
      → Exec W ℕ
  unfolding bank_name_of
  yield_all yield s [] total = pure total
  yield_all yield s ((bank, r) ∷ m) total = do
    yield (record {
      bank_name = bank_name_of fl bank s;
      account = r.account;
      amount = r.amount_string;
    })
    yield_all yield s m (suc total % u64_size)

  -- The client is cleaned up only if all of its results were taken.
  abbrev pub finalized {κ} : {W : Type κ} → Bytes → P → Result ℕ × W → Result ℕ × P × W
  finalized id p (ok n, w) = (ok n, cleanup id p, w)
  finalized id p (err e, w) = (err e, get_store id p, w)

  unfoldable pub finalize {κ} :
      {W : Type κ} → Bytes → (MaxBankResult → Exec W (Unit {0})) → P → W → Result ℕ × P × W
  unfolding yield_all cleanup get_store store_of
  finalize id yield p w =
      let s = store_of id p in finalized id p (yield_all yield s s.max_transactions 0 w)

  unfoldable pub max_value : ℤ → Record F → MaxTxValue F
  max_value bank r = record {
    bank_id = bank;
    account = r.account;
    amount_value = r.amount_value;
    amount_string = r.amount_string;
  }

  abbrev pub dirty_names : Bytes → P → Map ℤ Bytes
  dirty_names id p = or_empty (get p.tracker.dirty_bank_names id)

  abbrev pub dirty_max : Bytes → P → Map ℤ (Record F)
  dirty_max id p = or_empty (get p.tracker.dirty_max_tx id)

  abbrev pub undirty : Bytes → P → P
  undirty id p = record p {
    tracker = record {
      dirty_bank_names = remove p.tracker.dirty_bank_names id;
      dirty_max_tx = remove p.tracker.dirty_max_tx id;
    };
  }

  abbrev pub drained :
      Bytes
      → P
      → Option (List CheckpointChange)
      → Option (List CheckpointChange)
      → Result (List CheckpointChange) × P
  drained id p (some names) (some maxima) = (ok (names ++ maxima), undirty id p)
  drained id p none maxima = (err call_failed, p)
  drained id p (some names) none = (err call_failed, p)

  abbrev pub record_in : MaxTxValue F → Record F
  record_in v = record {
    account = v.account;
    amount_value = v.amount_value;
    amount_string = v.amount_string;
  }

  abbrev pub set_bank_name : Bytes → ℤ → Bytes → P → P
  set_bank_name id bank name p =
      let s = store_of id p in
      with_store id (record s { bank_names = put s.bank_names bank name }) p

  module _ (jn : Json BankNameValue) (jm : Json (MaxTxValue F)) where
    unfoldable pub name_change : ℤ → Bytes → Option CheckpointChange
    name_change bank name = elim (jn.marshal (record { bank_id = bank; bank_name = name })) [
      | none ↦ none
      | some text ↦ some (record { kind = bank_name_kind; key = format_int bank; value = text })
    ]

    unfoldable pub max_change : ℤ → Record F → Option CheckpointChange
    unfolding max_value
    max_change bank r = elim (jm.marshal (max_value bank r)) [
      | none ↦ none
      | some text ↦ some (record { kind = max_tx_kind; key = format_int bank; value = text })
    ]

    unfoldable pub drain_changes : Bytes → Exec P (List CheckpointChange)
    unfolding each name_change max_change
    drain_changes id p =
        drained id p (each name_change (dirty_names id p)) (each max_change (dirty_max id p))

    -- A change of another kind is passed over.
    unfoldable pub restore_change : Bytes → CheckpointChange → Exec P (Unit {0})
    unfolding mark_bank_name mark_max_transaction
    restore_change id change p =
        if bank_name_kind == change.kind
        then elim (jn.unmarshal change.value) [
          | none ↦ (err call_failed, p)
          | some v ↦ (ok tt, mark_bank_name id v.bank_id v.bank_name p)
        ]
        else if max_tx_kind == change.kind
        then elim (jm.unmarshal change.value) [
          | none ↦ (err call_failed, p)
          | some v ↦ (ok tt, mark_max_transaction id v.bank_id (record_in v) p)
        ]
        else (ok tt, p)

    unfoldable pub restore_changes : Bytes → List CheckpointChange → Exec P (Unit {0})
    unfolding restore_change for_each
    restore_changes id = for_each (restore_change id)

    unfoldable pub apply_change : Bytes → CheckpointChange → Exec P (Unit {0})
    unfolding store_of get_store set_max_transaction
    apply_change id change p =
        if bank_name_kind == change.kind
        then elim (jn.unmarshal change.value) [
          | none ↦ (err call_failed, get_store id p)
          | some v ↦ (ok tt, set_bank_name id v.bank_id v.bank_name p)
        ]
        else if max_tx_kind == change.kind
        then elim (jm.unmarshal change.value) [
          | none ↦ (err call_failed, get_store id p)
          | some v ↦ (
            ok tt,
            with_store id (set_max_transaction fl v.bank_id (record_in v) (store_of id p)) p,
          )
        ]
        else (err call_failed, get_store id p)

    -- Checkpointable
    abbrev pub checkpointable : Processor P
    checkpointable = record {
      clear_client_state = λ id p. (ok tt, cleanup id p);
      drain_changes = drain_changes;
      restore_changes = restore_changes;
      apply_change = apply_change;
    }
