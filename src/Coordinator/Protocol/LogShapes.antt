-- ===== src/Coordinator/Protocol/LogShapes.antt =====
-- batchstorage.go: the loaders return maps without double keys, with each record under its own name.
use tp_lavado_dinero.Prelude.{
  ℕ, ◌≡◌, refl, inl, inr, Option, none, some, List, [], ◌∷◌, Bytes, bytes_eq, ◌==◌, Bool-cases,
  Distinct, All,
}
use tp_lavado_dinero.Decimal.{parse_uint}
use tp_lavado_dinero.GoMap.{Map, get, put, keys, or_empty, Distinct-keys-put, All-put}
use tp_lavado_dinero.Coordinator.ClientState.{BatchRecord}
use tp_lavado_dinero.Coordinator.Storage.{
  BatchLog, EofLog, insert, load_batches, load_batch_lines, add_batch_parts, add_batch_fields,
  load_eofs, load_eof_lines, add_eof_parts, add_eof_fields, lines_from, split_from,
}
use tp_lavado_dinero.Coordinator.Protocol.Restored.{IsRecords}

-- What the loaders return
abbrev pub IsBatchLog : BatchLog → Type 0
IsBatchLog log = Distinct (keys log) × All (λ e. IsRecords e.1) log

IsRecords-empty : IsRecords []
IsRecords-empty = record { distinct = unfold keys in tt; named = tt }

IsRecords-logged :
    (log : BatchLog) (id : Bytes) → All (λ e. IsRecords e.1) log → IsRecords (or_empty (get log id))
unfolding get
IsRecords-logged [] id h = IsRecords-empty
IsRecords-logged ((k, m) ∷ log) id h = elim (Bool-cases (k == id)) [
  | inl e ↦ rw e h.0
  | inr e ↦ rw e (IsRecords-logged log id h.1)
]

insert-IsBatchLog :
    (log : BatchLog) (id : Bytes) (r : BatchRecord)
    → IsBatchLog log
    → IsBatchLog (insert log id r.batch_id r)
unfolding insert
insert-IsBatchLog log id r (d, h) =
    let inner : Map Bytes BatchRecord = or_empty (get log id) in
    let v : IsRecords inner = IsRecords-logged log id h in
    (
      Distinct-keys-put log id _ d,
      All-put (λ k m. IsRecords m) log id (put inner r.batch_id r) h
          (record {
            distinct = Distinct-keys-put inner r.batch_id r v.distinct;
            named = All-put (λ k s. s.batch_id ≡ k) inner r.batch_id r v.named refl;
          }),
    )

add_batch_fields-IsBatchLog :
    (log : BatchLog) (id b : Bytes) (p s : Option ℕ)
    → IsBatchLog log
    → IsBatchLog (add_batch_fields log id b p s)
unfolding add_batch_fields
add_batch_fields-IsBatchLog log id b (some p) (some s) h =
    insert-IsBatchLog log id (record { batch_id = b; processed = p; survivors = s }) h
add_batch_fields-IsBatchLog log id b none s h = h
add_batch_fields-IsBatchLog log id b (some p) none h = h

add_batch_parts-IsBatchLog :
    (log : BatchLog) (fields : List Bytes)
    → IsBatchLog log
    → IsBatchLog (add_batch_parts log fields)
unfolding add_batch_parts
add_batch_parts-IsBatchLog log (c ∷ b ∷ p ∷ s ∷ []) h =
    add_batch_fields-IsBatchLog log c b (parse_uint p) (parse_uint s) h
add_batch_parts-IsBatchLog log [] h = h
add_batch_parts-IsBatchLog log (c ∷ []) h = h
add_batch_parts-IsBatchLog log (c ∷ b ∷ []) h = h
add_batch_parts-IsBatchLog log (c ∷ b ∷ p ∷ []) h = h
add_batch_parts-IsBatchLog log (c ∷ b ∷ p ∷ s ∷ t ∷ more) h = h

load_batch_lines-IsBatchLog :
    (ls : List Bytes) (log : BatchLog) → IsBatchLog log → IsBatchLog (load_batch_lines log ls)
unfolding load_batch_lines
load_batch_lines-IsBatchLog [] log h = h
load_batch_lines-IsBatchLog (l ∷ ls) log h =
    load_batch_lines-IsBatchLog ls _ (add_batch_parts-IsBatchLog log (split_from [] l) h)

pub load_batches-IsBatchLog : (file : Bytes) → IsBatchLog (load_batches file)
unfolding load_batches
load_batches-IsBatchLog file =
    load_batch_lines-IsBatchLog (lines_from [] file) [] (unfold keys in (tt, tt))

abbrev pub IsEofLog : EofLog → Type 0
IsEofLog log = Distinct (keys log) × All (λ e. Distinct (keys e.1)) log

Distinct-logged :
    (log : EofLog) (id : Bytes)
    → All (λ e. Distinct (keys e.1)) log
    → Distinct (keys (or_empty (get log id)))
unfolding get keys
Distinct-logged [] id h = tt
Distinct-logged ((k, m) ∷ log) id h = elim (Bool-cases (k == id)) [
  | inl e ↦ rw e h.0
  | inr e ↦ rw e (Distinct-logged log id h.1)
]

add_eof_fields-IsEofLog :
    (log : EofLog) (id e : Bytes) (n : Option ℕ)
    → IsEofLog log
    → IsEofLog (add_eof_fields log id e n)
unfolding add_eof_fields insert
add_eof_fields-IsEofLog log id e none h = h
add_eof_fields-IsEofLog log id e (some n) (d, h) =
    let inner : Map Bytes ℕ = or_empty (get log id) in
    (
      Distinct-keys-put log id _ d,
      All-put (λ k m. Distinct (keys m)) log id (put inner e n) h
          (Distinct-keys-put inner e n (Distinct-logged log id h)),
    )

add_eof_parts-IsEofLog :
    (log : EofLog) (fields : List Bytes) → IsEofLog log → IsEofLog (add_eof_parts log fields)
unfolding add_eof_parts
add_eof_parts-IsEofLog log (c ∷ e ∷ n ∷ []) h = add_eof_fields-IsEofLog log c e (parse_uint n) h
add_eof_parts-IsEofLog log [] h = h
add_eof_parts-IsEofLog log (c ∷ []) h = h
add_eof_parts-IsEofLog log (c ∷ e ∷ []) h = h
add_eof_parts-IsEofLog log (c ∷ e ∷ n ∷ t ∷ more) h = h

load_eof_lines-IsEofLog :
    (ls : List Bytes) (log : EofLog) → IsEofLog log → IsEofLog (load_eof_lines log ls)
unfolding load_eof_lines
load_eof_lines-IsEofLog [] log h = h
load_eof_lines-IsEofLog (l ∷ ls) log h =
    load_eof_lines-IsEofLog ls _ (add_eof_parts-IsEofLog log (split_from [] l) h)

pub load_eofs-IsEofLog : (file : Bytes) → IsEofLog (load_eofs file)
unfolding load_eofs
load_eofs-IsEofLog file = load_eof_lines-IsEofLog (lines_from [] file) [] (unfold keys in (tt, tt))
