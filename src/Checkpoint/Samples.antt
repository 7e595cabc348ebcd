-- ===== src/Checkpoint/Samples.antt =====
-- A worker without changes, whose entries hold one batch each.
use tp_lavado_dinero.Prelude.{
  ℕ, suc, ◌+◌, ◌%◌, ◌≤◌, ◌<◌, ◌≡◌, refl, subst, inl, inr, true, false, Option, none, some, List, [],
  ◌∷◌, arith, Bytes, bytes_eq, bytes_beq, Bool-cases, ltb, if◌then◌else◌, ok, length, total,
  contains,
}
use tp_lavado_dinero.GoMap.{get}
use tp_lavado_dinero.Checkpoint.Line.{
  CheckpointChange, LogEntry, Codec, u32_size, i64_size, log_line, parse_log_line, parse_fields,
  parse_rest, cut,
}
use tp_lavado_dinero.Checkpoint.Parsing.{with_text, parse_log_line-log_line, torn_line}
use tp_lavado_dinero.Checkpoint.Defs.{
  Delivery, Processor, Coordinator, System, new_manager, is_processed, begin_batch, abort_batch,
}
use tp_lavado_dinero.Checkpoint.Replay.{load_client_state, with_counts}
use tp_lavado_dinero.Checkpoint.Steps.{
  Op, begun, committed, eof_arrived, bit, handed_over, clears_in,
}
use tp_lavado_dinero.Checkpoint.Once.{run-handed_over}
use tp_lavado_dinero.Checkpoint.Logged.{Durable, logged_batches}
use tp_lavado_dinero.Checkpoint.Aborted.{begin_batch-abort_batch}
mod Reload

abbrev encode_parts : ℕ → List Bytes → List CheckpointChange → List ℕ → Option Bytes
encode_parts s (b ∷ []) [] (n ∷ []) =
    if ltb (length (s ∷ n ∷ b)) i64_size then some (s ∷ n ∷ b) else none
encode_parts s _ _ _ = none

abbrev decode_parts : Bytes → Option LogEntry
decode_parts (s ∷ n ∷ b) =
    some (record { seq = s; batches = b ∷ []; changes = []; processed_counts = n ∷ [] })
decode_parts _ = none

pub encoded :
    (s : ℕ) (bs : List Bytes) (xs : List CheckpointChange) (ns : List ℕ) (text : Bytes)
    → encode_parts s bs xs ns ≡ some text
    → (decode_parts text
        ≡ some (record { seq = s; batches = bs; changes = xs; processed_counts = ns }))
      × (length text < i64_size)
encoded s (b ∷ []) [] (n ∷ []) text h = elim (Bool-cases (ltb (length (s ∷ n ∷ b)) i64_size)) [
  | inl fits ↦
      let q : some (s ∷ n ∷ b) ≡ some text = rw fits at h in
      let e : s ∷ n ∷ b ≡ text = cc in
      (
        subst
            (λ t.
              decode_parts t
              ≡ some
                  (record { seq = s; batches = b ∷ []; changes = []; processed_counts = n ∷ [] }))
            e refl,
        subst (λ t. length t < i64_size) e (ground (arith, fits)),
      )
  | inr long ↦ absurd (ground (arith, rw long at h))
]
encoded s [] xs ns text h = absurd (ground (arith, h))
encoded s (b ∷ c ∷ bs) xs ns text h = absurd (ground (arith, h))
encoded s (b ∷ []) (x ∷ xs) ns text h = absurd (ground (arith, h))
encoded s (b ∷ []) [] [] text h = absurd (ground (arith, h))
encoded s (b ∷ []) [] (n ∷ m ∷ ns) text h = absurd (ground (arith, h))

abbrev pub codec : Codec
codec = record {
  encode = λ e. encode_parts e.seq e.batches e.changes e.processed_counts;
  decode = decode_parts;
  checksum = λ s. total (λ x. x) s % u32_size;
  decode-encode = λ e text h. (encoded e.seq e.batches e.changes e.processed_counts text h).0;
  checksum_fits = λ s. omega arith;
  encode_fits = λ e text h. (encoded e.seq e.batches e.changes e.processed_counts text h).1;
}

-- A processor that keeps nothing, and a coordinator that counts the batches recorded
abbrev pub processor : Processor (Unit {0})
processor = record {
  clear_client_state = λ id q. (ok tt, q);
  drain_changes = λ id q. (ok [], q);
  restore_changes = λ id xs q. (ok tt, q);
  apply_change = λ id x q. (ok tt, q);
}

abbrev pub coordinator : Coordinator ℕ
coordinator = record {
  record_batch = λ id b n m d. (ok tt, suc d);
  reached_eof_amount = λ id d. (false, d);
}

abbrev pub client : Bytes
client = b'c' ∷ []

abbrev pub x : Bytes
x = b'x' ∷ []

abbrev pub first : Delivery
first = record { client_id = client; batch_id = x; tag = 0 }

abbrev pub second : Delivery
second = record { client_id = client; batch_id = x; tag = 1 }

abbrev pub start : System (Unit {0}) ℕ
start = record {
  manager = new_manager 1;
  processor = tt;
  coordinator = 0;
  logs = [];
  acked = [];
  outcomes = [];
}

abbrev deliveries : List Op
deliveries = begun first ∷ begun second ∷ committed client x 2 ∷ eof_arrived client ∷ []

pub start-Durable : Durable codec client start.manager start.logs start.acked
unfolding new_manager get is_processed
start-Durable = record {
  aligned = refl;
  owned = λ j. tt;
  readable = tt;
  processed = λ b. refl;
  acks = tt;
}

run-handed_over_example :
    handed_over codec processor coordinator client x deliveries start
      + bit (is_processed start.manager client x)
    ≤ suc (clears_in client deliveries)
run-handed_over_example = run-handed_over codec processor coordinator client x deliveries start

begin_batch-abort_batch_example :
    let s' =
      abort_batch codec processor coordinator client
        (begin_batch codec processor coordinator first start).1 in
    ((begin_batch codec processor coordinator second s').0 ≡ false)
    × ((begin_batch codec processor coordinator second s').1.acked ≡ second ∷ [])
begin_batch-abort_batch_example =
    begin_batch-abort_batch codec processor coordinator first 1 start
      (unfold new_manager get is_processed in refl)

abbrev entry : LogEntry
entry = record { seq = 0; batches = x ∷ []; changes = []; processed_counts = 2 ∷ [] }

abbrev entry_text : Bytes
entry_text = 0 ∷ 2 ∷ x

parse_log_line-log_line_example : parse_log_line codec (log_line codec entry_text) ≡ some entry
parse_log_line-log_line_example = parse_log_line-log_line codec entry entry_text refl

torn_line_example : parse_log_line codec (with_text codec entry_text (0 ∷ [])) ≡ none
torn_line_example = torn_line codec entry entry_text (0 ∷ []) 2 x refl refl
