-- ===== src/Checkpoint/Samples/Reload.antt =====
-- A join that counts amounts, with the coordinator of its worker, is loaded from a log with one entry.
use tp_lavado_dinero.Prelude.{
  ℕ, ◌%◌, ◌<◌, ◌≡◌, refl, ap, ◌∙◌, subst, sym, inl, inr, true, false, ◌&&◌, Option, none, some,
  List, [], ◌∷◌, arith, Bytes, bytes_eq, bytes_beq, bytes_beq_iff, ◌==◌, Bool-cases, ltb,
  if◌then◌else◌, ok, length, total, contains,
}
use tp_lavado_dinero.GoMap.{get}
use tp_lavado_dinero.Checkpoint.Line.{
  CheckpointChange, LogEntry, Codec, u32_size, i64_size, log_line, parse_log_line, parse_fields,
  parse_rest, cut,
}
use tp_lavado_dinero.Checkpoint.Parsing.{parse_log_line-log_line}
use tp_lavado_dinero.Checkpoint.Defs.{Processor, Coordinator, System, new_manager, is_processed}
use tp_lavado_dinero.Checkpoint.Replay.{load_client_state, with_counts}
use tp_lavado_dinero.Checkpoint.Logged.{logged_batches}
use tp_lavado_dinero.Checkpoint.Reloaded.{
  IsWilling, IsTaken, AreTaken, AreTaken-line, counts_fit, counts_fit-cons,
  load_client_state-processed,
}
use tp_lavado_dinero.Checkpoint.Samples.{client, x}
use tp_lavado_dinero.Coordinator.ClientState.{
  is_ready_to_flush, has_all_eofs, eof_totals, copy_eofs, merge_peer_eofs, sum_eofs,
}
use tp_lavado_dinero.Coordinator.World.{World}
use tp_lavado_dinero.Coordinator.Protocol.{client_of, record_batch}
use tp_lavado_dinero.Coordinator.Protocol.Settled.{record_batch-Settled}
use tp_lavado_dinero.Coordinator.Samples.{config, start}
use tp_lavado_dinero.Processors.Conversions.Defs.{
  ConversionJoin, count_kind, new_join, count_checkpointable, apply_count,
}
use tp_lavado_dinero.Processors.Samples.Amounts.{counts_json}

-- The entries of batch `x` with a count of the client
abbrev change_to : Bytes → CheckpointChange
change_to value = record { kind = count_kind; key = client; value = value }

abbrev entry_to : ℕ → ℕ → Bytes → LogEntry
entry_to s n value = record {
  seq = s;
  batches = x ∷ [];
  changes = change_to value ∷ [];
  processed_counts = n ∷ [];
}

abbrev encode_parts : ℕ → List Bytes → List CheckpointChange → List ℕ → Option Bytes
encode_parts s (b ∷ []) (c ∷ []) (n ∷ []) =
    if ((x == b && count_kind == c.kind) && client == c.key)
      && ltb (length (s ∷ n ∷ c.value)) i64_size
    then some (s ∷ n ∷ c.value)
    else none
encode_parts s _ _ _ = none

abbrev decode_parts : Bytes → Option LogEntry
decode_parts (s ∷ n ∷ value) = some (entry_to s n value)
decode_parts _ = none

encoded :
    (s : ℕ) (bs : List Bytes) (xs : List CheckpointChange) (ns : List ℕ) (text : Bytes)
    → encode_parts s bs xs ns ≡ some text
    → (decode_parts text
        ≡ some (record { seq = s; batches = bs; changes = xs; processed_counts = ns }))
      × (length text < i64_size)
encoded s (b ∷ []) (c ∷ []) (n ∷ []) text h =
    elim (Bool-cases (
      ((x == b && count_kind == c.kind) && client == c.key)
      && ltb (length (s ∷ n ∷ c.value)) i64_size)) [
        | inl fits ↦
            let q : some (s ∷ n ∷ c.value) ≡ some text = rw fits at h in
            let e : s ∷ n ∷ c.value ≡ text = cc in
            let batch : x ≡ b = ground (arith, fits, bytes_beq_iff x b) in
            let kind : count_kind ≡ c.kind =
              ground (arith, fits, bytes_beq_iff count_kind c.kind) in
            let key : client ≡ c.key = ground (arith, fits, bytes_beq_iff client c.key) in
            let whole : change_to c.value ≡ c =
              ap (λ (y : Bytes). record { kind = y; key = client; value = c.value }) kind
              ∙ ap (λ (y : Bytes). record { kind = c.kind; key = y; value = c.value }) key in
            let all : entry_to s n c.value ≡ record {
              seq = s;
              batches = b ∷ [];
              changes = c ∷ [];
              processed_counts = n ∷ [];
            } =
              ap
                (λ (y : Bytes). record {
                  seq = s;
                  batches = y ∷ [];
                  changes = change_to c.value ∷ [];
                  processed_counts = n ∷ [];
                })
                batch
              ∙ ap
                  (λ (y : CheckpointChange). record {
                    seq = s;
                    batches = b ∷ [];
                    changes = y ∷ [];
                    processed_counts = n ∷ [];
                  })
                  whole in
            (
              subst
                  (λ t.
                    decode_parts t
                    ≡ some (record {
                      seq = s;
                      batches = b ∷ [];
                      changes = c ∷ [];
                      processed_counts = n ∷ [];
                    }))
                  e (ap some all),
              subst (λ t. length t < i64_size) e (ground (arith, fits)),
            )
        | inr long ↦ absurd (ground (arith, rw long at h))
      ]
encoded s [] xs ns text h = absurd (ground (arith, h))
encoded s (b ∷ d ∷ bs) xs ns text h = absurd (ground (arith, h))
encoded s (b ∷ []) [] ns text h = absurd (ground (arith, h))
encoded s (b ∷ []) (c ∷ d ∷ xs) ns text h = absurd (ground (arith, h))
encoded s (b ∷ []) (c ∷ []) [] text h = absurd (ground (arith, h))
encoded s (b ∷ []) (c ∷ []) (n ∷ m ∷ ns) text h = absurd (ground (arith, h))

abbrev counting : Codec
counting = record {
  encode = λ e. encode_parts e.seq e.batches e.changes e.processed_counts;
  decode = decode_parts;
  checksum = λ s. total (λ x. x) s % u32_size;
  decode-encode = λ e text h. (encoded e.seq e.batches e.changes e.processed_counts text h).0;
  checksum_fits = λ s. omega arith;
  encode_fits = λ e text h. (encoded e.seq e.batches e.changes e.processed_counts text h).1;
}

abbrev join : Processor ConversionJoin
join = count_checkpointable counts_json

-- The coordinator of the worker, of which the manager asks no EOFs here
abbrev worker : Coordinator World
worker = record { record_batch = record_batch config; reached_eof_amount = λ id w. (false, w) }

-- No call is to fail, and the client is not ready to flush.
abbrev IsCalm : World → Type 0
IsCalm w = (w.outcomes ≡ []) × (is_ready_to_flush (client_of w client) 1 ≡ false)

willing : IsWilling counting join worker client IsCalm
willing = record {
  records = λ b n w h. (record_batch-Settled config client b n 0 w h.0 h.1).returned;
  stays =
      λ b n w h. let s = record_batch-Settled config client b n 0 w h.0 h.1 in (s.outcomes, s.calm);
}

abbrev text : Bytes
text = 0 ∷ 2 ∷ 7 ∷ []

abbrev lines : List Bytes
lines = log_line counting text ∷ (b'4' ∷ b' ' ∷ []) ∷ []

line_read : parse_log_line counting (log_line counting text) ≡ some (entry_to 0 2 (7 ∷ []))
unfolding bytes_beq
line_read = parse_log_line-log_line counting (entry_to 0 2 (7 ∷ [])) text refl

taken : IsTaken counting join worker client (change_to (7 ∷ []))
taken = inr (inr (λ q. unfold apply_count bytes_beq in refl))

lines-AreTaken : AreTaken counting join worker client lines
lines-AreTaken =
    subst (λ A. A)
      (sym (
        AreTaken-line counting join worker client (log_line counting text) (entry_to 0 2 (7 ∷ []))
          ((b'4' ∷ b' ' ∷ []) ∷ []) line_read))
      ((taken, tt), (unfold AreTaken parse_log_line parse_fields parse_rest cut in tt))

lines_fit : counts_fit counting join worker lines ≡ true
lines_fit =
    counts_fit-cons counting join worker (log_line counting text) (entry_to 0 2 (7 ∷ []))
      ((x, 2) ∷ []) ((b'4' ∷ b' ' ∷ []) ∷ []) line_read (unfold with_counts in refl)
      (unfold counts_fit parse_log_line parse_fields parse_rest cut in refl)

abbrev stopped : System ConversionJoin World
stopped = record {
  manager = new_manager 1;
  processor = new_join;
  coordinator = start;
  logs = (client, lines) ∷ [];
  acked = [];
  outcomes = [];
}

start-IsCalm : IsCalm start
start-IsCalm = (
  refl,
  (unfold client_of is_ready_to_flush has_all_eofs eof_totals copy_eofs merge_peer_eofs sum_eofs
        get in
      refl),
)

load_client_state-processed_example :
    ((load_client_state counting join worker client stopped).0 ≡ ok tt)
    × ((b : Bytes)
        → is_processed (load_client_state counting join worker client stopped).1.manager client b
          ≡ contains (logged_batches counting lines) b)
load_client_state-processed_example =
    load_client_state-processed counting join worker client IsCalm willing stopped lines
      (unfold get bytes_beq in refl) refl lines_fit lines-AreTaken start-IsCalm
