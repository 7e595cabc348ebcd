-- ===== src/Coordinator/Storage/RoundTrip.antt =====
-- What is appended to a log is read back behind what stood in it.
use tp_lavado_dinero.Prelude.{
  ℕ, ◌<◌, ◌≡◌, refl, sym, ap, ◌∙◌, inr, Bool, true, List, [], ◌∷◌, ◌++◌, arith, Bytes, bytes_eq,
  nat_eq, All-append, append_assoc,
}
use tp_lavado_dinero.Decimal.{u64_size, format_uint, parse_uint-format_uint}
use tp_lavado_dinero.GoMap.{Map, put}
use tp_lavado_dinero.Coordinator.ClientState.{BatchRecord}
use tp_lavado_dinero.Coordinator.Storage.Format.{
  bar, newline, drop_cr, lines_from, split_from, BatchLog, EofLog, insert, load_batch_lines,
  load_batches, load_eof_lines, load_eofs, load_flushed_lines, load_flushed, batch_fields,
  batch_line, eof_fields, eof_line, flushed_line, flushed_word,
}
use tp_lavado_dinero.Coordinator.Storage.Splitting.{
  Lacks, IsComplete, split_from-bar, split_from-last, drop_cr-Lacks, drop_cr-append,
  drop_cr-format_uint, numeral, new_line,
}

load_batch_lines-append :
    (xs ys : List Bytes) (m : BatchLog)
    → load_batch_lines m (xs ++ ys) ≡ load_batch_lines (load_batch_lines m xs) ys
unfolding load_batch_lines
load_batch_lines-append [] ys m = refl
load_batch_lines-append (x ∷ xs) ys m = load_batch_lines-append xs ys _

load_eof_lines-append :
    (xs ys : List Bytes) (m : EofLog)
    → load_eof_lines m (xs ++ ys) ≡ load_eof_lines (load_eof_lines m xs) ys
unfolding load_eof_lines
load_eof_lines-append [] ys m = refl
load_eof_lines-append (x ∷ xs) ys m = load_eof_lines-append xs ys _

load_flushed_lines-append :
    (xs ys : List Bytes) (m : Map Bytes Bool)
    → load_flushed_lines m (xs ++ ys) ≡ load_flushed_lines (load_flushed_lines m xs) ys
unfolding load_flushed_lines
load_flushed_lines-append [] ys m = refl
load_flushed_lines-append (x ∷ xs) ys m = load_flushed_lines-append xs ys _

-- An ID that can stand in a log: it holds neither separator.
pub record IsPlain (id : Bytes) : Type 0 where
  pub no_bar : Lacks bar id
  pub no_newline : Lacks newline id

split-batch_fields :
    (client_id : Bytes) (r : BatchRecord)
    → IsPlain client_id
    → IsPlain r.batch_id
    → split_from [] (batch_fields client_id r)
      ≡ client_id ∷ r.batch_id ∷ format_uint r.processed ∷ format_uint r.survivors ∷ []
unfolding batch_fields
split-batch_fields client_id r c b = rw (
  split_from-bar [] client_id _ c.no_bar,
  split_from-bar [] r.batch_id _ b.no_bar,
  split_from-bar [] (format_uint r.processed) _ (numeral r.processed).0,
  split_from-last [] (format_uint r.survivors) (numeral r.survivors).0,
)

drop_cr-batch_fields :
    (client_id : Bytes) (r : BatchRecord)
    → drop_cr (batch_fields client_id r) ≡ batch_fields client_id r
unfolding batch_fields
drop_cr-batch_fields client_id r =
    let front : Bytes =
      client_id ++ bar ∷ (r.batch_id ++ bar ∷ (format_uint r.processed ++ bar ∷ [])) in
    let e : front ++ format_uint r.survivors ≡ batch_fields client_id r = simp append_assoc in
    rw e at (drop_cr-format_uint front r.survivors)

batch_fields-no_newline :
    (client_id : Bytes) (r : BatchRecord)
    → IsPlain client_id
    → IsPlain r.batch_id
    → Lacks newline (batch_fields client_id r)
unfolding batch_fields
batch_fields-no_newline client_id r c b = All-append _ client_id _ c.no_newline (
  omega arith,
  All-append _ r.batch_id _ b.no_newline (
    omega arith,
    All-append _ (format_uint r.processed) _ (numeral r.processed).1
        (omega arith, (numeral r.survivors).1),
  ),
)

-- Behind a log that is empty or ends with a newline, `WriteBatch` of a client and a batch whose
-- names have no bar and no newline, with counts below 2 ^ 64, adds exactly its record to what
-- `LoadBatches` returns.
pub load_batches-batch_line :
    (log client_id : Bytes) (r : BatchRecord)
    → IsComplete log
    → IsPlain client_id
    → IsPlain r.batch_id
    → r.processed < u64_size
    → r.survivors < u64_size
    → load_batches (log ++ batch_line client_id r)
      ≡ insert (load_batches log) client_id r.batch_id r
unfolding load_batches batch_line
load_batches-batch_line log client_id r complete c b p s = rw (
  new_line log (batch_fields client_id r) complete (batch_fields-no_newline client_id r c b)
      (drop_cr-batch_fields client_id r),
  load_batch_lines-append (lines_from [] log) (batch_fields client_id r ∷ []) [],
  split-batch_fields client_id r c b,
  parse_uint-format_uint r.processed p,
  parse_uint-format_uint r.survivors s,
)

split-eof_fields :
    (client_id eof_id : Bytes) (n : ℕ)
    → IsPlain client_id
    → IsPlain eof_id
    → split_from [] (eof_fields client_id eof_id n) ≡ client_id ∷ eof_id ∷ format_uint n ∷ []
unfolding eof_fields
split-eof_fields client_id eof_id n c b = rw (
  split_from-bar [] client_id _ c.no_bar,
  split_from-bar [] eof_id _ b.no_bar,
  split_from-last [] (format_uint n) (numeral n).0,
)

drop_cr-eof_fields :
    (client_id eof_id : Bytes) (n : ℕ)
    → drop_cr (eof_fields client_id eof_id n) ≡ eof_fields client_id eof_id n
unfolding eof_fields
drop_cr-eof_fields client_id eof_id n =
    let front : Bytes = client_id ++ bar ∷ (eof_id ++ bar ∷ []) in
    let e : front ++ format_uint n ≡ eof_fields client_id eof_id n = simp append_assoc in
    rw e at (drop_cr-format_uint front n)

eof_fields-no_newline :
    (client_id eof_id : Bytes) (n : ℕ)
    → IsPlain client_id
    → IsPlain eof_id
    → Lacks newline (eof_fields client_id eof_id n)
unfolding eof_fields
eof_fields-no_newline client_id eof_id n c b =
    All-append _ client_id _ c.no_newline
      (omega arith, All-append _ eof_id _ b.no_newline (omega arith, (numeral n).1))

-- Behind a log that is empty or ends with a newline, `WriteEOF` of a client and an EOF whose names
-- have no bar and no newline, with a total below 2 ^ 64, adds exactly its EOF to what `LoadEOFs`
-- returns.
pub load_eofs-eof_line :
    (log client_id eof_id : Bytes) (n : ℕ)
    → IsComplete log
    → IsPlain client_id
    → IsPlain eof_id
    → n < u64_size
    → load_eofs (log ++ eof_line client_id eof_id n) ≡ insert (load_eofs log) client_id eof_id n
unfolding load_eofs eof_line
load_eofs-eof_line log client_id eof_id n complete c b lt = rw (
  new_line log (eof_fields client_id eof_id n) complete
      (eof_fields-no_newline client_id eof_id n c b) (drop_cr-eof_fields client_id eof_id n),
  load_eof_lines-append (lines_from [] log) (eof_fields client_id eof_id n ∷ []) [],
  split-eof_fields client_id eof_id n c b,
  parse_uint-format_uint n lt,
)

abbrev flushed_fields : Bytes → Bytes
flushed_fields client_id = client_id ++ bar ∷ flushed_word

-- Behind a log that is empty or ends with a newline, `WriteFlushed` of a client whose name has no
-- bar and no newline adds exactly its client to what `LoadFlushed` returns.
pub load_flushed-flushed_line :
    (log client_id : Bytes)
    → IsComplete log
    → IsPlain client_id
    → load_flushed (log ++ flushed_line client_id) ≡ put (load_flushed log) client_id true
unfolding load_flushed flushed_line
load_flushed-flushed_line log client_id complete c =
    let e : flushed_line client_id ≡ flushed_fields client_id ++ newline ∷ [] = simp append_assoc in
    let split : split_from [] (flushed_fields client_id) ≡ client_id ∷ flushed_word ∷ [] =
      split_from-bar [] client_id flushed_word c.no_bar
      ∙ ap (◌∷◌ client_id) (split_from-last [] flushed_word (omega arith)) in
    let whole : drop_cr (flushed_fields client_id) ≡ flushed_fields client_id =
      drop_cr-append client_id flushed_word bar
      ∙ ap (◌++◌ client_id) (drop_cr-Lacks (bar ∷ flushed_word) (omega arith)) in
    rw (
      e,
      new_line log (flushed_fields client_id) complete
          (All-append _ client_id _ c.no_newline (omega arith)) whole,
      load_flushed_lines-append (lines_from [] log) (flushed_fields client_id ∷ []) [],
      split,
    )

-- Each write leaves a complete log.
pub batch_line-IsComplete :
    (log client_id : Bytes) (r : BatchRecord) → IsComplete (log ++ batch_line client_id r)
unfolding batch_line
batch_line-IsComplete log client_id r = inr (
  log ++ batch_fields client_id r,
  sym (append_assoc log (batch_fields client_id r) (newline ∷ [])),
)

pub eof_line-IsComplete :
    (log client_id eof_id : Bytes) (n : ℕ) → IsComplete (log ++ eof_line client_id eof_id n)
unfolding eof_line
eof_line-IsComplete log client_id eof_id n = inr (
  log ++ eof_fields client_id eof_id n,
  sym (append_assoc log (eof_fields client_id eof_id n) (newline ∷ [])),
)

pub flushed_line-IsComplete : (log client_id : Bytes) → IsComplete (log ++ flushed_line client_id)
unfolding flushed_line
flushed_line-IsComplete log client_id =
    let e : flushed_line client_id ≡ flushed_fields client_id ++ newline ∷ [] = simp append_assoc in
    inr (
      log ++ flushed_fields client_id,
      ap (◌++◌ log) e ∙ sym (append_assoc log (flushed_fields client_id) (newline ∷ [])),
    )
