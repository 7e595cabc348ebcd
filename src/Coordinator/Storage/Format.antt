-- ===== src/Coordinator/Storage/Format.antt =====
-- batchstorage.go: the lines of the logs and how they are read. A log is the bytes of its file. A
-- line as long as the scanner's buffer (64 KiB), at which reading stops, is not modelled.
use tp_lavado_dinero.Prelude.{
  ℕ, Bool, true, false, Option, none, some, List, [], ◌∷◌, ◌++◌, Bytes, bytes_eq, nat_eq, nat_beq,
  if◌then◌else◌,
}
use tp_lavado_dinero.Decimal.{format_uint, parse_uint}
use tp_lavado_dinero.GoMap.{Map, get, put, or_empty}
use tp_lavado_dinero.Coordinator.ClientState.{BatchRecord}

abbrev pub bar : ℕ
bar = b'|'

abbrev pub newline : ℕ
newline = b'\n'

abbrev carriage_return : ℕ
carriage_return = 13

-- bufio.ScanLines drops one carriage return at the end of a line.
unfoldable pub drop_cr : Bytes → Bytes
drop_cr [] = []
drop_cr (c ∷ []) = if nat_beq c carriage_return then [] else c ∷ []
drop_cr (c ∷ d ∷ s) = c ∷ drop_cr (d ∷ s)

-- The lines of a text, behind the part `cur` of a line; a last line may lack its newline.
unfoldable pub lines_from : Bytes → Bytes → List Bytes
unfolding drop_cr
lines_from [] [] = []
lines_from (b ∷ cur) [] = drop_cr (b ∷ cur) ∷ []
lines_from cur (c ∷ s) = elim (nat_beq c newline) [
  | true ↦ drop_cr cur ∷ lines_from [] s
  | false ↦ lines_from (cur ++ c ∷ []) s
]

-- strings.Split(text, "|"), behind the part `cur` of a field
unfoldable pub split_from : Bytes → Bytes → List Bytes
split_from cur [] = cur ∷ []
split_from cur (c ∷ s) = elim (nat_beq c bar) [
  | true ↦ cur ∷ split_from [] s
  | false ↦ split_from (cur ++ c ∷ []) s
]

abbrev pub BatchLog : Type 0
BatchLog = Map Bytes (Map Bytes BatchRecord)

abbrev pub EofLog : Type 0
EofLog = Map Bytes (Map Bytes ℕ)

-- result[clientID][id] = v, with the inner map made where it is missing
unfoldable pub insert {ℓ} :
    {V : Type ℓ} → Map Bytes (Map Bytes V) → Bytes → Bytes → V → Map Bytes (Map Bytes V)
insert m client_id id v = put m client_id (put (or_empty (get m client_id)) id v)

unfoldable pub add_batch_fields : BatchLog → Bytes → Bytes → Option ℕ → Option ℕ → BatchLog
unfolding insert
add_batch_fields m client_id batch_id (some processed) (some survivors) =
    insert m client_id batch_id
      (record { batch_id = batch_id; processed = processed; survivors = survivors })
add_batch_fields m client_id batch_id _ _ = m

-- One round of `LoadBatches`: a line without four fields, or with a bad number, is passed over.
unfoldable pub add_batch_parts : BatchLog → List Bytes → BatchLog
unfolding add_batch_fields
add_batch_parts m (client_id ∷ batch_id ∷ processed ∷ survivors ∷ []) =
    add_batch_fields m client_id batch_id (parse_uint processed) (parse_uint survivors)
add_batch_parts m _ = m

unfoldable pub load_batch_lines : BatchLog → List Bytes → BatchLog
unfolding add_batch_parts split_from
load_batch_lines m [] = m
load_batch_lines m (l ∷ ls) = load_batch_lines (add_batch_parts m (split_from [] l)) ls

unfoldable pub load_batches : Bytes → BatchLog
unfolding load_batch_lines lines_from
load_batches log = load_batch_lines [] (lines_from [] log)

unfoldable pub add_eof_fields : EofLog → Bytes → Bytes → Option ℕ → EofLog
unfolding insert
add_eof_fields m client_id eof_id none = m
add_eof_fields m client_id eof_id (some n) = insert m client_id eof_id n

unfoldable pub add_eof_parts : EofLog → List Bytes → EofLog
unfolding add_eof_fields
add_eof_parts m (client_id ∷ eof_id ∷ expected_total ∷ []) =
    add_eof_fields m client_id eof_id (parse_uint expected_total)
add_eof_parts m _ = m

unfoldable pub load_eof_lines : EofLog → List Bytes → EofLog
unfolding add_eof_parts split_from
load_eof_lines m [] = m
load_eof_lines m (l ∷ ls) = load_eof_lines (add_eof_parts m (split_from [] l)) ls

unfoldable pub load_eofs : Bytes → EofLog
unfolding load_eof_lines lines_from
load_eofs log = load_eof_lines [] (lines_from [] log)

unfoldable pub add_flushed_parts : Map Bytes Bool → List Bytes → Map Bytes Bool
add_flushed_parts m (client_id ∷ word ∷ []) = put m client_id true
add_flushed_parts m _ = m

unfoldable pub load_flushed_lines : Map Bytes Bool → List Bytes → Map Bytes Bool
unfolding add_flushed_parts split_from
load_flushed_lines m [] = m
load_flushed_lines m (l ∷ ls) = load_flushed_lines (add_flushed_parts m (split_from [] l)) ls

unfoldable pub load_flushed : Bytes → Map Bytes Bool
unfolding load_flushed_lines lines_from
load_flushed log = load_flushed_lines [] (lines_from [] log)

-- "%s|%s|%d|%d\n"
unfoldable pub batch_fields : Bytes → BatchRecord → Bytes
batch_fields client_id r =
    client_id
    ++ bar ∷ (r.batch_id ++ bar ∷ (format_uint r.processed ++ bar ∷ format_uint r.survivors))

unfoldable pub batch_line : Bytes → BatchRecord → Bytes
unfolding batch_fields
batch_line client_id r = batch_fields client_id r ++ newline ∷ []

-- "%s|%s|%d\n"
unfoldable pub eof_fields : Bytes → Bytes → ℕ → Bytes
eof_fields client_id eof_id expected_total =
    client_id ++ bar ∷ (eof_id ++ bar ∷ format_uint expected_total)

unfoldable pub eof_line : Bytes → Bytes → ℕ → Bytes
unfolding eof_fields
eof_line client_id eof_id expected_total =
    eof_fields client_id eof_id expected_total ++ newline ∷ []

abbrev pub flushed_word : Bytes
flushed_word = b'f' ∷ b'l' ∷ b'u' ∷ b's' ∷ b'h' ∷ b'e' ∷ b'd' ∷ []

-- "%s|flushed\n"
unfoldable pub flushed_line : Bytes → Bytes
flushed_line client_id = client_id ++ bar ∷ (flushed_word ++ newline ∷ [])
