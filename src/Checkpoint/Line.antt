-- ===== src/Checkpoint/Line.antt =====
-- checkpoint_manager.go: a line of the log, its length and its checksum in front of the JSON text.
use tp_lavado_dinero.Prelude.{
  ℕ, zero, suc, ◌+◌, ◌-◌, ◌*◌, ◌/◌, ◌%◌, ◌^◌, ◌<◌, ◌≡◌, ◌&&◌, Option, none, some, List, [], ◌∷◌,
  ◌++◌, Bytes, ltb, leb, nat_beq, if◌then◌else◌, length,
}
use tp_lavado_dinero.Decimal.{format_uint, parse_uint}

-- checkpointable.go: CheckpointChange, with the text of its value
pub record CheckpointChange : Type 0 where
  pub kind : Bytes
  pub key : Bytes
  pub value : Bytes

pub record LogEntry : Type 0 where
  pub seq : ℕ
  pub batches : List Bytes
  pub changes : List CheckpointChange
  pub processed_counts : List ℕ

abbrev pub u32_size : ℕ
u32_size = 2 ^ 32

abbrev pub i64_size : ℕ
i64_size = 2 ^ 63

-- encoding/json on entries, where marshalling may fail, and crc32.ChecksumIEEE, with what the code
-- relies on: an entry that is written is read back, the checksum is a uint32, and a text is shorter
-- than 2 ^ 63 bytes.
pub record Codec : Type 0 where
  pub encode : LogEntry → Option Bytes
  pub decode : Bytes → Option LogEntry
  pub checksum : Bytes → ℕ
  pub decode-encode : (e : LogEntry) (text : Bytes) → encode e ≡ some text → decode text ≡ some e
  pub checksum_fits : (s : Bytes) → checksum s < u32_size
  pub encode_fits : (e : LogEntry) (text : Bytes) → encode e ≡ some text → length text < i64_size

abbrev pub space : ℕ
space = b' '

abbrev pub hex_digit : ℕ → ℕ
hex_digit d = if ltb d 10 then b'0' + d else b'a' + (d - 10)

-- `k` digits; "%08x" of a uint32 is eight of them.
unfoldable pub hex_digits : ℕ → ℕ → Bytes
hex_digits zero n = []
hex_digits (suc k) n = hex_digits k (n / 16) ++ hex_digit (n % 16) ∷ []

abbrev pub hex_value : ℕ → Option ℕ
hex_value c =
    if leb b'0' c && leb c b'9'
    then some (c - b'0')
    else if leb b'a' c && leb c b'f'
    then some (c - b'a' + 10)
    else if leb b'A' c && leb c b'F'
    then some (c - b'A' + 10)
    else none

unfoldable pub scan_hex : Bytes → ℕ → Option ℕ
scan_hex [] n = some n
scan_hex (c ∷ s) n = elim (hex_value c) [
  | none ↦ none
  | some d ↦ let rest = scan_hex s (n * 16 + d) in if leb u32_size (n * 16 + d) then none else rest
]

-- strconv.ParseUint(s, 16, 32)
unfoldable pub parse_hex : Bytes → Option ℕ
unfolding scan_hex
parse_hex [] = none
parse_hex (c ∷ s) = scan_hex (c ∷ s) 0

abbrev pub below : ℕ → Option ℕ → Option ℕ
below limit none = none
below limit (some n) = if ltb n limit then some n else none

-- strconv.Atoi, with a negative number refused
unfoldable pub parse_length : Bytes → Option ℕ
parse_length [] = none
parse_length (c ∷ s) =
    if nat_beq c b'+'
    then below i64_size (parse_uint s)
    else if nat_beq c b'-'
    then below 1 (parse_uint s)
    else below i64_size (parse_uint (c ∷ s))

-- What stands before the first space and behind it: the slices around strings.IndexByte
unfoldable pub cut : Bytes → Option (Bytes × Bytes)
cut [] = none
cut (c ∷ s) =
    if nat_beq c space
    then some ([], s)
    else elim (cut s) [ none ↦ none | some p ↦ some (c ∷ p.0, p.1) ]

module _ (k : Codec) where
  -- the line that `appendLogEntry` makes of a JSON text, before the newline
  unfoldable pub log_line : Bytes → Bytes
  unfolding hex_digits
  log_line text =
      format_uint (length text) ++ space ∷ (hex_digits 8 (k.checksum text) ++ space ∷ text)

  unfoldable pub check_text : Option ℕ → Option ℕ → Bytes → Option LogEntry
  check_text none crc text = none
  check_text (some n) none text = none
  check_text (some n) (some crc) text =
      if nat_beq (length text) n && nat_beq crc (k.checksum text) then k.decode text else none

  unfoldable pub parse_rest : Bytes → Option (Bytes × Bytes) → Option LogEntry
  unfolding check_text parse_length parse_hex
  parse_rest size none = none
  parse_rest size (some ([], text)) = none
  parse_rest size (some (c ∷ crc, text)) = check_text (parse_length size) (parse_hex (c ∷ crc)) text

  unfoldable pub parse_fields : Option (Bytes × Bytes) → Option LogEntry
  unfolding parse_rest cut
  parse_fields none = none
  parse_fields (some ([], rest)) = none
  parse_fields (some (c ∷ size, rest)) = parse_rest (c ∷ size) (cut rest)

  -- `none` is a line that is not taken.
  unfoldable pub parse_log_line : Bytes → Option LogEntry
  unfolding parse_fields cut
  parse_log_line line = parse_fields (cut line)
