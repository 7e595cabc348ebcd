-- ===== src/Checkpoint/Parsing.antt =====
-- checkpoint_manager.go: `parseLogLine` takes every line that `appendLogEntry` writes, and no line
-- that breaks off within the text.
use tp_lavado_dinero.Prelude.{
  ℕ, zero, suc, ◌+◌, ◌*◌, ◌/◌, ◌%◌, ◌<◌, ◌≡◌, ◌≢◌, refl, sym, ap, ◌∙◌, inl, none, some, [], ◌∷◌,
  ◌++◌, append_assoc, arith, Bytes, All, All-append, length, length-append, append-nil,
}
use tp_lavado_dinero.Decimal.{
  format_uint, parse_uint, parse_uint-format_uint, format_uint-Lacks, format_uint-cons,
}
use tp_lavado_dinero.Checkpoint.Line.{
  Codec, LogEntry, u32_size, i64_size, space, hex_digit, hex_digits, hex_value, scan_hex, parse_hex,
  parse_length, below, cut, log_line, check_text, parse_rest, parse_fields, parse_log_line,
}

power : ℕ → ℕ
power zero = 1
power (suc k) = 16 * power k

hex_value-hex_digit : (d : ℕ) → d < 16 → hex_value (hex_digit d) ≡ some d
hex_value-hex_digit d h = ground arith

scan_digit :
    (d n : ℕ) (s : Bytes)
    → d < 16
    → n * 16 + d < u32_size
    → scan_hex (hex_digit d ∷ s) n ≡ scan_hex s (n * 16 + d)
unfolding scan_hex
scan_digit d n s h fits = ground (arith, hex_value-hex_digit d h)

scan_hex-hex_digits :
    (k n : ℕ) (s : Bytes)
    → n < power k
    → n < u32_size
    → scan_hex (hex_digits k n ++ s) 0 ≡ scan_hex s n
unfolding hex_digits power
scan_hex-hex_digits zero n s h fits = ap (scan_hex s) (omega arith)
scan_hex-hex_digits (suc k) n s h fits =
    let less : n / 16 < power k = omega (arith, h) in
    let sum : n / 16 * 16 + n % 16 ≡ n = omega arith in
    ap (λ t. scan_hex t 0) (append_assoc (hex_digits k (n / 16)) (hex_digit (n % 16) ∷ []) s)
    ∙ scan_hex-hex_digits k (n / 16) (hex_digit (n % 16) ∷ s) less (omega arith)
    ∙ scan_digit (n % 16) (n / 16) s (omega arith) (omega (arith, sum, fits))
    ∙ ap (scan_hex s) sum

Lacks-hex_digits : (b k n : ℕ) → b < b'0' → All (λ c. c ≢ b) (hex_digits k n)
unfolding hex_digits
Lacks-hex_digits b zero n h = tt
Lacks-hex_digits b (suc k) n h =
    All-append _ (hex_digits k (n / 16)) _ (Lacks-hex_digits b k (n / 16) h) (ground arith, tt)

hex_digits-cons : (k n : ℕ) → (c : ℕ) × (r : Bytes) × (hex_digits (suc k) n ≡ c ∷ r)
unfolding hex_digits
hex_digits-cons zero n = (hex_digit (n % 16), [], refl)
hex_digits-cons (suc k) n =
    let (c, r, e) = hex_digits-cons k (n / 16) in
    (c, r ++ hex_digit (n % 16) ∷ [], ap (λ t. t ++ hex_digit (n % 16) ∷ []) e)

parse_hex-cons : (s : Bytes) (c : ℕ) (r : Bytes) → s ≡ c ∷ r → parse_hex s ≡ scan_hex s 0
unfolding parse_hex
parse_hex-cons s c r e = rw e refl

parse_hex-hex_digits : (n : ℕ) → n < u32_size → parse_hex (hex_digits 8 n) ≡ some n
unfolding scan_hex power
parse_hex-hex_digits n fits =
    let (c, r, e) = hex_digits-cons 7 n in
    parse_hex-cons (hex_digits 8 n) c r e
    ∙ ap (λ t. scan_hex t 0) (sym (append-nil (hex_digits 8 n)))
    ∙ scan_hex-hex_digits 8 n [] (omega (arith, fits)) fits

cut-space : (s r : Bytes) → All (λ c. c ≢ space) s → cut (s ++ space ∷ r) ≡ some (s, r)
unfolding cut
cut-space [] r h = ground arith
cut-space (c ∷ s) r h = rw (cut-space s r h.1) (ground (arith, h.0))

parse_length-cons :
    (s : Bytes) (c : ℕ) (r : Bytes)
    → s ≡ c ∷ r
    → c ≢ b'+'
    → c ≢ b'-'
    → parse_length s ≡ below i64_size (parse_uint s)
unfolding parse_length
parse_length-cons s c r e plus minus = rw e (ground (arith, plus, minus))

first : (b c : ℕ) (s r : Bytes) → All (λ x. x ≢ b) s → s ≡ c ∷ r → c ≢ b
first b c s r h e = (rw e at h).0

parse_length-format_uint : (n : ℕ) → n < i64_size → parse_length (format_uint n) ≡ some n
parse_length-format_uint n fits =
    let (c, r, e) = format_uint-cons n in
    let plus = first b'+' c _ r (format_uint-Lacks b'+' n (inl (omega arith))) e in
    let minus = first b'-' c _ r (format_uint-Lacks b'-' n (inl (omega arith))) e in
    parse_length-cons (format_uint n) c r e plus minus
    ∙ ap (below i64_size) (parse_uint-format_uint n (omega (arith, fits)))
    ∙ ground (arith, fits)

parse_fields-cons :
    (k : Codec) (s : Bytes) (c : ℕ) (r rest : Bytes)
    → s ≡ c ∷ r
    → parse_fields k (some (s, rest)) ≡ parse_rest k s (cut rest)
unfolding parse_fields
parse_fields-cons k s c r rest e = rw e refl

parse_rest-cons :
    (k : Codec) (size s : Bytes) (c : ℕ) (r text : Bytes)
    → s ≡ c ∷ r
    → parse_rest k size (some (s, text)) ≡ check_text k (parse_length size) (parse_hex s) text
unfolding parse_rest
parse_rest-cons k size s c r text e = rw e refl

module _ (k : Codec) where
  -- the line of `text`, with `kept` in the place of the text itself
  abbrev pub with_text : Bytes → Bytes → Bytes
  with_text text kept =
      format_uint (length text) ++ space ∷ (hex_digits 8 (k.checksum text) ++ space ∷ kept)

  parse-with_text :
      (text kept : Bytes)
      → length text < i64_size
      → parse_log_line k (with_text text kept)
        ≡ check_text k (some (length text)) (some (k.checksum text)) kept
  unfolding parse_log_line
  parse-with_text text kept fits =
      let n : ℕ = length text in
      let m : ℕ = k.checksum text in
      let (c, r, e) = format_uint-cons n in
      let (d, t, f) = hex_digits-cons 7 m in
      ap (parse_fields k) (
        cut-space (format_uint n) (hex_digits 8 m ++ space ∷ kept)
          (format_uint-Lacks space n (inl (omega arith))))
      ∙ parse_fields-cons k (format_uint n) c r (hex_digits 8 m ++ space ∷ kept) e
      ∙ ap (parse_rest k (format_uint n))
          (cut-space (hex_digits 8 m) kept (Lacks-hex_digits space 8 m (omega arith)))
      ∙ parse_rest-cons k (format_uint n) (hex_digits 8 m) d t kept f
      ∙ ap (λ o. check_text k o (parse_hex (hex_digits 8 m)) kept) (parse_length-format_uint n fits)
      ∙ ap (λ o. check_text k (some n) o kept) (parse_hex-hex_digits m (k.checksum_fits text))

  -- Every line that `appendLogEntry` writes for an entry that can be marshalled is read back as that
  -- entry.
  pub parse_log_line-log_line :
      (entry : LogEntry) (text : Bytes)
      → k.encode entry ≡ some text
      → parse_log_line k (log_line k text) ≡ some entry
  unfolding log_line check_text
  parse_log_line-log_line entry text e =
      parse-with_text text text (k.encode_fits entry text e)
      ∙ ground (arith, k.decode-encode entry text e)

  -- A line that breaks off within its text, by a byte or more, is not taken.
  pub torn_line :
      (entry : LogEntry) (text kept : Bytes) (c : ℕ) (lost : Bytes)
      → k.encode entry ≡ some text
      → text ≡ kept ++ c ∷ lost
      → parse_log_line k (with_text text kept) ≡ none
  unfolding check_text
  torn_line entry text kept c lost e split =
      let longer : length text ≡ length kept + suc (length lost) =
        ap length split ∙ length-append kept (c ∷ lost) in
      parse-with_text text kept (k.encode_fits entry text e) ∙ ground (arith, longer)
