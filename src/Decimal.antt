-- ===== src/Decimal.antt =====
-- Go's decimal numerals as the program uses them: `%d` of fmt on unsigned numbers and
-- `strconv.ParseUint(s, 10, 64)`.
use tp_lavado_dinero.Prelude.{
  ℕ, zero, suc, ◌+◌, ◌-◌, ◌*◌, ◌/◌, ◌%◌, ◌^◌, ◌≤◌, ◌<◌, ◌≡◌, refl, true, false, ◌||◌, Option, none,
  some, [], ◌∷◌, arith, Bytes, ltb, leb, if◌then◌else◌, dec_lt, ◌⊎◌, ◌≢◌, ap, ◌∙◌, All,
}

abbrev pub u64_size : ℕ
u64_size = 2 ^ 64

-- One round for each digit: fuel above the number is enough.
digits : ℕ → ℕ → Bytes → Bytes
digits zero n out = out
digits (suc f) n out = elim (ltb n 10) [
  | true ↦ (b'0' + n) ∷ out
  | false ↦ digits f (n / 10) ((b'0' + n % 10) ∷ out)
]

unfoldable pub format_uint : ℕ → Bytes
unfolding digits
format_uint n = digits (suc n) n []

scan : Bytes → ℕ → Option ℕ
scan [] n = some n
scan (c ∷ s) n =
    if ltb c b'0' || ltb b'9' c
    then none
    else if leb u64_size (n * 10 + (c - b'0'))
    then none
    else scan s (n * 10 + (c - b'0'))

unfoldable pub parse_uint : Bytes → Option ℕ
unfolding scan
parse_uint [] = none
parse_uint (c ∷ s) = scan (c ∷ s) 0

scan_digit :
    (d n : ℕ) (s : Bytes)
    → d < 10
    → n * 10 + d < u64_size
    → scan ((b'0' + d) ∷ s) n ≡ scan s (n * 10 + d)
unfolding scan
scan_digit d n s h fits = ground arith

scan_unit : (n : ℕ) (s : Bytes) → n < 10 → scan ((b'0' + n) ∷ s) 0 ≡ scan s n
unfolding scan
scan_unit n s h = ground arith

digits_small : (f n : ℕ) (out : Bytes) → n < 10 → digits (suc f) n out ≡ (b'0' + n) ∷ out
unfolding digits
digits_small f n out h = ground arith

digits_large :
    (f n : ℕ) (out : Bytes)
    → 10 ≤ n
    → digits (suc f) n out ≡ digits f (n / 10) ((b'0' + n % 10) ∷ out)
unfolding digits
digits_large f n out h = ground arith

-- Reading the digits of `n` comes to the number `n`, before whatever follows.
scan-digits : (f n : ℕ) (out : Bytes) → n < f → n < u64_size → scan (digits f n out) 0 ≡ scan out n
scan-digits zero n out h fits = absurd (omega arith)
scan-digits (suc f) n out h fits = elim (dec_lt n 10) [
  | yes small ↦ rw (digits_small f n out small) (scan_unit n out small)
  | no large ↦ rw (digits_large f n out (omega arith)) (
      scan-digits f (n / 10) ((b'0' + n % 10) ∷ out) (omega arith) (omega arith)
      ∙ scan_digit (n % 10) (n / 10) out (omega arith) (omega arith)
      ∙ ap (scan out) (omega arith))
]

-- The digits end in what stood in `out`, and before it there is at least one.
digits-cons : (f n d : ℕ) (out : Bytes) → (c : ℕ) × (r : Bytes) × (digits f n (d ∷ out) ≡ c ∷ r)
unfolding digits
digits-cons zero n d out = (d, out, refl)
digits-cons (suc f) n d out = elim (dec_lt n 10) [
  | yes small ↦ (b'0' + n, d ∷ out, digits_small f n (d ∷ out) small)
  | no large ↦
      let (c, r, e) = digits-cons f (n / 10) (b'0' + n % 10) (d ∷ out) in
      (c, r, digits_large f n (d ∷ out) (omega arith) ∙ e)
]

parse_uint-cons : (s : Bytes) (c : ℕ) (r : Bytes) → s ≡ c ∷ r → parse_uint s ≡ scan s 0
unfolding parse_uint
parse_uint-cons s c r e = rw e

pub format_uint-cons : (n : ℕ) → (c : ℕ) × (r : Bytes) × (format_uint n ≡ c ∷ r)
unfolding format_uint
format_uint-cons n = elim (dec_lt n 10) [
  | yes small ↦ (b'0' + n, [], digits_small n n [] small)
  | no large ↦
      let (c, r, e) = digits-cons n (n / 10) (b'0' + n % 10) [] in
      (c, r, digits_large n n [] (omega arith) ∙ e)
]

-- Every uint64 that is printed is read back.
pub parse_uint-format_uint : (n : ℕ) → n < u64_size → parse_uint (format_uint n) ≡ some n
parse_uint-format_uint n fits =
    let (c, r, e) = format_uint-cons n in
    parse_uint-cons (format_uint n) c r e
    ∙ (unfold format_uint scan in scan-digits (suc n) n [] (omega arith) fits)

-- No digit is another byte.
digits-Lacks :
    (b f n : ℕ) (out : Bytes)
    → (b < b'0') ⊎ (b'9' < b)
    → All (λ c. c ≢ b) out
    → All (λ c. c ≢ b) (digits f n out)
digits-Lacks b zero n out h rest = unfold digits in rest
digits-Lacks b (suc f) n out h rest = elim (dec_lt n 10) [
  | yes small ↦ rw (digits_small f n out small) (omega arith, rest)
  | no large ↦
      rw (digits_large f n out (omega arith))
        (digits-Lacks b f (n / 10) ((b'0' + n % 10) ∷ out) h (omega arith, rest))
]

pub format_uint-Lacks : (b n : ℕ) → (b < b'0') ⊎ (b'9' < b) → All (λ c. c ≢ b) (format_uint n)
unfolding format_uint
format_uint-Lacks b n h = digits-Lacks b (suc n) n [] h tt

format_two : format_uint 1205 ≡ b'1' ∷ b'2' ∷ b'0' ∷ b'5' ∷ []
unfolding format_uint
format_two = refl

scan-bounds : (s : Bytes) (n p : ℕ) → n < u64_size → scan s n ≡ some p → p < u64_size
unfolding scan
scan-bounds [] n p h e = ground (arith, e, h)
scan-bounds (c ∷ s) n p h e = ground (arith, scan-bounds s (n * 10 + (c - b'0')) p, e)

-- What is read is a uint64.
pub parse_uint-bounds : (s : Bytes) (p : ℕ) → parse_uint s ≡ some p → p < u64_size
unfolding parse_uint
parse_uint-bounds [] p e = absurd (ground (arith, e))
parse_uint-bounds (c ∷ s) p e = scan-bounds (c ∷ s) 0 p (omega arith) e
