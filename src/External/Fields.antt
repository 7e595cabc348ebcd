-- ===== src/External/Fields.antt =====
-- external.go: the records of results, their fields, and lists of results from the gateway to the client.
use tp_lavado_dinero.Prelude.{
  ℕ, suc, ◌<◌, ◌≡◌, ◌≢◌, refl, sym, ap, ◌∙◌, subst, inl, true, false, some, [], ◌∷◌, ◌++◌,
  append-nil, append_assoc, arith, Bytes, nat_beq, nat_beq_iff, ltb, All,
}
use tp_lavado_dinero.Decimal.{
  parse_uint, format_uint, format_uint-cons, parse_uint-format_uint, format_uint-Lacks,
}
use tp_lavado_dinero.Processors.Model.{ℤ, pos, negsuc, format_int}
use tp_lavado_dinero.External.Results.{
  i31_size, to_uint32, signed32, to_int32, atoi, i63_size, split_from,
}

-- A text without a comma
abbrev pub IsField : Bytes → Type 0
IsField = All (λ b. b ≢ b',')

pub split_from-comma :
    (cur s t : Bytes) → IsField s → split_from cur (s ++ b',' ∷ t) ≡ (cur ++ s) ∷ split_from [] t
unfolding split_from
split_from-comma cur [] t h = ap (λ x. x ∷ split_from [] t) (sym (append-nil cur))
split_from-comma cur (c ∷ s) t h =
    let other : nat_beq c b',' ≡ false = ground (arith, nat_beq_iff c b',', h.0) in
    rw (other, split_from)
      (split_from-comma (cur ++ c ∷ []) s t h.1
        ∙ ap (λ x. x ∷ split_from [] t) (append_assoc cur (c ∷ []) s))

pub split_from-last : (cur s : Bytes) → IsField s → split_from cur s ≡ (cur ++ s) ∷ []
unfolding split_from
split_from-last cur [] h = ap (λ x. x ∷ []) (sym (append-nil cur))
split_from-last cur (c ∷ s) h =
    let other : nat_beq c b',' ≡ false = ground (arith, nat_beq_iff c b',', h.0) in
    rw (other, split_from)
      (split_from-last (cur ++ c ∷ []) s h.1 ∙ ap (λ x. x ∷ []) (append_assoc cur (c ∷ []) s))

pub split_two : (a b : Bytes) → IsField a → IsField b → split_from [] (a ++ b',' ∷ b) ≡ a ∷ b ∷ []
split_two a b ha hb = split_from-comma [] a b ha ∙ ap (λ x. a ∷ x) (split_from-last [] b hb)

pub split_three :
    (a b c : Bytes)
    → IsField a
    → IsField b
    → IsField c
    → split_from [] (a ++ b',' ∷ (b ++ b',' ∷ c)) ≡ a ∷ b ∷ c ∷ []
split_three a b c ha hb hc =
    split_from-comma [] a (b ++ b',' ∷ c) ha ∙ ap (λ x. a ∷ x) (split_two b c hb hc)

-- int32
abbrev pub IsInt32 : ℤ → Type 0
IsInt32 (pos n) = n < i31_size
IsInt32 (negsuc n) = n < i31_size

pub format_int-IsField : (z : ℤ) → IsField (format_int z)
unfolding format_int
format_int-IsField (pos n) = format_uint-Lacks b',' n (inl (omega arith))
format_int-IsField (negsuc n) = (omega arith, format_uint-Lacks b',' (suc n) (inl (omega arith)))

pub to_int32-in_range : (z : ℤ) → IsInt32 z → to_int32 z ≡ z
unfolding to_int32 to_uint32 signed32
to_int32-in_range (pos n) h = ground (arith, h)
to_int32-in_range (negsuc n) h = ground (arith, h)

plain_digits :
    (n : ℕ) (c : ℕ) (r : Bytes)
    → format_uint n ≡ c ∷ r
    → parse_uint (c ∷ r) ≡ some n
    → n < i63_size
    → atoi (c ∷ r) ≡ some (pos n)
unfolding atoi
plain_digits n c r e p h =
    let lacks : (b : ℕ) → b < b'0' → c ≢ b =
      λ b low. (subst (All (λ x. x ≢ b)) e (format_uint-Lacks b n (inl low))).0 in
    let minus : nat_beq c b'-' ≡ false =
      ground (arith, nat_beq_iff c b'-', lacks b'-' (omega arith)) in
    let plus : nat_beq c b'+' ≡ false =
      ground (arith, nat_beq_iff c b'+', lacks b'+' (omega arith)) in
    let fits : ltb n i63_size ≡ true = ground (arith, h) in rw (minus, plus, p, fits) refl

pub atoi-format_int : (z : ℤ) → IsInt32 z → atoi (format_int z) ≡ some z
unfolding format_int
atoi-format_int (pos n) h =
    let (c, r, e) = format_uint-cons n in
    ap atoi e
    ∙ plain_digits n c r e (ap parse_uint (sym e) ∙ parse_uint-format_uint n (omega (arith, h)))
        (omega (arith, h))
atoi-format_int (negsuc n) h =
    let fits : ltb n i63_size ≡ true = ground (arith, h) in
    unfold atoi in rw (parse_uint-format_uint (suc n) (omega (arith, h)), fits) refl
