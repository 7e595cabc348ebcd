-- ===== src/Coordinator/Storage/Splitting.antt =====
-- batchstorage.go: how a log falls into lines, and a line into fields.
use tp_lavado_dinero.Prelude.{
  ℕ, ◌≡◌, ◌≢◌, refl, ap, ◌∙◌, ◌⊎◌, inl, inr, [], ◌∷◌, ◌++◌, arith, Bytes, bytes_eq, nat_eq, All,
  append-nil, append_assoc,
}
use tp_lavado_dinero.Decimal.{format_uint, format_uint-Lacks, format_uint-cons}
use tp_lavado_dinero.Coordinator.Storage.Format.{bar, newline, drop_cr, lines_from, split_from}

abbrev pub Lacks : ℕ → Bytes → Type 0
Lacks b = All (λ c. c ≢ b)

-- A file that a whole line ends, or an empty one.
abbrev pub IsComplete : Bytes → Type 0
IsComplete log = (log ≡ []) ⊎ ((s : Bytes) × (log ≡ s ++ newline ∷ []))

lines_from-append :
    (cur s rest : Bytes)
    → lines_from cur (s ++ newline ∷ rest)
      ≡ lines_from cur (s ++ newline ∷ []) ++ lines_from [] rest
unfolding lines_from
lines_from-append cur [] rest = ground arith
lines_from-append cur (c ∷ s) rest =
    ground (arith, lines_from-append [] s rest, lines_from-append (cur ++ c ∷ []) s rest)

lines-append :
    (log rest : Bytes)
    → IsComplete log
    → lines_from [] (log ++ rest) ≡ lines_from [] log ++ lines_from [] rest
lines-append log rest (inl e) = rw e (unfold lines_from in refl)
lines-append log rest (inr (s, e)) =
    rw (e, append_assoc s (newline ∷ []) rest) (lines_from-append [] s rest)

lines_from-line :
    (cur l rest : Bytes)
    → Lacks newline l
    → lines_from cur (l ++ newline ∷ rest) ≡ drop_cr (cur ++ l) ∷ lines_from [] rest
unfolding lines_from
lines_from-line cur [] rest h = ground (arith, append-nil cur)
lines_from-line cur (c ∷ l) rest h =
    ground (arith, h.0, lines_from-line (cur ++ c ∷ []) l rest h.1, append_assoc cur (c ∷ []) l)

pub split_from-bar :
    (cur f rest : Bytes)
    → Lacks bar f
    → split_from cur (f ++ bar ∷ rest) ≡ (cur ++ f) ∷ split_from [] rest
unfolding split_from
split_from-bar cur [] rest h = ground (arith, append-nil cur)
split_from-bar cur (c ∷ f) rest h =
    ground (arith, h.0, split_from-bar (cur ++ c ∷ []) f rest h.1, append_assoc cur (c ∷ []) f)

pub split_from-last : (cur f : Bytes) → Lacks bar f → split_from cur f ≡ (cur ++ f) ∷ []
unfolding split_from
split_from-last cur [] h = ground (arith, append-nil cur)
split_from-last cur (c ∷ f) h =
    ground (arith, h.0, split_from-last (cur ++ c ∷ []) f h.1, append_assoc cur (c ∷ []) f)

pub drop_cr-Lacks : (s : Bytes) → Lacks 13 s → drop_cr s ≡ s
unfolding drop_cr
drop_cr-Lacks [] h = refl
drop_cr-Lacks (c ∷ []) h = ground (arith, h.0)
drop_cr-Lacks (c ∷ d ∷ s) h = ap (◌∷◌ c) (drop_cr-Lacks (d ∷ s) h.1)

pub drop_cr-append : (s t : Bytes) (c : ℕ) → drop_cr (s ++ c ∷ t) ≡ s ++ drop_cr (c ∷ t)
unfolding drop_cr
drop_cr-append [] t c = refl
drop_cr-append (a ∷ []) t c = refl
drop_cr-append (a ∷ b ∷ s) t c = ap (◌∷◌ a) (drop_cr-append (b ∷ s) t c)

-- A line that a number ends keeps its end.
pub drop_cr-format_uint : (s : Bytes) (n : ℕ) → drop_cr (s ++ format_uint n) ≡ s ++ format_uint n
drop_cr-format_uint s n =
    let (c, r, e) = format_uint-cons n in
    rw (e, drop_cr-append s r c)
      (ap (◌++◌ s) (drop_cr-Lacks (c ∷ r) (rw e at (format_uint-Lacks 13 n (inl (omega arith))))))

-- A number holds no separator.
pub numeral : (n : ℕ) → Lacks bar (format_uint n) × Lacks newline (format_uint n)
numeral n =
    (format_uint-Lacks bar n (inr (omega arith)), format_uint-Lacks newline n (inl (omega arith)))

-- The one new line of a log.
pub new_line :
    (log l : Bytes)
    → IsComplete log
    → Lacks newline l
    → drop_cr l ≡ l
    → lines_from [] (log ++ (l ++ newline ∷ [])) ≡ lines_from [] log ++ l ∷ []
new_line log l complete h e =
    lines-append log (l ++ newline ∷ []) complete
    ∙ ap (◌++◌ (lines_from [] log))
        (lines_from-line [] l [] h ∙ (unfold lines_from in ap (λ x. x ∷ []) e))
