-- ===== src/Prelude/Sets.antt =====
-- Finite sets as lists with a test for membership, and sums over them.
use Prim.Native.Nat.{ℕ, ◌+◌, ◌≤◌, ◌<◌}
use mathlib.Core.Path.{◌≡◌, refl}
use mathlib.Core.Logic.{inl, inr}
use mathlib.Core.Bool.{Bool, true, false, ◌||◌}
use mathlib.Core.List.{List, [], ◌∷◌, ◌++◌}
use native.Mathlib.Omega.{arith}
use tp_lavado_dinero.Prelude.Tests.{Eq, ◌==◌, if◌then◌else◌, Bool-cases}
use tp_lavado_dinero.Prelude.Lists.{length, total, All}

module _ {ℓ} {A : Type ℓ} ⦃e : Eq A⦄ where
  abbrev pub contains : List A → A → Bool
  contains [] a = false
  contains (x ∷ xs) a = x == a || contains xs a

  abbrev pub Distinct : List A → Type 0
  Distinct [] = Unit {0}
  Distinct (x ∷ xs) = (contains xs x ≡ false) × Distinct xs

  abbrev pub without : A → List A → List A
  without a [] = []
  without a (x ∷ xs) = if a == x then without a xs else x ∷ without a xs

  pub contains-without :
      (a b : A) (xs : List A)
      → contains (without a xs) b ≡ (if a == b then false else contains xs b)
  contains-without a b [] = ground arith
  contains-without a b (x ∷ xs) =
      ground (arith, contains-without a b xs, e.beq_iff a b, e.beq_iff a x, e.beq_iff x b)

  pub Distinct-without : (a : A) (xs : List A) → Distinct xs → Distinct (without a xs)
  Distinct-without a [] h = tt
  Distinct-without a (x ∷ xs) h = ground (arith, Distinct-without a xs h.1, contains-without a x xs)

  without_absent : (a : A) (xs : List A) → contains xs a ≡ false → without a xs ≡ xs
  without_absent a [] h = refl
  without_absent a (x ∷ xs) h = ground (arith, without_absent a xs, e.beq_iff a x, e.beq_iff x a)

  pub total-without :
      (f : A → ℕ) (a : A) (xs : List A)
      → Distinct xs
      → contains xs a ≡ true
      → total f xs ≡ f a + total f (without a xs)
  total-without f a [] d h = absurd (ground arith)
  total-without f a (x ∷ xs) d h =
      ground (arith, total-without f a xs d.1, without_absent a xs, e.beq_iff a x, e.beq_iff x a)

  pub All-without {κ} : (P : A → Type κ) (a : A) (xs : List A) → All P xs → All P (without a xs)
  All-without P a [] h = tt
  All-without P a (x ∷ xs) h = elim (Bool-cases (a == x)) [
    | inl same ↦ rw same (All-without P a xs h.1)
    | inr other ↦ rw other (h.0, All-without P a xs h.1)
  ]

  abbrev pub Subset : List A → List A → Type ℓ
  Subset xs ys = (a : A) → contains xs a ≡ true → contains ys a ≡ true

  contains_self : (x : A) (xs : List A) → contains (x ∷ xs) x ≡ true
  contains_self x xs = ground (arith, e.beq_iff x x)

  contains_later : (x a : A) (xs : List A) → contains xs a ≡ true → contains (x ∷ xs) a ≡ true
  contains_later x a xs h = ground arith

  -- What is left of `xs` and `ys` without `x`, the head of `xs`.
  Subset-without :
      (x : A) (xs ys : List A)
      → contains xs x ≡ false
      → Subset (x ∷ xs) ys
      → Subset xs (without x ys)
  Subset-without x xs ys n s a h = ground (arith, s a, contains-without x a ys, e.beq_iff x a)

  Subset-tail :
      (x : A) (xs ys : List A)
      → contains xs x ≡ false
      → Subset ys (x ∷ xs)
      → Subset (without x ys) xs
  Subset-tail x xs ys n s a h = ground (arith, s a, contains-without x a ys, e.beq_iff x a)

  nothing_in : (ys : List A) → Subset ys [] → ys ≡ []
  nothing_in [] s = refl
  nothing_in (y ∷ ys) s = absurd (ground (arith, s y, contains_self y ys))

  -- A sum over a set does not depend on the order of its elements.
  pub total-same_set :
      (f : A → ℕ) (xs ys : List A)
      → Distinct xs
      → Distinct ys
      → Subset xs ys
      → Subset ys xs
      → total f xs ≡ total f ys
  total-same_set f [] ys dx dy s t = rw (nothing_in ys t)
  total-same_set f (x ∷ xs) ys dx dy s t = omega (
    arith,
    total-without f x ys dy (s x (contains_self x xs)),
    total-same_set f xs (without x ys) dx.1 (Distinct-without x ys dy)
        (Subset-without x xs ys dx.0 s) (Subset-tail x xs ys dx.0 t),
  )

  -- A subset that weighs as much as the set, where each element weighs something, is the set.
  pub Subset-of_total_le :
      (f : A → ℕ) (xs ys : List A)
      → Distinct xs
      → Distinct ys
      → Subset xs ys
      → All (λ a. 0 < f a) ys
      → total f ys ≤ total f xs
      → Subset ys xs
  Subset-of_total_le f [] [] dx dy s pos le a h = h
  Subset-of_total_le f [] (y ∷ ys) dx dy s pos le a h = absurd (omega (arith, pos.0))
  Subset-of_total_le f (x ∷ xs) ys dx dy s pos le a h =
      let le' : total f (without x ys) ≤ total f xs =
        omega (arith, total-without f x ys dy (s x (contains_self x xs))) in
      let sub =
        Subset-of_total_le f xs (without x ys) dx.1 (Distinct-without x ys dy)
          (Subset-without x xs ys dx.0 s) (All-without _ x ys pos) le' a in
      ground (arith, sub, contains-without x a ys)

  length-without :
      (a : A) (xs : List A)
      → Distinct xs
      → contains xs a ≡ true
      → length xs ≡ length (without a xs) + 1
  length-without a [] d h = absurd (ground arith)
  length-without a (x ∷ xs) d h =
      ground (arith, length-without a xs d.1, without_absent a xs, e.beq_iff a x, e.beq_iff x a)

  -- A subset is no longer than the set.
  pub length-Subset :
      (xs ys : List A) → Distinct xs → Distinct ys → Subset xs ys → length xs ≤ length ys
  length-Subset [] ys dx dy s = omega arith
  length-Subset (x ∷ xs) ys dx dy s = omega (
    arith,
    length-Subset xs (without x ys) dx.1 (Distinct-without x ys dy) (Subset-without x xs ys dx.0 s),
    length-without x ys dy (s x (contains_self x xs)),
  )

  pub contains-append :
      (xs ys : List A) (a : A) → contains (xs ++ ys) a ≡ (contains xs a || contains ys a)
  contains-append [] ys a = refl
  contains-append (x ∷ xs) ys a = ground (arith, contains-append xs ys a)

  -- The sum over a subset is no greater than that over the set.
  pub total-Subset-le :
      (f : A → ℕ) (xs ys : List A)
      → Distinct xs
      → Distinct ys
      → Subset xs ys
      → total f xs ≤ total f ys
  total-Subset-le f [] ys dx dy s = omega arith
  total-Subset-le f (x ∷ xs) ys dx dy s = omega (
    arith,
    total-without f x ys dy (s x (contains_self x xs)),
    total-Subset-le f xs (without x ys) dx.1 (Distinct-without x ys dy)
        (Subset-without x xs ys dx.0 s),
  )

  -- Two lists hold the same elements.
  abbrev pub SameSet : List A → List A → Type ℓ
  SameSet xs ys = Subset xs ys × Subset ys xs

module _ {ℓ} {A : Type ℓ} where
  total_one : (xs : List A) → total (λ x. 1) xs ≡ length xs
  total_one [] = refl
  total_one (x ∷ xs) = omega (arith, total_one xs)

  All-one : (xs : List A) → All (λ (x : A). 0 < 1) xs
  All-one [] = tt
  All-one (x ∷ xs) = (omega arith, All-one xs)

  -- A subset as long as the set is the set.
  pub Subset-of_length_le :
      ⦃e : Eq A⦄ (xs ys : List A)
      → Distinct xs
      → Distinct ys
      → Subset xs ys
      → length ys ≤ length xs
      → Subset ys xs
  Subset-of_length_le xs ys dx dy s le =
      Subset-of_total_le (λ x. 1) xs ys dx dy s (All-one ys)
        (omega (arith, total_one xs, total_one ys))
