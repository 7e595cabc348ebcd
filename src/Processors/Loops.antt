-- ===== src/Processors/Loops.antt =====
-- The loops of the processors: over the changes of a checkpoint, and over the entries of a map.
use tp_lavado_dinero.Prelude.{
  ◌≡◌, refl, ◌∙◌, Option, none, some, List, [], ◌∷◌, ◌++◌, arith, Option-cases, inl, inr, Exec,
  Result, ok, err, ◌>>◌, after, pure,
}
use tp_lavado_dinero.GoMap.{Map}

-- for _, a := range as { if err := f(a); err != nil { return err } }
unfoldable pub for_each {ℓ κ} :
    {S : Type ℓ} {A : Type κ} → (A → Exec S (Unit {0})) → List A → Exec S (Unit {0})
for_each f [] = pure tt
for_each f (x ∷ xs) = do f x; for_each f xs

-- for k, v := range m { a, err := f(k, v); if err != nil { return }; as = append(as, a) }
unfoldable pub each {ℓ κ ι} :
    {K : Type ℓ} {V : Type κ} {A : Type ι} → (K → V → Option A) → Map K V → Option (List A)
each f [] = some []
each f ((k, v) ∷ m) = elim (f k v) [
  | none ↦ none
  | some a ↦ elim (each f m) [ none ↦ none | some rest ↦ some (a ∷ rest) ]
]

module _ {ℓ κ} {S : Type ℓ} {A : Type κ} (f : A → Exec S (Unit {0})) where
  append_after :
      (xs ys : List A) (r : Result (Unit {0}) × S)
      → ((s : S) → for_each f (xs ++ ys) s ≡ (for_each f xs >> for_each f ys) s)
      → after (λ (_ : Unit {0}). for_each f (xs ++ ys)) r
        ≡ after (λ (_ : Unit {0}). for_each f ys) (after (λ (_ : Unit {0}). for_each f xs) r)
  append_after xs ys (ok _, s) h = h s
  append_after xs ys (err e, s) h = refl

  pub for_each-append :
      (xs ys : List A) (s : S) → for_each f (xs ++ ys) s ≡ (for_each f xs >> for_each f ys) s
  unfolding for_each
  for_each-append [] ys s = refl
  for_each-append (x ∷ xs) ys s = append_after xs ys (f x s) (for_each-append xs ys)

module _ {κ} {S K V : Type κ} where
  -- `set` for one entry after the other
  unfoldable pub set_all : (K → V → S → S) → Map K V → S → S
  set_all set [] s = s
  set_all set ((k, v) ∷ m) s = set_all set m (set k v s)

module _ {κ ι} {S K V : Type κ} {B : Type ι} where
  -- What one entry leaves alone, all leave alone.
  pub set_all-kept :
      (view : S → B) (set : K → V → S → S)
      → ((k : K) (v : V) (s : S) → view (set k v s) ≡ view s)
      → (m : Map K V) (s : S) → view (set_all set m s) ≡ view s
  unfolding set_all
  set_all-kept view set h [] s = refl
  set_all-kept view set h ((k, v) ∷ m) s = set_all-kept view set h m (set k v s) ∙ h k v s

module _ {κ} {A K V : Type κ} where
  each-cons :
      (g : K → V → Option A) (k : K) (v : V) (m : Map K V) (items : List A)
      → each g ((k, v) ∷ m) ≡ some items
      → (a : A) × (rest : List A) × (g k v ≡ some a) × (each g m ≡ some rest) × (items ≡ a ∷ rest)
  unfolding each
  each-cons g k v m items h = elim (Option-cases (g k v)) [
    | inl e ↦ absurd (ground (arith, h, e))
    | inr (a, e) ↦ elim (Option-cases (each g m)) [
      | inl e' ↦ absurd (ground (arith, h, e, e'))
      | inr (rest, e') ↦ (a, rest, e, e', ground (arith, h, e, e'))
    ]
  ]

  -- What is written for each entry of a map does, entry by entry, what `set` does.
  pub for_each-each :
      {S : Type κ} (f : A → Exec S (Unit {0})) (g : K → V → Option A) (set : K → V → S → S)
      → ((k : K) (v : V) (a : A) (s : S) → g k v ≡ some a → f a s ≡ (ok tt, set k v s))
      → (m : Map K V) (items : List A) (s : S) → each g m ≡ some items
      → for_each f items s ≡ (ok tt, set_all set m s)
  unfolding for_each each set_all
  for_each-each f g set h [] items s e = let e' : items ≡ [] = ground (arith, e) in rw e' refl
  for_each-each f g set h ((k, v) ∷ m) items s e =
      let (a, rest, one, more, split) = each-cons g k v m items e in
      rw (split, h k v a s one) (for_each-each f g set h m rest (set k v s) more)
