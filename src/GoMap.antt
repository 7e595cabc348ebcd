-- ===== src/GoMap.antt =====
-- Go's map as an association list in the order in which `range` visits it. Go leaves that order
-- open; what must not depend on it is proved for every order.
use tp_lavado_dinero.Prelude.{
  ◌≡◌, refl, sym, subst, inl, inr, Bool, true, false, ◌||◌, Option, none, some, List, [], ◌∷◌, ◌++◌,
  arith, Eq, ◌==◌, if◌then◌else◌, Bool-cases, contains, Distinct, All,
}

abbrev pub Map {ℓ κ} : Type ℓ → Type κ → Type (ℓ ⊔ κ)
Map K V = List (K × V)

abbrev pub is_some {ℓ} : {A : Type ℓ} → Option A → Bool
is_some none = false
is_some (some a) = true

abbrev pub or_empty {ℓ κ} : {K : Type ℓ} {V : Type κ} → Option (Map K V) → Map K V
or_empty none = []
or_empty (some m) = m

-- for k := range m { ks = append(ks, k) }
unfoldable pub keys {ℓ κ} : {K : Type ℓ} {V : Type κ} → Map K V → List K
keys [] = []
keys ((k, v) ∷ m) = k ∷ keys m

module _ {ℓ κ} {K : Type ℓ} {V : Type κ} ⦃e : Eq K⦄ where
  -- v, ok := m[k]
  unfoldable pub get : Map K V → K → Option V
  get [] k = none
  get ((j, v) ∷ m) k = if j == k then some v else get m k

  -- m[k] = v
  unfoldable pub put : Map K V → K → V → Map K V
  put [] k v = (k, v) ∷ []
  put ((j, w) ∷ m) k v = if j == k then (j, v) ∷ m else (j, w) ∷ put m k v

  -- delete(m, k)
  unfoldable pub remove : Map K V → K → Map K V
  remove [] k = []
  remove ((j, w) ∷ m) k = if j == k then remove m k else (j, w) ∷ remove m k

  pub get-put :
      (m : Map K V) (k j : K) (v : V) → get (put m k v) j ≡ (if k == j then some v else get m j)
  unfolding get put
  get-put [] k j v = refl
  get-put ((i, w) ∷ m) k j v =
      ground (arith, e.beq_iff k j, e.beq_iff i k, e.beq_iff i j, get-put m k j v)

  pub get-remove : (m : Map K V) (k j : K) → get (remove m k) j ≡ (if k == j then none else get m j)
  unfolding get remove
  get-remove [] k j = ground arith
  get-remove ((i, w) ∷ m) k j =
      ground (arith, e.beq_iff k j, e.beq_iff i k, e.beq_iff i j, get-remove m k j)

  pub is_some-get : (m : Map K V) (k : K) → is_some (get m k) ≡ contains (keys m) k
  unfolding get keys
  is_some-get [] k = refl
  is_some-get ((j, v) ∷ m) k = ground (arith, is_some-get m k)

  pub contains-keys-put :
      (m : Map K V) (k a : K) (v : V)
      → contains (keys (put m k v)) a ≡ (k == a || contains (keys m) a)
  unfolding put keys
  contains-keys-put [] k a v = refl
  contains-keys-put ((j, w) ∷ m) k a v =
      ground (arith, contains-keys-put m k a v, e.beq_iff j k, e.beq_iff k a, e.beq_iff j a)

  pub Distinct-keys-put :
      (m : Map K V) (k : K) (v : V) → Distinct (keys m) → Distinct (keys (put m k v))
  unfolding put keys
  Distinct-keys-put [] k v d = (refl, tt)
  Distinct-keys-put ((j, w) ∷ m) k v d =
      ground (
        arith,
        Distinct-keys-put m k v d.1,
        contains-keys-put m k j v,
        e.beq_iff k j,
        e.beq_iff j k,
      )

  pub All-put {ι} :
      (P : K → V → Type ι) (m : Map K V) (k : K) (v : V)
      → All (λ e. P e.0 e.1) m
      → P k v
      → All (λ e. P e.0 e.1) (put m k v)
  unfolding put
  All-put P [] k v h p = (p, tt)
  All-put P ((j, w) ∷ m) k v h p = elim (Bool-cases (j == k)) [
    | inl same ↦ rw same (subst (λ i. P i v) (sym ((e.beq_iff j k).0 same)) p, h.1)
    | inr other ↦ rw other (h.0, All-put P m k v h.1 p)
  ]

  contains-keys-remove :
      (m : Map K V) (k a : K)
      → contains (keys (remove m k)) a ≡ (if k == a then false else contains (keys m) a)
  unfolding remove keys
  contains-keys-remove [] k a = ground arith
  contains-keys-remove ((j, w) ∷ m) k a =
      ground (arith, contains-keys-remove m k a, e.beq_iff j k, e.beq_iff k a, e.beq_iff j a)

  pub Distinct-keys-remove :
      (m : Map K V) (k : K) → Distinct (keys m) → Distinct (keys (remove m k))
  unfolding remove keys
  Distinct-keys-remove [] k d = d
  Distinct-keys-remove ((j, w) ∷ m) k d =
      ground (arith, Distinct-keys-remove m k d.1, contains-keys-remove m k j, d.0)

  pub All-remove {ι} : (P : K × V → Type ι) (m : Map K V) (k : K) → All P m → All P (remove m k)
  unfolding remove
  All-remove P [] k h = h
  All-remove P ((j, w) ∷ m) k h = elim (Bool-cases (j == k)) [
    | inl same ↦ rw (same, remove) (All-remove P m k h.1)
    | inr other ↦ rw (other, remove) (h.0, All-remove P m k h.1)
  ]

  -- A key that is not there goes to the end.
  pub put_absent : (m : Map K V) (k : K) (v : V) → get m k ≡ none → put m k v ≡ m ++ (k, v) ∷ []
  unfolding put get
  put_absent [] k v h = refl
  put_absent ((j, w) ∷ m) k v h = ground (arith, put_absent m k v)

  pub All-get {ι} :
      (P : K → V → Type ι) (m : Map K V) (k : K) (v : V)
      → All (λ e. P e.0 e.1) m
      → get m k ≡ some v
      → P k v
  unfolding get
  All-get P [] k v h p = absurd (ground (arith, p))
  All-get P ((j, w) ∷ m) k v h p = elim (Bool-cases (j == k)) [
    | inl same ↦
        let found : some w ≡ some v = rw same at p in
        let q : w ≡ v = cc in subst (P k) q (subst (λ i. P i w) ((e.beq_iff j k).0 same) h.0)
    | inr other ↦ All-get P m k v h.1 (rw other at p)
  ]
