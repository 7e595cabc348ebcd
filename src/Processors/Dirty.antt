-- ===== src/Processors/Dirty.antt =====
-- The trackers' way to log a map: the entries that have changed since the last checkpoint are kept in
-- a second map, a checkpoint takes it away and writes its entries, and a restart puts them back.
use tp_lavado_dinero.Prelude.{
  ◌≡◌, refl, ap, ◌∙◌, false, Option, none, some, [], ◌∷◌, arith, Eq, ◌==◌, Distinct, contains,
  if◌then◌else◌, Option-cases, inl, inr,
}
use tp_lavado_dinero.Processors.Loops.{set_all}
use tp_lavado_dinero.GoMap.{Map, get, put, keys, get-put, is_some-get, Distinct-keys-put}

abbrev pub over {κ} : {V : Type κ} → Option V → Option V → Option V
over none o = o
over (some v) o = some v

module _ {ℓ κ} {K : Type ℓ} {V : Type κ} ⦃e : Eq K⦄ where
  -- the entries of `es` written into `m`
  pub put_all : Map K V → Map K V → Map K V
  put_all [] m = m
  put_all ((k, v) ∷ es) m = put_all es (put m k v)

  absent : (m : Map K V) (k : K) → contains (keys m) k ≡ false → get m k ≡ none
  absent m k h = ground (arith, is_some-get m k, h)

  pub get-put_all :
      (es m : Map K V) (k : K)
      → Distinct (keys es)
      → get (put_all es m) k ≡ over (get es k) (get m k)
  unfolding put_all get keys
  get-put_all [] m k d = refl
  get-put_all ((j, v) ∷ es) m k d =
      ground
        (arith, get-put_all es (put m j v) k d.1, get-put m j k v, absent es j d.0, e.beq_iff j k)

  pub Distinct-put_all : (es m : Map K V) → Distinct (keys m) → Distinct (keys (put_all es m))
  unfolding put_all
  Distinct-put_all [] m d = d
  Distinct-put_all ((j, v) ∷ es) m d = Distinct-put_all es (put m j v) (Distinct-keys-put m j v d)

  -- What is stored under each key, what has changed in it, and what a restart gives back.
  pub record InStep (store : K → Option V) (dirty : Map K V) (saved : K → Option V)
      : Type (ℓ ⊔ κ) where
    pub distinct : Distinct (keys dirty)
    pub marked : (k : K) (v : V) → get dirty k ≡ some v → store k ≡ some v
    pub clean : (k : K) → get dirty k ≡ none → saved k ≡ store k

  pub InStep-start : InStep (λ k. none) [] (λ k. none)
  unfolding keys get
  InStep-start = record { distinct = tt; marked = λ k v h. ground (arith, h); clean = λ k h. refl }

  pub InStep-put :
      (s : K → Option V) (d : Map K V) (q t : K → Option V) (k : K) (v : V)
      → ((j : K) → t j ≡ (if k == j then some v else s j))
      → InStep s d q
      → InStep t (put d k v) q
  InStep-put s d q t k v w h = record {
    distinct = Distinct-keys-put d k v h.distinct;
    marked = λ j x g. ground (arith, w j, get-put d k j v, g, h.marked j x);
    clean = λ j g. ground (arith, w j, get-put d k j v, g, h.clean j);
  }

  -- A checkpoint that is written.
  pub InStep-saved :
      (s : K → Option V) (d : Map K V) (q r : K → Option V)
      → ((k : K) → r k ≡ over (get d k) (q k))
      → InStep s d q
      → InStep s [] r
  unfolding keys get
  InStep-saved s d q r w h = record {
    distinct = tt;
    marked = λ k v g. ground (arith, g);
    clean = λ k g. elim (Option-cases (get d k)) [
      | inl e' ↦ rw (w k, e') (h.clean k e')
      | inr (v, e') ↦ rw (w k, e', h.marked k v e') refl
    ];
  }

  -- One whose changes are given back.
  pub InStep-lost :
      (s : K → Option V) (d : Map K V) (q : K → Option V) → InStep s d q → InStep s (put_all d []) q
  unfolding keys get
  InStep-lost s d q h =
      let same : (k : K) → get (put_all d []) k ≡ get d k =
        (λ k. ground (arith, get-put_all d [] k h.distinct)) in
      record {
        distinct = Distinct-put_all d [] tt;
        marked = λ k v g. h.marked k v (ground (arith, same k, g));
        clean = λ k g. h.clean k (ground (arith, same k, g));
      }

  -- Where all of it is a map
  pub InStep-put_map :
      (s d q : Map K V) (k : K) (v : V)
      → InStep (get s) d (get q)
      → InStep (get (put s k v)) (put d k v) (get q)
  InStep-put_map s d q k v h =
      InStep-put (get s) d (get q) (get (put s k v)) k v (λ j. get-put s k j v) h

  pub InStep-saved_map :
      (s d q : Map K V) → InStep (get s) d (get q) → InStep (get s) [] (get (put_all d q))
  InStep-saved_map s d q h =
      InStep-saved (get s) d (get q) (get (put_all d q)) (λ k. get-put_all d q k h.distinct) h

  -- Nothing has changed: a restart gives what is stored.
  pub InStep-same : (s q : K → Option V) → InStep s [] q → (k : K) → q k ≡ s k
  unfolding get
  InStep-same s q h k = h.clean k refl

module _ {κ} {K V S : Type κ} ⦃e : Eq K⦄ where
  -- Entries that are put one after the other into a map of the state
  pub set_all-put_all :
      (view : S → Map K V) (set : K → V → S → S)
      → ((k : K) (v : V) (s : S) → view (set k v s) ≡ put (view s) k v)
      → (m : Map K V) (s : S) → view (set_all set m s) ≡ put_all m (view s)
  unfolding set_all put_all
  set_all-put_all view set h [] s = refl
  set_all-put_all view set h ((k, v) ∷ m) s =
      set_all-put_all view set h m (set k v s) ∙ ap (put_all m) (h k v s)

  -- The same, where what is stored is seen through a function
  pub set_all-over :
      (view : S → K → Option V) (set : K → V → S → S)
      → ((k : K) (v : V) (s : S) (j : K)
          → view (set k v s) j ≡ (if k == j then some v else view s j))
      → (m : Map K V) (s : S) (j : K) → Distinct (keys m)
      → view (set_all set m s) j ≡ over (get m j) (view s j)
  unfolding set_all keys get
  set_all-over view set h [] s j d = refl
  set_all-over view set h ((k, v) ∷ m) s j d =
      ground (
        arith,
        set_all-over view set h m (set k v s) j d.1,
        h k v s j,
        absent m k d.0,
        e.beq_iff k j,
      )
