-- ===== src/Processors/MaxBank/Views.antt =====
-- groupers/maxbank: what the writes of the processor do to the names and the greatest transfers of
-- each client.
use tp_lavado_dinero.Prelude.{
  ◌≡◌, refl, ap, ◌∙◌, true, false, [], arith, Bytes, bytes_eq, bytes_beq_iff, ◌==◌, if◌then◌else◌,
}
use tp_lavado_dinero.GoMap.{Map, put, get-put, get-remove}
use tp_lavado_dinero.Processors.Model.{ℤ, int_eq, Floats}
use tp_lavado_dinero.Processors.Loops.{set_all, set_all-kept}
use tp_lavado_dinero.Processors.Dirty.{put_all, set_all-put_all}
use tp_lavado_dinero.Processors.MaxBank.Store.{Record, Store, set_max_transaction}
use tp_lavado_dinero.Processors.MaxBank.Defs.{
  P, store_of, with_store, get_store, mark_bank_name, mark_max_transaction, dirty_names, dirty_max,
  undirty, set_bank_name,
}

module _ (fl : Floats) where
  -- The names and the greatest transfers of a client
  abbrev pub names : Bytes → P fl → Map ℤ Bytes
  names id p = (store_of fl id p).bank_names

  abbrev pub maxima : Bytes → P fl → Map ℤ (Record fl.F)
  maxima id p = (store_of fl id p).max_transactions

  -- The same for one client
  pub record Kept (id : Bytes) (p q : P fl) : Type 0 where
    pub names_kept : names id q ≡ names id p
    pub maxima_kept : maxima id q ≡ maxima id p
    pub dirty_names_kept : dirty_names fl id q ≡ dirty_names fl id p
    pub dirty_max_kept : dirty_max fl id q ≡ dirty_max fl id p

  unfoldable pub set_max : Bytes → ℤ → Record fl.F → P fl → P fl
  set_max id bank r p = with_store fl id (set_max_transaction fl bank r (store_of fl id p)) p

  -- What the four writes to the state of `j` do to the maps of `id`
  pub names_set :
      (j id : Bytes) (bank : ℤ) (name : Bytes) (p : P fl)
      → (names id (set_bank_name fl j bank name p)
          ≡ (if j == id then put (names id p) bank name else names id p))
        × (maxima id (set_bank_name fl j bank name p) ≡ maxima id p)
  unfolding store_of
  names_set j id bank name p =
      let s : Store fl = record (store_of fl j p) { bank_names = put (names j p) bank name } in
      ground (arith, bytes_beq_iff j id, get-put p.max_bank_stores j id s)

  pub maxima_set :
      (j id : Bytes) (bank : ℤ) (r : Record fl.F) (p : P fl)
      → (names id (set_max j bank r p) ≡ names id p)
        × (maxima id (set_max j bank r p)
            ≡ (if j == id then put (maxima id p) bank r else maxima id p))
  unfolding store_of set_max set_max_transaction
  maxima_set j id bank r p =
      let s : Store fl = record (store_of fl j p) { max_transactions = put (maxima j p) bank r } in
      ground (arith, bytes_beq_iff j id, get-put p.max_bank_stores j id s)

  pub names_marked :
      (j id : Bytes) (bank : ℤ) (name : Bytes) (p : P fl)
      → dirty_names fl id (mark_bank_name fl j bank name p)
        ≡ (if j == id then put (dirty_names fl id p) bank name else dirty_names fl id p)
  unfolding mark_bank_name
  names_marked j id bank name p = ground (
    arith,
    bytes_beq_iff j id,
    get-put p.tracker.dirty_bank_names j id (put (dirty_names fl j p) bank name),
  )

  pub maxima_marked :
      (j id : Bytes) (bank : ℤ) (r : Record fl.F) (p : P fl)
      → dirty_max fl id (mark_max_transaction fl j bank r p)
        ≡ (if j == id then put (dirty_max fl id p) bank r else dirty_max fl id p)
  unfolding mark_max_transaction
  maxima_marked j id bank r p = ground (
    arith,
    bytes_beq_iff j id,
    get-put p.tracker.dirty_max_tx j id (put (dirty_max fl j p) bank r),
  )

  pub self : (id : Bytes) → (id == id) ≡ true
  self id = (bytes_beq_iff id id).1 refl

  pub Kept-get_store : (j id : Bytes) (p : P fl) → Kept id p (get_store fl j p)
  unfolding get_store store_of
  Kept-get_store j id p =
      let s = get-put p.max_bank_stores j id (store_of fl j p) in
      record {
        names_kept = ground (arith, bytes_beq_iff j id, s);
        maxima_kept = ground (arith, bytes_beq_iff j id, s);
        dirty_names_kept = refl;
        dirty_max_kept = refl;
      }

  -- The state behind a checkpoint with the changes `n` and `x`
  unfoldable pub restored_by : Bytes → Map ℤ Bytes → Map ℤ (Record fl.F) → P fl → P fl
  restored_by id n x p = set_all (set_max id) x (set_all (set_bank_name fl id) n p)

  pub restored_by-names :
      (id : Bytes) (n : Map ℤ Bytes) (x : Map ℤ (Record fl.F)) (p : P fl)
      → names id (restored_by id n x p) ≡ put_all n (names id p)
  unfolding restored_by
  restored_by-names id n x p =
      set_all-kept (names id) (set_max id) (λ k v q. (maxima_set id id k v q).0) x _
      ∙ set_all-put_all (names id) (set_bank_name fl id)
          (λ k v q. rw ((names_set id id k v q).0, self id) refl) n p

  pub restored_by-maxima :
      (id : Bytes) (n : Map ℤ Bytes) (x : Map ℤ (Record fl.F)) (p : P fl)
      → maxima id (restored_by id n x p) ≡ put_all x (maxima id p)
  unfolding restored_by
  restored_by-maxima id n x p =
      set_all-put_all (maxima id) (set_max id)
        (λ k v q. rw ((maxima_set id id k v q).1, self id) refl) x _
      ∙ ap (put_all x)
          (set_all-kept (maxima id) (set_bank_name fl id) (λ k v q. (names_set id id k v q).1) n p)

  unfoldable pub marked_by : Bytes → Map ℤ Bytes → Map ℤ (Record fl.F) → P fl → P fl
  marked_by j n x p = set_all (mark_max_transaction fl j) x (set_all (mark_bank_name fl j) n p)

  -- A checkpoint of `j` takes its changes away, and no others.
  pub undirty-names :
      (j id : Bytes) (p : P fl)
      → dirty_names fl id (undirty fl j p) ≡ (if j == id then [] else dirty_names fl id p)
  undirty-names j id p =
      ground (arith, bytes_beq_iff j id, get-remove p.tracker.dirty_bank_names j id)

  pub undirty-maxima :
      (j id : Bytes) (p : P fl)
      → dirty_max fl id (undirty fl j p) ≡ (if j == id then [] else dirty_max fl id p)
  undirty-maxima j id p = ground (arith, bytes_beq_iff j id, get-remove p.tracker.dirty_max_tx j id)

  pub marked_by-names :
      (j id : Bytes) (n : Map ℤ Bytes) (x : Map ℤ (Record fl.F)) (p : P fl)
      → (j == id) ≡ true
      → dirty_names fl id (marked_by j n x p) ≡ put_all n (dirty_names fl id p)
  unfolding marked_by
  marked_by-names j id n x p e =
      set_all-kept (dirty_names fl id) (mark_max_transaction fl j)
        (λ k v q. unfold mark_max_transaction in refl) x _
      ∙ set_all-put_all (dirty_names fl id) (mark_bank_name fl j)
          (λ k v q. rw (names_marked j id k v q, e) refl) n p

  pub marked_by-maxima :
      (j id : Bytes) (n : Map ℤ Bytes) (x : Map ℤ (Record fl.F)) (p : P fl)
      → (j == id) ≡ true
      → dirty_max fl id (marked_by j n x p) ≡ put_all x (dirty_max fl id p)
  unfolding marked_by
  marked_by-maxima j id n x p e =
      set_all-put_all (dirty_max fl id) (mark_max_transaction fl j)
        (λ k v q. rw (maxima_marked j id k v q, e) refl) x _
      ∙ ap (put_all x) (
          set_all-kept (dirty_max fl id) (mark_bank_name fl j)
            (λ k v q. unfold mark_bank_name in refl) n p)

  pub marked_by-others :
      (j id : Bytes) (n : Map ℤ Bytes) (x : Map ℤ (Record fl.F)) (p : P fl)
      → (j == id) ≡ false
      → (dirty_names fl id (marked_by j n x p) ≡ dirty_names fl id p)
        × (dirty_max fl id (marked_by j n x p) ≡ dirty_max fl id p)
  unfolding marked_by
  marked_by-others j id n x p e = (
    set_all-kept (dirty_names fl id) (mark_max_transaction fl j)
          (λ k v q. unfold mark_max_transaction in refl) x _
        ∙ set_all-kept (dirty_names fl id) (mark_bank_name fl j)
            (λ k v q. rw (names_marked j id k v q, e) refl) n p,
    set_all-kept (dirty_max fl id) (mark_max_transaction fl j)
          (λ k v q. rw (maxima_marked j id k v q, e) refl) x _
        ∙ set_all-kept (dirty_max fl id) (mark_bank_name fl j)
            (λ k v q. unfold mark_bank_name in refl) n p,
  )

  pub marked_by-stores :
      (j : Bytes) (n : Map ℤ Bytes) (x : Map ℤ (Record fl.F)) (p : P fl)
      → (marked_by j n x p).max_bank_stores ≡ p.max_bank_stores
  unfolding marked_by
  marked_by-stores j n x p =
      set_all-kept (λ (q : P fl). q.max_bank_stores) (mark_max_transaction fl j)
        (λ k v q. unfold mark_max_transaction in refl) x _
      ∙ set_all-kept (λ (q : P fl). q.max_bank_stores) (mark_bank_name fl j)
          (λ k v q. unfold mark_bank_name in refl) n p

  pub stores_alike :
      (id : Bytes) (p q : P fl)
      → q.max_bank_stores ≡ p.max_bank_stores
      → store_of fl id q ≡ store_of fl id p
  unfolding store_of
  stores_alike id p q h = rw h refl
