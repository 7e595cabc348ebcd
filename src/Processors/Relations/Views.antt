-- ===== src/Processors/Relations/Views.antt =====
-- groupers/origindestination: what the writes of the processors do to the relations of each client.
use tp_lavado_dinero.Prelude.{
  ◌≡◌, refl, sym, ap, true, ◌&&◌, Option, none, some, [], arith, Bytes, bytes_eq, bytes_beq_iff,
  ◌==◌, if◌then◌else◌, Bool-cases, inl, inr,
}
use tp_lavado_dinero.GoMap.{Map, get, put, is_some, get-put, get-remove}
use tp_lavado_dinero.Processors.Model.{Account, account_eq, account_beq, account_beq_iff}
use tp_lavado_dinero.Processors.Relations.Defs.{
  Relation, relation_eq, relation_beq_iff, base_of, related_of, AccountStore, related_to, add, P,
  store_of, with_store, dirty, mark_relation_added, add_relation, undirty, set_relation,
}

-- Whether a relation is in a store
abbrev pub in_store : AccountStore → Relation → Option (Unit {0})
in_store s v = get (related_to (base_of v) s) (related_of v)

abbrev pub has : Bytes → P → Relation → Option (Unit {0})
has id p v = in_store (store_of id p) v

unit_some : (o : Option (Unit {0})) → is_some o ≡ true → o ≡ some tt
unit_some none h = absurd (ground (arith, h))
unit_some (some u) h = refl

same_relation : (v w : Relation) → base_of v ≡ base_of w → related_of v ≡ related_of w → v ≡ w
same_relation v w h k = ground (arith, h, k)

related_to-put :
    (s : AccountStore) (a b : Account) (m : Map Account (Unit {0}))
    → related_to b (put s a m) ≡ (if a == b then m else related_to b s)
unfolding related_to
related_to-put s a b m = ground (arith, get-put s a b m, account_beq_iff a b)

pub eq_parts :
    (v w : Relation) → (v == w) ≡ (base_of v == base_of w && related_of v == related_of w)
unfolding account_beq
eq_parts v w = refl

pub add_new :
    (s : AccountStore) (v w : Relation)
    → in_store (put s (base_of v) (put (related_to (base_of v) s) (related_of v) tt)) w
      ≡ (if v == w then some tt else in_store s w)
add_new s v w =
    let m = put (related_to (base_of v) s) (related_of v) tt in
    elim (Bool-cases (base_of v == base_of w)) [
      | inl e ↦
          let same : base_of v ≡ base_of w = (account_beq_iff (base_of v) (base_of w)).0 e in
          rw
            (
              related_to-put s (base_of v) (base_of w) m,
              eq_parts v w,
              e,
              get-put (related_to (base_of v) s) (related_of v) (related_of w) tt,
              ap (λ (b : Account). related_to b s) same,
            )
            refl
      | inr e ↦ rw (related_to-put s (base_of v) (base_of w) m, eq_parts v w, e) refl
    ]

pub add_old :
    (s : AccountStore) (v w : Relation)
    → in_store s v ≡ some tt
    → in_store s w ≡ (if v == w then some tt else in_store s w)
add_old s v w h = elim (Bool-cases (v == w)) [
  | inl e ↦ rw (e, sym ((relation_beq_iff v w).0 e)) h
  | inr e ↦ rw e refl
]

pub in_store-add :
    (s : AccountStore) (v w : Relation)
    → in_store (add (base_of v) (related_of v) s).1 w ≡ (if v == w then some tt else in_store s w)
unfolding add
in_store-add s v w = elim (Bool-cases (is_some (in_store s v))) [
  | inl old ↦ rw (old, add) (add_old s v w (unit_some (in_store s v) old))
  | inr new ↦ rw (new, add) (add_new s v w)
]

pub store_of-put :
    (j id : Bytes) (s : AccountStore) (p : P)
    → store_of id (with_store j s p) ≡ (if j == id then s else store_of id p)
unfolding store_of
store_of-put j id s p = ground (arith, get-put p.stores j id s, bytes_beq_iff j id)

-- What is added to the store of `j`, seen from `id`
pub has-set_relation :
    (j id : Bytes) (v : Relation) (p : P) (w : Relation)
    → has id (set_relation j v tt p) w ≡ (if j == id && v == w then some tt else has id p w)
unfolding set_relation
has-set_relation j id v p w =
    let s = (add (base_of v) (related_of v) (store_of j p)).1 in
    elim (Bool-cases (j == id)) [
      | inl e ↦
          let same : j ≡ id = (bytes_beq_iff j id).0 e in
          rw (store_of-put j id s p, e, in_store-add (store_of j p) v w, same) refl
      | inr e ↦ rw (store_of-put j id s p, e) refl
    ]

pub dirty-mark :
    (j id : Bytes) (v : Relation) (p : P)
    → dirty id (mark_relation_added j v p) ≡ (if j == id then put (dirty id p) v tt else dirty id p)
unfolding mark_relation_added
dirty-mark j id v p =
    ground (arith, get-put p.dirty_relations j id (put (dirty j p) v tt), bytes_beq_iff j id)

pub dirty-undirty :
    (j id : Bytes) (p : P) → dirty id (undirty j p) ≡ (if j == id then [] else dirty id p)
dirty-undirty j id p = ground (arith, get-remove p.dirty_relations j id, bytes_beq_iff j id)

-- `add_relation` in the two cases
pub add_relation_cases :
    (id : Bytes) (v : Relation) (p : P)
    → (add_relation id v p ≡ (
        if is_some (has id p v)
        then with_store id (store_of id p) p
        else mark_relation_added id v (set_relation id v tt p)))
unfolding add_relation set_relation add
add_relation_cases id v p = elim (Bool-cases (is_some (has id p v))) [
  | inl e ↦ rw (e, add) refl
  | inr e ↦ rw (e, add) refl
]
