-- ===== src/Processors/Relations/Gathered.antt =====
-- groupers/origindestination: the stores hold the relations of the items of their clients.
use tp_lavado_dinero.Prelude.{
  ◌≡◌, refl, subst, List, [], ◌∷◌, arith, Bytes, bytes_eq, bytes_beq_iff, ◌==◌, if◌then◌else◌,
  Bool-cases, Option-cases, inl, inr, All, Distinct, contains,
}
use tp_lavado_dinero.GoMap.{Map, get, put, keys, is_some, Distinct-keys-put, All-put, All-get}
use tp_lavado_dinero.Processors.Model.{Account, account_eq}
use tp_lavado_dinero.Processors.Relations.Defs.{
  ScatterGather, Relation, relation_eq, base_of, related_of, AccountStore, related_to, add, P,
  store_of, with_store, mark_relation_added, add_relation, Side, by_origin, by_destination,
  relation_of, process,
}
use tp_lavado_dinero.Processors.Relations.Views.{in_store, in_store-add, store_of-put}

-- A store that has exactly the relations in `rs`.
pub record Gathers (s : AccountStore) (rs : List Relation) : Type 0 where
  pub bases_distinct : Distinct (keys s)
  pub inner_distinct : All (λ (e : Account × Map Account (Unit {0})). Distinct (keys e.1)) s
  pub exact : (v : Relation) → is_some (in_store s v) ≡ contains rs v

pub related-Distinct :
    (s : AccountStore) (b : Account)
    → All (λ (e : Account × Map Account (Unit {0})). Distinct (keys e.1)) s
    → Distinct (keys (related_to b s))
unfolding related_to keys
related-Distinct s b h = elim (Option-cases (get s b)) [
  | inl e ↦ rw e tt
  | inr (m, e) ↦ rw e (All-get (λ k (m' : Map Account (Unit {0})). Distinct (keys m')) s b m h e)
]

Gathers-add :
    (s : AccountStore) (rs : List Relation) (v : Relation)
    → Gathers s rs
    → Gathers (add (base_of v) (related_of v) s).1 (v ∷ rs)
Gathers-add s rs v g =
    let exact' = λ (w : Relation).
      (let h : is_some (in_store (add (base_of v) (related_of v) s).1 w) ≡ contains (v ∷ rs) w =
          ground (arith, in_store-add s v w, g.exact w) in
        h) in
    elim (Bool-cases (is_some (in_store s v))) [
      | inl old ↦
          let same : (add (base_of v) (related_of v) s).1 ≡ s =
            (unfold add in rw (old, add) refl) in
          record {
            bases_distinct = rw same g.bases_distinct;
            inner_distinct = rw same g.inner_distinct;
            exact = exact';
          }
      | inr new ↦
          let m = put (related_to (base_of v) s) (related_of v) tt in
          let same : (add (base_of v) (related_of v) s).1 ≡ put s (base_of v) m =
            (unfold add in rw (new, add) refl) in
          record {
            bases_distinct = rw same (Distinct-keys-put s (base_of v) m g.bases_distinct);
            inner_distinct = rw same (
                All-put (λ k (m' : Map Account (Unit {0})). Distinct (keys m')) s (base_of v) m
                  g.inner_distinct
                  (Distinct-keys-put (related_to (base_of v) s) (related_of v) tt
                    (related-Distinct s (base_of v) g.inner_distinct)));
            exact = exact';
          }
    ]

mark-store :
    (j id : Bytes) (v : Relation) (p : P) → store_of id (mark_relation_added j v p) ≡ store_of id p
unfolding mark_relation_added store_of
mark-store j id v p = refl

added_store :
    (j id : Bytes) (v : Relation) (p : P)
    → store_of id (with_store j (add (base_of v) (related_of v) (store_of j p)).1 p)
      ≡ (if j == id then (add (base_of v) (related_of v) (store_of id p)).1 else store_of id p)
added_store j id v p =
    let s = (add (base_of v) (related_of v) (store_of j p)).1 in
    elim (Bool-cases (j == id)) [
      | inl e ↦ rw (store_of-put j id s p, e, (bytes_beq_iff j id).0 e) refl
      | inr e ↦ rw (store_of-put j id s p, e) refl
    ]

add_relation-store :
    (j id : Bytes) (v : Relation) (p : P)
    → store_of id (add_relation j v p)
      ≡ (if j == id then (add (base_of v) (related_of v) (store_of id p)).1 else store_of id p)
unfolding add_relation
add_relation-store j id v p =
    let s = (add (base_of v) (related_of v) (store_of j p)).1 in
    elim (Bool-cases (add (base_of v) (related_of v) (store_of j p)).0) [
      | inl e ↦ rw (e, add_relation, mark-store j id v (with_store j s p)) (added_store j id v p)
      | inr e ↦ rw (e, add_relation) (added_store j id v p)
    ]

-- The relation that an item stands for: of its account with the one that it goes to, the former as the
-- base where the groups are by origin, the latter where they are by destination.
unfoldable pub meant : Side → ScatterGather → Relation
meant by_origin m = record {
  base_bank = m.from_bank;
  base_account = m.account;
  related_bank = m.to_bank;
  related_account = m.to_account;
}
meant by_destination m = record {
  base_bank = m.to_bank;
  base_account = m.to_account;
  related_bank = m.from_bank;
  related_account = m.account;
}

relation_of-meant : (side : Side) (m : ScatterGather) → relation_of side m ≡ meant side m
unfolding relation_of meant
relation_of-meant by_origin m = refl
relation_of-meant by_destination m = refl

module _ (side : Side) where
  -- Items of clients, in the order in which they are processed
  unfoldable pub process_all : List (Bytes × ScatterGather) → P → P
  process_all [] p = p
  process_all ((id, m) ∷ ms) p = process_all ms (process side id m p).1

  -- The relations of the items of a client, the last in front, before `rs`
  unfoldable pub seen : Bytes → List (Bytes × ScatterGather) → List Relation → List Relation
  unfolding meant
  seen id [] rs = rs
  seen id ((j, m) ∷ ms) rs = seen id ms (if j == id then meant side m ∷ rs else rs)

  pub process_all-Gathers :
      (id : Bytes) (ms : List (Bytes × ScatterGather)) (p : P) (rs : List Relation)
      → Gathers (store_of id p) rs
      → Gathers (store_of id (process_all ms p)) (seen id ms rs)
  unfolding process_all seen process
  process_all-Gathers id [] p rs g = g
  process_all-Gathers id ((j, m) ∷ ms) p rs g =
      let v = relation_of side m in
      let q = add_relation j v p in
      elim (Bool-cases (j == id)) [
        | inl e ↦ rw e (
            process_all-Gathers id ms q (meant side m ∷ rs) (
              subst (λ x. Gathers (store_of id q) (x ∷ rs)) (relation_of-meant side m)
                (rw (add_relation-store j id v p, e) (Gathers-add (store_of id p) rs v g))))
        | inr e ↦ rw e (process_all-Gathers id ms q rs (rw (add_relation-store j id v p, e) g))
      ]
