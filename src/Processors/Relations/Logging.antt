-- ===== src/Processors/Relations/Logging.antt =====
-- groupers/origindestination: what the store, the marks and the log of a client have to do with each other.
use tp_lavado_dinero.Prelude.{
  ◌≡◌, refl, sym, subst, ◌∙◌, Option, none, some, List, [], ◌∷◌, arith, Distinct, Bytes, bytes_eq,
  bytes_beq, bytes_beq_iff, ◌==◌, if◌then◌else◌, Bool-cases, Option-cases, inl, inr, ok, append-nil,
}
use tp_lavado_dinero.GoMap.{Map, get, put, is_some, keys}
use tp_lavado_dinero.Checkpoint.Line.{CheckpointChange}
use tp_lavado_dinero.Processors.Model.{Json}
use tp_lavado_dinero.Processors.Loops.{each, for_each-append, for_each-each, set_all, set_all-kept}
use tp_lavado_dinero.Processors.Dirty.{
  over, InStep, InStep-start, InStep-put, InStep-saved, InStep-lost, put_all, set_all-put_all,
  set_all-over,
}
use tp_lavado_dinero.Processors.Journal.{
  Op, received, saved, lost, apply_all, Logged, after_saved, after_lost, step,
}
use tp_lavado_dinero.Processors.Relations.Defs.{
  ScatterGather, AccountStore, Relation, relation_eq, Side, relation_of, P, new_processor, store_of,
  with_store, dirty, mark_relation_added, process, relation_change, undirty, drained, related_to,
  drained_from, drain_changes, restore_change, restore_changes, set_relation, apply_change,
  checkpointable,
}
use tp_lavado_dinero.Processors.Relations.Views.{
  has, has-set_relation, dirty-mark, dirty-undirty, add_relation_cases, store_of-put, in_store,
}

module _ (side : Side) (json : Json Relation) where
  pub relation_applied :
      (id : Bytes) (v : Relation) (u : Unit {0}) (a : CheckpointChange) (p : P)
      → relation_change json v u ≡ some a
      → apply_change json id a p ≡ (ok tt, set_relation id v u p)
  unfolding relation_change apply_change bytes_beq
  relation_applied id v u a p h = elim (Option-cases (json.marshal v)) [
    | inl e ↦ absurd (ground (arith, h, e))
    | inr (text, e) ↦ ground (arith, h, e, json.unmarshal-marshal v text)
  ]

  mark : Bytes → Relation → Unit {0} → P → P
  mark id v u p = mark_relation_added id v p

  relation_restored :
      (id : Bytes) (v : Relation) (u : Unit {0}) (a : CheckpointChange) (p : P)
      → relation_change json v u ≡ some a
      → restore_change json id a p ≡ (ok tt, mark id v u p)
  unfolding relation_change restore_change bytes_beq mark
  relation_restored id v u a p h = elim (Option-cases (json.marshal v)) [
    | inl e ↦ absurd (ground (arith, h, e))
    | inr (text, e) ↦ ground (arith, h, e, json.unmarshal-marshal v text)
  ]

  -- A client's relations in the processor, what a checkpoint writes, and what the log gives back
  pub record Synced (id : Bytes) (s : Logged (checkpointable json) (process side)) : Type 0 where
    pub restored : P
    pub applies :
        apply_all (checkpointable json) (process side) id s.1 new_processor ≡ (ok tt, restored)
    pub synced : InStep (has id s.0) (dirty id s.0) (has id restored)

  Synced-same :
      (id : Bytes) (p q : P) (log : List CheckpointChange)
      → store_of id q ≡ store_of id p
      → dirty id q ≡ dirty id p
      → Synced id (p, log)
      → Synced id (q, log)
  Synced-same id p q log k d s = record {
    restored = s.restored;
    applies = s.applies;
    synced =
        subst (λ (t : AccountStore). InStep (in_store t) (dirty id q) (has id s.restored)) (sym k)
          (rw d s.synced);
  }

  same_store : (j id : Bytes) (p : P) → store_of id (with_store j (store_of j p) p) ≡ store_of id p
  same_store j id p = elim (Bool-cases (j == id)) [
    | inl e ↦ rw (store_of-put j id (store_of j p) p, e, (bytes_beq_iff j id).0 e) refl
    | inr e ↦ rw (store_of-put j id (store_of j p) p, e) refl
  ]

  relation_noted :
      (j id : Bytes) (v : Relation) (p : P) (log : List CheckpointChange)
      → Synced id (p, log)
      → Synced id (mark_relation_added j v (set_relation j v tt p), log)
  relation_noted j id v p log s =
      let q = set_relation j v tt p in
      let view : (w : Relation) → has id (mark_relation_added j v q) w ≡ has id q w =
        (λ w. unfold mark_relation_added store_of in refl) in
      let d : dirty id (mark_relation_added j v q)
          ≡ (if j == id then put (dirty id p) v tt else dirty id p) =
        dirty-mark j id v q ∙ (unfold set_relation in refl) in
      elim (Bool-cases (j == id)) [
        | inl e ↦ record {
          restored = s.restored;
          applies = s.applies;
          synced =
              rw (d, e)
                (InStep-put (has id p) (dirty id p) (has id s.restored) _ v tt
                  (λ w. view w ∙ (rw (has-set_relation j id v p w, e) refl)) s.synced);
        }
        | inr e ↦
            let h = (λ (w : Relation). view w ∙ has-set_relation j id v p w) in
            record {
              restored = s.restored;
              applies = s.applies;
              synced = record {
                distinct = rw (d, e) s.synced.distinct;
                marked = λ w u g. rw (h w, e) (s.synced.marked w u (rw (d, e) at g));
                clean = λ w g. rw (h w, e) (s.synced.clean w (rw (d, e) at g));
              };
            }
      ]

  process-Synced :
      (j id : Bytes) (m : ScatterGather) (p : P) (log : List CheckpointChange)
      → Synced id (p, log)
      → Synced id ((process side j m p).1, log)
  unfolding process
  process-Synced j id m p log s =
      let v = relation_of side m in
      elim (Bool-cases (is_some (has j p v))) [
        | inl e ↦
            rw (add_relation_cases j v p, e) (Synced-same id p _ log (same_store j id p) refl s)
        | inr e ↦ rw (add_relation_cases j v p, e) (relation_noted j id v p log s)
      ]

  pub set_all-relations :
      (id : Bytes) (m : Map Relation (Unit {0})) (p : P) (w : Relation)
      → Distinct (keys m)
      → has id (set_all (set_relation id) m p) w ≡ over (get m w) (has id p w)
  set_all-relations id m p w d =
      set_all-over (has id) (set_relation id)
        (λ v u q x. rw (has-set_relation id id v q x, (bytes_beq_iff id id).1 refl) refl) m p w d

  drained_saved :
      (j id : Bytes) (p : P) (log : List CheckpointChange) (m : Map Relation (Unit {0}))
      (r : Option (List CheckpointChange))
      → dirty j p ≡ m
      → each (relation_change json) m ≡ r
      → Synced id (p, log)
      → Synced id (after_saved (checkpointable json) (process side) id j log (drained json j p r))
  unfolding after_saved apply_all store_of
  drained_saved j id p log m none hm hr s = s
  drained_saved j id p log m (some xs) hm hr s =
      let un = dirty-undirty j id p in
      elim (Bool-cases (j == id)) [
        | inr e ↦
            rw e (Synced-same id p (undirty j p) log (unfold store_of in refl) (rw (un, e) refl) s)
        | inl e ↦
            let same : j ≡ id = (bytes_beq_iff j id).0 e in
            let h : dirty id p ≡ m = rw (sym same) hm in
            let d : InStep (has id p) m (has id s.restored) = rw (sym h) s.synced in
            let q = set_all (set_relation id) m s.restored in
            rw e (record {
              restored = q;
              applies =
                  rw (for_each-append (apply_change json id) log xs new_processor, s.applies)
                    (for_each-each (apply_change json id) (relation_change json) (set_relation id)
                      (relation_applied id) m xs s.restored hr);
              synced =
                  rw (un, e)
                    (InStep-saved (has id p) m (has id s.restored) (has id q)
                      (λ w. set_all-relations id m s.restored w d.distinct) d);
            })
      ]

  marked_by-dirty :
      (j id : Bytes) (m : Map Relation (Unit {0})) (p : P)
      → dirty id (set_all (mark j) m p) ≡ (if j == id then put_all m (dirty id p) else dirty id p)
  unfolding mark
  marked_by-dirty j id m p = elim (Bool-cases (j == id)) [
    | inl e ↦
        rw e (set_all-put_all (dirty id) (mark j) (λ v u q. rw (dirty-mark j id v q, e) refl) m p)
    | inr e ↦
        rw e (set_all-kept (dirty id) (mark j) (λ v u q. rw (dirty-mark j id v q, e) refl) m p)
  ]

  marked_by-store :
      (j id : Bytes) (m : Map Relation (Unit {0})) (p : P)
      → store_of id (set_all (mark j) m p) ≡ store_of id p
  unfolding mark mark_relation_added store_of
  marked_by-store j id m p = set_all-kept (store_of id) (mark j) (λ v u q. refl) m p

  drained_lost :
      (j id : Bytes) (p : P) (log : List CheckpointChange) (m : Map Relation (Unit {0}))
      (r : Option (List CheckpointChange))
      → dirty j p ≡ m
      → each (relation_change json) m ≡ r
      → Synced id (p, log)
      → Synced id (after_lost (checkpointable json) (process side) j log (drained json j p r))
  unfolding after_lost restore_changes
  drained_lost j id p log m none hm hr s = s
  drained_lost j id p log m (some xs) hm hr s =
      let u = undirty j p in
      let un = dirty-undirty j id p in
      let q = set_all (mark j) m u in
      let k : store_of id q ≡ store_of id p =
        marked_by-store j id m u ∙ (unfold store_of in refl) in
      rw
        (for_each-each (restore_change json j) (relation_change json) (mark j) (relation_restored j)
          m xs u hr)
        (elim (Bool-cases (j == id)) [
          | inr e ↦ Synced-same id p q log k (rw (marked_by-dirty j id m u, e, un, e) refl) s
          | inl e ↦
              let same : j ≡ id = (bytes_beq_iff j id).0 e in
              let h : dirty id p ≡ m = rw (sym same) hm in
              let d : InStep (in_store (store_of id p)) (put_all m []) (has id s.restored) =
                InStep-lost (has id p) m (has id s.restored) (rw (sym h) s.synced) in
              record {
                restored = s.restored;
                applies = s.applies;
                synced =
                    subst
                      (λ (t : AccountStore). InStep (in_store t) (dirty id q) (has id s.restored))
                      (sym k) (rw (marked_by-dirty j id m u, e, un, e) d);
              }
        ])

  saved_from :
      (j id : Bytes) (p : P) (log : List CheckpointChange) (m : Map Relation (Unit {0}))
      → dirty j p ≡ m
      → Synced id (p, log)
      → Synced id
          (after_saved (checkpointable json) (process side) id j log (drained_from json j p m))
  unfolding after_saved
  saved_from j id p log [] h s = elim (Bool-cases (j == id)) [
    | inl e ↦ rw (e, append-nil log) s
    | inr e ↦ rw e s
  ]
  saved_from j id p log (x ∷ m) h s = drained_saved j id p log (x ∷ m) _ h refl s

  lost_from :
      (j id : Bytes) (p : P) (log : List CheckpointChange) (m : Map Relation (Unit {0}))
      → dirty j p ≡ m
      → Synced id (p, log)
      → Synced id (after_lost (checkpointable json) (process side) j log (drained_from json j p m))
  unfolding after_lost restore_changes
  lost_from j id p log [] h s = s
  lost_from j id p log (x ∷ m) h s = drained_lost j id p log (x ∷ m) _ h refl s

  pub step-Synced :
      (id : Bytes) (o : Op ScatterGather) (s : Logged (checkpointable json) (process side))
      → Synced id s
      → Synced id (step (checkpointable json) (process side) id o s)
  unfolding step drain_changes
  step-Synced id (received j m) (p, log) s = process-Synced j id m p log s
  step-Synced id (saved j) (p, log) s = saved_from j id p log (dirty j p) refl s
  step-Synced id (lost j) (p, log) s = lost_from j id p log (dirty j p) refl s

  pub start-Synced : (id : Bytes) → Synced id (new_processor, [])
  unfolding apply_all store_of get related_to
  start-Synced id = record { restored = new_processor; applies = refl; synced = InStep-start }
