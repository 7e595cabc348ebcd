-- ===== src/Processors/Conversions/Synced.antt =====
-- joiners/conversionjoin: the count of a client, its mark and its log through the steps of a run.
use tp_lavado_dinero.Prelude.{
  ℕ, suc, ◌+◌, ◌≡◌, refl, sym, ap, ◌∙◌, subst, inl, inr, true, false, Option, none, some, List, [],
  ◌∷◌, ◌++◌, append-nil, arith, Bytes, bytes_eq, bytes_beq, bytes_beq_iff, ◌==◌, Bool-cases,
  if◌then◌else◌, ok, after, pure,
}
use tp_lavado_dinero.GoMap.{remove, get-put, get-remove}
use tp_lavado_dinero.Checkpoint.Line.{CheckpointChange}
use tp_lavado_dinero.Processors.Model.{Json}
use tp_lavado_dinero.Processors.Loops.{for_each, for_each-append}
use tp_lavado_dinero.Processors.Journal.{Op, received, saved, lost, after_saved, after_lost}
use tp_lavado_dinero.Processors.Conversions.Defs.{
  CountValue, ConversionJoin, new_join, result_of, is_dirty, set_result, mark_count_changed,
  process_amount, change_of, drained_text, drain_counts, restore_count, restore_counts, apply_count,
  count_checkpointable,
}

-- How many items of a client come in
abbrev pub received_in : {A : Type 0} → Bytes → List (Op A) → ℕ
received_in id [] = 0
received_in id (received j a ∷ os) = (if id == j then 1 else 0) + received_in id os
received_in id (saved j ∷ os) = received_in id os
received_in id (lost j ∷ os) = received_in id os

result_of-set :
    (id j : Bytes) (n : ℕ) (p : ConversionJoin)
    → result_of id (set_result j n p) ≡ (if j == id then n else result_of id p)
result_of-set id j n p = ground (arith, get-put p.client_results j id n)

is_dirty-mark :
    (id j : Bytes) (p : ConversionJoin)
    → is_dirty id (mark_count_changed j p) ≡ (if j == id then true else is_dirty id p)
unfolding mark_count_changed
is_dirty-mark id j p = ground (arith, get-put p.dirty_counts j id true)

pub is_dirty-remove :
    (id j : Bytes) (p : ConversionJoin)
    → is_dirty id (record p { dirty_counts = remove p.dirty_counts j })
      ≡ (if j == id then false else is_dirty id p)
is_dirty-remove id j p = ground (arith, get-remove p.dirty_counts j id)

module _ (json : Json CountValue) where
  -- The worker has counted `n`; its log can be applied, and gives `n` where nothing has changed since.
  pub record Synced (id : Bytes) (n : ℕ) (p : ConversionJoin) (log : List CheckpointChange)
      : Type 0 where
    pub counted : result_of id p ≡ n
    pub restored : ConversionJoin
    pub applies : for_each (apply_count json id) log new_join ≡ (ok tt, restored)
    pub clean : is_dirty id p ≡ false → result_of id restored ≡ n

  -- A processor with the same count, at which nothing is clean that was not
  same-Synced :
      (id : Bytes) (n : ℕ) (p q : ConversionJoin) (log : List CheckpointChange)
      → result_of id q ≡ result_of id p
      → (is_dirty id q ≡ false → is_dirty id p ≡ false)
      → Synced id n p log
      → Synced id n q log
  same-Synced id n p q log e h s = record {
    counted = e ∙ s.counted;
    restored = s.restored;
    applies = s.applies;
    clean = λ d. s.clean (h d);
  }

  flipped : (id j : Bytes) → (j == id) ≡ (id == j)
  flipped id j = ground (arith, bytes_beq_iff id j, bytes_beq_iff j id)

  pub received-Synced :
      {A : Type 0} (id j : Bytes) (a : A) (n m : ℕ) (p : ConversionJoin)
      (log : List CheckpointChange)
      → m ≡ (if id == j then 1 else 0) + n
      → Synced id n p log
      → Synced id m (process_amount j a p).1 log
  unfolding process_amount mark_count_changed
  received-Synced id j a n m p log e s =
      let q = set_result j (suc (result_of j p)) p in
      let set = result_of-set id j (suc (result_of j p)) p in
      elim (Bool-cases (id == j)) [
        | inl same ↦
            let eq : j ≡ id = ground (arith, same, bytes_beq_iff id j) in
            let was : result_of j p ≡ n = ap (λ x. result_of x p) eq ∙ s.counted in
            record {
              counted = ground (arith, set, same, flipped id j, was, e);
              restored = s.restored;
              applies = s.applies;
              clean = λ d. absurd (ground (arith, d, same, flipped id j, is_dirty-mark id j q));
            }
        | inr other ↦
            let m_n : m ≡ n = ground (arith, e, other) in
            subst (λ x. Synced id x (mark_count_changed j q) log) (sym m_n)
              (same-Synced id n p (mark_count_changed j q) log
                (ground (arith, set, other, flipped id j))
                (λ d. ground (arith, d, other, flipped id j, is_dirty-mark id j q)) s)
      ]

  applied :
      (id text : Bytes) (n : ℕ) (p : ConversionJoin)
      → json.marshal (record { count = n }) ≡ some text
      → apply_count json id (change_of json id text) p ≡ (ok tt, set_result id n p)
  unfolding apply_count bytes_beq
  applied id text n p e = rw (json.unmarshal-marshal (record { count = n }) text e) refl

  -- The log with the change of the client
  pub logged-Synced :
      (id text : Bytes) (n : ℕ) (p q : ConversionJoin) (log : List CheckpointChange)
      → json.marshal (record { count = result_of id p }) ≡ some text
      → result_of id q ≡ result_of id p
      → Synced id n p log
      → Synced id n q (log ++ change_of json id text ∷ [])
  logged-Synced id text n p q log w e s = record {
    counted = e ∙ s.counted;
    restored = set_result id (result_of id p) s.restored;
    applies =
        for_each-append (apply_count json id) log (change_of json id text ∷ []) new_join
        ∙ (ap
              (after
                (λ (_ : Unit {0}). for_each (apply_count json id) (change_of json id text ∷ [])))
              s.applies
            ∙ (unfold for_each in
                ap (after (λ (_ : Unit {0}). pure tt))
                  (applied id text (result_of id p) s.restored w)));
    clean = λ d.
        ground
          (arith, result_of-set id id (result_of id p) s.restored, bytes_beq_iff id id, s.counted);
  }

  saved_text :
      (A : Type 0) (id j : Bytes) (n : ℕ) (p : ConversionJoin) (log : List CheckpointChange)
      (o : Option Bytes)
      → json.marshal (record { count = result_of j p }) ≡ o
      → Synced id n p log
      → let r =
          after_saved
            (count_checkpointable json)
            (process_amount {A = A})
            id
            j
            log
            (drained_text json j p o) in
        Synced id n r.0 r.1
  unfolding after_saved
  saved_text A id j n p log none w s = s
  saved_text A id j n p log (some text) w s =
      let q = record p { dirty_counts = remove p.dirty_counts j } in
      elim (Bool-cases (j == id)) [
        | inl same ↦
            let eq : id ≡ j = ground (arith, same, bytes_beq_iff j id) in
            let w' = ap (λ x. json.marshal (record { count = result_of x p })) eq ∙ w in
            rw same (
              subst (λ x. Synced id n q (log ++ change_of json x text ∷ [])) eq
                (logged-Synced id text n p q log w' refl s))
        | inr other ↦ rw other (
            same-Synced id n p q log refl (λ d. ground (arith, d, other, is_dirty-remove id j p)) s)
      ]

  lost_text :
      (A : Type 0) (id j : Bytes) (n : ℕ) (p : ConversionJoin) (log : List CheckpointChange)
      (o : Option Bytes)
      → json.marshal (record { count = result_of j p }) ≡ o
      → Synced id n p log
      → let r =
          after_lost
            (count_checkpointable json)
            (process_amount {A = A})
            j
            log
            (drained_text json j p o) in
        Synced id n r.0 r.1
  unfolding after_lost restore_counts restore_count for_each bytes_beq
  lost_text A id j n p log none w s = s
  lost_text A id j n p log (some text) w s =
      let t = record p { dirty_counts = remove p.dirty_counts j } in
      let q = set_result j (result_of j p) t in
      let read = json.unmarshal-marshal (record { count = result_of j p }) text w in
      let set = result_of-set id j (result_of j p) t in
      rw read (elim (Bool-cases (j == id)) [
        | inl same ↦
            let eq : id ≡ j = ground (arith, same, bytes_beq_iff j id) in
            let back : result_of j p ≡ result_of id p = ap (λ x. result_of x p) (sym eq) in
            record {
              counted = unfold mark_count_changed in ground (arith, set, same, back, s.counted);
              restored = s.restored;
              applies = s.applies;
              clean = λ d. absurd (ground (arith, d, same, is_dirty-mark id j q));
            }
        | inr other ↦
            same-Synced id n p (mark_count_changed j q) log
              (unfold mark_count_changed in ground (arith, set, other))
              (λ d. ground (arith, d, other, is_dirty-mark id j q, is_dirty-remove id j p)) s
      ])

  pub saved-Synced :
      (A : Type 0) (id j : Bytes) (n : ℕ) (p : ConversionJoin) (log : List CheckpointChange)
      → Synced id n p log
      → let r =
          after_saved
            (count_checkpointable json)
            (process_amount {A = A})
            id
            j
            log
            (drain_counts json j p) in
        Synced id n r.0 r.1
  unfolding drain_counts after_saved
  saved-Synced A id j n p log s = elim (Bool-cases (is_dirty j p)) [
    | inl yes' ↦ rw (yes', drain_counts) (saved_text A id j n p log _ refl s)
    | inr no' ↦
        rw (no', drain_counts)
          (elim (Bool-cases (j == id)) [
            | inl same ↦ rw (same, append-nil log) s
            | inr other ↦ rw other s
          ])
  ]

  pub lost-Synced :
      (A : Type 0) (id j : Bytes) (n : ℕ) (p : ConversionJoin) (log : List CheckpointChange)
      → Synced id n p log
      → let r =
          after_lost
            (count_checkpointable json)
            (process_amount {A = A})
            j
            log
            (drain_counts json j p) in
        Synced id n r.0 r.1
  unfolding drain_counts after_lost restore_counts for_each
  lost-Synced A id j n p log s = elim (Bool-cases (is_dirty j p)) [
    | inl yes' ↦ rw (yes', drain_counts) (lost_text A id j n p log _ refl s)
    | inr no' ↦ rw (no', drain_counts) s
  ]
