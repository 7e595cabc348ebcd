-- ===== src/Processors/MaxBank/Order.antt =====
-- groupers/maxbank: the greatest of some transfers.
use tp_lavado_dinero.Prelude.{
  ◌≡◌, refl, ◌⊎◌, true, false, Option, none, some, List, [], ◌∷◌, ◌++◌, arith, bytes_eq,
  if◌then◌else◌, Bool-cases, inl, inr, All, All-append,
}
use tp_lavado_dinero.Processors.Model.{int_eq, Floats}
use tp_lavado_dinero.Processors.MaxBank.Store.{Record}

abbrev pub Among : {A : Type 0} → A → List A → Type 0
Among x [] = ⊥
Among x (y ∷ ys) = (x ≡ y) ⊎ Among x ys

module _ (fl : Floats) where
  open fl use {F, gt}

  -- `o` is one of the records, and none of them has a greater amount; there is no `o` if there is
  -- no record.
  abbrev pub IsGreatest : Option (Record F) → List (Record F) → Type 0
  IsGreatest none rs = rs ≡ []
  IsGreatest (some r) rs =
      Among r rs × All (λ (x : Record F). gt x.amount_value r.amount_value ≡ false) rs

  abbrev pub better : Option (Record F) → Option (Record F) → Option (Record F)
  better none o = o
  better (some r) none = some r
  better (some r) (some c) = if gt r.amount_value c.amount_value then some r else some c

  Among-append : (r : Record F) (rs ss : List (Record F)) → Among r rs → Among r (rs ++ ss)
  Among-append r [] ss h = absurd h
  Among-append r (x ∷ rs) ss (inl e) = inl e
  Among-append r (x ∷ rs) ss (inr h) = inr (Among-append r rs ss h)

  Among-last : (r : Record F) (rs : List (Record F)) → Among r (rs ++ r ∷ [])
  Among-last r [] = inl refl
  Among-last r (x ∷ rs) = inr (Among-last r rs)

  -- What is below `c` is below what is above `c`.
  below_greater :
      (r c : Record F) (rs : List (Record F))
      → gt r.amount_value c.amount_value ≡ true
      → All (λ (x : Record F). gt x.amount_value c.amount_value ≡ false) rs
      → All (λ (x : Record F). gt x.amount_value r.amount_value ≡ false) rs
  below_greater r c [] g h = tt
  below_greater r c (x ∷ rs) g h = (
    ground (arith, fl.gt_trans x.amount_value r.amount_value c.amount_value, g, h.0),
    below_greater r c rs g h.1,
  )

  pub IsGreatest-better :
      (o : Option (Record F)) (r : Record F) (rs : List (Record F))
      → IsGreatest o rs
      → IsGreatest (better (some r) o) (rs ++ r ∷ [])
  IsGreatest-better none r rs h = rw h (inl refl, (fl.gt_irrefl r.amount_value, tt))
  IsGreatest-better (some c) r rs h = elim (Bool-cases (gt r.amount_value c.amount_value)) [
    | inl e ↦ rw e (
      Among-last r rs,
      All-append _ rs (r ∷ []) (below_greater r c rs e h.1) (fl.gt_irrefl r.amount_value, tt),
    )
    | inr e ↦ rw e (Among-append c rs (r ∷ []) h.0, All-append _ rs (r ∷ []) h.1 (e, tt))
  ]
