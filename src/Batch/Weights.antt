-- ===== src/Batch/Weights.antt =====
-- No message outgrows the weight that a batch was made for.
use tp_lavado_dinero.Prelude.{
  ℕ, ◌≤◌, ◌≡◌, ◌⊎◌, inl, inr, true, false, List, [], ◌∷◌, ◌++◌, arith, Bool-cases, length,
  length-append, total, total-append, All, All-append, nat_beq,
}
use tp_lavado_dinero.Batch.Defs.{flush_pending, add_all, send_all}
use tp_lavado_dinero.Batch.Contents.{
  Sent, Noting, IsNoting, kept-IsNoting, renewed-IsNoting, kept, renewed, overflows, add_all_rule,
  flush_pending_some, flush_pending_none,
}

module _ {ℓ} {T : Type ℓ} (size : T → ℕ) (max_weight : ℕ) where
  -- A group within the weight, or an item that is by itself.
  abbrev pub Fits : List T → Type 0
  Fits v = (total size v ≤ max_weight) ⊎ (length v ≤ 1)

  abbrev pub AllFit : Sent T → Type 0
  AllFit w = All (λ g. Fits g.0) w

  record Fitting (s : Noting T) (w : Sent T) : Type ℓ where
    limit : s.batch.max_weight ≡ max_weight
    noting : IsNoting size s
    sent : AllFit w
    waiting : Fits s.batch.items

  kept-Fitting :
      (x : T) (s : Noting T) (w : Sent T)
      → Fitting s w
      → overflows s x ≡ false
      → Fitting (kept s x) w
  kept-Fitting x s w v h = record {
    limit = v.limit;
    noting = kept-IsNoting size s x v.noting;
    sent = v.sent;
    waiting = ground (
      arith,
      v.noting.sizes x,
      v.limit,
      total-append size s.batch.items (x ∷ []),
      length-append s.batch.items (x ∷ []),
    );
  }

  renewed-Fitting :
      (x : T) (s : Noting T) (w : Sent T)
      → Fitting s w
      → overflows s x ≡ true
      → Fitting (renewed s x) (w ++ (s.batch.items, s.batch.sub_id) ∷ [])
  renewed-Fitting x s w v h = record {
    limit = v.limit;
    noting = renewed-IsNoting size s x v.noting;
    sent = All-append _ w _ v.sent (v.waiting, tt);
    waiting = inr (omega arith);
  }

  flush_pending-AllFit : (s : Noting T) (w : Sent T) → Fitting s w → AllFit (flush_pending s w).2
  flush_pending-AllFit s w v = elim (Bool-cases (nat_beq s.batch.current_weight 0)) [
    | inl light ↦ rw (flush_pending_none size s w light) v.sent
    | inr heavy ↦
        rw (flush_pending_some size s w v.noting heavy) (All-append _ w _ v.sent (v.waiting, tt))
  ]

  -- Whatever is handed over by the loop and its `Flush` is within the batch's weight, or one item
  -- that is heavier by itself; the callback sees no other group.
  pub AllFit-send_all :
      (s : Noting T) (xs : List T)
      → IsNoting size s
      → s.batch.items ≡ []
      → s.batch.max_weight ≡ max_weight
      → AllFit (send_all s xs []).2
  unfolding send_all
  AllFit-send_all s xs v e m =
      let (r, _, f) =
        add_all_rule size (λ _ t u. Fitting t u) (λ x _ t u. kept-Fitting x t u)
          (λ x _ t u. renewed-Fitting x t u) xs s [] v
          (record { limit = m; noting = v; sent = tt; waiting = inl (rw e (omega arith)) }) in
      rw (r, send_all) (flush_pending-AllFit (add_all s xs []).1 (add_all s xs []).2 f)
