-- ===== src/Batch/Contents.antt =====
-- A batcher over a callback that takes note of what it gets: nothing is lost, repeated or moved.
use tp_lavado_dinero.Prelude.{
  ℕ, ◌+◌, ◌%◌, ◌<◌, ◌≡◌, refl, sym, ap, ◌∙◌, inl, inr, Bool, true, false, ◌&&◌, List, [], ◌∷◌, ◌++◌,
  append-nil, append_assoc, arith, Bytes, ltb, Bool-cases, length, total, total-append, All,
  All-append, ok, Exec, nat_beq,
}
use tp_lavado_dinero.Decimal.{u64_size}
use tp_lavado_dinero.Batch.Defs.{
  Batcher, try_add, add, flush_pending, add_all, send_all, flush, clear, is_empty, numbered,
}

abbrev pub Sent {ℓ} : Type ℓ → Type ℓ
Sent T = List (List T × Bytes)

module _ {ℓ} {T : Type ℓ} where
  abbrev pub note : List T → Bytes → Exec (Sent T) (Unit {0})
  note v id w = (ok tt, w ++ (v, id) ∷ [])

  abbrev pub payload : Sent T → List T
  payload [] = []
  payload ((v, id) ∷ w) = v ++ payload w

  payload-append :
      (w : Sent T) (v : List T) (id : Bytes) → payload (w ++ (v, id) ∷ []) ≡ payload w ++ v
  payload-append [] v id = append-nil v
  payload-append ((u, i) ∷ w) v id = rw (payload-append w v id) (sym (append_assoc u (payload w) v))

-- A batcher whose callback is such a note.
abbrev pub Noting {ℓ} : Type ℓ → Type ℓ
Noting T = Batcher (Sent T) T (List T)

module _ {ℓ} {T : Type ℓ} (size : T → ℕ) where
  -- The batcher hands its items as they are to `note`, and knows their weight.
  pub record IsNoting (s : Noting T) : Type ℓ where
    pub hands : (xs : List T) → s.batch.wrapper xs ≡ xs
    pub notes : (v : List T) (id : Bytes) (w : Sent T) → s.on_flush v id w ≡ note v id w
    pub sizes : (x : T) → s.batch.sizer x ≡ size x
    pub weighs : s.batch.current_weight ≡ total size s.batch.items

module _ {ℓ} {T : Type ℓ} where
  -- The batcher after an item that fits.
  abbrev pub kept : Noting T → T → Noting T
  kept s x = record s {
    batch = record s.batch {
      items = s.batch.items ++ x ∷ [];
      current_weight = s.batch.current_weight + s.batch.sizer x;
    };
  }

  -- The batcher after an item before which it had to flush.
  abbrev pub renewed : Noting T → T → Noting T
  renewed s x = record s {
    batch = record s.batch {
      items = x ∷ [];
      current_weight = 0 + s.batch.sizer x;
      sub_id = numbered s.batch.base_id ((s.batch_flushed + 1) % u64_size);
    };
    batch_flushed = (s.batch_flushed + 1) % u64_size;
  }

  abbrev pub overflows : Noting T → T → Bool
  overflows s x =
      ltb s.batch.max_weight (s.batch.current_weight + s.batch.sizer x)
      && ltb 0 (length s.batch.items)

  pub add-kept :
      (s : Noting T) (x : T) (w : Sent T) → overflows s x ≡ false → add s x w ≡ (ok tt, kept s x, w)
  unfolding add try_add
  add-kept s x w h = rw h refl

  pub add-renewed :
      (size : T → ℕ) (s : Noting T) (x : T) (w : Sent T)
      → IsNoting size s
      → overflows s x ≡ true
      → add s x w ≡ (ok tt, renewed s x, w ++ (s.batch.items, s.batch.sub_id) ∷ [])
  unfolding add try_add flush
  add-renewed size s x w v h = rw (h, v.hands, v.notes) (ground arith)

module _ {ℓ} {T : Type ℓ} (size : T → ℕ) where
  pub kept-IsNoting : (s : Noting T) (x : T) → IsNoting size s → IsNoting size (kept s x)
  kept-IsNoting s x v = record {
    hands = v.hands;
    notes = v.notes;
    sizes = v.sizes;
    weighs = omega (arith, total-append size s.batch.items (x ∷ []), v.sizes x, v.weighs);
  }

  pub renewed-IsNoting : (s : Noting T) (x : T) → IsNoting size s → IsNoting size (renewed s x)
  renewed-IsNoting s x v = record {
    hands = v.hands;
    notes = v.notes;
    sizes = v.sizes;
    weighs = omega (arith, v.sizes x);
  }

  -- What is proved of both ways on holds after `add`, which never fails.
  pub add_cases {κ} :
      (P : Noting T → Sent T → Type κ) (s : Noting T) (x : T) (w : Sent T)
      → IsNoting size s
      → (overflows s x ≡ false → P (kept s x) w)
      → (overflows s x ≡ true → P (renewed s x) (w ++ (s.batch.items, s.batch.sub_id) ∷ []))
      → let (r, s', w') = add s x w in (r ≡ ok tt) × IsNoting size s' × P s' w'
  add_cases P s x w v hk hr = elim (Bool-cases (overflows s x)) [
    | inl over ↦ rw (add-renewed size s x w v over) (refl, renewed-IsNoting s x v, hr over)
    | inr fits ↦ rw (add-kept s x w fits) (refl, kept-IsNoting s x v, hk fits)
  ]

  -- The rule for the loop: an invariant that each `add` keeps, at the rest of the items.
  pub add_all_rule {κ} :
      (P : List T → Noting T → Sent T → Type κ)
      → ((x : T) (xs : List T) (s : Noting T) (w : Sent T)
          → P (x ∷ xs) s w
          → overflows s x ≡ false
          → P xs (kept s x) w)
      → ((x : T) (xs : List T) (s : Noting T) (w : Sent T)
          → P (x ∷ xs) s w
          → overflows s x ≡ true
          → P xs (renewed s x) (w ++ (s.batch.items, s.batch.sub_id) ∷ []))
      → (xs : List T) (s : Noting T) (w : Sent T) → IsNoting size s
      → P xs s w
      → let (r, s', w') = add_all s xs w in (r ≡ ok tt) × IsNoting size s' × P [] s' w'
  unfolding add_all
  add_all_rule P hk hr [] s w v p = (refl, v, p)
  add_all_rule P hk hr (x ∷ xs) s w v p =
      let (e, v', p') = add_cases (P xs) s x w v (hk x xs s w p) (hr x xs s w p) in
      rw (e, add_all) (add_all_rule P hk hr xs (add s x w).1 (add s x w).2 v' p')

  pub flush_pending_some :
      (s : Noting T) (w : Sent T)
      → IsNoting size s
      → nat_beq s.batch.current_weight 0 ≡ false
      → flush_pending s w
        ≡ (ok tt, record s { batch = clear s.batch }, w ++ (s.batch.items, s.batch.sub_id) ∷ [])
  unfolding flush_pending flush is_empty
  flush_pending_some s w v h = rw (h, v.hands, v.notes)

  pub flush_pending_none :
      (s : Noting T) (w : Sent T)
      → nat_beq s.batch.current_weight 0 ≡ true
      → flush_pending s w ≡ (ok tt, s, w)
  unfolding flush_pending is_empty
  flush_pending_none s w h = rw h

module _ {ℓ} {T : Type ℓ} (size : T → ℕ) where
  -- What has been sent, what waits and what is to come, in order.
  abbrev Arrives : List T → List T → Noting T → Sent T → Type ℓ
  Arrives all rest s w =
      (payload w ++ (s.batch.items ++ rest) ≡ all)
      × All (λ x. 0 < size x) s.batch.items
      × All (λ x. 0 < size x) rest

  kept-Arrives :
      (all : List T) (x : T) (xs : List T) (s : Noting T) (w : Sent T)
      → Arrives all (x ∷ xs) s w
      → Arrives all xs (kept s x) w
  kept-Arrives all x xs s w (e, p, q) = (
    rw (append_assoc s.batch.items (x ∷ []) xs) e,
    All-append _ s.batch.items (x ∷ []) p (q.0, tt),
    q.1,
  )

  renewed-Arrives :
      (all : List T) (x : T) (xs : List T) (s : Noting T) (w : Sent T)
      → Arrives all (x ∷ xs) s w
      → Arrives all xs (renewed s x) (w ++ (s.batch.items, s.batch.sub_id) ∷ [])
  renewed-Arrives all x xs s w (e, p, q) =
      (rw (payload-append, append_assoc (payload w) s.batch.items (x ∷ xs)) e, (q.0, tt), q.1)

  weightless : (xs : List T) → All (λ x. 0 < size x) xs → total size xs ≡ 0 → xs ≡ []
  weightless [] p e = refl
  weightless (x ∷ xs) p e = absurd (omega (arith, p.0))

  flush_pending-Arrives :
      (all : List T) (s : Noting T) (w : Sent T)
      → IsNoting size s
      → Arrives all [] s w
      → let (r, s', w') = flush_pending s w in (r ≡ ok tt) × (payload w' ≡ all)
  flush_pending-Arrives all s w v (e, p, q) =
      let e' = rw append-nil at e in
      elim (Bool-cases (nat_beq s.batch.current_weight 0)) [
        | inl light ↦
            let z = weightless s.batch.items p (ground (arith, v.weighs)) in
            rw (flush_pending_none size s w light)
              (refl, sym (append-nil (payload w)) ∙ ap (◌++◌ (payload w)) (sym z) ∙ e')
        | inr heavy ↦ rw (flush_pending_some size s w v heavy, payload-append) (refl, e')
      ]

  -- A batcher with an empty batch, which hands its items as they are to a callback that takes note
  -- of them and never fails, gets items that each have a weight. The loop over `Add` with the
  -- `Flush` behind it then returns no error, and hands over exactly the items, in their order.
  pub payload-send_all :
      (s : Noting T) (xs : List T) (w : Sent T)
      → IsNoting size s
      → s.batch.items ≡ []
      → All (λ x. 0 < size x) xs
      → let (r, s', w') = send_all s xs w in (r ≡ ok tt) × (payload w' ≡ payload w ++ xs)
  unfolding send_all
  payload-send_all s xs w v e pos =
      let all : List T = payload w ++ xs in
      let (r, v', a) =
        add_all_rule size (Arrives all) (λ x ys t u a _. kept-Arrives all x ys t u a)
          (λ x ys t u a _. renewed-Arrives all x ys t u a) xs s w v (rw e (refl, tt, pos)) in
      rw (r, send_all) (flush_pending-Arrives all (add_all s xs w).1 (add_all s xs w).2 v' a)
