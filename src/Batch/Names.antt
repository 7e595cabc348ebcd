-- ===== src/Batch/Names.antt =====
-- The names under which a batcher hands over its groups: base-0, base-1 and so on.
use mathlib.Core.List.{append_cancel_left}
use tp_lavado_dinero.Prelude.{
  ℕ, ◌+◌, ◌%◌, ◌<◌, ◌≡◌, ◌≢◌, refl, ap, ◌∙◌, inl, inr, List, [], ◌∷◌, ◌++◌, arith, Bytes,
  bytes_beq_iff, Bool-cases, length, length-append, nat_beq, total, All, Result,
}
use tp_lavado_dinero.Decimal.{u64_size, format_uint, parse_uint-format_uint}
use tp_lavado_dinero.Batch.Defs.{
  numbered, set_new_batch_id, flush_pending, add_all, send_all, clear,
}
use tp_lavado_dinero.Batch.Contents.{
  Sent, Noting, IsNoting, kept, renewed, add_all_rule, flush_pending_some, flush_pending_none,
}

-- Two numbers below 2 ^ 64 name two groups.
numbered-injective :
    (base : Bytes) (m n : ℕ)
    → m < u64_size
    → n < u64_size
    → numbered base m ≡ numbered base n
    → m ≡ n
unfolding numbered
numbered-injective base m n hm hn e =
    let tails = append_cancel_left base (b'-' ∷ format_uint m) (b'-' ∷ format_uint n) e in
    ground (arith, parse_uint-format_uint m hm, parse_uint-format_uint n hn)

module _ {ℓ} {T : Type ℓ} (size : T → ℕ) (base : Bytes) where
  -- The groups are named by consecutive numbers from `k`.
  abbrev pub NumberedFrom : ℕ → Sent T → Type 0
  NumberedFrom k [] = Unit {0}
  NumberedFrom k ((v, id) ∷ w) = (id ≡ numbered base (k % u64_size)) × NumberedFrom (k + 1) w

  NumberedFrom-append :
      (k : ℕ) (w : Sent T) (v : List T) (id : Bytes)
      → NumberedFrom k w
      → id ≡ numbered base ((k + length w) % u64_size)
      → NumberedFrom k (w ++ (v, id) ∷ [])
  NumberedFrom-append k [] v id h e = (e ∙ ap (λ n. numbered base (n % u64_size)) (omega arith), tt)
  NumberedFrom-append k ((u, i) ∷ w) v id h e = (
    h.0,
    NumberedFrom-append (k + 1) w v id h.1
        (e ∙ ap (λ n. numbered base (n % u64_size)) (omega arith)),
  )

  -- `k` groups went out under this base name before those of `w`.
  record Naming (k : ℕ) (s : Noting T) (w : Sent T) : Type ℓ where
    based : s.batch.base_id ≡ base
    next : s.batch.sub_id ≡ numbered base s.batch_flushed
    count : s.batch_flushed ≡ (k + length w) % u64_size
    sent : NumberedFrom k w

  renewed-Naming :
      (k : ℕ) (x : T) (s : Noting T) (w : Sent T)
      → Naming k s w
      → Naming k (renewed s x) (w ++ (s.batch.items, s.batch.sub_id) ∷ [])
  renewed-Naming k x s w v = record {
    based = v.based;
    next = ap (λ b. numbered b ((s.batch_flushed + 1) % u64_size)) v.based;
    count = omega (arith, v.count, length-append w ((s.batch.items, s.batch.sub_id) ∷ []));
    sent =
        NumberedFrom-append k w s.batch.items s.batch.sub_id v.sent
          (v.next ∙ ap (numbered base) (omega (arith, v.count)));
  }

  flush_pending-Naming :
      (k : ℕ) (s : Noting T) (w : Sent T)
      → IsNoting size s
      → Naming k s w
      → NumberedFrom k (flush_pending s w).2
  flush_pending-Naming k s w n v = elim (Bool-cases (nat_beq s.batch.current_weight 0)) [
    | inl light ↦ rw (flush_pending_none size s w light) v.sent
    | inr heavy ↦ rw (flush_pending_some size s w n heavy) (
        NumberedFrom-append k w s.batch.items s.batch.sub_id v.sent
          (v.next ∙ ap (numbered base) (omega (arith, v.count))))
  ]

  send_all-Naming :
      (k : ℕ) (s : Noting T) (xs : List T)
      → IsNoting size s
      → Naming k s []
      → NumberedFrom k (send_all s xs []).2
  unfolding send_all
  send_all-Naming k s xs v n =
      let (r, v', n') =
        add_all_rule size (λ _ t u. Naming k t u)
          (λ x _ t u a _. record { based = a.based; next = a.next; count = a.count; sent = a.sent })
          (λ x _ t u a _. renewed-Naming k x t u a) xs s [] v n in
      rw (r, send_all) (flush_pending-Naming k (add_all s xs []).1 (add_all s xs []).2 v' n')

  abbrev renamed : Noting T → Noting T
  renamed s = record s {
    batch = record s.batch { base_id = base; sub_id = numbered base 0 };
    batch_flushed = 0;
  }

  set_new_batch_id_fresh :
      (s : Noting T) (uuid : Bytes)
      → base ≢ []
      → s.batch.base_id ≢ base
      → set_new_batch_id uuid s base ≡ renamed s
  unfolding set_new_batch_id
  set_new_batch_id_fresh s uuid h f =
      ground (arith, bytes_beq_iff [] base, bytes_beq_iff base s.batch.base_id)

  set_new_batch_id_same :
      (s : Noting T) (uuid : Bytes)
      → base ≢ []
      → s.batch.base_id ≡ base
      → set_new_batch_id uuid s base ≡ s
  unfolding set_new_batch_id
  set_new_batch_id_same s uuid h f =
      ground (arith, bytes_beq_iff [] base, bytes_beq_iff base s.batch.base_id)

  -- Under a new base name that is not empty the groups go out as base-0, base-1 and so on, with no
  -- gap (counted modulo 2 ^ 64).
  pub NumberedFrom-send_all :
      (s : Noting T) (uuid : Bytes) (xs : List T)
      → IsNoting size s
      → base ≢ []
      → s.batch.base_id ≢ base
      → NumberedFrom 0 (send_all (set_new_batch_id uuid s base) xs []).2
  NumberedFrom-send_all s uuid xs v h f = rw (set_new_batch_id_fresh s uuid h f) (
      send_all-Naming 0 (renamed s) xs
        (record { hands = v.hands; notes = v.notes; sizes = v.sizes; weighs = v.weighs })
        (record { based = refl; next = refl; count = omega arith; sent = tt }))

  -- Behind the loop over `Add` something waits that has a weight, if anything came in.
  record Loaded (rest : List T) (s : Noting T) (w : Sent T) : Type ℓ where
    naming : Naming 0 s w
    sizes : (x : T) → s.batch.sizer x ≡ size x
    weights : All (λ x. 0 < size x) rest
    loaded : 0 < s.batch.current_weight + total size rest

  kept-Loaded :
      (x : T) (xs : List T) (s : Noting T) (w : Sent T)
      → Loaded (x ∷ xs) s w
      → Loaded xs (kept s x) w
  kept-Loaded x xs s w a = record {
    naming = record {
      based = a.naming.based;
      next = a.naming.next;
      count = a.naming.count;
      sent = a.naming.sent;
    };
    sizes = a.sizes;
    weights = a.weights.1;
    loaded = omega (arith, a.weights.0, a.sizes x);
  }

  renewed-Loaded :
      (x : T) (xs : List T) (s : Noting T) (w : Sent T)
      → Loaded (x ∷ xs) s w
      → Loaded xs (renewed s x) (w ++ (s.batch.items, s.batch.sub_id) ∷ [])
  renewed-Loaded x xs s w a = record {
    naming = renewed-Naming 0 x s w a.naming;
    sizes = a.sizes;
    weights = a.weights.1;
    loaded = omega (arith, a.weights.0, a.sizes x);
  }

  -- The last group is named with the count of the groups flushed before it, which stays.
  record EndsAt (r : Result (Unit {0}) × Noting T × Sent T) : Type ℓ where
    groups : Sent T
    last : List T
    sent : r.2 ≡ groups ++ (last, numbered base r.1.batch_flushed) ∷ []
    noting : IsNoting size r.1
    naming : Naming r.1.batch_flushed r.1 []

  flush_pending-EndsAt :
      (s : Noting T) (w : Sent T)
      → IsNoting size s
      → Naming 0 s w
      → 0 < s.batch.current_weight
      → EndsAt (flush_pending s w)
  unfolding clear
  flush_pending-EndsAt s w v n heavy =
      rw (flush_pending_some size s w v (ground (arith, heavy))) (record {
        groups = w;
        last = s.batch.items;
        sent = ap (λ i. w ++ (s.batch.items, i) ∷ []) n.next;
        noting = record { hands = v.hands; notes = v.notes; sizes = v.sizes; weighs = refl };
        naming = record {
          based = n.based;
          next = n.next;
          count = omega (arith, n.count);
          sent = tt;
        };
      })

  send_all-EndsAt :
      (s : Noting T) (x : T) (xs : List T)
      → IsNoting size s
      → Naming 0 s []
      → All (λ y. 0 < size y) (x ∷ xs)
      → EndsAt (send_all s (x ∷ xs) [])
  unfolding send_all
  send_all-EndsAt s x xs v n pos =
      let (r, v', l) =
        add_all_rule size Loaded (λ y ys t u a _. kept-Loaded y ys t u a)
          (λ y ys t u a _. renewed-Loaded y ys t u a) (x ∷ xs) s [] v
          (record { naming = n; sizes = v.sizes; weights = pos; loaded = omega (arith, pos.0) }) in
      let t = (add_all s (x ∷ xs) []).1 in
      rw (r, send_all)
        (flush_pending-EndsAt t (add_all s (x ∷ xs) []).2 v' l.naming (omega (arith, l.loaded)))

  -- A batcher whose callback takes note of its groups and never fails gets a new base name that is
  -- not empty, and a first pass of items that each have a weight, at least one of them. If it is
  -- then given the same base name and a second pass of items, the groups of the second pass are
  -- numbered on, modulo 2 ^ 64, from the number of the last group of the first pass, and not from
  -- the one behind it.
  pub send_all_again :
      (s : Noting T) (uuid uuid' : Bytes) (x : T) (xs ys : List T)
      → IsNoting size s
      → base ≢ []
      → s.batch.base_id ≢ base
      → All (λ y. 0 < size y) (x ∷ xs)
      → let (r, t, w) = send_all (set_new_batch_id uuid s base) (x ∷ xs) [] in
        let n = t.batch_flushed in
        (groups : Sent T) × ((last : List T) × ((w ≡ groups ++ (last, numbered base n) ∷ [])
            × NumberedFrom n (send_all (set_new_batch_id uuid' t base) ys []).2))
  send_all_again s uuid uuid' x xs ys v h f pos =
      let first : EndsAt (send_all (set_new_batch_id uuid s base) (x ∷ xs) []) =
        rw (set_new_batch_id_fresh s uuid h f) (
          send_all-EndsAt (renamed s) x xs
            (record { hands = v.hands; notes = v.notes; sizes = v.sizes; weighs = v.weighs })
            (record { based = refl; next = refl; count = omega arith; sent = tt }) pos) in
      let t = (send_all (set_new_batch_id uuid s base) (x ∷ xs) []).1 in
      (
        first.groups,
        (
          first.last,
          (
            first.sent,
            rw (set_new_batch_id_same t uuid' h first.naming.based)
                (send_all-Naming t.batch_flushed t ys first.noting first.naming),
          ),
        ),
      )
