-- ===== src/Engine/Stateless/Apart.antt =====
-- statelessengine.go: the processing of a batch acks nothing, and leaves the coordinator alone.
use tp_lavado_dinero.Prelude.{
  ℕ, ◌+◌, ◌%◌, ◌<◌, ◌≡◌, refl, Bool, List, [], ◌∷◌, arith, Bytes, Exec, Result, ok, err, ◌>>◌,
  after,
}
use tp_lavado_dinero.Decimal.{u64_size}
use tp_lavado_dinero.Coordinator.Protocol.{Config}
use tp_lavado_dinero.Engine.Sender.{add_item}
use tp_lavado_dinero.Engine.Stateless.Defs.{
  StatelessEngine, survivors_of, by_processor, by_sender, send_results, process_items,
}

module _ {Q T V : Type 0} where
  pub record Apart (s t : StatelessEngine Q T V) : Type 0 where
    pub acked : t.acked ≡ s.acked
    pub coordinator : t.coordinator ≡ s.coordinator

  -- What holds behind a step, and behind what comes after it.
  pub behind {κ ι ν} :
      {B : Type κ} {D : Type ι} (P : StatelessEngine Q T V → Type ν)
      (k : B → Exec (StatelessEngine Q T V) D) (r : Result B × StatelessEngine Q T V)
      → P r.1
      → ((b : B) → r.0 ≡ ok b → P (k b r.1).1)
      → P (after k r).1
  behind P k (ok b, s) p h = h b refl
  behind P k (err x, s) p h = p

  send_results-Apart :
      (id batch_id : Bytes) (xs : List T) (s t : StatelessEngine Q T V)
      → Apart s t
      → Apart s (send_results id batch_id xs t).1
  unfolding send_results by_sender
  send_results-Apart id batch_id [] s t a = a
  send_results-Apart id batch_id (x ∷ xs) s t a =
      let u = (by_sender (add_item id x batch_id) t).1 in
      let b : Apart s u = record { acked = a.acked; coordinator = a.coordinator } in
      behind (Apart s) (λ (_ : Unit {0}). send_results id batch_id xs)
        (by_sender (add_item id x batch_id) t) b (λ _ _. send_results-Apart id batch_id xs s u b)

-- A count that fits into 64 bits, where there is one
abbrev pub Fits : Result ℕ → Type 0
Fits (ok n) = n < u64_size
Fits (err x) = Unit {0}

Fits-after {κ} :
    {B : Type κ} {S : Type 0} (k : B → Exec S ℕ) (r : Result B × S)
    → ((b : B) → Fits (k b r.1).0)
    → Fits (after k r).0
Fits-after k (ok b, s) h = h b
Fits-after k (err x, s) h = tt

module _ {Q A T V : Type 0} (c : Config) (process : Bytes → A → Exec Q (List T × Bool)) where
  pub process_items-Apart :
      (id batch_id : Bytes) (items : List A) (n : ℕ) (s t : StatelessEngine Q T V)
      → Apart s t
      → Apart s (process_items c process id batch_id items n t).1
  unfolding process_items by_processor
  process_items-Apart id batch_id [] n s t h = h
  process_items-Apart id batch_id (a ∷ items) n s t h =
      let u = (by_processor (process id a) t).1 in
      let i : Apart s u = record { acked = h.acked; coordinator = h.coordinator } in
      behind (Apart s)
        (λ (r : List T × Bool).
          send_results id batch_id r.0
          >> process_items c process id batch_id items ((n + survivors_of r) % u64_size))
        (by_processor (process id a) t) i
        (λ r _.
          behind (Apart s)
            (λ (_ : Unit {0}).
              process_items c process id batch_id items ((n + survivors_of r) % u64_size))
            (send_results id batch_id r.0 u) (send_results-Apart id batch_id r.0 s u i)
            (λ _ _.
              process_items-Apart id batch_id items ((n + survivors_of r) % u64_size) s
                (send_results id batch_id r.0 u).1 (send_results-Apart id batch_id r.0 s u i)))

  -- The survivors are counted modulo 2 ^ 64.
  pub process_items-Fits :
      (id batch_id : Bytes) (items : List A) (n : ℕ) (s : StatelessEngine Q T V)
      → n < u64_size
      → Fits (process_items c process id batch_id items n s).0
  unfolding process_items by_processor
  process_items-Fits id batch_id [] n s h = h
  process_items-Fits id batch_id (a ∷ items) n s h =
      Fits-after
        (λ (r : List T × Bool).
          send_results id batch_id r.0
          >> process_items c process id batch_id items ((n + survivors_of r) % u64_size))
        (by_processor (process id a) s)
        (λ r.
          Fits-after
            (λ (_ : Unit {0}).
              process_items c process id batch_id items ((n + survivors_of r) % u64_size))
            (send_results id batch_id r.0 (by_processor (process id a) s).1)
            (λ _.
              process_items-Fits id batch_id items ((n + survivors_of r) % u64_size)
                (send_results id batch_id r.0 (by_processor (process id a) s).1).1 (omega arith)))
