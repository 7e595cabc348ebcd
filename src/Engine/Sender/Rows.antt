-- ===== src/Engine/Sender/Rows.antt =====
-- singlesender.go: the rows of a client that are published in batches, and those that wait in its
-- batcher, where no call fails.
use tp_lavado_dinero.Prelude.{
  ℕ, ◌+◌, ◌<◌, ◌≡◌, refl, sym, ap, ◌∙◌, inl, inr, true, ◌&&◌, Option, List, [], ◌∷◌, ◌++◌,
  append-nil, append_assoc, arith, Bytes, bytes_eq, bytes_beq_iff, ◌==◌, if◌then◌else◌, Bool-cases,
  total, total-append, length, ltb, nat_beq, Result, ok, All, All-append,
}
use tp_lavado_dinero.Batch.Defs.{
  Batch, Batcher, add, add_emptied, try_add, flush, clear, flush_pending, is_empty,
}
use tp_lavado_dinero.Engine.Sender.Defs.{
  OutMessage, batch_of, eof_of, cleanup_of, Wire, wire_call, publish, serialize_and_publish,
  flush_batch,
}

try_add_cleared :
    {T V : Type 0} (b : Batch T V) (x : T)
    → try_add (clear b) x ≡ (true, record b { items = x ∷ []; current_weight = 0 + b.sizer x })
unfolding try_add clear
try_add_cleared b x = elim (Bool-cases (ltb b.max_weight (0 + b.sizer x))) [
  | inl e ↦ rw e refl
  | inr e ↦ rw e refl
]

module _ {T V : Type 0} (unwrap : V → List T) where
  -- The rows of a client in published messages, in their order.
  abbrev pub rows : Bytes → List (Option Bytes × OutMessage V) → List T
  rows id [] = []
  rows id ((key, batch_of j name v) ∷ ms) = if j == id then unwrap v ++ rows id ms else rows id ms
  rows id ((key, eof_of j name n) ∷ ms) = rows id ms
  rows id ((key, cleanup_of j) ∷ ms) = rows id ms

  rows-last :
      (id name : Bytes) (key : Option Bytes) (v : V) (ms : List (Option Bytes × OutMessage V))
      → rows id (ms ++ (key, batch_of id name v) ∷ []) ≡ rows id ms ++ unwrap v
  rows-last id name key v [] = ground (arith, bytes_beq_iff id id, append-nil (unwrap v))
  rows-last id name key v ((k, batch_of j n u) ∷ ms) = elim (Bool-cases (j == id)) [
    | inl e ↦
        rw (e, rows-last id name key v ms) (sym (append_assoc (unwrap u) (rows id ms) (unwrap v)))
    | inr e ↦ rw (e, rows-last id name key v ms) refl
  ]
  rows-last id name key v ((k, eof_of j n m) ∷ ms) = rows-last id name key v ms
  rows-last id name key v ((k, cleanup_of j) ∷ ms) = rows-last id name key v ms

module _ {T V : Type 0} (unwrap : V → List T) (size : T → ℕ) where
  -- A batcher of the client `id`: its callback, its wrapper, its weights; what waits has a weight.
  pub record IsFor (key : Bytes → Option Bytes) (id : Bytes) (b : Batcher (Wire V) T V)
      : Type 0 where
    pub sends :
        (v : V) (name : Bytes) (w : Wire V) → b.on_flush v name w ≡ flush_batch key id v name w
    pub wraps : (xs : List T) → unwrap (b.batch.wrapper xs) ≡ xs
    pub sizes : (x : T) → b.batch.sizer x ≡ size x
    pub heavy : All (λ x. 0 < size x) b.batch.items
    pub weighs : b.batch.current_weight ≡ total size b.batch.items

  flush_batch_fine :
      (key : Bytes → Option Bytes) (id : Bytes) (v : V) (name : Bytes) (w : Wire V)
      → w.outcomes ≡ []
      → flush_batch key id v name w
        ≡ (ok tt, record w { published = w.published ++ (key id, batch_of id name v) ∷ [] })
  unfolding flush_batch serialize_and_publish wire_call publish
  flush_batch_fine key id v name w e = rw e refl

  -- No error, no failure to come, and `all` is what has been published and what waits.
  pub record Holds (key : Bytes → Option Bytes) (id : Bytes) (all : List T)
      (r : Result (Unit {0}) × Batcher (Wire V) T V × Wire V) : Type 0 where
    pub returned : r.0 ≡ ok tt
    pub outcomes : r.2.outcomes ≡ []
    pub sound : IsFor key id r.1
    pub content : rows unwrap id r.2.published ++ r.1.batch.items ≡ all

  pub add-Holds :
      (key : Bytes → Option Bytes) (id : Bytes) (b : Batcher (Wire V) T V) (x : T) (w : Wire V)
      → w.outcomes ≡ []
      → 0 < size x
      → IsFor key id b
      → Holds key id ((rows unwrap id w.published ++ b.batch.items) ++ x ∷ []) (add b x w)
  unfolding add try_add flush add_emptied clear
  add-Holds key id b x w e p h =
      elim (Bool-cases (
        ltb b.batch.max_weight (b.batch.current_weight + b.batch.sizer x)
        && ltb 0 (length b.batch.items))) [
          | inl over ↦
              rw
                (
                  over,
                  h.sends,
                  flush_batch_fine key id (b.batch.wrapper b.batch.items) b.batch.sub_id w e,
                  try_add_cleared b.batch x,
                )
                (record {
                  returned = refl;
                  outcomes = e;
                  sound = record {
                    sends = h.sends;
                    wraps = h.wraps;
                    sizes = h.sizes;
                    heavy = (p, tt);
                    weighs = omega (arith, h.sizes x);
                  };
                  content =
                      ap (λ m. m ++ x ∷ [])
                        (rows-last unwrap id b.batch.sub_id (key id) (b.batch.wrapper b.batch.items)
                            w.published
                          ∙ ap (λ m. rows unwrap id w.published ++ m) (h.wraps b.batch.items));
                })
          | inr fits ↦ rw fits (record {
            returned = refl;
            outcomes = e;
            sound = record {
              sends = h.sends;
              wraps = h.wraps;
              sizes = h.sizes;
              heavy = All-append (λ y. 0 < size y) b.batch.items (x ∷ []) h.heavy (p, tt);
              weighs = omega (arith, total-append size b.batch.items (x ∷ []), h.sizes x, h.weighs);
            };
            content = sym (append_assoc (rows unwrap id w.published) b.batch.items (x ∷ []));
          })
        ]

  -- What waits is none where it has no weight.
  weightless : (xs : List T) → All (λ x. 0 < size x) xs → total size xs ≡ 0 → xs ≡ []
  weightless [] h e = refl
  weightless (x ∷ xs) h e = absurd (omega (arith, h.0, e))

  pub flush-Holds :
      (key : Bytes → Option Bytes) (id : Bytes) (b : Batcher (Wire V) T V) (w : Wire V)
      → w.outcomes ≡ []
      → IsFor key id b
      → let r = flush_pending b w in
        Holds key id (rows unwrap id w.published ++ b.batch.items) r × (r.1.batch.items ≡ [])
  unfolding flush_pending flush clear is_empty
  flush-Holds key id b w e h = elim (Bool-cases (nat_beq b.batch.current_weight 0)) [
    | inl none' ↦ rw none' (
      record { returned = refl; outcomes = e; sound = h; content = refl },
      weightless b.batch.items h.heavy (ground (arith, none', h.weighs)),
    )
    | inr some' ↦
        rw
          (
            some',
            h.sends,
            flush_batch_fine key id (b.batch.wrapper b.batch.items) b.batch.sub_id w e,
          )
          (
            record {
              returned = refl;
              outcomes = e;
              sound = record {
                sends = h.sends;
                wraps = h.wraps;
                sizes = h.sizes;
                heavy = tt;
                weighs = refl;
              };
              content =
                  append-nil _
                  ∙ rows-last unwrap id b.batch.sub_id (key id) (b.batch.wrapper b.batch.items)
                      w.published
                  ∙ ap (λ m. rows unwrap id w.published ++ m) (h.wraps b.batch.items);
            },
            refl,
          )
  ]
