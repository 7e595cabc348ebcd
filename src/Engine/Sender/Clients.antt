-- ===== src/Engine/Sender/Clients.antt =====
-- singlesender.go: Add and Flush for a client, where no call fails.
use tp_lavado_dinero.Prelude.{
  ℕ, ◌<◌, ◌≡◌, refl, sym, ap, ◌∙◌, subst, inl, inr, true, Option, none, some, List, [], ◌∷◌, ◌++◌,
  arith, Bytes, bytes_eq, bytes_beq_iff, ◌==◌, Bool-cases, Option-cases, if◌then◌else◌, Result, ok,
}
use tp_lavado_dinero.GoMap.{get, put, get-put}
use tp_lavado_dinero.Batch.Defs.{
  Batcher, new, new_batcher, add, default_batch_id, set_new_batch_id, flush_pending,
}
use tp_lavado_dinero.Engine.Sender.Defs.{
  Wire, SingleSender, flush_batch, batcher_of, named_batcher, namespaced_id, with_batcher, add_item,
  flush_client,
}
use tp_lavado_dinero.Engine.Sender.Rows.{rows, IsFor, Holds, add-Holds, flush-Holds}

module _ {T V : Type 0} (unwrap : V → List T) where
  -- The rows of a client that wait
  abbrev pub waiting : Bytes → SingleSender T V → List T
  waiting id s = (batcher_of id s).batch.items

module _ {T V : Type 0} (unwrap : V → List T) (size : T → ℕ) where
  -- No call to come fails, and the batcher of the client is one of its own.
  pub record Sound (id : Bytes) (s : SingleSender T V) : Type 0 where
    pub outcomes : s.output.outcomes ≡ []
    pub batcher : IsFor unwrap size s.key_resolver id (batcher_of id s)

  -- An action that succeeds, behind which `all` is published or waits.
  pub record Sends (id : Bytes) (all : List T) (r : Result (Unit {0}) × SingleSender T V)
      : Type 0 where
    pub returned : r.0 ≡ ok tt
    pub sound : Sound id r.1
    pub content : rows unwrap id r.1.output.published ++ waiting unwrap id r.1 ≡ all

  batcher_of-put :
      (id : Bytes) (s : SingleSender T V) (b : Batcher (Wire V) T V) (w : Wire V)
      → batcher_of id (record s { batchers = put s.batchers id b; output = w }) ≡ b
  unfolding batcher_of
  batcher_of-put id s b w =
      let same : (id == id) ≡ true = ground (arith, bytes_beq_iff id id) in
      rw (batcher_of, get-put s.batchers id id b, same) refl

  Holds-Sends :
      (id : Bytes) (all : List T) (s : SingleSender T V)
      (r : Result (Unit {0}) × Batcher (Wire V) T V × Wire V)
      → Holds unwrap size s.key_resolver id all r
      → Sends id all (with_batcher id s r)
  Holds-Sends id all s (x, b, w) h = record {
    returned = h.returned;
    sound = record {
      outcomes = h.outcomes;
      batcher = subst (IsFor unwrap size s.key_resolver id) (sym (batcher_of-put id s b w)) h.sound;
    };
    content =
        ap (λ (c : Batcher (Wire V) T V). rows unwrap id w.published ++ c.batch.items)
          (batcher_of-put id s b w)
        ∙ h.content;
  }

  named-IsFor :
      (key : Bytes → Option Bytes) (id name : Bytes) (b : Batcher (Wire V) T V)
      → IsFor unwrap size key id b
      → IsFor unwrap size key id (set_new_batch_id [] b name)
        × ((set_new_batch_id [] b name).batch.items ≡ b.batch.items)
  unfolding set_new_batch_id
  named-IsFor key id name b h =
      let new_id : Bytes = if default_batch_id == name then [] else name in
      elim (Bool-cases (new_id == b.batch.base_id)) [
        | inl same ↦ rw (same, set_new_batch_id) (h, refl)
        | inr other ↦
            rw (other, set_new_batch_id)
              (
                record {
                  sends = h.sends;
                  wraps = h.wraps;
                  sizes = h.sizes;
                  heavy = h.heavy;
                  weighs = h.weighs;
                },
                refl,
              )
      ]

  pub add_item-Sends :
      (id name : Bytes) (x : T) (s : SingleSender T V)
      → 0 < size x
      → Sound id s
      → Sends id
          ((rows unwrap id s.output.published ++ waiting unwrap id s) ++ x ∷ [])
          (add_item id x name s)
  unfolding add_item named_batcher
  add_item-Sends id name x s p h =
      let (named, same) =
        named-IsFor s.key_resolver id (namespaced_id name s.namespace) (batcher_of id s)
          h.batcher in
      let b = named_batcher id name s in
      let held = add-Holds unwrap size s.key_resolver id b x s.output h.outcomes p named in
      subst
        (λ items.
          Sends id ((rows unwrap id s.output.published ++ items) ++ x ∷ []) (add_item id x name s))
        same
        (Holds-Sends id ((rows unwrap id s.output.published ++ b.batch.items) ++ x ∷ []) s
          (add b x s.output) held)

  found :
      (id : Bytes) (s : SingleSender T V) (b : Batcher (Wire V) T V)
      → get s.batchers id ≡ some b
      → batcher_of id s ≡ b
  unfolding batcher_of
  found id s b e = rw (batcher_of, e) refl

  no_batcher :
      (id : Bytes) (s : SingleSender T V) → get s.batchers id ≡ none → waiting unwrap id s ≡ []
  unfolding batcher_of new new_batcher
  no_batcher id s e =
      ap (λ (c : Batcher (Wire V) T V). c.batch.items)
        (ap
          (λ (m : Option (Batcher (Wire V) T V)). elim m [
            | none ↦
                new_batcher (new s.max_weight s.sizer s.wrapper) (flush_batch s.key_resolver id)
            | some b ↦ b
          ])
          e)

  pub flush_client-Sends :
      (id : Bytes) (s : SingleSender T V)
      → Sound id s
      → Sends id (rows unwrap id s.output.published ++ waiting unwrap id s) (flush_client id s)
        × (waiting unwrap id (flush_client id s).1 ≡ [])
  unfolding flush_client
  flush_client-Sends id s h = elim (Option-cases (get s.batchers id)) [
    | inl e ↦
        rw (e, flush_client)
          (record { returned = refl; sound = h; content = refl }, no_batcher id s e)
    | inr (b, e) ↦
        let same : batcher_of id s ≡ b = found id s b e in
        let (held, empty) =
          flush-Holds unwrap size s.key_resolver id b s.output h.outcomes
            (subst (IsFor unwrap size s.key_resolver id) same h.batcher) in
        let sent =
          Holds-Sends id (rows unwrap id s.output.published ++ b.batch.items) s
            (flush_pending b s.output) held in
        rw (e, flush_client)
          (
            subst
                (λ (c : Batcher (Wire V) T V).
                  Sends id (rows unwrap id s.output.published ++ c.batch.items)
                    (with_batcher id s (flush_pending b s.output)))
                (sym same) sent,
            ap (λ (c : Batcher (Wire V) T V). c.batch.items)
                  (batcher_of-put id s (flush_pending b s.output).1 (flush_pending b s.output).2)
                ∙ empty,
          )
  ]
