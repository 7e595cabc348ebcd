-- ===== src/Checkpoint/Covered.antt =====
-- checkpoint_manager.go: `persistAndAck` keeps the acks of a client covered.
use tp_lavado_dinero.Prelude.{
  ◌≡◌, sym, ap, ◌∙◌, inl, inr, true, not, ◌||◌, List, [], ◌∷◌, ◌++◌, arith, Bytes, bytes_eq,
  bytes_beq_iff, ◌==◌, Bool-cases, Result, contains, All,
}
use tp_lavado_dinero.GoMap.{get}
use tp_lavado_dinero.Checkpoint.Line.{Codec, log_line}
use tp_lavado_dinero.Checkpoint.Defs.{
  Delivery, Processor, Coordinator, System, slice_of, persist_and_ack,
}
use tp_lavado_dinero.Checkpoint.Noted.{released-Durable}
use tp_lavado_dinero.Checkpoint.Appending.{Same, longer}
use tp_lavado_dinero.Checkpoint.Persisting.{Logged, Persists, persist_and_ack-Persists}
use tp_lavado_dinero.Checkpoint.Logged.{
  Logs, names, logged, waits, Durable, All-weaken, logged-longer, longer-Durable, acked-Durable,
}

names_self : (ds : List Delivery) → All (λ d. contains (names ds) d.batch_id ≡ true) ds
names_self [] = tt
names_self (d ∷ ds) = (
  ground (arith, bytes_beq_iff d.batch_id d.batch_id),
  All-weaken ds (names_self ds) (λ e v. ground (arith, v)),
)

All-both :
    (P Q : Delivery → Type 0) (ds : List Delivery) → All P ds → All Q ds → All (λ d. P d × Q d) ds
All-both P Q [] h g = tt
All-both P Q (d ∷ ds) h g = ((h.0, g.0), All-both P Q ds h.1 g.1)

module _ {P C : Type 0} (k : Codec) (p : Processor P) (c : Coordinator C) where
  abbrev pub Covered : Bytes → System P C → Type 0
  Covered id s = Durable k id s.manager s.logs s.acked

  Same-Covered : (id : Bytes) (s t : System P C) → Same s t → Covered id s → Covered id t
  Same-Covered id s t h g = rw (h.manager, h.logs, h.acked) g

  -- the waiting messages of `j` are in the log when its entry is
  waiting_logged :
      (id j : Bytes) (s : System P C) (r : Result (Unit {0}) × System P C)
      → Covered id s
      → (l : Logged k p c j s r) → (b : Bytes)
      → (not (j == id)
          || not (waits k s.manager id b)
          || logged k (longer j (log_line k l.text) s) id b)
        ≡ true
  waiting_logged id j s r g l b = elim (Bool-cases (j == id)) [
    | inl same ↦
        let eq : j ≡ id = ground (arith, same, bytes_beq_iff j id) in
        let named : l.entry.batches ≡ names (slice_of (get s.manager.pending_acks id)) =
          l.batches ∙ ap (λ x. slice_of (get s.manager.pending_batches x)) eq ∙ g.aligned in
        ground (
          arith,
          logged-longer k s.logs j l.entry l.text id b l.written g.readable,
          ap (λ bs. contains bs b) named,
          same,
        )
    | inr other ↦ ground (arith, other)
  ]

  own_waits :
      (logs : Logs) (id j : Bytes) (s : System P C) (d : Delivery)
      → (j == d.client_id) ≡ true
      → contains (names (slice_of (get s.manager.pending_acks j))) d.batch_id ≡ true
      → (not (id == d.client_id) || logged k logs id d.batch_id || waits k s.manager id d.batch_id)
        ≡ true
  own_waits logs id j s d own there = elim (Bool-cases (j == id)) [
    | inl same ↦
        let eq : j ≡ id = ground (arith, same, bytes_beq_iff j id) in
        let there' : waits k s.manager id d.batch_id ≡ true =
          ap (λ x. contains (names (slice_of (get s.manager.pending_acks x))) d.batch_id) (sym eq)
          ∙ there in
        ground (arith, there')
    | inr other ↦ ground (
      arith,
      other,
      own,
      bytes_beq_iff j d.client_id,
      bytes_beq_iff id d.client_id,
      bytes_beq_iff j id,
    )
  ]

  Persists-Covered :
      (id j : Bytes) (s : System P C) (r : Result (Unit {0}) × System P C)
      → Covered id s
      → Persists k p c j s r
      → Covered id r.1
  Persists-Covered id j s r g (inl h) = Same-Covered id s r.1 h g
  Persists-Covered id j s r g (inr l) =
      let logs : Logs = longer j (log_line k l.text) s in
      let ds : List Delivery = slice_of (get s.manager.pending_acks j) in
      let g' = longer-Durable k id s.manager s.logs s.acked j l.entry l.text l.written g in
      let all = waiting_logged id j s r g l in
      elim l.then' [
        | inl (e, m, a) ↦ rw (m, l.logs, a) g'
        | inr (e, m, a) ↦
            let known = acked-Durable k id s.manager logs s.acked ds g' (
              All-weaken ds (All-both _ _ ds (g.owned j) (names_self ds))
                (λ d v. own_waits logs id j s d v.0 v.1)) in
            rw (m, l.logs, a) (released-Durable k p c id j s.manager logs (s.acked ++ ds) known all)
      ]

  pub persist_and_ack-Covered :
      (id j : Bytes) (s : System P C) → Covered id s → Covered id (persist_and_ack k p c j s).1
  persist_and_ack-Covered id j s g =
      Persists-Covered id j s _ g (persist_and_ack-Persists k p c j s)
