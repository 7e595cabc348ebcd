-- ===== src/Checkpoint/Persisting.antt =====
-- checkpoint_manager.go: what `persistAndAck` does to the manager, the logs and the acks.
use tp_lavado_dinero.Prelude.{
  ℕ, ◌+◌, ◌%◌, ◌≡◌, ◌≢◌, refl, ap, ◌∙◌, ◌⊎◌, inl, inr, Option, none, some, List, [], ◌∷◌, ◌++◌,
  arith, Bytes, bytes_eq, Bool-cases, nat_beq, Result, ok, err, call_failed, after,
}
use tp_lavado_dinero.Decimal.{u64_size}
use tp_lavado_dinero.GoMap.{Map, get, put, or_empty}
use tp_lavado_dinero.Checkpoint.Line.{CheckpointChange, LogEntry, Codec, log_line}
use tp_lavado_dinero.Checkpoint.Defs.{
  Processor, Coordinator, Manager, System, count_of, slice_of, persist_and_ack, persist_drained,
  settle, release, record_counts, append_log_entry, append_text, by_processor, entry_of,
}
use tp_lavado_dinero.Checkpoint.Appending.{Same, Same-trans, longer, Appends, append_text-Appends}

module _ {P C : Type 0} (k : Codec) (p : Processor P) (c : Coordinator C) where
  -- the manager behind a checkpoint of the client `id`
  abbrev pub released : Bytes → Manager → Manager
  released id m = record m {
    next_seq = put m.next_seq id ((count_of (get m.next_seq id) + 1) % u64_size);
    batch_count = put m.batch_count id 0;
    pending_batches = put m.pending_batches id [];
    pending_acks = put m.pending_acks id [];
    processed_count = put m.processed_count id [];
  }

  -- A checkpoint writes the pending batches as one entry; then it either leaves the manager, with an
  -- error, or releases them, and acks what waits.
  pub record Logged (id : Bytes) (s : System P C) (r : Result (Unit {0}) × System P C)
      : Type 0 where
    pub entry : LogEntry
    pub batches : entry.batches ≡ slice_of (get s.manager.pending_batches id)
    pub seq : entry.seq ≡ count_of (get s.manager.next_seq id)
    pub text : Bytes
    pub written : k.encode entry ≡ some text
    pub logs : r.1.logs ≡ longer id (log_line k text) s
    pub then' :
        ((r.0 ≢ ok tt) × (r.1.manager ≡ s.manager) × (r.1.acked ≡ s.acked))
        ⊎ ((r.0 ≡ ok tt)
            × (r.1.manager ≡ released id s.manager)
            × (r.1.acked ≡ s.acked ++ slice_of (get s.manager.pending_acks id)))

  abbrev pub Persists : Bytes → System P C → Result (Unit {0}) × System P C → Type 0
  Persists id s r = Same s r.1 ⊎ Logged id s r

  record_counts-Same :
      (id : Bytes) (m : Map Bytes ℕ) (s : System P C) → Same s (record_counts k p c id m s)
  unfolding record_counts
  record_counts-Same id [] s = record { manager = refl; logs = refl; acked = refl }
  record_counts-Same id ((b, n) ∷ m) s =
      let h =
        record_counts-Same id m
          (record s { coordinator = (c.record_batch id b n 0 s.coordinator).1 }) in
      record { manager = h.manager; logs = h.logs; acked = h.acked }

  settle-Persists :
      (id : Bytes) (changes : List CheckpointChange) (s : System P C) (text : Bytes)
      (r : Result (Unit {0}) × System P C)
      → k.encode (entry_of k p c id changes s) ≡ some text
      → Appends id (log_line k text) s r
      → Persists id s (settle k p c id (count_of (get s.manager.next_seq id)) changes r)
  unfolding settle by_processor release entry_of
  settle-Persists id changes s text (err x, t) w a = elim a.logs [
    | inl e ↦ inl (record { manager = a.manager; logs = e; acked = a.acked })
    | inr e ↦ inr (record {
      entry = entry_of k p c id changes s;
      batches = refl;
      seq = refl;
      text = text;
      written = w;
      logs = e;
      then' = inl (λ o. absurd (ground (arith, o)), a.manager, a.acked);
    })
  ]
  settle-Persists id changes s text (ok _, t) w a =
      let g = record_counts-Same id (or_empty (get t.manager.processed_count id)) t in
      inr (record {
        entry = entry_of k p c id changes s;
        batches = refl;
        seq = refl;
        text = text;
        written = w;
        logs = g.logs ∙ a.when_ok refl;
        then' = inr (
          refl,
          rw (g.manager, a.manager) refl,
          rw (g.manager, g.acked, a.manager, a.acked) refl,
        );
      })

  append_log_entry-none :
      (id : Bytes) (e : LogEntry) (s : System P C)
      → k.encode e ≡ none
      → append_log_entry k p c id e s ≡ (err call_failed, s)
  unfolding append_log_entry
  append_log_entry-none id e s h = rw (h, append_log_entry) refl

  append_log_entry-some :
      (id : Bytes) (e : LogEntry) (text : Bytes) (s : System P C)
      → k.encode e ≡ some text
      → append_log_entry k p c id e s ≡ append_text k p c id text s
  unfolding append_log_entry
  append_log_entry-some id e text s h = rw (h, append_log_entry) refl

  encoded-Persists :
      (id : Bytes) (changes : List CheckpointChange) (s : System P C) (o : Option Bytes)
      → k.encode (entry_of k p c id changes s) ≡ o
      → Persists id s (persist_drained k p c id changes s)
  unfolding persist_drained settle by_processor
  encoded-Persists id changes s none e =
      rw (append_log_entry-none id (entry_of k p c id changes s) s e, persist_drained)
        (inl (record { manager = refl; logs = refl; acked = refl }))
  encoded-Persists id changes s (some text) e =
      rw (append_log_entry-some id (entry_of k p c id changes s) text s e, persist_drained)
        (settle-Persists id changes s text (append_text k p c id text s) e
          (append_text-Appends k p c id text s))

  moved_Persists :
      (id : Bytes) (s t : System P C) (r : Result (Unit {0}) × System P C)
      → Same s t
      → Persists id t r
      → Persists id s r
  moved_Persists id s t r h (inl q) = inl (Same-trans h q)
  moved_Persists id s t r h (inr l) = inr (record {
    entry = l.entry;
    batches = l.batches ∙ ap (λ (m : Manager). slice_of (get m.pending_batches id)) h.manager;
    text = l.text;
    written = l.written;
    seq = l.seq ∙ ap (λ (m : Manager). count_of (get m.next_seq id)) h.manager;
    logs =
        l.logs
        ∙ ap
            (λ (m : Map Bytes (List Bytes)).
              put m id (slice_of (get m id) ++ log_line k l.text ∷ []))
            h.logs;
    then' = elim l.then' [
      | inl (e, m, a) ↦ inl (e, m ∙ h.manager, a ∙ h.acked)
      | inr (e, m, a) ↦ inr (
        e,
        m ∙ ap (released id) h.manager,
        a
            ∙ ap (λ ds. ds ++ slice_of (get t.manager.pending_acks id)) h.acked
            ∙ ap (λ (n : Manager). s.acked ++ slice_of (get n.pending_acks id)) h.manager,
      )
    ];
  })

  drained-Persists :
      (id : Bytes) (s : System P C) (r : Result (List CheckpointChange) × System P C)
      → Same s r.1
      → Persists id s (after (persist_drained k p c id) r)
  unfolding persist_drained
  drained-Persists id s (err x, t) h = inl h
  drained-Persists id s (ok changes, t) h =
      moved_Persists id s t _ h
        (encoded-Persists id changes t (k.encode (entry_of k p c id changes t)) refl)

  pub persist_and_ack-Persists :
      (id : Bytes) (s : System P C) → Persists id s (persist_and_ack k p c id s)
  unfolding persist_and_ack by_processor
  persist_and_ack-Persists id s =
      elim (Bool-cases (nat_beq (count_of (get s.manager.batch_count id)) 0)) [
        | inl none' ↦ rw none' (inl (record { manager = refl; logs = refl; acked = refl }))
        | inr some' ↦
            rw some'
              (drained-Persists id s _ (record { manager = refl; logs = refl; acked = refl }))
      ]
