-- ===== src/Checkpoint/Reloaded.antt =====
-- checkpoint_manager.go: what `loadClientState` takes from a log.
use tp_lavado_dinero.Prelude.{
  ℕ, ◌≡◌, refl, sym, subst, ◌⊎◌, ◌==◌, All, ap, ◌∙◌, inl, inr, Bool, true, false, ◌||◌, Option,
  none, some, List, [], ◌∷◌, ◌++◌, arith, Bytes, bytes_eq, bytes_beq_iff, Option-cases, Bool-cases,
  Result, ok, after, contains, contains-append,
}
use tp_lavado_dinero.GoMap.{Map, get, put, get-put}
use tp_lavado_dinero.Checkpoint.Line.{Codec, LogEntry, CheckpointChange, parse_log_line}
use tp_lavado_dinero.Checkpoint.Defs.{
  Processor, Coordinator, System, truth_of, is_processed, file_call, by_processor, by_coordinator,
}
use tp_lavado_dinero.Checkpoint.Replay.{
  eof_sent_kind, finalize_complete_kind, Replay, mark_batches, with_counts, apply_change,
  apply_changes, replay_entry, replay_lines, record_restored, install, load_log, load_client_state,
}
use tp_lavado_dinero.Checkpoint.Logged.{logged_batches, logged_batches-line}

mark_batches-get :
    (bs : List Bytes) (m : Map Bytes Bool) (b : Bytes)
    → truth_of (get (mark_batches bs m) b) ≡ (contains bs b || truth_of (get m b))
unfolding mark_batches
mark_batches-get [] m b = refl
mark_batches-get (x ∷ xs) m b =
    ground (arith, mark_batches-get xs (put m x true) b, get-put m x b true, bytes_beq_iff x b)

module _ {P C : Type 0} (k : Codec) (p : Processor P) (c : Coordinator C) where
  -- Where the coordinator is `Ready` it records any batch of the client, and is so again.
  pub record IsWilling (id : Bytes) (Ready : C → Type 0) : Type 0 where
    pub records : (b : Bytes) (n : ℕ) (d : C) → Ready d → (c.record_batch id b n 0 d).0 ≡ ok tt
    pub stays : (b : Bytes) (n : ℕ) (d : C) → Ready d → Ready (c.record_batch id b n 0 d).1

  -- A change of the manager's own, or one that the processor takes in every state
  abbrev pub IsTaken : Bytes → CheckpointChange → Type 0
  IsTaken id x =
      ((eof_sent_kind == x.kind) ≡ true)
      ⊎ ((finalize_complete_kind == x.kind) ≡ true)
      ⊎ ((q : P) → (p.apply_change id x q).0 ≡ ok tt)

  -- The changes of the entries up to the first line that is not taken are all such changes.
  unfoldable pub AreTaken : Bytes → List Bytes → Type 0
  unfolding parse_log_line
  AreTaken id [] = Unit {0}
  AreTaken id (l ∷ ls) =
      let rest = AreTaken id ls in
      elim (parse_log_line k l) [ none ↦ Unit {0} | some e ↦ All (IsTaken id) e.changes × rest ]

  pub AreTaken-line :
      (id l : Bytes) (e : LogEntry) (ls : List Bytes)
      → parse_log_line k l ≡ some e
      → AreTaken id (l ∷ ls) ≡ (All (IsTaken id) e.changes × AreTaken id ls)
  unfolding AreTaken
  AreTaken-line id l e ls good = rw (good, AreTaken) refl

  -- An entry has a count for each of its batches.
  unfoldable pub counts_fit : List Bytes → Bool
  unfolding parse_log_line with_counts
  counts_fit [] = true
  counts_fit (l ∷ ls) =
      let rest = counts_fit ls in
      elim (parse_log_line k l) [
        | none ↦ true
        | some e ↦ elim (with_counts e.batches e.processed_counts) [
          | none ↦ false
          | some pairs ↦ rest
        ]
      ]

  with_counts-cases :
      (o : Option (List (Bytes × ℕ))) (rest : Bool)
      → elim o [ none ↦ false | some pairs ↦ rest ] ≡ true
      → (rest ≡ true) × ((pairs : List (Bytes × ℕ)) × (o ≡ some pairs))
  with_counts-cases none rest h = absurd (ground (arith, h))
  with_counts-cases (some pairs) rest h = (h, (pairs, refl))

  counts_fit-line :
      (l : Bytes) (e : LogEntry) (ls : List Bytes)
      → parse_log_line k l ≡ some e
      → counts_fit (l ∷ ls) ≡ true
      → (counts_fit ls ≡ true)
        × ((pairs : List (Bytes × ℕ)) × (with_counts e.batches e.processed_counts ≡ some pairs))
  unfolding counts_fit
  counts_fit-line l e ls good h =
      with_counts-cases (with_counts e.batches e.processed_counts) (counts_fit ls)
        (rw (good, counts_fit) at h)

  -- a log that fits, with a line more in front
  pub counts_fit-cons :
      (l : Bytes) (e : LogEntry) (pairs : List (Bytes × ℕ)) (ls : List Bytes)
      → parse_log_line k l ≡ some e
      → with_counts e.batches e.processed_counts ≡ some pairs
      → counts_fit ls ≡ true
      → counts_fit (l ∷ ls) ≡ true
  unfolding counts_fit
  counts_fit-cons l e pairs ls good some_pairs h = rw (good, some_pairs, counts_fit) h

  apply_change-ok :
      (id : Bytes) (x : CheckpointChange) (s : System P C)
      → IsTaken id x
      → ((apply_change k p c id x s).0 ≡ ok tt)
        × ((apply_change k p c id x s).1.coordinator ≡ s.coordinator)
  unfolding apply_change by_processor
  apply_change-ok id x s h = elim (Bool-cases (eof_sent_kind == x.kind)) [
    | inl e ↦ rw (e, apply_change) (refl, refl)
    | inr e ↦ elim (Bool-cases (finalize_complete_kind == x.kind)) [
      | inl f ↦ rw (e, f, apply_change) (refl, refl)
      | inr f ↦
          rw (e, f, apply_change)
            (elim h [
              | inl y ↦ absurd (ground (arith, e, y))
              | inr y ↦ elim y [
                | inl z ↦ absurd (ground (arith, f, z))
                | inr z ↦ (z s.processor, refl)
              ]
            ])
    ]
  ]

  -- It ends well, in a state with the same coordinator.
  abbrev Ends {κ} : {B : Type κ} → System P C → B → Result B × System P C → Type κ
  Ends s b r = (t : System P C) × ((r ≡ (ok b, t)) × (t.coordinator ≡ s.coordinator))

  apply_changes-ok :
      (id : Bytes) (xs : List CheckpointChange) (s : System P C)
      → All (IsTaken id) xs
      → Ends s tt (apply_changes k p c id xs s)
  unfolding apply_changes
  apply_changes-ok id [] s h = (s, (refl, refl))
  apply_changes-ok id (x ∷ xs) s h =
      let (e, f) = apply_change-ok id x s h.0 in
      let s' = (apply_change k p c id x s).1 in
      let first : apply_change k p c id x s ≡ (ok tt, s') =
        ap (λ (r : Result (Unit {0})). (r, s')) e in
      let (t, (g, same)) = apply_changes-ok id xs s' h.1 in
      (t, (ap (after (λ _. apply_changes k p c id xs)) first ∙ g, same ∙ f))

  module _ (id : Bytes) (Ready : C → Type 0) (w : IsWilling id Ready) where
    record_restored-ok :
        (pairs : List (Bytes × ℕ)) (s : System P C)
        → Ready s.coordinator
        → (t : System P C) × (record_restored k p c id pairs s ≡ (ok tt, t))
    unfolding record_restored by_coordinator
    record_restored-ok [] s h = (s, refl)
    record_restored-ok ((b, n) ∷ pairs) s h =
        let r = c.record_batch id b n 0 s.coordinator in
        let s' = record s { coordinator = r.1 } in
        let (t, e) = record_restored-ok pairs s' (w.stays b n s.coordinator h) in
        (
          t,
          ap (λ (x : Result (Unit {0})). after (λ _. record_restored k p c id pairs) (x, s'))
                (w.records b n s.coordinator h)
              ∙ e,
        )

    -- The batches that a replay has, behind the lines `ls`
    abbrev Replays : Replay → List Bytes → Replay → Type 0
    Replays r ls r' =
        (b : Bytes)
        → truth_of (get r'.batches b)
          ≡ (truth_of (get r.batches b) || contains (logged_batches k ls) b)

    abbrev next : LogEntry → List (Bytes × ℕ) → Replay → Replay
    next e pairs r = record {
      batches = mark_batches e.batches r.batches;
      restored = r.restored ++ pairs;
      last_seq = e.seq;
    }

    replay_entry-ok :
        (e : LogEntry) (pairs : List (Bytes × ℕ)) (r : Replay) (s : System P C)
        → with_counts e.batches e.processed_counts ≡ some pairs
        → All (IsTaken id) e.changes
        → Ends s (next e pairs r) (replay_entry k p c id e r s)
    unfolding replay_entry
    replay_entry-ok e pairs r s h taken =
        let (t, (f, same)) = apply_changes-ok id e.changes s taken in (t, (rw (f, h) refl, same))

    replay_lines-good :
        (l : Bytes) (e : LogEntry) (ls : List Bytes) (r : Replay) (s : System P C)
        → parse_log_line k l ≡ some e
        → replay_lines k p c id (l ∷ ls) r s
          ≡ after (replay_lines k p c id ls) (replay_entry k p c id e r s)
    unfolding replay_lines
    replay_lines-good l e ls r s good = rw (good, replay_lines) refl

    replay_lines-bad :
        (l : Bytes) (ls : List Bytes) (r : Replay) (s : System P C)
        → parse_log_line k l ≡ none
        → replay_lines k p c id (l ∷ ls) r s ≡ (ok r, s)
    unfolding replay_lines
    replay_lines-bad l ls r s bad = rw (bad, replay_lines) refl

    logged_batches-bad :
        (l : Bytes) (ls : List Bytes) → parse_log_line k l ≡ none → logged_batches k (l ∷ ls) ≡ []
    unfolding logged_batches
    logged_batches-bad l ls bad = rw (bad, logged_batches) refl

    replay_lines-ok :
        (ls : List Bytes) (r : Replay) (s : System P C)
        → counts_fit ls ≡ true
        → AreTaken id ls
        → (r' : Replay) × (Ends s r' (replay_lines k p c id ls r s) × Replays r ls r')
    replay_lines-ok [] r s h g =
        (r, ((s, (unfold replay_lines in refl, refl)), λ b. unfold logged_batches in ground arith))
    replay_lines-ok (l ∷ ls) r s h g = elim (Option-cases (parse_log_line k l)) [
      | inl bad ↦ (
        r,
        (
          (s, (replay_lines-bad l ls r s bad, refl)),
          λ b. ground (arith, ap (λ bs. contains bs b) (logged_batches-bad l ls bad)),
        ),
      )
      | inr (e, good) ↦
          let (fit, (pairs, some_pairs)) = counts_fit-line l e ls good h in
          let both : All (IsTaken id) e.changes × AreTaken id ls =
            subst (λ x. x) (AreTaken-line id l e ls good) g in
          let (t, (f, same)) = replay_entry-ok e pairs r s some_pairs both.0 in
          let (r', ((u, (i, same')), v)) = replay_lines-ok ls (next e pairs r) t fit both.1 in
          (
            r',
            (
              (
                u,
                (
                  replay_lines-good l e ls r s good ∙ ap (after (replay_lines k p c id ls)) f ∙ i,
                  same' ∙ same,
                ),
              ),
              λ b. ground (
                arith,
                v b,
                mark_batches-get e.batches r.batches b,
                ap (λ bs. contains bs b) (logged_batches-line k l e ls good),
                contains-append e.batches (logged_batches k ls) b,
              ),
            ),
          )
    ]

    load_log-ok :
        (ls : List Bytes) (r : Replay) (s t u : System P C)
        → replay_lines k p c id ls (record { batches = []; restored = []; last_seq = 0 }) s
          ≡ (ok r, t)
        → record_restored k p c id r.restored t ≡ (ok tt, u)
        → load_log k p c id ls s ≡ (ok tt, install k p c id r u)
    unfolding load_log
    load_log-ok ls r s t u f g = rw (f, g) refl

    load_client_state-log :
        (s : System P C) (ls : List Bytes)
        → get s.logs id ≡ some ls
        → s.outcomes ≡ []
        → load_client_state k p c id s ≡ load_log k p c id ls s
    unfolding load_client_state file_call
    load_client_state-log s ls there fine =
        rw (there, load_client_state) (rw (fine, file_call) refl)

    install-processed :
        (r : Replay) (s : System P C) (b : Bytes)
        → is_processed (install k p c id r s).manager id b ≡ truth_of (get r.batches b)
    unfolding install is_processed
    install-processed r s b =
        ground (arith, get-put s.manager.processed_batches id id r.batches, bytes_beq_iff id id)

    -- Let a log have, in its entries up to the first line that is not taken, a count for each
    -- batch, and only changes of the manager's own kinds or such as the processor takes in every
    -- state; and let the coordinator be in a state from which it records batches of the client,
    -- one after another, without an error. Where no call on the files fails, `loadClientState`
    -- then returns without an error, and the batches that count as processed are those that these
    -- entries name.
    pub load_client_state-processed :
        (s : System P C) (ls : List Bytes)
        → get s.logs id ≡ some ls
        → s.outcomes ≡ []
        → counts_fit ls ≡ true
        → AreTaken id ls
        → Ready s.coordinator
        → let (r, s') = load_client_state k p c id s in
          (r ≡ ok tt)
          × ((b : Bytes) → is_processed s'.manager id b ≡ contains (logged_batches k ls) b)
    load_client_state-processed s ls there fine fit taken ready =
        let (r, ((t, (f, same)), v)) =
          replay_lines-ok ls (record { batches = []; restored = []; last_seq = 0 }) s fit taken in
        let (u, g) = record_restored-ok r.restored t (subst Ready (sym same) ready) in
        let whole = load_client_state-log s ls there fine ∙ load_log-ok ls r s t u f g in
        (
          ap (λ (x : Result (Unit {0}) × System P C). x.0) whole,
          λ b.
              ap (λ (x : Result (Unit {0}) × System P C). is_processed x.1.manager id b) whole
              ∙ install-processed r u b
              ∙ v b
              ∙ (unfold get in refl),
        )
