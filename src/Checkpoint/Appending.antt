-- ===== src/Checkpoint/Appending.antt =====
-- checkpoint_manager.go: what `appendLogEntry` does to the manager, the logs and the acks.
use tp_lavado_dinero.Prelude.{
  ◌≡◌, refl, ap, ◌∙◌, ◌⊎◌, inl, inr, Bool, true, false, List, [], ◌∷◌, ◌++◌, arith, Bytes, bytes_eq,
  Result, ok, err, after,
}
use tp_lavado_dinero.GoMap.{Map, get, put}
use tp_lavado_dinero.Checkpoint.Line.{Codec, log_line}
use tp_lavado_dinero.Checkpoint.Defs.{
  Processor, Coordinator, System, slice_of, append_text, file_call, append_line,
}

module _ {P C : Type 0} where
  -- The manager, the logs and the acks stay.
  pub record Same (s s' : System P C) : Type 0 where
    pub manager : s'.manager ≡ s.manager
    pub logs : s'.logs ≡ s.logs
    pub acked : s'.acked ≡ s.acked

  pub Same-trans : {s t u : System P C} → Same s t → Same t u → Same s u
  Same-trans h g = record {
    manager = g.manager ∙ h.manager;
    logs = g.logs ∙ h.logs;
    acked = g.acked ∙ h.acked;
  }

  -- the logs with one more line for the client `id`
  abbrev pub longer : Bytes → Bytes → System P C → Map Bytes (List Bytes)
  longer id line s = put s.logs id (slice_of (get s.logs id) ++ line ∷ [])

  -- `line` is added, or perhaps not where an error is returned.
  pub record Appends (id line : Bytes) (s : System P C) (r : Result (Unit {0}) × System P C)
      : Type 0 where
    pub manager : r.1.manager ≡ s.manager
    pub acked : r.1.acked ≡ s.acked
    pub logs : (r.1.logs ≡ s.logs) ⊎ (r.1.logs ≡ longer id line s)
    pub when_ok : r.0 ≡ ok tt → r.1.logs ≡ longer id line s

module _ {P C : Type 0} (k : Codec) (p : Processor P) (c : Coordinator C) where
  outcome_quiet :
      (os : List Bool) (s : System P C)
      → s.outcomes ≡ os
      → Same s (file_call k p c (λ (t : System P C). t) s).1
  unfolding file_call
  outcome_quiet [] s e = rw (e, file_call) (record { manager = refl; logs = refl; acked = refl })
  outcome_quiet (true ∷ os) s e =
      rw (e, file_call) (record { manager = refl; logs = refl; acked = refl })
  outcome_quiet (false ∷ os) s e =
      rw (e, file_call) (record { manager = refl; logs = refl; acked = refl })

  pub quiet_call : (s : System P C) → Same s (file_call k p c (λ (t : System P C). t) s).1
  quiet_call s = outcome_quiet s.outcomes s refl

  outcome_write :
      (os : List Bool) (id line : Bytes) (s : System P C)
      → s.outcomes ≡ os
      → Appends id line s (file_call k p c (append_line k p c id line) s)
  unfolding file_call append_line
  outcome_write [] id line s e =
      rw (e, file_call)
        (record { manager = refl; acked = refl; logs = inr refl; when_ok = λ o. refl })
  outcome_write (true ∷ os) id line s e =
      rw (e, file_call)
        (record { manager = refl; acked = refl; logs = inr refl; when_ok = λ o. refl })
  outcome_write (false ∷ os) id line s e =
      rw (e, file_call)
        (record {
          manager = refl;
          acked = refl;
          logs = inl refl;
          when_ok = λ o. absurd (ground (arith, o));
        })

  -- An action that a call without effect of its own stands before.
  quiet_before :
      (id line : Bytes) (s : System P C) (r : Result (Unit {0}) × System P C)
      (m : System P C → Result (Unit {0}) × System P C)
      → Same s r.1
      → ((t : System P C) → Same s t → Appends id line s (m t))
      → Appends id line s (after (λ _. m) r)
  quiet_before id line s (ok _, t) m h next = next t h
  quiet_before id line s (err e, t) m h next = record {
    manager = h.manager;
    acked = h.acked;
    logs = inl h.logs;
    when_ok = λ o. absurd (ground (arith, o));
  }

  -- A call without effect of its own that stands behind one.
  quiet_behind :
      (id line : Bytes) (s : System P C) (r : Result (Unit {0}) × System P C)
      → Appends id line s r
      → Appends id line s (after (λ _. file_call k p c (λ (t : System P C). t)) r)
  quiet_behind id line s (err e, t) h = record {
    manager = h.manager;
    acked = h.acked;
    logs = h.logs;
    when_ok = λ o. absurd (ground (arith, o));
  }
  quiet_behind id line s (ok _, t) h =
      let q = quiet_call t in
      let there = q.logs ∙ h.when_ok refl in
      record {
        manager = q.manager ∙ h.manager;
        acked = q.acked ∙ h.acked;
        logs = inr there;
        when_ok = λ o. there;
      }

  moved :
      (id line : Bytes) (s t : System P C) (r : Result (Unit {0}) × System P C)
      → Same s t
      → Appends id line t r
      → Appends id line s r
  moved id line s t r h a =
      let same : longer id line t ≡ longer id line s =
        ap (λ (m : Map Bytes (List Bytes)). put m id (slice_of (get m id) ++ line ∷ [])) h.logs in
      record {
        manager = a.manager ∙ h.manager;
        acked = a.acked ∙ h.acked;
        logs = elim a.logs [ inl e ↦ inl (e ∙ h.logs) | inr e ↦ inr (e ∙ same) ];
        when_ok = λ o. a.when_ok o ∙ same;
      }

  abbrev idle : System P C → Result (Unit {0}) × System P C
  idle = file_call k p c (λ (t : System P C). t)

  pub append_text-Appends :
      (id text : Bytes) (s : System P C)
      → Appends id (log_line k text) s (append_text k p c id text s)
  unfolding append_text
  append_text-Appends id text s =
      let line : Bytes = log_line k text in
      let write = λ (t : System P C). file_call k p c (append_line k p c id line) t in
      let end' = λ (t : System P C). after (λ (_ : Unit {0}). idle) (write t) in
      let second = λ (t : System P C). after (λ (_ : Unit {0}). end') (idle t) in
      quiet_before id line s (idle s) second (quiet_call s) λ t h.
        quiet_before id line s (idle t) end' (Same-trans h (quiet_call t)) λ v f.
          moved id line s v (end' v) f
            (quiet_behind id line v (write v) (outcome_write v.outcomes id line v refl))
