-- ===== src/Coordinator/Protocol/Keeping.antt =====
-- Actions that keep a property of one client's state, or have it when they return no error.
use tp_lavado_dinero.Prelude.{
  ℕ, ◌≡◌, refl, sym, ap, ◌∙◌, subst, inl, inr, Bool, true, false, none, some, List, [], ◌∷◌, Bytes,
  bytes_eq, bytes_beq_iff, ◌==◌, arith, Bool-cases, if◌then◌else◌, Result, ok, err, ◌>>=◌, ◌>>◌,
  after, modify, pure,
}
use tp_lavado_dinero.GoMap.{Map, get}
use tp_lavado_dinero.Coordinator.ClientState.{
  ClientState, is_ready_to_flush, totals, new_client_state,
}
use tp_lavado_dinero.Coordinator.World.{World, Action, with_outcome, call, set_client}
use tp_lavado_dinero.Coordinator.Storage.Operations.{write_flushed}
use tp_lavado_dinero.Coordinator.Protocol.Sending.{
  Config, client_of, get_client_state, call_flush_handler,
}
use tp_lavado_dinero.Coordinator.Protocol.Defs.{try_flush}
use tp_lavado_dinero.Coordinator.Protocol.Quiet.{Quiet, Quiet-write_flushed}
use tp_lavado_dinero.Coordinator.Protocol.Flushing.{client_of-SameCore, client_of-set_client}

module _ (id : Bytes) (P : ClientState → Type 0) where
  -- An action that keeps `P` of the client's state, and one that has it when it returns no error.
  pub record Keeps (m : Action) : Type 0 where
    pub at : (w : World) → P (client_of w id) → P (client_of (m w).1 id)

  pub record Makes (m : Action) : Type 0 where
    pub at : (w : World) → (m w).0 ≡ ok tt → P (client_of (m w).1 id)

  pub Keeps-Quiet : (m : Action) → Quiet m → Keeps m
  Keeps-Quiet m q = record {
    at = λ w p. subst P (sym (client_of-SameCore w (m w).1 id (q.at w))) p;
  }

  after-Keeps :
      (k : Action) (r : Result (Unit {0}) × World)
      → Keeps k
      → P (client_of r.1 id)
      → P (client_of (after (λ _. k) r).1 id)
  after-Keeps k (ok _, w) h p = h.at w p
  after-Keeps k (err e, w) h p = p

  pub Keeps-then : (m k : Action) → Keeps m → Keeps k → Keeps (m >> k)
  Keeps-then m k f g = record { at = λ w p. after-Keeps k (m w) g (f.at w p) }

  after-Makes :
      (k : Action) (r : Result (Unit {0}) × World)
      → Makes k
      → (after (λ _. k) r).0 ≡ ok tt
      → P (client_of (after (λ _. k) r).1 id)
  after-Makes k (ok _, w) h e = h.at w e
  after-Makes k (err x, w) h e = absurd (ground (arith, e))

  pub Makes-then : (m k : Action) → Makes k → Makes (m >> k)
  Makes-then m k g = record { at = λ w e. after-Makes k (m w) g e }

  pub set-P : (cs : ClientState) (w : World) → P cs → P (client_of (set_client id cs w) id)
  set-P cs w p =
      let same : (id == id) ≡ true = ground (arith, bytes_beq_iff id id) in
      subst P
        (sym (client_of-set_client id id cs w ∙ ap (λ b. if b then cs else client_of w id) same)) p

  pub Makes-set :
      (cs : ClientState) (k : Action) → P cs → Keeps k → Makes (modify (set_client id cs) >> k)
  Makes-set cs k p g = record { at = λ w e. g.at (set_client id cs w) (set-P cs w p) }

  Keeps-set : (cs : ClientState) → P cs → Keeps (modify (set_client id cs))
  Keeps-set cs p = record { at = λ w _. set-P cs w p }

  with_outcome_clients :
      (os : List Bool) (f : World → World) (w : World)
      → ((v : World) → (f v).clients ≡ v.clients)
      → (with_outcome os f w).1.clients ≡ w.clients
  with_outcome_clients [] f w h = h w
  with_outcome_clients (true ∷ os) f w h = h (record w { outcomes = os })
  with_outcome_clients (false ∷ os) f w h = refl

  Keeps-call_flush_handler : (n : ℕ) (eof_id : Bytes) → Keeps (call_flush_handler id n eof_id)
  unfolding call_flush_handler call client_of
  Keeps-call_flush_handler n eof_id = record {
    at = λ w p.
        subst
          (λ (m : Map Bytes ClientState).
            P (elim (get m id) [ none ↦ new_client_state | some cs ↦ cs ]))
          (sym (with_outcome_clients w.outcomes _ w (λ v. refl))) p;
  }

  pub Keeps-try_flush :
      (c : Config) (cs : ClientState) → P (record cs { flushed = true }) → Keeps (try_flush c id cs)
  unfolding try_flush
  Keeps-try_flush c cs p = elim (Bool-cases (is_ready_to_flush cs c.expected_eofs)) [
    | inl yes' ↦
        rw (yes', try_flush)
          (Keeps-then (call_flush_handler id (totals cs).1 cs.last_eof_id) _
            (Keeps-call_flush_handler (totals cs).1 cs.last_eof_id)
            (Keeps-then (modify (set_client id (record cs { flushed = true }))) (write_flushed id)
              (Keeps-set (record cs { flushed = true }) p)
              (Keeps-Quiet (write_flushed id) (Quiet-write_flushed id))))
    | inr no' ↦ rw (no', try_flush) (record { at = λ w q. q })
  ]

module _ (id : Bytes) (P : ClientState → Type 0) where
  branch :
      (b : Bool) (m : Action) (v : World)
      → (b ≡ true → P (client_of v id))
      → Makes id P m
      → ((if b then pure tt else m) v).0 ≡ ok tt
      → P (client_of ((if b then pure tt else m) v).1 id)
  branch true m v p h e = p refl
  branch false m v p h e = h.at v e

  -- An operation that does nothing where the client's state passes a test.
  pub noted_already :
      (test : ClientState → Bool) (m : ClientState → Action) (w : World)
      → (test (client_of w id) ≡ true → P (client_of w id))
      → Makes id P (m (client_of w id))
      → let r = (get_client_state id >>= (λ x. if test x then pure tt else m x)) w in
        r.0 ≡ ok tt → P (client_of r.1 id)
  unfolding get_client_state
  noted_already test m w p h e =
      let cs = client_of w id in
      branch (test cs) (m cs) (set_client id cs w) (λ t. set-P id P cs w (p t)) h e
