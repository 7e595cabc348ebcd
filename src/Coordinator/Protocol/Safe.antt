-- ===== src/Coordinator/Protocol/Safe.antt =====
-- eofcoordinator.go: operations behind which the memory and the logs say the same, whether or not a
-- call fails in between.
use tp_lavado_dinero.Prelude.{
  ℕ, ◌≡◌, refl, sym, ap, ◌∙◌, subst, Bool, true, false, none, some, List, [], ◌∷◌, Bytes, bytes_eq,
  if◌then◌else◌, Result, ok, err, ◌>>=◌, ◌>>◌, after, modify, pure,
}
use tp_lavado_dinero.GoMap.{Map, get}
use tp_lavado_dinero.Coordinator.ClientState.{ClientState, new_client_state}
use tp_lavado_dinero.Coordinator.World.{
  Message, Files, World, Action, with_outcome, call, send_with_key, set_client,
}
use tp_lavado_dinero.Coordinator.Storage.Operations.{write_flushed}
use tp_lavado_dinero.Coordinator.Storage.RoundTrip.{IsPlain}
use tp_lavado_dinero.Coordinator.Protocol.Sending.{client_of, get_client_state, call_flush_handler}
use tp_lavado_dinero.Coordinator.Protocol.Moving.{Journey, Moves, Moves-call}
use tp_lavado_dinero.Coordinator.Protocol.Settling.{set_client-client_of}
use tp_lavado_dinero.Coordinator.Protocol.Synced.{Entry, Agrees, AreComplete, Synced, peers-Synced}
use tp_lavado_dinero.Coordinator.Protocol.Written.{flush-Synced}

-- Neither the clients nor the files change.
abbrev pub Still : World → World → Type 0
Still v w = (w.clients ≡ v.clients) × (w.files ≡ v.files)

pub Still-Journey : Journey Still
Still-Journey = record {
  stay = λ w. (refl, refl);
  join = λ p q. (q.0 ∙ p.0, q.1 ∙ p.1);
  spend = λ w b os e. (refl, refl);
}

pub Still-send_with_key : (key : Bytes) (msg : Message) → Moves Still (send_with_key key msg)
unfolding send_with_key
Still-send_with_key key msg = Moves-call Still Still-Journey _ (λ v. (refl, refl))

pub Still-call_flush_handler :
    (id : Bytes) (n : ℕ) (eof_id : Bytes) → Moves Still (call_flush_handler id n eof_id)
unfolding call_flush_handler
Still-call_flush_handler id n eof_id = Moves-call Still Still-Journey _ (λ v. (refl, refl))

Still-client_of : (v w : World) (id : Bytes) → Still v w → client_of w id ≡ client_of v id
unfolding client_of
Still-client_of v w id s =
    ap (λ (m : Map Bytes ClientState). elim (get m id) [ none ↦ new_client_state | some cs ↦ cs ])
      s.0

pub Still-Synced : {known : List Entry} (v w : World) → Still v w → Synced known v → Synced known w
Still-Synced {known = known} v w s h = record {
  complete = subst (AreComplete known) (sym s.1) h.complete;
  agree = λ id.
      subst (λ cs. Agrees w.files id cs) (sym (Still-client_of v w id s))
        (subst (λ (f : Files). Agrees f id (client_of v id)) (sym s.1) (h.agree id));
}

module _ (known : List Entry) (id : Bytes) where
  -- Where the memory has `cs` for the client and agrees with the logs, it agrees behind the action.
  pub record Safe (cs : ClientState) (m : Action) : Type 0 where
    pub at : (w : World) → client_of w id ≡ cs → Synced known w → Synced known (m w).1

  pub Safe-done : (cs : ClientState) → Safe cs (pure tt)
  Safe-done cs = record { at = λ w e s. s }

  after-Safe :
      (cs : ClientState) (k : Action) (r : Result (Unit {0}) × World)
      → Safe cs k
      → client_of r.1 id ≡ cs
      → Synced known r.1
      → Synced known (after (λ _. k) r).1
  after-Safe cs k (ok _, w) h e s = h.at w e s
  after-Safe cs k (err x, w) h e s = s

  pub Safe-then : (cs : ClientState) (m k : Action) → Moves Still m → Safe cs k → Safe cs (m >> k)
  Safe-then cs m k q h = record {
    at = λ w e s.
        after-Safe cs k (m w) h (Still-client_of w (m w).1 id (q.at w) ∙ e)
          (Still-Synced w (m w).1 (q.at w) s);
  }

  pub Safe-set :
      (cs cs' : ClientState) (k : Action)
      → ((w : World) → client_of w id ≡ cs → Synced known w → Synced known (set_client id cs' w))
      → Safe cs' k
      → Safe cs (modify (set_client id cs') >> k)
  Safe-set cs cs' k p h = record {
    at = λ w e s. h.at (set_client id cs' w) (set_client-client_of id cs' w) (p w e s);
  }

  -- A write whose success is noted in memory
  with_outcome-Safe :
      (os : List Bool) (f : World → World) (cs cs' : ClientState) (k : Action) (w : World)
      → ((v : World)
          → client_of v id ≡ cs
          → Synced known v
          → Synced known (set_client id cs' (f v)))
      → Safe cs' k
      → client_of w id ≡ cs
      → Synced known w
      → Synced known (after (λ _. modify (set_client id cs') >> k) (with_outcome os f w)).1
  unfolding client_of
  with_outcome-Safe [] f cs cs' k w p h e s =
      h.at (set_client id cs' (f w)) (set_client-client_of id cs' (f w)) (p w e s)
  with_outcome-Safe (true ∷ os) f cs cs' k w p h e s =
      let v = record w { outcomes = os } in
      h.at (set_client id cs' (f v)) (set_client-client_of id cs' (f v))
        (p v e (Still-Synced w v (refl, refl) s))
  with_outcome-Safe (false ∷ os) f cs cs' k w p h e s =
      Still-Synced w (record w { outcomes = os }) (refl, refl) s

  pub Safe-write :
      (f : World → World) (cs cs' : ClientState) (k : Action)
      → ((v : World)
          → client_of v id ≡ cs
          → Synced known v
          → Synced known (set_client id cs' (f v)))
      → Safe cs' k
      → Safe cs (call f >> (modify (set_client id cs') >> k))
  unfolding call
  Safe-write f cs cs' k p h = record {
    at = λ w e s. with_outcome-Safe w.outcomes f cs cs' k w p h e s;
  }

  with_outcome-Synced :
      (os : List Bool) (f : World → World) (cs : ClientState) (w : World)
      → ((v : World) → client_of v id ≡ cs → Synced known v → Synced known (f v))
      → client_of w id ≡ cs
      → Synced known w
      → Synced known (with_outcome os f w).1
  unfolding client_of
  with_outcome-Synced [] f cs w p e s = p w e s
  with_outcome-Synced (true ∷ os) f cs w p e s =
      p (record w { outcomes = os }) e (Still-Synced w (record w { outcomes = os }) (refl, refl) s)
  with_outcome-Synced (false ∷ os) f cs w p e s =
      Still-Synced w (record w { outcomes = os }) (refl, refl) s

  pub Safe-write_flushed :
      (cs : ClientState) → IsPlain id → cs.flushed ≡ true → Safe cs (write_flushed id)
  unfolding write_flushed call
  Safe-write_flushed cs pc m = record {
    at = λ w e s.
        with_outcome-Synced w.outcomes _ cs w
          (λ v e' s'. flush-Synced id v s' pc (ap (λ (x : ClientState). x.flushed) e' ∙ m)) e s;
  }

  -- An action on the client's state as it is found
  pub Safe-found :
      (k : ClientState → Action) (w : World)
      → Safe (client_of w id) (k (client_of w id))
      → Synced known w
      → Synced known ((get_client_state id >>= k) w).1
  unfolding get_client_state
  Safe-found k w h s =
      let cs = client_of w id in
      h.at (set_client id cs w) (set_client-client_of id cs w)
        (peers-Synced id cs w s refl refl (λ m. m))

  pub Safe-if :
      (cs : ClientState) (b : Bool) (m : Action) → Safe cs m → Safe cs (if b then pure tt else m)
  Safe-if cs true m h = Safe-done cs
  Safe-if cs false m h = h
