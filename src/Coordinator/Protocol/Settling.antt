-- ===== src/Coordinator/Protocol/Settling.antt =====
-- eofcoordinator.go: what an action does to the flushes and to one client where no call fails.
use tp_lavado_dinero.Prelude.{
  ℕ, ◌≡◌, ◌≢◌, none, some, refl, ap, ◌∙◌, Bool, true, false, List, [], ◌∷◌, Bytes, bytes_eq,
  bytes_beq_iff, arith, if◌then◌else◌, Result, ok, ◌>>◌, modify,
}
use tp_lavado_dinero.GoMap.{Map, get}
use tp_lavado_dinero.Coordinator.ClientState.{new_client_state, ClientState, is_ready_to_flush}
use tp_lavado_dinero.Coordinator.World.{World, Action, with_outcome, call, set_client}
use tp_lavado_dinero.Coordinator.Storage.Operations.{write_flushed}
use tp_lavado_dinero.Coordinator.Protocol.Sending.{client_of, call_flush_handler}
use tp_lavado_dinero.Coordinator.Protocol.Quiet.{Quiet, Quiet-write_flushed}
use tp_lavado_dinero.Coordinator.Protocol.Fine.{Fine, after-Fine, Fine-write_flushed}
use tp_lavado_dinero.Coordinator.Protocol.Flushing.{client_of-SameCore, client_of-set_client}

-- From `w` on: the result is no error, no call has failed, the client is not left ready and
-- unflushed, and the other clients keep their states.
pub record Settled (n : ℕ) (id : Bytes) (w : World) (r : Result (Unit {0}) × World) : Type 0 where
  pub returned : r.0 ≡ ok tt
  pub outcomes : r.1.outcomes ≡ []
  pub calm : is_ready_to_flush (client_of r.1 id) n ≡ false
  pub others : (j : Bytes) → j ≢ id → client_of r.1 j ≡ client_of w j

-- `m`, run where `cs` is the state of the client and no call fails, settles that client.
pub record Settles (n : ℕ) (id : Bytes) (cs : ClientState) (m : Action) : Type 0 where
  pub at : (w : World) → w.outcomes ≡ [] → client_of w id ≡ cs → Settled n id w (m w)

pub Settled-before :
    (n : ℕ) (id : Bytes) (v w : World) (r : Result (Unit {0}) × World)
    → ((j : Bytes) → j ≢ id → client_of w j ≡ client_of v j)
    → Settled n id w r
    → Settled n id v r
Settled-before n id v w r h s = record {
  returned = s.returned;
  outcomes = s.outcomes;
  calm = s.calm;
  others = λ j ne. s.others j ne ∙ h j ne;
}

pub set_client-client_of :
    (id : Bytes) (cs : ClientState) (w : World) → client_of (set_client id cs w) id ≡ cs
set_client-client_of id cs w = ground (arith, client_of-set_client id id cs w, bytes_beq_iff id id)

pub set_client-others :
    (id : Bytes) (cs : ClientState) (w : World) (j : Bytes)
    → j ≢ id
    → client_of (set_client id cs w) j ≡ client_of w j
set_client-others id cs w j ne = ground (arith, client_of-set_client id j cs w, bytes_beq_iff id j)

module _ (n : ℕ) (id : Bytes) (cs : ClientState) where
  pub Settles-done : is_ready_to_flush cs n ≡ false → Settles n id cs (λ w. (ok tt, w))
  Settles-done h = record {
    at = λ w e s. record {
      returned = refl;
      outcomes = e;
      calm = ap (λ (x : ClientState). is_ready_to_flush x n) s ∙ h;
      others = λ j ne. refl;
    };
  }

  pub Settles-if :
      (b : Bool) (m k : Action)
      → Settles n id cs m
      → Settles n id cs k
      → Settles n id cs (if b then m else k)
  Settles-if true m k hm hk = hm
  Settles-if false m k hm hk = hk

  pub Settles-then :
      (m k : Action) → Fine m → Quiet m → Settles n id cs k → Settles n id cs (m >> k)
  Settles-then m k f q h = record {
    at = λ w e s.
        let same : client_of (m w).1 id ≡ cs = client_of-SameCore w (m w).1 id (q.at w) ∙ s in
        rw (after-Fine m k w f e) (
          Settled-before n id w (m w).1 (k (m w).1)
            (λ j ne. client_of-SameCore w (m w).1 j (q.at w)) (h.at (m w).1 (f.at w e).1 same));
  }

  pub Settles-set :
      (cs' : ClientState) (k : Action)
      → Settles n id cs' k
      → Settles n id cs (modify (set_client id cs') >> k)
  Settles-set cs' k h = record {
    at = λ w e s.
        Settled-before n id w (set_client id cs' w) (k (set_client id cs' w))
          (set_client-others id cs' w)
          (h.at (set_client id cs' w) (unfold set_client in e) (set_client-client_of id cs' w));
  }

flushed_calm :
    (cs : ClientState) (n : ℕ) → is_ready_to_flush (record cs { flushed = true }) n ≡ false
unfolding is_ready_to_flush
flushed_calm cs n = refl

pub flush_settles :
    (n : ℕ) (id : Bytes) (cs : ClientState) (v : World)
    → v.outcomes ≡ []
    → Settled n id v ((modify (set_client id (record cs { flushed = true })) >> write_flushed id) v)
flush_settles n id cs v e =
    let cs' = record cs { flushed = true } in
    let v' = set_client id cs' v in
    record {
      returned = ((Fine-write_flushed id).at v' (unfold set_client in e)).0;
      outcomes = ((Fine-write_flushed id).at v' (unfold set_client in e)).1;
      calm =
          ap (λ (x : ClientState). is_ready_to_flush x n)
            (client_of-SameCore v' _ id ((Quiet-write_flushed id).at v')
              ∙ set_client-client_of id cs' v)
          ∙ flushed_calm cs n;
      others = λ j ne.
          client_of-SameCore v' _ j ((Quiet-write_flushed id).at v')
          ∙ set_client-others id cs' v j ne;
    }

handler-clients :
    (os : List Bool) (f : World → World) (w : World)
    → ((v : World) → (f v).clients ≡ v.clients)
    → (with_outcome os f w).1.clients ≡ w.clients
handler-clients [] f w h = h w
handler-clients (true ∷ os) f w h = h (record w { outcomes = os })
handler-clients (false ∷ os) f w h = refl

pub call_flush_handler-client_of :
    (id : Bytes) (n : ℕ) (eof_id : Bytes) (w : World) (j : Bytes)
    → client_of (call_flush_handler id n eof_id w).1 j ≡ client_of w j
unfolding client_of call_flush_handler call
call_flush_handler-client_of id n eof_id w j =
    ap (λ (m : Map Bytes ClientState). elim (get m j) [ none ↦ new_client_state | some cs ↦ cs ])
      (handler-clients w.outcomes _ w (λ v. refl))
