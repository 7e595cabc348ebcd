-- ===== src/Coordinator/Protocol/Flushing.antt =====
-- When a coordinator calls its flush handler: once the barrier of a client opens, and not again.
use tp_lavado_dinero.Prelude.{
  ℕ, ◌≡◌, ◌≢◌, length, refl, sym, ap, ◌∙◌, ◌⊎◌, inl, inr, Bool, true, false, none, some, List, [],
  ◌∷◌, ◌++◌, Bytes, bytes_eq, bytes_beq_iff, ◌==◌, arith, Bool-cases, if◌then◌else◌, Result, ok,
  err, ◌>>◌, after, modify,
}
use tp_lavado_dinero.GoMap.{Map, get, get-put}
use tp_lavado_dinero.Coordinator.ClientState.{
  ClientState, is_ready_to_flush, totals, new_client_state,
}
use tp_lavado_dinero.Coordinator.World.{World, Action, Flush, with_outcome, call, set_client}
use tp_lavado_dinero.Coordinator.Storage.Operations.{write_flushed}
use tp_lavado_dinero.Coordinator.Protocol.Sending.{Config, client_of, call_flush_handler}
use tp_lavado_dinero.Coordinator.Protocol.Defs.{try_flush}
use tp_lavado_dinero.Coordinator.Protocol.Quiet.{
  SameCore, SameCore-refl, Quiet, Quiet-write_flushed,
}

-- Whether the flush handler has been called for a client.
abbrev pub is_flushed : World → Bytes → Bool
is_flushed w id = (client_of w id).flushed

-- No flush: the marks of all clients stay.
pub record Unflushed (v w : World) : Type 0 where
  pub flushes : w.flushes ≡ v.flushes
  pub marks : (id : Bytes) → is_flushed w id ≡ is_flushed v id

abbrev pub flush_of : Bytes → ClientState → Flush
flush_of client cs = record {
  client_id = client;
  survivors = (totals cs).1;
  eof_id = cs.last_eof_id;
}

-- One flush, of a client whose barrier is open and that was not marked: it gets its mark, the handler
-- its survivors and its last EOF.
pub record Flushed (expected_eofs : ℕ) (v w : World) : Type 0 where
  pub client : Bytes
  pub state : ClientState
  pub ready : is_ready_to_flush state expected_eofs ≡ true
  pub unmarked : is_flushed v client ≡ false
  pub now : client_of w client ≡ record state { flushed = true }
  pub flushes : w.flushes ≡ v.flushes ++ flush_of client state ∷ []
  pub marks : (id : Bytes) → id ≢ client → is_flushed w id ≡ is_flushed v id

abbrev pub Change : ℕ → World → World → Type 0
Change expected_eofs v w = Unflushed v w ⊎ Flushed expected_eofs v w

pub Unflushed-refl : (w : World) → Unflushed w w
Unflushed-refl w = record { flushes = refl; marks = λ id. refl }

pub client_of-SameCore : (v w : World) (id : Bytes) → SameCore v w → client_of w id ≡ client_of v id
unfolding client_of
client_of-SameCore v w id s =
    ap (λ (m : Map Bytes ClientState). elim (get m id) [ none ↦ new_client_state | some cs ↦ cs ])
      s.clients

pub SameCore-Unflushed : (v w : World) → SameCore v w → Unflushed v w
SameCore-Unflushed v w s = record {
  flushes = s.flushes;
  marks = λ id. ap (λ (cs : ClientState). cs.flushed) (client_of-SameCore v w id s);
}

pub Change-after : (n : ℕ) (u v w : World) → Unflushed u v → Change n v w → Change n u w
Change-after n u v w s (inl t) =
    inl (record { flushes = t.flushes ∙ s.flushes; marks = λ id. t.marks id ∙ s.marks id })
Change-after n u v w s (inr t) = inr (record {
  client = t.client;
  state = t.state;
  ready = t.ready;
  unmarked = sym (s.marks t.client) ∙ t.unmarked;
  now = t.now;
  flushes = t.flushes ∙ ap (λ fs. fs ++ flush_of t.client t.state ∷ []) s.flushes;
  marks = λ id ne. t.marks id ne ∙ s.marks id;
})

-- Writing a client's state
pub client_of-set_client :
    (id j : Bytes) (cs : ClientState) (w : World)
    → client_of (set_client id cs w) j ≡ (if id == j then cs else client_of w j)
unfolding client_of set_client
client_of-set_client id j cs w = ground (arith, get-put w.clients id j cs)

pub set_client-Unflushed :
    (id : Bytes) (cs : ClientState) (w : World)
    → cs.flushed ≡ is_flushed w id
    → Unflushed w (set_client id cs w)
set_client-Unflushed id cs w e = record {
  flushes = unfold set_client in refl;
  marks = λ j. ground (arith, client_of-set_client id j cs w, bytes_beq_iff id j);
}

-- `m`, run where `cs` is the state of the client, flushes at most that client, and only if ready.
pub record Tries (n : ℕ) (id : Bytes) (cs : ClientState) (m : Action) : Type 0 where
  pub at : (w : World) → client_of w id ≡ cs → Change n w (m w).1

module _ (n : ℕ) (id : Bytes) (cs : ClientState) where
  pub Tries-done : Tries n id cs (λ w. (ok tt, w))
  Tries-done = record { at = λ w e. inl (Unflushed-refl w) }

  pub Tries-if :
      (b : Bool) (m k : Action)
      → Tries n id cs m
      → Tries n id cs k
      → Tries n id cs (if b then m else k)
  Tries-if true m k hm hk = hm
  Tries-if false m k hm hk = hk

  after-Tries :
      (k : Action) (v : World) (r : Result (Unit {0}) × World)
      → SameCore v r.1
      → client_of v id ≡ cs
      → Tries n id cs k
      → Change n v (after (λ _. k) r).1
  after-Tries k v (ok a, w) s e t =
      Change-after n v w _ (SameCore-Unflushed v w s) (t.at w (client_of-SameCore v w id s ∙ e))
  after-Tries k v (err x, w) s e t = inl (SameCore-Unflushed v w s)

  pub Tries-Quiet : (m k : Action) → Quiet m → Tries n id cs k → Tries n id cs (m >> k)
  Tries-Quiet m k q t = record { at = λ w e. after-Tries k w (m w) (q.at w) e t }

  pub Tries-set :
      (cs' : ClientState) (k : Action)
      → cs'.flushed ≡ cs.flushed
      → Tries n id cs' k
      → Tries n id cs (modify (set_client id cs') >> k)
  Tries-set cs' k f t = record {
    at = λ w e.
        Change-after n w (set_client id cs' w) _
          (set_client-Unflushed id cs' w (f ∙ ap (λ (x : ClientState). x.flushed) (sym e)))
          (t.at (set_client id cs' w)
            (ground (arith, client_of-set_client id id cs' w, bytes_beq_iff id id)));
  }

Flushed-then : (n : ℕ) (u v w : World) → Flushed n u v → SameCore v w → Flushed n u w
Flushed-then n u v w t s = record {
  client = t.client;
  state = t.state;
  ready = t.ready;
  unmarked = t.unmarked;
  now = client_of-SameCore v w t.client s ∙ t.now;
  flushes = s.flushes ∙ t.flushes;
  marks =
      λ id ne. ap (λ (cs : ClientState). cs.flushed) (client_of-SameCore v w id s) ∙ t.marks id ne;
}

ready-unmarked : (cs : ClientState) (n : ℕ) → is_ready_to_flush cs n ≡ true → cs.flushed ≡ false
unfolding is_ready_to_flush
ready-unmarked cs n h = ground arith

-- The world when the handler has returned and the mark is set.
abbrev marked : Bytes → ClientState → World → World
marked id cs w =
    set_client id (record cs { flushed = true })
      (record w { flushes = w.flushes ++ flush_of id cs ∷ [] })

marked-Flushed :
    (n : ℕ) (id : Bytes) (cs : ClientState) (v w : World)
    → is_ready_to_flush cs n ≡ true
    → client_of v id ≡ cs
    → SameCore v w
    → Flushed n v (marked id cs w)
marked-Flushed n id cs v w h e s =
    let w' = record w { flushes = w.flushes ++ flush_of id cs ∷ [] } in
    record {
      client = id;
      state = cs;
      ready = h;
      unmarked = ap (λ (x : ClientState). x.flushed) e ∙ ready-unmarked cs n h;
      now = ground (
        arith,
        client_of-set_client id id (record cs { flushed = true }) w',
        bytes_beq_iff id id,
      );
      flushes = unfold set_client in ap (λ fs. fs ++ flush_of id cs ∷ []) s.flushes;
      marks = λ j ne.
          let same : client_of w' j ≡ client_of v j =
            (unfold client_of in client_of-SameCore v w j s) in
          ground (
            arith,
            client_of-set_client id j (record cs { flushed = true }) w',
            bytes_beq_iff id j,
            same,
          );
    }

handler_returns :
    (n : ℕ) (id : Bytes) (cs : ClientState) (v : World) (os : List Bool) (w : World)
    → w.outcomes ≡ os
    → is_ready_to_flush cs n ≡ true
    → client_of v id ≡ cs
    → SameCore v w
    → Change n v
        (after
          (λ _. modify (set_client id (record cs { flushed = true })) >> write_flushed id)
          (with_outcome os (λ x. record x { flushes = x.flushes ++ flush_of id cs ∷ [] }) w)).1
handler_returns n id cs v [] w o h e s = inr (
    Flushed-then n v (marked id cs w) _ (marked-Flushed n id cs v w h e s)
      ((Quiet-write_flushed id).at (marked id cs w)))
handler_returns n id cs v (true ∷ os) w o h e s =
    let w' = record w { outcomes = os } in
    let s' : SameCore v w' = record {
      clients = s.clients;
      cleaned = s.cleaned;
      flushes = s.flushes;
      spent = omega (arith, s.spent, ap length o);
    } in
    inr (
      Flushed-then n v (marked id cs w') _ (marked-Flushed n id cs v w' h e s')
        ((Quiet-write_flushed id).at (marked id cs w')))
handler_returns n id cs v (false ∷ os) w o h e s =
    let t = SameCore-Unflushed v w s in
    inl (record { flushes = t.flushes; marks = unfold client_of in t.marks })

module _ (c : Config) where
  pub try_flush-Tries :
      (id : Bytes) (cs : ClientState) → Tries c.expected_eofs id cs (try_flush c id cs)
  unfolding try_flush call_flush_handler call
  try_flush-Tries id cs = elim (Bool-cases (is_ready_to_flush cs c.expected_eofs)) [
    | inl h ↦ record {
      at = λ w e.
          rw h (handler_returns c.expected_eofs id cs w w.outcomes w refl h e (SameCore-refl w));
    }
    | inr h ↦ rw h (Tries-done c.expected_eofs id cs)
  ]
