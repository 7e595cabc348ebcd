-- ===== src/Coordinator/Protocol/Synced.antt =====
-- eofcoordinator.go: the clients in memory and the logs on the disk say the same, and an action with
-- which one client's state is noted in both.
use tp_lavado_dinero.Prelude.{
  ℕ, ◌≡◌, sym, ap, ◌∙◌, subst, inl, inr, true, false, some, Bytes, bytes_eq, bytes_beq_iff, ◌==◌,
  arith, Bool-cases, if◌then◌else◌, All, List,
}
use tp_lavado_dinero.GoMap.{Map, get, put, is_some, or_empty, get-put}
use tp_lavado_dinero.Coordinator.ClientState.{BatchRecord, ClientState}
use tp_lavado_dinero.Coordinator.World.{Files, World, set_client}
use tp_lavado_dinero.Coordinator.Storage.{insert, load_batches, load_eofs, load_flushed}
use tp_lavado_dinero.Coordinator.Storage.Splitting.{IsComplete}
use tp_lavado_dinero.Coordinator.Protocol.Sending.{client_of}
use tp_lavado_dinero.Coordinator.Protocol.Flushing.{client_of-set_client}
use tp_lavado_dinero.Coordinator.Protocol.Restored.{logged}

-- The logs have exactly the own batches and EOFs of the client's state, and its mark only if the
-- state is marked.
pub record Agrees (files : Files) (id : Bytes) (cs : ClientState) : Type 0 where
  pub batches : (b : Bytes) → get cs.own_batches b ≡ logged (load_batches files.batch_log) id b
  pub eofs : (e : Bytes) → get cs.own_eofs e ≡ logged (load_eofs files.eof_log) id e
  pub marked : is_some (get (load_flushed files.flushed_log) id) ≡ true → cs.flushed ≡ true

-- An own batch or an own EOF of a client
pub data Entry : Type 0 where
  batch_entry : (id batch_id : Bytes) → Entry
  eof_entry : (id eof_id : Bytes) → Entry

abbrev pub Logged : Files → Entry → Type 0
Logged files (batch_entry id b) = is_some (logged (load_batches files.batch_log) id b) ≡ true
Logged files (eof_entry id e) = is_some (logged (load_eofs files.eof_log) id e) ≡ true

-- Logs that end with complete lines, and have the `known` entries.
pub record AreComplete (known : List Entry) (files : Files) : Type 0 where
  pub batches : IsComplete files.batch_log
  pub eofs : IsComplete files.eof_log
  pub flushes : IsComplete files.flushed_log
  pub entries : All (Logged files) known

pub record Synced (known : List Entry) (w : World) : Type 0 where
  pub complete : AreComplete known w.files
  pub agree : (id : Bytes) → Agrees w.files id (client_of w id)

pub logged-insert {ℓ} :
    {V : Type ℓ} (m : Map Bytes (Map Bytes V)) (id k j x : Bytes) (v : V)
    → logged (insert m id k v) j x
      ≡ (if id == j then (if k == x then some v else logged m id x) else logged m j x)
unfolding insert
logged-insert m id k j x v =
    let inner = put (or_empty (get m id)) k v in
    ground (arith, get-put m id j inner, get-put (or_empty (get m id)) k x v)

-- A state of the client `id` that the files with `cs` agree with goes into the memory.
pub set-Synced :
    {known : List Entry} (id : Bytes) (cs : ClientState) (w : World) (files : Files)
    → AreComplete known files
    → Agrees files id cs
    → ((j : Bytes) → (id == j) ≡ false → Agrees files j (client_of w j))
    → Synced known (set_client id cs (record w { files = files }))
unfolding set_client
set-Synced id cs w files c a others = record {
  complete = c;
  agree = λ j. elim (Bool-cases (id == j)) [
    | inl e ↦
        let same : id ≡ j = ground (arith, e, bytes_beq_iff id j) in
        subst (λ x. Agrees files j x)
          (sym (
            client_of-set_client id j cs (record w { files = files })
            ∙ ap (λ b. if b then cs else client_of (record w { files = files }) j) e))
          (subst (λ x. Agrees files x cs) same a)
    | inr e ↦
        subst (λ x. Agrees files j x)
          (sym (
            client_of-set_client id j cs (record w { files = files })
            ∙ ap (λ b. if b then cs else client_of (record w { files = files }) j) e))
          (unfold client_of in others j e)
  ];
}

-- A state that differs in what its peers have told, and in a mark that may be new.
pub peers-Synced :
    {known : List Entry} (id : Bytes) (cs : ClientState) (w : World)
    → Synced known w
    → cs.own_batches ≡ (client_of w id).own_batches
    → cs.own_eofs ≡ (client_of w id).own_eofs
    → ((client_of w id).flushed ≡ true → cs.flushed ≡ true)
    → Synced known (set_client id cs w)
peers-Synced id cs w s b e m =
    let a = s.agree id in
    set-Synced id cs w w.files s.complete
      (record {
        batches = λ x. ap (λ (o : Map Bytes BatchRecord). get o x) b ∙ a.batches x;
        eofs = λ x. ap (λ (o : Map Bytes ℕ). get o x) e ∙ a.eofs x;
        marked = λ h. m (a.marked h);
      })
      (λ j other. s.agree j)
