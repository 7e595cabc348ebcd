-- ===== src/Coordinator/Protocol/Restored.antt =====
-- eofcoordinator.go: what the loops of `restoreFromStorage` leave in the clients.
use tp_lavado_dinero.Prelude.{
  ℕ, ◌≡◌, refl, Bool, true, ◌||◌, Option, none, some, [], ◌∷◌, arith, Bytes, bytes_eq,
  bytes_beq_iff, Distinct, All,
}
use tp_lavado_dinero.GoMap.{Map, get, keys, is_some, or_empty, is_some-get, get-put}
use tp_lavado_dinero.Coordinator.ClientState.{
  BatchRecord, ClientState, add_own_batch, add_own_eof, get_last_eof_id,
}
use tp_lavado_dinero.Coordinator.World.{World, set_client}
use tp_lavado_dinero.Coordinator.Storage.{BatchLog, EofLog}
use tp_lavado_dinero.Coordinator.Protocol.Sending.{client_of}
use tp_lavado_dinero.Coordinator.Protocol.Flushing.{client_of-set_client}
use tp_lavado_dinero.Coordinator.Protocol.Restore.{
  restore_client_batches, restore_batches, restore_client_eofs, restore_eofs, restore_flushed,
}

-- What the log has under the name `b` of the client `id`.
abbrev pub logged {ℓ} : {V : Type ℓ} → Map Bytes (Map Bytes V) → Bytes → Bytes → Option V
logged log id b = get (or_empty (get log id)) b

abbrev pub or_else {ℓ} : {A : Type ℓ} → Option A → Option A → Option A
or_else none d = d
or_else (some a) d = some a

-- A log of records: each under its own name, no name twice.
pub record IsRecords (m : Map Bytes BatchRecord) : Type 0 where
  pub distinct : Distinct (keys m)
  pub named : All (λ e. e.1.batch_id ≡ e.0) m

restore_client_batches-get :
    (m : Map Bytes BatchRecord) (cs : ClientState) (b : Bytes)
    → Distinct (keys m)
    → All (λ e. e.1.batch_id ≡ e.0) m
    → get (restore_client_batches m cs).own_batches b ≡ or_else (get m b) (get cs.own_batches b)
unfolding restore_client_batches add_own_batch keys get
restore_client_batches-get [] cs b d n = refl
restore_client_batches-get ((k, r) ∷ m) cs b d n = ground (
  arith,
  restore_client_batches-get m (add_own_batch cs r) b d.1 n.1,
  get-put cs.own_batches r.batch_id b r,
  is_some-get m k,
  bytes_beq_iff k b,
  bytes_beq_iff r.batch_id b,
  d.0,
  n.0,
)

restore_client_batches-rest :
    (m : Map Bytes BatchRecord) (cs : ClientState)
    → ((restore_client_batches m cs).own_eofs ≡ cs.own_eofs)
      × ((restore_client_batches m cs).flushed ≡ cs.flushed)
unfolding restore_client_batches add_own_batch
restore_client_batches-rest [] cs = (refl, refl)
restore_client_batches-rest ((k, r) ∷ m) cs = restore_client_batches-rest m (add_own_batch cs r)

pub restore_batches-own_batches :
    (log : BatchLog) (w : World) (id b : Bytes)
    → Distinct (keys log)
    → All (λ e. IsRecords e.1) log
    → get (client_of (restore_batches log w) id).own_batches b
      ≡ or_else (logged log id b) (get (client_of w id).own_batches b)
unfolding restore_batches keys get
restore_batches-own_batches [] w id b d h = refl
restore_batches-own_batches ((k, m) ∷ log) w id b d h =
    let cs = restore_client_batches m (client_of w k) in
    let rest = restore_batches-own_batches log (set_client k cs w) id b d.1 h.1 in
    ground (
      arith,
      rest,
      client_of-set_client k id cs w,
      restore_client_batches-get m (client_of w k) b h.0.distinct h.0.named,
      is_some-get log k,
      bytes_beq_iff k id,
      d.0,
    )

pub restore_batches-flushed :
    (log : BatchLog) (w : World) (id : Bytes)
    → (client_of (restore_batches log w) id).flushed ≡ (client_of w id).flushed
unfolding restore_batches
restore_batches-flushed [] w id = refl
restore_batches-flushed ((k, m) ∷ log) w id =
    let cs = restore_client_batches m (client_of w k) in
    ground (
      arith,
      restore_batches-flushed log (set_client k cs w) id,
      client_of-set_client k id cs w,
      restore_client_batches-rest m (client_of w k),
      bytes_beq_iff k id,
    )

pub restore_batches-own_eofs :
    (log : BatchLog) (w : World) (id : Bytes)
    → (client_of (restore_batches log w) id).own_eofs ≡ (client_of w id).own_eofs
unfolding restore_batches
restore_batches-own_eofs [] w id = refl
restore_batches-own_eofs ((k, m) ∷ log) w id =
    let cs = restore_client_batches m (client_of w k) in
    ground (
      arith,
      restore_batches-own_eofs log (set_client k cs w) id,
      client_of-set_client k id cs w,
      restore_client_batches-rest m (client_of w k),
      bytes_beq_iff k id,
    )

restore_client_eofs-get :
    (m : Map Bytes ℕ) (cs : ClientState) (b : Bytes)
    → Distinct (keys m)
    → get (restore_client_eofs m cs).own_eofs b ≡ or_else (get m b) (get cs.own_eofs b)
unfolding restore_client_eofs add_own_eof get_last_eof_id keys get
restore_client_eofs-get [] cs b d = refl
restore_client_eofs-get ((k, n) ∷ m) cs b d = ground (
  arith,
  restore_client_eofs-get m (add_own_eof cs k n) b d.1,
  get-put cs.own_eofs k b n,
  is_some-get m k,
  bytes_beq_iff k b,
  d.0,
)

restore_client_eofs-rest :
    (m : Map Bytes ℕ) (cs : ClientState)
    → ((restore_client_eofs m cs).own_batches ≡ cs.own_batches)
      × ((restore_client_eofs m cs).flushed ≡ cs.flushed)
unfolding restore_client_eofs add_own_eof get_last_eof_id
restore_client_eofs-rest [] cs = (refl, refl)
restore_client_eofs-rest ((k, n) ∷ m) cs = restore_client_eofs-rest m (add_own_eof cs k n)

pub restore_eofs-own_eofs :
    (log : EofLog) (w : World) (id b : Bytes)
    → Distinct (keys log)
    → All (λ e. Distinct (keys e.1)) log
    → get (client_of (restore_eofs log w) id).own_eofs b
      ≡ or_else (logged log id b) (get (client_of w id).own_eofs b)
unfolding restore_eofs keys get
restore_eofs-own_eofs [] w id b d h = refl
restore_eofs-own_eofs ((k, m) ∷ log) w id b d h =
    let cs = restore_client_eofs m (client_of w k) in
    ground (
      arith,
      restore_eofs-own_eofs log (set_client k cs w) id b d.1 h.1,
      client_of-set_client k id cs w,
      restore_client_eofs-get m (client_of w k) b h.0,
      is_some-get log k,
      bytes_beq_iff k id,
      d.0,
    )

pub restore_eofs-rest :
    (log : EofLog) (w : World) (id : Bytes)
    → ((client_of (restore_eofs log w) id).own_batches ≡ (client_of w id).own_batches)
      × ((client_of (restore_eofs log w) id).flushed ≡ (client_of w id).flushed)
unfolding restore_eofs
restore_eofs-rest [] w id = (refl, refl)
restore_eofs-rest ((k, m) ∷ log) w id =
    let cs = restore_client_eofs m (client_of w k) in
    ground (
      arith,
      restore_eofs-rest log (set_client k cs w) id,
      client_of-set_client k id cs w,
      restore_client_eofs-rest m (client_of w k),
      bytes_beq_iff k id,
    )

pub restore_flushed-client :
    (log : Map Bytes Bool) (w : World) (id : Bytes)
    → ((client_of (restore_flushed log w) id).own_batches ≡ (client_of w id).own_batches)
      × ((client_of (restore_flushed log w) id).own_eofs ≡ (client_of w id).own_eofs)
      × ((client_of (restore_flushed log w) id).flushed
          ≡ (is_some (get log id) || (client_of w id).flushed))
unfolding restore_flushed get
restore_flushed-client [] w id = (refl, refl, refl)
restore_flushed-client ((k, b) ∷ log) w id = ground (
  arith,
  restore_flushed-client log (set_client k (record (client_of w k) { flushed = true }) w) id,
  client_of-set_client k id (record (client_of w k) { flushed = true }) w,
  bytes_beq_iff k id,
)
