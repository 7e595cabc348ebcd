-- ===== src/Coordinator/Protocol/Recovery.antt =====
-- eofcoordinator.go: what a coordinator knows again after a restart.
use tp_lavado_dinero.Prelude.{
  ℕ, ◌<◌, ◌≡◌, refl, ap, ◌∙◌, Bool, false, Option, none, some, [], ◌++◌, arith, Bytes, bytes_eq,
  bytes_beq_iff,
}
use tp_lavado_dinero.Decimal.{u64_size}
use tp_lavado_dinero.GoMap.{Map, get, put, is_some, or_empty, get-put}
use tp_lavado_dinero.Coordinator.ClientState.{BatchRecord, ClientState, new_client_state}
use tp_lavado_dinero.Coordinator.World.{Files, World, call}
use tp_lavado_dinero.Coordinator.Storage.{
  BatchLog, EofLog, insert, load_batches, load_eofs, load_flushed, batch_line,
}
use tp_lavado_dinero.Coordinator.Storage.Operations.{touch, read_batches, read_eofs, read_flushed}
use tp_lavado_dinero.Coordinator.Storage.Splitting.{IsComplete}
use tp_lavado_dinero.Coordinator.Storage.RoundTrip.{IsPlain, load_batches-batch_line}
use tp_lavado_dinero.Coordinator.Protocol.Sending.{client_of}
use tp_lavado_dinero.Coordinator.Protocol.Restore.{
  restore_batches, restore_eofs, restore_from_storage,
}
use tp_lavado_dinero.Coordinator.Protocol.Restored.{
  logged, or_else, restore_batches-own_batches, restore_batches-flushed, restore_batches-own_eofs,
  restore_eofs-own_eofs, restore_eofs-rest, restore_flushed-client,
}
use tp_lavado_dinero.Coordinator.Protocol.LogShapes.{load_batches-IsBatchLog, load_eofs-IsEofLog}

-- A coordinator that starts on `files`, where no call fails.
abbrev pub started_on : Files → World
started_on files = record {
  clients = [];
  cleaned_clients = [];
  files = files;
  sent = [];
  flushes = [];
  outcomes = [];
}

-- What a client's state has from the logs
pub record Recovered (files : Files) (id : Bytes) (cs : ClientState) : Type 0 where
  pub batches : (b : Bytes) → get cs.own_batches b ≡ logged (load_batches files.batch_log) id b
  pub eofs : (e : Bytes) → get cs.own_eofs e ≡ logged (load_eofs files.eof_log) id e
  pub flushed : cs.flushed ≡ is_some (get (load_flushed files.flushed_log) id)

or_else-none : {A : Type 0} (o : Option A) → or_else o none ≡ o
or_else-none none = refl
or_else-none (some a) = refl

fresh_client : (files : Files) (id : Bytes) → client_of (started_on files) id ≡ new_client_state
unfolding client_of get
fresh_client files id = refl

-- After a restart every client has exactly the own batches and own EOFs that the logs hold under its
-- name, each with its counts, and is marked as flushed if and only if the log of flushed clients
-- names it.
pub restore-Recovered :
    (files : Files) (id : Bytes)
    → Recovered files id (client_of (restore_from_storage (started_on files)).1 id)
unfolding restore_from_storage read_batches read_eofs read_flushed touch call
restore-Recovered files id =
    let batches : BatchLog = load_batches files.batch_log in
    let eofs : EofLog = load_eofs files.eof_log in
    let flushed : Map Bytes Bool = load_flushed files.flushed_log in
    let v : World = restore_batches batches (started_on files) in
    let u : World = restore_eofs eofs v in
    let (db, hb) = load_batches-IsBatchLog files.batch_log in
    let (de, he) = load_eofs-IsEofLog files.eof_log in
    let (fb, fe, ff) = restore_flushed-client flushed u id in
    let (eb, ef) = restore_eofs-rest eofs v id in
    record {
      batches = λ b.
          ap (λ (m : Map Bytes BatchRecord). get m b) (fb ∙ eb)
          ∙ restore_batches-own_batches batches (started_on files) id b db hb
          ∙ ap (λ (cs : ClientState). or_else (logged batches id b) (get cs.own_batches b))
              (fresh_client files id)
          ∙ (unfold get in or_else-none (logged batches id b));
      eofs = λ e.
          ap (λ (m : Map Bytes ℕ). get m e) fe
          ∙ restore_eofs-own_eofs eofs v id e de he
          ∙ ap (λ (m : Map Bytes ℕ). or_else (logged eofs id e) (get m e))
              (restore_batches-own_eofs batches (started_on files) id
                ∙ ap (λ (cs : ClientState). cs.own_eofs) (fresh_client files id))
          ∙ (unfold get in or_else-none (logged eofs id e));
      flushed =
          let old : (client_of u id).flushed ≡ false =
            ef
            ∙ restore_batches-flushed batches (started_on files) id
            ∙ ap (λ (cs : ClientState). cs.flushed) (fresh_client files id) in
          ground (arith, ff, old);
    }

-- A batch that `WriteBatch` has put behind a complete log is an own batch of its client after a
-- restart, with the same counts, if the names hold neither the separator nor a newline and the counts
-- are uint64.
written_batch_survives :
    (files : Files) (client_id : Bytes) (r : BatchRecord)
    → IsComplete files.batch_log
    → IsPlain client_id
    → IsPlain r.batch_id
    → r.processed < u64_size
    → r.survivors < u64_size
    → let after_write = record files { batch_log = files.batch_log ++ batch_line client_id r } in
      get
        (client_of (restore_from_storage (started_on after_write)).1 client_id).own_batches
        r.batch_id
      ≡ some r
written_batch_survives files client_id r c pc pb lp ls =
    let log : BatchLog = load_batches files.batch_log in
    let after_write : Files = record files {
      batch_log = files.batch_log ++ batch_line client_id r;
    } in
    let inner : Map Bytes BatchRecord = put (or_empty (get log client_id)) r.batch_id r in
    (restore-Recovered after_write client_id).batches r.batch_id
    ∙ ap (λ (l : BatchLog). logged l client_id r.batch_id)
        (load_batches-batch_line files.batch_log client_id r c pc pb lp ls)
    ∙ (unfold insert in
        ground (
          arith,
          get-put log client_id client_id inner,
          get-put (or_empty (get log client_id)) r.batch_id r.batch_id r,
          bytes_beq_iff client_id client_id,
          bytes_beq_iff r.batch_id r.batch_id,
        ))
