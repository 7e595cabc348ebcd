-- ===== src/Coordinator/Protocol/Written.antt =====
-- eofcoordinator.go: a write to a log with which the memory and the logs go on saying the same.
use tp_lavado_dinero.Prelude.{
  ℕ, ◌<◌, ◌≡◌, sym, ap, ◌∙◌, inl, inr, true, some, ◌++◌, Bytes, bytes_eq, bytes_beq_iff, ◌==◌,
  arith, Bool-cases, if◌then◌else◌, All-map, List,
}
use tp_lavado_dinero.Decimal.{u64_size}
use tp_lavado_dinero.GoMap.{Map, get, put, is_some, get-put}
use tp_lavado_dinero.Coordinator.ClientState.{
  BatchRecord, add_own_batch, add_own_eof, get_last_eof_id,
}
use tp_lavado_dinero.Coordinator.World.{World, set_client}
use tp_lavado_dinero.Coordinator.Storage.{
  insert, load_batches, load_eofs, load_flushed, batch_line, eof_line, flushed_line,
}
use tp_lavado_dinero.Coordinator.Storage.RoundTrip.{
  IsPlain, load_batches-batch_line, load_eofs-eof_line, load_flushed-flushed_line,
  batch_line-IsComplete, eof_line-IsComplete, flushed_line-IsComplete,
}
use tp_lavado_dinero.Coordinator.Protocol.Sending.{client_of}
use tp_lavado_dinero.Coordinator.Protocol.Restored.{logged}
use tp_lavado_dinero.Coordinator.Protocol.Synced.{
  Entry, batch_entry, eof_entry, Logged, Synced, logged-insert, set-Synced,
}

-- The state behind a write to a log
abbrev pub batch_written : Bytes → BatchRecord → World → World
batch_written id r w = record w {
  files = record w.files { batch_log = w.files.batch_log ++ batch_line id r };
}

abbrev pub eof_written : Bytes → Bytes → ℕ → World → World
eof_written id eof_id n w = record w {
  files = record w.files { eof_log = w.files.eof_log ++ eof_line id eof_id n };
}

-- What is known of a log is still known behind a write.
insert-some {ℓ} :
    {V : Type ℓ} (m : Map Bytes (Map Bytes V)) (id k j x : Bytes) (v : V)
    → is_some (logged m j x) ≡ true
    → is_some (logged (insert m id k v) j x) ≡ true
insert-some m id k j x v h = ground (arith, logged-insert m id k j x v, bytes_beq_iff id j, h)

batch-Logged :
    (id : Bytes) (r : BatchRecord) (w : World)
    → load_batches (batch_written id r w).files.batch_log
      ≡ insert (load_batches w.files.batch_log) id r.batch_id r
    → (k : Entry) → Logged w.files k
    → Logged (batch_written id r w).files k
batch-Logged id r w read (batch_entry j x) h =
    ap (λ m. is_some (logged m j x)) read
    ∙ insert-some (load_batches w.files.batch_log) id r.batch_id j x r h
batch-Logged id r w read (eof_entry j x) h = h

eof-Logged :
    (id eof_id : Bytes) (n : ℕ) (w : World)
    → load_eofs (eof_written id eof_id n w).files.eof_log
      ≡ insert (load_eofs w.files.eof_log) id eof_id n
    → (k : Entry) → Logged w.files k
    → Logged (eof_written id eof_id n w).files k
eof-Logged id eof_id n w read (batch_entry j x) h = h
eof-Logged id eof_id n w read (eof_entry j x) h =
    ap (λ m. is_some (logged m j x)) read
    ∙ insert-some (load_eofs w.files.eof_log) id eof_id j x n h

pub batch-Synced :
    {known : List Entry} (id : Bytes) (r : BatchRecord) (w : World)
    → Synced known w
    → IsPlain id
    → IsPlain r.batch_id
    → r.processed < u64_size
    → r.survivors < u64_size
    → Synced known (set_client id (add_own_batch (client_of w id) r) (batch_written id r w))
unfolding add_own_batch
batch-Synced id r w s pc pb lp ls =
    let log = load_batches w.files.batch_log in
    let files = (batch_written id r w).files in
    let read : load_batches files.batch_log ≡ insert log id r.batch_id r =
      load_batches-batch_line w.files.batch_log id r s.complete.batches pc pb lp ls in
    let at : (j x : Bytes)
        → logged (load_batches files.batch_log) j x ≡ (
            if id == j
            then (if r.batch_id == x then some r else logged log id x)
            else logged log j x) =
      λ j x. ap (λ m. logged m j x) read ∙ logged-insert log id r.batch_id j x r in
    let still = batch-Logged id r w read in
    let a = s.agree id in
    set-Synced id (add_own_batch (client_of w id) r) w files
      (record {
        batches = batch_line-IsComplete w.files.batch_log id r;
        eofs = s.complete.eofs;
        flushes = s.complete.flushes;
        entries = All-map (Logged w.files) (Logged files) still _ s.complete.entries;
      })
      (record {
        batches = λ x. ground (
          arith,
          at id x,
          a.batches x,
          get-put (client_of w id).own_batches r.batch_id x r,
          bytes_beq_iff id id,
        );
        eofs = a.eofs;
        marked = a.marked;
      })
      (λ j other.
        (let b = s.agree j in
          record {
            batches = λ x. ground (arith, at j x, b.batches x, other);
            eofs = b.eofs;
            marked = b.marked;
          }))

pub eof-Synced :
    {known : List Entry} (id eof_id : Bytes) (n : ℕ) (w : World)
    → Synced known w
    → IsPlain id
    → IsPlain eof_id
    → n < u64_size
    → Synced known
        (set_client id (add_own_eof (client_of w id) eof_id n) (eof_written id eof_id n w))
unfolding add_own_eof get_last_eof_id
eof-Synced id eof_id n w s pc pe lt =
    let log = load_eofs w.files.eof_log in
    let files = (eof_written id eof_id n w).files in
    let read : load_eofs files.eof_log ≡ insert log id eof_id n =
      load_eofs-eof_line w.files.eof_log id eof_id n s.complete.eofs pc pe lt in
    let at : (j x : Bytes)
        → logged (load_eofs files.eof_log) j x ≡ (
            if id == j then (if eof_id == x then some n else logged log id x) else logged log j x) =
      λ j x. ap (λ m. logged m j x) read ∙ logged-insert log id eof_id j x n in
    let still = eof-Logged id eof_id n w read in
    let a = s.agree id in
    set-Synced id (add_own_eof (client_of w id) eof_id n) w files
      (record {
        batches = s.complete.batches;
        eofs = eof_line-IsComplete w.files.eof_log id eof_id n;
        flushes = s.complete.flushes;
        entries = All-map (Logged w.files) (Logged files) still _ s.complete.entries;
      })
      (record {
        batches = a.batches;
        eofs = λ x. ground (
          arith,
          at id x,
          a.eofs x,
          get-put (client_of w id).own_eofs eof_id x n,
          bytes_beq_iff id id,
        );
        marked = a.marked;
      })
      (λ j other.
        (let b = s.agree j in
          record {
            batches = b.batches;
            eofs = λ x. ground (arith, at j x, b.eofs x, other);
            marked = b.marked;
          }))

-- The mark of a client that is marked in memory goes into the log.
pub flush-Synced :
    {known : List Entry} (id : Bytes) (w : World)
    → Synced known w
    → IsPlain id
    → (client_of w id).flushed ≡ true
    → Synced known (record w {
      files = record w.files { flushed_log = w.files.flushed_log ++ flushed_line id };
    })
unfolding client_of
flush-Synced id w s pc m =
    let log = load_flushed w.files.flushed_log in
    let read : load_flushed (w.files.flushed_log ++ flushed_line id) ≡ put log id true =
      load_flushed-flushed_line w.files.flushed_log id s.complete.flushes pc in
    record {
      complete = record {
        batches = s.complete.batches;
        eofs = s.complete.eofs;
        flushes = flushed_line-IsComplete w.files.flushed_log id;
        entries = s.complete.entries;
      };
      agree = λ j.
          (let a = s.agree j in
            record {
              batches = a.batches;
              eofs = a.eofs;
              marked = λ h. elim (Bool-cases (id == j)) [
                | inl e ↦ ap (λ x. (client_of w x).flushed) (sym ((bytes_beq_iff id j).0 e)) ∙ m
                | inr e ↦
                    let old : is_some (get (put log id true) j) ≡ is_some (get log j) =
                      ground (arith, get-put log id j true, e) in
                    a.marked (sym old ∙ ap (λ l. is_some (get l j)) (sym read) ∙ h)
              ];
            });
    }
