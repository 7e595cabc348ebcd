-- ===== src/Coordinator/Protocol/Cleared.antt =====
-- batchstorage.go: the files behind a ClearClient of which no call fails.
use tp_lavado_dinero.Prelude.{
  ℕ, ◌≡◌, refl, sym, ap, ◌∙◌, subst, inl, Option, none, some, [], ◌∷◌, ◌++◌, arith, Bytes, bytes_eq,
  ◌==◌, if◌then◌else◌, Distinct, All, All-map, ok, ◌>>◌, after,
}
use tp_lavado_dinero.GoMap.{Map, get, remove, keys, get-remove, Distinct-keys-remove, All-remove}
use tp_lavado_dinero.Coordinator.ClientState.{BatchRecord}
use tp_lavado_dinero.Coordinator.World.{Files, World, call}
use tp_lavado_dinero.Coordinator.Storage.{
  BatchLog, EofLog, insert, load_batches, load_eofs, batch_line, eof_line, lines_from,
  load_batch_lines, load_eof_lines,
}
use tp_lavado_dinero.Coordinator.Storage.Operations.{
  touch, read_batches, read_eofs, write_batch, write_eof, truncate_batches, truncate_eofs,
  write_client_batches, write_all_batches, write_client_eofs, write_all_eofs, clear_storage,
}
use tp_lavado_dinero.Coordinator.Storage.RoundTrip.{
  IsPlain, load_batches-batch_line, load_eofs-eof_line, batch_line-IsComplete, eof_line-IsComplete,
}
use tp_lavado_dinero.Coordinator.Protocol.Restored.{logged, or_else, IsRecords}
use tp_lavado_dinero.Coordinator.Protocol.LogShapes.{load_batches-IsBatchLog, load_eofs-IsEofLog}
use tp_lavado_dinero.Coordinator.Protocol.Writable.{
  BatchFits, EofFits, load_batches-AllFit, load_eofs-AllFit,
}
use tp_lavado_dinero.Coordinator.Protocol.Rewriting.{
  client_written, all_written, logged-all_written,
}

abbrev batch_line_of : Bytes → Bytes → BatchRecord → Bytes
batch_line_of id b r = batch_line id r

write_client_batches-written :
    (id : Bytes) (m : Map Bytes BatchRecord) (w : World)
    → write_client_batches id m (record w { outcomes = [] }) ≡ (
      ok tt,
      record w {
        files = record w.files { batch_log = client_written batch_line_of w.files.batch_log id m };
        outcomes = [];
      },
    )
unfolding write_client_batches write_batch call
write_client_batches-written id [] w = refl
write_client_batches-written id ((k, r) ∷ m) w =
    write_client_batches-written id m
      (record w { files = record w.files { batch_log = w.files.batch_log ++ batch_line id r } })

write_all_batches-written :
    (log : BatchLog) (w : World)
    → write_all_batches log (record w { outcomes = [] }) ≡ (
      ok tt,
      record w {
        files = record w.files { batch_log = all_written batch_line_of w.files.batch_log log };
        outcomes = [];
      },
    )
unfolding write_all_batches
write_all_batches-written [] w = refl
write_all_batches-written ((id, m) ∷ log) w =
    ap (after (λ (_ : Unit {0}). write_all_batches log)) (write_client_batches-written id m w)
    ∙ write_all_batches-written log (record w {
      files = record w.files { batch_log = client_written batch_line_of w.files.batch_log id m };
    })

write_client_eofs-written :
    (id : Bytes) (m : Map Bytes ℕ) (w : World)
    → write_client_eofs id m (record w { outcomes = [] }) ≡ (
      ok tt,
      record w {
        files = record w.files { eof_log = client_written eof_line w.files.eof_log id m };
        outcomes = [];
      },
    )
unfolding write_client_eofs write_eof call
write_client_eofs-written id [] w = refl
write_client_eofs-written id ((k, n) ∷ m) w =
    write_client_eofs-written id m
      (record w { files = record w.files { eof_log = w.files.eof_log ++ eof_line id k n } })

write_all_eofs-written :
    (log : EofLog) (w : World)
    → write_all_eofs log (record w { outcomes = [] }) ≡ (
      ok tt,
      record w {
        files = record w.files { eof_log = all_written eof_line w.files.eof_log log };
        outcomes = [];
      },
    )
unfolding write_all_eofs
write_all_eofs-written [] w = refl
write_all_eofs-written ((id, m) ∷ log) w =
    ap (after (λ (_ : Unit {0}). write_all_eofs log)) (write_client_eofs-written id m w)
    ∙ write_all_eofs-written log (record w {
      files = record w.files { eof_log = client_written eof_line w.files.eof_log id m };
    })

-- The files behind ClearClient
abbrev pub cleared_files : Bytes → Files → Files
cleared_files id files = record files {
  batch_log = all_written batch_line_of [] (remove (load_batches files.batch_log) id);
  eof_log = all_written eof_line [] (remove (load_eofs files.eof_log) id);
}

pub clear_storage-cleared :
    (id : Bytes) (w : World)
    → w.outcomes ≡ []
    → clear_storage id w ≡ (ok tt, record w { files = cleared_files id w.files })
clear_storage-cleared id w e =
    let u : World = record w { outcomes = [] } in
    let same : w ≡ u = ap (λ os. record w { outcomes = os }) e in
    let batches = remove (load_batches w.files.batch_log) id in
    let eofs = remove (load_eofs w.files.eof_log) id in
    let k = λ (_ : Unit {0}). (touch >> (truncate_eofs >> (touch >> write_all_eofs eofs))) in
    let v : World = record u { files = record w.files { batch_log = [] } } in
    let at_u : clear_storage id u ≡ (ok tt, record u { files = cleared_files id w.files }) =
      (unfold clear_storage touch read_batches read_eofs truncate_batches truncate_eofs call in
        ap (after k) (write_all_batches-written batches v)
        ∙ write_all_eofs-written eofs (record v {
          files = record w.files { batch_log = (cleared_files id w.files).batch_log; eof_log = [] };
        })) in
    subst (λ x. clear_storage id x ≡ (ok tt, record x { files = cleared_files id x.files }))
      (sym same) at_u

module _ {V : Type 0} where
  -- What a map without a client still has
  logged-remove :
      (m : Map Bytes (Map Bytes V)) (id j b : Bytes)
      → logged (remove m id) j b ≡ (if id == j then none else logged m j b)
  unfolding get
  logged-remove m id j b = ground (arith, get-remove m id j)

  or_else-nothing : (o : Option V) → or_else o none ≡ o
  or_else-nothing none = refl
  or_else-nothing (some v) = refl

pub batches_left :
    (file id j b : Bytes)
    → logged (load_batches (all_written batch_line_of [] (remove (load_batches file) id))) j b
      ≡ (if id == j then none else logged (load_batches file) j b)
unfolding load_batches load_batch_lines lines_from get
batches_left file id j b =
    let m = load_batches file in
    let (d, h) = load_batches-IsBatchLog file in
    let inner : All (λ e. Distinct (keys e.1)) m =
      All-map _ _ (λ e (r : IsRecords e.1). r.distinct) m h in
    logged-all_written load_batches batch_line_of BatchFits
      (λ log c k r complete fits.
        subst (λ x. load_batches (log ++ batch_line c r) ≡ insert (load_batches log) c x r)
          fits.named
          (load_batches-batch_line log c r complete fits.client
            (subst IsPlain (sym fits.named) fits.name) fits.processed fits.survivors))
      (λ log c k r. batch_line-IsComplete log c r) [] (remove m id) j b (inl refl)
      (Distinct-keys-remove m id d) (All-remove _ m id inner)
      (All-remove _ m id (load_batches-AllFit file))
    ∙ or_else-nothing (logged (remove m id) j b)
    ∙ logged-remove m id j b

pub eofs_left :
    (file id j e : Bytes)
    → logged (load_eofs (all_written eof_line [] (remove (load_eofs file) id))) j e
      ≡ (if id == j then none else logged (load_eofs file) j e)
unfolding load_eofs load_eof_lines lines_from get
eofs_left file id j e =
    let m = load_eofs file in
    let (d, h) = load_eofs-IsEofLog file in
    logged-all_written load_eofs eof_line EofFits
      (λ log c k n complete fits.
        load_eofs-eof_line log c k n complete fits.client fits.name fits.expected)
      eof_line-IsComplete [] (remove m id) j e (inl refl) (Distinct-keys-remove m id d)
      (All-remove _ m id h) (All-remove _ m id (load_eofs-AllFit file))
    ∙ or_else-nothing (logged (remove m id) j e)
    ∙ logged-remove m id j e
