-- ===== src/Coordinator/Samples/Restart.antt =====
-- eofcoordinator.go: a worker whose second write fails and that is started again, and one that clears
-- its client.
use tp_lavado_dinero.Prelude.{
  ◌≡◌, Bytes, bytes_eq, ◌==◌, ok, inl, refl, true, false, some, List, [], ◌∷◌, All, arith,
}
use tp_lavado_dinero.Coordinator.World.{World, blank}
use tp_lavado_dinero.Coordinator.ClientState.{new_client_state}
use tp_lavado_dinero.Coordinator.Storage.{batch_line, eof_line}
use tp_lavado_dinero.Coordinator.Protocol.{
  client_of, Op, batch_recorded, eof_handled, delivered, run, clear_client,
}
use tp_lavado_dinero.Coordinator.Protocol.Forgotten.{Leaves, clear_client-Leaves}
use tp_lavado_dinero.Coordinator.Protocol.Synced.{AreComplete}
use tp_lavado_dinero.Coordinator.Protocol.Surviving.{IsRecordable}
use tp_lavado_dinero.Coordinator.Protocol.Recalled.{restarted, Recalls, run-Recalls}
use tp_lavado_dinero.Coordinator.Samples.{client, x, y, e, f, config, no_files, start, record_x}
use tp_lavado_dinero.Coordinator.Samples.Logs.{client-IsPlain, x-IsPlain, y-IsPlain, e-IsPlain}

abbrev ops : List Op
ops =
    batch_recorded client x 2 1
    ∷ batch_recorded client y 3 2
    ∷ eof_handled client e 2
    ∷ delivered
        (some (record blank { client_id = client; sender_id = 1; eof_id = f; expected_total = 2 }))
    ∷ []

ops-All : All IsRecordable ops
ops-All =
    let recorded_x : IsRecordable (batch_recorded client x 2 1) =
      (client-IsPlain, x-IsPlain, omega arith, omega arith) in
    let recorded_y : IsRecordable (batch_recorded client y 3 2) =
      (client-IsPlain, y-IsPlain, omega arith, omega arith) in
    (
      recorded_x,
      (
        recorded_y,
        (
          (client-IsPlain, e-IsPlain, omega arith),
          (((λ h. absurd (ground (arith, h))), client-IsPlain), tt),
        ),
      ),
    )

no_files-AreComplete : AreComplete [] no_files
no_files-AreComplete = record {
  batches = inl refl;
  eofs = inl refl;
  flushes = inl refl;
  entries = tt;
}

run-Recalls_example :
    let w = run config ops (restarted no_files (true ∷ false ∷ [])) in
    Recalls (client_of w client) (client_of (restarted w.files []) client)
run-Recalls_example =
    run-Recalls config no_files (true ∷ false ∷ []) ops client no_files-AreComplete ops-All

abbrev recorded : World
recorded = record start {
  files = record no_files { batch_log = batch_line client record_x; eof_log = eof_line client e 2 };
}

clear_client-Leaves_example :
    let (r, v) = clear_client config client recorded in
    (r ≡ ok tt)
    × (client_of v client ≡ new_client_state)
    × ((j : Bytes)
        → Leaves
            (client == j)
            (client_of (restarted recorded.files []) j)
            (client_of (restarted v.files []) j))
clear_client-Leaves_example = clear_client-Leaves config client recorded refl
