-- ===== src/Coordinator/Samples/Life.antt =====
-- eofcoordinator.go: the operations at a worker with two batches.
use tp_lavado_dinero.Prelude.{suc, ◌+◌, ◌≤◌, refl, some, List, [], ◌∷◌, arith, Bytes, bytes_eq}
use tp_lavado_dinero.GoMap.{get}
use tp_lavado_dinero.Coordinator.ClientState.{
  eof_totals, is_ready_to_flush, copy_eofs, merge_peer_eofs, sum_eofs, has_all_eofs,
}
use tp_lavado_dinero.Coordinator.World.{cleanup, blank}
use tp_lavado_dinero.Coordinator.Protocol.{
  client_of, Op, batch_recorded, eof_handled, delivered, run, clears_in, flush_count,
}
use tp_lavado_dinero.Coordinator.Protocol.Calm.{Calm, run-Calm}
use tp_lavado_dinero.Coordinator.Protocol.Lifetime.{mark, run-flush_count}
use tp_lavado_dinero.Coordinator.Samples.{client, x, e, config, start}

-- batch `x`, its EOF, the EOF of a peer, and a clean-up
abbrev life : List Op
life =
    batch_recorded client x 2 1
    ∷ eof_handled client e 2
    ∷ delivered
        (some (record blank { client_id = client; sender_id = 1; eof_id = e; expected_total = 2 }))
    ∷ delivered (some (record blank { kind = cleanup; client_id = client; sender_id = 1 }))
    ∷ []

run-flush_count_example :
    flush_count client (run config life start).flushes + mark start client
    ≤ flush_count client start.flushes + suc (clears_in client life)
run-flush_count_example = run-flush_count config client life start

start-Calm : Calm 1 start
start-Calm = record {
  outcomes = refl;
  calm = λ id.
      unfold client_of is_ready_to_flush has_all_eofs eof_totals copy_eofs merge_peer_eofs sum_eofs
        get in
      refl;
}

abbrev opens : List Op
opens =
    delivered
      (some (record blank { client_id = client; sender_id = 1; eof_id = e; expected_total = 2 }))
    ∷ []

run-Calm_example :
    let v = run config (batch_recorded client x 2 1 ∷ eof_handled client e 2 ∷ []) start in
    let t = run config opens v in
    Calm 1 t
    × ((id : Bytes) → flush_count id v.flushes + mark t id ≤ flush_count id t.flushes + mark v id)
run-Calm_example =
    run-Calm config (batch_recorded client x 2 1 ∷ eof_handled client e 2 ∷ []) opens start
      (omega arith) start-Calm
