-- ===== src/Processors/Samples/Related.antt =====
-- The grouper by origin at an account with five counterparts.
use tp_lavado_dinero.Prelude.{
  ℕ, ◌≡◌, ◌%◌, refl, List, [], ◌∷◌, ◌++◌, Bytes, bytes_eq, bytes_beq, length, ok, err, Exec,
  call_failed,
}
use tp_lavado_dinero.Decimal.{u64_size, format_uint}
use tp_lavado_dinero.GoMap.{get, put, remove}
use tp_lavado_dinero.Checkpoint.Line.{CheckpointChange}
use tp_lavado_dinero.Processors.Model.{pos, account_beq, format_int}
use tp_lavado_dinero.Processors.Journal.{Op, received, saved, lost, run}
use tp_lavado_dinero.Processors.Relations.Defs.{
  ScatterGather, GroupedAccounts, store_of, by_origin, relation_kind, new_processor, checkpointable,
  process, drain_changes, finalize, cleanup, restore_changes,
}
use tp_lavado_dinero.Processors.Relations.Groups.{IsGrouping, left, collect, finalize-IsGrouping}
use tp_lavado_dinero.Processors.Relations.Gathered.{seen, process_all}
use tp_lavado_dinero.Processors.Relations.Replay.{RestoresRelations, run-RestoresRelations}
use tp_lavado_dinero.Processors.Samples.{relations_json, client}

abbrev sent_to : ℕ → ScatterGather
sent_to n = record {
  from_bank = pos 1;
  account = b'a' ∷ [];
  to_bank = pos n;
  to_account = b'b' ∷ [];
}

abbrev items : List (Bytes × ScatterGather)
items =
    (client, sent_to 1)
    ∷ (client, sent_to 2)
    ∷ (client, sent_to 3)
    ∷ (client, sent_to 2)
    ∷ (client, sent_to 4)
    ∷ (client, sent_to 5)
    ∷ []

-- A `yield` that fails
abbrev refuse : GroupedAccounts → Exec (Unit {0}) (Unit {0})
refuse g u = (err call_failed, u)

finalize-IsGrouping_example :
    let p = process_all by_origin items new_processor in
    let (r, q, v) = finalize client refuse p tt in
    IsGrouping (seen by_origin client items []) (finalize client collect p []).2
    × ((finalize client collect p []).0 ≡ ok (length (finalize client collect p []).2 % u64_size))
    × ((finalize client collect p []).1 ≡ cleanup client p)
    × ((j : Bytes) → store_of j q ≡ left client r p j)
finalize-IsGrouping_example = finalize-IsGrouping by_origin client items refuse tt

abbrev ops : List (Op ScatterGather)
ops =
    received client (sent_to 1)
    ∷ saved client
    ∷ received client (sent_to 1)
    ∷ received client (sent_to 2)
    ∷ lost client
    ∷ []

abbrev waiting : List CheckpointChange
waiting =
    record {
      kind = relation_kind;
      key = b'1' ∷ b':' ∷ b'a' ∷ b':' ∷ b'2' ∷ b':' ∷ b'b' ∷ [];
      value = 1 ∷ b'a' ∷ 2 ∷ b'b' ∷ [];
    }
    ∷ []

ops_waiting :
    (drain_changes relations_json client
      (run (checkpointable relations_json) (process by_origin) client ops (new_processor, [])).0).0
    ≡ ok waiting
unfolding drain_changes run get process put bytes_beq account_beq remove restore_changes format_int
    format_uint
ops_waiting = refl

run-RestoresRelations_example :
    let s =
      run (checkpointable relations_json) (process by_origin) client ops (new_processor, []) in
    RestoresRelations by_origin relations_json client s.0 (s.1 ++ waiting)
run-RestoresRelations_example =
    run-RestoresRelations by_origin relations_json client ops waiting ops_waiting
