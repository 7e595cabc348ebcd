-- ===== src/Processors/Samples/Banks.antt =====
-- The maximum grouper at a bank with two transfers and a name.
use tp_lavado_dinero.Prelude.{ℕ, ◌≡◌, refl, List, [], ◌∷◌, ◌++◌, Bytes, bytes_beq, ok}
use tp_lavado_dinero.Decimal.{parse_uint, format_uint}
use tp_lavado_dinero.GoMap.{get, put, remove}
use tp_lavado_dinero.Checkpoint.Line.{CheckpointChange}
use tp_lavado_dinero.Processors.Model.{pos, int_eq, format_int}
use tp_lavado_dinero.Processors.Journal.{Op, received, saved, lost, run}
use tp_lavado_dinero.Processors.MaxBank.Defs.{
  MaxBank, transfer_summary, bank_metadata, max_tx_kind, new_processor, checkpointable, process,
  drain_changes, restore_changes,
}
use tp_lavado_dinero.Processors.MaxBank.Views.{maxima}
use tp_lavado_dinero.Processors.MaxBank.Order.{IsGreatest}
use tp_lavado_dinero.Processors.MaxBank.Greatest.{process_all, transfers, process_all-IsGreatest}
use tp_lavado_dinero.Processors.MaxBank.Replay.{RestoresMaxima, run-RestoresMaxima}
use tp_lavado_dinero.Processors.Samples.{numbers, names_json, maxima_json, client}

abbrev transfer : ℕ → MaxBank
transfer digit = record { from_bank = pos 7; payload = transfer_summary (b'a' ∷ []) (digit ∷ []) }

abbrev name : MaxBank
name = record { from_bank = pos 7; payload = bank_metadata (b'B' ∷ []) }

abbrev items : List (Bytes × MaxBank)
items = (client, transfer b'3') ∷ (client, name) ∷ (client, transfer b'5') ∷ []

process_all-IsGreatest_example :
    IsGreatest numbers
      (get (maxima numbers client (process_all numbers items (new_processor numbers))) (pos 7))
      (transfers numbers client (pos 7) items)
process_all-IsGreatest_example = process_all-IsGreatest numbers client (pos 7) items

-- The first transfer and the name are written, a checkpoint is lost, and the second transfer waits.
abbrev ops : List (Op MaxBank)
ops =
    received client (transfer b'3')
    ∷ received client name
    ∷ saved client
    ∷ lost client
    ∷ received client (transfer b'5')
    ∷ lost client
    ∷ []

abbrev waiting : List CheckpointChange
waiting = record { kind = max_tx_kind; key = b'7' ∷ []; value = 7 ∷ b'a' ∷ 5 ∷ b'5' ∷ [] } ∷ []

ops_waiting :
    (drain_changes numbers names_json maxima_json client
      (run
        (checkpointable numbers names_json maxima_json)
        (process numbers)
        client
        ops
        (new_processor numbers, [])).0).0
    ≡ ok waiting
unfolding drain_changes run get process parse_uint put bytes_beq remove restore_changes format_int
    format_uint
ops_waiting = refl

run-RestoresMaxima_example :
    let s =
      run
        (checkpointable numbers names_json maxima_json)
        (process numbers)
        client
        ops
        (new_processor numbers, []) in
    RestoresMaxima numbers names_json maxima_json client s.0 (s.1 ++ waiting)
run-RestoresMaxima_example =
    run-RestoresMaxima numbers names_json maxima_json client ops waiting ops_waiting
