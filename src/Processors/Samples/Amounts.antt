-- ===== src/Processors/Samples/Amounts.antt =====
-- The count of converted amounts with a checkpoint that succeeds and one that fails.
use tp_lavado_dinero.Prelude.{
  ℕ, ◌≡◌, refl, sym, ap, Option, none, some, List, [], ◌∷◌, ◌++◌, arith, Bytes, bytes_eq, bytes_beq,
  ok,
}
use tp_lavado_dinero.GoMap.{get, put, remove}
use tp_lavado_dinero.Checkpoint.Line.{CheckpointChange}
use tp_lavado_dinero.Processors.Model.{Json}
use tp_lavado_dinero.Processors.Loops.{for_each}
use tp_lavado_dinero.Processors.Journal.{
  Op, received, saved, lost, run, step, after_saved, after_lost,
}
use tp_lavado_dinero.Processors.Conversions.Defs.{
  CountValue, count_kind, new_join, process_amount, drain_counts, restore_counts, restore_count,
  mark_count_changed,
}
use tp_lavado_dinero.Processors.Conversions.Counted.{running, RestoresCount, run-RestoresCount}
use tp_lavado_dinero.Processors.Samples.{client}

abbrev read_count : Bytes → Option CountValue
read_count (n ∷ s) = some (record { count = n })
read_count [] = none

pub count_read :
    (v : CountValue) (text : Bytes) → some (v.count ∷ []) ≡ some text → read_count text ≡ some v
count_read v text h = let e : v.count ∷ [] ≡ text = ground (arith, h) in ap read_count (sym e)

abbrev pub counts_json : Json CountValue
counts_json = record {
  marshal = λ v. some (v.count ∷ []);
  unmarshal = read_count;
  unmarshal-marshal = count_read;
}

abbrev ops : List (Op ℕ)
ops = received client 5 ∷ saved client ∷ received client 7 ∷ lost client ∷ []

abbrev waiting : List CheckpointChange
waiting = record { kind = count_kind; key = client; value = 2 ∷ [] } ∷ []

waiting_drained :
    (drain_counts counts_json client (running ℕ counts_json client ops (new_join, [])).0).0
    ≡ ok waiting
unfolding run step after_saved after_lost drain_counts restore_counts restore_count for_each
    process_amount mark_count_changed get put remove bytes_beq
waiting_drained = refl

run-RestoresCount_example :
    RestoresCount ℕ counts_json client 2
      ((running ℕ counts_json client ops (new_join, [])).1 ++ waiting)
unfolding bytes_beq
run-RestoresCount_example = run-RestoresCount ℕ counts_json client ops waiting waiting_drained
