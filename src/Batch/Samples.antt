-- ===== src/Batch/Samples.antt =====
-- A batcher at work: items are their own weight, and a group holds at most 4.
use tp_lavado_dinero.Prelude.{bytes_beq, ℕ, ◌≡◌, refl, List, [], ◌∷◌, ◌++◌, arith, Bytes, ok}
use tp_lavado_dinero.Batch.Defs.{
  new, new_batcher, set_new_batch_id, numbered, send_all, add_all, add, add_emptied, flush_pending,
  try_add, flush, clear, is_empty,
}
use tp_lavado_dinero.Batch.Contents.{Noting, IsNoting, Sent, note, payload, payload-send_all}
use tp_lavado_dinero.Batch.Weights.{AllFit, AllFit-send_all}
use tp_lavado_dinero.Batch.Names.{NumberedFrom, NumberedFrom-send_all, send_all_again}

abbrev itself : ℕ → ℕ
itself n = n

unfoldable four : Noting ℕ
unfolding new new_batcher
four = new_batcher (new 4 itself (λ xs. xs)) note

four-IsNoting : IsNoting itself four
unfolding four new new_batcher
four-IsNoting = record {
  hands = λ xs. refl;
  notes = λ v id w. refl;
  sizes = λ x. refl;
  weighs = refl;
}

abbrev base : Bytes
base = b'q' ∷ []

-- the batcher with the name `base`
unfoldable four_named : Noting ℕ
unfolding four set_new_batch_id
four_named = set_new_batch_id [] four base

four_named-IsNoting : IsNoting itself four_named
unfolding four_named set_new_batch_id bytes_beq four new new_batcher
four_named-IsNoting = record {
  hands = λ xs. refl;
  notes = λ v id w. refl;
  sizes = λ x. refl;
  weighs = refl;
}

abbrev items : List ℕ
items = 2 ∷ 1 ∷ 3 ∷ 7 ∷ []

-- The groups 2 1, 3 and 7, named q-0, q-1 and q-2
sent_items :
    (send_all four_named items []).2
    ≡ (2 ∷ 1 ∷ [], numbered base 0) ∷ (3 ∷ [], numbered base 1) ∷ (7 ∷ [], numbered base 2) ∷ []
unfolding send_all add_all four_named four set_new_batch_id new new_batcher numbered add try_add
    add_emptied flush clear flush_pending is_empty bytes_beq
sent_items = refl

payload-send_all_example :
    ((send_all four items []).0 ≡ ok tt) × (payload (send_all four items []).2 ≡ items)
payload-send_all_example =
    payload-send_all itself four items [] four-IsNoting (unfold four new new_batcher in refl)
      (omega arith, (omega arith, (omega arith, (omega arith, tt))))

AllFit-send_all_example : AllFit itself 4 (send_all four items []).2
AllFit-send_all_example =
    AllFit-send_all itself 4 four items four-IsNoting (unfold four new new_batcher in refl)
      (unfold four new new_batcher in refl)

NumberedFrom-send_all_example :
    NumberedFrom itself base 0 (send_all (set_new_batch_id [] four base) items []).2
NumberedFrom-send_all_example =
    NumberedFrom-send_all itself base four [] items four-IsNoting (ground arith)
      (unfold four new new_batcher in ground arith)

send_all_again_example :
    let (r, t, w) = send_all (set_new_batch_id [] four base) (1 ∷ 2 ∷ 3 ∷ []) [] in
    let n = t.batch_flushed in
    (groups : Sent ℕ) × ((last : List ℕ) × ((w ≡ groups ++ (last, numbered base n) ∷ [])
        × NumberedFrom itself base n (send_all (set_new_batch_id [] t base) items []).2))
send_all_again_example =
    send_all_again itself base four [] [] 1 (2 ∷ 3 ∷ []) items four-IsNoting (ground arith)
      (unfold four new new_batcher in ground arith) (omega arith, (omega arith, (omega arith, tt)))
