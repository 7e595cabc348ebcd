-- ===== src/Processors/Samples/Gathered.antt =====
-- The results of bank maxima, with a text that holds the lengths of its first two parts.
use tp_lavado_dinero.Prelude.{
  ℕ, ◌≡◌, refl, ap, ◌∙◌, subst, Option, none, some, List, [], ◌∷◌, ◌++◌, arith, Bytes, length, ok,
}
use tp_lavado_dinero.External.Socket.{take_bytes, take_bytes-length}
use tp_lavado_dinero.Processors.Model.{Json}
use tp_lavado_dinero.Processors.Journal.{run, apply_all}
use tp_lavado_dinero.Processors.MaxBank.Defs.{MaxBankResult}
use tp_lavado_dinero.Processors.MaxBankJoin.Defs.{
  new_max_bank_join, gathered, process_result, results_checkpointable,
}
use tp_lavado_dinero.Processors.MaxBankJoin.Replayed.{Round, rounds_of, rounds-replayed}
use tp_lavado_dinero.Processors.Samples.{client}

abbrev result_text : MaxBankResult → Bytes
result_text r = length r.bank_name ∷ length r.account ∷ (r.bank_name ++ (r.account ++ r.amount))

abbrev read_amount : Bytes → Option (Bytes × Bytes) → Option MaxBankResult
read_amount name none = none
read_amount name (some q) = some (record { bank_name = name; account = q.0; amount = q.1 })

abbrev read_account : ℕ → Option (Bytes × Bytes) → Option MaxBankResult
read_account m none = none
read_account m (some r) = read_amount r.0 (take_bytes m r.1)

abbrev read_result : Bytes → Option MaxBankResult
read_result (n ∷ m ∷ s) = read_account m (take_bytes n s)
read_result _ = none

result_read_back : (r : MaxBankResult) → read_result (result_text r) ≡ some r
result_read_back r =
    ap (read_account (length r.account)) (take_bytes-length r.bank_name (r.account ++ r.amount))
    ∙ ap (read_amount r.bank_name) (take_bytes-length r.account r.amount)

abbrev results_json : Json MaxBankResult
results_json = record {
  marshal = λ r. some (result_text r);
  unmarshal = read_result;
  unmarshal-marshal = λ r text h.
      let e : result_text r ≡ text = ground (arith, h) in
      subst (λ t. read_result t ≡ some r) e (result_read_back r);
}

abbrev writes : (r : MaxBankResult) → (text : Bytes) × (results_json.marshal r ≡ some text)
writes r = (result_text r, refl)

abbrev result : ℕ → MaxBankResult
result n = record { bank_name = b'B' ∷ []; account = b'1' ∷ []; amount = n ∷ [] }

abbrev rounds : List Round
rounds = (result 5, result 6 ∷ []) ∷ (result 7, []) ∷ []

rounds-replayed_example :
    let s =
      run
        (results_checkpointable results_json)
        process_result
        client
        (rounds_of client rounds)
        (new_max_bank_join, []) in
    let back =
      apply_all (results_checkpointable results_json) process_result client s.1 new_max_bank_join in
    (gathered client s.0 ≡ result 5 ∷ result 6 ∷ result 7 ∷ [])
    × (back.0 ≡ ok tt)
    × (gathered client back.1 ≡ result 5 ∷ result 6 ∷ result 5 ∷ result 6 ∷ result 7 ∷ [])
rounds-replayed_example = rounds-replayed results_json writes client rounds
