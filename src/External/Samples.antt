-- ===== src/External/Samples.antt =====
-- Small batches and results; the floats here are 0 and 1.
use tp_lavado_dinero.Prelude.{
  ◌≡◌, ◌≢◌, refl, Bool, true, false, Option, none, some, List, [], ◌∷◌, arith, Bytes, nat_beq,
  length, total, ◌+◌, map, All,
}
use tp_lavado_dinero.Decimal.{format_uint}
use tp_lavado_dinero.Processors.Model.{pos, negsuc, format_int}
use tp_lavado_dinero.External.Socket.{Connection}
use tp_lavado_dinero.External.Defs.{
  FloatText, send_transaction_batch, send_account_batch, receive_msg, transactions, accounts,
  batch_frame, header_size_for_transactions, header_size_for_accounts, transaction_size,
  account_size,
}
use tp_lavado_dinero.External.Results.{
  MicrotransactionResult, MaxBankResult, AvgByTypeResult, SuspiciousAccount, microtransaction,
  max_bank, converted_micro_payment, avg_by_type, suspicious_accounts, to_uint32, max_bank_record,
  avg_by_type_record, suspicious_record, microtransaction_record, send_max_bank_result,
  send_avg_by_type_result, send_suspicious_accounts_result, send_converted_micro_payment_result,
  send_microtransaction_result, receive_result,
}
use tp_lavado_dinero.External.Batches.{Arrives, receive_msg-send_batch, length-batch_frame}
use tp_lavado_dinero.External.Delivered.{
  receive_results, with_rounded, receive_results-send_results, receive_result-send_result,
}

abbrev connection : Connection
connection = record { incoming = []; sent = []; outcomes = [] }

abbrev records : List Bytes
records = (b'a' ∷ b',' ∷ b'b' ∷ []) ∷ [] ∷ []

receive_msg-send_batch_example :
    Arrives (send_transaction_batch records) receive_msg (transactions records) connection
    × Arrives (send_account_batch records) receive_msg (accounts records) connection
receive_msg-send_batch_example =
    receive_msg-send_batch records connection refl
      (omega arith, omega arith, (omega arith, (omega arith, tt)))

length-batch_frame_example :
    (length (batch_frame 1 records) ≡ header_size_for_transactions + total transaction_size records)
    × (length (batch_frame 1 records) ≡ header_size_for_accounts + total account_size records)
length-batch_frame_example = length-batch_frame 1 records

abbrev bit_text : Bool → Bytes
bit_text true = b'1' ∷ []
bit_text false = b'0' ∷ []

abbrev parse_bit : Bytes → Option Bool
parse_bit [] = none
parse_bit (c ∷ s) = some (nat_beq c b'1')

bit_parsed : (x : Bool) → parse_bit (bit_text x) ≡ some x
bit_parsed true = refl
bit_parsed false = refl

bit_plain : (x : Bool) → All (λ b. b ≢ b',') (bit_text x)
bit_plain true = (omega arith, tt)
bit_plain false = (omega arith, tt)

abbrev bits : FloatText
bits = record {
  F = Bool;
  format_float = bit_text;
  parse_float = parse_bit;
  rounded = λ x. x;
  parse_float-format_float = bit_parsed;
  format_float_plain = bit_plain;
}

abbrev banks : List MaxBankResult
banks = record { bank_name = b'b' ∷ []; account = b'a' ∷ []; amount = b'7' ∷ [] } ∷ []

abbrev payments : List (MicrotransactionResult Bool)
payments = record { account = b'a' ∷ []; to_account = b'b' ∷ []; amount = true } ∷ []

abbrev suspects : List SuspiciousAccount
suspects = record { bank = negsuc 0; account = b'a' ∷ [] } ∷ []

lengths :
    (length (
        max_bank_record (record { bank_name = b'b' ∷ []; account = b'a' ∷ []; amount = b'7' ∷ [] }))
      ≡ 5)
    × (length (
          microtransaction_record bits
            (record { account = b'a' ∷ []; to_account = b'b' ∷ []; amount = true }))
        ≡ 5)
    × (length (suspicious_record (record { bank = negsuc 0; account = b'a' ∷ [] })) ≡ 4)
unfolding max_bank_record microtransaction_record suspicious_record format_int format_uint
lengths = (refl, refl, refl)

receive_results-send_results_example :
    Arrives (send_max_bank_result banks) (receive_results bits 1) (map max_bank banks) connection
    × Arrives
        (send_microtransaction_result bits payments)
        (receive_results bits 1)
        (map (λ r. microtransaction (with_rounded bits r)) payments)
        connection
    × Arrives
        (send_suspicious_accounts_result suspects)
        (receive_results bits 1)
        (map (λ a. suspicious_accounts (a ∷ [])) suspects)
        connection
receive_results-send_results_example =
    receive_results-send_results bits banks payments suspects connection refl
      (((omega arith, tt), (omega arith, tt), (omega arith, tt), omega (arith, lengths.0)), tt)
      (((omega arith, tt), (omega arith, tt), omega (arith, lengths.1)), tt)
      ((omega arith, (omega arith, tt), omega (arith, lengths.2)), tt)

abbrev average : AvgByTypeResult
average = record { account = b'a' ∷ []; amount_paid = b'7' ∷ [] }

receive_result-send_result_example :
    Arrives (send_avg_by_type_result average) (receive_result bits) (avg_by_type average) connection
    × Arrives
        (send_converted_micro_payment_result (pos 4294967298))
        (receive_result bits)
        (converted_micro_payment (pos (to_uint32 (pos 4294967298))))
        connection
receive_result-send_result_example =
    receive_result-send_result bits average (pos 4294967298) connection refl (omega arith, tt)
      (omega arith, tt) (unfold avg_by_type_record in omega arith)
