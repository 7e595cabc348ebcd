-- ===== src/External/Delivered.antt =====
-- external.go: what the gateway sends as results is what the client receives.
use tp_lavado_dinero.Prelude.{
  ℕ, zero, suc, ◌<◌, ◌≡◌, sym, ap, ◌∙◌, subst, Option, some, List, [], ◌∷◌, ◌++◌, map, append-nil,
  append_assoc, arith, Bytes, length, All, Exec, ok, ◌>>=◌, after, pure,
}
use tp_lavado_dinero.Processors.Model.{ℤ, pos, negsuc, format_int}
use tp_lavado_dinero.Processors.Loops.{for_each}
use tp_lavado_dinero.External.Serializer.{
  u16_size, u32_size, serialize_uint32, deserialize_uint32, deserialize_uint32-serialize_uint32,
}
use tp_lavado_dinero.External.Socket.{Connection, read_all, write_all, write_all-fine}
use tp_lavado_dinero.External.Defs.{
  FloatText, microtransaction_result, max_bank_result, converted_micro_payment_result,
  avg_by_type_result, suspicious_accounts_result, send_msg_type, receive_msg_type, record_frame,
}
use tp_lavado_dinero.External.Results.{
  MicrotransactionResult, MaxBankResult, AvgByTypeResult, SuspiciousAccount, ResultMessage,
  microtransaction, max_bank, converted_micro_payment, avg_by_type, suspicious_accounts, to_uint32,
  to_int32, split_from, send_record, max_bank_record, avg_by_type_record, suspicious_record,
  microtransaction_record, send_max_bank_result, send_avg_by_type_result,
  send_suspicious_accounts_result, send_converted_micro_payment_result,
  send_microtransaction_result, or_invalid, microtransaction_of, max_bank_of, avg_by_type_of,
  suspicious_of, receive_fields, receive_converted, receive_result_of, receive_result, and_then,
}
use tp_lavado_dinero.External.Reads.{
  Reads, Reads-pure, Reads-bind, Reads-map, Reads-read_all, Reads-msg_type, Reads-record,
}
use tp_lavado_dinero.External.Batches.{Arrives}
use tp_lavado_dinero.External.Fields.{
  IsField, split_two, split_three, IsInt32, format_int-IsField, to_int32-in_range, atoi-format_int,
}

send_record-fine :
    (kind : ℕ) (r : Bytes) (s : Connection)
    → s.outcomes ≡ []
    → send_record kind r s ≡ (ok tt, record s { sent = s.sent ++ kind ∷ record_frame r })
unfolding send_record send_msg_type
send_record-fine kind r s e =
    ap (after (λ (_ : Unit {0}). write_all (record_frame r))) (write_all-fine (kind ∷ []) s e)
    ∙ (write_all-fine (record_frame r) (record s { sent = s.sent ++ kind ∷ [] }) e
        ∙ ap (λ x. (ok tt, record s { sent = x }))
            (append_assoc s.sent (kind ∷ []) (record_frame r)))

module _ (fl : FloatText) where
  open fl use {F, rounded, format_float, parse_float}

  -- ReceiveResult, so many times
  unfoldable pub receive_results : ℕ → Exec Connection (List (ResultMessage F))
  unfolding receive_result
  receive_results zero = pure []
  receive_results (suc n) = do r ← receive_result fl; rs ← receive_results n; pure (r ∷ rs)

  module _ {V : Type 0} (kind : ℕ) (text : V → Bytes) (value : V → ResultMessage F)
      (IsFit : V → Type 0)
      (one : (v : V)
        → IsFit v
        → Reads (kind ∷ record_frame (text v)) (receive_result fl) (value v)) where
    frames : List V → Bytes
    frames [] = []
    frames (v ∷ vs) = (kind ∷ record_frame (text v)) ++ frames vs

    all_sent :
        (vs : List V) (s : Connection)
        → s.outcomes ≡ []
        → for_each (λ v. send_record kind (text v)) vs s
          ≡ (ok tt, record s { sent = s.sent ++ frames vs })
    unfolding for_each frames
    all_sent [] s e = ap (λ x. (ok tt, record s { sent = x })) (sym (append-nil s.sent))
    all_sent (v ∷ vs) s e =
        let frame = kind ∷ record_frame (text v) in
        ap (after (λ (_ : Unit {0}). for_each (λ u. send_record kind (text u)) vs))
          (send_record-fine kind (text v) s e)
        ∙ (all_sent vs (record s { sent = s.sent ++ frame }) e
            ∙ ap (λ x. (ok tt, record s { sent = x })) (append_assoc s.sent frame (frames vs)))

    all_read :
        (vs : List V)
        → All IsFit vs
        → Reads (frames vs) (receive_results (length vs)) (map value vs)
    unfolding frames receive_results
    all_read [] h = Reads-pure []
    all_read (v ∷ vs) h =
        Reads-bind (kind ∷ record_frame (text v)) (frames vs) (receive_result fl)
          (λ r. receive_results (length vs) >>= (λ rs. pure (r ∷ rs))) (value v)
          (value v ∷ map value vs) (one v h.0)
          (Reads-map (frames vs) (receive_results (length vs)) (λ rs. value v ∷ rs) (map value vs)
            (all_read vs h.1))

    all_arrive :
        (vs : List V) (s : Connection)
        → s.outcomes ≡ []
        → All IsFit vs
        → Arrives
            (for_each (λ v. send_record kind (text v)) vs)
            (receive_results (length vs))
            (map value vs)
            s
    all_arrive vs s e h = record {
      text = frames vs;
      written = all_sent vs s e;
      read = all_read vs h;
    }

  -- A record that is read as its fields
  Reads-fields :
      (parse : List Bytes → Option (ResultMessage F)) (r : Bytes) (v : ResultMessage F)
      → length r < u16_size
      → parse (split_from [] r) ≡ some v
      → Reads (record_frame r) (receive_fields fl parse) v
  unfolding receive_fields
  Reads-fields parse r v h e = record {
    at = λ rest s.
        ap (after (λ x. or_invalid fl (parse (split_from [] x)))) ((Reads-record r h).at rest s)
        ∙ ap (λ o. or_invalid fl o (record s { incoming = rest })) e;
  }

  abbrev pub IsMaxBankFit : MaxBankResult → Type 0
  IsMaxBankFit r =
      IsField r.bank_name
      × IsField r.account
      × IsField r.amount
      × (length (max_bank_record r) < u16_size)

  abbrev pub IsMicrotransactionFit : MicrotransactionResult F → Type 0
  IsMicrotransactionFit r =
      IsField r.account × IsField r.to_account × (length (microtransaction_record fl r) < u16_size)

  abbrev pub IsSuspiciousFit : SuspiciousAccount → Type 0
  IsSuspiciousFit a = IsInt32 a.bank × IsField a.account × (length (suspicious_record a) < u16_size)

  Reads-max_bank :
      (r : MaxBankResult)
      → IsMaxBankFit r
      → Reads (max_bank_result ∷ record_frame (max_bank_record r)) (receive_result fl) (max_bank r)
  unfolding receive_result receive_result_of max_bank_record
  Reads-max_bank r (h1, h2, h3, short) =
      Reads-bind (max_bank_result ∷ []) (record_frame (max_bank_record r)) receive_msg_type
        (receive_result_of fl) max_bank_result (max_bank r) (Reads-msg_type max_bank_result)
        (Reads-fields (max_bank_of fl) (max_bank_record r) (max_bank r) short
          (ap (max_bank_of fl) (split_three r.bank_name r.account r.amount h1 h2 h3)))

  abbrev pub with_rounded : MicrotransactionResult F → MicrotransactionResult F
  with_rounded r = record r { amount = rounded r.amount }

  Reads-microtransaction :
      (r : MicrotransactionResult F)
      → IsMicrotransactionFit r
      → Reads
          (microtransaction_result ∷ record_frame (microtransaction_record fl r))
          (receive_result fl)
          (microtransaction (with_rounded r))
  unfolding receive_result receive_result_of microtransaction_record
  Reads-microtransaction r (h1, h2, short) =
      Reads-bind (microtransaction_result ∷ []) (record_frame (microtransaction_record fl r))
        receive_msg_type (receive_result_of fl) microtransaction_result
        (microtransaction (with_rounded r)) (Reads-msg_type microtransaction_result)
        (Reads-fields (microtransaction_of fl) (microtransaction_record fl r)
          (microtransaction (with_rounded r)) short
          (ap (microtransaction_of fl) (
              split_three r.account r.to_account (format_float r.amount) h1 h2
                (fl.format_float_plain r.amount))
            ∙ ap
                (and_then (λ x. some (
                  microtransaction
                    (record { account = r.account; to_account = r.to_account; amount = x }))))
                (fl.parse_float-format_float r.amount)))

  Reads-suspicious :
      (a : SuspiciousAccount)
      → IsSuspiciousFit a
      → Reads
          (suspicious_accounts_result ∷ record_frame (suspicious_record a))
          (receive_result fl)
          (suspicious_accounts (a ∷ []))
  unfolding receive_result receive_result_of suspicious_record
  Reads-suspicious a (h1, h2, short) =
      Reads-bind (suspicious_accounts_result ∷ []) (record_frame (suspicious_record a))
        receive_msg_type (receive_result_of fl) suspicious_accounts_result
        (suspicious_accounts (a ∷ [])) (Reads-msg_type suspicious_accounts_result)
        (Reads-fields (suspicious_of fl) (suspicious_record a) (suspicious_accounts (a ∷ [])) short
          (ap (suspicious_of fl)
              (split_two (format_int a.bank) a.account (format_int-IsField a.bank) h2)
            ∙ (ap
                  (and_then (λ n.
                    some (
                      suspicious_accounts
                        (record { bank = to_int32 n; account = a.account } ∷ []))))
                  (atoi-format_int a.bank h1)
                ∙ ap
                    (λ n.
                      some (suspicious_accounts (record { bank = n; account = a.account } ∷ [])))
                    (to_int32-in_range a.bank h1))))

  -- Where writes succeed, the client receives the lists of results that the gateway sends, one by one and
  -- in their order, if their texts have no commas, their lengths fit into two bytes and banks are
  -- int32: bank maxima as they are, transactions with their amounts rounded to six decimals, suspicious
  -- accounts each in a result of its own.
  pub receive_results-send_results :
      (banks : List MaxBankResult) (transactions : List (MicrotransactionResult F))
      (accounts : List SuspiciousAccount) (s : Connection)
      → s.outcomes ≡ []
      → All IsMaxBankFit banks
      → All IsMicrotransactionFit transactions
      → All IsSuspiciousFit accounts
      → Arrives (send_max_bank_result banks) (receive_results (length banks)) (map max_bank banks) s
        × Arrives
            (send_microtransaction_result fl transactions)
            (receive_results (length transactions))
            (map (λ r. microtransaction (with_rounded r)) transactions)
            s
        × Arrives
            (send_suspicious_accounts_result accounts)
            (receive_results (length accounts))
            (map (λ a. suspicious_accounts (a ∷ [])) accounts)
            s
  unfolding send_max_bank_result send_microtransaction_result send_suspicious_accounts_result
  receive_results-send_results banks transactions accounts s e hb ht ha = (
    all_arrive max_bank_result max_bank_record max_bank IsMaxBankFit Reads-max_bank banks s e hb,
    all_arrive microtransaction_result (microtransaction_record fl)
        (λ r. microtransaction (with_rounded r)) IsMicrotransactionFit Reads-microtransaction
        transactions s e ht,
    all_arrive suspicious_accounts_result suspicious_record (λ a. suspicious_accounts (a ∷ []))
        IsSuspiciousFit Reads-suspicious accounts s e ha,
  )

  Reads-converted :
      (n : ℕ)
      → n < u32_size
      → Reads
          (converted_micro_payment_result ∷ serialize_uint32 n)
          (receive_result fl)
          (converted_micro_payment (pos n))
  unfolding receive_result receive_result_of receive_converted serialize_uint32
  Reads-converted n h =
      Reads-bind (converted_micro_payment_result ∷ []) (serialize_uint32 n) receive_msg_type
        (receive_result_of fl) converted_micro_payment_result (converted_micro_payment (pos n))
        (Reads-msg_type converted_micro_payment_result)
        (subst (Reads (serialize_uint32 n) (receive_converted fl))
          (ap (λ m. converted_micro_payment (pos m)) (deserialize_uint32-serialize_uint32 n h))
          (Reads-map (serialize_uint32 n) (read_all 4)
            (λ t. converted_micro_payment (pos (deserialize_uint32 t))) (serialize_uint32 n)
            (Reads-read_all (serialize_uint32 n))))

  to_uint32_fits : (z : ℤ) → to_uint32 z < u32_size
  unfolding to_uint32
  to_uint32_fits (pos n) = omega arith
  to_uint32_fits (negsuc n) = omega arith

  -- Where writes succeed, the client receives an average as it is, if its texts have no commas and
  -- its record is shorter than 2 ^ 16 bytes, and a count as its remainder by 2 ^ 32.
  pub receive_result-send_result :
      (r : AvgByTypeResult) (count : ℤ) (s : Connection)
      → s.outcomes ≡ []
      → IsField r.account
      → IsField r.amount_paid
      → length (avg_by_type_record r) < u16_size
      → Arrives (send_avg_by_type_result r) (receive_result fl) (avg_by_type r) s
        × Arrives
            (send_converted_micro_payment_result count)
            (receive_result fl)
            (converted_micro_payment (pos (to_uint32 count)))
            s
  unfolding send_avg_by_type_result send_converted_micro_payment_result receive_result
      receive_result_of avg_by_type_record send_msg_type
  receive_result-send_result r count s e h1 h2 short =
      let text = serialize_uint32 (to_uint32 count) in
      (
        record {
          text = avg_by_type_result ∷ record_frame (avg_by_type_record r);
          written = send_record-fine avg_by_type_result (avg_by_type_record r) s e;
          read =
              Reads-bind (avg_by_type_result ∷ []) (record_frame (avg_by_type_record r))
                receive_msg_type (receive_result_of fl) avg_by_type_result (avg_by_type r)
                (Reads-msg_type avg_by_type_result)
                (Reads-fields (avg_by_type_of fl) (avg_by_type_record r) (avg_by_type r) short
                  (ap (avg_by_type_of fl) (split_two r.account r.amount_paid h1 h2)));
        },
        record {
          text = converted_micro_payment_result ∷ text;
          written =
              ap (after (λ (_ : Unit {0}). write_all text))
                (write_all-fine (converted_micro_payment_result ∷ []) s e)
              ∙ (write_all-fine text
                    (record s { sent = s.sent ++ converted_micro_payment_result ∷ [] }) e
                  ∙ ap (λ x. (ok tt, record s { sent = x }))
                      (append_assoc s.sent (converted_micro_payment_result ∷ []) text));
          read = Reads-converted (to_uint32 count) (to_uint32_fits count);
        },
      )
