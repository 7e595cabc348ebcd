-- ===== src/External/Results.antt =====
-- external.go: results, from the gateway to the client, and the acks of either side.
use tp_lavado_dinero.Prelude.{
  ℕ, zero, suc, ◌-◌, ◌%◌, true, false, Option, none, some, List, [], ◌∷◌, ◌++◌, Bytes, nat_beq, ltb,
  if◌then◌else◌, Exec, Result, ok, err, ◌>>=◌, ◌>>◌, pure, raise, invalid_message_type,
  invalid_record, not_received_ack,
}
use tp_lavado_dinero.Decimal.{parse_uint}
use tp_lavado_dinero.Processors.Model.{ℤ, pos, negsuc, format_int}
use tp_lavado_dinero.Processors.Loops.{for_each}
use tp_lavado_dinero.External.Serializer.{u32_size, serialize_uint32, deserialize_uint32}
use tp_lavado_dinero.External.Socket.{Connection, write_all, read_all}
use tp_lavado_dinero.External.Defs.{
  FloatText, microtransaction_result, max_bank_result, converted_micro_payment_result,
  avg_by_type_result, suspicious_accounts_result, eof, ack, nack, send_msg_type, receive_msg_type,
  record_frame, receive_record, deserialize_uint8,
}

pub record MicrotransactionResult (F : Type 0) : Type 0 where
  pub account : Bytes
  pub to_account : Bytes
  pub amount : F

pub record MaxBankResult : Type 0 where
  pub bank_name : Bytes
  pub account : Bytes
  pub amount : Bytes

pub record AvgByTypeResult : Type 0 where
  pub account : Bytes
  pub amount_paid : Bytes

pub record SuspiciousAccount : Type 0 where
  pub bank : ℤ
  pub account : Bytes

-- result.Result; a result of suspicious accounts has a list of them.
pub data ResultMessage (F : Type 0) : Type 0 where
  microtransaction : MicrotransactionResult F → ResultMessage F
  max_bank : MaxBankResult → ResultMessage F
  converted_micro_payment : (count : ℤ) → ResultMessage F
  avg_by_type : AvgByTypeResult → ResultMessage F
  suspicious_accounts : List SuspiciousAccount → ResultMessage F
  result_eof : ResultMessage F

abbrev pub i31_size : ℕ
i31_size = 2147483648

abbrev pub i63_size : ℕ
i63_size = 9223372036854775808

-- uint32(n) and int32(n)
unfoldable pub to_uint32 : ℤ → ℕ
to_uint32 (pos n) = n % u32_size
to_uint32 (negsuc n) = u32_size - 1 - n % u32_size

unfoldable pub signed32 : ℕ → ℤ
signed32 m = if ltb m i31_size then pos m else negsuc (u32_size - 1 - m)

unfoldable pub to_int32 : ℤ → ℤ
unfolding signed32 to_uint32
to_int32 n = signed32 (to_uint32 n)

-- strconv.Atoi
abbrev pub negative : ℕ → Option ℤ
negative zero = some (pos 0)
negative (suc n) = if ltb n i63_size then some (negsuc n) else none

abbrev pub positive : ℕ → Option ℤ
positive n = if ltb n i63_size then some (pos n) else none

abbrev pub and_then : {A B : Type 0} → (A → Option B) → Option A → Option B
and_then f none = none
and_then f (some a) = f a

unfoldable pub atoi : Bytes → Option ℤ
atoi [] = none
atoi (c ∷ s) =
    if nat_beq c b'-'
    then and_then negative (parse_uint s)
    else if nat_beq c b'+'
    then and_then positive (parse_uint s)
    else and_then positive (parse_uint (c ∷ s))

-- strings.Split(record, ","), behind the part `cur` of a field
unfoldable pub split_from : Bytes → Bytes → List Bytes
split_from cur [] = cur ∷ []
split_from cur (c ∷ s) = elim (nat_beq c b',') [
  | true ↦ cur ∷ split_from [] s
  | false ↦ split_from (cur ++ c ∷ []) s
]

unfoldable pub send_record : ℕ → Bytes → Exec Connection (Unit {0})
unfolding send_msg_type write_all record_frame
send_record msg_type r = do send_msg_type msg_type; write_all (record_frame r)

unfoldable pub max_bank_record : MaxBankResult → Bytes
max_bank_record r = r.bank_name ++ b',' ∷ (r.account ++ b',' ∷ r.amount)

unfoldable pub avg_by_type_record : AvgByTypeResult → Bytes
avg_by_type_record r = r.account ++ b',' ∷ r.amount_paid

unfoldable pub suspicious_record : SuspiciousAccount → Bytes
suspicious_record a = format_int a.bank ++ b',' ∷ a.account

unfoldable pub send_max_bank_result : List MaxBankResult → Exec Connection (Unit {0})
unfolding for_each send_record max_bank_record
send_max_bank_result = for_each (λ r. send_record max_bank_result (max_bank_record r))

unfoldable pub send_avg_by_type_result : AvgByTypeResult → Exec Connection (Unit {0})
unfolding send_record avg_by_type_record
send_avg_by_type_result r = send_record avg_by_type_result (avg_by_type_record r)

unfoldable pub send_suspicious_accounts_result : List SuspiciousAccount → Exec Connection (Unit {0})
unfolding for_each send_record suspicious_record
send_suspicious_accounts_result =
    for_each (λ a. send_record suspicious_accounts_result (suspicious_record a))

unfoldable pub send_converted_micro_payment_result : ℤ → Exec Connection (Unit {0})
unfolding send_msg_type write_all serialize_uint32 to_uint32
send_converted_micro_payment_result count = do
  send_msg_type converted_micro_payment_result
  write_all (serialize_uint32 (to_uint32 count))

unfoldable pub send_eof : Exec Connection (Unit {0})
unfolding send_msg_type
send_eof = send_msg_type eof

unfoldable pub send_ack : Exec Connection (Unit {0})
unfolding send_msg_type
send_ack = send_msg_type ack

unfoldable pub send_nack : Exec Connection (Unit {0})
unfolding send_msg_type
send_nack = send_msg_type nack

-- A byte that cannot be read is a panic: it is looked at before the error.
abbrev pub acknowledged : ℕ → Exec Connection (Unit {0})
acknowledged b = if nat_beq b ack then pure tt else raise not_received_ack

abbrev pub looked_at : Result Bytes × Connection → Result (Unit {0}) × Connection
looked_at (err e, s) = (deserialize_uint8 [] >>= acknowledged) s
looked_at (ok text, s) = (deserialize_uint8 text >>= acknowledged) s

unfoldable pub wait_ack : Exec Connection (Unit {0})
unfolding read_all
wait_ack s = looked_at (read_all 1 s)

module _ (fl : FloatText) where
  open fl use {F, format_float, parse_float}

  unfoldable pub microtransaction_record : MicrotransactionResult F → Bytes
  microtransaction_record r = r.account ++ b',' ∷ (r.to_account ++ b',' ∷ format_float r.amount)

  unfoldable pub send_microtransaction_result :
      List (MicrotransactionResult F) → Exec Connection (Unit {0})
  unfolding for_each send_record microtransaction_record
  send_microtransaction_result =
      for_each (λ r. send_record microtransaction_result (microtransaction_record r))

  abbrev pub or_invalid : Option (ResultMessage F) → Exec Connection (ResultMessage F)
  or_invalid none = raise invalid_record
  or_invalid (some r) = pure r

  abbrev pub microtransaction_of : List Bytes → Option (ResultMessage F)
  microtransaction_of (a ∷ b ∷ c ∷ []) =
      and_then (λ x. some (microtransaction (record { account = a; to_account = b; amount = x })))
        (parse_float c)
  microtransaction_of _ = none

  abbrev pub max_bank_of : List Bytes → Option (ResultMessage F)
  max_bank_of (a ∷ b ∷ c ∷ []) = some (max_bank (record { bank_name = a; account = b; amount = c }))
  max_bank_of _ = none

  abbrev pub avg_by_type_of : List Bytes → Option (ResultMessage F)
  avg_by_type_of (a ∷ b ∷ []) = some (avg_by_type (record { account = a; amount_paid = b }))
  avg_by_type_of _ = none

  abbrev pub suspicious_of : List Bytes → Option (ResultMessage F)
  suspicious_of (a ∷ b ∷ []) =
      and_then (λ n. some (suspicious_accounts (record { bank = to_int32 n; account = b } ∷ [])))
        (atoi a)
  suspicious_of _ = none

  -- A record, split at its commas and taken apart
  unfoldable pub receive_fields :
      (List Bytes → Option (ResultMessage F)) → Exec Connection (ResultMessage F)
  unfolding receive_record split_from
  receive_fields parse = do r ← receive_record; or_invalid (parse (split_from [] r))

  unfoldable pub receive_converted : Exec Connection (ResultMessage F)
  unfolding read_all deserialize_uint32
  receive_converted = do
    text ← read_all 4
    pure (converted_micro_payment (pos (deserialize_uint32 text)))

  unfoldable pub receive_result_of : ℕ → Exec Connection (ResultMessage F)
  unfolding receive_fields receive_converted
  receive_result_of k =
      if nat_beq k microtransaction_result
      then receive_fields microtransaction_of
      else if nat_beq k max_bank_result
      then receive_fields max_bank_of
      else if nat_beq k avg_by_type_result
      then receive_fields avg_by_type_of
      else if nat_beq k eof
      then pure result_eof
      else if nat_beq k converted_micro_payment_result
      then receive_converted
      else if nat_beq k suspicious_accounts_result
      then receive_fields suspicious_of
      else raise invalid_message_type

  unfoldable pub receive_result : Exec Connection (ResultMessage F)
  unfolding receive_msg_type receive_result_of
  receive_result = do k ← receive_msg_type; receive_result_of k
