-- ===== src/External/Defs.antt =====
-- external.go: ExternalProtocol. A float is a parameter, with its text of six decimals.
use tp_lavado_dinero.Prelude.{
  ℕ, zero, suc, ◌+◌, ◌%◌, ◌≡◌, Option, some, List, [], ◌∷◌, ◌++◌, Bytes, nat_beq, length,
  if◌then◌else◌, All, Exec, ◌>>=◌, pure, raise, index_out_of_range, invalid_message_type, ◌≢◌,
}
use tp_lavado_dinero.External.Serializer.{u16_size, serialize_uint16, deserialize_uint16}
use tp_lavado_dinero.External.Socket.{Connection, write_all, read_all}

-- float64 with fmt's %f and strconv.ParseFloat: the text has no comma, and is read as the number
-- rounded to six decimals.
pub record FloatText : Type 1 where
  pub F : Type 0
  pub format_float : F → Bytes
  pub parse_float : Bytes → Option F
  pub rounded : F → F
  pub parse_float-format_float : (x : F) → parse_float (format_float x) ≡ some (rounded x)
  pub format_float_plain : (x : F) → All (λ b. b ≢ b',') (format_float x)

-- The constants; `iota` counts from the first.
abbrev pub transaction_batch : ℕ
transaction_batch = 1

abbrev pub account_batch : ℕ
account_batch = 2

abbrev pub microtransaction_result : ℕ
microtransaction_result = 3

abbrev pub max_bank_result : ℕ
max_bank_result = 4

abbrev pub converted_micro_payment_result : ℕ
converted_micro_payment_result = 5

abbrev pub avg_by_type_result : ℕ
avg_by_type_result = 6

abbrev pub suspicious_accounts_result : ℕ
suspicious_accounts_result = 7

abbrev pub eof : ℕ
eof = 8

abbrev pub ack : ℕ
ack = 9

abbrev pub nack : ℕ
nack = 10

unfoldable pub send_msg_type : ℕ → Exec Connection (Unit {0})
unfolding write_all
send_msg_type msg_type = write_all (msg_type ∷ [])

-- serializer.DeserializeUint8; no bytes are a panic.
abbrev pub deserialize_uint8 : Bytes → Exec Connection ℕ
deserialize_uint8 [] = raise index_out_of_range
deserialize_uint8 (b ∷ text) = pure b

unfoldable pub receive_msg_type : Exec Connection ℕ
unfolding read_all
receive_msg_type = do text ← read_all 1; deserialize_uint8 text

-- The length of a record and the record
unfoldable pub record_frame : Bytes → Bytes
unfolding serialize_uint16
record_frame r = serialize_uint16 (length r % u16_size) ++ r

unfoldable pub record_frames : List Bytes → Bytes
unfolding record_frame
record_frames [] = []
record_frames (r ∷ rs) = record_frame r ++ record_frames rs

abbrev pub header_size_for_transactions : ℕ
header_size_for_transactions = 1 + 2

abbrev pub transaction_size : Bytes → ℕ
transaction_size text = 2 + length text

abbrev pub header_size_for_accounts : ℕ
header_size_for_accounts = header_size_for_transactions

abbrev pub account_size : Bytes → ℕ
account_size text = 2 + length text

unfoldable pub batch_frame : ℕ → List Bytes → Bytes
unfolding serialize_uint16 record_frames
batch_frame kind rs = kind ∷ (serialize_uint16 (length rs % u16_size) ++ record_frames rs)

unfoldable pub send_transaction_batch : List Bytes → Exec Connection (Unit {0})
unfolding write_all batch_frame
send_transaction_batch [] = pure tt
send_transaction_batch (r ∷ rs) = write_all (batch_frame transaction_batch (r ∷ rs))

unfoldable pub send_account_batch : List Bytes → Exec Connection (Unit {0})
unfolding write_all batch_frame
send_account_batch [] = pure tt
send_account_batch (r ∷ rs) = write_all (batch_frame account_batch (r ∷ rs))

-- A length and a text of that length
unfoldable pub receive_record : Exec Connection Bytes
unfolding read_all deserialize_uint16
receive_record = do size ← read_all 2; read_all (deserialize_uint16 size)

unfoldable pub receive_records : ℕ → Exec Connection (List Bytes)
unfolding receive_record
receive_records zero = pure []
receive_records (suc n) = do r ← receive_record; rs ← receive_records n; pure (r ∷ rs)

unfoldable pub receive_batch : Exec Connection (List Bytes)
unfolding read_all deserialize_uint16 receive_records
receive_batch = do size ← read_all 2; receive_records (deserialize_uint16 size)

-- request.Message
pub data Request : Type 0 where
  transactions accounts : List Bytes → Request
  request_eof : Request

unfoldable pub receive_transaction_batch : Exec Connection Request
unfolding receive_batch
receive_transaction_batch = do rs ← receive_batch; pure (transactions rs)

unfoldable pub receive_account_batch : Exec Connection Request
unfolding receive_batch
receive_account_batch = do rs ← receive_batch; pure (accounts rs)

unfoldable pub receive_request : ℕ → Exec Connection Request
unfolding receive_transaction_batch receive_account_batch
receive_request msg_type =
    if nat_beq msg_type transaction_batch
    then receive_transaction_batch
    else if nat_beq msg_type account_batch
    then receive_account_batch
    else if nat_beq msg_type eof
    then pure request_eof
    else raise invalid_message_type

unfoldable pub receive_msg : Exec Connection Request
unfolding receive_msg_type receive_request
receive_msg = do msg_type ← receive_msg_type; receive_request msg_type
