-- ===== src/External/Batches.antt =====
-- external.go: batches of transactions and of accounts, from the client to the gateway.
use tp_lavado_dinero.Prelude.{
  ℕ, ◌+◌, ◌%◌, ◌<◌, ◌≡◌, refl, sym, ◌∙◌, subst, List, [], ◌∷◌, ◌++◌, arith, Bytes, length,
  length-append, total, All, Exec, ok, ◌>>=◌, pure,
}
use tp_lavado_dinero.External.Serializer.{
  u16_size, serialize_uint16, deserialize_uint16, deserialize_uint16-serialize_uint16,
}
use tp_lavado_dinero.External.Socket.{Connection, read_all, write_all-fine}
use tp_lavado_dinero.External.Defs.{
  transaction_batch, account_batch, record_frame, record_frames, batch_frame,
  send_transaction_batch, send_account_batch, receive_record, receive_records, receive_batch,
  receive_transaction_batch, receive_account_batch, header_size_for_transactions, transaction_size,
  header_size_for_accounts, account_size, transactions, accounts, receive_request, receive_msg,
  receive_msg_type,
}
use tp_lavado_dinero.External.Reads.{
  Reads, Reads-pure, Reads-bind, Reads-map, Reads-uint16, Reads-msg_type, Reads-record,
}

-- A list of records that the lengths can tell
abbrev pub Fits : List Bytes → Type 0
Fits rs = (0 < length rs) × (length rs < u16_size) × All (λ (r : Bytes). length r < u16_size) rs

Reads-records :
    (rs : List Bytes)
    → All (λ (r : Bytes). length r < u16_size) rs
    → Reads (record_frames rs) (receive_records (length rs)) rs
unfolding record_frames receive_records
Reads-records [] h = Reads-pure []
Reads-records (r ∷ rs) h =
    Reads-bind (record_frame r) (record_frames rs) receive_record
      (λ x. receive_records (length rs) >>= (λ xs. pure (x ∷ xs))) r (r ∷ rs) (Reads-record r h.0)
      (Reads-map (record_frames rs) (receive_records (length rs)) (λ xs. r ∷ xs) rs
        (Reads-records rs h.1))

Reads-batch :
    (rs : List Bytes)
    → Fits rs
    → Reads (serialize_uint16 (length rs % u16_size) ++ record_frames rs) receive_batch rs
unfolding receive_batch
Reads-batch rs (some', few, short) =
    let size = serialize_uint16 (length rs % u16_size) in
    let n : deserialize_uint16 size ≡ length rs =
      deserialize_uint16-serialize_uint16 (length rs % u16_size) (omega (arith, few))
      ∙ omega (arith, few) in
    Reads-bind size (record_frames rs) (read_all 2) (λ x. receive_records (deserialize_uint16 x))
      size rs (Reads-uint16 (length rs % u16_size))
      (subst (λ m. Reads (record_frames rs) (receive_records m) rs) (sym n)
        (Reads-records rs short))

Reads-transactions :
    (rs : List Bytes)
    → Fits rs
    → Reads (batch_frame transaction_batch rs) receive_msg (transactions rs)
unfolding batch_frame receive_msg receive_request receive_transaction_batch
Reads-transactions rs h =
    let body = serialize_uint16 (length rs % u16_size) ++ record_frames rs in
    Reads-bind (transaction_batch ∷ []) body receive_msg_type receive_request transaction_batch
      (transactions rs) (Reads-msg_type transaction_batch)
      (Reads-map body receive_batch transactions rs (Reads-batch rs h))

Reads-accounts :
    (rs : List Bytes) → Fits rs → Reads (batch_frame account_batch rs) receive_msg (accounts rs)
unfolding batch_frame receive_msg receive_request receive_account_batch
Reads-accounts rs h =
    let body = serialize_uint16 (length rs % u16_size) ++ record_frames rs in
    Reads-bind (account_batch ∷ []) body receive_msg_type receive_request account_batch
      (accounts rs) (Reads-msg_type account_batch)
      (Reads-map body receive_batch accounts rs (Reads-batch rs h))

-- What an action that succeeds writes is read as `a`.
pub record Arrives {A : Type 0} (send : Exec Connection (Unit {0})) (receive : Exec Connection A)
    (a : A) (s : Connection) : Type 0 where
  pub text : Bytes
  pub written : send s ≡ (ok tt, record s { sent = s.sent ++ text })
  pub read : Reads text receive a

sent_transactions :
    (rs : List Bytes) (s : Connection)
    → s.outcomes ≡ []
    → 0 < length rs
    → send_transaction_batch rs s
      ≡ (ok tt, record s { sent = s.sent ++ batch_frame transaction_batch rs })
unfolding send_transaction_batch
sent_transactions [] s e h = absurd (omega (arith, h))
sent_transactions (r ∷ rs) s e h = write_all-fine (batch_frame transaction_batch (r ∷ rs)) s e

sent_accounts :
    (rs : List Bytes) (s : Connection)
    → s.outcomes ≡ []
    → 0 < length rs
    → send_account_batch rs s ≡ (ok tt, record s { sent = s.sent ++ batch_frame account_batch rs })
unfolding send_account_batch
sent_accounts [] s e h = absurd (omega (arith, h))
sent_accounts (r ∷ rs) s e h = write_all-fine (batch_frame account_batch (r ∷ rs)) s e

-- Where writes succeed, a batch of 1 to 65535 records of less than 64 KiB each, be it of transactions
-- or of accounts, is written as one text that `ReceiveMsg` reads as that batch, whatever follows it.
pub receive_msg-send_batch :
    (rs : List Bytes) (s : Connection)
    → s.outcomes ≡ []
    → Fits rs
    → Arrives (send_transaction_batch rs) receive_msg (transactions rs) s
      × Arrives (send_account_batch rs) receive_msg (accounts rs) s
receive_msg-send_batch rs s e h = (
  record {
    text = batch_frame transaction_batch rs;
    written = sent_transactions rs s e h.0;
    read = Reads-transactions rs h;
  },
  record {
    text = batch_frame account_batch rs;
    written = sent_accounts rs s e h.0;
    read = Reads-accounts rs h;
  },
)

length-record_frames : (rs : List Bytes) → length (record_frames rs) ≡ total transaction_size rs
unfolding record_frames record_frame serialize_uint16
length-record_frames [] = refl
length-record_frames (r ∷ rs) =
    omega (arith, length-append r (record_frames rs), length-record_frames rs)

-- The sizes that the batchers of the client reckon with are those of the frames, and of no more: a
-- batch of either kind takes its header and the sizes of its records.
pub length-batch_frame :
    (kind : ℕ) (rs : List Bytes)
    → (length (batch_frame kind rs) ≡ header_size_for_transactions + total transaction_size rs)
      × (length (batch_frame kind rs) ≡ header_size_for_accounts + total account_size rs)
unfolding batch_frame serialize_uint16
length-batch_frame kind rs =
    (omega (arith, length-record_frames rs), omega (arith, length-record_frames rs))
