-- ===== src/External/Reads.antt =====
-- external.go: what it is for a receiver to read a piece of the stream, and what sequences of reads do.
use tp_lavado_dinero.Prelude.{
  ℕ, ◌%◌, ◌<◌, ◌≡◌, refl, sym, ap, ◌∙◌, subst, [], ◌∷◌, ◌++◌, append_assoc, arith, Bytes, length,
  Exec, ok, ◌>>=◌, after, pure,
}
use tp_lavado_dinero.External.Serializer.{
  u16_size, serialize_uint16, deserialize_uint16, deserialize_uint16-serialize_uint16,
}
use tp_lavado_dinero.External.Socket.{Connection, read_all, read_all-length}
use tp_lavado_dinero.External.Defs.{
  record_frame, receive_record, receive_msg_type, deserialize_uint8,
}

-- With `text` before any rest, `m` gives `a` and leaves the rest.
pub record Reads {κ} {A : Type κ} (text : Bytes) (m : Exec Connection A) (a : A) : Type κ where
  pub at :
      (rest : Bytes) (s : Connection)
      → m (record s { incoming = text ++ rest }) ≡ (ok a, record s { incoming = rest })

module _ {A : Type 0} where
  pub Reads-pure : (a : A) → Reads [] (pure a) a
  Reads-pure a = record { at = λ rest s. refl }

module _ {A B : Type 0} where
  pub Reads-bind :
      (t u : Bytes) (m : Exec Connection A) (f : A → Exec Connection B) (a : A) (b : B)
      → Reads t m a
      → Reads u (f a) b
      → Reads (t ++ u) (m >>= f) b
  Reads-bind t u m f a b g h = record {
    at = λ rest s.
        ap (λ x. (m >>= f) (record s { incoming = x })) (append_assoc t u rest)
        ∙ (ap (after f) (g.at (u ++ rest) s) ∙ h.at rest s);
  }

  -- A last step that only makes something of what was read
  pub Reads-map :
      (t : Bytes) (m : Exec Connection A) (f : A → B) (a : A)
      → Reads t m a
      → Reads t (m >>= (λ x. pure (f x))) (f a)
  Reads-map t m f a g = record { at = λ rest s. ap (after (λ x. pure (f x))) (g.at rest s) }

pub Reads-read_all : (t : Bytes) → Reads t (read_all (length t)) t
Reads-read_all t = record { at = λ rest s. read_all-length t rest s }

pub Reads-uint16 : (n : ℕ) → Reads (serialize_uint16 n) (read_all 2) (serialize_uint16 n)
unfolding serialize_uint16
Reads-uint16 n = Reads-read_all (serialize_uint16 n)

pub Reads-msg_type : (k : ℕ) → Reads (k ∷ []) receive_msg_type k
unfolding receive_msg_type
Reads-msg_type k = record {
  at = λ rest s. ap (after deserialize_uint8) (read_all-length (k ∷ []) rest s);
}

pub Reads-record : (r : Bytes) → length r < u16_size → Reads (record_frame r) receive_record r
unfolding record_frame receive_record
Reads-record r h =
    let size = serialize_uint16 (length r % u16_size) in
    let n : deserialize_uint16 size ≡ length r =
      deserialize_uint16-serialize_uint16 (length r % u16_size) (omega (arith, h))
      ∙ omega (arith, h) in
    Reads-bind size r (read_all 2) (λ x. read_all (deserialize_uint16 x)) size r
      (Reads-uint16 (length r % u16_size))
      (subst (λ m. Reads r (read_all m) r) (sym n) (Reads-read_all r))
