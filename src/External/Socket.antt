-- ===== src/External/Socket.antt =====
-- socket.go: a connection with the bytes that are still to be read, those that have been written, and
-- which of the writes to come succeed (those behind the end of the list do). A write that fails has
-- written nothing; the peer's closing is the end of the bytes to be read.
use tp_lavado_dinero.Prelude.{
  ℕ, zero, suc, ◌≡◌, refl, sym, ap, append-nil, Bool, true, false, Option, none, some, List, [],
  ◌∷◌, ◌++◌, Bytes, length, Exec, ok, err, connection_closed,
}

pub record Connection : Type 0 where
  pub incoming : Bytes
  pub sent : Bytes
  pub outcomes : List Bool

abbrev with_outcome : List Bool → Bytes → Exec Connection (Unit {0})
with_outcome [] text s = (ok tt, record s { sent = s.sent ++ text })
with_outcome (true ∷ os) text s = (ok tt, record s { sent = s.sent ++ text; outcomes = os })
with_outcome (false ∷ os) text s = (err connection_closed, record s { outcomes = os })

unfoldable pub write_all : Bytes → Exec Connection (Unit {0})
write_all [] s = (ok tt, s)
write_all (b ∷ text) s = with_outcome s.outcomes (b ∷ text) s

-- The first `n` bytes and the rest, if there are as many
unfoldable pub take_bytes : ℕ → Bytes → Option (Bytes × Bytes)
take_bytes zero s = some ([], s)
take_bytes (suc n) [] = none
take_bytes (suc n) (b ∷ s) = elim (take_bytes n s) [ none ↦ none | some r ↦ some (b ∷ r.0, r.1) ]

unfoldable pub read_all : ℕ → Exec Connection Bytes
unfolding take_bytes
read_all n s = elim (take_bytes n s.incoming) [
  | none ↦ (err connection_closed, record s { incoming = [] })
  | some r ↦ (ok r.0, record s { incoming = r.1 })
]

pub take_bytes-length : (t rest : Bytes) → take_bytes (length t) (t ++ rest) ≡ some (t, rest)
unfolding take_bytes
take_bytes-length [] rest = refl
take_bytes-length (b ∷ t) rest = rw (take_bytes-length t rest) refl

-- As many bytes as a text has are that text.
pub read_all-length :
    (t rest : Bytes) (s : Connection)
    → read_all (length t) (record s { incoming = t ++ rest }) ≡ (ok t, record s { incoming = rest })
unfolding read_all
read_all-length t rest s = rw (read_all, take_bytes-length t rest) refl

pub write_all-fine :
    (text : Bytes) (s : Connection)
    → s.outcomes ≡ []
    → write_all text s ≡ (ok tt, record s { sent = s.sent ++ text })
unfolding write_all
write_all-fine [] s e = ap (λ x. (ok tt, record s { sent = x })) (sym (append-nil s.sent))
write_all-fine (b ∷ text) s e = rw e refl
