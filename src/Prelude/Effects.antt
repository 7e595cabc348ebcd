-- ===== src/Prelude/Effects.antt =====
-- Code that changes a state and may return an error. What was changed before the error stays.

pub data Error : Type 0 where
  -- a call outside the program (broker, disk, callback) failed
  call_failed : Error
  item_exceeds_max_size index_out_of_range : Error
  -- of the protocol between client and gateway
  connection_closed invalid_message_type invalid_record not_received_ack : Error

pub data Result {ℓ} (A : Type ℓ) : Type ℓ where
  ok : A → Result A
  err : Error → Result A

abbrev pub Exec {ℓ κ} : Type ℓ → Type κ → Type (ℓ ⊔ κ)
Exec S A = S → Result A × S

module _ {ℓ κ} {S : Type ℓ} where
  abbrev pub pure : {A : Type κ} → A → Exec S A
  pure a s = (ok a, s)

  abbrev pub raise : {A : Type κ} → Error → Exec S A
  raise e s = (err e, s)

  abbrev pub after {ι} : {A : Type κ} {B : Type ι} → (A → Exec S B) → Result A × S → Result B × S
  after f (ok a, s) = f a s
  after f (err e, s) = (err e, s)

  infixl 5 ◌>>=◌
  abbrev pub ◌>>=◌ {ι} : {A : Type κ} {B : Type ι} → Exec S A → (A → Exec S B) → Exec S B
  ◌>>=◌ m f s = after f (m s)

module _ {ℓ κ} {S : Type ℓ} where
  infixl 5 ◌>>◌
  abbrev pub ◌>>◌ : {B : Type κ} → Exec S (Unit {0}) → Exec S B → Exec S B
  m >> k = m >>= λ _. k

module _ {ℓ} {S : Type ℓ} where
  abbrev pub gets {κ} : {A : Type κ} → (S → A) → Exec S A
  gets f s = (ok (f s), s)

  abbrev pub modify : (S → S) → Exec S (Unit {0})
  modify f s = (ok tt, f s)
