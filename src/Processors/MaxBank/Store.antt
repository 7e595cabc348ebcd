-- ===== src/Processors/MaxBank/Store.antt =====
-- maxbankstore.go and record.go of groupers/maxbank: the store of a client.
use tp_lavado_dinero.Prelude.{
  Bool, true, false, none, some, [], ◌∷◌, Bytes, bytes_eq, ◌==◌, if◌then◌else◌,
}
use tp_lavado_dinero.GoMap.{Map, get, put}
use tp_lavado_dinero.Processors.Model.{ℤ, int_eq, Floats}

abbrev default_bank_name : Bytes
default_bank_name =
    b'U' ∷ b'n' ∷ b'k' ∷ b'n' ∷ b'o' ∷ b'w' ∷ b'n' ∷ b' ' ∷ b'B' ∷ b'a' ∷ b'n' ∷ b'k' ∷ []

pub record Record (F : Type 0) : Type 0 where
  pub account : Bytes
  pub amount_value : F
  pub amount_string : Bytes

pub record MaxBankStore (F : Type 0) : Type 0 where
  pub bank_names : Map ℤ Bytes
  pub max_transactions : Map ℤ (Record F)

module _ (fl : Floats) where
  open fl use {F, gt}

  abbrev pub Store : Type 0
  Store = MaxBankStore F

  abbrev pub new_store : Store
  new_store = record { bank_names = []; max_transactions = [] }

  -- Whether the name is new, and the store.
  unfoldable pub update_bank_name : ℤ → Bytes → Store → Bool × Store
  update_bank_name bank name s = elim (get s.bank_names bank) [
    | none ↦ (true, record s { bank_names = put s.bank_names bank name })
    | some current ↦
        if current == name
        then (false, s)
        else (true, record s { bank_names = put s.bank_names bank name })
  ]

  unfoldable pub bank_name_of : ℤ → Store → Bytes
  bank_name_of bank s = elim (get s.bank_names bank) [ none ↦ default_bank_name | some n ↦ n ]

  unfoldable pub set_max_transaction : ℤ → Record F → Store → Store
  set_max_transaction bank r s = record s { max_transactions = put s.max_transactions bank r }

  unfoldable pub update_max_transaction : ℤ → Record F → Store → Bool × Store
  unfolding set_max_transaction
  update_max_transaction bank r s = elim (get s.max_transactions bank) [
    | none ↦ (true, set_max_transaction bank r s)
    | some current ↦
        if gt r.amount_value current.amount_value
        then (true, set_max_transaction bank r s)
        else (false, s)
  ]
