-- ===== src/Processors/Samples.antt =====
-- Processors whose amounts are whole numbers and whose texts are lists of numbers, with a client `c`.
mod Banks
mod Related
pub mod Amounts
mod Gathered
use tp_lavado_dinero.Prelude.{
  ℕ, ◌≡◌, refl, subst, Bool, true, false, Option, none, some, List, [], ◌∷◌, arith, Bytes, ltb,
}
use tp_lavado_dinero.Decimal.{parse_uint}
use tp_lavado_dinero.Processors.Model.{ℤ, pos, negsuc, Json, Floats}
use tp_lavado_dinero.Processors.MaxBank.Defs.{BankNameValue, MaxTxValue}
use tp_lavado_dinero.Processors.Relations.Defs.{Relation}

pub above_irrefl : (a : ℕ) → ltb a a ≡ false
above_irrefl a = ground arith

pub above_trans : (a b c : ℕ) → ltb b a ≡ true → ltb c b ≡ true → ltb c a ≡ true
above_trans a b c h k = ground arith

abbrev pub numbers : Floats
numbers = record {
  F = ℕ;
  gt = λ a b. ltb b a;
  parse_float = parse_uint;
  gt_irrefl = above_irrefl;
  gt_trans = above_trans;
}

-- A bank name is written behind its bank; a negative bank is refused.
abbrev name_text : ℤ → Bytes → Option Bytes
name_text (pos n) name = some (n ∷ name)
name_text (negsuc n) name = none

abbrev read_name : Bytes → Option BankNameValue
read_name [] = none
read_name (n ∷ name) = some (record { bank_id = pos n; bank_name = name })

pub read_name-name_text :
    (b : ℤ) (name text : Bytes)
    → name_text b name ≡ some text
    → read_name text ≡ some (record { bank_id = b; bank_name = name })
read_name-name_text (pos n) name text h =
    let e : n ∷ name ≡ text = ground (arith, h) in rw (← e) refl
read_name-name_text (negsuc n) name text h = absurd (ground (arith, h))

abbrev pub names_json : Json BankNameValue
names_json = record {
  marshal = λ v. name_text v.bank_id v.bank_name;
  unmarshal = read_name;
  unmarshal-marshal = λ v text h. read_name-name_text v.bank_id v.bank_name text h;
}

-- An account of one byte
abbrev max_text : ℤ → Bytes → ℕ → Bytes → Option Bytes
max_text (pos n) (a ∷ []) amount text = some (n ∷ a ∷ amount ∷ text)
max_text (pos n) [] amount text = none
max_text (pos n) (a ∷ b ∷ s) amount text = none
max_text (negsuc n) s amount text = none

abbrev read_max : Bytes → Option (MaxTxValue ℕ)
read_max (n ∷ a ∷ amount ∷ text) =
    some (record { bank_id = pos n; account = a ∷ []; amount_value = amount; amount_string = text })
read_max _ = none

pub read_max-max_text :
    (b : ℤ) (s : Bytes) (amount : ℕ) (t text : Bytes)
    → max_text b s amount t ≡ some text
    → read_max text
      ≡ some (record { bank_id = b; account = s; amount_value = amount; amount_string = t })
read_max-max_text (pos n) (a ∷ []) amount t text h =
    let e : n ∷ a ∷ amount ∷ t ≡ text = ground (arith, h) in rw (← e) refl
read_max-max_text (pos n) [] amount t text h = absurd (ground (arith, h))
read_max-max_text (pos n) (a ∷ b ∷ s) amount t text h = absurd (ground (arith, h))
read_max-max_text (negsuc n) s amount t text h = absurd (ground (arith, h))

abbrev pub maxima_json : Json (MaxTxValue ℕ)
maxima_json = record {
  marshal = λ v. max_text v.bank_id v.account v.amount_value v.amount_string;
  unmarshal = read_max;
  unmarshal-marshal =
      λ v text h. read_max-max_text v.bank_id v.account v.amount_value v.amount_string text h;
}

abbrev relation_text : ℤ → Bytes → ℤ → Bytes → Option Bytes
relation_text (pos n) (a ∷ []) (pos m) t = some (n ∷ a ∷ m ∷ t)
relation_text (pos n) (a ∷ []) (negsuc m) t = none
relation_text (pos n) [] m t = none
relation_text (pos n) (a ∷ b ∷ s) m t = none
relation_text (negsuc n) s m t = none

abbrev read_relation : Bytes → Option Relation
read_relation (n ∷ a ∷ m ∷ t) =
    some (record {
      base_bank = pos n;
      base_account = a ∷ [];
      related_bank = pos m;
      related_account = t;
    })
read_relation _ = none

pub read_relation-relation_text :
    (b : ℤ) (s : Bytes) (c : ℤ) (t text : Bytes)
    → relation_text b s c t ≡ some text
    → read_relation text
      ≡ some (record { base_bank = b; base_account = s; related_bank = c; related_account = t })
read_relation-relation_text (pos n) (a ∷ []) (pos m) t text h =
    let e : n ∷ a ∷ m ∷ t ≡ text = ground (arith, h) in rw (← e) refl
read_relation-relation_text (pos n) (a ∷ []) (negsuc m) t text h = absurd (ground (arith, h))
read_relation-relation_text (pos n) [] m t text h = absurd (ground (arith, h))
read_relation-relation_text (pos n) (a ∷ b ∷ s) m t text h = absurd (ground (arith, h))
read_relation-relation_text (negsuc n) s m t text h = absurd (ground (arith, h))

abbrev pub relations_json : Json Relation
relations_json = record {
  marshal = λ v. relation_text v.base_bank v.base_account v.related_bank v.related_account;
  unmarshal = read_relation;
  unmarshal-marshal = λ v text h.
      read_relation-relation_text v.base_bank v.base_account v.related_bank v.related_account text
        h;
}

abbrev pub client : Bytes
client = b'c' ∷ []
