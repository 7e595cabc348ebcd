-- ===== src/Processors/Model.antt =====
-- internal/common/inner/model: accounts and pairs of them, with Go's int32 and what the processors
-- use of encoding/json and of floats.
use tp_lavado_dinero.Prelude.{
  ℕ, suc, ◌≡◌, ◌↔◌, Bool, true, false, ◌&&◌, Option, some, ◌∷◌, arith, Bytes, bytes_beq,
  bytes_beq_iff, nat_beq, Eq,
}
use tp_lavado_dinero.Decimal.{format_uint}

-- `negsuc n` is -(n + 1). An int32 is one of these.
pub data ℤ : Type 0 where
  pos negsuc : ℕ → ℤ

abbrev pub int_beq : ℤ → ℤ → Bool
int_beq (pos m) (pos n) = nat_beq m n
int_beq (pos m) (negsuc n) = false
int_beq (negsuc m) (pos n) = false
int_beq (negsuc m) (negsuc n) = nat_beq m n

pub int_beq_iff : (a b : ℤ) → (int_beq a b ≡ true) ↔ (a ≡ b)
int_beq_iff (pos m) (pos n) = ground arith
int_beq_iff (pos m) (negsuc n) = ground arith
int_beq_iff (negsuc m) (pos n) = ground arith
int_beq_iff (negsuc m) (negsuc n) = ground arith

instance abbrev pub int_eq : Eq ℤ
int_eq = record { beq = int_beq; beq_iff = int_beq_iff }

-- `%d` and strconv.FormatInt on an int32
unfoldable pub format_int : ℤ → Bytes
format_int (pos n) = format_uint n
format_int (negsuc n) = b'-' ∷ format_uint (suc n)

pub record Account : Type 0 where
  pub bank : ℤ
  pub account : Bytes

unfoldable pub account_beq : Account → Account → Bool
account_beq a b = int_beq a.bank b.bank && bytes_beq a.account b.account

pub account_beq_iff : (a b : Account) → (account_beq a b ≡ true) ↔ (a ≡ b)
unfolding account_beq
account_beq_iff a b = ground (arith, int_beq_iff a.bank b.bank, bytes_beq_iff a.account b.account)

instance abbrev pub account_eq : Eq Account
account_eq = record { beq = account_beq; beq_iff = account_beq_iff }

pub record OriginDestinationPair : Type 0 where
  pub origin : Account
  pub destination : Account

unfoldable pub pair_beq : OriginDestinationPair → OriginDestinationPair → Bool
pair_beq p q = account_beq p.origin q.origin && account_beq p.destination q.destination

pub pair_beq_iff : (p q : OriginDestinationPair) → (pair_beq p q ≡ true) ↔ (p ≡ q)
unfolding pair_beq
pair_beq_iff p q =
    ground (arith, account_beq_iff p.origin q.origin, account_beq_iff p.destination q.destination)

instance abbrev pub pair_eq : Eq OriginDestinationPair
pair_eq = record { beq = pair_beq; beq_iff = pair_beq_iff }

-- encoding/json on the values of one struct: Marshal, which may fail, and Unmarshal, with what the
-- code relies on, that a value that is written is read back.
pub record Json (V : Type 0) : Type 0 where
  pub marshal : V → Option Bytes
  pub unmarshal : Bytes → Option V
  pub unmarshal-marshal : (v : V) (text : Bytes) → marshal v ≡ some text → unmarshal text ≡ some v

-- float64 with `>` and strconv.ParseFloat; of the order the code relies on what also holds with NaN.
pub record Floats : Type 1 where
  pub F : Type 0
  pub gt : F → F → Bool
  pub parse_float : Bytes → Option F
  pub gt_irrefl : (x : F) → gt x x ≡ false
  pub gt_trans : (x y z : F) → gt x y ≡ true → gt y z ≡ true → gt x z ≡ true
