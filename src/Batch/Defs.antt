-- ===== src/Batch/Defs.antt =====
-- internal/common/batch/batch.go and Batcher.go.
use tp_lavado_dinero.Prelude.{
  ℕ, ◌+◌, ◌%◌, Bool, true, false, ◌&&◌, List, [], ◌∷◌, ◌++◌, Bytes, ltb, nat_beq, ◌==◌, bytes_eq,
  if◌then◌else◌, length, Result, ok, err, item_exceeds_max_size, Exec,
}
use tp_lavado_dinero.Decimal.{format_uint, u64_size}

abbrev pub default_batch_size : ℕ
default_batch_size = 8192

abbrev pub default_batch_id : Bytes
default_batch_id = []

pub record Batch {ℓ κ} (T : Type ℓ) (V : Type κ) : Type (ℓ ⊔ κ) where
  pub base_id : Bytes
  pub sub_id : Bytes
  pub max_weight : ℕ
  pub current_weight : ℕ
  pub items : List T
  pub sizer : T → ℕ
  pub wrapper : List T → V

module _ {ℓ κ} {T : Type ℓ} {V : Type κ} where
  -- `New`; a weight that is not positive stands for the default.
  unfoldable pub new : ℕ → (T → ℕ) → (List T → V) → Batch T V
  new max_weight sizer wrapper = record {
    base_id = [];
    sub_id = [];
    max_weight = if nat_beq max_weight 0 then default_batch_size else max_weight;
    current_weight = 0;
    items = [];
    sizer = sizer;
    wrapper = wrapper;
  }

  unfoldable pub try_add : Batch T V → T → Bool × Batch T V
  try_add b item =
      if ltb b.max_weight (b.current_weight + b.sizer item) && ltb 0 (length b.items)
      then (false, b)
      else (
        true,
        record b { items = b.items ++ item ∷ []; current_weight = b.current_weight + b.sizer item },
      )

  unfoldable pub clear : Batch T V → Batch T V
  clear b = record b { items = []; current_weight = 0 }

  unfoldable pub flush : Batch T V → V × Batch T V
  unfolding clear
  flush b = (b.wrapper b.items, clear b)

  unfoldable pub is_empty : Batch T V → Bool
  is_empty b = nat_beq b.current_weight 0

-- `Batcher`; `S` is the state that the callback changes.
pub record Batcher {ℓ κ ι} (S : Type ℓ) (T : Type κ) (V : Type ι) : Type (ℓ ⊔ κ ⊔ ι) where
  pub batch : Batch T V
  pub on_flush : V → Bytes → Exec S (Unit {0})
  pub batch_flushed : ℕ

-- fmt.Sprintf("%s-%d", base, n)
unfoldable pub numbered : Bytes → ℕ → Bytes
numbered base n = base ++ b'-' ∷ format_uint n

module _ {ℓ κ ι} {S : Type ℓ} {T : Type κ} {V : Type ι} where
  unfoldable pub new_batcher : Batch T V → (V → Bytes → Exec S (Unit {0})) → Batcher S T V
  new_batcher b on_flush = record { batch = b; on_flush = on_flush; batch_flushed = 0 }

  -- `uuid` is the text that uuid.New() returns in this call.
  unfoldable pub set_new_batch_id : Bytes → Batcher S T V → Bytes → Batcher S T V
  set_new_batch_id uuid s batch_id =
      let id : Bytes = if default_batch_id == batch_id then uuid else batch_id in
      if id == s.batch.base_id then s else record s {
        batch = record s.batch { base_id = id; sub_id = numbered id 0 };
        batch_flushed = 0;
      }

  -- The part of `Add` behind the callback's return.
  unfoldable pub add_emptied :
      Batcher S T V → T → Result (Unit {0}) × S → Result (Unit {0}) × Batcher S T V × S
  add_emptied s item (err e, w) = (err e, s, w)
  add_emptied s item (ok _, w) =
      let (added, b) = try_add s.batch item in
      let n : ℕ = (s.batch_flushed + 1) % u64_size in
      if added
      then (
        ok tt,
        record s { batch = record b { sub_id = numbered b.base_id n }; batch_flushed = n },
        w,
      )
      else (err item_exceeds_max_size, record s { batch = b }, w)

  unfoldable pub add : Batcher S T V → T → S → Result (Unit {0}) × Batcher S T V × S
  unfolding add_emptied
  add s item w =
      let (added, b) = try_add s.batch item in
      let (v, emptied) = flush s.batch in
      if added
      then (ok tt, record s { batch = b }, w)
      else add_emptied (record s { batch = emptied }) item (s.on_flush v s.batch.sub_id w)

  -- `Batcher.Flush`
  unfoldable pub flush_pending : Batcher S T V → S → Result (Unit {0}) × Batcher S T V × S
  flush_pending s w =
      let (v, emptied) = flush s.batch in
      let (r, w') = s.on_flush v s.batch.sub_id w in
      if is_empty s.batch then (ok tt, s, w) else (r, record s { batch = emptied }, w')

  -- `for _, item := range items { if err := batcher.Add(item); err != nil { return err } }`
  unfoldable pub add_all : Batcher S T V → List T → S → Result (Unit {0}) × Batcher S T V × S
  add_all s [] w = (ok tt, s, w)
  add_all s (x ∷ xs) w =
      let (r, s', w') = add s x w in elim r [ ok _ ↦ add_all s' xs w' | err e ↦ (err e, s', w') ]

  -- The same loop with the `Flush` behind it.
  unfoldable pub send_all : Batcher S T V → List T → S → Result (Unit {0}) × Batcher S T V × S
  send_all s xs w =
      let (r, s', w') = add_all s xs w in
      elim r [ ok _ ↦ flush_pending s' w' | err e ↦ (err e, s', w') ]
