-- ===== src/Processors/Relations/Defs.antt =====
-- groupers/origindestination: the store of a client, the tracker of changes and the two processors,
-- which differ in which account of an item they group by.
use tp_lavado_dinero.Prelude.{
  ℕ, suc, ◌%◌, ◌≡◌, ◌↔◌, Bool, true, false, ◌&&◌, Option, none, some, List, [], ◌∷◌, ◌++◌, Bytes,
  bytes_eq, bytes_beq, bytes_beq_iff, arith, Eq, ltb, ◌==◌, if◌then◌else◌, Exec, Result, ok, err,
  call_failed, ◌>>◌, pure, length,
}
use tp_lavado_dinero.Decimal.{u64_size}
use tp_lavado_dinero.GoMap.{Map, get, put, remove, or_empty, is_some, keys}
use tp_lavado_dinero.Checkpoint.Line.{CheckpointChange}
use tp_lavado_dinero.Checkpoint.Defs.{Processor}
use tp_lavado_dinero.Processors.Model.{
  ℤ, int_beq, int_beq_iff, format_int, Account, account_eq, Json,
}
use tp_lavado_dinero.Processors.Loops.{each, for_each}

abbrev pub relation_kind : Bytes
relation_kind = b'r' ∷ b'e' ∷ b'l' ∷ b'a' ∷ b't' ∷ b'i' ∷ b'o' ∷ b'n' ∷ []

-- protobuf.ScatterGather
pub record ScatterGather : Type 0 where
  pub from_bank : ℤ
  pub account : Bytes
  pub to_bank : ℤ
  pub to_account : Bytes

-- protobuf.GroupedAccounts
pub record GroupedAccounts : Type 0 where
  pub base_account : Account
  pub related_accounts : List Account

-- relationCheckpointValue
pub record Relation : Type 0 where
  pub base_bank : ℤ
  pub base_account : Bytes
  pub related_bank : ℤ
  pub related_account : Bytes

abbrev pub relation_beq : Relation → Relation → Bool
relation_beq v w =
    (int_beq v.base_bank w.base_bank && bytes_beq v.base_account w.base_account)
    && (int_beq v.related_bank w.related_bank && bytes_beq v.related_account w.related_account)

pub relation_beq_iff : (v w : Relation) → (relation_beq v w ≡ true) ↔ (v ≡ w)
relation_beq_iff v w = ground (
  arith,
  int_beq_iff v.base_bank w.base_bank,
  bytes_beq_iff v.base_account w.base_account,
  int_beq_iff v.related_bank w.related_bank,
  bytes_beq_iff v.related_account w.related_account,
)

instance abbrev pub relation_eq : Eq Relation
relation_eq = record { beq = relation_beq; beq_iff = relation_beq_iff }

abbrev pub base_of : Relation → Account
base_of v = record { bank = v.base_bank; account = v.base_account }

abbrev pub related_of : Relation → Account
related_of v = record { bank = v.related_bank; account = v.related_account }

abbrev pub relation : Account → Account → Relation
relation base related = record {
  base_bank = base.bank;
  base_account = base.account;
  related_bank = related.bank;
  related_account = related.account;
}

-- "%d:%s:%d:%s"
unfoldable pub relation_key : Relation → Bytes
relation_key v =
    format_int v.base_bank
    ++ b':' ∷ (v.base_account ++ b':' ∷ (format_int v.related_bank ++ b':' ∷ v.related_account))

-- AccountStore: the accounts that are related to each account
abbrev pub AccountStore : Type 0
AccountStore = Map Account (Map Account (Unit {0}))

unfoldable pub related_to : Account → AccountStore → Map Account (Unit {0})
related_to base s = or_empty (get s base)

-- Whether the relation is new, and the store.
unfoldable pub add : Account → Account → AccountStore → Bool × AccountStore
unfolding related_to
add base related s =
    if is_some (get (related_to base s) related)
    then (false, s)
    else (true, put s base (put (related_to base s) related tt))

pub record P : Type 0 where
  pub stores : Map Bytes AccountStore
  pub dirty_relations : Map Bytes (Map Relation (Unit {0}))

abbrev pub new_processor : P
new_processor = record { stores = []; dirty_relations = [] }

-- The store of a client as it is found, or a new one.
unfoldable pub store_of : Bytes → P → AccountStore
store_of id p = or_empty (get p.stores id)

abbrev pub with_store : Bytes → AccountStore → P → P
with_store id s p = record p { stores = put p.stores id s }

-- `getOrCreateStore`: a new store stays in the map.
unfoldable pub get_or_create_store : Bytes → P → P
unfolding store_of
get_or_create_store id p = with_store id (store_of id p) p

abbrev pub dirty : Bytes → P → Map Relation (Unit {0})
dirty id p = or_empty (get p.dirty_relations id)

unfoldable pub mark_relation_added : Bytes → Relation → P → P
mark_relation_added id v p = record p {
  dirty_relations = put p.dirty_relations id (put (dirty id p) v tt);
}

-- GroupByOriginProcessor and GroupByDestinationProcessor
pub data Side : Type 0 where
  by_origin by_destination : Side

-- The relation of an item, in the order in which `Process` adds it.
unfoldable pub relation_of : Side → ScatterGather → Relation
relation_of by_origin m =
    relation (record { bank = m.from_bank; account = m.account })
      (record { bank = m.to_bank; account = m.to_account })
relation_of by_destination m =
    relation (record { bank = m.to_bank; account = m.to_account })
      (record { bank = m.from_bank; account = m.account })

unfoldable pub add_relation : Bytes → Relation → P → P
unfolding add store_of mark_relation_added
add_relation id v p =
    let (added, s) = add (base_of v) (related_of v) (store_of id p) in
    if added then mark_relation_added id v (with_store id s p) else with_store id s p

unfoldable pub process : Side → Bytes → ScatterGather → Exec P (Unit {0})
unfolding add_relation relation_of
process side id m p = (ok tt, add_relation id (relation_of side m) p)

-- `Cleanup` and `ClearClientState`
unfoldable pub cleanup : Bytes → P → P
cleanup id p = record { stores = remove p.stores id; dirty_relations = remove p.dirty_relations id }

abbrev pub group_of : Account → Map Account (Unit {0}) → GroupedAccounts
group_of base m = record { base_account = base; related_accounts = keys m }

-- The loop of `Finalize`; `yield` may change a state and fail.
unfoldable pub yield_all {κ} :
    {W : Type κ} → (GroupedAccounts → Exec W (Unit {0})) → AccountStore → ℕ → Exec W ℕ
yield_all yield [] total = pure total
yield_all yield ((base, m) ∷ s) total =
    let skipped = yield_all yield s total in
    let taken = (do yield (group_of base m); yield_all yield s (suc total)) in
    if ltb (length m) 5 then skipped else taken

-- The client is cleaned up only if all of its groups were taken.
abbrev pub finalized {κ} : {W : Type κ} → Bytes → P → Result ℕ × W → Result ℕ × P × W
finalized id p (ok n, w) = (ok (n % u64_size), cleanup id p, w)
finalized id p (err e, w) = (err e, get_or_create_store id p, w)

unfoldable pub finalize {κ} :
    {W : Type κ} → Bytes → (GroupedAccounts → Exec W (Unit {0})) → P → W → Result ℕ × P × W
unfolding yield_all cleanup get_or_create_store store_of
finalize id yield p w = finalized id p (yield_all yield (store_of id p) 0 w)

abbrev pub undirty : Bytes → P → P
undirty id p = record p { dirty_relations = remove p.dirty_relations id }

-- the store's `Add`, without a mark
unfoldable pub set_relation : Bytes → Relation → Unit {0} → P → P
unfolding add store_of
set_relation id v u p = with_store id (add (base_of v) (related_of v) (store_of id p)).1 p

module _ (j : Json Relation) where
  unfoldable pub relation_change : Relation → Unit {0} → Option CheckpointChange
  unfolding relation_key
  relation_change v u = elim (j.marshal v) [
    | none ↦ none
    | some text ↦ some (record { kind = relation_kind; key = relation_key v; value = text })
  ]

  abbrev pub drained :
      Bytes → P → Option (List CheckpointChange) → Result (List CheckpointChange) × P
  drained id p none = (err call_failed, p)
  drained id p (some changes) = (ok changes, undirty id p)

  -- Nothing is drained, and nothing removed, where nothing has changed.
  abbrev pub drained_from : Bytes → P → Map Relation (Unit {0}) → Result (List CheckpointChange) × P
  drained_from id p [] = (ok [], p)
  drained_from id p (e ∷ m) = drained id p (each relation_change (e ∷ m))

  unfoldable pub drain_changes : Bytes → Exec P (List CheckpointChange)
  unfolding each relation_change
  drain_changes id p = drained_from id p (dirty id p)

  -- A change of another kind is passed over.
  unfoldable pub restore_change : Bytes → CheckpointChange → Exec P (Unit {0})
  unfolding mark_relation_added
  restore_change id change p =
      if relation_kind == change.kind
      then elim (j.unmarshal change.value) [
        | none ↦ (err call_failed, p)
        | some v ↦ (ok tt, mark_relation_added id (relation (base_of v) (related_of v)) p)
      ]
      else (ok tt, p)

  unfoldable pub restore_changes : Bytes → List CheckpointChange → Exec P (Unit {0})
  unfolding restore_change for_each
  restore_changes id = for_each (restore_change id)

  unfoldable pub apply_change : Bytes → CheckpointChange → Exec P (Unit {0})
  unfolding set_relation
  apply_change id change p =
      if relation_kind == change.kind
      then elim (j.unmarshal change.value) [
        | none ↦ (err call_failed, p)
        | some v ↦ (ok tt, set_relation id v tt p)
      ]
      else (err call_failed, p)

  -- Checkpointable
  abbrev pub checkpointable : Processor P
  checkpointable = record {
    clear_client_state = λ id p. (ok tt, cleanup id p);
    drain_changes = drain_changes;
    restore_changes = restore_changes;
    apply_change = apply_change;
  }
