-- ===== src/Coordinator/ClientState/Counting.antt =====
-- The loops of `totals` as one pass over all the records that a worker has, its own first.
use tp_lavado_dinero.Prelude.{
  ℕ, ◌+◌, ◌%◌, ◌<◌, ◌≡◌, refl, sym, ap, ◌∙◌, inl, inr, Bool, true, false, not, ◌&&◌, ◌||◌, List, [],
  ◌∷◌, ◌++◌, arith, Bytes, bytes_eq, nat_eq, bytes_beq_iff, ◌==◌, if◌then◌else◌, Bool-cases, total,
  contains, Distinct, All,
}
use tp_lavado_dinero.Decimal.{u64_size}
use tp_lavado_dinero.GoMap.{Map, get, put, keys, get-put}
use tp_lavado_dinero.Coordinator.ClientState.Defs.{
  BatchRecord, ClientState, Tally, is_counted, count_record, tally_own, tally_peer, tally_peers,
  totals, peer_keys,
}

-- The maps of all peers, one behind the other.
unfoldable pub merged {ℓ} : {V : Type ℓ} → Map ℕ (Map Bytes V) → List (Bytes × V)
merged [] = []
merged ((p, m) ∷ ps) = m ++ merged ps

keys-append {ℓ} : {V : Type ℓ} (m n : List (Bytes × V)) → keys (m ++ n) ≡ keys m ++ keys n
unfolding keys
keys-append [] n = refl
keys-append ((k, v) ∷ m) n = ap (◌∷◌ k) (keys-append m n)

pub keys-merged {ℓ} : {V : Type ℓ} (ps : Map ℕ (Map Bytes V)) → keys (merged ps) ≡ peer_keys ps
unfolding merged peer_keys
keys-merged [] = unfold keys in refl
keys-merged ((p, m) ∷ ps) = keys-append m (merged ps) ∙ ap (◌++◌ (keys m)) (keys-merged ps)

tally_peer-append :
    (m n : List (Bytes × BatchRecord)) (t : Tally)
    → tally_peer (m ++ n) t ≡ tally_peer n (tally_peer m t)
unfolding tally_peer
tally_peer-append [] n t = refl
tally_peer-append ((id, r) ∷ m) n t = tally_peer-append m n _

tally_peers-merged :
    (ps : Map ℕ (Map Bytes BatchRecord)) (t : Tally) → tally_peers ps t ≡ tally_peer (merged ps) t
unfolding tally_peers merged
tally_peers-merged [] t = unfold tally_peer in refl
tally_peers-merged ((p, m) ∷ ps) t =
    tally_peers-merged ps (tally_peer m t) ∙ sym (tally_peer-append m (merged ps) t)

pub is_counted-put :
    (c : Map Bytes Bool) (id a : Bytes) → is_counted (put c id true) a ≡ (id == a || is_counted c a)
is_counted-put c id a = ground (arith, get-put c id a true)

-- Under distinct keys the check for a batch that is already counted never fires.
tally_own-tally_peer :
    (m : Map Bytes BatchRecord) (t : Tally)
    → Distinct (keys m)
    → ((a : Bytes) → contains (keys m) a ≡ true → is_counted t.counted a ≡ false)
    → tally_own m t ≡ tally_peer m t
unfolding tally_own tally_peer keys
tally_own-tally_peer [] t d h = refl
tally_own-tally_peer ((id, r) ∷ m) t d h = rw (h id (ground (arith, bytes_beq_iff id id))) (
    tally_own-tally_peer m (count_record id r t) d.1
      λ a k. ground (arith, h a, is_counted-put t.counted id a, bytes_beq_iff id a))

-- All records of a client, in the order in which `totals` meets them.
unfoldable pub records : ClientState → List (Bytes × BatchRecord)
records cs = cs.own_batches ++ merged cs.peer_batches

pub keys-records :
    (cs : ClientState) → keys (records cs) ≡ keys cs.own_batches ++ peer_keys cs.peer_batches
unfolding records
keys-records cs =
    keys-append cs.own_batches (merged cs.peer_batches)
    ∙ ap (◌++◌ (keys cs.own_batches)) (keys-merged cs.peer_batches)

abbrev pub no_tally : Tally
no_tally = record { counted = []; processed = 0; survivors = 0 }

pub totals-tally_peer :
    (cs : ClientState)
    → Distinct (keys cs.own_batches)
    → let t = tally_peer (records cs) no_tally in totals cs ≡ (t.processed, t.survivors)
unfolding totals records
totals-tally_peer cs d = rw (
  tally_peers-merged,
  tally_own-tally_peer cs.own_batches no_tally d (λ a _. unfold get in refl),
  tally_peer-append cs.own_batches (merged cs.peer_batches) no_tally,
)

-- The batches of the pass that are counted.
pub new_ids : Map Bytes Bool → List (Bytes × BatchRecord) → List Bytes
new_ids c [] = []
new_ids c ((id, r) ∷ m) = if is_counted c id then new_ids c m else id ∷ new_ids (put c id true) m

pub contains-new_ids :
    (c : Map Bytes Bool) (m : List (Bytes × BatchRecord)) (a : Bytes)
    → contains (new_ids c m) a ≡ (contains (keys m) a && not (is_counted c a))
unfolding new_ids keys
contains-new_ids c [] a = refl
contains-new_ids c ((id, r) ∷ m) a = ground (
  arith,
  contains-new_ids c m a,
  contains-new_ids (put c id true) m a,
  is_counted-put c id a,
  bytes_beq_iff id a,
)

pub Distinct-new_ids :
    (c : Map Bytes Bool) (m : List (Bytes × BatchRecord)) → Distinct (new_ids c m)
unfolding new_ids
Distinct-new_ids c [] = tt
Distinct-new_ids c ((id, r) ∷ m) = elim (Bool-cases (is_counted c id)) [
  | inl seen ↦ rw (seen, new_ids) (Distinct-new_ids c m)
  | inr fresh ↦
      rw (fresh, new_ids)
        (
          ground (
            arith,
            contains-new_ids (put c id true) m id,
            is_counted-put c id id,
            bytes_beq_iff id id,
          ),
          Distinct-new_ids (put c id true) m,
        )
]

module _ (truth : Bytes → BatchRecord) where
  -- Every record of a batch is the one that `truth` gives it.
  abbrev pub Agrees : List (Bytes × BatchRecord) → Type 0
  Agrees = All (λ e. e.1 ≡ truth e.0)

  abbrev pub processed_of : Bytes → ℕ
  processed_of id = (truth id).processed

  abbrev pub survivors_of : Bytes → ℕ
  survivors_of id = (truth id).survivors

  pub tally_peer-total :
      (m : List (Bytes × BatchRecord)) (t : Tally)
      → Agrees m
      → let t' = tally_peer m t in
        (t'.processed % u64_size
          ≡ (t.processed + total processed_of (new_ids t.counted m)) % u64_size)
        × (t'.survivors % u64_size
            ≡ (t.survivors + total survivors_of (new_ids t.counted m)) % u64_size)
  unfolding tally_peer new_ids
  tally_peer-total [] t g = (omega arith, omega arith)
  tally_peer-total ((id, r) ∷ m) t g = elim (Bool-cases (is_counted t.counted id)) [
    | inl seen ↦ rw (seen, tally_peer) (tally_peer-total m t g.1)
    | inr fresh ↦
        let (p, s) = tally_peer-total m (count_record id r t) g.1 in
        rw (fresh, tally_peer)
          (
            omega (arith, p, ap (λ (b : BatchRecord). b.processed) g.0),
            omega (arith, s, ap (λ (b : BatchRecord). b.survivors) g.0),
          )
  ]

pub tally_peer-lt :
    (m : List (Bytes × BatchRecord)) (t : Tally)
    → t.processed < u64_size
    → t.survivors < u64_size
    → let t' = tally_peer m t in (t'.processed < u64_size) × (t'.survivors < u64_size)
unfolding tally_peer
tally_peer-lt [] t p s = (p, s)
tally_peer-lt ((id, r) ∷ m) t p s = elim (Bool-cases (is_counted t.counted id)) [
  | inl seen ↦ rw (seen, tally_peer) (tally_peer-lt m t p s)
  | inr fresh ↦
      rw (fresh, tally_peer) (tally_peer-lt m (count_record id r t) (omega arith) (omega arith))
]
