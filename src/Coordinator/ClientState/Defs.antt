-- ===== src/Coordinator/ClientState/Defs.antt =====
-- clientState.go. A client ID, a batch ID and an EOF ID is a byte string; counts are uint64, and the
-- number of EOFs is a uint32.
use tp_lavado_dinero.Prelude.{
  ℕ, ◌+◌, ◌%◌, ◌^◌, Bool, true, false, none, some, List, [], ◌∷◌, ◌++◌, Bytes, nat_eq, bytes_eq,
  leb, ltb, nat_beq, not, ◌&&◌, if◌then◌else◌, length,
}
use tp_lavado_dinero.Decimal.{u64_size}
use tp_lavado_dinero.GoMap.{Map, get, put, keys, is_some, or_empty}

abbrev pub u32_size : ℕ
u32_size = 2 ^ 32

-- batchstorage.go
pub record BatchRecord : Type 0 where
  pub batch_id : Bytes
  pub processed : ℕ
  pub survivors : ℕ

pub record ClientState : Type 0 where
  pub own_batches : Map Bytes BatchRecord
  pub peer_batches : Map ℕ (Map Bytes BatchRecord)
  pub own_eofs : Map Bytes ℕ
  pub peer_eofs : Map ℕ (Map Bytes ℕ)
  pub last_eof_id : Bytes
  pub flushed : Bool

abbrev pub new_client_state : ClientState
new_client_state = record {
  own_batches = [];
  peer_batches = [];
  own_eofs = [];
  peer_eofs = [];
  last_eof_id = [];
  flushed = false;
}

unfoldable pub has_own_batch : ClientState → Bytes → Bool
has_own_batch cs batch_id = is_some (get cs.own_batches batch_id)

unfoldable pub add_own_batch : ClientState → BatchRecord → ClientState
add_own_batch cs r = record cs { own_batches = put cs.own_batches r.batch_id r }

unfoldable pub add_peer_batch : ClientState → ℕ → BatchRecord → ClientState
add_peer_batch cs peer_id r = record cs {
  peer_batches =
      put cs.peer_batches peer_id (put (or_empty (get cs.peer_batches peer_id)) r.batch_id r);
}

unfoldable pub has_own_eof : ClientState → Bytes → Bool
has_own_eof cs eof_id = is_some (get cs.own_eofs eof_id)

unfoldable pub has_peer_eof : ClientState → ℕ → Bytes → Bool
has_peer_eof cs peer_id eof_id = is_some (get (or_empty (get cs.peer_eofs peer_id)) eof_id)

-- Go compares strings byte by byte.
unfoldable pub bytes_leb : Bytes → Bytes → Bool
bytes_leb [] t = true
bytes_leb (a ∷ s) [] = false
bytes_leb (a ∷ s) (b ∷ t) = if nat_beq a b then bytes_leb s t else ltb a b

unfoldable pub insert_sorted : Bytes → List Bytes → List Bytes
insert_sorted x [] = x ∷ []
insert_sorted x (y ∷ ys) = if bytes_leb x y then x ∷ y ∷ ys else y ∷ insert_sorted x ys

-- sort.Strings
unfoldable pub sort_strings : List Bytes → List Bytes
unfolding insert_sorted
sort_strings [] = []
sort_strings (x ∷ xs) = insert_sorted x (sort_strings xs)

-- xs[len(xs)-1], on a slice that is not empty
unfoldable pub last_or : Bytes → List Bytes → Bytes
last_or d [] = d
last_or d (x ∷ xs) = last_or x xs

unfoldable pub peer_keys {ℓ} : {V : Type ℓ} → Map ℕ (Map Bytes V) → List Bytes
unfolding keys
peer_keys [] = []
peer_keys ((p, m) ∷ ps) = keys m ++ peer_keys ps

-- Only called when an EOF has just been added, so that the slice is not empty.
unfoldable pub get_last_eof_id : ClientState → ClientState
get_last_eof_id cs = record cs {
  last_eof_id = last_or [] (sort_strings (keys cs.own_eofs ++ peer_keys cs.peer_eofs));
}

unfoldable pub add_own_eof : ClientState → Bytes → ℕ → ClientState
unfolding get_last_eof_id
add_own_eof cs eof_id expected_total =
    get_last_eof_id (record cs { own_eofs = put cs.own_eofs eof_id expected_total })

unfoldable pub add_peer_eof : ClientState → ℕ → Bytes → ℕ → ClientState
unfolding get_last_eof_id
add_peer_eof cs peer_id eof_id expected_total = get_last_eof_id (record cs {
  peer_eofs =
      put cs.peer_eofs peer_id (put (or_empty (get cs.peer_eofs peer_id)) eof_id expected_total);
})

-- The variables of the loops in `totals`.
pub record Tally : Type 0 where
  pub counted : Map Bytes Bool
  pub processed : ℕ
  pub survivors : ℕ

abbrev pub is_counted : Map Bytes Bool → Bytes → Bool
is_counted counted id = elim (get counted id) [ none ↦ false | some b ↦ b ]

unfoldable pub count_record : Bytes → BatchRecord → Tally → Tally
count_record id r t = record {
  counted = put t.counted id true;
  processed = (t.processed + r.processed) % u64_size;
  survivors = (t.survivors + r.survivors) % u64_size;
}

-- the loop over ownBatches
unfoldable pub tally_own : Map Bytes BatchRecord → Tally → Tally
unfolding count_record
tally_own [] t = t
tally_own ((id, r) ∷ m) t = tally_own m (count_record id r t)

-- the loop over the batches of one peer
unfoldable pub tally_peer : Map Bytes BatchRecord → Tally → Tally
unfolding count_record
tally_peer [] t = t
tally_peer ((id, r) ∷ m) t =
    tally_peer m (if is_counted t.counted id then t else count_record id r t)

unfoldable pub tally_peers : Map ℕ (Map Bytes BatchRecord) → Tally → Tally
unfolding tally_peer
tally_peers [] t = t
tally_peers ((p, m) ∷ ps) t = tally_peers ps (tally_peer m t)

unfoldable pub totals : ClientState → ℕ × ℕ
unfolding tally_own tally_peers
totals cs =
    let t =
      tally_peers cs.peer_batches
        (tally_own cs.own_batches (record { counted = []; processed = 0; survivors = 0 })) in
    (t.processed, t.survivors)

-- maps.Copy(counted, m)
unfoldable pub copy_eofs : Map Bytes ℕ → Map Bytes ℕ → Map Bytes ℕ
copy_eofs counted [] = counted
copy_eofs counted ((id, n) ∷ m) = copy_eofs (put counted id n) m

unfoldable pub merge_eofs : Map Bytes ℕ → Map Bytes ℕ → Map Bytes ℕ
merge_eofs counted [] = counted
merge_eofs counted ((id, n) ∷ m) =
    merge_eofs (if is_some (get counted id) then counted else put counted id n) m

unfoldable pub merge_peer_eofs : Map Bytes ℕ → Map ℕ (Map Bytes ℕ) → Map Bytes ℕ
unfolding merge_eofs
merge_peer_eofs counted [] = counted
merge_peer_eofs counted ((p, m) ∷ ps) = merge_peer_eofs (merge_eofs counted m) ps

-- the loop `expectedTotal += total`
unfoldable pub sum_eofs : ℕ → Map Bytes ℕ → ℕ
sum_eofs acc [] = acc
sum_eofs acc ((id, n) ∷ m) = sum_eofs ((acc + n) % u64_size) m

unfoldable pub eof_totals : ClientState → ℕ × ℕ
unfolding copy_eofs merge_peer_eofs sum_eofs
eof_totals cs =
    let counted = merge_peer_eofs (copy_eofs [] cs.own_eofs) cs.peer_eofs in
    (length counted % u32_size, sum_eofs 0 counted)

unfoldable pub has_all_eofs : ClientState → ℕ → Bool
has_all_eofs cs expected_eofs = leb expected_eofs (eof_totals cs).0

unfoldable pub is_ready_to_flush : ClientState → ℕ → Bool
unfolding has_all_eofs
is_ready_to_flush cs expected_eofs =
    not cs.flushed && has_all_eofs cs expected_eofs && leb (eof_totals cs).1 (totals cs).0
