-- ===== src/Coordinator/ClientState/Sorting.antt =====
-- `getLastEOFID`: sort.Strings and the last element.
use tp_lavado_dinero.Prelude.{
  ℕ, ◌≡◌, refl, sym, ◌∙◌, ◌⊎◌, inl, inr, true, List, [], ◌∷◌, arith, Bytes, bytes_eq, nat_eq,
  bytes_beq_iff, Bool-cases, contains, contains-append, SameSet, All,
}
use tp_lavado_dinero.GoMap.{Map, get, put, keys, or_empty, contains-keys-put}
use tp_lavado_dinero.Coordinator.ClientState.Defs.{
  ClientState, bytes_leb, insert_sorted, sort_strings, last_or, peer_keys, get_last_eof_id,
  add_own_eof, add_peer_eof,
}
use tp_lavado_dinero.Coordinator.ClientState.Eofs.{eof_ids}

pub bytes_leb_total : (s t : Bytes) → (bytes_leb s t ≡ true) ⊎ (bytes_leb t s ≡ true)
unfolding bytes_leb
bytes_leb_total [] t = inl refl
bytes_leb_total (a ∷ s) [] = inr refl
bytes_leb_total (a ∷ s) (b ∷ t) = ground (arith, bytes_leb_total s t)

bytes_leb_trans :
    (s t u : Bytes) → bytes_leb s t ≡ true → bytes_leb t u ≡ true → bytes_leb s u ≡ true
unfolding bytes_leb
bytes_leb_trans [] t u h k = refl
bytes_leb_trans (a ∷ s) [] u h k = cc
bytes_leb_trans (a ∷ s) (b ∷ t) [] h k = cc
bytes_leb_trans (a ∷ s) (b ∷ t) (c ∷ u) h k = ground (arith, bytes_leb_trans s t u)

bytes_leb_antisymm : (s t : Bytes) → bytes_leb s t ≡ true → bytes_leb t s ≡ true → s ≡ t
unfolding bytes_leb
bytes_leb_antisymm [] [] h k = refl
bytes_leb_antisymm [] (b ∷ t) h k = cc
bytes_leb_antisymm (a ∷ s) [] h k = cc
bytes_leb_antisymm (a ∷ s) (b ∷ t) h k = ground (arith, bytes_leb_antisymm s t)

abbrev AllAbove : Bytes → List Bytes → Type 0
AllAbove x = All (λ y. bytes_leb x y ≡ true)

abbrev IsSorted : List Bytes → Type 0
IsSorted [] = Unit {0}
IsSorted (x ∷ xs) = AllAbove x xs × IsSorted xs

AllAbove-mono :
    (x y : Bytes) (xs : List Bytes) → bytes_leb x y ≡ true → AllAbove y xs → AllAbove x xs
AllAbove-mono x y [] h a = tt
AllAbove-mono x y (z ∷ xs) h a = (bytes_leb_trans x y z h a.0, AllAbove-mono x y xs h a.1)

AllAbove-insert :
    (x y : Bytes) (xs : List Bytes)
    → bytes_leb x y ≡ true
    → AllAbove x xs
    → AllAbove x (insert_sorted y xs)
unfolding insert_sorted
AllAbove-insert x y [] h a = (h, tt)
AllAbove-insert x y (z ∷ xs) h a = ground (arith, AllAbove-insert x y xs h a.1)

insert_sorted-IsSorted : (x : Bytes) (xs : List Bytes) → IsSorted xs → IsSorted (insert_sorted x xs)
unfolding insert_sorted
insert_sorted-IsSorted x [] s = (tt, tt)
insert_sorted-IsSorted x (y ∷ xs) s = elim (Bool-cases (bytes_leb x y)) [
  | inl le ↦ rw (le, insert_sorted) ((le, AllAbove-mono x y xs le s.0), s)
  | inr gt ↦
      rw (gt, insert_sorted)
        (
          AllAbove-insert y x xs (ground (arith, bytes_leb_total x y)) s.0,
          insert_sorted-IsSorted x xs s.1,
        )
]

sort_strings-IsSorted : (xs : List Bytes) → IsSorted (sort_strings xs)
unfolding sort_strings
sort_strings-IsSorted [] = tt
sort_strings-IsSorted (x ∷ xs) =
    insert_sorted-IsSorted x (sort_strings xs) (sort_strings-IsSorted xs)

contains-insert_sorted :
    (x a : Bytes) (xs : List Bytes) → contains (insert_sorted x xs) a ≡ contains (x ∷ xs) a
unfolding insert_sorted
contains-insert_sorted x a [] = refl
contains-insert_sorted x a (y ∷ xs) = ground (arith, contains-insert_sorted x a xs)

contains-sort_strings : (xs : List Bytes) (a : Bytes) → contains (sort_strings xs) a ≡ contains xs a
unfolding sort_strings
contains-sort_strings [] a = refl
contains-sort_strings (x ∷ xs) a =
    ground (arith, contains-insert_sorted x a (sort_strings xs), contains-sort_strings xs a)

contains-last_or : (d x : Bytes) (xs : List Bytes) → contains (x ∷ xs) (last_or x xs) ≡ true
unfolding last_or
contains-last_or d x [] = ground (arith, bytes_beq_iff x x)
contains-last_or d x (y ∷ xs) = ground (arith, contains-last_or d y xs)

last_or-above :
    (x a : Bytes) (xs : List Bytes)
    → IsSorted (x ∷ xs)
    → contains (x ∷ xs) a ≡ true
    → bytes_leb a (last_or x xs) ≡ true
unfolding last_or
last_or-above x a [] s h = ground (arith, bytes_beq_iff x a, bytes_leb_total x x)
last_or-above x a (y ∷ xs) s h = ground (
  arith,
  last_or-above y a xs s.1,
  last_or-above y y xs s.1,
  bytes_beq_iff x a,
  bytes_beq_iff y y,
  s.0.0,
  bytes_leb_trans x y (last_or y xs),
)

abbrev last_of : List Bytes → Bytes
last_of ids = last_or [] (sort_strings ids)

-- The greatest of the IDs, where there is one.
abbrev pub IsGreatest : List Bytes → Bytes → Type 0
IsGreatest ids m =
    (contains ids m ≡ true) × ((a : Bytes) → contains ids a ≡ true → bytes_leb a m ≡ true)

IsGreatest-in_order :
    (ids ys : List Bytes) (a : Bytes)
    → sort_strings ids ≡ ys
    → contains ids a ≡ true
    → IsGreatest ids (last_or [] ys)
IsGreatest-in_order ids [] a e h = absurd (ground (arith, contains-sort_strings ids a, e))
IsGreatest-in_order ids (x ∷ xs) a e h =
    let same = λ (b : Bytes). (rw e at (contains-sort_strings ids b)) in
    let sorted : IsSorted (x ∷ xs) = rw e at (sort_strings-IsSorted ids) in
    unfold last_or in
    (
      sym (same (last_or x xs)) ∙ contains-last_or [] x xs,
      λ b k. last_or-above x b xs sorted (same b ∙ k),
    )

get_last_eof_id-IsGreatest :
    (cs : ClientState) (a : Bytes)
    → contains (eof_ids cs) a ≡ true
    → IsGreatest (eof_ids cs) (get_last_eof_id cs).last_eof_id
unfolding get_last_eof_id
get_last_eof_id-IsGreatest cs a h = IsGreatest-in_order (eof_ids cs) _ a refl h

contains-peer_keys-put :
    (ps : Map ℕ (Map Bytes ℕ)) (p : ℕ) (m : Map Bytes ℕ) (a : Bytes)
    → contains (keys m) a ≡ true
    → contains (peer_keys (put ps p m)) a ≡ true
unfolding peer_keys put
contains-peer_keys-put [] p m a h = ground (arith, contains-append (keys m) [] a)
contains-peer_keys-put ((q, n) ∷ ps) p m a h = ground (
  arith,
  contains-append (keys m) (peer_keys ps) a,
  contains-append (keys n) (peer_keys (put ps p m)) a,
  contains-peer_keys-put ps p m a h,
)

-- After an EOF of its own, or one of a peer, has been added, a worker's last EOF is the greatest
-- byte string of all the EOF IDs that it knows, the new one among them.
pub add_eof-IsGreatest :
    (cs : ClientState) (peer_id : ℕ) (eof_id : Bytes) (expected_total : ℕ)
    → let own = add_own_eof cs eof_id expected_total in
      let peer = add_peer_eof cs peer_id eof_id expected_total in
      (contains (eof_ids own) eof_id ≡ true)
      × IsGreatest (eof_ids own) own.last_eof_id
      × (contains (eof_ids peer) eof_id ≡ true)
      × IsGreatest (eof_ids peer) peer.last_eof_id
unfolding add_own_eof add_peer_eof
add_eof-IsGreatest cs peer_id eof_id n =
    let m = put (or_empty (get cs.peer_eofs peer_id)) eof_id n in
    let own = record cs { own_eofs = put cs.own_eofs eof_id n } in
    let peer = record cs { peer_eofs = put cs.peer_eofs peer_id m } in
    let in_own : contains (eof_ids own) eof_id ≡ true = ground (
      arith,
      contains-append (keys own.own_eofs) (peer_keys own.peer_eofs) eof_id,
      contains-keys-put cs.own_eofs eof_id eof_id n,
      bytes_beq_iff eof_id eof_id,
    ) in
    let in_peer : contains (eof_ids peer) eof_id ≡ true = ground (
      arith,
      contains-append (keys peer.own_eofs) (peer_keys peer.peer_eofs) eof_id,
      contains-peer_keys-put cs.peer_eofs peer_id m eof_id,
      contains-keys-put (or_empty (get cs.peer_eofs peer_id)) eof_id eof_id n,
      bytes_beq_iff eof_id eof_id,
    ) in
    (
      in_own,
      get_last_eof_id-IsGreatest own eof_id in_own,
      in_peer,
      get_last_eof_id-IsGreatest peer eof_id in_peer,
    )

-- Two workers that know the same EOFs, from whomever and in whatever order, name the same last EOF.
pub last_eof_id-SameSet :
    (cs ds : ClientState)
    → SameSet (eof_ids cs) (eof_ids ds)
    → (a : Bytes) → contains (eof_ids cs) a ≡ true
    → (get_last_eof_id cs).last_eof_id ≡ (get_last_eof_id ds).last_eof_id
last_eof_id-SameSet cs ds same a h =
    let (c_in, c_max) = get_last_eof_id-IsGreatest cs a h in
    let (d_in, d_max) = get_last_eof_id-IsGreatest ds a (same.0 a h) in
    bytes_leb_antisymm _ _ (d_max _ (same.0 _ c_in)) (c_max _ (same.1 _ d_in))
