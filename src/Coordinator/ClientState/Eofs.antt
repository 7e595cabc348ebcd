-- ===== src/Coordinator/ClientState/Eofs.antt =====
-- `eofTotals` counts each EOF once, whoever reports it and how often.
use tp_lavado_dinero.Prelude.{
  ℕ, suc, ◌+◌, ◌%◌, ◌<◌, ◌≡◌, refl, sym, ap, ◌∙◌, inl, inr, Bool, true, false, ◌||◌, List, [], ◌∷◌,
  ◌++◌, arith, Bytes, bytes_eq, nat_eq, bytes_beq_iff, ◌==◌, Bool-cases, length, total, contains,
  contains-append, Distinct, SameSet, All, total-same_set, length-Subset,
}
use tp_lavado_dinero.Decimal.{u64_size}
use tp_lavado_dinero.GoMap.{
  Map, get, put, keys, is_some, is_some-get, contains-keys-put, Distinct-keys-put, All-put,
}
use tp_lavado_dinero.Coordinator.ClientState.Defs.{
  ClientState, u32_size, peer_keys, copy_eofs, merge_eofs, merge_peer_eofs, sum_eofs, eof_totals,
}
use tp_lavado_dinero.Coordinator.ClientState.Counting.{merged, keys-merged}

merge_eofs-append : (m n c : Map Bytes ℕ) → merge_eofs c (m ++ n) ≡ merge_eofs (merge_eofs c m) n
unfolding merge_eofs
merge_eofs-append [] n c = refl
merge_eofs-append ((id, k) ∷ m) n c = merge_eofs-append m n _

merge_peer_eofs-merged :
    (ps : Map ℕ (Map Bytes ℕ)) (c : Map Bytes ℕ) → merge_peer_eofs c ps ≡ merge_eofs c (merged ps)
unfolding merge_peer_eofs merged
merge_peer_eofs-merged [] c = unfold merge_eofs in refl
merge_peer_eofs-merged ((p, m) ∷ ps) c =
    merge_peer_eofs-merged ps (merge_eofs c m) ∙ sym (merge_eofs-append m (merged ps) c)

module _ (expected : Bytes → ℕ) where
  -- Every report of an EOF carries the total that `expected` gives it.
  abbrev pub EofsAgree : List (Bytes × ℕ) → Type 0
  EofsAgree = All (λ e. e.1 ≡ expected e.0)

  -- The map that `eofTotals` builds: distinct keys, those of `member`, at the true values.
  record IsMerge (member : Bytes → Bool) (c : Map Bytes ℕ) : Type 0 where
    distinct : Distinct (keys c)
    has : (a : Bytes) → contains (keys c) a ≡ member a
    agrees : EofsAgree c

  put-IsMerge :
      (member : Bytes → Bool) (c : Map Bytes ℕ) (id : Bytes) (n : ℕ)
      → IsMerge member c
      → n ≡ expected id
      → IsMerge (λ a. id == a || member a) (put c id n)
  put-IsMerge member c id n v e = record {
    distinct = Distinct-keys-put c id n v.distinct;
    has = λ a. contains-keys-put c id a n ∙ ap (λ b. id == a || b) (v.has a);
    agrees = All-put (λ k x. x ≡ expected k) c id n v.agrees e;
  }

  IsMerge-same :
      (member other : Bytes → Bool) (c : Map Bytes ℕ)
      → ((a : Bytes) → member a ≡ other a)
      → IsMerge member c
      → IsMerge other c
  IsMerge-same member other c h v = record {
    distinct = v.distinct;
    has = λ a. v.has a ∙ h a;
    agrees = v.agrees;
  }

  copy_eofs-IsMerge :
      (m : Map Bytes ℕ) (member : Bytes → Bool) (c : Map Bytes ℕ)
      → IsMerge member c
      → EofsAgree m
      → IsMerge (λ a. contains (keys m) a || member a) (copy_eofs c m)
  unfolding copy_eofs keys
  copy_eofs-IsMerge [] member c v g = v
  copy_eofs-IsMerge ((id, n) ∷ m) member c v g =
      IsMerge-same (λ a. contains (keys m) a || (id == a || member a)) _ _ (λ a. ground arith)
        (copy_eofs-IsMerge m _ _ (put-IsMerge member c id n v g.0) g.1)

  merge_eofs-IsMerge :
      (m : Map Bytes ℕ) (member : Bytes → Bool) (c : Map Bytes ℕ)
      → IsMerge member c
      → EofsAgree m
      → IsMerge (λ a. contains (keys m) a || member a) (merge_eofs c m)
  unfolding merge_eofs keys
  merge_eofs-IsMerge [] member c v g = v
  merge_eofs-IsMerge ((id, n) ∷ m) member c v g = elim (Bool-cases (is_some (get c id))) [
    | inl old ↦
        rw (old, merge_eofs)
          (IsMerge-same (λ a. contains (keys m) a || member a) _ _
            (λ a. ground (arith, is_some-get c id, v.has id, bytes_beq_iff id a))
            (merge_eofs-IsMerge m member c v g.1))
    | inr new ↦
        rw (new, merge_eofs)
          (IsMerge-same (λ a. contains (keys m) a || (id == a || member a)) _ _ (λ a. ground arith)
            (merge_eofs-IsMerge m _ _ (put-IsMerge member c id n v g.0) g.1))
  ]

  sum_eofs-total :
      (acc : ℕ) (m : Map Bytes ℕ)
      → acc < u64_size
      → EofsAgree m
      → sum_eofs acc m ≡ (acc + total expected (keys m)) % u64_size
  unfolding sum_eofs keys
  sum_eofs-total acc [] lt g = omega arith
  sum_eofs-total acc ((id, n) ∷ m) lt g =
      omega (arith, sum_eofs-total ((acc + n) % u64_size) m (omega arith) g.1, g.0)

length-keys : (m : Map Bytes ℕ) → length (keys m) ≡ length m
unfolding keys
length-keys [] = refl
length-keys ((k, v) ∷ m) = ap suc (length-keys m)

-- The IDs of all EOFs that a worker knows of, its own and its peers'.
abbrev pub eof_ids : ClientState → List Bytes
eof_ids cs = keys cs.own_eofs ++ peer_keys cs.peer_eofs

abbrev pub merged_eofs : ClientState → Map Bytes ℕ
merged_eofs cs = merge_peer_eofs (copy_eofs [] cs.own_eofs) cs.peer_eofs

module _ (expected : Bytes → ℕ) (cs : ClientState) where
  merged_eofs-IsMerge :
      EofsAgree expected cs.own_eofs
      → EofsAgree expected (merged cs.peer_eofs)
      → IsMerge expected (contains (eof_ids cs)) (merged_eofs cs)
  merged_eofs-IsMerge own peers =
      rw (merge_peer_eofs-merged cs.peer_eofs (copy_eofs [] cs.own_eofs)) (
        IsMerge-same expected _ _ _
          (λ a. ground (
            arith,
            contains-append (keys cs.own_eofs) (peer_keys cs.peer_eofs) a,
            ap (λ ks. contains ks a) (keys-merged cs.peer_eofs),
          ))
          (merge_eofs-IsMerge expected (merged cs.peer_eofs) _ _
            (copy_eofs-IsMerge expected cs.own_eofs (λ a. false) []
              (record { distinct = unfold keys in tt; has = λ a. unfold keys in refl; agrees = tt })
              own)
            peers))

  pub known_eofs :
      EofsAgree expected cs.own_eofs
      → EofsAgree expected (merged cs.peer_eofs)
      → Distinct (keys (merged_eofs cs)) × SameSet (keys (merged_eofs cs)) (eof_ids cs)
  known_eofs own peers =
      let v = merged_eofs-IsMerge own peers in
      (v.distinct, (λ a k. sym (v.has a) ∙ k, λ a k. v.has a ∙ k))

  -- Where all reports of an EOF agree with `expected`, the EOFs are counted, and their totals added
  -- up, each once: modulo 2 ^ 32 and 2 ^ 64, whoever reported them and in whatever order.
  pub eof_totals_once :
      (ids : List Bytes)
      → EofsAgree expected cs.own_eofs
      → EofsAgree expected (merged cs.peer_eofs)
      → Distinct ids
      → SameSet ids (eof_ids cs)
      → eof_totals cs ≡ (length ids % u32_size, total expected ids % u64_size)
  unfolding eof_totals
  eof_totals_once ids own peers d same =
      let v = merged_eofs-IsMerge own peers in
      let ks : List Bytes = keys (merged_eofs cs) in
      let sub = λ (a : Bytes) (h : contains ids a ≡ true). v.has a ∙ same.0 a h in
      let sup = λ (a : Bytes) (h : contains ks a ≡ true). same.1 a (sym (v.has a) ∙ h) in
      ground (
        arith,
        length-keys (merged_eofs cs),
        length-Subset ids ks d v.distinct sub,
        length-Subset ks ids v.distinct d sup,
        sum_eofs-total expected 0 (merged_eofs cs) (omega arith) v.agrees,
        total-same_set expected ids ks d v.distinct sub sup,
      )
