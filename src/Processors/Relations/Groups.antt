-- ===== src/Processors/Relations/Groups.antt =====
-- groupers/origindestination: what `Finalize` hands over.
use tp_lavado_dinero.Prelude.{
  ℕ, suc, ◌+◌, ◌%◌, ◌≤◌, ◌≡◌, refl, sym, ap, ◌∙◌, false, ◌&&◌, some, List, [], ◌∷◌, ◌++◌, arith,
  Bytes, bytes_eq, ◌==◌, if◌then◌else◌, Bool-cases, inl, inr, Exec, Result, ok, err, bytes_beq_iff,
  All, All-map, Distinct, contains, map, length, length-Subset, ltb, leb, not, append-nil,
  append_assoc,
}
use tp_lavado_dinero.Decimal.{u64_size}
use tp_lavado_dinero.GoMap.{Map, get, get-remove, keys, is_some-get}
use tp_lavado_dinero.Processors.Model.{Account, account_eq, account_beq_iff}
use tp_lavado_dinero.Processors.Relations.Defs.{
  ScatterGather, GroupedAccounts, Relation, relation_eq, relation, base_of, related_of,
  AccountStore, related_to, P, new_processor, store_of, Side, group_of, yield_all, finalize,
  finalized, get_or_create_store, cleanup,
}
use tp_lavado_dinero.Processors.Relations.Views.{eq_parts, store_of-put}
use tp_lavado_dinero.Processors.Relations.Gathered.{
  related-Distinct, process_all-Gathers, Gathers, process_all, seen,
}

-- What a `yield` that only collects has taken
abbrev pub collect : GroupedAccounts → Exec (List GroupedAccounts) (Unit {0})
collect g gs = (ok tt, gs ++ g ∷ [])

-- the groups of five and more
groups_of : AccountStore → List GroupedAccounts
groups_of [] = []
groups_of ((b, m) ∷ s) = if ltb (length m) 5 then groups_of s else group_of b m ∷ groups_of s

yield_all-collect :
    (s : AccountStore) (n : ℕ) (gs : List GroupedAccounts)
    → yield_all collect s n gs ≡ (ok (n + length (groups_of s)), gs ++ groups_of s)
unfolding yield_all groups_of
yield_all-collect [] n gs = ground (arith, append-nil gs)
yield_all-collect ((b, m) ∷ s) n gs = elim (Bool-cases (ltb (length m) 5)) [
  | inl few ↦ rw few (yield_all-collect s n gs)
  | inr many ↦
      let g = group_of b m in
      let h = yield_all-collect s (suc n) (gs ++ g ∷ []) in
      rw (many, h, append_assoc gs (g ∷ []) (groups_of s)) (ground arith)
]

length-keys : (m : Map Account (Unit {0})) → length (keys m) ≡ length m
unfolding keys
length-keys [] = refl
length-keys ((k, v) ∷ m) = ap suc (length-keys m)

abbrev Entry : Type 0
Entry = Account × Map Account (Unit {0})

-- In a map without duplicates every entry is found under its key.
entries_found : (s : AccountStore) → Distinct (keys s) → All (λ (e : Entry). get s e.0 ≡ some e.1) s
unfolding keys get
entries_found [] d = tt
entries_found ((b, m) ∷ s) d = (
  ground (arith, account_beq_iff b b),
  All-map (λ (e : Entry). get s e.0 ≡ some e.1) (λ (e : Entry). get ((b, m) ∷ s) e.0 ≡ some e.1)
      (λ e h. ground (arith, h, d.0, is_some-get s e.0, account_beq_iff b e.0)) s
      (entries_found s d.1),
)

abbrev pub bases : List GroupedAccounts → List Account
bases gs = map (λ g. g.base_account) gs

-- The different accounts that are related to `b`
unfoldable pub counterparts : Account → List Relation → List Account
counterparts b [] = []
counterparts b (v ∷ rs) =
    let rest = counterparts b rs in
    if base_of v == b && not (contains rest (related_of v)) then related_of v ∷ rest else rest

-- At least five different accounts, namely all that are related to the base
abbrev pub Sound : List Relation → GroupedAccounts → Type 0
Sound rs g =
    (5 ≤ length g.related_accounts)
    × Distinct g.related_accounts
    × ((a : Account) → contains g.related_accounts a ≡ contains rs (relation g.base_account a))

-- The groups of a client's store, against the relations of its items: each is of at least five
-- different accounts, namely all that are related to its base; there is one for each such base.
pub record IsGrouping (rs : List Relation) (gs : List GroupedAccounts) : Type 0 where
  pub sound : All (Sound rs) gs
  pub bases_once : Distinct (bases gs)
  pub complete : (b : Account) → contains (bases gs) b ≡ leb 5 (length (counterparts b rs))

contains-counterparts :
    (b a : Account) (rs : List Relation)
    → contains (counterparts b rs) a ≡ contains rs (relation b a)
unfolding counterparts
contains-counterparts b a [] = refl
contains-counterparts b a (v ∷ rs) =
    let h = contains-counterparts b a rs in
    let p = eq_parts v (relation b a) in
    elim (Bool-cases (related_of v == a)) [
      | inl e ↦ ground (
        arith,
        h,
        p,
        e,
        ap (contains (counterparts b rs)) ((account_beq_iff (related_of v) a).0 e),
      )
      | inr e ↦ ground (arith, h, p, e)
    ]

counterparts-Distinct : (b : Account) (rs : List Relation) → Distinct (counterparts b rs)
unfolding counterparts
counterparts-Distinct b [] = tt
counterparts-Distinct b (v ∷ rs) =
    let d = counterparts-Distinct b rs in
    elim (Bool-cases (base_of v == b && not (contains (counterparts b rs) (related_of v)))) [
      | inl e ↦ rw e (ground (arith, e), d)
      | inr e ↦ rw e d
    ]

absent_related :
    (s : AccountStore) (b : Account) → contains (keys s) b ≡ false → related_to b s ≡ []
unfolding related_to
absent_related s b h = ground (arith, is_some-get s b, h)

related_to-cons :
    (b c : Account) (m : Map Account (Unit {0})) (s : AccountStore)
    → related_to c ((b, m) ∷ s) ≡ (if b == c then m else related_to c s)
unfolding related_to get
related_to-cons b c m s = ground arith

contains-bases :
    (s : AccountStore) (c : Account)
    → Distinct (keys s)
    → contains (bases (groups_of s)) c ≡ leb 5 (length (related_to c s))
unfolding groups_of keys
contains-bases [] c d = unfold related_to get in refl
contains-bases ((b, m) ∷ s) c d =
    let h = contains-bases s c d.1 in
    let r = related_to-cons b c m s in
    elim (Bool-cases (b == c)) [
      | inl e ↦
          let gone = absent_related s c (rw ((account_beq_iff b c).0 e) at d.0) in
          elim (Bool-cases (ltb (length m) 5)) [
            | inl few ↦ rw (few, r, e, h, gone) (ground (arith, few))
            | inr many ↦ rw (many, r, e) (ground (arith, many))
          ]
      | inr e ↦ elim (Bool-cases (ltb (length m) 5)) [
        | inl few ↦ rw (few, r, e) h
        | inr many ↦ rw (many, r, e) h
      ]
    ]

bases_of-Distinct : (s : AccountStore) → Distinct (keys s) → Distinct (bases (groups_of s))
unfolding groups_of keys
bases_of-Distinct [] d = tt
bases_of-Distinct ((b, m) ∷ s) d = elim (Bool-cases (ltb (length m) 5)) [
  | inl few ↦ rw few (bases_of-Distinct s d.1)
  | inr many ↦
      let none' : contains (bases (groups_of s)) b ≡ false =
        rw (contains-bases s b d.1, absent_related s b d.0) refl in
      rw many (none', bases_of-Distinct s d.1)
]

-- What holds of the entries holds of the groups.
groups-All {κ} :
    (Q : GroupedAccounts → Type κ) (s : AccountStore)
    → All (λ (e : Entry). ltb (length e.1) 5 ≡ false → Q (group_of e.0 e.1)) s
    → All Q (groups_of s)
unfolding groups_of
groups-All Q [] h = tt
groups-All Q ((b, m) ∷ s) h = elim (Bool-cases (ltb (length m) 5)) [
  | inl few ↦ rw few (groups-All Q s h.1)
  | inr many ↦ rw many (h.0 many, groups-All Q s h.1)
]

All-both {κ ι} :
    {A : Type 0} (P : A → Type κ) (Q : A → Type ι) (xs : List A)
    → All P xs
    → All Q xs
    → All (λ a. P a × Q a) xs
All-both P Q [] p q = tt
All-both P Q (x ∷ xs) p q = ((p.0, q.0), All-both P Q xs p.1 q.1)

related_to_found :
    (s : AccountStore) (b : Account) (m : Map Account (Unit {0}))
    → get s b ≡ some m
    → related_to b s ≡ m
unfolding related_to
related_to_found s b m h = rw h refl

Gathers-IsGrouping :
    (s : AccountStore) (rs : List Relation) → Gathers s rs → IsGrouping rs (groups_of s)
Gathers-IsGrouping s rs g =
    let related = λ (b a : Account).
      (let h : contains (keys (related_to b s)) a ≡ contains rs (relation b a) =
          sym (is_some-get (related_to b s) a) ∙ g.exact (relation b a) in
        h) in
    record {
      sound = groups-All (Sound rs) s (
          All-map (λ (e : Entry). (get s e.0 ≡ some e.1) × Distinct (keys e.1))
            (λ (e : Entry). ltb (length e.1) 5 ≡ false → Sound rs (group_of e.0 e.1))
            (λ e h many. (
              ground (arith, many, length-keys e.1),
              h.1,
              λ a. rw (related_to_found s e.0 e.1 h.0) at (related e.0 a),
            ))
            s
            (All-both (λ (e : Entry). get s e.0 ≡ some e.1) (λ (e : Entry). Distinct (keys e.1)) s
              (entries_found s g.bases_distinct) g.inner_distinct));
      bases_once = bases_of-Distinct s g.bases_distinct;
      complete = λ b.
          let m = related_to b s in
          let dm = related-Distinct s b g.inner_distinct in
          let dc = counterparts-Distinct b rs in
          let same = λ (a : Account). related b a ∙ sym (contains-counterparts b a rs) in
          let le = length-Subset (keys m) (counterparts b rs) dm dc (λ a h. sym (same a) ∙ h) in
          let ge = length-Subset (counterparts b rs) (keys m) dc dm (λ a h. same a ∙ h) in
          rw (contains-bases s b g.bases_distinct) (ground (arith, le, ge, length-keys m));
    }

-- What the client `j` has left when the client `id` is finalized with the result `r`.
abbrev pub left : Bytes → Result ℕ → P → Bytes → AccountStore
left id (ok n) p j = if id == j then [] else store_of j p
left id (err e) p j = store_of j p

finalized-left {κ} :
    {W : Type κ} (id j : Bytes) (p : P) (r : Result ℕ × W)
    → store_of j (finalized id p r).1 ≡ left id (finalized id p r).0 p j
unfolding cleanup get_or_create_store
finalized-left id j p (ok n, w) =
    unfold store_of in ground (arith, get-remove p.stores id j, bytes_beq_iff id j)
finalized-left id j p (err e, w) = elim (Bool-cases (id == j)) [
  | inl same ↦ rw (store_of-put id j (store_of id p) p, same, (bytes_beq_iff id j).0 same) refl
  | inr other ↦ rw (store_of-put id j (store_of id p) p, other) refl
]

-- Whatever items of whatever clients were processed, in whatever order and with whatever
-- duplicates: to a `yield` that takes every group `Finalize` hands over the grouping of the
-- client's relations, by the account that the items come from or by the one that they go to,
-- counts its groups, and forgets the client. Whatever `yield` does: where `Finalize` returns an
-- error every client keeps its relations, and else the client has none and the others keep theirs.
pub finalize-IsGrouping {κ} :
    {W : Type κ} (side : Side) (id : Bytes) (ms : List (Bytes × ScatterGather))
    (yield : GroupedAccounts → Exec W (Unit {0})) (w : W)
    → let p = process_all side ms new_processor in
      let (r, q, v) = finalize id yield p w in
      IsGrouping (seen side id ms []) (finalize id collect p []).2
      × ((finalize id collect p []).0 ≡ ok (length (finalize id collect p []).2 % u64_size))
      × ((finalize id collect p []).1 ≡ cleanup id p)
      × ((j : Bytes) → store_of j q ≡ left id r p j)
unfolding finalize
finalize-IsGrouping side id ms yield w =
    let p = process_all side ms new_processor in
    let start : Gathers (store_of id new_processor) [] =
      (unfold store_of get keys related_to in
        record { bases_distinct = tt; inner_distinct = tt; exact = λ v. refl }) in
    let g = process_all-Gathers side id ms new_processor [] start in
    let left_behind : (j : Bytes)
        → store_of j (finalize id yield p w).1 ≡ left id (finalize id yield p w).0 p j =
      λ j. finalized-left id j p (yield_all yield (store_of id p) 0 w) in
    rw (yield_all-collect (store_of id p) 0 [])
      (Gathers-IsGrouping (store_of id p) (seen side id ms []) g, ground arith, refl, left_behind)
