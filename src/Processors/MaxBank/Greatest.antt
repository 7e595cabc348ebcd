-- ===== src/Processors/MaxBank/Greatest.antt =====
-- groupers/maxbank: the transfer that is kept for each bank of a client.
use tp_lavado_dinero.Prelude.{
  ◌≡◌, refl, sym, ap, ◌∙◌, Bool, true, false, ◌&&◌, Option, none, some, List, [], ◌∷◌, ◌++◌, Bytes,
  bytes_eq, bytes_beq_iff, ◌==◌, if◌then◌else◌, Bool-cases, Option-cases, inl, inr, append-nil,
  append_assoc,
}
use tp_lavado_dinero.GoMap.{get, put, get-put}
use tp_lavado_dinero.Processors.Model.{ℤ, int_eq, int_beq_iff, Floats}
use tp_lavado_dinero.Processors.MaxBank.Store.{
  Record, MaxBankStore, update_bank_name, update_max_transaction,
}
use tp_lavado_dinero.Processors.MaxBank.Defs.{
  no_payload, bank_metadata, transfer_summary, Payload, MaxBank, P, new_processor, store_of,
  get_store, mark_bank_name, mark_max_transaction, process_name, process_transfer, process_amount,
  process_payload, process,
}
use tp_lavado_dinero.Processors.MaxBank.Views.{
  names, maxima, set_max, stores_alike, names_set, maxima_set, Kept-get_store,
}
use tp_lavado_dinero.Processors.MaxBank.Order.{IsGreatest, better, IsGreatest-better}

module _ (fl : Floats) where
  open fl use {F, gt, parse_float}

  -- The items of a batch, and what is processed of them in whatever order
  unfoldable pub process_all : List (Bytes × MaxBank) → P fl → P fl
  process_all [] p = p
  process_all ((id, m) ∷ ms) p = process_all ms (process fl id m p).1

  abbrev pub record_of : Bytes → Bytes → Option F → Option (Record F)
  record_of account amount none = none
  record_of account amount (some v) =
      some (record { account = account; amount_value = v; amount_string = amount })

  abbrev pub transfer_of : Payload → Option (Record F)
  transfer_of no_payload = none
  transfer_of (bank_metadata name) = none
  transfer_of (transfer_summary account amount) = record_of account amount (parse_float amount)

  -- The transfer of a bank that an item of the client `j` is, for the client `id`
  abbrev pub offer : Bytes → ℤ → Bytes → MaxBank → Option (Record F)
  offer id bank j m = if j == id && m.from_bank == bank then transfer_of m.payload else none

  -- The transfers of a bank among the items of a client, where the amount is a number
  unfoldable pub transfers : Bytes → ℤ → List (Bytes × MaxBank) → List (Record F)
  transfers id bank [] = []
  transfers id bank ((j, m) ∷ ms) =
      let rest = transfers id bank ms in
      elim (offer id bank j m) [ none ↦ rest | some r ↦ r ∷ rest ]

  name-maxima :
      (j id : Bytes) (b : ℤ) (name : Bytes) (p : P fl)
      → maxima fl id (process_name fl j b name p) ≡ maxima fl id p
  unfolding process_name update_bank_name mark_bank_name store_of
  name-maxima j id b name p =
      let kept = (Kept-get_store fl j id p).maxima_kept in
      let changed = (names_set fl j id b name p).1 in
      elim (Option-cases (get (names fl j p) b)) [
        | inl e ↦ rw (e, update_bank_name) changed
        | inr (current, e) ↦ elim (Bool-cases (current == name)) [
          | inl same ↦ rw (e, same, update_bank_name) (unfold get_store in kept)
          | inr other ↦ rw (e, other, update_bank_name) changed
        ]
      ]

  at_key :
      (j id : Bytes) (b bank : ℤ) (p : P fl)
      → (j == id) ≡ true
      → (b == bank) ≡ true
      → get (maxima fl j p) b ≡ get (maxima fl id p) bank
  at_key j id b bank p e f = rw ((bytes_beq_iff j id).0 e, (int_beq_iff b bank).0 f) refl

  -- What is put at `b` of the client `j`, seen from `bank` of the client `id`
  replaced :
      (j id : Bytes) (b bank : ℤ) (r : Record F) (p q : P fl)
      → maxima fl id q ≡ (if j == id then put (maxima fl id p) b r else maxima fl id p)
      → better fl (some r) (get (maxima fl j p) b) ≡ some r
      → get (maxima fl id q) bank
        ≡ better fl (if j == id && b == bank then some r else none) (get (maxima fl id p) bank)
  replaced j id b bank r p q h wins = elim (Bool-cases (j == id)) [
    | inr e ↦ rw (h, e) refl
    | inl e ↦ elim (Bool-cases (b == bank)) [
      | inr f ↦ rw (h, e, get-put (maxima fl id p) b bank r, f) refl
      | inl f ↦
          rw (h, e, get-put (maxima fl id p) b bank r, f, sym (at_key j id b bank p e f), wins) refl
    ]
  ]

  unchanged :
      (j id : Bytes) (b bank : ℤ) (r : Record F) (p q : P fl)
      → maxima fl id q ≡ maxima fl id p
      → better fl (some r) (get (maxima fl j p) b) ≡ get (maxima fl j p) b
      → get (maxima fl id q) bank
        ≡ better fl (if j == id && b == bank then some r else none) (get (maxima fl id p) bank)
  unchanged j id b bank r p q h loses = elim (Bool-cases (j == id)) [
    | inr e ↦ rw (h, e) refl
    | inl e ↦ elim (Bool-cases (b == bank)) [
      | inr f ↦ rw (h, e, f) refl
      | inl f ↦ rw (h, e, f, sym (at_key j id b bank p e f), loses) refl
    ]
  ]

  transfer-maxima :
      (j id : Bytes) (b bank : ℤ) (r : Record F) (p : P fl)
      → get (maxima fl id (process_transfer fl j b r p)) bank
        ≡ better fl (if j == id && b == bank then some r else none) (get (maxima fl id p) bank)
  unfolding process_transfer update_max_transaction mark_max_transaction set_max
  transfer-maxima j id b bank r p =
      let kept = (Kept-get_store fl j id p).maxima_kept in
      let q = set_max fl j b r p in
      let changed =
        ap (λ (s : MaxBankStore F). s.max_transactions)
          (stores_alike fl id q (mark_max_transaction fl j b r q) refl)
        ∙ (maxima_set fl j id b r p).1 in
      elim (Option-cases (get (maxima fl j p) b)) [
        | inl e ↦
            rw (e, update_max_transaction)
              (replaced j id b bank r p (mark_max_transaction fl j b r q) changed (rw e refl))
        | inr (current, e) ↦ elim (Bool-cases (gt r.amount_value current.amount_value)) [
          | inl more ↦
              rw (e, more, update_max_transaction)
                (replaced j id b bank r p (mark_max_transaction fl j b r q) changed
                  (rw (e, more) refl))
          | inr less ↦
              rw (e, less, update_max_transaction)
                (unfold get_store in
                  unchanged j id b bank r p (get_store fl j p) kept (rw (e, less) refl))
        ]
      ]

  abbrev nothing : Option (Record F)
  nothing = none

  none_either : (b : Bool) → (if b then nothing else nothing) ≡ nothing
  none_either true = refl
  none_either false = refl

  nothing_offered :
      (j id : Bytes) (b bank : ℤ) (p q : P fl)
      → maxima fl id q ≡ maxima fl id p
      → get (maxima fl id q) bank
        ≡ better fl (if j == id && b == bank then nothing else nothing) (get (maxima fl id p) bank)
  nothing_offered j id b bank p q h = rw (h, none_either (j == id && b == bank)) refl

  process-maxima :
      (j id : Bytes) (bank : ℤ) (m : MaxBank) (p : P fl)
      → get (maxima fl id (process fl j m p).1) bank
        ≡ better fl (offer id bank j m) (get (maxima fl id p) bank)
  unfolding process process_payload process_amount
  process-maxima j id bank m p =
      let kept =
        nothing_offered j id m.from_bank bank p (get_store fl j p)
          (Kept-get_store fl j id p).maxima_kept in
      elim m.payload
        as (λ y.
          get (maxima fl id (process_payload fl j m.from_bank y p).1) bank
          ≡ better fl (if j == id && m.from_bank == bank then transfer_of y else none)
              (get (maxima fl id p) bank)) [
                | no_payload ↦ kept
                | bank_metadata name ↦
                    nothing_offered j id m.from_bank bank p (process_name fl j m.from_bank name p)
                      (name-maxima j id m.from_bank name p)
                | transfer_summary account amount ↦
                    elim (parse_float amount)
                      as (λ v.
                        get (maxima fl id (process_amount fl j m.from_bank account amount v p).1)
                          bank
                        ≡ better fl
                            (if j == id && m.from_bank == bank
                              then record_of account amount v
                              else none)
                            (get (maxima fl id p) bank)) [
                              | none ↦ kept
                              | some v ↦
                                  transfer-maxima j id m.from_bank bank
                                    (record {
                                      account = account;
                                      amount_value = v;
                                      amount_string = amount;
                                    })
                                    p
                            ]
              ]

  process_all_from :
      (id : Bytes) (bank : ℤ) (ms : List (Bytes × MaxBank)) (p : P fl) (rs : List (Record F))
      → IsGreatest fl (get (maxima fl id p) bank) rs
      → IsGreatest fl (get (maxima fl id (process_all ms p)) bank) (rs ++ transfers id bank ms)
  unfolding process_all transfers
  process_all_from id bank [] p rs h = rw (append-nil rs) h
  process_all_from id bank ((j, m) ∷ ms) p rs h =
      let q = (process fl j m p).1 in
      let s = process-maxima j id bank m p in
      elim (Option-cases (offer id bank j m)) [
        | inl e ↦ rw (e, transfers) (process_all_from id bank ms q rs (rw (s, e) h))
        | inr (r, e) ↦
            rw (e, transfers, sym (append_assoc rs (r ∷ []) (transfers id bank ms)))
              (process_all_from id bank ms q (rs ++ r ∷ [])
                (rw (s, e) (IsGreatest-better fl _ r rs h)))
      ]

  -- Whatever items of whatever clients were processed, for each client and bank the store has one of
  -- the transfers of that bank, of which none of the others has a greater amount, and nothing if
  -- there was none. Comparison need only be transitive and irreflexive.
  pub process_all-IsGreatest :
      (id : Bytes) (bank : ℤ) (ms : List (Bytes × MaxBank))
      → IsGreatest fl
          (get (maxima fl id (process_all ms (new_processor fl))) bank)
          (transfers id bank ms)
  process_all-IsGreatest id bank ms =
      process_all_from id bank ms (new_processor fl) [] (unfold store_of get in refl)
