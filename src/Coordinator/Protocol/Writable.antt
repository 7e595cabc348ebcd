-- ===== src/Coordinator/Protocol/Writable.antt =====
-- batchstorage.go: what is loaded from a log, whatever it holds, can be written to a log again.
use tp_lavado_dinero.Prelude.{
  ℕ, ◌<◌, ◌≡◌, ◌≢◌, refl, subst, inl, inr, Bool-cases, Option, none, some, List, [], ◌∷◌, ◌++◌,
  arith, Bytes, bytes_eq, bytes_beq_iff, nat_eq, nat_beq, ◌==◌, All, All-append,
}
use tp_lavado_dinero.Decimal.{u64_size, parse_uint, parse_uint-bounds}
use tp_lavado_dinero.GoMap.{Map, get, put, or_empty, All-put}
use tp_lavado_dinero.Coordinator.ClientState.{BatchRecord}
use tp_lavado_dinero.Coordinator.Storage.{
  BatchLog, EofLog, insert, load_batches, load_batch_lines, add_batch_parts, add_batch_fields,
  load_eofs, load_eof_lines, add_eof_parts, add_eof_fields, lines_from, split_from, drop_cr, bar,
  newline,
}
use tp_lavado_dinero.Coordinator.Storage.Splitting.{Lacks}
use tp_lavado_dinero.Coordinator.Storage.RoundTrip.{IsPlain}

drop_cr-keeps : (c : ℕ) (s : Bytes) → Lacks c s → Lacks c (drop_cr s)
unfolding drop_cr
drop_cr-keeps c [] h = tt
drop_cr-keeps c (a ∷ []) h = elim (Bool-cases (nat_beq a 13)) [
  | inl e ↦ rw (e, drop_cr) tt
  | inr e ↦ rw (e, drop_cr) h
]
drop_cr-keeps c (a ∷ b ∷ s) h = (h.0, drop_cr-keeps c (b ∷ s) h.1)

lines_from-Lacks : (cur s : Bytes) → Lacks newline cur → All (Lacks newline) (lines_from cur s)
unfolding lines_from
lines_from-Lacks [] [] h = tt
lines_from-Lacks (b ∷ cur) [] h = (drop_cr-keeps newline (b ∷ cur) h, tt)
lines_from-Lacks cur (c ∷ s) h = elim (Bool-cases (nat_beq c newline)) [
  | inl e ↦ rw (e, lines_from) (drop_cr-keeps newline cur h, lines_from-Lacks [] s tt)
  | inr e ↦
      let other : c ≢ newline = ground (arith, e) in
      rw (e, lines_from)
        (lines_from-Lacks (cur ++ c ∷ []) s (All-append _ cur (c ∷ []) h (other, tt)))
]

split_from-IsPlain :
    (cur s : Bytes) → IsPlain cur → Lacks newline s → All IsPlain (split_from cur s)
unfolding split_from
split_from-IsPlain cur [] p h = (p, tt)
split_from-IsPlain cur (c ∷ s) p h = elim (Bool-cases (nat_beq c bar)) [
  | inl e ↦
      rw (e, split_from) (p, split_from-IsPlain [] s (record { no_bar = tt; no_newline = tt }) h.1)
  | inr e ↦
      let other : c ≢ bar = ground (arith, e) in
      rw (e, split_from)
        (split_from-IsPlain (cur ++ c ∷ []) s
          (record {
            no_bar = All-append _ cur (c ∷ []) p.no_bar (other, tt);
            no_newline = All-append _ cur (c ∷ []) p.no_newline (h.0, tt);
          })
          h.1)
]

-- A record that a line of the log of batches can hold, under the names it has there
pub record BatchFits (id b : Bytes) (r : BatchRecord) : Type 0 where
  pub client : IsPlain id
  pub named : r.batch_id ≡ b
  pub name : IsPlain b
  pub processed : r.processed < u64_size
  pub survivors : r.survivors < u64_size

pub record EofFits (id e : Bytes) (n : ℕ) : Type 0 where
  pub client : IsPlain id
  pub name : IsPlain e
  pub expected : n < u64_size

module _ {V : Type 0} (Fits : Bytes → Bytes → V → Type 0) where
  abbrev pub AllFit : Map Bytes (Map Bytes V) → Type 0
  AllFit log = All (λ e. All (λ x. Fits e.0 x.0 x.1) e.1) log

  logged-AllFit :
      (log : Map Bytes (Map Bytes V)) (id : Bytes)
      → AllFit log
      → All (λ x. Fits id x.0 x.1) (or_empty (get log id))
  unfolding get
  logged-AllFit [] id h = tt
  logged-AllFit ((k, m) ∷ log) id h = elim (Bool-cases (k == id)) [
    | inl e ↦ rw e (subst (λ x. All (λ y. Fits x y.0 y.1) m) ((bytes_beq_iff k id).0 e) h.0)
    | inr e ↦ rw e (logged-AllFit log id h.1)
  ]

  insert-AllFit :
      (log : Map Bytes (Map Bytes V)) (id k : Bytes) (v : V)
      → AllFit log
      → Fits id k v
      → AllFit (insert log id k v)
  unfolding insert
  insert-AllFit log id k v h f =
      let inner = or_empty (get log id) in
      All-put (λ j m. All (λ x. Fits j x.0 x.1) m) log id (put inner k v) h
        (All-put (λ b x. Fits id b x) inner k v (logged-AllFit log id h) f)

add_batch_fields-AllFit :
    (log : BatchLog) (id b : Bytes) (p s : Option ℕ)
    → ((n : ℕ) → p ≡ some n → n < u64_size)
    → ((n : ℕ) → s ≡ some n → n < u64_size)
    → IsPlain id
    → IsPlain b
    → AllFit BatchFits log
    → AllFit BatchFits (add_batch_fields log id b p s)
unfolding add_batch_fields
add_batch_fields-AllFit log id b (some p) (some s) hp hs pc pb h =
    insert-AllFit BatchFits log id b (record { batch_id = b; processed = p; survivors = s }) h
      (record {
        client = pc;
        named = refl;
        name = pb;
        processed = hp p refl;
        survivors = hs s refl;
      })
add_batch_fields-AllFit log id b none s hp hs pc pb h = h
add_batch_fields-AllFit log id b (some p) none hp hs pc pb h = h

add_batch_parts-AllFit :
    (log : BatchLog) (fields : List Bytes)
    → All IsPlain fields
    → AllFit BatchFits log
    → AllFit BatchFits (add_batch_parts log fields)
unfolding add_batch_parts
add_batch_parts-AllFit log (c ∷ b ∷ p ∷ s ∷ []) (pc, (pb, rest)) h =
    add_batch_fields-AllFit log c b (parse_uint p) (parse_uint s) (parse_uint-bounds p)
      (parse_uint-bounds s) pc pb h
add_batch_parts-AllFit log [] q h = h
add_batch_parts-AllFit log (c ∷ []) q h = h
add_batch_parts-AllFit log (c ∷ b ∷ []) q h = h
add_batch_parts-AllFit log (c ∷ b ∷ p ∷ []) q h = h
add_batch_parts-AllFit log (c ∷ b ∷ p ∷ s ∷ t ∷ more) q h = h

load_batch_lines-AllFit :
    (ls : List Bytes) (log : BatchLog)
    → All (Lacks newline) ls
    → AllFit BatchFits log
    → AllFit BatchFits (load_batch_lines log ls)
unfolding load_batch_lines
load_batch_lines-AllFit [] log q h = h
load_batch_lines-AllFit (l ∷ ls) log q h = load_batch_lines-AllFit ls _ q.1 (
    add_batch_parts-AllFit log (split_from [] l)
      (split_from-IsPlain [] l (record { no_bar = tt; no_newline = tt }) q.0) h)

-- Whatever a file holds: the records that are read from it fit into lines again.
pub load_batches-AllFit : (file : Bytes) → AllFit BatchFits (load_batches file)
unfolding load_batches
load_batches-AllFit file =
    load_batch_lines-AllFit (lines_from [] file) [] (lines_from-Lacks [] file tt) tt

add_eof_fields-AllFit :
    (log : EofLog) (id e : Bytes) (n : Option ℕ)
    → ((k : ℕ) → n ≡ some k → k < u64_size)
    → IsPlain id
    → IsPlain e
    → AllFit EofFits log
    → AllFit EofFits (add_eof_fields log id e n)
unfolding add_eof_fields
add_eof_fields-AllFit log id e none hn pc pe h = h
add_eof_fields-AllFit log id e (some n) hn pc pe h =
    insert-AllFit EofFits log id e n h (record { client = pc; name = pe; expected = hn n refl })

add_eof_parts-AllFit :
    (log : EofLog) (fields : List Bytes)
    → All IsPlain fields
    → AllFit EofFits log
    → AllFit EofFits (add_eof_parts log fields)
unfolding add_eof_parts
add_eof_parts-AllFit log (c ∷ e ∷ n ∷ []) (pc, (pe, rest)) h =
    add_eof_fields-AllFit log c e (parse_uint n) (parse_uint-bounds n) pc pe h
add_eof_parts-AllFit log [] q h = h
add_eof_parts-AllFit log (c ∷ []) q h = h
add_eof_parts-AllFit log (c ∷ e ∷ []) q h = h
add_eof_parts-AllFit log (c ∷ e ∷ n ∷ t ∷ more) q h = h

load_eof_lines-AllFit :
    (ls : List Bytes) (log : EofLog)
    → All (Lacks newline) ls
    → AllFit EofFits log
    → AllFit EofFits (load_eof_lines log ls)
unfolding load_eof_lines
load_eof_lines-AllFit [] log q h = h
load_eof_lines-AllFit (l ∷ ls) log q h = load_eof_lines-AllFit ls _ q.1 (
    add_eof_parts-AllFit log (split_from [] l)
      (split_from-IsPlain [] l (record { no_bar = tt; no_newline = tt }) q.0) h)

pub load_eofs-AllFit : (file : Bytes) → AllFit EofFits (load_eofs file)
unfolding load_eofs
load_eofs-AllFit file =
    load_eof_lines-AllFit (lines_from [] file) [] (lines_from-Lacks [] file tt) tt
