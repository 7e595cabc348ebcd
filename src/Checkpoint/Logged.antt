-- ===== src/Checkpoint/Logged.antt =====
-- checkpoint_manager.go: the batches that a log names, and what it is for the acks to be covered.
use tp_lavado_dinero.Prelude.{
  ◌≡◌, refl, ap, ◌∙◌, subst, ◌⊎◌, inl, inr, Bool, true, false, not, ◌&&◌, ◌||◌, none, some, List,
  [], ◌∷◌, ◌++◌, arith, Bytes, bytes_eq, bytes_beq_iff, ◌==◌, Bool-cases, if◌then◌else◌, contains,
  contains-append, All, All-append, Option-cases,
}
use tp_lavado_dinero.GoMap.{Map, get, put, remove, get-put, get-remove, is_some}
use tp_lavado_dinero.Checkpoint.Line.{Codec, LogEntry, log_line, parse_log_line}
use tp_lavado_dinero.Checkpoint.Parsing.{parse_log_line-log_line}
use tp_lavado_dinero.Checkpoint.Defs.{Delivery, Manager, slice_of, is_processed}

abbrev pub Logs : Type 0
Logs = Map Bytes (List Bytes)

abbrev pub names : List Delivery → List Bytes
names [] = []
names (d ∷ ds) = d.batch_id ∷ names ds

pub names_more :
    (ds : List Delivery) (d : Delivery) (b : Bytes)
    → contains (names (ds ++ d ∷ [])) b ≡ (contains (names ds) b || d.batch_id == b)
names_more [] d b = ground arith
names_more (e ∷ ds) d b = ground (arith, names_more ds d b)

pub names-append : (ds es : List Delivery) → names (ds ++ es) ≡ names ds ++ names es
names-append [] es = refl
names-append (d ∷ ds) es = ap (◌∷◌ d.batch_id) (names-append ds es)

module _ (k : Codec) where
  -- The batches that the lines of a log name, up to the first line that is not taken
  unfoldable pub logged_batches : List Bytes → List Bytes
  logged_batches [] = []
  logged_batches (l ∷ ls) = elim (parse_log_line k l) [
    | none ↦ []
    | some e ↦ e.batches ++ logged_batches ls
  ]

  abbrev pub IsReadable : List Bytes → Type 0
  IsReadable = All (λ l. is_some (parse_log_line k l) ≡ true)

  pub logged_batches-line :
      (l : Bytes) (e : LogEntry) (ls : List Bytes)
      → parse_log_line k l ≡ some e
      → logged_batches (l ∷ ls) ≡ e.batches ++ logged_batches ls
  unfolding logged_batches
  logged_batches-line l e ls h = rw (h, logged_batches) refl

  pub logged_batches-longer :
      (ls : List Bytes) (e : LogEntry) (text b : Bytes)
      → k.encode e ≡ some text
      → IsReadable ls
      → contains (logged_batches (ls ++ log_line k text ∷ [])) b
        ≡ (contains (logged_batches ls) b || contains e.batches b)
  unfolding logged_batches
  logged_batches-longer [] e text b w h =
      ap (λ ids. contains ids b)
        (logged_batches-line (log_line k text) e [] (parse_log_line-log_line k e text w))
      ∙ ground (arith, contains-append e.batches [] b)
  logged_batches-longer (l ∷ ls) e text b w h = elim (Option-cases (parse_log_line k l)) [
    | inl bad ↦ absurd (ground (arith, h.0, bad))
    | inr (f, good) ↦
        rw (good, logged_batches)
          (ground (
            arith,
            logged_batches-longer ls e text b w h.1,
            contains-append f.batches (logged_batches (ls ++ log_line k text ∷ [])) b,
            contains-append f.batches (logged_batches ls) b,
          ))
  ]

  pub IsReadable-longer :
      (ls : List Bytes) (e : LogEntry) (text : Bytes)
      → k.encode e ≡ some text
      → IsReadable ls
      → IsReadable (ls ++ log_line k text ∷ [])
  IsReadable-longer ls e text w h =
      All-append _ ls _ h (ap is_some (parse_log_line-log_line k e text w), tt)

  abbrev pub logged : Logs → Bytes → Bytes → Bool
  logged logs id b = contains (logged_batches (slice_of (get logs id))) b

  abbrev pub waits : Manager → Bytes → Bytes → Bool
  waits m id b = contains (names (slice_of (get m.pending_acks id))) b

  -- For one client: the pending batches are those of the waiting messages; every batch that counts
  -- as processed, and every batch of a message that has been acked, is in the log or has a message
  -- that waits for its ack.
  pub record Durable (id : Bytes) (m : Manager) (logs : Logs) (acked : List Delivery) : Type 0 where
    pub aligned : slice_of (get m.pending_batches id) ≡ names (slice_of (get m.pending_acks id))
    pub owned : (j : Bytes) → All (λ d. (j == d.client_id) ≡ true) (slice_of (get m.pending_acks j))
    pub readable : IsReadable (slice_of (get logs id))
    pub processed :
        (b : Bytes) → (not (is_processed m id b) || logged logs id b || waits m id b) ≡ true
    pub acks :
        All
          (λ d.
            (not (id == d.client_id) || logged logs id d.batch_id || waits m id d.batch_id) ≡ true)
          acked

pub All-weaken :
    {P Q : Delivery → Type 0} (ds : List Delivery)
    → All P ds
    → ((d : Delivery) → P d → Q d)
    → All Q ds
All-weaken [] h f = tt
All-weaken (d ∷ ds) h f = (f d h.0, All-weaken ds h.1 f)

-- a slice in a map, behind a write or a removal
pub slice-put :
    {A : Type 0} (m : Map Bytes (List A)) (j id : Bytes) (xs : List A)
    → slice_of (get (put m j xs) id) ≡ (if j == id then xs else slice_of (get m id))
slice-put m j id xs = ground (arith, get-put m j id xs)

pub slice-remove :
    {A : Type 0} (m : Map Bytes (List A)) (j id : Bytes)
    → slice_of (get (remove m j) id) ≡ (if j == id then [] else slice_of (get m id))
slice-remove m j id = ground (arith, get-remove m j id)

module _ (k : Codec) where
  pub logged-longer :
      (logs : Logs) (j : Bytes) (e : LogEntry) (text id b : Bytes)
      → k.encode e ≡ some text
      → IsReadable k (slice_of (get logs id))
      → logged k (put logs j (slice_of (get logs j) ++ log_line k text ∷ [])) id b
        ≡ (logged k logs id b || (j == id && contains e.batches b))
  logged-longer logs j e text id b w h = elim (Bool-cases (j == id)) [
    | inl same ↦
        let eq : j ≡ id = ground (arith, same, bytes_beq_iff j id) in
        rw (slice-put logs j id (slice_of (get logs j) ++ log_line k text ∷ []), same, eq)
          (logged_batches-longer k (slice_of (get logs id)) e text b w h)
    | inr other ↦
        rw (slice-put logs j id (slice_of (get logs j) ++ log_line k text ∷ []), other)
          (ground arith)
  ]

  IsReadable-put :
      (logs : Logs) (j : Bytes) (e : LogEntry) (text id : Bytes)
      → k.encode e ≡ some text
      → IsReadable k (slice_of (get logs id))
      → IsReadable k
          (slice_of (get (put logs j (slice_of (get logs j) ++ log_line k text ∷ [])) id))
  IsReadable-put logs j e text id w h = elim (Bool-cases (j == id)) [
    | inl same ↦
        let eq : j ≡ id = ground (arith, same, bytes_beq_iff j id) in
        rw (slice-put logs j id (slice_of (get logs j) ++ log_line k text ∷ []), same, eq)
          (IsReadable-longer k (slice_of (get logs id)) e text w h)
    | inr other ↦ rw (slice-put logs j id (slice_of (get logs j) ++ log_line k text ∷ []), other) h
  ]

  pub longer-Durable :
      (id : Bytes) (m : Manager) (logs : Logs) (acked : List Delivery) (j : Bytes) (e : LogEntry)
      (text : Bytes)
      → k.encode e ≡ some text
      → Durable k id m logs acked
      → Durable k id m (put logs j (slice_of (get logs j) ++ log_line k text ∷ [])) acked
  longer-Durable id m logs acked j e text w h =
      let more = λ (b : Bytes). logged-longer logs j e text id b w h.readable in
      record {
        aligned = h.aligned;
        owned = h.owned;
        readable = IsReadable-put logs j e text id w h.readable;
        processed = λ b. ground (arith, h.processed b, more b);
        acks = All-weaken acked h.acks (λ d v. ground (arith, v, more d.batch_id));
      }

  -- More messages of which each is known to be in the log, or to wait, or to be of another client
  pub acked-Durable :
      (id : Bytes) (m : Manager) (logs : Logs) (acked ds : List Delivery)
      → Durable k id m logs acked
      → All
          (λ d.
            (not (id == d.client_id) || logged k logs id d.batch_id || waits k m id d.batch_id)
            ≡ true)
          ds
      → Durable k id m logs (acked ++ ds)
  acked-Durable id m logs acked ds h g = record {
    aligned = h.aligned;
    owned = h.owned;
    readable = h.readable;
    processed = h.processed;
    acks = All-append _ acked ds h.acks g;
  }

abbrev pub IsAligned : Map Bytes (List Bytes) → Map Bytes (List Delivery) → Bytes → Type 0
IsAligned bs ds id = slice_of (get bs id) ≡ names (slice_of (get ds id))

abbrev pub IsOwned : Map Bytes (List Delivery) → Type 0
IsOwned ds = (j : Bytes) → All (λ d. (j == d.client_id) ≡ true) (slice_of (get ds j))

pub IsAligned-put :
    (bs : Map Bytes (List Bytes)) (ds : Map Bytes (List Delivery)) (j id : Bytes) (xs : List Bytes)
    (ys : List Delivery)
    → IsAligned bs ds id
    → xs ≡ names ys ⊎ (j == id) ≡ false
    → IsAligned (put bs j xs) (put ds j ys) id
IsAligned-put bs ds j id xs ys h new' = elim (Bool-cases (j == id)) [
  | inl same ↦
      rw (slice-put bs j id xs, slice-put ds j id ys, same)
        (elim new' [ inl e ↦ e | inr other ↦ absurd (ground (arith, same, other)) ])
  | inr other ↦ rw (slice-put bs j id xs, slice-put ds j id ys, other) h
]

pub IsOwned-put :
    (ds : Map Bytes (List Delivery)) (j : Bytes) (ys : List Delivery)
    → IsOwned ds
    → All (λ d. (j == d.client_id) ≡ true) ys
    → IsOwned (put ds j ys)
IsOwned-put ds j ys h new' i = elim (Bool-cases (j == i)) [
  | inl same ↦
      let eq : j ≡ i = ground (arith, same, bytes_beq_iff j i) in
      rw (slice-put ds j i ys, same) (subst (λ x. All (λ d. (x == d.client_id) ≡ true) ys) eq new')
  | inr other ↦ rw (slice-put ds j i ys, other) (h i)
]

pub IsOwned-remove :
    (ds : Map Bytes (List Delivery)) (j : Bytes) → IsOwned ds → IsOwned (remove ds j)
IsOwned-remove ds j h i = elim (Bool-cases (j == i)) [
  | inl same ↦ rw (slice-remove ds j i, same) tt
  | inr other ↦ rw (slice-remove ds j i, other) (h i)
]
