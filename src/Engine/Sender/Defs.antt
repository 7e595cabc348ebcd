-- ===== src/Engine/Sender/Defs.antt =====
-- singlesender.go and sender.go. The output is a list of messages; to serialise and to publish are
-- calls that may fail, and a call that fails publishes nothing.
use tp_lavado_dinero.Prelude.{
  ℕ, Bool, true, false, Option, none, some, List, [], ◌∷◌, ◌++◌, Bytes, bytes_eq, Exec, Result, ok,
  err, call_failed, ◌>>◌,
}
use tp_lavado_dinero.GoMap.{Map, get, put, remove, keys}
use tp_lavado_dinero.Batch.Defs.{Batcher, add, new, new_batcher, set_new_batch_id, flush_pending}

-- What is published: a batch, an EOF or a clean-up.
pub data OutMessage (V : Type 0) : Type 0 where
  batch_of : (client_id batch_id : Bytes) → V → OutMessage V
  eof_of : (client_id eof_id : Bytes) → ℕ → OutMessage V
  cleanup_of : (client_id : Bytes) → OutMessage V

-- The output, with the key under which each message went, if any; `outcomes` says which of the
-- calls to come succeed, and those behind its end do.
pub record Wire (V : Type 0) : Type 0 where
  pub published : List (Option Bytes × OutMessage V)
  pub outcomes : List Bool

pub record SingleSender (T V : Type 0) : Type 0 where
  pub namespace : Bytes
  pub wrapper : List T → V
  pub sizer : T → ℕ
  pub max_weight : ℕ
  pub key_resolver : Bytes → Option Bytes
  pub output : Wire V
  pub batchers : Map Bytes (Batcher (Wire V) T V)

-- "%s-%s"
unfoldable pub namespaced_id : Bytes → Bytes → Bytes
namespaced_id id namespace = id ++ b'-' ∷ namespace

module _ {V : Type 0} where
  abbrev pub with_outcome : List Bool → (Wire V → Wire V) → Exec (Wire V) (Unit {0})
  with_outcome [] f w = (ok tt, f w)
  with_outcome (true ∷ os) f w = (ok tt, f (record w { outcomes = os }))
  with_outcome (false ∷ os) f w = (err call_failed, record w { outcomes = os })

  unfoldable pub wire_call : (Wire V → Wire V) → Exec (Wire V) (Unit {0})
  wire_call f w = with_outcome w.outcomes f w

  unfoldable pub publish : (Bytes → Option Bytes) → Bytes → OutMessage V → Exec (Wire V) (Unit {0})
  unfolding wire_call
  publish key_resolver client_id msg =
      wire_call λ w. record w { published = w.published ++ (key_resolver client_id, msg) ∷ [] }

  -- The serialised message, published
  unfoldable pub serialize_and_publish :
      (Bytes → Option Bytes) → Bytes → OutMessage V → Exec (Wire V) (Unit {0})
  unfolding wire_call publish
  serialize_and_publish key_resolver client_id msg = do
    wire_call (λ w. w)
    publish key_resolver client_id msg

  unfoldable pub flush_batch : (Bytes → Option Bytes) → Bytes → V → Bytes → Exec (Wire V) (Unit {0})
  unfolding serialize_and_publish
  flush_batch key_resolver client_id v batch_id =
      serialize_and_publish key_resolver client_id (batch_of client_id batch_id v)

module _ {T V : Type 0} where
  -- NewSingleSender, where the output has no keys, and NewDynamicKeySender
  unfoldable pub new_sender :
      (Bytes → Option Bytes) → (List T → V) → (T → ℕ) → ℕ → Bytes → SingleSender T V
  new_sender key_resolver wrapper sizer max_weight namespace = record {
    namespace = namespace;
    wrapper = wrapper;
    sizer = sizer;
    max_weight = max_weight;
    key_resolver = key_resolver;
    output = record { published = []; outcomes = [] };
    batchers = [];
  }

  -- The batcher of a client as it is found, or a new one.
  unfoldable pub batcher_of : Bytes → SingleSender T V → Batcher (Wire V) T V
  unfolding new_batcher new flush_batch
  batcher_of client_id s = elim (get s.batchers client_id) [
    | none ↦ new_batcher (new s.max_weight s.sizer s.wrapper) (flush_batch s.key_resolver client_id)
    | some b ↦ b
  ]

  abbrev pub with_batcher :
      Bytes
      → SingleSender T V
      → Result (Unit {0}) × Batcher (Wire V) T V × Wire V
      → Result (Unit {0}) × SingleSender T V
  with_batcher client_id s (r, b, w) =
      (r, record s { batchers = put s.batchers client_id b; output = w })

  -- A name with a namespace is never empty, so that no uuid is drawn.
  unfoldable pub named_batcher : Bytes → Bytes → SingleSender T V → Batcher (Wire V) T V
  unfolding batcher_of set_new_batch_id namespaced_id
  named_batcher client_id batch_id s =
      set_new_batch_id [] (batcher_of client_id s) (namespaced_id batch_id s.namespace)

  unfoldable pub add_item : Bytes → T → Bytes → Exec (SingleSender T V) (Unit {0})
  unfolding named_batcher add
  add_item client_id item batch_id s =
      with_batcher client_id s (add (named_batcher client_id batch_id s) item s.output)

  unfoldable pub flush_client : Bytes → Exec (SingleSender T V) (Unit {0})
  unfolding flush_pending
  flush_client client_id s = elim (get s.batchers client_id) [
    | none ↦ (ok tt, s)
    | some b ↦ with_batcher client_id s (flush_pending b s.output)
  ]

  abbrev pub dropped :
      Bytes → SingleSender T V → Result (Unit {0}) × Wire V → Result (Unit {0}) × SingleSender T V
  dropped client_id s (ok _, w) =
      (ok tt, record s { batchers = remove s.batchers client_id; output = w })
  dropped client_id s (err e, w) = (err e, record s { output = w })

  unfoldable pub cleanup_client : Bytes → Exec (SingleSender T V) (Unit {0})
  unfolding serialize_and_publish
  cleanup_client client_id s =
      dropped client_id s
        (serialize_and_publish s.key_resolver client_id (cleanup_of client_id) s.output)

  unfoldable pub send_eof_message : Bytes → ℕ → Bytes → Exec (SingleSender T V) (Unit {0})
  unfolding serialize_and_publish namespaced_id
  send_eof_message client_id survivor_count eof_id s =
      let (r, w) =
        serialize_and_publish s.key_resolver client_id
          (eof_of client_id (namespaced_id eof_id s.namespace) survivor_count) s.output in
      (r, record s { output = w })

  -- The loop of `Close`: each client that is there when it starts is cleaned up, errors dropped.
  unfoldable pub cleanup_clients : List Bytes → SingleSender T V → SingleSender T V
  unfolding cleanup_client
  cleanup_clients [] s = s
  cleanup_clients (client_id ∷ ids) s = cleanup_clients ids (cleanup_client client_id s).1

  -- What counts of the output's own `Close` is whether it succeeds.
  unfoldable pub close_sender : Exec (SingleSender T V) (Unit {0})
  unfolding cleanup_clients wire_call
  close_sender s =
      let s' = cleanup_clients (keys s.batchers) s in
      let (r, w) = wire_call (λ w. w) s'.output in (r, record s' { output = w })
