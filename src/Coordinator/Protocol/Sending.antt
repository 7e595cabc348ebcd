-- ===== src/Coordinator/Protocol/Sending.antt =====
-- eofcoordinator.go: the configuration, the state of a client and the messages to the peers.
use tp_lavado_dinero.Prelude.{
  ℕ, zero, suc, ◌%◌, Bool, false, none, some, List, [], ◌∷◌, ◌++◌, Bytes, bytes_eq, nat_beq,
  if◌then◌else◌, Exec, ok, ◌>>◌, pure, map,
}
use tp_lavado_dinero.Decimal.{format_uint}
use tp_lavado_dinero.GoMap.{Map, get}
use tp_lavado_dinero.Batch.Defs.{new, new_batcher, send_all}
use tp_lavado_dinero.Coordinator.ClientState.{BatchRecord, ClientState, new_client_state, u32_size}
use tp_lavado_dinero.Coordinator.World.{
  wakeup, eof_arrived, batch_information, BatchInformation, Message, blank, World, Action, call,
  send_with_key, serialize, set_client,
}

-- The fields of EOFCoordinator that do not change. `size` is proto.Size.
pub record Config : Type 0 where
  pub worker_id : ℕ
  pub worker_name : Bytes
  pub expected_eofs : ℕ
  pub publish_keys : List Bytes
  pub inner_batch_weight : ℕ
  pub size : BatchInformation → ℕ

-- fmt.Sprintf("%s.%d", name, i)
unfoldable pub worker_key : Bytes → ℕ → Bytes
worker_key name i = name ++ b'.' ∷ format_uint i

-- `for i := range config.WorkerCount`, from `i` on with `k` rounds left
unfoldable pub peer_keys_from : Bytes → ℕ → ℕ → ℕ → List Bytes
unfolding worker_key
peer_keys_from name worker_id i zero = []
peer_keys_from name worker_id i (suc k) =
    let rest = peer_keys_from name worker_id (suc i) k in
    if nat_beq i worker_id then rest else worker_key name i ∷ rest

-- The configuration that NewEOFCoordinator derives; one EOF is expected where none is given.
unfoldable pub new_config : Bytes → ℕ → ℕ → ℕ → ℕ → (BatchInformation → ℕ) → Config
unfolding peer_keys_from
new_config name worker_id worker_count expected_eofs max_batch_weight size = record {
  worker_id = worker_id;
  worker_name = name;
  expected_eofs = (if nat_beq expected_eofs 0 then 1 else expected_eofs) % u32_size;
  publish_keys = peer_keys_from name worker_id 0 worker_count;
  inner_batch_weight = max_batch_weight;
  size = size;
}

-- The state of a client as it is found, or a new one.
unfoldable pub client_of : World → Bytes → ClientState
client_of w client_id = elim (get w.clients client_id) [ none ↦ new_client_state | some cs ↦ cs ]

unfoldable pub get_client_state : Bytes → Exec World ClientState
unfolding client_of set_client
get_client_state client_id w =
    (ok (client_of w client_id), set_client client_id (client_of w client_id) w)

-- c.cleanedClients[clientID]
unfoldable pub is_cleaned : World → Bytes → Bool
is_cleaned w client_id = elim (get w.cleaned_clients client_id) [ none ↦ false | some b ↦ b ]

unfoldable pub transform_batch_to_proto : BatchRecord → BatchInformation
transform_batch_to_proto r = record {
  batch_id = r.batch_id;
  processed_count = r.processed;
  survivor_count = r.survivors;
}

unfoldable pub record_of : BatchInformation → BatchRecord
record_of i = record {
  batch_id = i.batch_id;
  processed = i.processed_count;
  survivors = i.survivor_count;
}

-- The values of a map, in the order of `range`.
unfoldable pub values {ℓ κ} : {K : Type ℓ} {V : Type κ} → Map K V → List V
values [] = []
values ((k, v) ∷ m) = v ∷ values m

unfoldable pub send_keys : List Bytes → Message → Action
unfolding send_with_key
send_keys [] msg = pure tt
send_keys (key ∷ keys) msg = do send_with_key key msg; send_keys keys msg

-- c.flushHandler(clientID, totalSurvivors, state.lastEOFID)
unfoldable pub call_flush_handler : Bytes → ℕ → Bytes → Action
unfolding call
call_flush_handler client_id survivors eof_id = call (λ w. record w {
  flushes =
      w.flushes ++ record { client_id = client_id; survivors = survivors; eof_id = eof_id } ∷ [];
})

module _ (c : Config) where
  unfoldable pub broadcast : Message → Action
  unfolding serialize send_keys
  broadcast msg = do serialize msg; send_keys c.publish_keys msg

  unfoldable pub wake_up_notification : Action
  unfolding broadcast
  wake_up_notification =
      broadcast (record blank { kind = wakeup; sender_id = c.worker_id % u32_size })

  unfoldable pub batch_message : List BatchInformation → Bytes → Message
  batch_message information client_id = record blank {
    kind = batch_information;
    client_id = client_id;
    sender_id = c.worker_id % u32_size;
    information = information;
  }

  unfoldable pub eof_message : Bytes → Bytes → ℕ → Message
  eof_message client_id eof_id expected_total = record blank {
    kind = eof_arrived;
    client_id = client_id;
    sender_id = c.worker_id % u32_size;
    eof_id = eof_id;
    expected_total = expected_total;
  }

  unfoldable pub broadcast_batch : List BatchInformation → Bytes → Action
  unfolding broadcast batch_message
  broadcast_batch information client_id = broadcast (batch_message information client_id)

  unfoldable pub broadcast_eof : Bytes → Bytes → ℕ → Action
  unfolding broadcast eof_message
  broadcast_eof client_id eof_id expected_total =
      broadcast (eof_message client_id eof_id expected_total)

  unfoldable pub send_eof : Bytes → Bytes → Bytes → ℕ → Action
  unfolding serialize send_with_key eof_message
  send_eof key client_id eof_id expected_total = do
    serialize (eof_message client_id eof_id expected_total)
    send_with_key key (eof_message client_id eof_id expected_total)

  unfoldable pub response_to_wake_up : List BatchInformation → Bytes → Bytes → Action
  unfolding serialize send_with_key batch_message
  response_to_wake_up items client_id key = do
    serialize (batch_message items client_id)
    send_with_key key (batch_message items client_id)

  -- The records of a client go through a batcher, and its groups to `on_flush`.
  unfoldable pub send_records :
      (List BatchInformation → Bytes → Action) → Map Bytes BatchRecord → Action
  unfolding send_all values
  send_records on_flush records w =
      let batcher = new_batcher (new c.inner_batch_weight c.size (λ items. items)) on_flush in
      let (r, _, w') = send_all batcher (map transform_batch_to_proto (values records)) w in (r, w')

  unfoldable pub broadcast_own_batches : Bytes → ClientState → Action
  unfolding send_records broadcast_batch
  broadcast_own_batches client_id cs =
      send_records (λ items _. broadcast_batch items client_id) cs.own_batches
