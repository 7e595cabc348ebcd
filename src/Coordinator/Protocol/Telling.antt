-- ===== src/Coordinator/Protocol/Telling.antt =====
-- What a woken peer is told, and the other messages to all peers, move along every relation that
-- sending does.
use tp_lavado_dinero.Prelude.{ℕ, List, [], ◌∷◌, Bytes}
use tp_lavado_dinero.GoMap.{Map}
use tp_lavado_dinero.Coordinator.ClientState.{ClientState}
use tp_lavado_dinero.Coordinator.World.{World, Message, BatchInformation, send_with_key}
use tp_lavado_dinero.Coordinator.Protocol.Sending.{
  Config, send_eof, response_to_wake_up, wake_up_notification, eof_message, batch_message,
}
use tp_lavado_dinero.Coordinator.Protocol.Defs.{
  send_eofs, tell_client, tell_clients, broadcast_cleanup,
}
use tp_lavado_dinero.Coordinator.Protocol.Moving.{
  Journey, Moves, Moves-then, Moves-ok, Moves-when, Moves-serialize, Moves-send_records,
  Moves-broadcast,
}

module _ (R : World → World → Type 0) (j : Journey R)
    (sends : (key : Bytes) (msg : Message) → Moves R (send_with_key key msg)) (c : Config) where
  Moves-send_eofs : (key id : Bytes) (m : Map Bytes ℕ) → Moves R (send_eofs c key id m)
  unfolding send_eofs send_eof
  Moves-send_eofs key id [] = Moves-ok R j
  Moves-send_eofs key id ((eof_id, n) ∷ m) =
      let msg = eof_message c id eof_id n in
      Moves-then R j (send_eof c key id eof_id n) _
        (Moves-then R j _ _ (Moves-serialize R j sends c msg) (sends key msg))
        (Moves-send_eofs key id m)

  Moves-response_to_wake_up :
      (items : List BatchInformation) (id key : Bytes)
      → Moves R (response_to_wake_up c items id key)
  unfolding response_to_wake_up
  Moves-response_to_wake_up items id key =
      let msg = batch_message c items id in
      Moves-then R j _ _ (Moves-serialize R j sends c msg) (sends key msg)

  Moves-tell_client : (key id : Bytes) (cs : ClientState) → Moves R (tell_client c key id cs)
  unfolding tell_client
  Moves-tell_client key id cs = Moves-then R j _ _ (Moves-send_eofs key id cs.own_eofs) (
      Moves-when R j _ _ (
        Moves-send_records R j sends c _ cs.own_batches
          λ items _. Moves-response_to_wake_up items id key))

  pub Moves-tell_clients :
      (key : Bytes) (m : Map Bytes ClientState) → Moves R (tell_clients c key m)
  unfolding tell_clients
  Moves-tell_clients key [] = Moves-ok R j
  Moves-tell_clients key ((id, cs) ∷ m) =
      Moves-then R j _ _ (Moves-tell_client key id cs) (Moves-tell_clients key m)

  pub Moves-wake_up_notification : Moves R (wake_up_notification c)
  unfolding wake_up_notification
  Moves-wake_up_notification = Moves-broadcast R j sends c _

  pub Moves-broadcast_cleanup : (id : Bytes) → Moves R (broadcast_cleanup c id)
  unfolding broadcast_cleanup
  Moves-broadcast_cleanup id = Moves-broadcast R j sends c _
