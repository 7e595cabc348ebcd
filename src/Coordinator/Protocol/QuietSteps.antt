-- ===== src/Coordinator/Protocol/QuietSteps.antt =====
-- Operations that leave the clients alone: answering a woken peer, and writing the logs anew.
use tp_lavado_dinero.Prelude.{ℕ, refl, arith, [], ◌∷◌, Bytes, bytes_eq, Exec, ◌>>◌}
use tp_lavado_dinero.GoMap.{Map, remove}
use tp_lavado_dinero.Coordinator.ClientState.{BatchRecord, ClientState}
use tp_lavado_dinero.Coordinator.World.{World, Action}
use tp_lavado_dinero.Coordinator.Storage.{BatchLog, EofLog}
use tp_lavado_dinero.Coordinator.Storage.Operations.{
  touch, read_batches, read_eofs, truncate_batches, truncate_eofs, write_client_batches,
  write_all_batches, write_client_eofs, write_all_eofs, clear_storage,
}
use tp_lavado_dinero.Coordinator.Protocol.Sending.{Config, wake_up_notification}
use tp_lavado_dinero.Coordinator.Protocol.Defs.{tell_clients, broadcast_cleanup}
use tp_lavado_dinero.Coordinator.Protocol.Telling.{
  Moves-tell_clients, Moves-wake_up_notification, Moves-broadcast_cleanup,
}
use tp_lavado_dinero.Coordinator.Protocol.Quiet.{
  SameCore, SameCore-refl, SameCore-Journey, Quiet, Quiet-ok, Quiet-bind, Quiet-call,
  Quiet-write_batch, Quiet-write_eof, Quiet-send_with_key,
}

Quiet-touch : Quiet touch
unfolding touch
Quiet-touch = Quiet-call _ SameCore-refl

Quiet-then : {A : Type 0} (m : Action) (k : Exec World A) → Quiet m → Quiet k → Quiet (m >> k)
Quiet-then m k hm hk = Quiet-bind m (λ _. k) hm (λ _. hk)

Quiet-truncate_batches : Quiet truncate_batches
unfolding truncate_batches
Quiet-truncate_batches =
    Quiet-call _
      (λ v. record { clients = refl; cleaned = refl; flushes = refl; spent = omega arith })

Quiet-truncate_eofs : Quiet truncate_eofs
unfolding truncate_eofs
Quiet-truncate_eofs =
    Quiet-call _
      (λ v. record { clients = refl; cleaned = refl; flushes = refl; spent = omega arith })

Quiet-read_batches : Quiet read_batches
unfolding read_batches
Quiet-read_batches =
    Quiet-then touch _ Quiet-touch (Quiet-then touch _ Quiet-touch (record { at = SameCore-refl }))

Quiet-read_eofs : Quiet read_eofs
unfolding read_eofs
Quiet-read_eofs =
    Quiet-then touch _ Quiet-touch (Quiet-then touch _ Quiet-touch (record { at = SameCore-refl }))

Quiet-write_client_batches :
    (id : Bytes) (m : Map Bytes BatchRecord) → Quiet (write_client_batches id m)
unfolding write_client_batches
Quiet-write_client_batches id [] = Quiet-ok
Quiet-write_client_batches id ((k, r) ∷ m) =
    Quiet-then _ _ (Quiet-write_batch id r) (Quiet-write_client_batches id m)

Quiet-write_all_batches : (log : BatchLog) → Quiet (write_all_batches log)
unfolding write_all_batches
Quiet-write_all_batches [] = Quiet-ok
Quiet-write_all_batches ((id, m) ∷ log) =
    Quiet-then _ _ (Quiet-write_client_batches id m) (Quiet-write_all_batches log)

Quiet-write_client_eofs : (id : Bytes) (m : Map Bytes ℕ) → Quiet (write_client_eofs id m)
unfolding write_client_eofs
Quiet-write_client_eofs id [] = Quiet-ok
Quiet-write_client_eofs id ((k, n) ∷ m) =
    Quiet-then _ _ (Quiet-write_eof id k n) (Quiet-write_client_eofs id m)

Quiet-write_all_eofs : (log : EofLog) → Quiet (write_all_eofs log)
unfolding write_all_eofs
Quiet-write_all_eofs [] = Quiet-ok
Quiet-write_all_eofs ((id, m) ∷ log) =
    Quiet-then _ _ (Quiet-write_client_eofs id m) (Quiet-write_all_eofs log)

pub Quiet-clear_storage : (id : Bytes) → Quiet (clear_storage id)
unfolding clear_storage
Quiet-clear_storage id = Quiet-then touch _ Quiet-touch (
    Quiet-then touch _ Quiet-touch (
      Quiet-bind read_batches _ Quiet-read_batches λ batches.
        Quiet-bind read_eofs _ Quiet-read_eofs λ eofs. Quiet-then touch _ Quiet-touch (
          Quiet-then truncate_batches _ Quiet-truncate_batches (
            Quiet-then touch _ Quiet-touch (
              Quiet-then _ _ (Quiet-write_all_batches (remove batches id)) (
                Quiet-then touch _ Quiet-touch (
                  Quiet-then truncate_eofs _ Quiet-truncate_eofs
                    (Quiet-then touch _ Quiet-touch (Quiet-write_all_eofs (remove eofs id))))))))))

module _ (c : Config) where
  pub Quiet-tell_clients : (key : Bytes) (m : Map Bytes ClientState) → Quiet (tell_clients c key m)
  Quiet-tell_clients = Moves-tell_clients SameCore SameCore-Journey Quiet-send_with_key c

  pub Quiet-wake_up_notification : Quiet (wake_up_notification c)
  Quiet-wake_up_notification =
      Moves-wake_up_notification SameCore SameCore-Journey Quiet-send_with_key c

  pub Quiet-broadcast_cleanup : (id : Bytes) → Quiet (broadcast_cleanup c id)
  Quiet-broadcast_cleanup = Moves-broadcast_cleanup SameCore SameCore-Journey Quiet-send_with_key c
