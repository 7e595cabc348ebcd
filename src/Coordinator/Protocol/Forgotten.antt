-- ===== src/Coordinator/Protocol/Forgotten.antt =====
-- eofcoordinator.go: ClearClient, in memory and behind a restart.
use tp_lavado_dinero.Prelude.{
  ◌≡◌, refl, sym, ap, ◌∙◌, Bool, true, none, [], Bytes, bytes_eq, bytes_beq_iff, ◌==◌,
  if◌then◌else◌, arith, ok,
}
use tp_lavado_dinero.GoMap.{get, put, remove, get-remove}
use tp_lavado_dinero.Coordinator.ClientState.{ClientState, new_client_state}
use tp_lavado_dinero.Coordinator.World.{World}
use tp_lavado_dinero.Coordinator.Protocol.Sending.{client_of}
use tp_lavado_dinero.Coordinator.Protocol.Defs.{clear_client}
use tp_lavado_dinero.Coordinator.Protocol.Recovery.{restore-Recovered}
use tp_lavado_dinero.Coordinator.Protocol.Recalled.{restarted}
use tp_lavado_dinero.Coordinator.Protocol.Cleared.{
  cleared_files, clear_storage-cleared, batches_left, eofs_left,
}
use tp_lavado_dinero.Coordinator.Protocol.Sending.{Config}

-- The own records of a client in `now`: none if it is gone, else those in `before`; its mark is the same.
pub record Leaves (gone : Bool) (before now : ClientState) : Type 0 where
  pub batches :
      (b : Bytes) → get now.own_batches b ≡ (if gone then none else get before.own_batches b)
  pub eofs : (e : Bytes) → get now.own_eofs e ≡ (if gone then none else get before.own_eofs e)
  pub marked : now.flushed ≡ before.flushed

-- Where no call fails, ClearClient returns no error, whatever the files hold, and the memory has nothing
-- of the client. A coordinator that is then started anew has no own batch and no own EOF of it, and for
-- every other client those that it would have had before; but its marks of flushed clients are the old
-- ones, that of the cleared client included.
pub clear_client-Leaves :
    (c : Config) (id : Bytes) (w : World)
    → w.outcomes ≡ []
    → let (r, v) = clear_client c id w in
      (r ≡ ok tt)
      × (client_of v id ≡ new_client_state)
      × ((j : Bytes)
          → Leaves
              (id == j)
              (client_of (restarted w.files []) j)
              (client_of (restarted v.files []) j))
unfolding clear_client client_of
clear_client-Leaves c id w e =
    let u = record w {
      cleaned_clients = put w.cleaned_clients id true;
      clients = remove w.clients id;
    } in
    let v = record u { files = cleared_files id w.files } in
    let gone : client_of v id ≡ new_client_state =
      ground (arith, get-remove w.clients id id, bytes_beq_iff id id) in
    let left : (j : Bytes)
        → Leaves (id == j) (client_of (restarted w.files []) j)
            (client_of (restarted v.files []) j) =
      λ j.
        (let old = restore-Recovered w.files j in
          let new = restore-Recovered v.files j in
          record {
            batches = λ b.
                new.batches b
                ∙ batches_left w.files.batch_log id j b
                ∙ ap (λ x. if id == j then none else x) (sym (old.batches b));
            eofs = λ x.
                new.eofs x
                ∙ eofs_left w.files.eof_log id j x
                ∙ ap (λ y. if id == j then none else y) (sym (old.eofs x));
            marked = new.flushed ∙ sym old.flushed;
          }) in
    rw (clear_storage-cleared id u e) (refl, gone, left)
