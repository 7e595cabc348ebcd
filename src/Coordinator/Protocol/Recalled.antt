-- ===== src/Coordinator/Protocol/Recalled.antt =====
-- eofcoordinator.go: what a restart finds of a life without clean-ups.
use tp_lavado_dinero.Prelude.{
  ◌≡◌, refl, sym, ◌∙◌, subst, Bool, true, List, [], ◌∷◌, Bytes, bytes_eq, All,
}
use tp_lavado_dinero.GoMap.{Map, get}
use tp_lavado_dinero.Coordinator.ClientState.{ClientState}
use tp_lavado_dinero.Coordinator.World.{Files, World, call}
use tp_lavado_dinero.Coordinator.Storage.{BatchLog, EofLog, load_batches, load_eofs, load_flushed}
use tp_lavado_dinero.Coordinator.Storage.Operations.{touch, read_batches, read_eofs, read_flushed}
use tp_lavado_dinero.Coordinator.Protocol.Sending.{Config, client_of}
use tp_lavado_dinero.Coordinator.Protocol.Steps.{Op, run}
use tp_lavado_dinero.Coordinator.Protocol.Restore.{
  restore_batches, restore_eofs, restore_flushed, restore_from_storage,
}
use tp_lavado_dinero.Coordinator.Protocol.Recovery.{started_on, restore-Recovered}
use tp_lavado_dinero.Coordinator.Protocol.Synced.{Entry, Agrees, AreComplete, Synced}
use tp_lavado_dinero.Coordinator.Protocol.Surviving.{IsRecordable, run-Synced}

restore-files :
    (batches : BatchLog) (eofs : EofLog) (flushed : Map Bytes Bool) (w : World)
    → (restore_flushed flushed (restore_eofs eofs (restore_batches batches w))).files ≡ w.files
unfolding restore_flushed restore_eofs restore_batches
restore-files ((k, m) ∷ batches) eofs flushed w = restore-files batches eofs flushed _
restore-files [] ((k, m) ∷ eofs) flushed w = restore-files [] eofs flushed _
restore-files [] [] ((k, b) ∷ flushed) w = restore-files [] [] flushed _
restore-files [] [] [] w = refl

-- A coordinator that has read its logs, without an error, and the calls that follow
abbrev pub restarted : Files → List Bool → World
restarted files outcomes = record (restore_from_storage (started_on files)).1 {
  outcomes = outcomes;
}

pub restarted-Synced :
    {known : List Entry} (files : Files) (outcomes : List Bool)
    → AreComplete known files
    → Synced known (restarted files outcomes)
unfolding restore_from_storage read_batches read_eofs read_flushed touch call client_of
restarted-Synced {known = known} files outcomes complete =
    let w = restarted files outcomes in
    let same : w.files ≡ files =
      restore-files (load_batches files.batch_log) (load_eofs files.eof_log)
        (load_flushed files.flushed_log) (started_on files) in
    record {
      complete = subst (AreComplete known) (sym same) complete;
      agree = λ id.
          (let r = restore-Recovered files id in
            subst (λ f. Agrees f id (client_of w id)) (sym same)
              (record { batches = r.batches; eofs = r.eofs; marked = λ h. r.flushed ∙ h }));
    }

-- The state `now` has the own batches and own EOFs of `before`, and no mark that `before` does not have.
pub record Recalls (before now : ClientState) : Type 0 where
  pub batches : (b : Bytes) → get now.own_batches b ≡ get before.own_batches b
  pub eofs : (e : Bytes) → get now.own_eofs e ≡ get before.own_eofs e
  pub marked : now.flushed ≡ true → before.flushed ≡ true

-- A coordinator starts on logs that end with complete lines, and lives on without clean-ups, with
-- names and counts that a line can hold, and with whatever calls of the broker, the disk and the
-- handler fail. Whenever it is then started anew and reads its files without an error, every client
-- has exactly its own batches and EOFs with their counts again, and is marked as flushed only if it
-- was.
pub run-Recalls :
    (c : Config) (files : Files) (outcomes : List Bool) (os : List Op) (id : Bytes)
    → AreComplete [] files
    → All IsRecordable os
    → let w = run c os (restarted files outcomes) in
      Recalls (client_of w id) (client_of (restarted w.files []) id)
unfolding client_of
run-Recalls c files outcomes os id complete h =
    let w = run c os (restarted files outcomes) in
    let s =
      run-Synced [] c os (restarted files outcomes) h (restarted-Synced files outcomes complete) in
    let a = s.agree id in
    let r = restore-Recovered w.files id in
    record {
      batches = λ b. r.batches b ∙ sym (a.batches b);
      eofs = λ e. r.eofs e ∙ sym (a.eofs e);
      marked = λ m. a.marked (sym r.flushed ∙ m);
    }
