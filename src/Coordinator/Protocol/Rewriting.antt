-- ===== src/Coordinator/Protocol/Rewriting.antt =====
-- batchstorage.go: a log that is written line by line from what it was read as. The argument is the
-- same for batches and for EOFs, so it is about any `load` and any `line` that adds its record.
use tp_lavado_dinero.Prelude.{
  ◌≡◌, refl, some, [], ◌∷◌, ◌++◌, arith, Bytes, bytes_eq, bytes_beq_iff, ◌==◌, if◌then◌else◌,
  Distinct, All,
}
use tp_lavado_dinero.GoMap.{Map, get, keys, is_some-get}
use tp_lavado_dinero.Coordinator.Storage.{insert}
use tp_lavado_dinero.Coordinator.Storage.Splitting.{IsComplete}
use tp_lavado_dinero.Coordinator.Protocol.Restored.{logged, or_else}
use tp_lavado_dinero.Coordinator.Protocol.Synced.{logged-insert}

module _ {V : Type 0} (line : Bytes → Bytes → V → Bytes) where
  abbrev pub client_written : Bytes → Bytes → Map Bytes V → Bytes
  client_written log id [] = log
  client_written log id ((k, v) ∷ m) = client_written (log ++ line id k v) id m

  abbrev pub all_written : Bytes → Map Bytes (Map Bytes V) → Bytes
  all_written log [] = log
  all_written log ((id, m) ∷ rest) = all_written (client_written log id m) rest

module _ {V : Type 0} (load : Bytes → Map Bytes (Map Bytes V)) (line : Bytes → Bytes → V → Bytes)
    (Fits : Bytes → Bytes → V → Type 0)
    (adds : (log id k : Bytes) (v : V)
      → IsComplete log
      → Fits id k v
      → load (log ++ line id k v) ≡ insert (load log) id k v)
    (completes : (log id k : Bytes) (v : V) → IsComplete (log ++ line id k v)) where
  client_written-IsComplete :
      (log id : Bytes) (m : Map Bytes V)
      → IsComplete log
      → IsComplete (client_written line log id m)
  client_written-IsComplete log id [] c = c
  client_written-IsComplete log id ((k, v) ∷ m) c =
      client_written-IsComplete (log ++ line id k v) id m (completes log id k v)

  logged-client_written :
      (log id : Bytes) (m : Map Bytes V) (j b : Bytes)
      → IsComplete log
      → Distinct (keys m)
      → All (λ e. Fits id e.0 e.1) m
      → logged (load (client_written line log id m)) j b
        ≡ (if id == j then or_else (get m b) (logged (load log) j b) else logged (load log) j b)
  unfolding get keys
  logged-client_written log id [] j b c d h = ground arith
  logged-client_written log id ((k, v) ∷ m) j b c d h =
      let next = log ++ line id k v in
      let one : logged (load next) j b ≡ (
          if id == j
          then (if k == b then some v else logged (load log) id b)
          else logged (load log) j b) =
        (rw (adds log id k v c h.0) (logged-insert (load log) id k j b v)) in
      ground (
        arith,
        logged-client_written next id m j b (completes log id k v) d.1 h.1,
        one,
        is_some-get m k,
        d.0,
        bytes_beq_iff k b,
        bytes_beq_iff id j,
      )

  pub logged-all_written :
      (log : Bytes) (rest : Map Bytes (Map Bytes V)) (j b : Bytes)
      → IsComplete log
      → Distinct (keys rest)
      → All (λ e. Distinct (keys e.1)) rest
      → All (λ e. All (λ x. Fits e.0 x.0 x.1) e.1) rest
      → logged (load (all_written line log rest)) j b
        ≡ or_else (logged rest j b) (logged (load log) j b)
  unfolding get keys
  logged-all_written log [] j b c d i h = refl
  logged-all_written log ((id, m) ∷ rest) j b c d i h =
      let next = client_written line log id m in
      ground (
        arith,
        logged-all_written next rest j b (client_written-IsComplete log id m c) d.1 i.1 h.1,
        logged-client_written log id m j b c i.0 h.0,
        is_some-get rest id,
        d.0,
        bytes_beq_iff id j,
      )
