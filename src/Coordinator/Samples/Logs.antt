-- ===== src/Coordinator/Samples/Logs.antt =====
-- batchstorage.go: the lines of a log, and a restart on it.
use tp_lavado_dinero.Prelude.{◌≡◌, refl, inl, true, some, [], ◌++◌, arith, bytes_eq}
use tp_lavado_dinero.Decimal.{parse_uint, format_uint, parse_uint-format_uint}
use tp_lavado_dinero.GoMap.{put}
use tp_lavado_dinero.Coordinator.Storage.{
  insert, load_batches, load_eofs, load_flushed, batch_line, eof_line, flushed_line,
}
use tp_lavado_dinero.Coordinator.Storage.RoundTrip.{
  IsPlain, load_batches-batch_line, load_eofs-eof_line, load_flushed-flushed_line,
}
use tp_lavado_dinero.Coordinator.Protocol.{client_of, restore_from_storage}
use tp_lavado_dinero.Coordinator.Protocol.Recovery.{started_on, Recovered, restore-Recovered}
use tp_lavado_dinero.Coordinator.Samples.{client, x, y, e, record_x, no_files}

pub client-IsPlain : IsPlain client
client-IsPlain = record { no_bar = (ground arith, tt); no_newline = (ground arith, tt) }

pub x-IsPlain : IsPlain x
x-IsPlain = record { no_bar = (ground arith, tt); no_newline = (ground arith, tt) }

pub y-IsPlain : IsPlain y
y-IsPlain = record { no_bar = (ground arith, tt); no_newline = (ground arith, tt) }

pub e-IsPlain : IsPlain e
e-IsPlain = record { no_bar = (ground arith, tt); no_newline = (ground arith, tt) }

load_batches-batch_line_example :
    load_batches ([] ++ batch_line client record_x) ≡ insert (load_batches []) client x record_x
load_batches-batch_line_example =
    load_batches-batch_line [] client record_x (inl refl) client-IsPlain x-IsPlain (omega arith)
      (omega arith)

load_eofs-eof_line_example :
    load_eofs ([] ++ eof_line client e 2) ≡ insert (load_eofs []) client e 2
load_eofs-eof_line_example =
    load_eofs-eof_line [] client e 2 (inl refl) client-IsPlain e-IsPlain (omega arith)

load_flushed-flushed_line_example :
    load_flushed ([] ++ flushed_line client) ≡ put (load_flushed []) client true
load_flushed-flushed_line_example = load_flushed-flushed_line [] client (inl refl) client-IsPlain

restore-Recovered_example :
    Recovered
      (record no_files { eof_log = eof_line client e 2 })
      client
      (client_of
        (restore_from_storage (started_on (record no_files { eof_log = eof_line client e 2 }))).1
        client)
restore-Recovered_example =
    restore-Recovered (record no_files { eof_log = eof_line client e 2 }) client

parse_uint-format_uint_example : parse_uint (format_uint 1205) ≡ some 1205
parse_uint-format_uint_example = parse_uint-format_uint 1205 (omega arith)
