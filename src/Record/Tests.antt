-- ===== src/Record/Tests.antt =====
-- A record and its bytes.
use concrete.Prelude.{◌≡◌, arith}
use concrete.Prelude.Result.{ok}
use concrete.Bytes.ListBuffers.{list_buffers}
use concrete.Text.{text}
use concrete.Record.{Record, serialise, deserialise, deserialise-serialise}

abbrev greeting : Record
greeting = record { seq_num = 42; payload = text "hello" }

deserialise-serialise_example : deserialise (serialise greeting) ≡ ok greeting
deserialise-serialise_example = deserialise-serialise greeting (omega arith)
