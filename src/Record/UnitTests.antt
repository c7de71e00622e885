-- ===== src/Record/UnitTests.antt =====
-- The unit test of record.rs, run on the model.
use concrete.Prelude.{◌≡◌, refl, Bool, true, false, ◌&&◌, ◌==◌}
use concrete.Prelude.Order.{bytes_eq}
use concrete.Prelude.Result.{ok, err, panic}
use concrete.Bytes.{to_be_bytes, from_be_bytes}
use concrete.Bytes.ListBuffers.{list_buffers}
use concrete.Text.{text}
use concrete.Record.{Record, serialise, deserialise}

abbrev record_serialize_roundtrip : Bool
record_serialize_roundtrip =
    let written : Record = record { seq_num = 42; payload = text "hello" } in
    elim (deserialise (serialise written)) [
      | ok decoded ↦
          (written.seq_num == decoded.seq_num) && bytes_eq written.payload decoded.payload
      | err e ↦ false
      | panic ↦ false
    ]

roundtrip_passes : record_serialize_roundtrip ≡ true
unfolding deserialise serialise to_be_bytes from_be_bytes
roundtrip_passes = refl
