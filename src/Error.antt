-- ===== src/Error.antt =====
-- error.rs: the errors of a stream, and how they are shown.
use concrete.Prelude.{◌++◌}
use concrete.Text.{Str, text}
use concrete.Storage.Error.{StorageError, storage_message}
use concrete.Sequence.{SequenceError, sequence_message}

pub data StreamError : Type 0 where
  stream_does_not_exist deserialise_error : Str → StreamError
  sequence_error : SequenceError → StreamError
  storage_error : StorageError → StreamError
  reply_not_sent fenced : Str → StreamError

-- `Display`
unfoldable pub stream_message : StreamError → Str
stream_message (stream_does_not_exist name) =
    text "Stream with name " ++ name ++ text " does not exist"
stream_message (deserialise_error message) = message
stream_message (sequence_error e) = sequence_message e
stream_message (storage_error e) = storage_message e
stream_message (reply_not_sent message) = message
stream_message (fenced message) = message
