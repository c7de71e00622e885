-- ===== src/Controller.antt =====
-- stream_controller.rs: the errors of the controller, the checks of names, and what they become.
pub mod Actor
pub mod Follow
pub mod Registry
pub mod Names
pub mod Session
pub mod Log
pub mod Race
mod Tests
mod UnitTests
use concrete.Prelude.{◌++◌, if◌then◌else◌}
use concrete.Prelude.Result.{Result, ok, err}
use concrete.Text.{Str, text}
use concrete.Text.Trim.{trim_is_empty}
use concrete.Storage.Error.{StorageError, storage_message}
use concrete.Basin.{BasinError, basin_message}
use concrete.Error
use concrete.Error.{StreamError, stream_message}

pub data ControllerError : Type 0 where
  invalid_argument not_found : Str → ControllerError
  basin : BasinError → ControllerError
  stream : StreamError → ControllerError
  storage : StorageError → ControllerError
  internal : Str → ControllerError
  reader_lagged : ControllerError

-- `Display`
unfoldable pub controller_message : ControllerError → Str
controller_message (invalid_argument message) = text "invalid argument: " ++ message
controller_message (not_found message) = text "not found: " ++ message
controller_message (basin e) = basin_message e
controller_message (stream e) = stream_message e
controller_message (storage e) = storage_message e
controller_message (internal message) = text "internal error: " ++ message
controller_message reader_lagged = text "reader lagged behind live stream"

unfoldable pub validate_name : Str → Str → Result ControllerError (Unit {0})
validate_name field value =
    if trim_is_empty value
    then err (invalid_argument (field ++ text " must not be empty"))
    else ok tt

unfoldable pub map_stream_not_found : ControllerError → Str → Str → ControllerError
map_stream_not_found (stream (Error.stream_does_not_exist _)) basin_name stream_name =
    not_found (text "stream " ++ (basin_name ++ (text "/" ++ stream_name)))
map_stream_not_found other basin_name stream_name = other
