-- ===== src/Controller/Names.antt =====
-- The checks of names in a request.
use concrete.Prelude.{ℕ, ◌≡◌, refl, ◌++◌, true, false, ◌||◌, if◌then◌else◌, Bool-cases, inl, inr}
use concrete.Prelude.Result.{ok, err}
use concrete.Bytes.{Bytes, Buffers}
use concrete.Text.{Str, text}
use concrete.Text.Utf8.{chars}
use concrete.Text.Trim.{all_white}
use concrete.Text.Blank.{trim_is_empty-eq}
use concrete.Storage.Interface.{Storage}
use concrete.Controller.{ControllerError, invalid_argument, validate_name}
use concrete.Controller.Registry.{StreamController, Opened}
use concrete.Controller.Registry.Requests.{validate_names, append_request}

abbrev pub must_not_be_empty : Str → ControllerError
must_not_be_empty field = invalid_argument (field ++ text " must not be empty")

-- A name is refused exactly if all its characters are white space, as an empty name's are.
pub validate_name-eq :
    (field value : Str)
    → validate_name field value
      ≡ (if all_white (chars value) then err (must_not_be_empty field) else ok tt)
unfolding validate_name
validate_name-eq field value = rw (trim_is_empty-eq value) refl

pub validate_names_basin :
    (basin_name stream_name : Str)
    → all_white (chars basin_name) ≡ true
    → validate_names basin_name stream_name ≡ err (must_not_be_empty (text "basin_name"))
unfolding validate_names
validate_names_basin basin_name stream_name h =
    rw (validate_name-eq (text "basin_name") basin_name) (rw h refl)

pub validate_names_stream :
    (basin_name stream_name : Str)
    → all_white (chars basin_name) ≡ false
    → all_white (chars stream_name) ≡ true
    → validate_names basin_name stream_name ≡ err (must_not_be_empty (text "stream_name"))
unfolding validate_names
validate_names_stream basin_name stream_name h k =
    rw (validate_name-eq (text "basin_name") basin_name)
      (rw h (rw (validate_name-eq (text "stream_name") stream_name) (rw k refl)))

pub validate_names_ok :
    (basin_name stream_name : Str)
    → all_white (chars basin_name) ≡ false
    → all_white (chars stream_name) ≡ false
    → validate_names basin_name stream_name ≡ ok tt
unfolding validate_names
validate_names_ok basin_name stream_name h k =
    rw (validate_name-eq (text "basin_name") basin_name)
      (rw h (rw (validate_name-eq (text "stream_name") stream_name) (rw k refl)))

module _ ⦃b : Buffers⦄ (M R : Storage) where
  -- An append with a blank name of its basin or its stream is refused, with the first blank name in the error, and
  -- changes neither the caches nor the stores.
  pub append_request-rejected :
      (wait : StreamController M R → StreamController M R) (wait' : Opened M R → Opened M R)
      (basin_name stream_name : Str) (basin_id stream_id : ℕ) (payload : Bytes)
      (c : StreamController M R)
      → all_white (chars basin_name) || all_white (chars stream_name) ≡ true
      → append_request M R wait wait' basin_name stream_name basin_id stream_id payload c ≡ (
        err (
            must_not_be_empty
              (if all_white (chars basin_name) then text "basin_name" else text "stream_name")),
        c,
      )
  unfolding append_request
  append_request-rejected wait wait' basin_name stream_name basin_id stream_id payload c h =
      elim (Bool-cases (all_white (chars basin_name))) [
        | inl e ↦ rw (validate_names_basin basin_name stream_name e, append_request) (rw e refl)
        | inr e ↦
            rw (validate_names_stream basin_name stream_name e (rw e at h), append_request)
              (rw e refl)
      ]
