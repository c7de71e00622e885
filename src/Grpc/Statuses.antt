-- ===== src/Grpc/Statuses.antt =====
-- The codes that a client sees.
use concrete.Prelude.{ℕ, ◌≡◌, refl, ◌↔◌, ◌⊎◌, inl, inr, true, ◌||◌, ◌++◌, if◌then◌else◌}
use concrete.Prelude.Result.{err}
use concrete.Bytes.{Buffers}
use concrete.Text.{Str, text}
use concrete.Text.Utf8.{chars}
use concrete.Text.Trim.{all_white}
use concrete.Error
use concrete.Storage.Interface.{Storage}
use concrete.Controller.{
  ControllerError, basin, storage, internal, invalid_argument, not_found, stream, reader_lagged,
}
use concrete.Controller.Names.{append_request-rejected}
use concrete.Controller.Registry.{StreamController, Opened}
use concrete.Grpc.{
  status_invalid_argument, status_not_found, controller_error_to_status, AppendRequest, append,
}

module _ ⦃b : Buffers⦄ (M R : Storage) where
  -- An append with a blank name is answered with the code of an invalid argument, and changes nothing.
  pub append-rejected :
      (wait : StreamController M R → StreamController M R) (wait' : Opened M R → Opened M R)
      (request : AppendRequest) (basin_id stream_id : ℕ) (c : StreamController M R)
      → all_white (chars request.basin_name) || all_white (chars request.stream_name) ≡ true
      → append M R wait wait' request basin_id stream_id c ≡ (
        err (
            status_invalid_argument (
              (if all_white (chars request.basin_name)
                then text "basin_name"
                else text "stream_name")
              ++ text " must not be empty")),
        c,
      )
  unfolding append controller_error_to_status
  append-rejected wait wait' request basin_id stream_id c h =
      rw
        (append_request-rejected M R wait wait' request.basin_name request.stream_name basin_id
          stream_id request.payload c h)
        refl

-- The code is that of a missing thing exactly for the two errors that say so, with or without the basin in the message.
status-not_found_iff :
    (e : ControllerError)
    → ((m : Str) × (controller_error_to_status e ≡ status_not_found m)) ↔ (
        ((m : Str) × (e ≡ not_found m))
        ⊎ ((name : Str) × (e ≡ stream (Error.stream_does_not_exist name))))
unfolding controller_error_to_status
status-not_found_iff (invalid_argument x) = (λ h. cc, λ h. elim h [ inl k ↦ cc | inr k ↦ cc ])
status-not_found_iff (basin x) = (λ h. cc, λ h. elim h [ inl k ↦ cc | inr k ↦ cc ])
status-not_found_iff (storage x) = (λ h. cc, λ h. elim h [ inl k ↦ cc | inr k ↦ cc ])
status-not_found_iff (internal x) = (λ h. cc, λ h. elim h [ inl k ↦ cc | inr k ↦ cc ])
status-not_found_iff reader_lagged = (λ h. cc, λ h. elim h [ inl k ↦ cc | inr k ↦ cc ])
status-not_found_iff (stream (Error.deserialise_error x)) =
    (λ h. cc, λ h. elim h [ inl k ↦ cc | inr k ↦ cc ])
status-not_found_iff (stream (Error.sequence_error x)) =
    (λ h. cc, λ h. elim h [ inl k ↦ cc | inr k ↦ cc ])
status-not_found_iff (stream (Error.storage_error x)) =
    (λ h. cc, λ h. elim h [ inl k ↦ cc | inr k ↦ cc ])
status-not_found_iff (stream (Error.reply_not_sent x)) =
    (λ h. cc, λ h. elim h [ inl k ↦ cc | inr k ↦ cc ])
status-not_found_iff (stream (Error.fenced x)) = (λ h. cc, λ h. elim h [ inl k ↦ cc | inr k ↦ cc ])
status-not_found_iff (not_found x) = (λ h. inl (x, refl), λ h. (x, refl))
status-not_found_iff (stream (Error.stream_does_not_exist x)) =
    (λ h. inr (x, refl), λ h. (text "stream " ++ x, refl))
