-- ===== src/Stream/UnitTests.antt =====
-- The unit tests of stream.rs, run on the model. The ids are two that may be drawn.
use concrete.Prelude.{ℕ, ◌≡◌, refl, Bool, true, false, ◌&&◌, Option, some, List, [], ◌∷◌, ◌==◌}
use concrete.Prelude.Order.{bytes_eq}
use concrete.Prelude.Result.{Result, ok}
use concrete.Prelude.Sort.{sort_by}
use concrete.Bytes.{to_be_bytes, from_be_bytes}
use concrete.Bytes.ListBuffers.{list_buffers}
use concrete.Key
use concrete.Key.{prefix_range, next_prefix}
use concrete.Text.{Str, text}
use concrete.Text.Utf8.{from_utf8}
use concrete.Storage.InMemory
use concrete.Storage.InMemory.{in_memory}
use concrete.Storage.Scan.{scan_loop}
use concrete.Sequence
use concrete.Error.{StreamError}
use concrete.Stream.{
  Stream, StreamView, AppendResult, new, append, list, metadata_prefix, construct_metadata_key,
  view_of, name_of, deserialise, serialise,
}

abbrev is_append : ℕ → ℕ → Result StreamError AppendResult → Bool
is_append seq_num next (ok result) =
    (result.stored.seq_num == seq_num) && (result.next_seq_num == next)
is_append seq_num next _ = false

abbrev made : Result StreamError Stream × in_memory.State × in_memory.State
made = new in_memory in_memory 7 (text "events") 9 InMemory.new InMemory.new

abbrev with_stream : Result StreamError Stream → (Stream → Bool) → Bool
with_stream (ok s) rest = rest s
with_stream _ rest = false

abbrev append_returns_tail_after_write : Bool
append_returns_tail_after_write = with_stream made.0 (λ s.
    let first = append in_memory s (text "one") made.2 in
    let second = append in_memory first.1 (text "two") first.2 in
    is_append 0 1 first.0 && is_append 1 2 second.0)

abbrev names_eq : List Str → List StreamView → Bool
names_eq [] [] = true
names_eq (n ∷ names) (v ∷ views) = bytes_eq n v.stream_name && names_eq names views
names_eq _ _ = false

abbrev lists_names : List Str → Option (Result StreamError (List StreamView)) → Bool
lists_names names (some (ok views)) = names_eq names views
lists_names names _ = false

abbrev list_streams_from_metadata_storage : Bool
list_streams_from_metadata_storage =
    let first = new in_memory in_memory 7 (text "b") 1 InMemory.new InMemory.new in
    let second = new in_memory in_memory 7 (text "a") 2 first.1 first.2 in
    with_stream first.0 (λ s.
      with_stream second.0
        (λ t. lists_names (text "a" ∷ text "b" ∷ []) (list in_memory 3 7 second.1)))

tail_passes : append_returns_tail_after_write ≡ true
unfolding new append Sequence.allocate Sequence.default InMemory.new InMemory.apply
tail_passes = refl

list_passes : list_streams_from_metadata_storage ≡ true
unfolding new list InMemory.new InMemory.scan_iter InMemory.apply prefix_range next_prefix
    metadata_prefix Key.build Key.add_u8 Key.builder scan_loop InMemory.next construct_metadata_key
    Key.put_str view_of deserialise serialise Key.add_u128 to_be_bytes name_of from_be_bytes
    from_utf8 sort_by Sequence.default
list_passes = refl
