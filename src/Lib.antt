-- ===== src/Lib.antt =====
-- Concrete: a durable streaming library over a key-value store
-- (crates/slatestreams/src).
--
-- The program keeps basins (namespaces), streams in a basin (append-only logs) and records in a
-- stream, in two key-value stores: one for metadata, one for records.
--
-- - Bytes: the big-endian conversions of u8 to u128 and the buffers of the `bytes` crate. The
--   crate is a parameter (`Buffers`): its operations with what their documentation promises. Byte
--   strings are lists of numbers; `Bytes.ListBuffers` shows that the promises can be met. A slice, a
--   `split_at` and an `unwrap` of a conversion panic where they do in the source.
-- - Text: `str` as a valid UTF-8 byte string, decimal numbers in messages, `from_utf8` with its
--   errors, and `trim().is_empty()`. The decoder runs on fuel, one round for each byte.
-- - Key (key/key.rs): the tags of the key space, `BytesBuilder`, `next_prefix`, `prefix_range`.
-- - Storage (storage/): `Storage.Range` is `BytesRange`; `Storage.Interface` is the traits
--   `Storage`, `StorageRead` and `StorageIterator` as a record of operations, with the state of a
--   store passed explicitly; `Storage.Laws` is their contract: a batch is written atomically (a
--   write that fails was written as a whole or not at all), a read finds the value of its key, a
--   scan yields the records of a range in order. `Storage.InMemory` is storage/in_memory.rs, with
--   `BTreeMap` as its entries in order and the poisoned lock as a flag. `Storage.Scan` and
--   `Storage.Listing` are what the two listings share. `Storage.Flaky` is a store for tests whose
--   writes fail on a script.
-- - Sequence (storage/sequence.rs): blocks of sequence numbers and the allocator. Arithmetic is
--   that of a release build, which wraps at 2 ^ 64; `none` is the panic of the assertion.
-- - Error, Record (error.rs, record.rs): errors with their messages, and the codec of records.
-- - Stream (stream.rs): metadata, keys, `new`, `load`, `append`, `read`, `list`. The id from
--   `Uuid::new_v4` is an argument. `Stream.Recovery` is about what survives: `Run` is a relation
--   of appends, failed appends that needed no new block, and restarts.
-- - Basin (basin/): `new`, `load`, `list`, errors.
-- - Controller (stream_controller.rs): errors and checks of names here. `Controller.Actor` is the
--   actor of a stream, which handles its commands in the order in which they arrive, so that a run
--   of commands is any interleaving of the callers; `Controller.Follow` is the task of
--   `read_follow`: the answers to its reads, the events of its receiver and the number of items
--   that the client takes are arguments. `Controller.Session` joins the two. `Controller.Log` is
--   what an actor promises without blocks, keys and bytes: a log, the steps that it may make at a
--   command, what of it a store represents, and what readers get of it. `Controller.Registry` is
--   the controller with its caches: where a call waits for a lock, an argument says what other
--   tasks do until then; its children are the requests and what holds of them. `Controller.Race`
--   is the same locks as a step relation over any number of tasks, at any names: a read of the
--   cache, the lock, a second read, a load or a creation, the making of the handle (with the start
--   of a stream's actor), and the write to the cache are a step each, in any interleaving; a task
--   may also be dropped between two steps, and what runs outside the lock may change the rest of
--   the state. `Race.Basins` and `Race.Streams` are its two uses, and `Race.Sections` compares them
--   with `Controller.Registry`.
-- - Grpc (grpc.rs): the service, with its statuses. The stream of a read is its items so far and
--   whether it has ended after them; while the task of `read_follow` waits it stays open.
-- - Client (crates/slatestreams-client/src): the client library (lib.rs) over the generated
--   client, which is a parameter, and `Client.Demo`, the lines that main.rs prints. `next` and
--   `collect` are `none` where they wait for an open stream.
-- - `UnitTests` below a module is the source's own unit tests of that part, run on the model.
-- - `Storage.SlateDb` is storage/slatedb.rs; the database of the `slatedb` crate is a parameter
--   (`Db`) whose documented behaviour is `IsDb`.
--
-- A result is `ok`, `err` or `panic`. The loop of a listing takes fuel; `none` says that it ran out.
-- Reads leave the state of a store alone. The field `data` of the source is `payload` here, and the
-- field `record` of `AppendResult` is `stored`. A broadcast channel is the list of what was sent over
-- it, and a receiver its position there. A panic in an actor drops the reply and ends the actor.
--
-- Not modelled: the capacity of the command and broadcast channels, whose effects are the order of the
-- commands and the event of a lag; the start of the server, the generated protocol code and the
-- example application.
pub mod Prelude
pub mod Bytes
pub mod Text
pub mod Storage
pub mod Key
pub mod Sequence
pub mod Error
pub mod Record
pub mod Stream
pub mod Basin
pub mod Controller
pub mod Grpc
pub mod Client
