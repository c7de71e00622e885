-- ===== src/Controller/Log/Represents.antt =====
-- The store of a stream's records, with its allocator, as a log.
use concrete.Prelude.{
  ℕ, ◌+◌, ◌≤◌, ◌≡◌, ap, ◌∙◌, inl, inr, Option, none, some, arith, Bool-cases, ◌==◌, if◌then◌else◌,
}
use mathlib.Core.Option
use mathlib.Core.Option.{some-injective, some-ne-none}
use concrete.Prelude.Order.{bytes_eq, bytes_eq_refl, bytes_eq-of_ne}
use concrete.Bytes.{Bytes, Buffers, IsU64}
use concrete.Storage.Interface.{Storage}
use concrete.Storage.Laws.{Contents, write_all}
use concrete.Sequence.Allocate.{next-advanced}
use concrete.Record
use concrete.Record.{Record}
use concrete.Stream.{Stream, next_seq_num}
use concrete.Stream.Append.{IsReady, appended, next_record, record_key, batch_of}
use concrete.Stream.Keys.{stream_record_key-injective, record_key-ne-block_key}
use concrete.Stream.Recovery.{batch-record}
use concrete.Controller.Actor.{StreamActor}
use concrete.Controller.Actor.Run.{HasRoomFor, appended-IsReady}
use concrete.Controller.Log.{Log, entered, skipped}

module _ ⦃b : Buffers⦄ where
  -- The value in the store of an entry of the log.
  abbrev pub stored_entry : ℕ → Option Bytes → Option Bytes
  stored_entry n =
      Option.map (λ payload. Record.serialise (record { seq_num = n; payload = payload }))

  -- At the keys of the stream's records the store holds the log, and the allocator its next number.
  pub record Represents (m : Contents) (s : Stream) (l : Log) : Type 0 where
    pub ready : IsReady s
    pub next : next_seq_num s ≡ l.next
    pub entries : (n : ℕ) → IsU64 n → m (record_key s n) ≡ stored_entry n (l.entries n)
    pub below : (n : ℕ) → l.next ≤ n → l.entries n ≡ none

  pub same_record_key :
      (s : Stream) (i n : ℕ)
      → IsReady s
      → IsU64 i
      → IsU64 n
      → bytes_eq (record_key s i) (record_key s n) ≡ (i == n)
  same_record_key s i n h hi hn = elim (Bool-cases (i == n)) [
    | inl e ↦ let same : i ≡ n = ground arith in rw e (rw same (bytes_eq_refl (record_key s n)))
    | inr e ↦ rw e (
        bytes_eq-of_ne (record_key s i) (record_key s n) (λ k.
          let same =
            (stream_record_key-injective _ _ _ _ _ _ h.basin h.basin h.stream h.stream hi hn k).2 in
          ground arith))
  ]

  module _ (a : StreamActor) (payload : Bytes) (m m' : Contents) (l : Log)
      (h : Represents m a.stream l) (room : HasRoomFor 1 a) (R : Storage) where
    pub entered-Represents :
        ((k : Bytes) → m' k ≡ write_all (batch_of a.stream payload) m k)
        → Represents m' (appended a.stream) (entered l payload)
    entered-Represents w = record {
      ready = appended-IsReady R a h.ready room;
      next = next-advanced 1 a.stream.sequence_number_allocator ∙ ap (λ n. n + 1) h.next;
      entries = λ n hn.
          w (record_key a.stream n)
          ∙ batch-record a.stream payload m (record_key a.stream n)
              (record_key-ne-block_key _ _ _ _ _)
          ∙ entry n hn;
      below = λ n le. ground (arith, h.below n);
    }
      where
        entry :
            (n : ℕ)
            → IsU64 n
            → (if bytes_eq (record_key a.stream (next_seq_num a.stream)) (record_key a.stream n)
                then some (Record.serialise (next_record a.stream payload))
                else m (record_key a.stream n))
              ≡ stored_entry n ((entered l payload).entries n)
        entry n hn =
            rw
              (same_record_key a.stream (next_seq_num a.stream) n h.ready
                (omega (arith, h.ready.allocator.room)) hn)
              (rw h.next (elim (Bool-cases (l.next == n)) [
                | inl e ↦
                    let same : l.next ≡ n = ground arith in
                    rw e (
                      ap (λ i. some (Record.serialise (record { seq_num = i; payload = payload })))
                        same)
                | inr e ↦ rw e (h.entries n hn)
              ]))

    pub skipped-Represents :
        ((k : Bytes) → m' k ≡ m k) → Represents m' (appended a.stream) (skipped l)
    skipped-Represents w = record {
      ready = appended-IsReady R a h.ready room;
      next = next-advanced 1 a.stream.sequence_number_allocator ∙ ap (λ n. n + 1) h.next;
      entries = λ n hn. w (record_key a.stream n) ∙ h.entries n hn;
      below = λ n le. h.below n (omega arith);
    }
