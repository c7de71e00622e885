-- ===== src/Controller/Race/StreamTests.antt =====
-- Two tasks that look for one stream over in-memory stores, step by step, and the theorems at them.
use concrete.Prelude.{
  ◌==◌, if◌then◌else◌, ℕ, ◌≡◌, refl, Bool, true, false, Option, none, some, [], arith,
}
use concrete.Bytes.{IsU128}
use concrete.Bytes.ListBuffers.{list_buffers}
use concrete.Text.{Str, text}
use concrete.Storage.InMemory
use concrete.Storage.InMemory.{InMemoryStorage, in_memory}
use concrete.Storage.InMemory.Lawful.{in_memory-IsStorage, in_memory-NeverPanics}
use concrete.Sequence
use concrete.Stream
use concrete.Stream.{Stream}
use concrete.Controller.Actor.{spawn}
use concrete.Controller.Race.{
  handed, hand, Source, IsSource, System, Mem, Pc, Step, Reach, begin, later, act, update, init,
  handle_key, is_opened, waiting, locked, got, opened, found, missing, creating, miss, acquire,
  miss_again, load_none, create_ok, enter, hit,
}
use concrete.Controller.Race.Invariant.{Agrees}
use concrete.Controller.Race.Streams.{
  Opening, IsStored, stream_source, stream_source-IsSource, one_actor,
}

abbrev empty_store : InMemoryStorage
empty_store = record { tree = []; poisoned = false; seqnum = 0 }

abbrev Handle : Type 0
Handle = Opening in_memory in_memory

abbrev fresh : Handle
fresh = record { streams = []; meta_storage = empty_store; record_storage = empty_store }

abbrev name : Str
name = text "s"

abbrev source : Source
source = stream_source in_memory in_memory 7

abbrev Tasks : Type 0
Tasks = System source

-- The third task asks for another stream.
abbrev names : ℕ → Str
names i = if i == 2 then text "a" else name

abbrev both_create : ℕ → Bool
both_create i = true

basin-IsU128 : IsU128 7
basin-IsU128 = omega arith

abbrev laws : IsSource source
laws =
    stream_source-IsSource in_memory in_memory 7 in_memory-IsStorage in_memory-IsStorage
      in_memory-NeverPanics basin-IsU128

abbrev Run : Tasks → Type 0
Run t = Reach source laws names both_create fresh t

abbrev moved : Tasks → ℕ → Mem source → Pc source → Tasks
moved t i m p = record { mem = m; pc = update source t.pc i p }

abbrev at_start : Tasks
at_start = init source fresh

abbrev inside : Tasks
inside =
    moved (moved at_start 0 at_start.mem waiting) 0 (record { state = fresh; lock = some 0 }) locked

inside-Run : Run inside
inside-Run = later (later begin (act 0 (miss refl))) (act 0 (acquire refl))

abbrev stream : Stream
stream = record {
  sequence_number_allocator = Sequence.default;
  metadata = record { basin_id = 7; stream_id = 9 };
}

abbrev made : Handle
made = record fresh {
  meta_storage = (Stream.new in_memory in_memory 7 name 9 empty_store empty_store).1;
  record_storage = (Stream.new in_memory in_memory 7 name 9 empty_store empty_store).2;
}

abbrev one_made : Tasks
one_made =
    moved (moved (moved inside 0 inside.mem missing) 0 inside.mem creating) 0
      (record { state = made; lock = some 0 }) (got stream)

one_made-Run : Run one_made
unfolding Stream.load Stream.load_metadata Stream.new InMemory.get InMemory.apply
one_made-Run =
    later (later (later inside-Run (act 0 (miss_again refl))) (act 0 (load_none refl)))
      (act 0 (create_ok {id = 9} (omega arith) refl))

abbrev entered : Handle
entered = source.insert name stream made

abbrev one_handed : Tasks
one_handed = moved one_made 0 (record { state = made; lock = some 0 }) (handed stream)

abbrev both_returned : Tasks
both_returned =
    moved (moved one_handed 0 (record { state = entered; lock = none }) (opened stream)) 1
      (record { state = entered; lock = none }) (found (some 9))

both_returned-Run : Run both_returned
unfolding spawn
both_returned-Run = later (later (later one_made-Run (act 0 hand)) (act 0 enter)) (act 1 (hit refl))

fresh-Agrees : Agrees source laws fresh
fresh-Agrees n k e = cc

abbrev Stored : Str → InMemoryStorage → Option ℕ → Type 0
Stored = IsStored in_memory in_memory 7 in_memory-IsStorage in_memory-IsStorage

one_actor_example :
    ((i j : ℕ)
      → names i ≡ names j
      → is_opened source (both_returned.pc i) ≡ true
      → is_opened source (both_returned.pc j) ≡ true
      → i ≡ j)
    × ((i j : ℕ) (k l : Option ℕ)
        → names i ≡ names j
        → handle_key source (both_returned.pc i) ≡ some k
        → handle_key source (both_returned.pc j) ≡ some l
        → (k ≡ l)
          × (source.cached (names i) entered ≡ some k)
          × Stored (names i) entered.meta_storage k)
    × ((u : Tasks)
        → Step source laws names both_create both_returned u
        → (any : Str) (k : Option ℕ) → Stored any entered.meta_storage k
        → Stored any u.mem.state.meta_storage k)
one_actor_example =
    one_actor in_memory in_memory 7 in_memory-IsStorage in_memory-IsStorage in_memory-NeverPanics
      basin-IsU128 fresh-Agrees both_returned-Run
