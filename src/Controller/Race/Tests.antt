-- ===== src/Controller/Race/Tests.antt =====
-- Two tasks that look for one basin over in-memory stores, step by step, and the theorems at them.
use concrete.Prelude.{
  ◌==◌, if◌then◌else◌, ℕ, ◌≡◌, ◌≤◌, refl, Bool, true, false, none, some, [], arith,
}
use concrete.Bytes.ListBuffers.{list_buffers}
use concrete.Text.{Str, text}
use concrete.Storage.InMemory
use concrete.Storage.InMemory.{InMemoryStorage, in_memory}
use concrete.Storage.InMemory.Lawful.{in_memory-IsStorage, in_memory-NeverPanics}
use concrete.Basin
use concrete.Basin.Create.{IsStored}
use concrete.Controller.Registry.{StreamController, open_basin}
use concrete.Controller.Registry.Basins.{IsConsistent}
use concrete.Controller.Race.{
  handed, hand, Source, IsSource, System, Mem, Pc, Step, Reach, begin, later, act, update, init,
  start, handle_key, is_opened, waiting, locked, got, opened, miss, acquire, hit_again, miss_again,
  load_none, create_ok, enter, missing, creating, found,
}
use concrete.Controller.Race.Progress.{AllReturn}
use concrete.Controller.Race.Basins.{basin_source, basin_source-IsSource, one_basin, basins_return}

abbrev empty_store : InMemoryStorage
empty_store = record { tree = []; poisoned = false; seqnum = 0 }

abbrev Controller : Type 0
Controller = StreamController in_memory in_memory

abbrev started : Controller
started = record { meta_storage = empty_store; record_storage = empty_store; basins = [] }

started-IsConsistent : IsConsistent in_memory in_memory in_memory-IsStorage started
started-IsConsistent name h e = cc

abbrev name : Str
name = text "b"

abbrev source : Source
source = basin_source in_memory in_memory

abbrev Tasks : Type 0
Tasks = System source

-- The third task asks for another basin.
abbrev names : ℕ → Str
names i = if i == 2 then text "a" else name

abbrev both_create : ℕ → Bool
both_create i = true

abbrev laws : IsSource source
laws = basin_source-IsSource in_memory in_memory in_memory-IsStorage in_memory-NeverPanics

abbrev Run : Tasks → Type 0
Run t = Reach source laws names both_create started t

abbrev at_start : Tasks
at_start = init source started

-- The tasks after a move of task `i` to `p`.
abbrev moved : Tasks → ℕ → Mem source → Pc source → Tasks
moved t i m p = record { mem = m; pc = update source t.pc i p }

abbrev both_waiting : Tasks
both_waiting = moved (moved at_start 0 at_start.mem waiting) 1 at_start.mem waiting

both_waiting-Run : Run both_waiting
both_waiting-Run = later (later begin (act 0 (miss refl))) (act 1 (miss refl))

abbrev one_inside : Tasks
one_inside = moved both_waiting 1 (record { state = started; lock = some 1 }) locked

one_inside-Run : Run one_inside
one_inside-Run = later both_waiting-Run (act 1 (acquire refl))

abbrev made : Controller
made = record started { meta_storage = (Basin.new in_memory name 5 empty_store).1 }

abbrev one_made : Tasks
one_made =
    moved (moved (moved one_inside 1 one_inside.mem missing) 1 one_inside.mem creating) 1
      (record { state = made; lock = some 1 }) (got (record { basin_id = 5; basin_name = name }))

one_made-Run : Run one_made
unfolding Basin.load Basin.load_value Basin.new InMemory.get InMemory.apply
one_made-Run =
    later (later (later one_inside-Run (act 1 (miss_again refl))) (act 1 (load_none refl)))
      (act 1 (create_ok {id = 5} (omega arith) refl))

abbrev entered : Controller
entered = source.insert name (record { basin_id = 5; basin_name = name }) made

abbrev one_handed : Tasks
one_handed =
    moved one_made 1 (record { state = made; lock = some 1 })
      (handed (record { basin_id = 5; basin_name = name }))

abbrev other_inside : Tasks
other_inside =
    moved
      (moved one_handed 1 (record { state = entered; lock = none })
        (opened (record { basin_id = 5; basin_name = name })))
      0 (record { state = entered; lock = some 0 }) locked

other_inside-Run : Run other_inside
other_inside-Run =
    later (later (later one_made-Run (act 1 hand)) (act 1 enter)) (act 0 (acquire refl))

abbrev both_returned : Tasks
both_returned = moved other_inside 0 (record { state = entered; lock = none }) (found 5)

both_returned-Run : Run both_returned
unfolding open_basin
both_returned-Run = later other_inside-Run (act 0 (hit_again refl))

one_basin_example :
    ((i j : ℕ)
      → names i ≡ names j
      → is_opened source (both_returned.pc i) ≡ true
      → is_opened source (both_returned.pc j) ≡ true
      → i ≡ j)
    × ((i j k l : ℕ)
        → names i ≡ names j
        → handle_key source (both_returned.pc i) ≡ some k
        → handle_key source (both_returned.pc j) ≡ some l
        → (k ≡ l)
          × (source.cached (names i) entered ≡ some k)
          × IsStored in_memory in_memory-IsStorage entered.meta_storage (names i) k)
    × ((u : Tasks)
        → Step source laws names both_create both_returned u
        → (any : Str) (id : ℕ) → IsStored in_memory in_memory-IsStorage entered.meta_storage any id
        → IsStored in_memory in_memory-IsStorage u.mem.state.meta_storage any id)
one_basin_example =
    one_basin in_memory in_memory in_memory-IsStorage in_memory-NeverPanics started-IsConsistent
      both_returned-Run

-- The second task has the handle of the first.
same_id : handle_key source (both_returned.pc 0) ≡ handle_key source (both_returned.pc 1)
same_id = refl

two_started : (j : ℕ) → 2 ≤ j → both_waiting.pc j ≡ start
two_started j le = ground arith

basins_return_example : AllReturn source laws names both_create both_waiting 2 14
basins_return_example =
    basins_return in_memory in_memory in_memory-IsStorage in_memory-NeverPanics started-IsConsistent
      both_waiting-Run 2 two_started

-- The second task makes the basin and returns.
abbrev made_basin : Pc source
made_basin = opened (record { basin_id = 5; basin_name = name })
