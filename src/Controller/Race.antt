-- ===== src/Controller/Race.antt =====
-- stream_controller.rs: any number of tasks that look for basins, or for the streams of a basin, under
-- the one lock that guards the cache: a read of the cache, the lock, a second read, the store, the
-- handle, and the cache again. Each of these is a step of its own, a load and a creation one step each.
pub mod Moves
pub mod Kept
pub mod Invariant
pub mod Safety
pub mod Progress
pub mod Alone
pub mod Runs
pub mod Basins
pub mod Sections
pub mod Streams
mod Tests
mod StreamTests
use concrete.Prelude.{
  ℕ, zero, suc, ◌≡◌, Bool, true, false, Option, none, some, ◌==◌, if◌then◌else◌, ◌≢◌, ◌⊎◌,
}
use concrete.Prelude.Result.{Result, ok, err, panic}
use concrete.Controller.{ControllerError}

-- The names (`N`), the state `S` that the tasks share, what is made (`P`), and what a handle is
-- known by (`K`).
-- `load` says `ok none` where the task is to create what the store lacks; `IsId` are the ids that
-- may be drawn for it.
pub record Source : Type 1 where
  pub N : Type 0
  pub S : Type 0
  pub P : Type 0
  pub K : Type 0
  pub key : P → K
  pub cached : N → S → Option K
  pub IsId : ℕ → Type 0
  pub load : N → Bool → S → Result ControllerError (Option P)
  pub create : N → ℕ → S → Result ControllerError P × S
  pub insert : N → P → S → S

-- What the machine needs of them, with what the store has (`Stored`).
pub record IsSource (C : Source) : Type 1 where
  pub Stored : C.N → C.S → C.K → Type 0
  pub same_name : (n n' : C.N) → (n ≡ n') ⊎ (n ≢ n')
  pub unique : (n : C.N) (s : C.S) (i j : C.K) → Stored n s i → Stored n s j → i ≡ j
  pub load_present :
      (n : C.N) (make : Bool) (s : C.S) (p : C.P)
      → C.load n make s ≡ ok (some p)
      → Stored n s (C.key p)
  pub load_absent :
      (n : C.N) (make : Bool) (s : C.S) (k : C.K) → C.load n make s ≡ ok none → Stored n s k → ⊥
  pub zero_id : C.IsId 0
  pub create-cached :
      (n : C.N) (id : ℕ) (n' : C.N) (s : C.S) → C.cached n' (C.create n id s).1 ≡ C.cached n' s
  pub create_ok :
      (n : C.N) (id : ℕ) (s : C.S) (p : C.P)
      → C.IsId id
      → (C.create n id s).0 ≡ ok p
      → Stored n (C.create n id s).1 (C.key p)
  pub create_others :
      (n : C.N) (id : ℕ) (n' : C.N) (s : C.S) (k : C.K)
      → n ≢ n'
      → Stored n' s k
      → Stored n' (C.create n id s).1 k
  pub insert-cached : (n : C.N) (p : C.P) (s : C.S) → C.cached n (C.insert n p s) ≡ some (C.key p)
  pub insert_others :
      (n : C.N) (p : C.P) (n' : C.N) (s : C.S)
      → n ≢ n'
      → C.cached n' (C.insert n p s) ≡ C.cached n' s
  pub insert-Stored :
      (n : C.N) (p : C.P) (n' : C.N) (s : C.S) (k : C.K)
      → Stored n' s k
      → Stored n' (C.insert n p s) k

module _ (C : Source) where
  pub record Mem : Type 0 where
    pub state : C.S
    pub lock : Option ℕ

  -- Where a task stands.
  pub data Pc : Type 0 where
    start : Pc  -- before the first read of the cache
    waiting : Pc  -- before the lock
    locked : Pc  -- before the second read
    missing : Pc  -- before the load
    creating : Pc
    got : C.P → Pc  -- before its handle is made, and a stream's actor started
    handed : C.P → Pc  -- before the cache is written
    found : C.K → Pc  -- returned what was in the cache
    opened : C.P → Pc  -- returned what it has put there
    refused : ControllerError → Pc
    stopped : Pc

  abbrev pub free : Mem → Mem
  free m = record m { lock = none }

  -- The guard of the lock is dropped at each return. A new thing gets the next id at random.
  pub data Move (i : ℕ) (n : C.N) (make : Bool) (m : Mem) : Pc → Mem → Pc → Type 0 where
    hit : {k : C.K} → C.cached n m.state ≡ some k → Move i n make m start m (found k)
    miss : C.cached n m.state ≡ none → Move i n make m start m waiting
    acquire : m.lock ≡ none → Move i n make m waiting (record m { lock = some i }) locked
    hit_again : {k : C.K} → C.cached n m.state ≡ some k → Move i n make m locked (free m) (found k)
    miss_again : C.cached n m.state ≡ none → Move i n make m locked m missing
    load_some : {p : C.P} → C.load n make m.state ≡ ok (some p) → Move i n make m missing m (got p)
    load_none : C.load n make m.state ≡ ok none → Move i n make m missing m creating
    load_err :
        {e : ControllerError}
        → C.load n make m.state ≡ err e
        → Move i n make m missing (free m) (refused e)
    load_panic : C.load n make m.state ≡ panic → Move i n make m missing (free m) stopped
    create_ok :
        {id : ℕ} {p : C.P}
        → C.IsId id
        → (C.create n id m.state).0 ≡ ok p
        → Move i n make m creating (record m { state = (C.create n id m.state).1 }) (got p)
    create_err :
        {id : ℕ} {e : ControllerError}
        → C.IsId id
        → (C.create n id m.state).0 ≡ err e
        → Move i n make m creating
            (record { state = (C.create n id m.state).1; lock = none })
            (refused e)
    create_panic :
        {id : ℕ}
        → C.IsId id
        → (C.create n id m.state).0 ≡ panic
        → Move i n make m creating
            (record { state = (C.create n id m.state).1; lock = none })
            stopped
    hand : {p : C.P} → Move i n make m (got p) m (handed p)
    enter :
        {p : C.P}
        → Move i n make m
            (handed p)
            (record { state = C.insert n p m.state; lock = none })
            (opened p)

  -- The lock is held.
  abbrev pub holds : Pc → Bool
  holds locked = true
  holds missing = true
  holds creating = true
  holds (got p) = true
  holds (handed p) = true
  holds _ = false

  -- The task has returned.
  abbrev pub returned : Pc → Bool
  returned (found k) = true
  returned (opened p) = true
  returned (refused e) = true
  returned stopped = true
  returned _ = false

  -- The moves that a task has left at most.
  abbrev pub rank : Pc → ℕ
  rank start = 7
  rank waiting = 6
  rank locked = 5
  rank missing = 4
  rank creating = 3
  rank (got p) = 2
  rank (handed p) = 1
  rank _ = 0

  -- What a task has returned a handle of.
  abbrev pub handle_key : Pc → Option C.K
  handle_key (found k) = some k
  handle_key (opened p) = some (C.key p)
  handle_key _ = none

  abbrev pub is_opened : Pc → Bool
  is_opened (opened p) = true
  is_opened _ = false

  abbrev pub update : (ℕ → Pc) → ℕ → Pc → ℕ → Pc
  update pc i p j = if i == j then p else pc j

  pub record System : Type 0 where
    pub mem : Mem
    pub pc : ℕ → Pc

  abbrev pub init : C.S → System
  init s = record { mem = record { state = s; lock = none }; pc = λ i. start }

  -- Task `i` asks for the name `name i`, and creates it where `make i` says so. A task whose future is
  -- dropped between two steps lets go of the lock. What else runs leaves the cache and what is stored.
  pub data Step (L : IsSource C) (name : ℕ → C.N) (make : ℕ → Bool) (s : System)
      : System → Type 0 where
    act :
        (i : ℕ) {m : Mem} {p : Pc}
        → Move i (name i) (make i) s.mem (s.pc i) m p
        → Step L name make s (record { mem = m; pc = update s.pc i p })
    cancel :
        (i : ℕ)
        → holds (s.pc i) ≡ true
        → Step L name make s (record { mem = free s.mem; pc = update s.pc i stopped })
    other :
        (state : C.S)
        → ((n : C.N) → C.cached n state ≡ C.cached n s.mem.state)
        → ((n : C.N) (k : C.K) → L.Stored n s.mem.state k → L.Stored n state k)
        → ((n : C.N) (k : C.K) → L.Stored n state k → L.Stored n s.mem.state k)
        → Step L name make s (record s { mem = record { state = state; lock = s.mem.lock } })

  pub data Reach (L : IsSource C) (name : ℕ → C.N) (make : ℕ → Bool) (s : C.S)
      : System → Type 0 where
    begin : Reach L name make s (init s)
    later : {t u : System} → Reach L name make s t → Step L name make t u → Reach L name make s u

  -- What a task has returned.
  abbrev pub outcome : Pc → Option (Result ControllerError C.K)
  outcome (found k) = some (ok k)
  outcome (opened p) = some (ok (C.key p))
  outcome (refused e) = some (err e)
  outcome stopped = some panic
  outcome _ = none

  -- `n` moves of tasks, with none cancelled and nothing else that runs.
  pub data Turns (name : ℕ → C.N) (make : ℕ → Bool) (s : System) : ℕ → System → Type 0 where
    stay : Turns name make s zero s
    move :
        {n : ℕ} {t : System}
        → Turns name make s n t
        → (i : ℕ) {m : Mem} {p : Pc} → Move i (name i) (make i) t.mem (t.pc i) m p
        → Turns name make s (suc n) (record { mem = m; pc = update t.pc i p })
