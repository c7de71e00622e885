-- ===== src/Controller/Race/Basins.antt =====
-- `get_or_create_basin` and `get_existing_basin` of stream_controller.rs, by many tasks for one name.
use concrete.Prelude.{
  ℕ, ◌≡◌, refl, sym, ap, ◌∙◌, Bool, true, false, Option, none, some, arith, subst, Option-cases,
  inl, inr, ◌≤◌, ◌*◌, ◌≢◌, ◌⊎◌, Bool-cases, [], ◌∷◌,
}
use mathlib.Core.Option
use mathlib.Core.Option.{some-ne-none, some-injective}
use concrete.Prelude.Order.{bytes_eq, bytes_eq_iff, bytes_eq-of_ne}
use concrete.Prelude.Assoc.{find, put, find-put}
use concrete.Prelude.Result.{
  Result, Result-cases, ok, err, panic, ◌>>=◌, map_err, map_ok, map_err-eq-ok,
}
use concrete.Bytes.{Buffers, IsU128}
use concrete.Text.{Str}
use concrete.Storage.Interface.{Storage}
use concrete.Storage.Laws.{IsStorage, NeverPanics}
use concrete.Basin
use concrete.Basin.{Basin, BasinError, construct_metadata_key}
use concrete.Basin.Create.{new_others, IsStored, load_found, load_of_stored, new_ok}
use concrete.Controller.{ControllerError, basin}
use concrete.Controller.Registry.{
  StreamController, BasinHandle, open_basin, get_cached_basin, require_basin,
}
use concrete.Controller.Registry.Basins.{same_id, IsConsistent}
use concrete.Controller.Race.{Source, IsSource, System, Step, Reach, start, handle_key, is_opened}
use concrete.Controller.Race.Safety
use concrete.Controller.Race.Progress
use concrete.Controller.Race.Progress.{AllReturn}
use concrete.Controller.Race.Invariant.{Agrees}

pub zero-IsU128 : IsU128 0
zero-IsU128 = omega arith

pub same_text : (a c : Str) → (a ≡ c) ⊎ (a ≢ c)
same_text a c = elim (Bool-cases (bytes_eq a c)) [
  | inl e ↦ inl ((bytes_eq_iff a c).0 e)
  | inr e ↦ inr (λ same. cc ((bytes_eq_iff a c).1 same))
]

module _ ⦃b : Buffers⦄ (M R : Storage) where
  -- `get_existing_basin` refuses a basin that is not stored.
  abbrev pub find_basin :
      Str → Bool → Result ControllerError (Option Basin) → Result ControllerError (Option Basin)
  find_basin name true loaded = loaded
  find_basin name false loaded = loaded >>= λ found. map_ok some (require_basin M R name found)

  abbrev pub basin_source : Source
  basin_source = record {
    N = Str;
    S = StreamController M R;
    P = Basin;
    K = ℕ;
    key = λ x. x.basin_id;
    cached = λ name c. Option.map (λ h. h.basin_id) (get_cached_basin M R c name);
    IsId = IsU128;
    load = λ name make c. find_basin name make (map_err basin (Basin.load M name c.meta_storage));
    create = λ name id c.
        let (made, meta) = Basin.new M name id c.meta_storage in
        (map_err basin made, record c { meta_storage = meta });
    insert = λ name x c. record c { basins = put name (open_basin x) c.basins };
  }

  pub found_basin :
      (name : Str) (make : Bool) (loaded : Result BasinError (Option Basin)) (x : Option Basin)
      → find_basin name make (map_err basin loaded) ≡ ok x
      → loaded ≡ ok x
  found_basin name true loaded x e = map_err-eq-ok basin loaded e
  found_basin name false (ok (some found)) x e = ground (arith, e)
  found_basin name false (ok none) x e = cc
  found_basin name false (err f) x e = cc
  found_basin name false panic x e = cc

  pub cached-insert :
      (name : Str) (p : Basin) (c : StreamController M R)
      → basin_source.cached name (basin_source.insert name p c) ≡ some p.basin_id
  unfolding open_basin
  cached-insert name p c =
      ap (Option.map (λ (h : BasinHandle). h.basin_id)) (find-put name (open_basin p) c.basins)

  pub insert_others :
      (name : Str) (p : Basin) (other : Str) (c : StreamController M R)
      → name ≢ other
      → basin_source.cached other (basin_source.insert name p c) ≡ basin_source.cached other c
  insert_others name p other c differs = rw (bytes_eq-of_ne name other differs) refl

  module _ (LM : IsStorage M) (never : NeverPanics M) where
    new-ne-panic : (name : Str) (id : ℕ) (meta : M.State) → (Basin.new M name id meta).0 ≢ panic
    unfolding Basin.new
    new-ne-panic name id meta e =
        elim (Result-cases
          (M.apply meta
            (record { key = construct_metadata_key name; value = Basin.id_bytes id } ∷ [])).0) [
              | inl (w, done) ↦ ground (arith, done, e)
              | inr (inl (x, failed)) ↦ ground (arith, failed, e)
              | inr (inr gone) ↦ never.apply _ _ gone
            ]

    pub made_others :
        (name : Str) (id : ℕ) (other : Str) (meta : M.State) (k : ℕ)
        → name ≢ other
        → IsStored M LM meta other k
        → IsStored M LM (Basin.new M name id meta).1 other k
    made_others name id other meta k differs (v, stored, read) = (
      v,
      new_others M LM name other id meta (λ e. differs (sym e)) (new-ne-panic name id meta)
          ∙ stored,
      read,
    )

    abbrev pub basin_source-IsSource : IsSource basin_source
    basin_source-IsSource = record {
      Stored = λ name c k. IsStored M LM c.meta_storage name k;
      same_name = same_text;
      unique = λ name c. same_id M R LM name c.meta_storage;
      load_present = λ name make c p e.
          load_found M LM name c.meta_storage p (found_basin name make _ (some p) e);
      load_absent = λ name make c k e stored. some-ne-none _ (
          sym (
            load_of_stored M LM name k c.meta_storage none stored
              (found_basin name make _ none e)));
      zero_id = zero-IsU128;
      create-cached = λ name id other c. refl;
      create_ok =
          λ name id c p h e. new_ok M LM name id c.meta_storage p h (map_err-eq-ok basin _ e);
      create_others =
          λ name id other c k differs e. made_others name id other c.meta_storage k differs e;
      insert-cached = λ name p c. cached-insert name p c;
      insert_others = λ name p other c differs. insert_others name p other c differs;
      insert-Stored = λ name p other c k e. e;
    }

    consistent-Agrees :
        (c : StreamController M R)
        → IsConsistent M R LM c
        → Agrees basin_source basin_source-IsSource c
    consistent-Agrees c k name id e = elim (Option-cases (find name c.basins)) [
      | inl missing ↦
          absurd
            (some-ne-none id (sym e ∙ ap (Option.map (λ (h : BasinHandle). h.basin_id)) missing))
      | inr (h, there) ↦
          subst (IsStored M LM c.meta_storage name)
            (some-injective h.basin_id id
              (sym (ap (Option.map (λ (h : BasinHandle). h.basin_id)) there) ∙ e))
            (k name h there)
    ]

    module _ {name : ℕ → Str} {make : ℕ → Bool} {c : StreamController M R} {t : System basin_source}
        (consistent : IsConsistent M R LM c)
        (r : Reach basin_source basin_source-IsSource name make c t) where
      -- Any number of tasks ask for basins of any names, each by `get_or_create_basin` or `get_existing_basin`, and their
      -- reads of the cache, of the store and of the one lock interleave in any way; the store never panics. If the
      -- cache agreed with the store at the start, then at most one of the tasks at a name puts a handle in the cache;
      -- any two tasks at one name that have got a handle have one with the same id, the id that the cache and the store
      -- have for the name; and no step from here replaces the id that the store has for any name.
      pub one_basin :
          ((i j : ℕ)
            → name i ≡ name j
            → is_opened basin_source (t.pc i) ≡ true
            → is_opened basin_source (t.pc j) ≡ true
            → i ≡ j)
          × ((i j k l : ℕ)
              → name i ≡ name j
              → handle_key basin_source (t.pc i) ≡ some k
              → handle_key basin_source (t.pc j) ≡ some l
              → (k ≡ l)
                × (basin_source.cached (name i) t.mem.state ≡ some k)
                × IsStored M LM t.mem.state.meta_storage (name i) k)
          × ((u : System basin_source)
              → Step basin_source basin_source-IsSource name make t u
              → (any : Str) (id : ℕ) → IsStored M LM t.mem.state.meta_storage any id
              → IsStored M LM u.mem.state.meta_storage any id)
      one_basin = (
        Safety.opened_once basin_source basin_source-IsSource (consistent-Agrees c consistent) r,
        Safety.one_handle basin_source basin_source-IsSource (consistent-Agrees c consistent) r,
        λ u st.
            Safety.Step-Stored basin_source basin_source-IsSource (consistent-Agrees c consistent) r
              st,
      )

      -- No task waits forever: from every state that such a run reaches, if only the first `n` tasks have started, some
      -- 7 n moves of them at most bring each of them to its return, with a handle, an error or a panic.
      pub basins_return :
          (n : ℕ)
          → ((j : ℕ) → n ≤ j → t.pc j ≡ start)
          → AllReturn basin_source basin_source-IsSource name make t n (7 * n)
      basins_return =
          Progress.all_return basin_source basin_source-IsSource (consistent-Agrees c consistent) r
