-- ===== src/Controller/Registry/LoadOrNew.antt =====
-- `Basin::load`, and `Basin::new` where it finds nothing: what is stored then.
use concrete.Prelude.{ℕ, ◌≡◌, ◌≢◌, refl, Option, none, some, arith}
use concrete.Prelude.Result.{Result, ok, err, panic}
use concrete.Bytes.{Buffers, IsU128}
use concrete.Text.{Str}
use concrete.Storage.Interface.{Storage}
use concrete.Storage.Laws.{IsStorage}
use concrete.Basin
use concrete.Basin.{Basin, BasinError, deserialise_basin_id, construct_metadata_key}
use concrete.Basin.Create.{IsStored, load_found, load_of_stored, new_ok, new_others}
use concrete.Controller.Registry.{or_new}

module _ ⦃b : Buffers⦄ (M R : Storage) (LM : IsStorage M) where
  -- Entries of other names are kept.
  abbrev pub Keeps : Str → M.State → M.State → Type 0
  Keeps name m m' =
      (other : Str)
      → other ≢ name
      → LM.contents m' (construct_metadata_key other) ≡ LM.contents m (construct_metadata_key other)

  module _ (name : Str) (id : ℕ) (meta : M.State) (h : IsU128 id) where
    pub or_new-ok :
        (loaded : Result BasinError (Option Basin)) (made : Basin)
        → Basin.load M name meta ≡ loaded
        → (or_new M R name id meta loaded).0 ≡ ok made
        → IsStored M LM (or_new M R name id meta loaded).1 name made.basin_id
    or_new-ok (ok (some found)) made same e =
        load_found M LM name meta made (ground (arith, same, e))
    or_new-ok (ok none) made same e = new_ok M LM name id meta made h e
    or_new-ok (err x) made same e = cc
    or_new-ok panic made same e = cc

    pub or_new-Keeps :
        (loaded : Result BasinError (Option Basin))
        → (or_new M R name id meta loaded).0 ≢ panic
        → Keeps name meta (or_new M R name id meta loaded).1
    or_new-Keeps (ok (some found)) alive other differs = refl
    or_new-Keeps (ok none) alive other differs = new_others M LM name other id meta differs alive
    or_new-Keeps (err x) alive other differs = refl
    or_new-Keeps panic alive other differs = refl

    pub or_new_stored :
        (loaded : Result BasinError (Option Basin)) (made : Basin) (known : ℕ)
        → Basin.load M name meta ≡ loaded
        → IsStored M LM meta name known
        → (or_new M R name id meta loaded).0 ≡ ok made
        → (made.basin_id ≡ known) × ((or_new M R name id meta loaded).1 ≡ meta)
    or_new_stored (ok x) made known same stored e =
        let found = load_of_stored M LM name known meta x stored same in ground (arith, found, e)
    or_new_stored (err x) made known same stored e = cc
    or_new_stored panic made known same stored e = cc
