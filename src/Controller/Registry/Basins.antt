-- ===== src/Controller/Registry/Basins.antt =====
-- The cache of basins agrees with the store of metadata, and no basin is made twice.
use concrete.Prelude.{
  ℕ, ◌≡◌, ◌≢◌, refl, sym, ap, ◌∙◌, ◌⊎◌, inl, inr, none, some, Option-cases, Bool-cases, arith,
  subst,
}
use mathlib.Core.Option.{some-injective, some-ne-none}
use concrete.Prelude.Assoc.{find, find-put}
use concrete.Prelude.Order.{bytes_eq, bytes_eq_iff}
use concrete.Prelude.Result.{Result, ok, err, panic, map_err, map_err-eq-ok, ok-injective}
use concrete.Bytes.{Buffers, IsU128}
use concrete.Text.{Str}
use concrete.Storage.Interface.{Storage}
use concrete.Storage.Laws.{IsStorage}
use concrete.Basin
use concrete.Basin.{Basin, BasinError, deserialise_basin_id, construct_metadata_key}
use concrete.Basin.Create.{IsStored}
use concrete.Controller.{ControllerError, basin}
use concrete.Controller.Registry.LoadOrNew.{Keeps, or_new-ok, or_new-Keeps, or_new_stored}
use concrete.Controller.Registry.{
  BasinHandle, StreamController, open_basin, load_or_new, or_new, enter_basin, create_basin,
  get_or_create_basin,
}

module _ ⦃b : Buffers⦄ (M R : Storage) (LM : IsStorage M) where
  -- A basin in the cache has its id in the store.
  abbrev pub IsConsistent : StreamController M R → Type 0
  IsConsistent c =
      (name : Str) (h : BasinHandle)
      → find name c.basins ≡ some h
      → IsStored M LM c.meta_storage name h.basin_id

  -- The basin that was loaded or made is entered.
  enter-IsConsistent :
      (name : Str) (made : Result ControllerError Basin) (c : StreamController M R)
      → ((x : Basin) → made ≡ ok x → IsStored M LM c.meta_storage name x.basin_id)
      → IsConsistent c
      → IsConsistent (enter_basin M R name made c).1
  unfolding enter_basin open_basin
  enter-IsConsistent name (ok x) c stored k other h e = elim (Bool-cases (bytes_eq name other)) [
    | inl same ↦
        subst (λ n. IsStored M LM c.meta_storage n h.basin_id) ((bytes_eq_iff name other).0 same)
          (subst (λ i. IsStored M LM c.meta_storage name i)
            (ap (λ (g : BasinHandle). g.basin_id) (some-injective _ _ (rw same at e)))
            (stored x refl))
    | inr differs ↦ k other h (rw differs at e)
  ]
  enter-IsConsistent name (err x) c stored k other h e = k other h e
  enter-IsConsistent name panic c stored k other h e = k other h e

  -- A store that changes at a name which is not in the cache leaves the cache right.
  changed-IsConsistent :
      (name : Str) (meta' : M.State) (c : StreamController M R)
      → find name c.basins ≡ none
      → Keeps M R LM name c.meta_storage meta'
      → IsConsistent c
      → IsConsistent (record c { meta_storage = meta' })
  changed-IsConsistent name meta' c missing keeps k other h e =
      let (v, stored, read) = k other h e in
      (
        v,
        keeps other (λ same. some-ne-none h (sym e ∙ ap (λ n. find n c.basins) same ∙ missing))
            ∙ stored,
        read,
      )

  map_err-eq-panic : {A E F : Type 0} (f : E → F) (m : Result E A) → m ≡ panic → map_err f m ≡ panic
  map_err-eq-panic f m e = rw e refl

  enter-eq-panic :
      (name : Str) (made : Result ControllerError Basin) (c : StreamController M R)
      → made ≡ panic
      → (enter_basin M R name made c).0 ≡ panic
  unfolding enter_basin
  enter-eq-panic name made c e = rw e refl

  entered :
      Str → ℕ → StreamController M R → Result ControllerError BasinHandle × StreamController M R
  entered name id c =
      let (made, meta') = load_or_new M R name id c.meta_storage in
      enter_basin M R name (map_err basin made) (record c { meta_storage = meta' })

  create_cached :
      (name : Str) (id : ℕ) (c : StreamController M R) (h : BasinHandle)
      → find name c.basins ≡ some h
      → create_basin M R name id c ≡ (ok h, c)
  unfolding create_basin
  create_cached name id c h e = rw (e, create_basin) refl

  create_missing :
      (name : Str) (id : ℕ) (c : StreamController M R)
      → find name c.basins ≡ none
      → create_basin M R name id c ≡ entered name id c
  unfolding entered create_basin
  create_missing name id c e = rw (e, create_basin) refl

  get_cached :
      (wait : StreamController M R → StreamController M R) (name : Str) (id : ℕ)
      (c : StreamController M R) (h : BasinHandle)
      → find name c.basins ≡ some h
      → get_or_create_basin M R wait name id c ≡ (ok h, c)
  unfolding get_or_create_basin
  get_cached wait name id c h e = rw (e, get_or_create_basin) refl

  get_missing :
      (wait : StreamController M R → StreamController M R) (name : Str) (id : ℕ)
      (c : StreamController M R)
      → find name c.basins ≡ none
      → get_or_create_basin M R wait name id c ≡ create_basin M R name id (wait c)
  unfolding get_or_create_basin
  get_missing wait name id c e = rw (e, get_or_create_basin) refl

  create_basin-IsConsistent :
      (name : Str) (id : ℕ) (c : StreamController M R)
      → IsU128 id
      → IsConsistent c
      → (create_basin M R name id c).0 ≢ panic
      → IsConsistent (create_basin M R name id c).1
  unfolding entered load_or_new
  create_basin-IsConsistent name id c h k alive = elim (Option-cases (find name c.basins)) [
    | inr (cached, e) ↦ rw (create_cached name id c cached e) k
    | inl e ↦
        let loaded = Basin.load M name c.meta_storage in
        let made = or_new M R name id c.meta_storage loaded in
        rw (create_missing name id c e) (
          enter-IsConsistent name (map_err basin made.0) (record c { meta_storage = made.1 })
            (λ x done.
              or_new-ok M R LM name id c.meta_storage h loaded x refl
                (map_err-eq-ok basin made.0 done))
            (changed-IsConsistent name made.1 c e
              (or_new-Keeps M R LM name id c.meta_storage h loaded (λ stopped.
                (rw (create_missing name id c e) at alive) (
                  enter-eq-panic name (map_err basin made.0) _
                    (map_err-eq-panic basin made.0 stopped))))
              k))
  ]

  -- Whatever other tasks do while the call waits for the lock, as long as the cache stays right: after
  -- `get_or_create_basin`, with a result or an error, every basin of the cache has its id in the store.
  pub get_or_create_basin-IsConsistent :
      (wait : StreamController M R → StreamController M R) (name : Str) (id : ℕ)
      (c : StreamController M R)
      → IsU128 id
      → IsConsistent c
      → IsConsistent (wait c)
      → (get_or_create_basin M R wait name id c).0 ≢ panic
      → IsConsistent (get_or_create_basin M R wait name id c).1
  get_or_create_basin-IsConsistent wait name id c h k k' alive =
      elim (Option-cases (find name c.basins)) [
        | inr (cached, e) ↦ rw (get_cached wait name id c cached e) k
        | inl e ↦
            let same = get_missing wait name id c e in
            rw same (create_basin-IsConsistent name id (wait c) h k' (rw same at alive))
      ]

  enter_ok :
      (name : Str) (made : Result ControllerError Basin) (c : StreamController M R)
      (h : BasinHandle)
      → (enter_basin M R name made c).0 ≡ ok h
      → (x : Basin) × (made ≡ ok x)
        × (h.basin_id ≡ x.basin_id)
        × (find name (enter_basin M R name made c).1.basins ≡ some h)
        × ((enter_basin M R name made c).1.meta_storage ≡ c.meta_storage)
  unfolding enter_basin open_basin
  enter_ok name (ok x) c h e =
      (x, refl, ground (arith, e), find-put name (open_basin x) c.basins ∙ ground (arith, e), refl)
  enter_ok name (err x) c h e = cc
  enter_ok name panic c h e = cc

  pub same_id :
      (name : Str) (meta : M.State) (i j : ℕ)
      → IsStored M LM meta name i
      → IsStored M LM meta name j
      → i ≡ j
  same_id name meta i j (v, stored, read) (w, stored', read') =
      ground (arith, stored, stored', read, read')

  create_ok :
      (name : Str) (id : ℕ) (c : StreamController M R) (h : BasinHandle) (known : ℕ)
      → IsU128 id
      → IsConsistent c
      → IsStored M LM c.meta_storage name known
      → (create_basin M R name id c).0 ≡ ok h
      → (h.basin_id ≡ known) × ((create_basin M R name id c).1.meta_storage ≡ c.meta_storage)
  unfolding entered load_or_new
  create_ok name id c h known hi k stored e = elim (Option-cases (find name c.basins)) [
    | inr (cached, found) ↦
        let same = create_cached name id c cached found in
        rw same (
          same_id name c.meta_storage h.basin_id known
              (subst (λ (g : BasinHandle). IsStored M LM c.meta_storage name g.basin_id)
                (ok-injective cached h (rw same at e)) (k name cached found))
              stored,
          refl,
        )
    | inl missing ↦
        let same = create_missing name id c missing in
        let loaded = Basin.load M name c.meta_storage in
        let made = or_new M R name id c.meta_storage loaded in
        let (x, done, named, _, kept) =
          enter_ok name (map_err basin made.0) (record c { meta_storage = made.1 }) h
            (rw same at e) in
        let (known_id, unchanged) =
          or_new_stored M R LM name id c.meta_storage hi loaded x known refl stored
            (map_err-eq-ok basin made.0 done) in
        rw same (named ∙ known_id, kept ∙ unchanged)
  ]

  -- A basin that is stored is not made again: where it is there when the call gets the lock, and what other tasks do
  -- until then leaves its entry, the handle has its id, and the store of metadata is not written.
  pub get_or_create_basin-stored :
      (wait : StreamController M R → StreamController M R) (name : Str) (id : ℕ)
      (c : StreamController M R) (h : BasinHandle) (known : ℕ)
      → IsU128 id
      → IsConsistent c
      → IsConsistent (wait c)
      → IsStored M LM c.meta_storage name known
      → IsStored M LM (wait c).meta_storage name known
      → (get_or_create_basin M R wait name id c).0 ≡ ok h
      → (h.basin_id ≡ known)
        × (((get_or_create_basin M R wait name id c).1.meta_storage ≡ c.meta_storage)
            ⊎ ((get_or_create_basin M R wait name id c).1.meta_storage ≡ (wait c).meta_storage))
  get_or_create_basin-stored wait name id c h known hi k k' stored stored' e =
      elim (Option-cases (find name c.basins)) [
        | inr (cached, found) ↦
            let same = get_cached wait name id c cached found in
            rw same (
              same_id name c.meta_storage h.basin_id known
                  (subst (λ (g : BasinHandle). IsStored M LM c.meta_storage name g.basin_id)
                    (ok-injective cached h (rw same at e)) (k name cached found))
                  stored,
              inl refl,
            )
        | inl missing ↦
            let same = get_missing wait name id c missing in
            let (known_id, kept) =
              create_ok name id (wait c) h known hi k' stored' (rw same at e) in
            rw same (known_id, inr kept)
      ]
