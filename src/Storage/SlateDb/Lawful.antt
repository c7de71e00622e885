-- ===== src/Storage/SlateDb/Lawful.antt =====
-- The store over a database that does what its documentation says is one that a client can rely on.
use concrete.Prelude.{ℕ, ◌≡◌, refl, sym, ap, ◌∙◌, ◌⊎◌, inl, inr, Option, none, some, List, [], ◌∷◌}
use concrete.Prelude.Result.{Result, ok, err, panic, map_ok, map_err, map_ok-eq-ok, map_err-eq-ok}
use concrete.Bytes.{Bytes}
use concrete.Storage.Error.{StorageError}
use concrete.Storage.Range.{BytesRange}
use concrete.Storage.Interface.{StorageRecord}
use concrete.Storage.Laws.{
  Contents, write, write_all, IsScan, Yields, finished, failed, yielded, IsStorage,
}
use concrete.Storage.SlateDb.{Db, storage_error, put_all, apply, get, scan_iter, next, slatedb}
use mathlib.Core.Option

-- What an iterator of the database returns, up to its end or an error.
pub data Scans (D : Db) : D.DbIterator → List StorageRecord → Option D.Error → Type 0 where
  scan_ends : {it it' : D.DbIterator} → D.next it ≡ (ok none, it') → Scans D it [] none
  scan_fails :
      {it it' : D.DbIterator} {e : D.Error} → D.next it ≡ (err e, it') → Scans D it [] (some e)
  scan_yields :
      {it it' : D.DbIterator} {r : StorageRecord} {rs : List StorageRecord} {end : Option D.Error}
      → D.next it ≡ (ok (some r), it')
      → Scans D it' rs end
      → Scans D it (r ∷ rs) end

-- A batch has an effect, which grows by a write with each `put`; `write` is atomic; a scan is ordered.
pub record IsDb (D : Db) : Type 1 where
  pub IsValid : D.State → Type 0
  pub write-IsValid : (db : D.State) (wb : D.WriteBatch) → IsValid db → IsValid (D.write db wb).1
  pub contents : D.State → Contents
  pub effect : D.WriteBatch → Contents → Contents
  pub new_effect : (m : Contents) → effect D.new_batch m ≡ m
  pub put_effect :
      (wb : D.WriteBatch) (k v : Bytes) (m : Contents)
      → effect (D.put wb k v) m ≡ write (record { key = k; value = v }) (effect wb m)
  pub write_ok :
      (db : D.State) (wb : D.WriteBatch) (n : ℕ)
      → (D.write db wb).0 ≡ ok n
      → contents (D.write db wb).1 ≡ effect wb (contents db)
  pub write_err :
      (db : D.State) (wb : D.WriteBatch) (e : D.Error)
      → (D.write db wb).0 ≡ err e
      → (contents (D.write db wb).1 ≡ contents db)
        ⊎ (contents (D.write db wb).1 ≡ effect wb (contents db))
  pub get_ok : (db : D.State) (k : Bytes) (v : Option Bytes) → D.get db k ≡ ok v → v ≡ contents db k
  pub scan_ok :
      (db : D.State) (range : BytesRange) (it : D.DbIterator)
      → IsValid db
      → D.scan db range ≡ ok it
      → (rs : List StorageRecord) × (end : Option D.Error) × Scans D it rs end
        × (end ≡ none → IsScan (contents db) range rs)

module _ (D : Db) (L : IsDb D) where
  effect-put_all :
      (wb : D.WriteBatch) (batch : List StorageRecord) (m : Contents)
      → L.effect (put_all D wb batch) m ≡ write_all batch (L.effect wb m)
  unfolding put_all
  effect-put_all wb [] m = refl
  effect-put_all wb (r ∷ batch) m =
      effect-put_all (D.put wb r.key r.value) batch m
      ∙ ap (write_all batch) (L.put_effect wb r.key r.value m)

  batch_effect :
      (batch : List StorageRecord) (m : Contents)
      → L.effect (put_all D D.new_batch batch) m ≡ write_all batch m
  batch_effect batch m = effect-put_all D.new_batch batch m ∙ ap (write_all batch) (L.new_effect m)

  failed_call :
      {A B : Type 0} {e : StorageError} (f : A → B) (m : Result D.Error A)
      → map_ok f (map_err (storage_error D) m) ≡ err e
      → (c : D.Error) × (m ≡ err c)
  failed_call f (ok a) h = cc
  failed_call f (err c) h = (c, refl)
  failed_call f panic h = cc

  shown :
      {it it' : D.DbIterator} {x : Result D.Error (Option StorageRecord)}
      → D.next it ≡ (x, it')
      → next D it ≡ (map_err (storage_error D) x, it')
  unfolding next
  shown e =
      ap
        (λ (y : Result D.Error (Option StorageRecord) × D.DbIterator).
          (map_err (storage_error D) y.0, y.1))
        e

  scans-Yields :
      {it : D.DbIterator} {rs : List StorageRecord} {end : Option D.Error}
      → Scans D it rs end
      → Yields (slatedb D) it rs (Option.map (storage_error D) end)
  scans-Yields (scan_ends e) = finished (shown e)
  scans-Yields (scan_fails e) = failed (shown e)
  scans-Yields (scan_yields e s) = yielded (shown e) (scans-Yields s)

  no_error : (end : Option D.Error) → Option.map (storage_error D) end ≡ none → end ≡ none
  no_error none h = refl
  no_error (some e) h = cc

  -- The store keeps the contract of `Storage` with the contents and the validity of its database: atomic writes in the
  -- order of the batch, also where they fail, reads of one key, and scans in order in every state that is valid for the
  -- database, whose errors are passed on.
  pub slatedb-IsStorage :
      (K : IsStorage (slatedb D)) × (K.IsValid ≡ L.IsValid) × (K.contents ≡ L.contents)
  unfolding apply get scan_iter
  slatedb-IsStorage = (
    record {
      IsValid = L.IsValid;
      contents = L.contents;
      apply-IsValid = λ db batch v. L.write-IsValid db (put_all D D.new_batch batch) v;
      apply_ok = λ db batch w e k.
          let (n, done, same) = map_ok-eq-ok _ _ e in
          ap (λ m. m k)
            (L.write_ok db (put_all D D.new_batch batch) n (map_err-eq-ok _ _ done)
              ∙ batch_effect batch (L.contents db));
      apply_err = λ db batch error e.
          let (c, done) = failed_call _ (D.write db (put_all D D.new_batch batch)).0 e in
          elim (L.write_err db (put_all D D.new_batch batch) c done) [
            | inl same ↦ inl (λ k. ap (λ m. m k) same)
            | inr same ↦ inr (λ k. ap (λ m. m k) (same ∙ batch_effect batch (L.contents db)))
          ];
      get_ok = λ db k found e.
          let (v, done, same) = map_ok-eq-ok _ _ e in
          sym same
          ∙ ap (Option.map (λ v. record { key = k; value = v }))
              (L.get_ok db k v (map_err-eq-ok _ _ done));
      scan_ok = λ db range it v e.
          let (rs, end, s, done) = L.scan_ok db range it v (map_err-eq-ok _ _ e) in
          (rs, Option.map (storage_error D) end, scans-Yields s, λ h. done (no_error end h));
    },
    refl,
    refl,
  )
