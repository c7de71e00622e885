-- ===== src/Basin/Create.antt =====
-- `Basin::new` and `Basin::load`: a basin that was made is found by its name, with its id.
use concrete.Prelude.{
  ℕ, ◌≡◌, ◌≢◌, sym, ap, ◌∙◌, Option, none, some, [], ◌∷◌, ◌++◌, append-nil, length, take, arith,
  le→ltb, Option-cases, inl, inr, refl, List,
}
use concrete.Prelude.Lists.{head_or_zero}
use concrete.Prelude.Result.{panic, Result-cases, ok, >>=-eq-ok, map_err-eq-ok, map_ok-eq-ok}
use concrete.Bytes.{Bytes, Buffers, IsBytes, IsU128, to_be_bytes, from_be_bytes}
use concrete.Storage.Interface.{StorageRecord, Storage}
use concrete.Prelude.Order.{bytes_eq_refl, bytes_eq-of_ne}
use concrete.Bytes.BigEndian.{length-to_be_bytes, read_front}
use concrete.Text.{Str}
use concrete.Storage.Laws.{IsStorage, get_stored, get_missing}
use concrete.Key.{buffer_laws}
use concrete.Stream
use concrete.Stream.Keys
use concrete.Basin.{
  Basin, deserialise_basin_id, deserialise_basin_id-eq, construct_metadata_key, metadata_prefix,
  id_bytes, new, load, load_value,
}

module _ ⦃b : Buffers⦄ where
  pub metadata_prefix-eq : metadata_prefix ≡ 2 ∷ []
  unfolding metadata_prefix
  metadata_prefix-eq = simp buffer_laws

  pub metadata_key-eq : (name : Str) → construct_metadata_key name ≡ metadata_prefix ++ name
  unfolding construct_metadata_key
  metadata_key-eq name = rw metadata_prefix-eq (simp buffer_laws)

  pub metadata_prefix-IsBytes : IsBytes metadata_prefix
  metadata_prefix-IsBytes = rw metadata_prefix-eq (omega arith)

  -- Two names have one key only if they are one name.
  pub metadata_key-injective :
      (m n : Str) → construct_metadata_key m ≡ construct_metadata_key n → m ≡ n
  metadata_key-injective m n e = cc (metadata_key-eq m, metadata_key-eq n, metadata_prefix-eq)

  -- A basin's entry is no stream's.
  pub basin_key-ne-stream_key :
      (basin : ℕ) (name stream : Str)
      → construct_metadata_key name ≢ Stream.construct_metadata_key basin stream
  basin_key-ne-stream_key basin name stream e = omega (
    arith,
    ap head_or_zero (
        sym (metadata_key-eq name ∙ ap (λ p. p ++ name) metadata_prefix-eq)
        ∙ e
        ∙ Stream.Keys.metadata_key-eq basin stream
        ∙ ap (λ p. p ++ stream) (Stream.Keys.metadata_prefix-eq basin)),
  )

  id_bytes-eq : (id : ℕ) → id_bytes id ≡ to_be_bytes 16 id
  id_bytes-eq id = simp buffer_laws

  pub read_id : (id : ℕ) → IsU128 id → deserialise_basin_id (id_bytes id) ≡ ok id
  read_id id h = rw deserialise_basin_id-eq (
      rw id_bytes-eq (
        rw (le→ltb (length (to_be_bytes 16 id)) 16 (omega (arith, length-to_be_bytes 16 id))) (
          ap ok (
            ap (λ bs. from_be_bytes (take 16 bs)) (sym (append-nil (to_be_bytes 16 id)))
            ∙ read_front 16 id [] h))))

  module _ (M : Storage) (LM : IsStorage M) where
    pub load_stored :
        (name : Str) (id : ℕ) (meta : M.State) (x : Option Basin)
        → IsU128 id
        → LM.contents meta (construct_metadata_key name) ≡ some (id_bytes id)
        → load M name meta ≡ ok x
        → x ≡ some (record { basin_id = id; basin_name = name })
    unfolding load
    load_stored name id meta x h stored e =
        let (found, got, rest) = >>=-eq-ok _ (load_value name) e in
        let same : found
            ≡ some (record { key = construct_metadata_key name; value = id_bytes id }) =
          get_stored LM meta _ _ stored found (map_err-eq-ok _ _ got) in
        ground (arith, same, rest, read_id id h)

    pub load_missing :
        (name : Str) (meta : M.State) (x : Option Basin)
        → LM.contents meta (construct_metadata_key name) ≡ none
        → load M name meta ≡ ok x
        → x ≡ none
    unfolding load
    load_missing name meta x missing e =
        let (found, got, rest) = >>=-eq-ok _ (load_value name) e in
        let same : found ≡ none = get_missing LM meta _ missing found (map_err-eq-ok _ _ got) in
        ground (arith, same, rest)

    -- After `Basin::new`, a load of the name that succeeds finds the basin with its id, and the
    -- entries of the other names are what they were.
    pub load-new :
        (name : Str) (id : ℕ) (meta : M.State) (made : Basin) (x : Option Basin)
        → IsU128 id
        → (new M name id meta).0 ≡ ok made
        → load M name (new M name id meta).1 ≡ ok x
        → (made ≡ record { basin_id = id; basin_name = name })
          × (x ≡ some made)
          × ((other : Str)
              → other ≢ name
              → LM.contents (new M name id meta).1 (construct_metadata_key other)
                ≡ LM.contents meta (construct_metadata_key other))
    unfolding new
    load-new name id meta made x h e got =
        let (w, done, same) = map_ok-eq-ok _ _ e in
        let written = LM.apply_ok meta _ w (map_err-eq-ok _ _ done) in
        (
          sym same,
          load_stored name id _ x h
                (written (construct_metadata_key name)
                  ∙ rw (bytes_eq_refl (construct_metadata_key name)))
                got
              ∙ ap some same,
          λ other differs.
              written (construct_metadata_key other)
              ∙ rw (
                  bytes_eq-of_ne (construct_metadata_key name) (construct_metadata_key other)
                    (λ same. differs (sym (metadata_key-injective name other same)))),
        )

    -- The entry of a name holds an id, maybe with more bytes behind it.
    abbrev pub IsStored : M.State → Str → ℕ → Type 0
    IsStored meta name id =
        (v : Bytes) × (LM.contents meta (construct_metadata_key name) ≡ some v)
        × (deserialise_basin_id v ≡ ok id)

    -- A basin that is loaded is stored.
    pub load_found :
        (name : Str) (meta : M.State) (found : Basin)
        → load M name meta ≡ ok (some found)
        → IsStored meta name found.basin_id
    unfolding load load_value
    load_found name meta found e =
        let (x, got, rest) = >>=-eq-ok _ (load_value name) e in
        let read = LM.get_ok meta _ x (map_err-eq-ok _ _ got) in
        elim (Option-cases (LM.contents meta (construct_metadata_key name))) [
          | inl missing ↦ absurd (nothing x (read ∙ rw missing refl) rest)
          | inr (v, stored) ↦ (v, stored, value x v (read ∙ rw stored refl) rest)
        ]
      where
        nothing : (x : Option StorageRecord) → x ≡ none → load_value name x ≡ ok (some found) → ⊥
        nothing x same rest = ground (arith, same, rest)

        value :
            (x : Option StorageRecord) (v : Bytes)
            → x ≡ some (record { key = construct_metadata_key name; value = v })
            → load_value name x ≡ ok (some found)
            → deserialise_basin_id v ≡ ok found.basin_id
        value x v same rest =
            let (id, done, made) = map_ok-eq-ok _ (deserialise_basin_id v) (rw same at rest) in
            ground (arith, done, made)

    -- A basin that is stored is loaded, if the read succeeds.
    pub load_of_stored :
        (name : Str) (id : ℕ) (meta : M.State) (x : Option Basin)
        → IsStored meta name id
        → load M name meta ≡ ok x
        → x ≡ some (record { basin_id = id; basin_name = name })
    unfolding load
    load_of_stored name id meta x (v, stored, read) e =
        let (found, got, rest) = >>=-eq-ok _ (load_value name) e in
        let same : found ≡ some (record { key = construct_metadata_key name; value = v }) =
          get_stored LM meta _ _ stored found (map_err-eq-ok _ _ got) in
        ground (arith, same, rest, read)

    -- `Basin::new` writes the entry of the name, and that of no other name; where it fails, it writes
    -- all or nothing.
    pub new_ok :
        (name : Str) (id : ℕ) (meta : M.State) (made : Basin)
        → IsU128 id
        → (new M name id meta).0 ≡ ok made
        → IsStored (new M name id meta).1 name made.basin_id
    unfolding new
    new_ok name id meta made h e =
        let (w, done, same) = map_ok-eq-ok _ _ e in
        let written = LM.apply_ok meta _ w (map_err-eq-ok _ _ done) in
        rw (← same) (
          id_bytes id,
          written (construct_metadata_key name)
              ∙ rw (bytes_eq_refl (construct_metadata_key name)) refl,
          read_id id h,
        )

    pub new_others :
        (name other : Str) (id : ℕ) (meta : M.State)
        → other ≢ name
        → (new M name id meta).0 ≢ panic
        → LM.contents (new M name id meta).1 (construct_metadata_key other)
          ≡ LM.contents meta (construct_metadata_key other)
    unfolding new
    new_others name other id meta differs alive =
        let batch : List StorageRecord =
          record { key = construct_metadata_key name; value = id_bytes id } ∷ [] in
        let kept =
          bytes_eq-of_ne (construct_metadata_key name) (construct_metadata_key other)
            (λ same. differs (sym (metadata_key-injective name other same))) in
        elim (Result-cases (M.apply meta batch).0) [
          | inl (w, done) ↦
              LM.apply_ok meta batch w done (construct_metadata_key other) ∙ rw kept refl
          | inr (inl (e, failed)) ↦ elim (LM.apply_err meta batch e failed) [
            | inl unchanged ↦ unchanged (construct_metadata_key other)
            | inr written ↦ written (construct_metadata_key other) ∙ rw kept refl
          ]
          | inr (inr stopped) ↦ absurd (alive (rw stopped refl))
        ]
