-- ===== src/Storage/Laws.antt =====
-- What a client may rely on: `apply` writes its batch atomically, `get` reads one key, and a scan
-- yields the records of a range in the order of their keys.
use concrete.Prelude.{
  ap, ◌∙◌, ◌≡◌, ◌⊎◌, true, Option, none, some, List, [], ◌∷◌, All, if◌then◌else◌, ◌≢◌,
}
use concrete.Prelude.Order.{bytes_lt, bytes_eq}
use concrete.Prelude.Result.{ok, err, panic}
use concrete.Bytes.{Bytes}
use concrete.Storage.Error.{StorageError}
use concrete.Storage.Range.{BytesRange, contains}
use concrete.Storage.Interface.{StorageRecord, WriteResult, Storage}
use mathlib.Core.Option

-- The abstract view of a store: a partial map from keys to values.
abbrev pub Contents : Type 0
Contents = Bytes → Option Bytes

-- One write, and a batch in its order.
abbrev pub write : StorageRecord → Contents → Contents
write r m k = if bytes_eq r.key k then some r.value else m k

abbrev pub write_all : List StorageRecord → Contents → Contents
write_all [] m = m
write_all (r ∷ rs) m = write_all rs (write r m)

abbrev pub lookup : Bytes → List StorageRecord → Option Bytes
lookup k [] = none
lookup k (r ∷ rs) = if bytes_eq r.key k then some r.value else lookup k rs

abbrev pub IsBelow : Bytes → List StorageRecord → Type 0
IsBelow k = All (λ r. bytes_lt k r.key ≡ true)

-- Strictly ascending keys.
abbrev pub IsAscending : List StorageRecord → Type 0
IsAscending [] = Unit
IsAscending (r ∷ rs) = IsBelow r.key rs × IsAscending rs

-- `rs` are the records of a range, in order.
pub record IsScan (m : Contents) (range : BytesRange) (rs : List StorageRecord) : Type 0 where
  pub ascending : IsAscending rs
  pub finds : (k : Bytes) → lookup k rs ≡ (if contains range k then m k else none)

-- What an iterator yields from here on, and the error at its end, if there is one.
pub data Yields (S : Storage) : S.Iter → List StorageRecord → Option StorageError → Type 0 where
  finished : {it it' : S.Iter} → S.next it ≡ (ok none, it') → Yields S it [] none
  failed : {it it' : S.Iter} {e : StorageError} → S.next it ≡ (err e, it') → Yields S it [] (some e)
  yielded :
      {it it' : S.Iter} {r : StorageRecord} {rs : List StorageRecord} {end : Option StorageError}
      → S.next it ≡ (ok (some r), it')
      → Yields S it' rs end
      → Yields S it (r ∷ rs) end

-- The contract. A failed write may have been written, as a whole.
pub record IsStorage (S : Storage) : Type 1 where
  pub IsValid : S.State → Type 0
  pub contents : S.State → Contents
  pub apply-IsValid :
      (s : S.State) (batch : List StorageRecord) → IsValid s → IsValid (S.apply s batch).1
  pub apply_ok :
      (s : S.State) (batch : List StorageRecord) (w : WriteResult)
      → (S.apply s batch).0 ≡ ok w
      → (k : Bytes) → contents (S.apply s batch).1 k ≡ write_all batch (contents s) k
  pub apply_err :
      (s : S.State) (batch : List StorageRecord) (e : StorageError)
      → (S.apply s batch).0 ≡ err e
      → ((k : Bytes) → contents (S.apply s batch).1 k ≡ contents s k)
        ⊎ ((k : Bytes) → contents (S.apply s batch).1 k ≡ write_all batch (contents s) k)
  pub get_ok :
      (s : S.State) (k : Bytes) (found : Option StorageRecord)
      → S.get s k ≡ ok found
      → found ≡ Option.map (λ v. record { key = k; value = v }) (contents s k)
  pub scan_ok :
      (s : S.State) (range : BytesRange) (it : S.Iter)
      → IsValid s
      → S.scan_iter s range ≡ ok it
      → (rs : List StorageRecord) × (end : Option StorageError) × Yields S it rs end
        × (end ≡ none → IsScan (contents s) range rs)

-- A store whose writes and reads answer, with a result or an error.
pub record NeverPanics (R : Storage) : Type 0 where
  pub apply : (s : R.State) (batch : List StorageRecord) → (R.apply s batch).0 ≢ panic
  pub get : (s : R.State) (k : Bytes) → R.get s k ≢ panic

module _ {S : Storage} (L : IsStorage S) where
  pub get_stored :
      (s : S.State) (k v : Bytes)
      → L.contents s k ≡ some v
      → (found : Option StorageRecord) → S.get s k ≡ ok found
      → found ≡ some (record { key = k; value = v })
  get_stored s k v h found e =
      L.get_ok s k found e ∙ ap (Option.map (λ w. record { key = k; value = w })) h

  pub get_missing :
      (s : S.State) (k : Bytes)
      → L.contents s k ≡ none
      → (found : Option StorageRecord) → S.get s k ≡ ok found
      → found ≡ none
  get_missing s k h found e =
      L.get_ok s k found e ∙ ap (Option.map (λ w. record { key = k; value = w })) h
