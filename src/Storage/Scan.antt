-- ===== src/Storage/Scan.antt =====
-- `while let Some(record) = iter.next().await? { ... }`, the loop of the two listings: `visit` is
-- its body, which pushes one view or returns an error, and `fail` wraps an error of the iterator.
use concrete.Prelude.{
  ℕ, zero, suc, ◌<◌, ◌≡◌, refl, Option, none, some, List, [], ◌∷◌, length, arith, ap, ◌∙◌,
}
use concrete.Prelude.Result.{Result, ok, err, panic, map_ok}
use concrete.Storage.Error.{StorageError}
use concrete.Storage.Interface.{StorageRecord, Storage}
use concrete.Storage.Laws.{Yields, finished, failed, yielded}
use mathlib.Core.Option
use mathlib.Core.Option.{some-injective}

module _ (S : Storage) {E A : Type 0} (visit : StorageRecord → Result E A)
    (fail : StorageError → E) where
  -- One round: what `next` returned, and the rounds after it.
  scan_round :
      Result StorageError (Option StorageRecord)
      → Option (Result E (List A))
      → Option (Result E (List A))
  scan_round (ok none) rest = some (ok [])
  scan_round (ok (some r)) rest = elim (visit r) [
    | ok a ↦ Option.map (map_ok (◌∷◌ a)) rest
    | err e ↦ some (err e)
    | panic ↦ some panic
  ]
  scan_round (err e) rest = some (err (fail e))
  scan_round panic rest = some panic

  -- `none` says that the rounds ran out.
  unfoldable pub scan_loop : ℕ → S.Iter → Option (Result E (List A))
  unfolding scan_round
  scan_loop zero it = none
  scan_loop (suc fuel) it =
      let (found, it') = S.next it in let rest = scan_loop fuel it' in scan_round found rest

  -- What the loop computes from the records that an iterator yields, and the error at its end.
  unfoldable pub visit_all : List StorageRecord → Option StorageError → Result E (List A)
  visit_all [] none = ok []
  visit_all [] (some e) = err (fail e)
  visit_all (r ∷ rs) end = elim (visit r) [
    | ok a ↦ map_ok (◌∷◌ a) (visit_all rs end)
    | err e ↦ err e
    | panic ↦ panic
  ]

  -- One round more than there are records is enough for the loop to end.
  pub scan_loop-visit_all :
      (fuel : ℕ) {it : S.Iter} {rs : List StorageRecord} {end : Option StorageError}
      → Yields S it rs end
      → length rs < fuel
      → scan_loop fuel it ≡ some (visit_all rs end)
  unfolding scan_loop visit_all
  scan_loop-visit_all zero y h = absurd (omega arith)
  scan_loop-visit_all (suc fuel) (finished e) h = rw e
  scan_loop-visit_all (suc fuel) (failed e) h = rw e
  scan_loop-visit_all (suc fuel) (yielded {r = r} {rs = rs} {end = end} e y) h =
      rw e (rw (scan_loop-visit_all fuel y (omega arith)) (ground arith))

  -- A loop that ended has computed that.
  pub scan_loop-some :
      (fuel : ℕ) {it : S.Iter} {rs : List StorageRecord} {end : Option StorageError}
      (x : Result E (List A))
      → Yields S it rs end
      → scan_loop fuel it ≡ some x
      → visit_all rs end ≡ x
  unfolding scan_loop visit_all
  scan_loop-some zero x y h = cc
  scan_loop-some (suc fuel) x (finished e) h = some-injective _ _ (rw e at h)
  scan_loop-some (suc fuel) x (failed e) h = some-injective _ _ (rw e at h)
  scan_loop-some (suc fuel) x (yielded {it' = it'} {r = r} {rs = rs} {end = end} e y) h =
      step (visit r) (scan_loop fuel it') (λ x'. scan_loop-some fuel {it = it'} x' y) (rw e at h)
    where
      step :
          (v : Result E A) (rest : Option (Result E (List A)))
          → ((x' : Result E (List A)) → rest ≡ some x' → visit_all rs end ≡ x')
          → elim v [
            | ok a ↦ Option.map (map_ok (◌∷◌ a)) rest
            | err e ↦ some (err e)
            | panic ↦ some panic
          ]
            ≡ some x
          → elim v [ ok a ↦ map_ok (◌∷◌ a) (visit_all rs end) | err e ↦ err e | panic ↦ panic ] ≡ x
      step (ok a) (some x') ih h = ap (map_ok (◌∷◌ a)) (ih x' refl) ∙ some-injective _ _ h
      step (ok a) none ih h = cc
      step (err c) rest ih h = some-injective _ _ h
      step panic rest ih h = some-injective _ _ h
