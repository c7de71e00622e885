-- ===== src/Controller/Follow/Complete.antt =====
-- Without failures the client of `read_follow` gets every record, each once.
use concrete.Prelude.{
  Bool, true, false, append-nil, subst, ℕ, zero, suc, ◌+◌, ◌-◌, ◌≤◌, ◌<◌, ◌≡◌, refl, sym, ap, ◌∙◌,
  inl, inr, Option, none, some, List, [], ◌∷◌, ◌++◌, map, length, All, arith, le→leb, Option-cases,
}
use concrete.Prelude.Lists.{length-append}
use mathlib.Core.List.{map-append}
use concrete.Prelude.Result.{Result, ok}
use concrete.Record.{Record}
use concrete.Controller.{ControllerError}
use concrete.Controller.Follow.{
  closed, has_returned, live_returned, follow_returned, RecvEvent, received, Item, round, backfill,
  live, follow, follow_live,
}
use concrete.Controller.Follow.Order.{push, log_from, records_of, received_of, follow-IsPrefix}

-- Numbers strictly ascend, from `lo` on.
abbrev pub IsAscendingFrom : ℕ → List Record → Type 0
IsAscendingFrom lo [] = Unit
IsAscendingFrom lo (r ∷ rs) = (lo ≤ r.seq_num) × IsAscendingFrom (r.seq_num + 1) rs

pub IsAscendingFrom-weaken :
    (lo lo' : ℕ) (rs : List Record) → lo ≤ lo' → IsAscendingFrom lo' rs → IsAscendingFrom lo rs
IsAscendingFrom-weaken lo lo' [] h a = tt
IsAscendingFrom-weaken lo lo' (r ∷ rs) h a = (omega (arith, a.0), a.1)

pub IsAscendingFrom-append :
    (lo mid : ℕ) (rs ss : List Record)
    → lo ≤ mid
    → IsAscendingFrom lo rs
    → All (λ (r : Record). r.seq_num < mid) rs
    → IsAscendingFrom mid ss
    → IsAscendingFrom lo (rs ++ ss)
IsAscendingFrom-append lo mid [] ss h a b c = IsAscendingFrom-weaken lo mid ss h c
IsAscendingFrom-append lo mid (r ∷ rs) ss h a b c =
    (a.0, IsAscendingFrom-append (r.seq_num + 1) mid rs ss (omega (arith, b.0)) a.1 b.1 c)

pub IsAscendingFrom-prefix :
    (lo : ℕ) (rs ss : List Record) → IsAscendingFrom lo (rs ++ ss) → IsAscendingFrom lo rs
IsAscendingFrom-prefix lo [] ss a = tt
IsAscendingFrom-prefix lo (r ∷ rs) ss a = (a.0, IsAscendingFrom-prefix (r.seq_num + 1) rs ss a.1)

pub IsAscendingFrom-All :
    (lo : ℕ) (rs : List Record) → IsAscendingFrom lo rs → All (λ (r : Record). lo ≤ r.seq_num) rs
IsAscendingFrom-All lo [] a = tt
IsAscendingFrom-All lo (r ∷ rs) a = (
  a.0,
  IsAscendingFrom-All lo rs (IsAscendingFrom-weaken lo (r.seq_num + 1) rs (omega (arith, a.0)) a.1),
)

module _ (log : ℕ → Option Record) where
  -- A log has each record under its number.
  abbrev pub IsLog : Type 0
  IsLog = (n : ℕ) (r : Record) → log n ≡ some r → r.seq_num ≡ n

  push-IsAscendingFrom :
      IsLog
      → (n : ℕ) (rs : List Record) → IsAscendingFrom (n + 1) rs
      → IsAscendingFrom n (push (log n) rs)
  push-IsAscendingFrom h n rs a = elim (Option-cases (log n)) [
    | inl e ↦ rw e (IsAscendingFrom-weaken n (n + 1) rs (omega arith) a)
    | inr (r, e) ↦ rw e (
      omega (arith, h n r e),
      IsAscendingFrom-weaken (r.seq_num + 1) (n + 1) rs (omega (arith, h n r e)) a,
    )
  ]

  pub log_from-IsAscendingFrom : IsLog → (count n : ℕ) → IsAscendingFrom n (log_from log count n)
  log_from-IsAscendingFrom h zero n = tt
  log_from-IsAscendingFrom h (suc count) n =
      push-IsAscendingFrom h n (log_from log count (n + 1))
        (log_from-IsAscendingFrom h count (n + 1))

  push-below :
      IsLog
      → (n next : ℕ) (rs : List Record) → n < next
      → All (λ (r : Record). r.seq_num < next) rs
      → All (λ (r : Record). r.seq_num < next) (push (log n) rs)
  push-below h n next rs lt a = elim (Option-cases (log n)) [
    | inl e ↦ rw e a
    | inr (r, e) ↦ rw e (omega (arith, h n r e), a)
  ]

  pub log_from-below :
      IsLog
      → (count n next : ℕ) → n + count ≤ next
      → All (λ (r : Record). r.seq_num < next) (log_from log count n)
  log_from-below h zero n next lt = tt
  log_from-below h (suc count) n next lt =
      push-below h n next _ (omega arith) (log_from-below h count (n + 1) next (omega arith))

-- The records that a client gets have strictly ascending numbers, from the start that it asked for on, if that is not
-- behind the end of the stream: no record comes twice, whatever fails, lags or hangs up.
follow-IsAscendingFrom :
    (log : ℕ → Option Record) (reads : ℕ → Result ControllerError (Option Record))
    (start next accepts : ℕ) (events : List RecvEvent)
    → start ≤ next
    → IsLog log
    → ((i : ℕ) → start ≤ i → i < next → (x : Option Record) → reads i ≡ ok x → x ≡ log i)
    → IsAscendingFrom next (received_of events)
    → IsAscendingFrom start (records_of (follow start next reads events accepts))
follow-IsAscendingFrom log reads start next accepts events h l r a =
    let (rest, e) =
      follow-IsPrefix log reads start next accepts events r
        (IsAscendingFrom-All next (received_of events) a) in
    IsAscendingFrom-prefix start (records_of (follow start next reads events accepts)) rest (
      rw e (
        IsAscendingFrom-append start next (log_from log (next - start) start) (received_of events) h
          (log_from-IsAscendingFrom log l (next - start) start)
          (log_from-below log l (next - start) start next (omega arith)) a))

module _ (log : ℕ → Option Record) (reads : ℕ → Result ControllerError (Option Record)) where
  round_all :
      (stored : Option Record) (accepts left : ℕ) (rest : ℕ → List Item × Option ℕ)
      (rs : List Record)
      → ((a : ℕ) → a ≡ length rs + left → rest a ≡ (map ok rs, some left))
      → accepts ≡ length (push stored rs) + left
      → round (ok stored) accepts rest ≡ (map ok (push stored rs), some left)
  round_all none accepts left rest rs h l = h accepts l
  round_all (some r) zero left rest rs h l = absurd (omega (arith, l))
  round_all (some r) (suc accepts) left rest rs h l = rw (h accepts (omega (arith, l))) refl

  backfill_all :
      (count n accepts left : ℕ)
      → ((i : ℕ) → n ≤ i → i < n + count → reads i ≡ ok (log i))
      → accepts ≡ length (log_from log count n) + left
      → backfill count n reads accepts ≡ (map ok (log_from log count n), some left)
  unfolding backfill
  backfill_all zero n accepts left h l =
      let same : accepts ≡ left = omega (arith, l) in rw same refl
  backfill_all (suc count) n accepts left h l = rw (h n (omega arith) (omega arith)) (
      round_all (log n) accepts left (backfill count (n + 1) reads) (log_from log count (n + 1))
        (λ a la. backfill_all count (n + 1) a left (λ i lo hi. h i (omega arith) (omega arith)) la)
        l)

-- The live records that are received before anything else happens.
live_all :
    (next : ℕ) (rs : List Record) (more : List RecvEvent) (accepts left : ℕ)
    → All (λ (r : Record). next ≤ r.seq_num) rs
    → accepts ≡ length rs + left
    → live next (map received rs ++ more) accepts
      ≡ (map ok rs ++ (live next more left).0, (live next more left).1)
unfolding live
live_all next [] more accepts left h l =
    let same : accepts ≡ left = omega (arith, l) in rw same refl
live_all next (r ∷ rs) more zero left h l = absurd (omega (arith, l))
live_all next (r ∷ rs) more (suc accepts) left h l = rw (le→leb next r.seq_num h.0) (
    ap (λ (x : List Item × Option ℕ). (ok r ∷ x.0, x.1))
      (live_all next rs more accepts left h.1 (omega (arith, l))))

-- What is received after the live records neither sends anything nor needs a client: nothing yet, or
-- the end of the channel.
IsSilent : ℕ → List RecvEvent → Bool → Type 0
IsSilent next more over =
    (accepts : ℕ)
    → ((live next more accepts).0 ≡ []) × (has_returned (live next more accepts).1 ≡ over)

follow_live_all :
    (next : ℕ) (rs stored : List Record) (more : List RecvEvent) (over : Bool) (left : ℕ)
    (x : List Item × Option ℕ)
    → All (λ (r : Record). next ≤ r.seq_num) rs
    → length rs ≤ left
    → IsSilent next more over
    → x ≡ (map ok stored, some left)
    → (follow_live next (map received rs ++ more) x ≡ map ok (stored ++ rs))
      × (live_returned next (map received rs ++ more) x.1 ≡ over)
unfolding follow_live live_returned IsSilent
follow_live_all next rs stored more over left x h l silent e =
    let lived = live_all next rs more left (left - length rs) h (omega (arith, l)) in
    let (nothing, ends) = silent (left - length rs) in
    (
      ap (follow_live next (map received rs ++ more)) e
          ∙ ap (λ (y : List Item × Option ℕ). map ok stored ++ y.0) lived
          ∙ ap (λ items. map ok stored ++ (map ok rs ++ items)) nothing
          ∙ ap (◌++◌ (map ok stored)) (append-nil (map ok rs))
          ∙ sym (map-append ok stored rs),
      ap (λ (y : List Item × Option ℕ). live_returned next (map received rs ++ more) y.1) e
          ∙ ap (λ (y : List Item × Option ℕ). has_returned y.1) lived
          ∙ ends,
    )

module _ (log : ℕ → Option Record) (reads : ℕ → Result ControllerError (Option Record))
    (start next accepts : ℕ) (rs : List Record)
    (h : (i : ℕ) → start ≤ i → i < next → reads i ≡ ok (log i))
    (l : All (λ (r : Record). next ≤ r.seq_num) rs)
    (big : length (log_from log (next - start) start ++ rs) ≤ accepts) where
  followed :
      (more : List RecvEvent) (over : Bool)
      → IsSilent next more over
      → (follow start next reads (map received rs ++ more) accepts
          ≡ map ok (log_from log (next - start) start ++ rs))
        × (follow_returned start next reads (map received rs ++ more) accepts ≡ over)
  unfolding follow follow_returned
  followed more over silent =
      let stored = log_from log (next - start) start in
      let sizes = length-append stored rs in
      follow_live_all next rs stored more over (accepts - length stored) _ l (omega (arith, sizes))
        silent
        (backfill_all log reads (next - start) start accepts (accepts - length stored)
          (λ i lo hi. h i lo (omega arith)) (omega (arith, sizes)))

  -- Where every read of a stored number succeeds, the receiver gets all records that are sent, and the client stays,
  -- the client gets exactly the log from the start to the subscription's end, and then the live records; the task
  -- then waits for more.
  pub follow_complete :
      (follow start next reads (map received rs) accepts
        ≡ map ok (log_from log (next - start) start ++ rs))
      × (follow_returned start next reads (map received rs) accepts ≡ false)
  unfolding IsSilent live has_returned
  follow_complete =
      subst
        (λ events.
          (follow start next reads events accepts
            ≡ map ok (log_from log (next - start) start ++ rs))
          × (follow_returned start next reads events accepts ≡ false))
        (append-nil (map received rs)) (followed [] false (λ a. (refl, refl)))

  -- If then the channel is closed, the client has got the same, and its stream ends.
  pub follow-closed :
      (follow start next reads (map received rs ++ closed ∷ []) accepts
        ≡ map ok (log_from log (next - start) start ++ rs))
      × (follow_returned start next reads (map received rs ++ closed ∷ []) accepts ≡ true)
  unfolding IsSilent live has_returned
  follow-closed = followed (closed ∷ []) true (λ a. (refl, refl))

-- A start behind the end of the stream does not hold back the live records before it.
pub follow_below_start :
    (reads : ℕ → Result ControllerError (Option Record)) (start next accepts : ℕ) (r : Record)
    (events : List RecvEvent)
    → next ≤ r.seq_num
    → r.seq_num < start
    → follow start next reads (received r ∷ events) (suc accepts)
      ≡ ok r ∷ (live next events accepts).0
unfolding follow follow_live backfill live
follow_below_start reads start next accepts r events h lt = ground (arith, le→leb next r.seq_num h)
