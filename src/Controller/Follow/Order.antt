-- ===== src/Controller/Follow/Order.antt =====
-- What the client of `read_follow` gets: the stored records in order, then the live ones.
use concrete.Prelude.{
  ℕ, zero, suc, ◌+◌, ◌-◌, ◌≤◌, ◌<◌, ◌≡◌, refl, sym, ap, ◌∙◌, Option, none, some, List, [], ◌∷◌,
  ◌++◌, All, arith, le→leb, append_assoc,
}
use concrete.Prelude.Result.{Result, ok, err, panic}
use concrete.Record.{Record}
use concrete.Controller.{ControllerError}
use concrete.Controller.Follow.{
  RecvEvent, received, lagged, closed, Item, last_item, send, round, backfill, live, follow,
  follow_live,
}

-- The records among the items, without an error at the end.
abbrev pub records_of : List Item → List Record
records_of [] = []
records_of (ok r ∷ items) = r ∷ records_of items
records_of (err e ∷ items) = records_of items
records_of (panic ∷ items) = records_of items

-- The records that were received before a lag or the end of the channel.
abbrev pub received_of : List RecvEvent → List Record
received_of [] = []
received_of (received r ∷ events) = r ∷ received_of events
received_of (lagged n ∷ events) = []
received_of (closed ∷ events) = []

abbrev pub push : Option Record → List Record → List Record
push none rs = rs
push (some r) rs = r ∷ rs

-- The records of a log from a number on.
abbrev pub log_from : (ℕ → Option Record) → ℕ → ℕ → List Record
log_from log zero n = []
log_from log (suc count) n = push (log n) (log_from log count (n + 1))

abbrev pub IsPrefix : List Record → List Record → Type 0
IsPrefix xs ys = (rest : List Record) × (xs ++ rest ≡ ys)

-- A loop that has returned has sent a part of the records, in order; one that has ended, all.
abbrev Sends : List Item × Option ℕ → List Record → Type 0
Sends (items, none) rs = IsPrefix (records_of items) rs
Sends (items, some left) rs = records_of items ≡ rs

Sends-last :
    (accepts : ℕ) (e : ControllerError) (rs : List Record) → Sends (last_item accepts e, none) rs
Sends-last zero e rs = (rs, refl)
Sends-last (suc accepts) e rs = (rs, refl)

Sends-more :
    (r : Record) (x : List Item × Option ℕ) (rs : List Record)
    → Sends x rs
    → Sends (ok r ∷ x.0, x.1) (r ∷ rs)
Sends-more r (items, none) rs h = (h.0, ap (◌∷◌ r) h.1)
Sends-more r (items, some left) rs h = ap (◌∷◌ r) h

send-Sends :
    (accepts : ℕ) (r : Record) (rest : ℕ → List Item × Option ℕ) (rs : List Record)
    → ((a : ℕ) → Sends (rest a) rs)
    → Sends (send accepts r rest) (r ∷ rs)
send-Sends zero r rest rs h = (r ∷ rs, refl)
send-Sends (suc accepts) r rest rs h = Sends-more r (rest accepts) rs (h accepts)

round-Sends :
    (answer : Result ControllerError (Option Record)) (stored : Option Record) (accepts : ℕ)
    (rest : ℕ → List Item × Option ℕ) (rs : List Record)
    → ((x : Option Record) → answer ≡ ok x → x ≡ stored)
    → ((a : ℕ) → Sends (rest a) rs)
    → Sends (round answer accepts rest) (push stored rs)
round-Sends (ok none) stored accepts rest rs h k = rw (← h none refl) (k accepts)
round-Sends (ok (some r)) stored accepts rest rs h k =
    rw (← h (some r) refl) (send-Sends accepts r rest rs k)
round-Sends (err e) stored accepts rest rs h k = Sends-last accepts e (push stored rs)
round-Sends panic stored accepts rest rs h k = (push stored rs, refl)

module _ (log : ℕ → Option Record) (reads : ℕ → Result ControllerError (Option Record)) where
  backfill-Sends :
      (count n accepts : ℕ)
      → ((i : ℕ) → n ≤ i → i < n + count → (x : Option Record) → reads i ≡ ok x → x ≡ log i)
      → Sends (backfill count n reads accepts) (log_from log count n)
  unfolding backfill
  backfill-Sends zero n accepts h = refl
  backfill-Sends (suc count) n accepts h =
      round-Sends (reads n) (log n) accepts (backfill count (n + 1) reads)
        (log_from log count (n + 1)) (h n (omega arith) (omega arith))
        (λ a. backfill-Sends count (n + 1) a (λ i lo hi. h i (omega arith) (omega arith)))

live-Sends :
    (next : ℕ) (events : List RecvEvent) (accepts : ℕ)
    → All (λ (r : Record). next ≤ r.seq_num) (received_of events)
    → IsPrefix (records_of (live next events accepts).0) (received_of events)
unfolding live
live-Sends next [] accepts h = ([], refl)
live-Sends next (received r ∷ events) zero h =
    rw (le→leb next r.seq_num h.0) ((r ∷ received_of events), refl)
live-Sends next (received r ∷ events) (suc accepts) h =
    let ih = live-Sends next events accepts h.1 in
    rw (le→leb next r.seq_num h.0) (ih.0, ap (◌∷◌ r) ih.1)
live-Sends next (lagged n ∷ events) zero h = ([], refl)
live-Sends next (lagged n ∷ events) (suc accepts) h = ([], refl)
live-Sends next (closed ∷ events) accepts h = ([], refl)

records_of-append : (xs ys : List Item) → records_of (xs ++ ys) ≡ records_of xs ++ records_of ys
records_of-append [] ys = refl
records_of-append (ok r ∷ xs) ys = ap (◌∷◌ r) (records_of-append xs ys)
records_of-append (err e ∷ xs) ys = records_of-append xs ys
records_of-append (panic ∷ xs) ys = records_of-append xs ys

follow-Sends :
    (next : ℕ) (events : List RecvEvent) (x : List Item × Option ℕ) (rs : List Record)
    → All (λ (r : Record). next ≤ r.seq_num) (received_of events)
    → Sends x rs
    → IsPrefix (records_of (follow_live next events x)) (rs ++ received_of events)
unfolding follow_live
follow-Sends next events (items, none) rs h s = (
  s.0 ++ received_of events,
  sym (append_assoc (records_of items) s.0 (received_of events))
      ∙ ap (λ l. l ++ received_of events) s.1,
)
follow-Sends next events (items, some accepts) rs h s =
    let l = live-Sends next events accepts h in
    (
      l.0,
      ap (λ t. t ++ l.0) (records_of-append items _)
          ∙ append_assoc (records_of items) _ l.0
          ∙ ap (λ t. records_of items ++ t) l.1
          ∙ ap (λ t. t ++ received_of events) s,
    )

-- Whatever fails, lags, ends or hangs up: the records that the client of `read_follow` gets are the first ones of the
-- stored records from the start on, followed by the live ones, in order and without a gap or a repetition, provided
-- that a read that succeeds finds what the log has, and that what is received is not before the subscription.
pub follow-IsPrefix :
    (log : ℕ → Option Record) (reads : ℕ → Result ControllerError (Option Record))
    (start next accepts : ℕ) (events : List RecvEvent)
    → ((i : ℕ) → start ≤ i → i < next → (x : Option Record) → reads i ≡ ok x → x ≡ log i)
    → All (λ (r : Record). next ≤ r.seq_num) (received_of events)
    → IsPrefix
        (records_of (follow start next reads events accepts))
        (log_from log (next - start) start ++ received_of events)
unfolding follow
follow-IsPrefix log reads start next accepts events h l =
    follow-Sends next events (backfill (next - start) start reads accepts)
      (log_from log (next - start) start) l
      (backfill-Sends log reads (next - start) start accepts (λ i lo hi. h i lo (omega arith)))
