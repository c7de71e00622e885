-- ===== src/Controller/Follow.antt =====
-- stream_controller.rs: the task of `read_follow`, which sends the records that are stored and then
-- those that are appended.
pub mod Order
pub mod Complete
use concrete.Prelude.{
  Bool, true, false, ℕ, zero, suc, ◌+◌, ◌-◌, Option, none, some, List, [], ◌∷◌, ◌++◌, leb,
  if◌then◌else◌,
}
use concrete.Prelude.Result.{Result, ok, err, panic}
use concrete.Record.{Record}
use concrete.Controller.{ControllerError, reader_lagged}

-- What `recv` of a broadcast receiver returns.
pub data RecvEvent : Type 0 where
  received : Record → RecvEvent
  lagged : ℕ → RecvEvent
  closed : RecvEvent

abbrev pub Item : Type 0
Item = Result ControllerError Record

-- `tx.send(Err(..))` before a `return`: the item, unless the client has gone.
abbrev pub last_item : ℕ → ControllerError → List Item
last_item zero e = []
last_item (suc accepts) e = err e ∷ []

-- `tx.send(Ok(..))`: where the client has gone, the task returns.
abbrev pub send : ℕ → Record → (ℕ → List Item × Option ℕ) → List Item × Option ℕ
send zero r rest = ([], none)
send (suc accepts) r rest = let (items, left) = rest accepts in (ok r ∷ items, left)

-- One answer in the `for`, and what follows it.
abbrev pub round :
    Result ControllerError (Option Record) → ℕ → (ℕ → List Item × Option ℕ) → List Item × Option ℕ
round (ok (some r)) accepts rest = send accepts r rest
round (ok none) accepts rest = rest accepts
round (err e) accepts rest = (last_item accepts e, none)
round panic accepts rest = ([], none)

-- The `for` over the numbers that were taken when the subscription was made: `count` of them, from
-- `seq_num` on. `reads n` is the answer to the read of `n`, and `accepts` the number of items that
-- the client takes before it goes. The second component is what is left of these, or `none` where
-- the task has returned.
unfoldable pub backfill :
    ℕ → ℕ → (ℕ → Result ControllerError (Option Record)) → ℕ → List Item × Option ℕ
backfill zero seq_num reads accepts = ([], some accepts)
backfill (suc count) seq_num reads accepts =
    round (reads seq_num) accepts (backfill count (seq_num + 1) reads)

-- The `loop` over the receiver's events. At the end of the list the task waits for more.
unfoldable pub live : ℕ → List RecvEvent → ℕ → List Item × Option ℕ
live next_seq_num [] accepts = ([], some accepts)
live next_seq_num (received r ∷ events) accepts =
    let rest = live next_seq_num events in
    if leb next_seq_num r.seq_num then send accepts r rest else rest accepts
live next_seq_num (lagged n ∷ events) accepts = (last_item accepts reader_lagged, none)
live next_seq_num (closed ∷ events) accepts = ([], none)

unfoldable pub follow_live : ℕ → List RecvEvent → List Item × Option ℕ → List Item
follow_live next_seq_num events (items, none) = items
follow_live next_seq_num events (items, some accepts) =
    items ++ (live next_seq_num events accepts).0

-- The items that the client of `read_follow` gets.
unfoldable pub follow :
    ℕ → ℕ → (ℕ → Result ControllerError (Option Record)) → List RecvEvent → ℕ → List Item
unfolding follow_live
follow start_seq_num next_seq_num reads events accepts =
    follow_live next_seq_num events
      (backfill (next_seq_num - start_seq_num) start_seq_num reads accepts)

-- Whether the task has returned, and with it the client's stream has ended; if not, the stream stays
-- open for what the receiver gets next.
unfoldable pub has_returned : Option ℕ → Bool
has_returned none = true
has_returned (some accepts) = false

unfoldable pub live_returned : ℕ → List RecvEvent → Option ℕ → Bool
unfolding has_returned
live_returned next_seq_num events none = true
live_returned next_seq_num events (some accepts) = has_returned (live next_seq_num events accepts).1

unfoldable pub follow_returned :
    ℕ → ℕ → (ℕ → Result ControllerError (Option Record)) → List RecvEvent → ℕ → Bool
unfolding live_returned
follow_returned start_seq_num next_seq_num reads events accepts =
    live_returned next_seq_num events
      (backfill (next_seq_num - start_seq_num) start_seq_num reads accepts).1
