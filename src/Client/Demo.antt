-- ===== src/Client/Demo.antt =====
-- crates/slatestreams-client/src/main.rs: what the demonstration prints, at a server that runs.
use concrete.Prelude.{
  Bool, if◌then◌else◌, ℕ, zero, suc, ◌+◌, ◌≡◌, ap, ◌∙◌, List, [], ◌∷◌, ◌++◌, map, length, arith,
}
use concrete.Prelude.Result.{Result, ok, err, panic}
use concrete.Text.{Str, text}
use concrete.Grpc.{Status, StreamRecord}
use concrete.Client
use concrete.Client.{StreamServiceClient, RecordStream, Record, from, data_as_str}

-- A line of the output, by what it shows.
pub data Line : Type 0 where
  appended : ℕ → Line
  basins streams : List Str → Line
  reading : Line
  one_record : ℕ → Str → Line
  error : Status → Line
  ended timed_out : Line

-- `data_as_str().unwrap_or("<binary>")`
abbrev pub text_or_binary : Record → Str
text_or_binary r = elim (data_as_str r) [
  | ok s ↦ s
  | err e ↦ text "<binary>"
  | panic ↦ text "<binary>"
]

-- The `loop`: `before` is the number of items that come before the timeout, which also ends the wait
-- for a stream that stays open.
pub print_loop : ℕ → List (Result Status StreamRecord) → Bool → List Line
print_loop zero items over = timed_out ∷ []
print_loop (suc before) [] over = if over then ended ∷ [] else timed_out ∷ []
print_loop (suc before) (ok r ∷ items) over =
    one_record r.seq_num (text_or_binary (from r)) ∷ print_loop before items over
print_loop (suc before) (err e ∷ items) over = error e ∷ []
print_loop (suc before) (panic ∷ items) over = []

-- One `?`: the lines so far, and the rest of `main`.
abbrev pub then_print :
    {A S : Type 0}
    → Result Status A × S
    → (A → S → List Line × Result Status (Unit {0}))
    → List Line × Result Status (Unit {0})
then_print (ok a, s) rest = rest a s
then_print (err e, s) rest = ([], err e)
then_print (panic, s) rest = ([], panic)

abbrev pub line : Line → List Line × Result Status (Unit {0}) → List Line × Result Status (Unit {0})
line l (lines, r) = (l ∷ lines, r)

module _ (C : StreamServiceClient) where
  -- `main`, once it is connected
  unfoldable pub main : ℕ → C.State → List Line × Result Status (Unit {0})
  unfolding print_loop
  main before s =
      then_print (Client.append C s (text "test") (text "events") (text "hello world")) (λ seq s.
        line (appended seq) (
          then_print (Client.append C s (text "test") (text "events") (text "second message"))
            (λ seq s. line (appended seq) (
              then_print (Client.list_basins C s) (λ names s. line (basins names) (
                then_print (Client.list_streams C s (text "test")) (λ names s.
                  line (streams names) (
                    line reading (
                      then_print (Client.read C s (text "test") (text "events") 0) (λ stream s.
                        (print_loop before stream.inner.items stream.inner.ended, ok tt)))))))))))

-- The loop prints every record that comes before the timeout, in order.
pub print_loop-records :
    (rs : List StreamRecord) (more : ℕ) (items : List (Result Status StreamRecord)) (over : Bool)
    → print_loop (length rs + more) (map ok rs ++ items) over
      ≡ map (λ (r : StreamRecord). one_record r.seq_num (text_or_binary (from r))) rs
        ++ print_loop more items over
unfolding print_loop
print_loop-records [] more items over =
    let none_first : 0 + more ≡ more = omega arith in ap (λ n. print_loop n items over) none_first
print_loop-records (r ∷ rs) more items over =
    let one_first : length (r ∷ rs) + more ≡ suc (length rs + more) = omega arith in
    ap (λ n. print_loop n (map ok (r ∷ rs) ++ items) over) one_first
    ∙ ap (◌∷◌ (one_record r.seq_num (text_or_binary (from r))))
        (print_loop-records rs more items over)
