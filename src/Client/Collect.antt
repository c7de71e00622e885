-- ===== src/Client/Collect.antt =====
-- What `collect` makes of the items that the service sends.
use concrete.Prelude.{
  Bool, if◌then◌else◌, some, none, ◌≡◌, refl, sym, ap, ◌∙◌, List, [], ◌∷◌, ◌++◌, map, append_assoc,
  append-nil,
}
use concrete.Prelude.Result.{Result, ok, err}
use concrete.Record
use concrete.Grpc.{Status, StreamRecord, stream_record}
use concrete.Client.{Record, from, collect_loop, collect}

-- A record of the store, as the client shows it.
abbrev pub shown : Record.Record → Record
shown r = record { seq_num = r.seq_num; payload = r.payload }

pub collect_loop-ok :
    (seen : List Record) (rs : List Record.Record) (ended : Bool)
    → collect_loop seen (map stream_record (map ok rs)) ended
      ≡ (if ended then some (ok (seen ++ map shown rs)) else none)
unfolding collect_loop stream_record from
collect_loop-ok seen [] ended =
    ap (λ rs. if ended then some (ok rs) else none) (sym (append-nil seen))
collect_loop-ok seen (r ∷ rs) ended =
    collect_loop-ok (seen ++ shown r ∷ []) rs ended
    ∙ ap (λ rs. if ended then some (ok rs) else none)
        (append_assoc seen (shown r ∷ []) (map shown rs))

collect_loop-err :
    (seen : List Record) (rs : List Record.Record) (e : Status)
    (items : List (Result Status StreamRecord)) (ended : Bool)
    → collect_loop seen (map stream_record (map ok rs) ++ err e ∷ items) ended ≡ some (err e)
unfolding collect_loop stream_record from
collect_loop-err seen [] e items ended = refl
collect_loop-err seen (r ∷ rs) e items ended =
    collect_loop-err (seen ++ shown r ∷ []) rs e items ended

-- The first error among the items is the result of `collect`, whatever came before or comes after it, and also
-- where the stream stays open.
collect-err :
    (rs : List Record.Record) (e : Status) (items : List (Result Status StreamRecord))
    (ended : Bool)
    → collect (record {
      inner = record { items = map stream_record (map ok rs) ++ err e ∷ items; ended = ended };
    })
      ≡ some (err e)
unfolding collect
collect-err rs e items ended = collect_loop-err [] rs e items ended
