-- ===== src/Controller/Log/Start.antt =====
-- Where the log of a stream starts: a new stream has the empty log, and a stream that is loaded has
-- the log of the handle that was lost, some numbers further on.
use concrete.Prelude.{ℕ, ◌≤◌, ◌≡◌, refl, sym, ap, ◌∙◌, inl, inr, none, arith, Option-cases}
use mathlib.Core.Option.{some-ne-none}
use concrete.Bytes.{Buffers, IsU128}
use concrete.Text.{Str}
use concrete.Prelude.Result.{ok}
use concrete.Storage.Interface.{Storage}
use concrete.Storage.Laws.{Contents, IsStorage}
use concrete.Stream.{Stream, StreamMetadata, new, load, next_seq_num, construct_stream_record_key}
use concrete.Stream.Append.{record_key}
use concrete.Stream.Recovery.{IsDurable, HasRoom}
use concrete.Stream.Recovery.Run.{IsSafe}
use concrete.Stream.Recovery.Restart.{same_metadata, restart-next, restart-IsDurable}
use concrete.Stream.Create.{new-IsSafe}
use concrete.Controller.Log.{Log, empty_log}
use concrete.Controller.Log.Represents.{Represents}

module _ ⦃b : Buffers⦄ where
  empty-Represents :
      (m : Contents) (s : Stream) → IsDurable m s → next_seq_num s ≡ 0 → Represents m s empty_log
  empty-Represents m s d zero_next = record {
    ready = d.ready;
    next = zero_next;
    entries = λ n hn. elim (Option-cases (m (record_key s n))) [
      | inl missing ↦ missing
      | inr (v, there) ↦ absurd (omega (arith, d.below n hn (λ e. some-ne-none v (sym there ∙ e))))
    ];
    below = λ n le. refl;
  }

  module _ (M R : Storage) (LM : IsStorage M) (LR : IsStorage R) (name : Str) where
    -- A stream that is made with an id under which the record store has no record has the empty log.
    pub new-Represents :
        (basin id : ℕ) (meta : M.State) (records : R.State) (s : Stream)
        → IsU128 basin
        → IsU128 id
        → ((n : ℕ) → LR.contents records (construct_stream_record_key basin id n) ≡ none)
        → (new M R basin name id meta records).0 ≡ ok s
        → Represents (LR.contents (new M R basin name id meta records).2) s empty_log
    new-Represents basin id meta records s hb hi fresh e =
        let (safe, zero_next) = new-IsSafe M R basin name id meta records LM LR s hb hi fresh e in
        empty-Represents _ s safe.durable zero_next

    -- A restart keeps the log of a stream whose block is stored: a loaded handle has its entries, and a next number at
    -- or behind the one that was lost.
    pub load-Represents :
        (meta : M.State) (records : R.State) (s t : Stream) (l : Log)
        → IsSafe M R LM LR name meta s records
        → HasRoom s
        → Represents (LR.contents records) s l
        → load M R s.metadata.basin_id name meta records ≡ ok t
        → Represents (LR.contents records) t (record l { next = next_seq_num t })
          × (l.next ≤ next_seq_num t)
    load-Represents meta records s t l safe room h loaded =
        let same =
          same_metadata M R LM LR name meta s t records safe.durable room safe.named loaded in
        let further =
          restart-next M R LM LR name meta s t records safe.durable room safe.named loaded in
        let durable =
          restart-IsDurable M R LM LR name meta s t records safe.durable room safe.named loaded in
        (
          record {
            ready = durable.ready;
            next = refl;
            entries = λ n hn.
                ap
                  (λ (m : StreamMetadata).
                    LR.contents records (construct_stream_record_key m.basin_id m.stream_id n))
                  same
                ∙ h.entries n hn;
            below = λ n le. h.below n (omega (arith, further, h.next));
          },
          omega (arith, further, h.next),
        )
