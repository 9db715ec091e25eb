-- ===== src/Feed/Growing.antt =====
-- On the history behind any message of the stream (companion/stream.go, handle).
use pgvolvra.Base.{
  ℕ, ◌≡◌, refl, sym, subst, false, Option, none, some, List, [], ◌++◌, append-nil, Bytes,
}
use pgvolvra.Exec.{query, modify}
use pgvolvra.Exec.Laws.{Triple, Triple-bind, Triple-weaken}
use pgvolvra.Format.{Change, Platform, IsFaithful}
use pgvolvra.World.{touch}
use pgvolvra.Archive.{in_world}
use pgvolvra.Archive.Durable.{Durable, Safe, touch-Durable}
use pgvolvra.Feed.{
  Message, relation_message, begin_message, insert_message, update_message, delete_message,
  truncate_message, other_message, Feed, in_sys, handle_message, handle, learn,
}
use pgvolvra.Feed.Emitted.{After-in_sys}
use pgvolvra.Feed.Handled.{handle-Grown, is_relation}

module _ (p : Platform) (faithful : IsFaithful p) (pk_columns : ℕ → List Bytes) (start : ℕ)
    (hist : List Change) where
  -- The history with some changes after it.
  abbrev pub Longer : Feed → Type 0
  Longer st = (more : List Change) × Durable p (hist ++ more) st.sys

  abbrev pub Grows : Option Message → Type 0
  Grows m =
      Triple (λ st. Durable p hist st.sys) (handle p pk_columns start m) (λ _. Longer)
        (λ st. Safe p st.sys)

  row-Grows :
      (m : Message)
      → ((f : Feed) → is_relation p faithful f.skip_to f.rels m ≡ false)
      → Grows (some m)
  row-Grows m e = record {
    at = λ st h.
        (Triple-weaken (handle p pk_columns start (some m))
            (handle-Grown p faithful st.skip_to st.rels pk_columns
              (record { number = st.xid; committed = st.commit_ts }) hist start m (e st))
            (λ s h. h) (λ _ s (more, kept, _). (more, kept.0)) (λ s h. h)).at
          st (h, (refl, refl, refl, refl));
  }

  unchanged-Longer : (st : Feed) → Durable p hist st.sys → Longer st
  unchanged-Longer st h = ([], subst (λ l. Durable p l st.sys) (sym (append-nil hist)) h)

  pub handle-Grows : (m : Option Message) → Grows m
  unfolding handle handle_message
  handle-Grows none = record { at = λ st h. (h.0, h.2) }
  handle-Grows (some (relation_message n schema name cols)) =
      Triple-bind (in_sys (in_world (touch query)))
        (λ _. modify (learn p pk_columns n schema name cols))
        (record {
          at = λ st h.
              After-in_sys (λ _. Durable p hist) (Safe p) (λ _. Unit {0}) (in_world (touch query))
                st (λ s. tt) _ refl ((touch-Durable p hist query).at st.sys h);
        })
        λ _. record { at = λ st h. unchanged-Longer (learn p pk_columns n schema name cols st) h.0 }
  handle-Grows (some (begin_message xid t)) = row-Grows (begin_message xid t) (λ f. refl)
  handle-Grows (some (insert_message n t)) = row-Grows (insert_message n t) (λ f. refl)
  handle-Grows (some (update_message n old t)) = row-Grows (update_message n old t) (λ f. refl)
  handle-Grows (some (delete_message n t)) = row-Grows (delete_message n t) (λ f. refl)
  handle-Grows (some (truncate_message ns)) = row-Grows (truncate_message ns) (λ f. refl)
  handle-Grows (some other_message) = row-Grows other_message (λ f. refl)
