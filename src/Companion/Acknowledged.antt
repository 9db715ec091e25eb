-- ===== src/Companion/Acknowledged.antt =====
-- On what a run of the companion acknowledges (companion/main.go, cmdRun).
use pgvolvra.Base.{
  ℕ, ◌≡◌, refl, sym, subst, ◌⊎◌, inl, inr, Option, none, some, List, [], ◌++◌, Bytes, Assoc,
  is_empty, Bool-cases,
}
use pgvolvra.Exec.{Error, Outcome, ok, err}
use pgvolvra.Exec.Laws.{After}
use pgvolvra.Format.{Change, Platform, IsFaithful}
use pgvolvra.World.{World}
use pgvolvra.World.Laws.{At}
use pgvolvra.Remote.{Remote}
use pgvolvra.Archive.{Archive, Sys}
use pgvolvra.Archive.Writer.{close}
use pgvolvra.Archive.Opening.{open_archive}
use pgvolvra.Archive.Durable.{Durable, Safe}
use pgvolvra.Archive.Pending.{Nothing}
use pgvolvra.Archive.Sealed.{Resting, Clean, close-Clean, close-again}
use pgvolvra.Feed.Account.{Accounted}
use pgvolvra.Feed.Loop.{Going, Stuck, run-Accounted}
use pgvolvra.Feed.Run.{SlotState, Streaming}
use pgvolvra.Archive.Opened.{Unopened}
use pgvolvra.Archive.Reopened.{Divided, Usable, Continues, open_archive-Continues}
use pgvolvra.Companion.Prepared.{Started, prepare-Started}
use pgvolvra.Companion.Running.{
  open_source, Options, Outside, guard_of, new_stream, prepare, closing, closed_again, streamed,
  with_source, run_archive, opened_run, cmd_run,
}

module _ (p : Platform) (faithful : IsFaithful p) (slot : SlotState) (first : List Change) where
  -- Nothing was acknowledged; or the stream had started, and what it acknowledged is accounted for.
  abbrev pub Answerable : Streaming → Type 0
  Answerable st =
      (st.acked_all ≡ [])
      ⊎ ((start : ℕ) × (new : List Change) × Started p faithful slot first start
          × Accounted p faithful start (first ++ new) st)

  -- The same, and the archive has the first history with what was appended, all of it sealed.
  abbrev pub Ended : Streaming → Type 0
  Ended st =
      (start : ℕ) × Started p faithful slot first start
      × Going p faithful start first st
      × Resting st.feed.sys.arch

  module _ (o : Options) (out : Outside) where
    After-close :
        (start : ℕ) (new : List Change) (st : Streaming)
        → Started p faithful slot first start
        → Accounted p faithful start (first ++ new) st
        → (x : Outcome (Unit {0}) × Sys) → close p st.feed.sys ≡ x
        → After (λ _ s. Clean p faithful (first ++ new) s × Nothing p faithful s.arch) (Safe p) x
        → After (λ _. Ended) Answerable (closing p o out (ok tt, st))
    After-close start new st from a (ok c, s) e ((d, rests), _) =
        rw e (start, from, (new, d, a), rests)
    After-close start new st from a (err c, s) e h = rw e (inr (start, new, from, a))

    closing-Ended :
        (start : ℕ) (y : Outcome (Unit {0}) × Streaming)
        → Started p faithful slot first start
        → After (λ _. Going p faithful start first) (Stuck p faithful start first) y
        → After (λ _. Ended) Answerable (closing p o out y)
    closing-Ended start (ok r, st) from (new, d, a) =
        After-close start new st from a _ refl (close-Clean p faithful (first ++ new) st.feed.sys d)
    closing-Ended start (err e, st) from (new, h, a) = inr (start, new, from, a)

    streamed-Ended :
        (x : Outcome ℕ × Sys)
        → After (λ start s. Durable p first s × Started p faithful slot first start) (Safe p) x
        → After (λ _. Ended) Answerable (streamed p o out x)
    streamed-Ended (err e, s) h = inl refl
    streamed-Ended (ok start, s) (d, from) = closing-Ended start _ from (
        run-Accounted p faithful start first out.pk_columns (some (guard_of o)) out.turns
          (new_stream s) d)

  module _ (o : Options) (out : Outside) (own : out.slot_state ≡ slot) where
    with_source-Ended :
        (r : Outcome (Option Remote)) (s : Sys)
        → Durable p first s
        → After (λ _. Ended) Answerable (with_source p o out r s)
    with_source-Ended (err e) s d = inl refl
    with_source-Ended (ok r) s d = streamed-Ended o out (prepare p r out.slot_state s) (
        subst
          (λ sl.
            After (λ start s. Durable p first s × Started p faithful slot first start) (Safe p)
              (prepare p r sl s))
          (sym own) ((prepare-Started p faithful slot first r).at s d))

module _ (p : Platform) (faithful : IsFaithful p) (o : Options) (out : Outside) where
  module _ (kept : List Change) where
    -- Of a run that ended without an error the archive has its history, all of it sealed; of any run
    -- the acknowledgements are accounted for.
    abbrev pub Answers : Outcome (Unit {0}) → Streaming → Type 0
    Answers (err e) st = Answerable p faithful out.slot_state kept st
    Answers (ok r) st = Ended p faithful out.slot_state kept st

    closed_again-Answers :
        (y : Outcome (Unit {0}) × Streaming)
        → After
            (λ _. Ended p faithful out.slot_state kept)
            (Answerable p faithful out.slot_state kept)
            y
        → Answers (closed_again p o out y).0 (closed_again p o out y).1
    closed_again-Answers (ok r, st) (start, from, (new, d, a), rests) =
        let (d', rests') = close-again p faithful (kept ++ new) st.feed.sys (d, rests) in
        (start, from, (new, d', a), rests')
    closed_again-Answers (err e, st) h = h

    run_archive-Answers :
        (s : Sys) → Durable p kept s → Answers (run_archive p o out s).0 (run_archive p o out s).1
    unfolding run_archive
    run_archive-Answers s d =
        closed_again-Answers (with_source p o out (open_source o.dir o.bucket out.provider) s) (
          with_source-Ended p faithful out.slot_state kept o out refl
            (open_source o.dir o.bucket out.provider) s d)

  module _ (hist : List Change) (B D : Assoc Bytes) where
    -- A run that opened the archive has gone on with the history, or with the part of it that was sealed;
    -- one that did not has failed.
    abbrev pub Answered : Outcome (Unit {0}) × Option Streaming → Type 0
    Answered (r, none) = (e : Error) × (r ≡ err e)
    Answered (r, some st) =
        (kept : List Change) × (lost : List Change) × (hist ≡ kept ++ lost)
        × Divided p faithful hist B D kept lost
        × Answers kept r st

    opened_run-Answered :
        (x : Outcome Archive × World)
        → After (Continues p faithful hist B D) (Unopened p faithful B D) x
        → Answered (opened_run p o out x)
    opened_run-Answered (err e, w) h = (e, refl)
    opened_run-Answered (ok a, w) (kept, lost, whole, divided, d) =
        (kept, lost, whole, divided, run_archive-Answers kept (record { arch = a; world = w }) d)

    -- A run of the companion on a new directory, or on the directory and the bucket that an archive
    -- left with a history, with any calls that fail and over any turns of the stream: where it opens the
    -- archive, it goes on with that history, or with the changes of the sealed segments where an open
    -- one had some. Each position that it acknowledges to the server is the first one, which is the
    -- slot's own or the archive's, or that of the last change of a beginning of the history which a run
    -- of segments from the first held at the time of a status update: in the bucket with their hashes,
    -- where there is one, and named by the bucket's manifest. None is before an earlier one; and each
    -- position that the guard moved the slot to has a record in the history, which is marked as a gap
    -- and runs up to it. Where the run ends without an error, the archive has the history with what was
    -- appended durably, and all of it sealed.
    pub cmd_run-Answers :
        Usable p faithful hist B D → (w : World) → At p B D w → Answered (cmd_run p o out w)
    unfolding cmd_run
    cmd_run-Answers usable w h = elim (Bool-cases (is_empty o.dsn)) [
      | inl e ↦ rw e (_, refl)
      | inr e ↦ elim (Bool-cases (is_empty o.dir)) [
        | inl f ↦ rw (e, f) (_, refl)
        | inr f ↦
            rw (e, f)
              (opened_run-Answered (open_archive p o.slot o.publication o.segment_bytes w) (
                open_archive-Continues p faithful hist B D o.slot o.publication o.segment_bytes
                  usable w h))
      ]
    ]
