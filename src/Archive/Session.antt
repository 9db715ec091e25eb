-- ===== src/Archive/Session.antt =====
-- Any sequence of calls of the archive's methods, as the companion makes them: it stops at the first
-- error, except that a failed upload of its own is only logged (companion/stream.go, Run).
use pgvolvra.Base.{ap, some, Bool, List, [], ◌∷◌, ◌++◌, append_assoc, append-nil, subst, sym}
use pgvolvra.Exec.{Exec, ◌>>◌, pure, attempted}
use pgvolvra.Exec.Laws.{Triple, Triple-bind, Triple-weaken, Triple-pure, Triple-attempted}
use pgvolvra.Format.{Change, Platform, IsFaithful}
use pgvolvra.Archive.{Archive, use_remote, Sys}
use pgvolvra.Archive.Upload.{push_remote}
use pgvolvra.Archive.Writer.{append, rotate, close}
use pgvolvra.Remote.{Remote}
use pgvolvra.Archive.Durable.{Durable-intro, Triple-from, Durable, Safe}
use pgvolvra.Archive.Uploading.{settled}
use pgvolvra.Archive.Push.{push_remote-Durable}
use pgvolvra.Archive.Rotation.{rotate-Durable}
use pgvolvra.Archive.Appending.{append-Durable, close-Durable}

pub data Call : Type 0 where
  append_change : Change → Call
  rotate_now close_archive : Call
  push_pending : Bool → Call
  attach : Remote → Call

-- The changes that a sequence of calls appends.
abbrev pub appended : List Call → List Change
appended [] = []
appended (append_change c ∷ calls) = c ∷ appended calls
appended (rotate_now ∷ calls) = appended calls
appended (close_archive ∷ calls) = appended calls
appended (push_pending force ∷ calls) = appended calls
appended (attach r ∷ calls) = appended calls

module _ (p : Platform) where
  unfoldable pub run : List Call → Exec Sys (Unit {0})
  run [] = pure tt
  run (append_change c ∷ calls) = append p c >> run calls
  run (rotate_now ∷ calls) = rotate p >> run calls
  run (close_archive ∷ calls) = close p >> run calls
  run (push_pending force ∷ calls) = attempted (push_remote p force) >> run calls
  run (attach r ∷ calls) = use_remote r >> run calls

  pub use_remote-Durable :
      (r : Remote) (hist : List Change)
      → Triple (Durable p hist) (use_remote r) (λ _. Durable p hist) (Safe p)
  unfolding use_remote
  use_remote-Durable r hist = Triple-from p hist _ λ a B D b l. record {
    at = λ s h.
        Durable-intro p hist (record a { remote = some r }) B D
          (record { numbered = b.numbered; held = b.held; covered = b.covered; opened = b.opened })
          (record {
            names = l.names;
            marks = l.marks;
            recorded = record {
              sealed = l.recorded.sealed;
              unsealed = l.recorded.unsealed;
              whole = l.recorded.whole;
              filed = l.recorded.filed;
              open_file = l.recorded.open_file;
            };
          })
          (record s { arch = record s.arch { remote = some r } })
          (ap (λ (a : Archive). record a { remote = some r }) h.0, h.1);
  }

  module _ (faithful : IsFaithful p) where
    pub run-Durable :
        (calls : List Call) (hist : List Change)
        → Triple (Durable p hist) (run calls) (λ _. Durable p (hist ++ appended calls)) (Safe p)
    unfolding run
    run-Durable [] hist =
        Triple-pure tt (λ s h. subst (λ l. Durable p l s) (sym (append-nil hist)) h)
    run-Durable (append_change c ∷ calls) hist =
        Triple-bind _ _ (append-Durable p faithful hist c) λ _.
          Triple-weaken (run calls) (run-Durable calls (hist ++ c ∷ [])) (λ s h. h)
            (λ _ s h. subst (λ l. Durable p l s) (append_assoc hist (c ∷ []) (appended calls)) h)
            (λ s h. h)
    run-Durable (rotate_now ∷ calls) hist =
        Triple-bind _ _ (rotate-Durable p faithful hist) λ _. run-Durable calls hist
    run-Durable (close_archive ∷ calls) hist =
        Triple-bind _ _ (close-Durable p faithful hist) λ _. run-Durable calls hist
    run-Durable (push_pending force ∷ calls) hist =
        Triple-bind _ _
          (Triple-weaken (attempted (push_remote p force))
            (Triple-attempted _ (push_remote-Durable p faithful hist force)) (λ s h. h)
            (λ r s h. settled p faithful hist r s h) (λ s h. h))
          λ _. run-Durable calls hist
    run-Durable (attach r ∷ calls) hist =
        Triple-bind _ _ (use_remote-Durable r hist) λ _. run-Durable calls hist
