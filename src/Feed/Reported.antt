-- ===== src/Feed/Reported.antt =====
-- On the position that the status report acknowledges (companion/stream.go, Run).
use pgvolvra.Base.{
  [], ◌++◌, sym, ap, ◌∙◌, append_assoc, append-nil, ℕ, ◌≤◌, arith, ◌≡◌, refl, subst, ◌⊎◌, inl, inr,
  false, Option, none, some, List, Bytes, last?, ltb, Option-cases, Bool-cases,
}
use mathlib.Core.List.{map-append}
use pgvolvra.Exec.{send_status, attempted, gets, pure, ◌>>◌}
use pgvolvra.Exec.Laws.{
  After, Triple, Triple-bind, Triple-weaken, Triple-attempted, Triple-pure, Triple-any,
}
use pgvolvra.Format.{Segment, Change, Platform, IsFaithful}
use pgvolvra.World.{touch}
use pgvolvra.World.Laws.{touch-At}
use pgvolvra.Archive.{Archive, Sys, in_world, resume_lsn, end_of}
use pgvolvra.Archive.Upload.{push_remote}
use pgvolvra.Archive.State.{Triple-in_world, Triple-gets}
use pgvolvra.Archive.Segments.{HoldsAll, core, cores, last_end-end_of}
use pgvolvra.Archive.History.{Filed, Filed-first, Filed-ends}
use pgvolvra.Archive.Positions.{last_lsn}
use pgvolvra.Archive.Durable.{Durable, Durable-intro, Safe, Triple-from}
use pgvolvra.Archive.Uploading.{settled}
use pgvolvra.Archive.Push.{push_remote-Durable}
use pgvolvra.Archive.Writer.{rotate}
use pgvolvra.Archive.Rotation.{rotate-Durable}
use pgvolvra.Archive.Resume.{Manifested, resume_lsn-Recoverable}
use pgvolvra.Feed.{durable_position, report_status}

module _ (p : Platform) (faithful : IsFaithful p) (hist : List Change) (acked : ℕ) where
  -- The segments are in the bucket, each with its hash, and the bucket's own manifest names them; or
  -- there is no bucket, and they are all that the archive has.
  abbrev pub Secured : Sys → List Segment → List Segment → Type 0
  Secured s done rest =
      (HoldsAll p s.world.bucket done × ((done ≡ []) ⊎ Manifested p s done))
      ⊎ ((s.arch.remote ≡ none) × (rest ≡ []))

  -- The archive has everything up to the position: it is that of the last change of a beginning of the
  -- history, whose changes are those of a run of secured segments from the first, each in the segment's
  -- file and with the segment's hash.
  abbrev pub Kept : Sys → Bytes → Type 0
  Kept s lsn =
      (done : List Segment) × (rest : List Segment) × (upto : List Change) × (later : List Change)
      × (s.arch.man.segments ≡ done ++ rest)
      × (hist ≡ upto ++ later)
      × Filed p s.world.disk [] (cores done) upto
      × (lsn ≡ last_lsn [] upto)
      × Secured s done rest

  Kept-intro :
      (s : Sys) (done rest : List Segment) (lsn : Bytes)
      → Durable p hist s
      → s.arch.man.segments ≡ done ++ rest
      → lsn ≡ end_of (last? done)
      → Secured s done rest
      → Kept s lsn
  Kept-intro s done rest lsn d split ends secured =
      let r = d.1.recorded in
      let (upto, later, e, filed) =
        Filed-first p s.world.disk [] (cores done) (cores rest) r.sealed (
          subst (λ segs. Filed p s.world.disk [] segs r.sealed)
            (ap cores split ∙ map-append core done rest) r.filed) in
      (
        done,
        rest,
        upto,
        later ++ r.unsealed,
        split,
        r.whole ∙ ap (λ cs. cs ++ r.unsealed) e ∙ append_assoc upto later r.unsealed,
        filed,
        ends ∙ sym (last_end-end_of done) ∙ Filed-ends p s.world.disk [] [] done upto filed,
        secured,
      )

  pub resume_lsn-Kept : (s : Sys) → Durable p hist s → Kept s (resume_lsn s.arch)
  unfolding resume_lsn
  resume_lsn-Kept s d = elim (Option-cases s.arch.remote) [
    | inl e ↦
        Kept-intro s s.arch.man.segments [] _ d (sym (append-nil s.arch.man.segments)) (rw e refl)
          (inr (e, refl))
    | inr (r, e) ↦
        let (done, rest, split, ends, all, named) = resume_lsn-Recoverable p s r e (d.0, d.2) in
        Kept-intro s done rest _ d split ends (inl (all, named))
  ]

  -- The position acknowledged before, or one that the archive has everything up to.
  abbrev pub Acknowledged : ℕ → Sys → Type 0
  Acknowledged pos s =
      Durable p hist s
      × ((pos ≡ acked) ⊎ ((lsn : Bytes) × (p.parse_lsn lsn ≡ some pos) × Kept s lsn))

  durable_position-cases :
      (o : Option ℕ)
      → (durable_position p acked o ≡ acked) ⊎ (o ≡ some (durable_position p acked o))
  unfolding durable_position
  durable_position-cases none = inl refl
  durable_position-cases (some pos) = elim (Bool-cases (ltb acked pos)) [
    | inl e ↦ inr (rw e refl)
    | inr e ↦ inl (rw e refl)
  ]

  acknowledge :
      (a : Archive) (s : Sys)
      → s.arch ≡ a
      → Durable p hist s
      → Acknowledged (durable_position p acked (p.parse_lsn (resume_lsn a))) s
  acknowledge a s e d =
      subst (λ a. Acknowledged (durable_position p acked (p.parse_lsn (resume_lsn a))) s) e
        (
          d,
          elim (durable_position-cases (p.parse_lsn (resume_lsn s.arch))) [
            | inl same ↦ inl same
            | inr read ↦ inr (resume_lsn s.arch, read, resume_lsn-Kept s d)
          ],
        )

  pub report_status-Acknowledged :
      Triple (Durable p hist) (report_status p acked) Acknowledged (Safe p)
  unfolding report_status
  report_status-Acknowledged = Triple-bind _ _ (rotate-Durable p faithful hist) λ _.
      Triple-bind _ _
        (Triple-weaken (attempted (push_remote p false))
          (Triple-attempted _ (push_remote-Durable p faithful hist false)) (λ s h. h)
          (λ r s h. settled p faithful hist r s h) (λ s h. h))
        λ _. Triple-from p hist _ λ a B D b l.
          Triple-gets p (λ a. a)
            (λ a.
              in_world (touch send_status)
              >> pure (durable_position p acked (p.parse_lsn (resume_lsn a))))
            (Triple-bind _ _
              (Triple-weaken _ (Triple-in_world _ (touch-At p B D send_status) a) (λ s h. h)
                (λ _ s h. h) (λ s h. let d = Durable-intro p hist a B D b l s h in (d.0, d.2)))
              λ _. Triple-pure _ (λ s h. acknowledge a s h.0 (Durable-intro p hist a B D b l s h)))

  -- A status report that succeeds keeps the history, and acknowledges the position of before, or that
  -- of the last change of a beginning of the history which a run of segments from the first holds: with
  -- a bucket, segments that the bucket has with their hashes and that its own manifest names; without
  -- one, all the sealed segments. Uploads that fail do not stop it.
  pub report_status-Kept :
      (s : Sys) → Durable p hist s → After Acknowledged (Safe p) (report_status p acked s)
  report_status-Kept s h = report_status-Acknowledged.at s h

-- The acknowledged position does not go back.
module _ (p : Platform) (acked : ℕ) where
  le-durable_position : (o : Option ℕ) → acked ≤ durable_position p acked o
  unfolding durable_position
  le-durable_position none = omega arith
  le-durable_position (some pos) = ground arith

  pub le-report_status :
      Triple (λ _. Unit {0}) (report_status p acked) (λ pos _. acked ≤ pos) (λ _. Unit {0})
  unfolding report_status
  le-report_status = Triple-bind _ _ (Triple-any (rotate p)) λ _.
      Triple-bind _ _ (Triple-any (attempted (push_remote p false))) λ _.
        Triple-bind _ _ (Triple-any (gets (λ s. s.arch))) λ a.
          Triple-bind _ _ (Triple-any (in_world (touch send_status)))
            λ _. Triple-pure _ (λ s h. le-durable_position (p.parse_lsn (resume_lsn a)))
