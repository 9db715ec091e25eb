-- ===== src/Recovery/Verified.antt =====
-- Verification of a directory that the archive writer left.
use pgvolvra.Base.{
  append-any, All-split, ◌≡◌, refl, sym, subst, Bool, true, false, not, ◌&&◌, Option, List, [], ◌∷◌,
  ◌++◌, Bytes, Assoc, All, any, arith,
}
use pgvolvra.Exec.{ok}
use pgvolvra.Format.{Change, Segment, Manifest, Platform, IsFaithful}
use pgvolvra.Lines.{Stream}
use pgvolvra.Archive.{Sys}
use pgvolvra.Archive.Segments.{core, cores}
use pgvolvra.Archive.History.{Filed}
use pgvolvra.Archive.Durable.{Durable}
use pgvolvra.Verify.{
  Verdict, Finding, fatal, fatal_verdict, out_of_order, Progress, check_segment, check_from,
  order_findings, verify_archive, start, unrecorded_files,
}
use pgvolvra.Verify.Judged.{Judged-judge}
use pgvolvra.Verify.Sound.{unrecorded_files-calm}
use pgvolvra.Recovery.Served.{
  Fits, directory, lines_of, Records-Opens, Records-Judged, read_manifest-directory,
}

unfoldable pub is_order : Verdict → Bool
is_order (out_of_order _ _) = true
is_order _ = false

-- A fatal finding other than that of the order of positions.
abbrev pub is_alarm : Finding → Bool
is_alarm f = fatal f && not (is_order f.verdict)

calm-quiet : (fs : List Finding) → any fatal fs ≡ false → any is_alarm fs ≡ false
calm-quiet [] h = refl
calm-quiet (f ∷ fs) h = ground (arith, h, calm-quiet fs)

module _ (p : Platform) (faithful : IsFaithful p) (D : Assoc Bytes)
    (r : Option (Assoc Stream)) where
  module _ (segs : List Segment) where
    order-quiet :
        (s : Segment) (prev_end : Bytes)
        → any is_alarm (order_findings p (directory D r) segs s prev_end) ≡ false
    unfolding order_findings is_order fatal_verdict
    order-quiet s prev_end = ground arith

    abbrev round : Progress → Segment → List Finding → Progress
    round st s order = record {
      findings = st.findings ++ [] ++ order;
      prev_chain = s.chain;
      prev_end = s.end_lsn;
    }

    -- The loop over segments that the directory holds.
    check_from-Filed :
        (st : Progress) (rest : List Segment) (cs : List Change)
        → All (Fits p) cs
        → Filed p D st.prev_chain (cores rest) cs
        → any is_alarm st.findings ≡ false
        → (st' : Progress) × (check_from p (directory D r) segs st rest ≡ ok st')
          × (any is_alarm st'.findings ≡ false)
    unfolding check_from check_segment
    check_from-Filed st [] cs fits h quiet = (st, refl, quiet)
    check_from-Filed st (s ∷ rest) cs fits (here, later, split, recorded, filed) quiet =
        let order = order_findings p (directory D r) segs s st.prev_end in
        let (mine, others) = All-split (Fits p) here later (subst (All (Fits p)) split fits) in
        let (f, opened, scanned) =
          Records-Opens p faithful D r st.prev_chain (core s) here mine recorded in
        let (st', e, still) = check_from-Filed (round st s order) rest later others filed (
          append-any is_alarm (st.findings ++ []) order
            (append-any is_alarm st.findings [] quiet refl) (order-quiet s st.prev_end)) in
        (
          st',
          rw
              (
                opened,
                scanned,
                Judged-judge p s st.prev_chain (lines_of p here)
                    (Records-Judged p faithful D r st.prev_chain (core s) here recorded),
              )
              e,
          still,
        )

module _ (p : Platform) (faithful : IsFaithful p) (hist : List Change) (s : Sys)
    (r : Option (Assoc Stream)) where
  -- The directory that the archive writer left verifies, whatever is in the bucket: the manifest
  -- read is the archive's, up to the upload state, and no finding but one on the order of positions
  -- is fatal. The condition is that the reader's buffer takes each record.
  pub verify_archive-Durable :
      All (Fits p) hist
      → Durable p hist s
      → (fs : List Finding) × (m : Manifest) × (verify_archive p (directory s.world.disk r)
          ≡ ok (fs, m))
        × (cores m.segments ≡ cores s.arch.man.segments)
        × (any is_alarm fs ≡ false)
  unfolding verify_archive
  verify_archive-Durable fits (b, l, _) =
      let D = s.world.disk in
      let (m, read, same) =
        read_manifest-directory p faithful D r s.arch.man.segments b.numbered l.names in
      let (st, checked, quiet) =
        check_from-Filed p faithful D r m.segments start m.segments l.recorded.sealed
          (All-split (Fits p) l.recorded.sealed l.recorded.unsealed
            (subst (All (Fits p)) l.recorded.whole fits)).0
          (subst (λ segs. Filed p D [] segs l.recorded.sealed) (sym same) l.recorded.filed) refl in
      (
        _,
        m,
        rw (read, checked) refl,
        same,
        append-any is_alarm st.findings (unrecorded_files (directory D r).dir m.segments) quiet
            (calm-quiet _ (unrecorded_files-calm (directory D r).dir m.segments)),
      )
