-- ===== src/Verify/Sound.antt =====
-- On what a verification without a fatal finding says of an archive (companion/verify.go).
use pgvolvra.Base.{
  any-append, any-last, Option, Assoc, ◌↔◌, none, some, ◌≡◌, refl, sym, ◌∙◌, ap, subst, true, false,
  List, [], ◌∷◌, ◌++◌, append-nil, Bytes, any, arith,
}
use pgvolvra.Exec.{Outcome, ok, err}
use pgvolvra.Exec.Laws.{ok-injective, and_then-ok}
use pgvolvra.Format.{Segment, Manifest, Platform}
use pgvolvra.Lines.{Stream, Ending, clean, oversize, io_error, scan}
use pgvolvra.Source.{Source, open_source, read_manifest}
use pgvolvra.Verify.{
  verify_read, completed, missing, unreadable, noted, Verdict, passed, Finding, fatal,
  fatal_verdict, found_in, judge, Progress, check_segment, check_from, order_findings,
  verify_archive, start, unrecorded_files, unrecorded_in, judge_scanned, check_opened,
}
use pgvolvra.Verify.Order.{Ordered, order_findings_iff}
use pgvolvra.Verify.Judged.{Judged, judge-Judged, Judged-judge}

module _ (p : Platform) (src : Source) (segs : List Segment) where
  -- The member opens, and is these lines to its end.
  abbrev pub Opens : Bytes → List Bytes → Type 0
  Opens name lines =
      (f : Stream) × (open_source src name ≡ ok f)
      × (scan f ≡ record { lines = lines; ending = clean })

  abbrev pub Intact : Bytes → Segment → Type 0
  Intact prev s = (lines : List Bytes) × Opens s.file lines × Judged p prev s lines

  -- The segments are intact, linked into one chain behind `prev`, and `Ordered`: no start of one, as a
  -- text, sorts before the end of the one before it, `prev_end` for the first, unless one of these is
  -- missing or a gap is recorded there.
  abbrev pub IntactFrom : Bytes → Bytes → List Segment → Type 0
  IntactFrom prev prev_end [] = Unit
  IntactFrom prev prev_end (s ∷ rest) =
      Intact prev s × Ordered p src segs s prev_end × IntactFrom s.chain s.end_lsn rest

  -- What a round without a fatal finding leaves.
  record Round (st : Progress) (s : Segment) (st' : Progress) : Type 0 where
    calm : any fatal st.findings ≡ false
    intact : Intact st.prev_chain s
    ordered : order_findings p src segs s st.prev_end ≡ []
    chain_is : st'.prev_chain ≡ s.chain
    end_is : st'.prev_end ≡ s.end_lsn

  order-calm :
      (s : Segment) (prev_end : Bytes)
      → any fatal (order_findings p src segs s prev_end) ≡ false
      → order_findings p src segs s prev_end ≡ []
  unfolding order_findings fatal_verdict
  order-calm s prev_end calm = ground (arith, calm)

  Round-judged :
      (st : Progress) (s : Segment) (lines : List Bytes) (st' : Progress) (order : List Finding)
      → order ≡ order_findings p src segs s st.prev_end
      → Opens s.file lines
      → (r : Outcome (List Finding)) → judge p s st.prev_chain lines ≡ r
      → passed p st s order r ≡ ok st'
      → any fatal st'.findings ≡ false
      → Round st s st'
  Round-judged st s lines st' order o opens (err x) j e calm = absurd (ground (arith, e))
  Round-judged st s lines st' order o opens (ok fs) j e calm =
      let after = sym (ok-injective _ _ e) in
      let (both, in_order) =
        any-append fatal (st.findings ++ fs) order
          (subst (λ r. any fatal r.findings ≡ false) after calm) in
      let (before, judged) = any-append fatal st.findings fs both in
      record {
        calm = before;
        intact = (lines, opens, (judge-Judged p s st.prev_chain lines fs j judged).0);
        ordered = order-calm s st.prev_end (subst (λ o. any fatal o ≡ false) o in_order);
        chain_is = ap (λ r. r.prev_chain) after;
        end_is = ap (λ r. r.prev_end) after;
      }

  -- A fatal finding was added.
  noted-fatal :
      (st : Progress) (s : Segment) (v : Verdict) (st' : Progress)
      → fatal_verdict v ≡ true
      → noted p st s v ≡ ok st'
      → any fatal st'.findings ≡ true
  noted-fatal st s v st' bad e =
      subst (λ r. any fatal r.findings ≡ true) (ok-injective _ _ e)
        (any-last fatal st.findings (found_in s v) bad)

  Round-scanned :
      (st : Progress) (s : Segment) (f : Stream) (ls : List Bytes) (end : Ending) (st' : Progress)
      → open_source src s.file ≡ ok f
      → scan f ≡ record { lines = ls; ending = end }
      → judge_scanned p src segs st s (record { lines = ls; ending = end }) end ≡ ok st'
      → any fatal st'.findings ≡ false
      → Round st s st'
  unfolding fatal_verdict
  Round-scanned st s f ls clean st' opened scanned e calm =
      Round-judged st s ls st' _ refl (f, opened, scanned) _ refl e calm
  Round-scanned st s f ls oversize st' opened scanned e calm =
      absurd (ground (arith, calm, noted-fatal st s (unreadable oversize) st' refl e))
  Round-scanned st s f ls io_error st' opened scanned e calm =
      absurd (ground (arith, calm, noted-fatal st s (unreadable io_error) st' refl e))

  Round-opened :
      (st : Progress) (s : Segment) (st' : Progress) (f : Outcome Stream)
      → open_source src s.file ≡ f
      → check_opened p src segs st s f ≡ ok st'
      → any fatal st'.findings ≡ false
      → Round st s st'
  unfolding fatal_verdict
  Round-opened st s st' (err x) opened e calm =
      absurd (ground (arith, calm, noted-fatal st s (missing x) st' refl e))
  Round-opened st s st' (ok f) opened e calm =
      Round-scanned st s f (scan f).lines (scan f).ending st' opened refl e calm

  check_segment-Round :
      (st : Progress) (s : Segment) (st' : Progress)
      → check_segment p src segs st s ≡ ok st'
      → any fatal st'.findings ≡ false
      → Round st s st'
  unfolding check_segment
  check_segment-Round st s st' e calm = Round-opened st s st' _ refl e calm

  pub check_from-IntactFrom :
      (st : Progress) (rest : List Segment) (st' : Progress)
      → check_from p src segs st rest ≡ ok st'
      → any fatal st'.findings ≡ false
      → (any fatal st.findings ≡ false) × IntactFrom st.prev_chain st.prev_end rest
  unfolding check_from
  check_from-IntactFrom st [] st' e calm =
      (subst (λ r. any fatal r.findings ≡ false) (sym (ok-injective _ _ e)) calm, tt)
  check_from-IntactFrom st (s ∷ rest) st' e calm =
      let (mid, here, e) =
        and_then-ok (check_segment p src segs st s) (λ mid. check_from p src segs mid rest) st' e in
      let (between, later) = check_from-IntactFrom mid rest st' e calm in
      let round = check_segment-Round st s mid here between in
      (
        round.calm,
        (
          round.intact,
          (order_findings_iff p src segs s st.prev_end).0 round.ordered,
          subst (λ c. IntactFrom c s.end_lsn rest) round.chain_is
              (subst (λ n. IntactFrom mid.prev_chain n rest) round.end_is later),
        ),
      )

  abbrev behind : Progress → Segment → Progress
  behind st s = record { findings = st.findings; prev_chain = s.chain; prev_end = s.end_lsn }

  -- The other way: intact segments in order add no finding.
  pub IntactFrom-check_from :
      (st : Progress) (rest : List Segment)
      → IntactFrom st.prev_chain st.prev_end rest
      → (st' : Progress) × (check_from p src segs st rest ≡ ok st') × (st'.findings ≡ st.findings)
  unfolding check_from check_segment
  IntactFrom-check_from st [] h = (st, refl, refl)
  IntactFrom-check_from st (s ∷ rest) ((lines, (f, opened, scanned), judged), ordered, later) =
      let (st', e, same) = IntactFrom-check_from (behind st s) rest later in
      (
        st',
        rw
            (
              opened,
              scanned,
              Judged-judge p s st.prev_chain lines judged,
              (order_findings_iff p src segs s st.prev_end).1 ordered,
              append-nil,
              append-nil,
            )
            e,
        same,
      )

unrecorded-calm :
    (segs : List Segment) (files : Assoc Stream) → any fatal (unrecorded_in segs files) ≡ false
unfolding unrecorded_in fatal_verdict
unrecorded-calm segs [] = refl
unrecorded-calm segs ((name, f) ∷ files) = ground (arith, unrecorded-calm segs files)

pub unrecorded_files-calm :
    (dir : Option (Assoc Stream)) (segs : List Segment)
    → any fatal (unrecorded_files dir segs) ≡ false
unfolding unrecorded_files
unrecorded_files-calm none segs = refl
unrecorded_files-calm (some files) segs = unrecorded-calm segs files

module _ (p : Platform) (src : Source) where
  completed-IntactFrom :
      (m : Manifest) (st : Progress)
      → check_from p src m.segments start m.segments ≡ ok st
      → (any fatal (completed p src m st).0 ≡ false) ↔ IntactFrom p src m.segments [] [] m.segments
  completed-IntactFrom m st checked = (
    (λ calm.
        (check_from-IntactFrom p src m.segments start m.segments st checked
          (any-append fatal st.findings (unrecorded_files src.dir m.segments) calm).0).1),
    (λ intact.
        let (st', again, same) = IntactFrom-check_from p src m.segments start m.segments intact in
        let none_yet = ap (λ r. r.findings) (ok-injective st st' (sym checked ∙ again)) ∙ same in
        subst (λ fs. any fatal (fs ++ unrecorded_files src.dir m.segments) ≡ false) (sym none_yet)
          (unrecorded_files-calm src.dir m.segments)),
  )

  -- A verification that completes reports no fatal finding exactly when every segment of the manifest
  -- has its file, whose lines are records with the hash, the number and the place in the chain that the
  -- manifest says, is linked to the one before it, and does not start, in the order of texts, before that
  -- one ends, unless a position is missing or a gap is recorded in the one or the other.
  pub verify_archive-IntactFrom :
      (fs : List Finding) (m : Manifest)
      → verify_archive p src ≡ ok (fs, m)
      → (any fatal fs ≡ false) ↔ IntactFrom p src m.segments [] [] m.segments
  unfolding verify_archive
  verify_archive-IntactFrom fs m e =
      let (m', read, e) = and_then-ok (read_manifest p src) (verify_read p src) (fs, m) e in
      let (st, checked, e) =
        and_then-ok (check_from p src m'.segments start m'.segments)
          (λ st. ok (completed p src m' st)) (fs, m) e in
      let whole = ok-injective (completed p src m' st) (fs, m) e in
      subst (λ r. (any fatal r.0 ≡ false) ↔ IntactFrom p src r.1.segments [] [] r.1.segments) whole
        (completed-IntactFrom m' st checked)
