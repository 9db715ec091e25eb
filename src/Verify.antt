-- ===== src/Verify.antt =====
-- Verification of an archive (companion/verify.go).
pub mod Judged
pub mod Order
pub mod Sound
use mathlib.Core.List.{reverse}
use pgvolvra.Base.{
  ℕ, suc, ◌+◌, Bool, true, false, not, ◌&&◌, ◌||◌, Option, none, some, List, [], ◌∷◌, ◌++◌, Bytes,
  Assoc, codes, length, take, any, beq, is_empty, lt_bytes, ltb, ◌==◌, if◌then◌else◌,
}
use pgvolvra.Exec.{Outcome, ok, err, Error, panic, and_then}
use pgvolvra.Format.{Change, Segment, Manifest, Platform}
use pgvolvra.Lines.{Stream, Scanned, Ending, clean, oversize, io_error, scan, join_lines}
use pgvolvra.Remote.{digest}
use pgvolvra.Source.{Source, open_source, read_manifest}

-- The verdicts, with what their details print.
pub data Verdict : Type 0 where
  missing : Error → Verdict
  unreadable : Ending → Verdict
  tampered : Bytes → Bytes → Verdict
  chain_broken manifest_forged : Verdict
  truncated : ℕ → ℕ → Verdict
  corrupt : ℕ → Verdict
  out_of_order : Bytes → Bytes → Verdict
  unrecorded : Bytes → ℕ → Verdict

-- The segment of an unrecorded file is -1, here `none`.
pub record Finding : Type 0 where
  pub segment : Option ℕ
  pub verdict : Verdict

unfoldable pub fatal_verdict : Verdict → Bool
fatal_verdict (unrecorded _ _) = false
fatal_verdict _ = true

-- `Finding.Fatal`
abbrev pub fatal : Finding → Bool
fatal f = fatal_verdict f.verdict

-- The state of the loop over the segments.
pub record Progress : Type 0 where
  pub findings : List Finding
  pub prev_chain : Bytes
  pub prev_end : Bytes

abbrev pub found_in : Segment → Verdict → Finding
found_in seg v = record { segment = some seg.seq; verdict = v }

-- The findings of a file that is on disk and in no manifest entry.
unfoldable pub is_segment_file : Bytes → Bool
is_segment_file name = beq (take 7 (reverse name)) (reverse (codes ".ndjson"))

unfoldable pub unrecorded_in : List Segment → Assoc Stream → List Finding
unfolding is_segment_file
unrecorded_in segs [] = []
unrecorded_in segs ((name, f) ∷ files) =
    let rest = unrecorded_in segs files in
    if is_segment_file name && not (any (λ s. beq s.file name) segs)
    then record { segment = none; verdict = unrecorded name (length (scan f).lines) } ∷ rest
    else rest

-- `unrecorded`
unfoldable pub unrecorded_files : Option (Assoc Stream) → List Segment → List Finding
unfolding unrecorded_in
unrecorded_files none segs = []
unrecorded_files (some files) segs = unrecorded_in segs files

abbrev pub start : Progress
start = record { findings = []; prev_chain = []; prev_end = [] }

module _ (p : Platform) where
  abbrev is_gap : Option Change → Bool
  is_gap none = false
  is_gap (some c) = c.gap

  abbrev pub is_bad : Option Change → Bool
  is_bad none = true
  is_bad (some c) = false

  unfoldable pub count_bad : List Bytes → ℕ
  count_bad [] = 0
  count_bad (l ∷ ls) = (if is_bad (p.decode_change l) then 1 else 0) + count_bad ls

  holds_gap : Outcome Stream → Bool
  holds_gap (err e) = false
  holds_gap (ok f) = any (λ l. is_gap (p.decode_change l)) (scan f).lines

  -- `gapRecorded`
  unfoldable pub gap_recorded : Source → List Segment → ℕ → Bool
  unfolding holds_gap
  gap_recorded src segs seq =
      any (λ s. (s.seq == seq || suc s.seq == seq) && holds_gap (open_source src s.file)) segs

  -- Prefixes of sixteen digits are printed; Go panics at a shorter text.
  unfoldable pub judge : Segment → Bytes → List Bytes → Outcome (List Finding)
  unfolding count_bad
  judge seg prev_chain lines =
      let sum = digest p (join_lines lines) in
      if not (beq sum seg.sha256)
      then (if ltb (length sum) 16 || ltb (length seg.sha256) 16
          then err panic
          else ok (found_in seg (tampered (take 16 sum) (take 16 seg.sha256)) ∷ []))
      else if not (beq seg.prev prev_chain)
      then ok (found_in seg chain_broken ∷ [])
      else if not (beq (digest p (prev_chain ++ (b'|' ∷ seg.sha256))) seg.chain)
      then ok (found_in seg manifest_forged ∷ [])
      else if not (length lines == seg.changes)
      then ok (found_in seg (truncated (length lines) seg.changes) ∷ [])
      else if ltb 0 (count_bad lines)
      then ok (found_in seg (corrupt (count_bad lines)) ∷ [])
      else ok []

  -- The test of the order of positions compares their texts.
  unfoldable pub order_findings : Source → List Segment → Segment → Bytes → List Finding
  unfolding gap_recorded
  order_findings src segs seg prev_end =
      if not (is_empty prev_end)
        && not (is_empty seg.start_lsn)
        && not (gap_recorded src segs seg.seq)
        && lt_bytes seg.start_lsn prev_end
      then found_in seg (out_of_order seg.start_lsn prev_end) ∷ []
      else []

  abbrev pub passed : Progress → Segment → List Finding → Outcome (List Finding) → Outcome Progress
  passed st seg order (err e) = err e
  passed st seg order (ok fs) = ok (record {
    findings = st.findings ++ fs ++ order;
    prev_chain = seg.chain;
    prev_end = seg.end_lsn;
  })

  abbrev pub noted : Progress → Segment → Verdict → Outcome Progress
  noted st seg v =
      ok (record st { findings = st.findings ++ found_in seg v ∷ []; prev_chain = seg.chain })

  abbrev pub judge_scanned :
      Source → List Segment → Progress → Segment → Scanned → Ending → Outcome Progress
  judge_scanned src segs st seg s clean =
      passed st seg (order_findings src segs seg st.prev_end) (judge seg st.prev_chain s.lines)
  judge_scanned src segs st seg s oversize = noted st seg (unreadable oversize)
  judge_scanned src segs st seg s io_error = noted st seg (unreadable io_error)

  abbrev pub check_opened :
      Source → List Segment → Progress → Segment → Outcome Stream → Outcome Progress
  check_opened src segs st seg (err e) = noted st seg (missing e)
  check_opened src segs st seg (ok f) = judge_scanned src segs st seg (scan f) (scan f).ending

  -- One round of the loop.
  unfoldable pub check_segment : Source → List Segment → Progress → Segment → Outcome Progress
  unfolding judge order_findings
  check_segment src segs st seg = check_opened src segs st seg (open_source src seg.file)

  unfoldable pub check_from : Source → List Segment → Progress → List Segment → Outcome Progress
  unfolding check_segment
  check_from src segs st [] = ok st
  check_from src segs st (seg ∷ rest) =
      and_then (check_segment src segs st seg) (λ st'. check_from src segs st' rest)

  -- The files that no entry names, at the end.
  abbrev pub completed : Source → Manifest → Progress → List Finding × Manifest
  completed src m st = (st.findings ++ unrecorded_files src.dir m.segments, m)

  abbrev pub verify_read : Source → Manifest → Outcome (List Finding × Manifest)
  verify_read src m =
      and_then (check_from src m.segments start m.segments) (λ st. ok (completed src m st))

  -- `VerifyArchive`
  unfoldable pub verify_archive : Source → Outcome (List Finding × Manifest)
  unfolding check_from unrecorded_files
  verify_archive src = and_then (read_manifest p src) (verify_read src)
