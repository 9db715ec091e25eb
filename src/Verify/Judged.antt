-- ===== src/Verify/Judged.antt =====
-- The judgement of one segment by its lines (companion/verify.go, VerifyArchive).
use pgvolvra.Base.{
  ℕ, zero, suc, ◌≡◌, refl, Bool, true, false, List, [], ◌∷◌, ◌++◌, Bytes, length, any, beq, beq_iff,
  arith, ==_iff, not, if◌then◌else◌, ◌==◌, ltb,
}
use pgvolvra.Exec.{Outcome, ok, err, panic}
use pgvolvra.Format.{Segment, Platform}
use pgvolvra.Lines.{join_lines}
use pgvolvra.Remote.{digest}
use pgvolvra.Verify.{Finding, fatal, fatal_verdict, count_bad, judge}

module _ (p : Platform) where
  -- The lines are those that the segment was sealed with, behind a segment of chain `prev`.
  abbrev pub Judged : Bytes → Segment → List Bytes → Type 0
  Judged prev s lines =
      (digest p (join_lines lines) ≡ s.sha256)
      × (s.prev ≡ prev)
      × (digest p (prev ++ (b'|' ∷ s.sha256)) ≡ s.chain)
      × (length lines ≡ s.changes)
      × (count_bad p lines ≡ 0)

  -- The next test of `judge`.
  passes :
      (c : Bool) (f : Finding) (rest : Outcome (List Finding)) (fs : List Finding)
      → fatal f ≡ true
      → (if not c then ok (f ∷ []) else rest) ≡ ok fs
      → any fatal fs ≡ false
      → (c ≡ true) × (rest ≡ ok fs)
  unfolding fatal_verdict
  passes true f rest fs bad e calm = (refl, e)
  passes false f rest fs bad e calm = absurd (ground (arith, e, calm, bad))

  judge-hash :
      (c panics : Bool) (f : Finding) (rest : Outcome (List Finding)) (fs : List Finding)
      → fatal f ≡ true
      → (if not c then (if panics then err panic else ok (f ∷ [])) else rest) ≡ ok fs
      → any fatal fs ≡ false
      → (c ≡ true) × (rest ≡ ok fs)
  unfolding fatal_verdict
  judge-hash true panics f rest fs bad e calm = (refl, e)
  judge-hash false true f rest fs bad e calm = absurd (ground (arith, e))
  judge-hash false false f rest fs bad e calm = absurd (ground (arith, e, calm, bad))

  judge-bad :
      (n : ℕ) (f : Finding) (fs : List Finding)
      → fatal f ≡ true
      → (if ltb 0 n then ok (f ∷ []) else ok []) ≡ ok fs
      → any fatal fs ≡ false
      → (n ≡ 0) × (fs ≡ [])
  unfolding fatal_verdict
  judge-bad zero f fs bad e calm = (refl, ground (arith, e))
  judge-bad (suc n) f fs bad e calm = absurd (ground (arith, e, calm, bad))

  pub judge-Judged :
      (s : Segment) (prev : Bytes) (lines : List Bytes) (fs : List Finding)
      → judge p s prev lines ≡ ok fs
      → any fatal fs ≡ false
      → Judged prev s lines × (fs ≡ [])
  unfolding judge fatal_verdict
  judge-Judged s prev lines fs e calm =
      let sum = digest p (join_lines lines) in
      let (hash, e) = judge-hash (beq sum s.sha256) _ _ _ fs refl e calm in
      let (follows, e) = passes (beq s.prev prev) _ _ fs refl e calm in
      let (chained, e) =
        passes (beq (digest p (prev ++ (b'|' ∷ s.sha256))) s.chain) _ _ fs refl e calm in
      let (count, e) = passes (length lines == s.changes) _ _ fs refl e calm in
      let (good, empty) = judge-bad (count_bad p lines) _ fs refl e calm in
      (
        (
          (beq_iff sum s.sha256).0 hash,
          (beq_iff s.prev prev).0 follows,
          (beq_iff (digest p (prev ++ (b'|' ∷ s.sha256))) s.chain).0 chained,
          (==_iff (length lines) s.changes).0 count,
          good,
        ),
        empty,
      )

  pub Judged-judge :
      (s : Segment) (prev : Bytes) (lines : List Bytes)
      → Judged prev s lines
      → judge p s prev lines ≡ ok []
  unfolding judge
  Judged-judge s prev lines h = ground (
    arith,
    h.0,
    h.1,
    h.2,
    h.3,
    h.4,
    beq_iff (digest p (join_lines lines)) s.sha256,
    beq_iff s.prev prev,
    beq_iff (digest p (prev ++ (b'|' ∷ s.sha256))) s.chain,
  )
