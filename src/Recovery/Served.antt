-- ===== src/Recovery/Served.antt =====
-- The directory of the archive writer as a source of verification and restore: the manifest is read
-- as it was written, and each segment's file delivers the lines of its changes.
use pgvolvra.Base.{
  ℕ, suc, ◌<◌, ◌≡◌, refl, sym, ◌∙◌, ap, false, Option, some, List, [], ◌∷◌, ◌++◌, map, append-nil,
  Bytes, Assoc, lookup, length, length-map, All, arith,
}
use pgvolvra.Exec.{ok}
use pgvolvra.Format.{Change, Segment, Manifest, Platform, IsFaithful}
use pgvolvra.Format.Names.{manifest_name}
use pgvolvra.Lines.{Stream, clean, scan, join_lines, max_token}
use pgvolvra.Lines.Laws.{Plain, scan-join_lines}
use pgvolvra.Remote.{digest}
use pgvolvra.Source.{Source, open_source, sort_segments, read_manifest}
use pgvolvra.Archive.Segments.{core, cores, Numbered}
use pgvolvra.Archive.History.{render, Records}
use pgvolvra.Archive.Durable.{Names}
use pgvolvra.Verify.{count_bad}
use pgvolvra.Verify.Judged.{Judged}
use pgvolvra.Verify.Sound.{Opens}

abbrev whole_file : Bytes × Bytes → Bytes × Stream
whole_file (name, b) = (name, record { content = b; broken = false })

-- The files of a directory, each read to its end.
abbrev pub streams : Assoc Bytes → Assoc Stream
streams = map whole_file

lookup-streams :
    (D : Assoc Bytes) (name b : Bytes)
    → lookup name D ≡ some b
    → lookup name (streams D) ≡ some (record { content = b; broken = false })
unfolding lookup
lookup-streams [] name b e = ground (arith, e)
lookup-streams ((n, x) ∷ D) name b e = ground (arith, e, lookup-streams D name b)

-- A directory, with or without a bucket behind it.
abbrev pub directory : Assoc Bytes → Option (Assoc Stream) → Source
directory D r = record { dir = some (streams D); remote = r }

open_source-directory :
    (D : Assoc Bytes) (r : Option (Assoc Stream)) (name b : Bytes)
    → lookup name D ≡ some b
    → open_source (directory D r) name ≡ ok (record { content = b; broken = false })
unfolding open_source
open_source-directory D r name b e = rw (lookup-streams D name b e) refl

sort_segments-Numbered : (k : ℕ) (segs : List Segment) → Numbered k segs → sort_segments segs ≡ segs
unfolding sort_segments
sort_segments-Numbered k [] h = refl
sort_segments-Numbered k (s ∷ []) h = refl
sort_segments-Numbered k (s ∷ t ∷ segs) h =
    rw (sort_segments-Numbered (suc k) (t ∷ segs) h.2) (ground (arith, h))

abbrev head : Segment → List Segment → Segment
head d [] = d
head d (s ∷ segs) = s

abbrev tail : List Segment → List Segment
tail [] = []
tail (s ∷ segs) = segs

Numbered-cores :
    (k : ℕ) (xs ys : List Segment) → cores xs ≡ cores ys → Numbered k xs → Numbered k ys
Numbered-cores k [] [] e h = tt
Numbered-cores k [] (y ∷ ys) e h = absurd (ground (arith, e))
Numbered-cores k (x ∷ xs) [] e h = absurd (ground (arith, e))
Numbered-cores k (x ∷ xs) (y ∷ ys) e h =
    let same = ap (head (core x)) e in
    (
      ap (λ s. s.seq) (sym same) ∙ h.0,
      ap (λ s. s.file) (sym same) ∙ h.1,
      Numbered-cores (suc k) xs ys (ap tail e) h.2,
    )

-- The changes as the source delivers them: each segment opens as the text of its own.
abbrev pub lines_of : Platform → List Change → List Bytes
lines_of p = map p.encode_change

-- A record that the readers' buffer takes.
abbrev pub Fits : Platform → Change → Type 0
Fits p c = length (p.encode_change c) < max_token

module _ (p : Platform) (faithful : IsFaithful p) where
  render-lines : (cs : List Change) → render p cs ≡ join_lines (lines_of p cs)
  render-lines [] = refl
  render-lines (c ∷ cs) = ap (λ t. (p.encode_change c ++ b'\n' ∷ []) ++ t) (render-lines cs)

  lines-Plain : (cs : List Change) → All (Fits p) cs → All Plain (lines_of p cs)
  lines-Plain [] h = tt
  lines-Plain (c ∷ cs) h =
      ((faithful.encode-one_line c, faithful.encode-last c, h.0), lines-Plain cs h.1)

  scan-render :
      (cs : List Change)
      → All (Fits p) cs
      → scan (record { content = render p cs; broken = false })
        ≡ record { lines = lines_of p cs; ending = clean }
  scan-render cs h =
      ap (λ t. scan (record { content = t; broken = false })) (render-lines cs)
      ∙ scan-join_lines (lines_of p cs) (lines-Plain cs h)

  count_bad-lines : (cs : List Change) → count_bad p (lines_of p cs) ≡ 0
  unfolding count_bad
  count_bad-lines [] = refl
  count_bad-lines (c ∷ cs) = rw (faithful.decode-encode c) (omega (arith, count_bad-lines cs))

  module _ (D : Assoc Bytes) (r : Option (Assoc Stream)) where
    pub Records-Opens :
        (prev : Bytes) (s : Segment) (here : List Change)
        → All (Fits p) here
        → Records p D prev s here
        → Opens p (directory D r) [] s.file (lines_of p here)
    Records-Opens prev s here fits h =
        (_, open_source-directory D r s.file (render p here) h.in_file, scan-render here fits)

    pub Records-Judged :
        (prev : Bytes) (s : Segment) (here : List Change)
        → Records p D prev s here
        → Judged p prev s (lines_of p here)
    Records-Judged prev s here h = (
      ap (digest p) (sym (render-lines here)) ∙ sym h.hash,
      h.follows,
      sym h.chained,
      length-map p.encode_change here ∙ sym h.count,
      count_bad-lines here,
    )

    -- The manifest is read as it was written: the archive's segments, whatever their upload state.
    pub read_manifest-directory :
        (segs : List Segment)
        → Numbered 1 segs
        → Names p D (cores segs) []
        → (m : Manifest) × (read_manifest p (directory D r) ≡ ok m)
          × (cores m.segments ≡ cores segs)
    unfolding read_manifest
    read_manifest-directory segs numbered (body, m, found, decoded, same) =
        let same' = same ∙ append-nil (cores m.segments) in
        let sorted =
          sort_segments-Numbered 1 m.segments (Numbered-cores 1 segs m.segments same' numbered) in
        (
          m,
          rw (open_source-directory D r manifest_name body found, decoded, sorted) refl,
          sym same',
        )
