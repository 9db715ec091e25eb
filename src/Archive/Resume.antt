-- ===== src/Archive/Resume.antt =====
-- On the position that may be acknowledged to the server (companion/archive.go, ResumeLSN).
use pgvolvra.Base.{
  ℕ, suc, ◌+◌, ◌≤◌, ◌≡◌, refl, sym, ◌∙◌, ap, ◌⊎◌, inl, inr, false, not, ◌||◌, some, List, [], ◌∷◌,
  ◌++◌, Bytes, Assoc, lookup, length, length-append, length-map, last?, ltb, arith, Bool-cases,
}
use mathlib.Core.List.{map-append}
use pgvolvra.Format.{Segment, uploaded, Manifest, Platform}
use pgvolvra.Format.Names.{manifest_name}
use pgvolvra.Remote.{Remote}
use pgvolvra.Archive.{Sys, resume_from, end_of, resume_lsn}
use pgvolvra.Archive.Segments.{
  last_end, last_end-end_of, core, cores, Numbered, HoldsUploaded, HoldsAll,
}
use pgvolvra.Archive.Durable.{Covered, Safe}

abbrev head : {A : Type 0} → A → List A → A
head d [] = d
head d (x ∷ xs) = x

abbrev tail : {A : Type 0} → List A → List A
tail [] = []
tail (x ∷ xs) = xs

prefix :
    {A : Type 0} (xs ys us vs : List A)
    → xs ++ ys ≡ us ++ vs
    → length xs ≤ length us
    → (more : List A) × (us ≡ xs ++ more)
prefix [] ys us vs e le = (us, refl)
prefix (x ∷ xs) ys [] vs e le = absurd (omega arith)
prefix (x ∷ xs) ys (u ∷ us) vs e le =
    let (more, rest) = prefix xs ys us vs (ap tail e) (omega arith) in
    (more, ap (λ h. h ∷ us) (ap (head x) (sym e)) ∙ ap (λ t. x ∷ t) rest)

one_more :
    (seq k covered : ℕ) (done : List Segment)
    → seq ≡ k
    → ltb covered seq ≡ false
    → (done ≡ []) ⊎ (suc k + length done ≤ suc covered)
    → k + suc (length done) ≤ suc covered
one_more seq k covered done e not_past (inl empty) = rw empty (ground (arith, e, not_past))
one_more seq k covered done e not_past (inr le) = omega arith

module _ (p : Platform) (B : Assoc Bytes) where
  -- The longest run of segments that are uploaded and covered.
  record Run (covered k : ℕ) (last : Bytes) (segs : List Segment) : Type 0 where
    done : List Segment
    rest : List Segment
    split : segs ≡ done ++ rest
    end_is : resume_from covered last segs ≡ last_end last done
    all_held : HoldsAll p B done
    within : (done ≡ []) ⊎ (k + length done ≤ suc covered)

  resume_from-Run :
      (covered k : ℕ) (last : Bytes) (segs : List Segment)
      → Numbered k segs
      → HoldsUploaded p B segs
      → Run covered k last segs
  unfolding resume_from last_end
  resume_from-Run covered k last [] n h = record {
    done = [];
    rest = [];
    split = refl;
    end_is = refl;
    all_held = tt;
    within = inl refl;
  }
  resume_from-Run covered k last (s ∷ segs) n h =
      elim (Bool-cases (not (uploaded s) || ltb covered s.seq)) [
        | inl e ↦ record {
          done = [];
          rest = s ∷ segs;
          split = refl;
          end_is = rw e refl;
          all_held = tt;
          within = inl refl;
        }
        | inr e ↦
            let r = resume_from-Run covered (suc k) s.end_lsn segs n.2 h.1 in
            record {
              done = s ∷ r.done;
              rest = r.rest;
              split = ap (λ l. s ∷ l) r.split;
              end_is = rw e r.end_is;
              all_held = (h.0 (ground (arith, e)), r.all_held);
              within = inr (one_more s.seq k covered r.done n.0 (ground (arith, e)) r.within);
            }
      ]

module _ (p : Platform) (s : Sys) where
  -- The bucket's manifest can be read, and its segments begin with these.
  abbrev pub Manifested : List Segment → Type 0
  Manifested done =
      (body : Bytes) × (named : Manifest) × (more : List Segment) × (lookup manifest_name
          s.world.bucket
        ≡ some body)
      × (p.decode_manifest body ≡ some named)
      × (cores named.segments ≡ cores done ++ more)

  -- The position is the end of a run of segments, from the first, each of which is in the bucket with
  -- its hash, and all of which the bucket's own manifest names.
  abbrev pub Recoverable : Bytes → Type 0
  Recoverable lsn =
      (done : List Segment) × (rest : List Segment) × (s.arch.man.segments ≡ done ++ rest)
      × (lsn ≡ end_of (last? done))
      × HoldsAll p s.world.bucket done
      × ((done ≡ []) ⊎ Manifested done)

  Covered-Manifested :
      (done rest : List Segment)
      → s.arch.man.segments ≡ done ++ rest
      → (done ≡ []) ⊎ (1 + length done ≤ suc s.arch.manifest_seq)
      → Covered p s.arch s.world.bucket
      → (done ≡ []) ⊎ Manifested done
  Covered-Manifested done rest split (inl e) c = inl e
  Covered-Manifested [] rest split (inr le) c = inl refl
  Covered-Manifested (d ∷ done) rest split (inr le) (inl z) = absurd (omega arith)
  Covered-Manifested (d ∷ done) rest split (inr le)
        (inr (tail, (body, named, found, decoded, same), fits)) =
      let parts = sym (map-append core (d ∷ done) rest) ∙ ap cores (sym split) ∙ same in
      let (more, e) = prefix (cores (d ∷ done)) (cores rest) (cores named.segments) tail parts (
        omega (
          arith,
          le,
          fits,
          ap length same,
          length-append (cores named.segments) tail,
          length-map core s.arch.man.segments,
          length-map core done,
        )) in
      inr (body, named, more, found, decoded, e)

  -- With a bucket, the position that the archive would resume from is recoverable from the bucket
  -- alone, whatever calls failed before.
  pub resume_lsn-Recoverable :
      (r : Remote) → s.arch.remote ≡ some r → Safe p s → Recoverable (resume_lsn s.arch)
  unfolding resume_lsn
  resume_lsn-Recoverable r e (b, _) =
      let run =
        resume_from-Run p s.world.bucket s.arch.manifest_seq 1 [] s.arch.man.segments b.numbered
          b.held in
      (
        run.done,
        run.rest,
        run.split,
        rw e (run.end_is ∙ last_end-end_of run.done),
        run.all_held,
        Covered-Manifested run.done run.rest run.split run.within b.covered,
      )
