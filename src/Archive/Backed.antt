-- ===== src/Archive/Backed.antt =====
-- `Backed` under the changes that the operations make: an upload, a new manifest, a new segment.
use pgvolvra.Base.{
  true, ◌+◌, lookup, subst, ℕ, suc, ◌≤◌, ◌≡◌, refl, sym, ◌∙◌, ap, ◌≢◌, inl, inr, some, All, List,
  [], ◌∷◌, ◌++◌, append-nil, length, Bytes, Assoc, insert, lookup-insert_ne, lookup-insert_self,
  arith,
}
use pgvolvra.Archive.History.{Filed}
use pgvolvra.Format.{Change, Platform, Manifest, Segment}
use pgvolvra.Format.Names.{manifest_name, segment_name-ne-manifest_name}
use pgvolvra.Archive.{segment_name, false, uploaded, set_segments, digest, Archive}
use pgvolvra.Archive.Segments.{
  Numbered-right, HoldsUploaded-right, HoldsUploaded-left, Numbered-alone, HoldsUploaded-append,
  HoldsUploaded, core, cores, Numbered, HoldsUploaded-insert, Behind, Behind-trans, Behind-replace,
}
use pgvolvra.Archive.Durable.{Backed, Covered, Names, Listed}

module _ (p : Platform) where
  Names-insert :
      (m : Assoc Bytes) (name b : Bytes) (segs tail : List Segment)
      → manifest_name ≢ name
      → Names p m segs tail
      → Names p (insert name b m) segs tail
  Names-insert m name b segs tail ne (body, named, found, decoded, e) =
      (body, named, lookup-insert_ne name manifest_name b m ne ∙ found, decoded, e)

  pub Covered-insert :
      (a : Archive) (B : Assoc Bytes) (name b : Bytes)
      → manifest_name ≢ name
      → Covered p a B
      → Covered p a (insert name b B)
  Covered-insert a B name b ne (inl z) = inl z
  Covered-insert a B name b ne (inr (tail, n, fits)) =
      inr (tail, Names-insert B name b _ tail ne n, fits)

  pub Covered-le :
      (a : Archive) (B : Assoc Bytes) → Covered p a B → a.manifest_seq ≤ length a.man.segments
  Covered-le a B (inl z) = omega arith
  Covered-le a B (inr (tail, n, fits)) = omega arith

  -- The manifest's name is no segment's.
  pub manifest-other :
      (k : ℕ) (segs : List Segment) → Numbered k segs → All (λ s. manifest_name ≢ s.file) segs
  manifest-other k [] h = tt
  manifest-other k (s ∷ segs) h =
      ((λ e. segment_name-ne-manifest_name k (sym (e ∙ h.1))), manifest-other (suc k) segs h.2)

  -- A new manifest in the bucket.
  pub Backed-manifest :
      (a : Archive) (B : Assoc Bytes) (body : Bytes) (named : Manifest) (seq : ℕ)
      → p.decode_manifest body ≡ some named
      → cores a.man.segments ≡ cores named.segments
      → seq ≤ length a.man.segments
      → Backed p a B
      → Backed p (record a { manifest_seq = seq }) (insert manifest_name body B)
  Backed-manifest a B body named seq decoded e le b = record {
    numbered = b.numbered;
    held = HoldsUploaded-insert p B manifest_name body _ (manifest-other 1 _ b.numbered) b.held;
    covered = inr (
      [],
      (body, named, lookup-insert_self manifest_name body B, decoded, e ∙ sym (append-nil _)),
      omega arith,
    );
    opened = b.opened;
  }

module _ (seg seg' : Segment) (same : core seg' ≡ core seg) where
  cores-replace :
      (done rest : List Segment) → cores (done ++ seg' ∷ rest) ≡ cores (done ++ seg ∷ rest)
  cores-replace [] rest = ap (λ c. c ∷ cores rest) same
  cores-replace (d ∷ done) rest = ap (λ cs. core d ∷ cs) (cores-replace done rest)

  length-replace :
      (done rest : List Segment) → length (done ++ seg' ∷ rest) ≡ length (done ++ seg ∷ rest)
  length-replace [] rest = refl
  length-replace (d ∷ done) rest = ap suc (length-replace done rest)

  Numbered-replace :
      (k : ℕ) (done rest : List Segment)
      → Numbered k (done ++ seg ∷ rest)
      → Numbered k (done ++ seg' ∷ rest)
  Numbered-replace k [] rest h = (ap (λ s. s.seq) same ∙ h.0, ap (λ s. s.file) same ∙ h.1, h.2)
  Numbered-replace k (d ∷ done) rest h = (h.0, h.1, Numbered-replace (suc k) done rest h.2)

-- An upload of the segment after `done`, in an archive of the segments `done`, `seg` and `rest`.
module _ (p : Platform) (a : Archive) (B : Assoc Bytes) (done rest : List Segment) (seg : Segment)
    (split : a.man.segments ≡ done ++ seg ∷ rest) (b : Backed p a B) (x : Bytes) where
  numbers : Numbered 1 (done ++ seg ∷ rest)
  numbers = subst (Numbered 1) split b.numbered

  parts : HoldsUploaded p B (done ++ seg ∷ rest)
  parts = subst (HoldsUploaded p B) split b.held

  done_held : HoldsUploaded p (insert seg.file x B) done
  done_held =
      HoldsUploaded-insert p B seg.file x done (Numbered-alone done rest seg numbers).0
        (HoldsUploaded-left p B done (seg ∷ rest) parts)

  rest_held : HoldsUploaded p (insert seg.file x B) rest
  rest_held =
      HoldsUploaded-insert p B seg.file x rest (Numbered-alone done rest seg numbers).1
        (HoldsUploaded-right p B done (seg ∷ rest) parts).1

  manifest-ne-file : manifest_name ≢ seg.file
  manifest-ne-file e =
      segment_name-ne-manifest_name (1 + length done)
        (sym (e ∙ (Numbered-right 1 done (seg ∷ rest) numbers).1))

  -- It failed, and may have left something under the segment's name.
  pub Backed-lost : uploaded seg ≡ false → Backed p a (insert seg.file x B)
  Backed-lost absent = record {
    numbered = b.numbered;
    held = subst (HoldsUploaded p (insert seg.file x B)) (sym split) (
        HoldsUploaded-append p _ done (seg ∷ rest) done_held
          ((λ u. absurd (ground (arith, u, absent))), rest_held));
    covered = Covered-insert p a B seg.file x manifest-ne-file b.covered;
    opened = b.opened;
  }

  module _ (seg' : Segment) (same : core seg' ≡ core seg) where
    abbrev after : Archive
    after = set_segments (done ++ seg' ∷ rest) a

    pub same_cores : cores after.man.segments ≡ cores a.man.segments
    same_cores = cores-replace seg seg' same done rest ∙ ap cores (sym split)

    same_length : length after.man.segments ≡ length a.man.segments
    same_length = length-replace seg seg' same done rest ∙ ap length (sym split)

    Covered-after : Covered p a (insert seg.file x B) → Covered p after (insert seg.file x B)
    Covered-after (inl z) = inl z
    Covered-after (inr (tail, (body, named, f, d, e), fits)) =
        inr (tail, (body, named, f, d, same_cores ∙ e), omega (arith, same_length))

    pub Listed-uploaded :
        (uploaded seg ≡ true → uploaded seg' ≡ true)
        → (hist : List Change) (D : Assoc Bytes) → Listed p hist a D
        → Listed p hist after D
    Listed-uploaded marks hist D l = record {
      names = (l.names.0, l.names.1, l.names.2, l.names.3, same_cores ∙ l.names.4);
      marks = Behind-trans l.names.1.segments a.man.segments (done ++ seg' ∷ rest) l.marks (
          subst (λ segs. Behind segs (done ++ seg' ∷ rest)) (sym split)
            (Behind-replace seg seg' done rest marks));
      recorded = record {
        sealed = l.recorded.sealed;
        unsealed = l.recorded.unsealed;
        whole = l.recorded.whole;
        filed = subst (λ cs. Filed p D [] cs l.recorded.sealed) (sym same_cores) l.recorded.filed;
        open_file = l.recorded.open_file;
      };
    }

    -- It arrived: the segment is marked.
    pub Backed-uploaded : digest p x ≡ seg.sha256 → Backed p after (insert seg.file x B)
    Backed-uploaded hash = record {
      numbered = Numbered-replace seg seg' same 1 done rest numbers;
      held = HoldsUploaded-append p _ done (seg' ∷ rest) done_held (
        (λ u. (
          x,
          ap (λ s. lookup s.file (insert seg.file x B)) same ∙ lookup-insert_self seg.file x B,
          hash ∙ sym (ap (λ s. s.sha256) same),
        )),
        rest_held,
      );
      covered = Covered-after (Covered-insert p a B seg.file x manifest-ne-file b.covered);
      opened = λ name e. (
        (b.opened name e).0 ∙ ap (λ n. segment_name (suc n)) (sym same_length),
        (b.opened name e).1 ∙ ap suc (sym same_length),
      );
    }
