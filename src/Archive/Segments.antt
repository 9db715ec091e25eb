-- ===== src/Archive/Segments.antt =====
-- The numbered list of segments of a manifest, and what a directory or a bucket holds of them.
use mathlib.Core.List.{head-eq_of_cons-eq, tail-eq_of_cons-eq}
use pgvolvra.Base.{
  refl, last?, ap, inl, inr, sym, subst, ◌⊎◌, All, ℕ, suc, add-zero, ◌+◌, ◌≤◌, ◌<◌, ◌≡◌, ◌∙◌, ◌≢◌,
  true, some, List, [], ◌∷◌, ◌++◌, map, Bytes, Assoc, lookup, insert, lookup-insert, beq_iff,
  length, arith,
}
use pgvolvra.Format.{Segment, Platform, uploaded}
use pgvolvra.Format.Names.{segment_name, segment_name-injective}
use pgvolvra.Remote.{digest}
use pgvolvra.Archive.{end_of}
use pgvolvra.Archive.Upload.{ready}

-- What a segment says beside its upload state.
abbrev pub core : Segment → Segment
core s = record s { uploaded_at = []; remote_key = []; remote_etag = [] }

abbrev pub cores : List Segment → List Segment
cores = map core

-- The segments have the numbers from `k` on, and are in the files of those numbers.
abbrev pub Numbered : ℕ → List Segment → Type 0
Numbered k [] = Unit
Numbered k (s ∷ segs) = (s.seq ≡ k) × (s.file ≡ segment_name k) × Numbered (suc k) segs

pub Numbered-append :
    (k : ℕ) (xs ys : List Segment)
    → Numbered k xs
    → Numbered (k + length xs) ys
    → Numbered k (xs ++ ys)
Numbered-append k [] ys hx hy = rw add-zero at hy
Numbered-append k (x ∷ xs) ys hx hy =
    (hx.0, hx.1, Numbered-append (suc k) xs ys hx.2 (rw shift at hy))
  where
    shift : k + suc (length xs) ≡ suc k + length xs
    shift = omega arith

pub Numbered-right :
    (k : ℕ) (xs ys : List Segment) → Numbered k (xs ++ ys) → Numbered (k + length xs) ys
Numbered-right k [] ys h = rw add-zero h
Numbered-right k (x ∷ xs) ys h = rw shift (Numbered-right (suc k) xs ys h.2)
  where
    shift : k + suc (length xs) ≡ suc k + length xs
    shift = omega arith

-- `n` is no number of the segments from `k` on.
abbrev Outside : ℕ → ℕ → List Segment → Type 0
Outside n k segs = (n < k) ⊎ (k + length segs ≤ n)

module _ (p : Platform) where
  -- The store has the object that the segment's hash is of.
  abbrev pub Holds : Assoc Bytes → Segment → Type 0
  Holds m s = (b : Bytes) × (lookup s.file m ≡ some b) × (digest p b ≡ s.sha256)

  -- The store has every uploaded segment.
  abbrev pub HoldsUploaded : Assoc Bytes → List Segment → Type 0
  HoldsUploaded m [] = Unit
  HoldsUploaded m (s ∷ segs) = (uploaded s ≡ true → Holds m s) × HoldsUploaded m segs

  abbrev pub HoldsAll : Assoc Bytes → List Segment → Type 0
  HoldsAll m [] = Unit
  HoldsAll m (s ∷ segs) = Holds m s × HoldsAll m segs

  pub HoldsUploaded-append :
      (m : Assoc Bytes) (xs ys : List Segment)
      → HoldsUploaded m xs
      → HoldsUploaded m ys
      → HoldsUploaded m (xs ++ ys)
  HoldsUploaded-append m [] ys hx hy = hy
  HoldsUploaded-append m (x ∷ xs) ys hx hy = (hx.0, HoldsUploaded-append m xs ys hx.1 hy)

  Holds-insert :
      (m : Assoc Bytes) (name b : Bytes) (s : Segment)
      → name ≢ s.file
      → Holds m s
      → Holds (insert name b m) s
  Holds-insert m name b s ne (body, found, hash) =
      (body, ground (arith, lookup-insert name s.file b m, beq_iff name s.file), hash)

  pub HoldsUploaded-insert :
      (m : Assoc Bytes) (name b : Bytes) (segs : List Segment)
      → All (λ s. name ≢ s.file) segs
      → HoldsUploaded m segs
      → HoldsUploaded (insert name b m) segs
  HoldsUploaded-insert m name b [] ne h = tt
  HoldsUploaded-insert m name b (s ∷ segs) ne h =
      (λ u. Holds-insert m name b s ne.0 (h.0 u), HoldsUploaded-insert m name b segs ne.1 h.1)

-- Only the segment numbered `n` has the file of that name.
pub Numbered-other :
    (n k : ℕ) (segs : List Segment)
    → Numbered k segs
    → Outside n k segs
    → All (λ s. segment_name n ≢ s.file) segs
Numbered-other n k [] h out = tt
Numbered-other n k (s ∷ segs) h out = (
  (λ e. absurd (omega (arith, segment_name-injective n k (e ∙ h.1)))),
  Numbered-other n (suc k) segs h.2 (omega arith),
)

pub ready-le :
    (k : ℕ) (segs : List Segment) → Numbered (suc k) segs → ready k segs ≤ k + length segs
unfolding ready
ready-le k [] h = omega arith
ready-le k (s ∷ segs) h = ground (arith, ready-le (suc k) segs)

pub Numbered-left : (k : ℕ) (xs ys : List Segment) → Numbered k (xs ++ ys) → Numbered k xs
Numbered-left k [] ys h = tt
Numbered-left k (x ∷ xs) ys h = (h.0, h.1, Numbered-left (suc k) xs ys h.2)

module _ (p : Platform) (m : Assoc Bytes) where
  pub HoldsUploaded-left :
      (xs ys : List Segment) → HoldsUploaded p m (xs ++ ys) → HoldsUploaded p m xs
  HoldsUploaded-left [] ys h = tt
  HoldsUploaded-left (x ∷ xs) ys h = (h.0, HoldsUploaded-left xs ys h.1)

  pub HoldsUploaded-right :
      (xs ys : List Segment) → HoldsUploaded p m (xs ++ ys) → HoldsUploaded p m ys
  HoldsUploaded-right [] ys h = h
  HoldsUploaded-right (x ∷ xs) ys h = HoldsUploaded-right xs ys h.1

-- A segment's file is no other segment's.
pub Numbered-alone :
    (done rest : List Segment) (seg : Segment)
    → Numbered 1 (done ++ seg ∷ rest)
    → All (λ s. seg.file ≢ s.file) done × All (λ s. seg.file ≢ s.file) rest
Numbered-alone done rest seg h =
    let here = Numbered-right 1 done (seg ∷ rest) h in
    subst (λ name. All (λ s. name ≢ s.file) done × All (λ s. name ≢ s.file) rest) (sym here.1)
      (
        Numbered-other (1 + length done) 1 done (Numbered-left 1 done (seg ∷ rest) h)
            (inr (omega arith)),
        Numbered-other (1 + length done) (suc (1 + length done)) rest here.2 (inl (omega arith)),
      )

-- Whatever is marked as uploaded in the first list is marked in the second, which is as long or longer.
abbrev pub Behind : List Segment → List Segment → Type 0
Behind [] ys = Unit
Behind (x ∷ xs) [] = ⊥
Behind (x ∷ xs) (y ∷ ys) = (uploaded x ≡ true → uploaded y ≡ true) × Behind xs ys

pub Behind-refl : (xs : List Segment) → Behind xs xs
Behind-refl [] = tt
Behind-refl (x ∷ xs) = ((λ u. u), Behind-refl xs)

pub Behind-trans : (xs ys zs : List Segment) → Behind xs ys → Behind ys zs → Behind xs zs
Behind-trans [] ys zs h k = tt
Behind-trans (x ∷ xs) [] zs h k = absurd h
Behind-trans (x ∷ xs) (y ∷ ys) [] h k = absurd k
Behind-trans (x ∷ xs) (y ∷ ys) (z ∷ zs) h k = ((λ u. k.0 (h.0 u)), Behind-trans xs ys zs h.1 k.1)

-- A segment may become marked.
pub Behind-replace :
    (seg seg' : Segment) (done rest : List Segment)
    → (uploaded seg ≡ true → uploaded seg' ≡ true)
    → Behind (done ++ seg ∷ rest) (done ++ seg' ∷ rest)
Behind-replace seg seg' [] rest h = (h, Behind-refl rest)
Behind-replace seg seg' (d ∷ done) rest h = ((λ u. u), Behind-replace seg seg' done rest h)

-- The marks that are behind are true as well, of the same segments.
pub HoldsUploaded-Behind :
    (p : Platform) (m : Assoc Bytes) (xs ys : List Segment)
    → cores xs ≡ cores ys
    → Behind xs ys
    → HoldsUploaded p m ys
    → HoldsUploaded p m xs
HoldsUploaded-Behind p m [] ys e h k = tt
HoldsUploaded-Behind p m (x ∷ xs) [] e h k = absurd h
HoldsUploaded-Behind p m (x ∷ xs) (y ∷ ys) e h k =
    let same = head-eq_of_cons-eq e in
    (
      (λ u.
          let (b, found, hash) = k.0 (h.0 u) in
          (b, ap (λ s. lookup s.file m) same ∙ found, hash ∙ sym (ap (λ s. s.sha256) same))),
      HoldsUploaded-Behind p m xs ys (tail-eq_of_cons-eq e) h.1 k.1,
    )

pub Numbered-cores :
    (k : ℕ) (xs ys : List Segment) → cores xs ≡ cores ys → Numbered k ys → Numbered k xs
Numbered-cores k [] ys e h = tt
Numbered-cores k (x ∷ xs) [] e h = absurd (ground (arith, e))
Numbered-cores k (x ∷ xs) (y ∷ ys) e h =
    let same = head-eq_of_cons-eq e in
    (
      ap (λ s. s.seq) same ∙ h.0,
      ap (λ s. s.file) same ∙ h.1,
      Numbered-cores (suc k) xs ys (tail-eq_of_cons-eq e) h.2,
    )

-- The last of the segments, or the position that was there before.
unfoldable pub last_end : Bytes → List Segment → Bytes
last_end last [] = last
last_end last (s ∷ segs) = last_end s.end_lsn segs

pub last_end-end_of : (segs : List Segment) → last_end [] segs ≡ end_of (last? segs)
unfolding last_end
last_end-end_of [] = refl
last_end-end_of (s ∷ []) = refl
last_end-end_of (s ∷ t ∷ segs) = later s t segs
  where
    later :
        (s t : Segment) (segs : List Segment)
        → last_end s.end_lsn (t ∷ segs) ≡ end_of (last? (t ∷ segs))
    later s t [] = refl
    later s t (u ∷ segs) = later t u segs
