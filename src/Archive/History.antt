-- ===== src/Archive/History.antt =====
-- The changes that an archive holds: those of the sealed segments' files, in order, then those of
-- the open file.
use pgvolvra.Base.{
  last?, ◌≤◌, ℕ, suc, ◌+◌, ◌≡◌, refl, sym, ◌∙◌, ap, inr, Option, none, some, List, [], ◌∷◌, ◌++◌,
  append_assoc, append-nil, length, All, Bytes, Assoc, lookup, insert, lookup-insert_ne, arith,
}
use pgvolvra.Format.{Change, Segment, Platform}
use pgvolvra.Format.Names.{
  segment_name, segment_name-ne-manifest_name, segment_name-ne-manifest_tmp,
}
use pgvolvra.Remote.{digest}
use pgvolvra.Archive.{Archive, chain_of}
use pgvolvra.Archive.Segments.{core, last_end, cores, Numbered, Numbered-other}
use pgvolvra.Archive.Positions.{first_lsn, last_lsn, last_lsn-two}
use pgvolvra.Archive.State.{SameFiles}

module _ (p : Platform) where
  -- The lines of the changes, as a segment's file holds them.
  abbrev pub render : List Change → Bytes
  render [] = []
  render (c ∷ cs) = (p.encode_change c ++ b'\n' ∷ []) ++ render cs

  pub render-append : (xs ys : List Change) → render (xs ++ ys) ≡ render xs ++ render ys
  render-append [] ys = refl
  render-append (x ∷ xs) ys =
      ap (λ r. (p.encode_change x ++ b'\n' ∷ []) ++ r) (render-append xs ys)
      ∙ sym (append_assoc (p.encode_change x ++ b'\n' ∷ []) (render xs) (render ys))

  -- The segment's file, hash, count, first and last position and place in the chain are those of the changes
  -- `here`.
  pub record Records (D : Assoc Bytes) (prev : Bytes) (s : Segment) (here : List Change)
      : Type 0 where
    pub in_file : lookup s.file D ≡ some (render here)
    pub hash : s.sha256 ≡ digest p (render here)
    pub count : s.changes ≡ length here
    pub some_change : 1 ≤ s.changes
    pub starts : s.start_lsn ≡ first_lsn here
    pub ends : s.end_lsn ≡ last_lsn [] here
    pub follows : s.prev ≡ prev
    pub chained : s.chain ≡ digest p (prev ++ (b'|' ∷ s.sha256))

  -- The segments hold these changes, each segment its own.
  abbrev pub Filed : Assoc Bytes → Bytes → List Segment → List Change → Type 0
  Filed D prev [] cs = cs ≡ []
  Filed D prev (s ∷ segs) cs =
      (here : List Change) × (later : List Change) × (cs ≡ here ++ later)
      × Records D prev s here
      × Filed D s.chain segs later

  -- The open file holds the changes `unsealed`, and so does the hasher; they are counted, and the
  -- first and the last position are kept.
  abbrev pub Unsealed :
      Assoc Bytes → Option Bytes → Bytes → ℕ → Bytes → Bytes → List Change → Type 0
  Unsealed D none hashed count start end unsealed = unsealed ≡ []
  Unsealed D (some name) hashed count start end unsealed =
      (lookup name D ≡ some (render unsealed))
      × (hashed ≡ render unsealed)
      × (count ≡ length unsealed)
      × (start ≡ first_lsn unsealed)
      × (end ≡ last_lsn [] unsealed)

  pub record Recorded (hist : List Change) (a : Archive) (D : Assoc Bytes) : Type 0 where
    pub sealed : List Change
    pub unsealed : List Change
    pub whole : hist ≡ sealed ++ unsealed
    pub filed : Filed D [] (cores a.man.segments) sealed
    pub open_file : Unsealed D a.cur a.hashed a.cur_count a.cur_start a.cur_end unsealed

  Records-same :
      (D D' : Assoc Bytes) (prev : Bytes) (s : Segment) (here : List Change)
      → lookup s.file D' ≡ lookup s.file D
      → Records D prev s here
      → Records D' prev s here
  Records-same D D' prev s here e r = record {
    in_file = e ∙ r.in_file;
    hash = r.hash;
    count = r.count;
    some_change = r.some_change;
    starts = r.starts;
    ends = r.ends;
    follows = r.follows;
    chained = r.chained;
  }

  -- A change of other files than the segments'.
  pub Filed-same :
      (D D' : Assoc Bytes) (prev : Bytes) (segs : List Segment) (cs : List Change)
      → All (λ s. lookup s.file D' ≡ lookup s.file D) segs
      → Filed D prev segs cs
      → Filed D' prev segs cs
  Filed-same D D' prev [] cs e h = h
  Filed-same D D' prev (s ∷ segs) cs e (here, later, split, r, rest) = (
    here,
    later,
    split,
    Records-same D D' prev s here e.0 r,
    Filed-same D D' s.chain segs later e.1 rest,
  )

  abbrev pub last_chain : Bytes → List Segment → Bytes
  last_chain prev [] = prev
  last_chain prev (s ∷ segs) = last_chain s.chain segs

  -- The last of the segments ends where the last of the changes does.
  pub Filed-ends :
      (D : Assoc Bytes) (prev before : Bytes) (segs : List Segment) (cs : List Change)
      → Filed D prev (cores segs) cs
      → last_end before segs ≡ last_lsn before cs
  unfolding last_end
  Filed-ends D prev before [] cs e = rw e refl
  Filed-ends D prev before (s ∷ segs) cs (here, later, split, r, rest) =
      Filed-ends D s.chain s.end_lsn segs later rest
      ∙ ap (λ l. last_lsn l later) (ends_here here r)
      ∙ sym (last_lsn-two before here later)
      ∙ ap (last_lsn before) (sym split)
    where
      ends_here :
          (here : List Change) → Records D prev (core s) here → s.end_lsn ≡ last_lsn before here
      ends_here [] r = absurd (omega (arith, r.some_change, r.count))
      ends_here (c ∷ cs) r = r.ends

  -- The first of the segments hold the first of the changes.
  pub Filed-first :
      (D : Assoc Bytes) (prev : Bytes) (xs ys : List Segment) (cs : List Change)
      → Filed D prev (xs ++ ys) cs
      → (upto : List Change) × (later : List Change) × (cs ≡ upto ++ later) × Filed D prev xs upto
  Filed-first D prev [] ys cs h = ([], cs, refl, refl)
  Filed-first D prev (x ∷ xs) ys cs (here, later, split, r, rest) =
      let (upto, after, e, h) = Filed-first D x.chain xs ys later rest in
      (
        here ++ upto,
        after,
        split ∙ ap (λ cs. here ++ cs) e ∙ sym (append_assoc here upto after),
        (here, upto, refl, r, h),
      )

  -- One more segment at the end.
  pub Filed-append :
      (D : Assoc Bytes) (prev : Bytes) (segs : List Segment) (s : Segment) (cs here : List Change)
      → Filed D prev segs cs
      → Records D (last_chain prev segs) s here
      → Filed D prev (segs ++ s ∷ []) (cs ++ here)
  Filed-append D prev [] s cs here h r =
      (here, [], ap (λ cs. cs ++ here) h ∙ sym (append-nil here), r, refl)
  Filed-append D prev (t ∷ segs) s cs here (mine, later, split, first, rest) r = (
    mine,
    later ++ here,
    ap (λ cs. cs ++ here) split ∙ append_assoc mine later here,
    first,
    Filed-append D t.chain segs s later here rest r,
  )

pub last_chain-cores :
    (p : Platform) (prev : Bytes) (segs : List Segment) (s : Segment)
    → last_chain p prev (cores (s ∷ segs)) ≡ chain_of (last? (s ∷ segs))
last_chain-cores p prev [] s = refl
last_chain-cores p prev (t ∷ segs) s = last_chain-cores p s.chain segs t

-- The files of numbered segments are neither the manifest nor its temporary file.
pub Numbered-same :
    (D D' : Assoc Bytes) (k : ℕ) (segs : List Segment)
    → SameFiles D D'
    → Numbered k segs
    → All (λ s. lookup s.file D' ≡ lookup s.file D) (cores segs)
Numbered-same D D' k [] same h = tt
Numbered-same D D' k (s ∷ segs) same h = (
  same s.file (λ e. segment_name-ne-manifest_name k (sym h.1 ∙ e))
      (λ e. segment_name-ne-manifest_tmp k (sym h.1 ∙ e)),
  Numbered-same D D' (suc k) segs same h.2,
)

-- Nor are they the file of a later number.
pub Numbered-insert :
    (D : Assoc Bytes) (n : ℕ) (b : Bytes) (k : ℕ) (segs : List Segment)
    → k + length segs ≤ n
    → Numbered k segs
    → All (λ s. lookup s.file (insert (segment_name n) b D) ≡ lookup s.file D) (cores segs)
Numbered-insert D n b k [] le h = tt
Numbered-insert D n b k (s ∷ segs) le h = (
  lookup-insert_ne (segment_name n) s.file b D
      (λ e. (Numbered-other n k (s ∷ segs) h (inr le)).0 (sym e)),
  Numbered-insert D n b (suc k) segs (omega arith) h.2,
)

module _ (p : Platform) (hist : List Change) (a : Archive) (D D' : Assoc Bytes) where
  -- The rewriting of the manifest.
  pub Recorded-same :
      SameFiles D D'
      → Numbered 1 a.man.segments
      → ((name : Bytes) → a.cur ≡ some name → (n : ℕ) × (name ≡ segment_name n))
      → Recorded p hist a D
      → Recorded p hist a D'
  Recorded-same same numbered opened r = record {
    sealed = r.sealed;
    unsealed = r.unsealed;
    whole = r.whole;
    filed = Filed-same p D D' [] _ r.sealed (Numbered-same D D' 1 _ same numbered) r.filed;
    open_file = still a.cur opened r.open_file;
  }
    where
      still :
          (cur : Option Bytes)
          → ((name : Bytes) → cur ≡ some name → (n : ℕ) × (name ≡ segment_name n))
          → Unsealed p D cur a.hashed a.cur_count a.cur_start a.cur_end r.unsealed
          → Unsealed p D' cur a.hashed a.cur_count a.cur_start a.cur_end r.unsealed
      still none opened h = h
      still (some name) opened (found, hashes, counts, starts, ends) = (
        same name
              (λ e.
                segment_name-ne-manifest_name (opened name refl).0 (sym (opened name refl).1 ∙ e))
              (λ e.
                segment_name-ne-manifest_tmp (opened name refl).0 (sym (opened name refl).1 ∙ e))
            ∙ found,
        hashes,
        counts,
        starts,
        ends,
      )
