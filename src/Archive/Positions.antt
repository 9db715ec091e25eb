-- ===== src/Archive/Positions.antt =====
-- The positions of the first and the last of some changes, which a segment's entry in the manifest has
-- (companion/archive.go, Append, Rotate).
use pgvolvra.Base.{◌≡◌, refl, List, [], ◌∷◌, ◌++◌, Bytes, is_empty, if◌then◌else◌}
use pgvolvra.Format.{Change}

-- The position of the last change, or of before.
abbrev pub last_lsn : Bytes → List Change → Bytes
last_lsn before [] = before
last_lsn before (c ∷ cs) = last_lsn c.lsn cs

-- The first position of the changes that have one.
abbrev pub first_lsn : List Change → Bytes
first_lsn [] = []
first_lsn (c ∷ cs) = let later = first_lsn cs in if is_empty c.lsn then later else c.lsn

pub first_lsn-append :
    (cs : List Change) (c : Change)
    → first_lsn (cs ++ c ∷ []) ≡ (if is_empty (first_lsn cs) then c.lsn else first_lsn cs)
first_lsn-append [] c = only c.lsn
  where
    only : (lsn : Bytes) → (if is_empty lsn then [] else lsn) ≡ lsn
    only [] = refl
    only (b ∷ lsn) = refl
first_lsn-append (d ∷ cs) c = by_first d.lsn (first_lsn-append cs c)
  where
    by_first :
        (lsn : Bytes)
        → first_lsn (cs ++ c ∷ []) ≡ (if is_empty (first_lsn cs) then c.lsn else first_lsn cs)
        → (if is_empty lsn then first_lsn (cs ++ c ∷ []) else lsn) ≡ (
            if is_empty (if is_empty lsn then first_lsn cs else lsn)
            then c.lsn
            else if is_empty lsn
            then first_lsn cs
            else lsn)
    by_first [] e = e
    by_first (b ∷ lsn) e = refl

pub last_lsn-append :
    (before : Bytes) (cs : List Change) (c : Change) → last_lsn before (cs ++ c ∷ []) ≡ c.lsn
last_lsn-append before [] c = refl
last_lsn-append before (d ∷ cs) c = last_lsn-append d.lsn cs c

pub last_lsn-two :
    (before : Bytes) (xs ys : List Change)
    → last_lsn before (xs ++ ys) ≡ last_lsn (last_lsn before xs) ys
last_lsn-two before [] ys = refl
last_lsn-two before (x ∷ xs) ys = last_lsn-two x.lsn xs ys
