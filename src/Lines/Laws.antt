-- ===== src/Lines/Laws.antt =====
-- What the scanner makes of a text of lines.
use pgvolvra.Base.{
  ℕ, ◌+◌, ◌<◌, ◌≡◌, refl, ◌∙◌, ap, Bool, false, some, List, [], ◌∷◌, ◌++◌, append_assoc, append-nil,
  Bytes, length, any, last?, All, arith, ◌==◌, lt→ltb, length-append, Bool-cases, inl, inr,
}
use pgvolvra.Lines.{found, clean, drop_cr, scan_from, scan_end, scan, max_token, join_lines}

abbrev pub newline : ℕ → Bool
newline b = b == b'\n'

append_one : (before l : Bytes) (b : ℕ) → (before ++ b ∷ []) ++ l ≡ before ++ (b ∷ l)
append_one before l b = append_assoc before (b ∷ []) l

scan_other :
    (limit : ℕ) (before : Bytes) (b : ℕ) (bs : Bytes) (broken : Bool)
    → newline b ≡ false
    → length before < limit
    → scan_from limit before (b ∷ bs) broken ≡ scan_from limit (before ++ b ∷ []) bs broken
unfolding scan_from
scan_other limit before b bs broken other fits = rw (lt→ltb (length before) limit fits, other) refl

-- A line without newline is read up to the newline behind it.
scan_line :
    (limit : ℕ) (before l rest : Bytes) (broken : Bool)
    → any newline l ≡ false
    → length before + length l < limit
    → scan_from limit before (l ++ (b'\n' ∷ rest)) broken
      ≡ found (before ++ l) (scan_from limit [] rest broken)
unfolding scan_from
scan_line limit before [] rest broken plain fits =
    rw (lt→ltb (length before) limit (omega arith), append-nil)
scan_line limit before (b ∷ l) rest broken plain fits = elim (Bool-cases (newline b)) [
  | inl e ↦ absurd (ground (arith, plain, e))
  | inr e ↦
      scan_other limit before b (l ++ (b'\n' ∷ rest)) broken e (omega arith)
      ∙ scan_line limit (before ++ b ∷ []) l rest broken (ground (arith, plain, e))
          (omega (arith, length-append {0} before (b ∷ [])))
      ∙ ap (λ t. found t (scan_from limit [] rest broken)) (append_one before l b)
]

drop_cr-other : (l : Bytes) (b : ℕ) → last? l ≡ some b → (b == b'\r') ≡ false → drop_cr l ≡ l
unfolding drop_cr
drop_cr-other [] b e other = refl
drop_cr-other (c ∷ []) b e other = ground (arith, e, other)
drop_cr-other (c ∷ d ∷ l) b e other = ap (λ t. c ∷ t) (drop_cr-other (d ∷ l) b e other)

-- A line as the archive writes them: no newline in it, a brace at its end, and short enough.
abbrev pub Plain : Bytes → Type 0
Plain l = (any newline l ≡ false) × (last? l ≡ some b'}') × (length l < max_token)

scan_join :
    (ls : List Bytes)
    → All Plain ls
    → scan_from max_token [] (join_lines ls) false ≡ record { lines = ls; ending = clean }
unfolding scan_from scan_end
scan_join [] h = refl
scan_join (l ∷ ls) h =
    ap (λ t. scan_from max_token [] t false) (append_assoc l (b'\n' ∷ []) (join_lines ls))
    ∙ scan_line max_token [] l (join_lines ls) false h.0.0 (omega (arith, h.0.2))
    ∙ ap (λ r. found l r) (scan_join ls h.1)
    ∙ ap (λ t. record { lines = t ∷ ls; ending = clean }) (drop_cr-other l b'}' h.0.1 refl)

-- From a text of lines, each with its newline, the scanner delivers those lines, and a clean end. The
-- conditions are that no line has a newline in it, that each ends in a brace, and that each is shorter
-- than the buffer.
pub scan-join_lines :
    (ls : List Bytes)
    → All Plain ls
    → scan (record { content = join_lines ls; broken = false })
      ≡ record { lines = ls; ending = clean }
unfolding scan
scan-join_lines ls h = scan_join ls h
