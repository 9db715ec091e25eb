-- ===== src/Restore/Quote.antt =====
-- On the literals of the statements (companion/restore.go, quoteLiteral), as the database reads them.
use pgvolvra.Base.{
  ==_iff, sym, ap, append_assoc, append_assoc, ◌∙◌, ap, false, ℕ, ◌≡◌, refl, Bool, Option, none,
  some, [], ◌∷◌, ◌++◌, Bytes, ◌==◌, if◌then◌else◌, Bool-cases, inl, inr,
}
use pgvolvra.Restore.{quote_literal, doubled}

-- How a server with standard_conforming_strings reads on inside a literal: two quotes are one, a
-- single one ends it. The answer is the text, and what follows the literal.
abbrev before : ℕ → Option (Bytes × Bytes) → Option (Bytes × Bytes)
before b none = none
before b (some (text, rest)) = some (b ∷ text, rest)

unfoldable pub read_inside : Bytes → Option (Bytes × Bytes)
read_inside [] = none
read_inside (b ∷ []) = if b == b'\'' then some ([], []) else none
read_inside (b ∷ c ∷ bs) =
    let pair = before b (read_inside bs) in
    let plain = before b (read_inside (c ∷ bs)) in
    if b == b'\'' then (if c == b'\'' then pair else some ([], c ∷ bs)) else plain

unfoldable pub read_literal : Bytes → Option (Bytes × Bytes)
unfolding read_inside
read_literal [] = none
read_literal (b ∷ bs) = let inside = read_inside bs in if b == b'\'' then inside else none

abbrev pub starts_quote : Bytes → Bool
starts_quote [] = false
starts_quote (b ∷ bs) = b == b'\''

read_inside-other :
    (b : ℕ) (t : Bytes) → (b == b'\'') ≡ false → read_inside (b ∷ t) ≡ before b (read_inside t)
unfolding read_inside
read_inside-other b [] e = rw e refl
read_inside-other b (c ∷ t) e = rw e refl

read_inside-doubled :
    (s rest : Bytes)
    → starts_quote rest ≡ false
    → read_inside (doubled s ++ (b'\'' ∷ rest)) ≡ some (s, rest)
unfolding read_inside doubled
read_inside-doubled [] [] e = refl
read_inside-doubled [] (c ∷ rest) e = rw e refl
read_inside-doubled (b ∷ s) rest e = elim (Bool-cases (b == b'\'')) [
  | inl q ↦
      rw (q, read_inside-doubled s rest e, q)
        (ap (λ c. some (c ∷ s, rest)) (sym ((==_iff b b'\'').0 q)))
  | inr o ↦ rw o (read_inside-other b _ o ∙ ap (before b) (read_inside-doubled s rest e))
]

-- A quoted literal, in front of a text that does not begin with a quote, is read by the server as the
-- text that was quoted, and ends where it was ended.
pub read_literal-quote_literal :
    (s rest : Bytes)
    → starts_quote rest ≡ false
    → read_literal (quote_literal s ++ rest) ≡ some (s, rest)
unfolding read_literal quote_literal
read_literal-quote_literal s rest e =
    ap read_inside (append_assoc (doubled s) (b'\'' ∷ []) rest) ∙ read_inside-doubled s rest e
