-- ===== src/Feed/Naming.antt =====
-- The name of a table that a relation message gives, in the quotes of `quoteIdent`, read as the
-- database reads a qualified name.
use pgvolvra.Base.{
  ==_iff, sym, ap, append_assoc, ◌∙◌, false, ℕ, ◌≡◌, refl, Bool, Option, none, some, [], ◌∷◌, ◌++◌,
  Bytes, ◌==◌, if◌then◌else◌, Bool-cases, inl, inr,
}
use pgvolvra.Feed.{quote_ident, doubled}

-- How a server reads on inside a quoted identifier: two quotes are one, a single one ends it. The
-- answer is the identifier, and what follows it.
abbrev before : ℕ → Option (Bytes × Bytes) → Option (Bytes × Bytes)
before b none = none
before b (some (text, rest)) = some (b ∷ text, rest)

unfoldable pub read_inside : Bytes → Option (Bytes × Bytes)
read_inside [] = none
read_inside (b ∷ []) = if b == b'"' then some ([], []) else none
read_inside (b ∷ c ∷ bs) =
    let pair = before b (read_inside bs) in
    let plain = before b (read_inside (c ∷ bs)) in
    if b == b'"' then (if c == b'"' then pair else some ([], c ∷ bs)) else plain

unfoldable pub read_ident : Bytes → Option (Bytes × Bytes)
unfolding read_inside
read_ident [] = none
read_ident (b ∷ bs) = let inside = read_inside bs in if b == b'"' then inside else none

-- The schema, a dot, and the table with nothing after it.
abbrev ending : Bytes → Option (Bytes × Bytes) → Option (Bytes × Bytes)
ending schema (some (name, [])) = some (schema, name)
ending schema (some (name, b ∷ bs)) = none
ending schema none = none

abbrev dotted : Option (Bytes × Bytes) → Option (Bytes × Bytes)
dotted none = none
dotted (some (schema, [])) = none
dotted (some (schema, b ∷ bs)) =
    let name = ending schema (read_ident bs) in if b == b'.' then name else none

unfoldable pub read_name : Bytes → Option (Bytes × Bytes)
unfolding read_ident
read_name bs = dotted (read_ident bs)

abbrev starts_quote : Bytes → Bool
starts_quote [] = false
starts_quote (b ∷ bs) = b == b'"'

read_inside-other :
    (b : ℕ) (t : Bytes) → (b == b'"') ≡ false → read_inside (b ∷ t) ≡ before b (read_inside t)
unfolding read_inside
read_inside-other b [] e = rw e refl
read_inside-other b (c ∷ t) e = rw e refl

read_inside-doubled :
    (s rest : Bytes)
    → starts_quote rest ≡ false
    → read_inside (doubled s ++ (b'"' ∷ rest)) ≡ some (s, rest)
unfolding read_inside doubled
read_inside-doubled [] [] e = refl
read_inside-doubled [] (c ∷ rest) e = rw e refl
read_inside-doubled (b ∷ s) rest e = elim (Bool-cases (b == b'"')) [
  | inl q ↦
      rw (q, read_inside-doubled s rest e, q)
        (ap (λ c. some (c ∷ s, rest)) (sym ((==_iff b b'"').0 q)))
  | inr o ↦ rw o (read_inside-other b _ o ∙ ap (before b) (read_inside-doubled s rest e))
]

read_ident-quote_ident :
    (s rest : Bytes)
    → starts_quote rest ≡ false
    → read_ident (quote_ident s ++ rest) ≡ some (s, rest)
unfolding read_ident quote_ident
read_ident-quote_ident s rest e =
    ap read_inside (append_assoc (doubled s) (b'"' ∷ []) rest) ∙ read_inside-doubled s rest e

read_ident-quote_ident_alone : (s : Bytes) → read_ident (quote_ident s) ≡ some (s, [])
unfolding read_ident quote_ident
read_ident-quote_ident_alone s = read_inside-doubled s [] refl

-- The quoted schema and the quoted table with a dot between them are read by the server as that
-- schema and that table, whatever quotes and dots are in the two names.
pub read_name-quote_ident :
    (schema name : Bytes)
    → read_name (quote_ident schema ++ (b'.' ∷ quote_ident name)) ≡ some (schema, name)
unfolding read_name
read_name-quote_ident schema name =
    ap dotted (read_ident-quote_ident schema (b'.' ∷ quote_ident name) refl)
    ∙ ap (ending schema) (read_ident-quote_ident_alone name)
