-- ===== src/Cli/Render.antt =====
-- The tables that the command line prints (cli/table.go). Texts are valid UTF-8, as the database sends
-- them.
use pgvolvra.Base.{
  ℕ, zero, suc, ◌+◌, ◌-◌, ◌/◌, Bool, true, false, ◌&&◌, Option, none, some, List, [], ◌∷◌, ◌++◌,
  Bytes, codes, length, leb, ltb, map, if◌then◌else◌,
}
use pgvolvra.Format.Names.{decimal}

-- A byte that does not begin a character.
abbrev pub continues : ℕ → Bool
continues b = leb 128 b && ltb b 192

-- `cellWidth`: the characters of a text.
unfoldable pub cell_width : Bytes → ℕ
cell_width [] = 0
cell_width (b ∷ bs) = (if continues b then 0 else 1) + cell_width bs

-- `strings.Repeat`
unfoldable pub repeated : ℕ → Bytes → Bytes
repeated zero b = []
repeated (suc n) b = b ++ repeated n b

-- The widths after a row: a column is as wide as its widest cell.
unfoldable pub widen : List ℕ → List Bytes → List ℕ
widen [] cells = []
widen (w ∷ ws) [] = w ∷ ws
widen (w ∷ ws) (c ∷ cells) = (if ltb w (cell_width c) then cell_width c else w) ∷ widen ws cells

unfoldable pub widths : List ℕ → List (List Bytes) → List ℕ
unfolding widen
widths ws [] = ws
widths ws (r ∷ rows) = widths (widen ws r) rows

-- A character of the box drawings, whose last byte is given.
abbrev pub glyph : ℕ → Bytes
glyph b = 226 ∷ 148 ∷ b ∷ []

abbrev pub bar : Bytes
bar = glyph 130

abbrev pub blank : Bytes
blank = b' ' ∷ []

unfoldable pub rule_parts : Bytes → List ℕ → Bytes
unfolding repeated
rule_parts mid [] = []
rule_parts mid (w ∷ []) = repeated (w + 2) (glyph 128)
rule_parts mid (w ∷ v ∷ ws) = repeated (w + 2) (glyph 128) ++ (mid ++ rule_parts mid (v ∷ ws))

-- `rule`
unfoldable pub rule : Bytes → Bytes → Bytes → List ℕ → Bytes
unfolding rule_parts
rule l mid r ws = l ++ (rule_parts mid ws ++ r)

abbrev pub cell_of : List Bytes → Bytes
cell_of [] = []
cell_of (c ∷ cells) = c

abbrev pub cells_after : List Bytes → List Bytes
cells_after [] = []
cells_after (c ∷ cells) = cells

-- A cell with `pad` blanks.
abbrev pub padded : Bool → Bytes → ℕ → Bytes
padded true cell pad =
    blank ++ (repeated (pad / 2) blank ++ (cell ++ (repeated (pad - pad / 2) blank ++ blank)))
padded false cell pad = blank ++ (cell ++ (repeated pad blank ++ blank))

-- A cell in a column; `strings.Repeat` panics at a negative count.
abbrev pub cell_text : Bool → ℕ → Bytes → Option Bytes
cell_text centre w cell =
    if ltb w (cell_width cell) then none else some (padded centre cell (w - cell_width cell))

abbrev pub behind : Option Bytes → Option Bytes → Option Bytes
behind none rest = none
behind (some text) none = none
behind (some text) (some rest) = some (text ++ (bar ++ rest))

unfoldable pub line_parts : Bool → List ℕ → List Bytes → Option Bytes
unfolding repeated cell_width
line_parts centre [] cells = some []
line_parts centre (w ∷ ws) cells =
    behind (cell_text centre w (cell_of cells)) (line_parts centre ws (cells_after cells))

abbrev pub barred : Option Bytes → Option Bytes
barred none = none
barred (some text) = some (bar ++ text)

-- `line`
unfoldable pub line : Bool → List ℕ → List Bytes → Option Bytes
unfolding line_parts
line centre ws cells = barred (line_parts centre ws cells)

abbrev pub added : Option Bytes → Option (List Bytes) → Option (List Bytes)
added none rest = none
added (some l) none = none
added (some l) (some ls) = some (l ∷ ls)

unfoldable pub body : List ℕ → List (List Bytes) → Option (List Bytes)
unfolding line rule
body ws [] = some (rule (glyph 148) (glyph 180) (glyph 152) ws ∷ [])
body ws (r ∷ rows) = added (line false ws r) (body ws rows)

abbrev pub framed : List ℕ → Option Bytes → Option (List Bytes) → Option (List Bytes)
framed ws none rest = none
framed ws (some title) none = none
framed ws (some title) (some ls) = some (
    rule (glyph 140) (glyph 172) (glyph 144) ws
    ∷ title
    ∷ rule (glyph 156) (glyph 188) (glyph 164) ws
    ∷ ls)

abbrev pub written : List ℕ → List Bytes → List (List Bytes) → Option (List Bytes)
written ws cols rows = framed ws (line true ws cols) (body ws rows)

-- The line behind the table.
abbrev pub row_count : ℕ → Bytes
row_count zero = codes "(0 rows)"
row_count (suc zero) = codes "(1 row)"
row_count (suc (suc n)) = codes "(" ++ (decimal (suc (suc n)) ++ codes " rows)")

abbrev pub footed : ℕ → Option (List Bytes) → Option (List Bytes)
footed rows none = none
footed rows (some ls) = some (ls ++ row_count rows ∷ [])

-- `Write`: what is printed, each text with a line break behind it. Of a table without columns that is
-- nothing.
unfoldable pub write : List Bytes → List (List Bytes) → Option (List Bytes)
unfolding widths line body rule cell_width
write [] rows = some []
write (c ∷ cols) rows =
    footed (length rows) (written (widths (map cell_width (c ∷ cols)) rows) (c ∷ cols) rows)
