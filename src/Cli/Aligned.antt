-- ===== src/Cli/Aligned.antt =====
-- On the texts of a printed table (cli/table.go, Write).
use pgvolvra.Base.{
  ℕ, zero, suc, ◌+◌, ◌-◌, ◌/◌, ◌≤◌, ◌<◌, ◌≡◌, refl, subst, Bool, true, false, Option, some, List,
  [], ◌∷◌, ◌++◌, Bytes, length, ◌⊎◌, inl, inr, ap, map, All, arith,
}
use pgvolvra.Cli.Render.{
  cell_width, repeated, widths, glyph, bar, blank, rule_parts, rule, padded, cell_text, behind,
  line_parts, line, body, written, row_count, footed, write,
}
use pgvolvra.Cli.Widths.{
  span, FitsIn, Wider, FitsIn-Wider, Wider-widths, FitsIn-widths, FitsIn-titles,
}

cell_width-append : (a b : Bytes) → cell_width (a ++ b) ≡ cell_width a + cell_width b
unfolding cell_width
cell_width-append [] b = omega arith
cell_width-append (x ∷ a) b = omega (arith, cell_width-append a b)

-- A text of one character, repeated.
cell_width-repeated : (n : ℕ) (b : Bytes) → cell_width b ≡ 1 → cell_width (repeated n b) ≡ n
unfolding repeated cell_width
cell_width-repeated zero b e = refl
cell_width-repeated (suc n) b e =
    omega (arith, cell_width-append b (repeated n b), cell_width-repeated n b e)

glyph_width : (b : ℕ) → b < 192 → 128 ≤ b → cell_width (glyph b) ≡ 1
unfolding cell_width
glyph_width b h k = ground (arith, h, k)

blanks_width : (n : ℕ) → cell_width (repeated n blank) ≡ n
unfolding cell_width
blanks_width n = cell_width-repeated n blank refl

dashes_width : (n : ℕ) → cell_width (repeated n (glyph 128)) ≡ n
dashes_width n = cell_width-repeated n (glyph 128) (glyph_width 128 (omega arith) (omega arith))

blank_width : cell_width blank ≡ 1
unfolding cell_width
blank_width = refl

padded-width :
    (centre : Bool) (cell : Bytes) (pad : ℕ)
    → cell_width (padded centre cell pad) ≡ cell_width cell + pad + 2
padded-width true cell pad =
    let left = repeated (pad / 2) blank in
    let right = repeated (pad - pad / 2) blank in
    omega (
      arith,
      cell_width-append blank (left ++ (cell ++ (right ++ blank))),
      cell_width-append left (cell ++ (right ++ blank)),
      cell_width-append cell (right ++ blank),
      cell_width-append right blank,
      blanks_width (pad / 2),
      blanks_width (pad - pad / 2),
      blank_width,
    )
padded-width false cell pad = omega (
  arith,
  cell_width-append blank (cell ++ (repeated pad blank ++ blank)),
  cell_width-append cell (repeated pad blank ++ blank),
  cell_width-append (repeated pad blank) blank,
  blanks_width pad,
  blank_width,
)

-- A text of this width.
abbrev Wide : ℕ → Option Bytes → Type 0
Wide n o = (text : Bytes) × (o ≡ some text) × (cell_width text ≡ n)

cell_text-Wide :
    (centre : Bool) (w : ℕ) (cell : Bytes)
    → cell_width cell ≤ w
    → Wide (w + 2) (cell_text centre w cell)
cell_text-Wide centre w cell h = (
  padded centre cell (w - cell_width cell),
  ground (arith, h),
  omega (arith, padded-width centre cell (w - cell_width cell)),
)

behind-Wide :
    (m n : ℕ) (o rest : Option Bytes) → Wide m o → Wide n rest → Wide (m + (1 + n)) (behind o rest)
behind-Wide m n o rest (text, e, a) (more, f, b) = (
  text ++ (bar ++ more),
  rw (e, f) refl,
  omega (
    arith,
    cell_width-append text (bar ++ more),
    cell_width-append bar more,
    glyph_width 130 (omega arith) (omega arith),
  ),
)

resized : (m n : ℕ) (o : Option Bytes) → m ≡ n → Wide m o → Wide n o
resized m n o e h = subst (λ k. Wide k o) e h

nothing_fits : (w : ℕ) → cell_width [] ≤ w
unfolding cell_width
nothing_fits w = omega arith

no_cells : (ws : List ℕ) → FitsIn ws []
no_cells [] = tt
no_cells (w ∷ ws) = tt

line_parts-Wide :
    (centre : Bool) (ws : List ℕ) (cells : List Bytes)
    → FitsIn ws cells
    → (n : ℕ) × (n + 1 ≡ span ws) × Wide n (line_parts centre ws cells)
unfolding line_parts
line_parts-Wide centre [] cells h = (0, refl, ([], refl, nothing_width))
  where
    nothing_width : cell_width [] ≡ 0
    nothing_width = omega (arith, nothing_fits 0)
line_parts-Wide centre (w ∷ ws) [] h =
    let (n, e, rest) = line_parts-Wide centre ws [] (no_cells ws) in
    (
      w + 2 + (1 + n),
      omega (arith, e),
      behind-Wide (w + 2) n _ _ (cell_text-Wide centre w [] (nothing_fits w)) rest,
    )
line_parts-Wide centre (w ∷ ws) (c ∷ cells) (a, h) =
    let (n, e, rest) = line_parts-Wide centre ws cells h in
    (
      w + 2 + (1 + n),
      omega (arith, e),
      behind-Wide (w + 2) n _ _ (cell_text-Wide centre w c a) rest,
    )

line-Wide :
    (centre : Bool) (ws : List ℕ) (cells : List Bytes)
    → FitsIn ws cells
    → Wide (span ws) (line centre ws cells)
unfolding line
line-Wide centre ws cells h =
    let (n, e, (text, f, a)) = line_parts-Wide centre ws cells h in
    (
      bar ++ text,
      rw f refl,
      omega (arith, e, a, cell_width-append bar text, glyph_width 130 (omega arith) (omega arith)),
    )

rule_parts-width :
    (mid : Bytes) (w : ℕ) (ws : List ℕ)
    → cell_width mid ≡ 1
    → cell_width (rule_parts mid (w ∷ ws)) + 2 ≡ span (w ∷ ws)
unfolding rule_parts
rule_parts-width mid w [] e = omega (arith, dashes_width (w + 2))
rule_parts-width mid w (v ∷ ws) e = omega (
  arith,
  rule_parts-width mid v ws e,
  dashes_width (w + 2),
  cell_width-append (repeated (w + 2) (glyph 128)) (mid ++ rule_parts mid (v ∷ ws)),
  cell_width-append mid (rule_parts mid (v ∷ ws)),
)

rule-width :
    (l mid r : Bytes) (w : ℕ) (ws : List ℕ)
    → cell_width l ≡ 1
    → cell_width mid ≡ 1
    → cell_width r ≡ 1
    → cell_width (rule l mid r (w ∷ ws)) ≡ span (w ∷ ws)
unfolding rule
rule-width l mid r w ws a b c = omega (
  arith,
  cell_width-append l (rule_parts mid (w ∷ ws) ++ r),
  cell_width-append (rule_parts mid (w ∷ ws)) r,
  rule_parts-width mid w ws b,
)

-- So many texts of this width, printed without a panic.
abbrev pub Even : ℕ → ℕ → Option (List Bytes) → Type 0
Even k n o = (ls : List Bytes) × (o ≡ some ls) × (length ls ≡ k) × All (λ l. cell_width l ≡ n) ls

-- The same of a whole table: its frame, its title and its rows, and the number of rows behind them.
abbrev pub Tabled : List Bytes → List (List Bytes) → Option (List Bytes) → Type 0
Tabled cols rows o =
    (ls : List Bytes) × (o ≡ some (ls ++ row_count (length rows) ∷ []))
    × (length ls ≡ length rows + 4)
    × All (λ l. cell_width l ≡ span (widths (map cell_width cols) rows)) ls

rule-Even :
    (l mid r : ℕ) (w : ℕ) (ws : List ℕ)
    → (l < 192) × (128 ≤ l)
    → (mid < 192) × (128 ≤ mid)
    → (r < 192) × (128 ≤ r)
    → cell_width (rule (glyph l) (glyph mid) (glyph r) (w ∷ ws)) ≡ span (w ∷ ws)
rule-Even l mid r w ws a b c =
    rule-width (glyph l) (glyph mid) (glyph r) w ws (glyph_width l a.0 a.1)
      (glyph_width mid b.0 b.1) (glyph_width r c.0 c.1)

body-Even :
    (w : ℕ) (ws : List ℕ) (rows : List (List Bytes))
    → All (FitsIn (w ∷ ws)) rows
    → Even (length rows + 1) (span (w ∷ ws)) (body (w ∷ ws) rows)
unfolding body
body-Even w ws [] h = (
  rule (glyph 148) (glyph 180) (glyph 152) (w ∷ ws) ∷ [],
  refl,
  refl,
  (rule-Even 148 180 152 w ws (omega arith) (omega arith) (omega arith), tt),
)
body-Even w ws (r ∷ rows) (f, h) =
    let (text, e, a) = line-Wide false (w ∷ ws) r f in
    let (ls, g, count, all) = body-Even w ws rows h in
    (text ∷ ls, rw (e, g) refl, omega (arith, count), (a, all))

written-Even :
    (w : ℕ) (ws : List ℕ) (cols : List Bytes) (rows : List (List Bytes))
    → FitsIn (w ∷ ws) cols
    → All (FitsIn (w ∷ ws)) rows
    → Even (length rows + 4) (span (w ∷ ws)) (written (w ∷ ws) cols rows)
written-Even w ws cols rows f h =
    let (text, e, a) = line-Wide true (w ∷ ws) cols f in
    let (ls, g, count, all) = body-Even w ws rows h in
    (
      rule (glyph 140) (glyph 172) (glyph 144) (w ∷ ws)
          ∷ text
          ∷ rule (glyph 156) (glyph 188) (glyph 164) (w ∷ ws)
          ∷ ls,
      rw (e, g) refl,
      omega (arith, count),
      (
        rule-Even 140 172 144 w ws (omega arith) (omega arith) (omega arith),
        (a, (rule-Even 156 188 164 w ws (omega arith) (omega arith) (omega arith), all)),
      ),
    )

-- A table is printed without a panic: nothing where it has no columns; else its frame, its title and
-- its rows, however many cells a row has, as texts that all have the same number of characters (one
-- line each, where no cell has a line break), and behind them the number of rows.
pub write-Even :
    (cols : List Bytes) (rows : List (List Bytes))
    → ((cols ≡ []) × (write cols rows ≡ some [])) ⊎ Tabled cols rows (write cols rows)
unfolding write
write-Even [] rows = inl (refl, refl)
write-Even (c ∷ cols) rows =
    let (ls, e, count, all) =
      shaped (cell_width c) (map cell_width cols) (widths (map cell_width (c ∷ cols)) rows)
        (Wider-widths (map cell_width (c ∷ cols)) rows)
        (FitsIn-Wider (map cell_width (c ∷ cols)) _ (c ∷ cols)
          (Wider-widths (map cell_width (c ∷ cols)) rows) (FitsIn-titles (c ∷ cols)))
        (FitsIn-widths (map cell_width (c ∷ cols)) rows) in
    inr (ls, ap (footed (length rows)) e, count, all)
  where
    shaped :
        (x : ℕ) (xs l : List ℕ)
        → Wider (x ∷ xs) l
        → FitsIn l (c ∷ cols)
        → All (FitsIn l) rows
        → Even (length rows + 4) (span l) (written l (c ∷ cols) rows)
    shaped x xs [] h f all = absurd h
    shaped x xs (w ∷ ws) h f all = written-Even w ws (c ∷ cols) rows f all
