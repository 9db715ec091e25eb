-- ===== src/Cli/Widths.antt =====
-- On the cells and the widths of a table's columns (cli/table.go).
use pgvolvra.Base.{ℕ, ◌+◌, ◌≤◌, List, [], ◌∷◌, Bytes, map, All, arith}
use pgvolvra.Cli.Render.{cell_width, widen, widths}

-- The width of a line of the table.
abbrev pub span : List ℕ → ℕ
span [] = 1
span (w ∷ ws) = w + 3 + span ws

-- The cells are no wider than their columns.
abbrev pub FitsIn : List ℕ → List Bytes → Type 0
FitsIn [] cells = Unit {0}
FitsIn (w ∷ ws) [] = Unit {0}
FitsIn (w ∷ ws) (c ∷ cells) = (cell_width c ≤ w) × FitsIn ws cells

-- Widths that have grown.
abbrev pub Wider : List ℕ → List ℕ → Type 0
Wider [] [] = Unit {0}
Wider [] (v ∷ vs) = ⊥
Wider (w ∷ ws) [] = ⊥
Wider (w ∷ ws) (v ∷ vs) = (w ≤ v) × Wider ws vs

Wider-refl : (ws : List ℕ) → Wider ws ws
Wider-refl [] = tt
Wider-refl (w ∷ ws) = (omega arith, Wider-refl ws)

Wider-trans : (us vs ws : List ℕ) → Wider us vs → Wider vs ws → Wider us ws
Wider-trans [] [] [] h k = tt
Wider-trans [] [] (w ∷ ws) h k = k
Wider-trans [] (v ∷ vs) ws h k = absurd h
Wider-trans (u ∷ us) [] ws h k = absurd h
Wider-trans (u ∷ us) (v ∷ vs) [] h k = absurd k
Wider-trans (u ∷ us) (v ∷ vs) (w ∷ ws) (a, h) (b, k) = (omega arith, Wider-trans us vs ws h k)

pub FitsIn-Wider :
    (ws vs : List ℕ) (cells : List Bytes) → Wider ws vs → FitsIn ws cells → FitsIn vs cells
FitsIn-Wider [] [] cells h f = tt
FitsIn-Wider [] (v ∷ vs) cells h f = absurd h
FitsIn-Wider (w ∷ ws) [] cells h f = absurd h
FitsIn-Wider (w ∷ ws) (v ∷ vs) [] h f = tt
FitsIn-Wider (w ∷ ws) (v ∷ vs) (c ∷ cells) (a, h) (b, f) =
    (omega arith, FitsIn-Wider ws vs cells h f)

Wider-widen : (ws : List ℕ) (cells : List Bytes) → Wider ws (widen ws cells)
unfolding widen
Wider-widen [] cells = tt
Wider-widen (w ∷ ws) [] = Wider-refl (w ∷ ws)
Wider-widen (w ∷ ws) (c ∷ cells) = (ground arith, Wider-widen ws cells)

FitsIn-widen : (ws : List ℕ) (cells : List Bytes) → FitsIn (widen ws cells) cells
unfolding widen
FitsIn-widen [] cells = tt
FitsIn-widen (w ∷ ws) [] = tt
FitsIn-widen (w ∷ ws) (c ∷ cells) = (ground arith, FitsIn-widen ws cells)

pub Wider-widths : (ws : List ℕ) (rows : List (List Bytes)) → Wider ws (widths ws rows)
unfolding widths
Wider-widths ws [] = Wider-refl ws
Wider-widths ws (r ∷ rows) =
    Wider-trans ws (widen ws r) _ (Wider-widen ws r) (Wider-widths (widen ws r) rows)

pub FitsIn-widths : (ws : List ℕ) (rows : List (List Bytes)) → All (FitsIn (widths ws rows)) rows
unfolding widths
FitsIn-widths ws [] = tt
FitsIn-widths ws (r ∷ rows) = (
  FitsIn-Wider (widen ws r) _ r (Wider-widths (widen ws r) rows) (FitsIn-widen ws r),
  FitsIn-widths (widen ws r) rows,
)

pub FitsIn-titles : (cols : List Bytes) → FitsIn (map cell_width cols) cols
FitsIn-titles [] = tt
FitsIn-titles (c ∷ cols) = (omega arith, FitsIn-titles cols)
