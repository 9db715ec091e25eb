-- ===== src/Cli/Undo.antt =====
-- The commands that preview and apply an undo or a replay (cli/undo.go).
use pgvolvra.Base.{
  zero, ℕ, suc, ◌+◌, Bool, true, false, ◌&&◌, ◌||◌, Option, none, some, List, [], ◌∷◌, ◌++◌, Bytes,
  codes, beq, length, ◌==◌, if◌then◌else◌, map, leb,
}
use mathlib.Core.List.{reverse}
use pgvolvra.Exec.{Exec, Outcome, ok, err, no_terminal, ◌>>=◌, ◌>>◌, pure, throw}
use pgvolvra.Cli.Session.{
  Exit, exit_ok, exit_error, Arg, text, flag, Query, Session, Input, ask, shown, said, Printed,
  print, print_all, show_query,
}
use pgvolvra.Cli.Selector.{Selector, parse, selector_args, call_text}

pub data Direction : Type 0 where
  undo replay : Direction

abbrev pub select_text : Direction → Bytes → Bytes
select_text dir label =
    codes "\n\t\tSELECT seq, table_name AS \"table\", op, inverse_op AS applied,\n"
    ++ codes "\t\t       pk, conflict, left(stmt, 70) || '"
    ++ (226 ∷ 128 ∷ 166 ∷ [])
    ++ codes "' AS \""
    ++ label
    ++ codes "\"\n\t\tFROM "

-- The statement of `showPlanDir`
unfoldable pub plan_sql : Direction → Bytes
plan_sql undo =
    select_text undo (codes "compensating sql")
    ++ codes "volvra.preview_undo("
    ++ call_text
    ++ codes ")"
plan_sql replay =
    select_text replay (codes "sql to reapply")
    ++ codes "volvra.preview_replay("
    ++ call_text
    ++ codes ")"

abbrev pub bound : Selector → List Arg
bound s = map text (selector_args s)

-- How many of a row's columns of that name say "t".
conflicts_in : List Bytes → List Bytes → ℕ
conflicts_in [] row = 0
conflicts_in (c ∷ cols) [] = 0
conflicts_in (c ∷ cols) (v ∷ row) =
    (if beq c (codes "conflict") && beq v (codes "t") then 1 else 0) + conflicts_in cols row

unfoldable pub count_conflicts : List Bytes → List (List Bytes) → ℕ
unfolding conflicts_in
count_conflicts cols [] = 0
count_conflicts cols (r ∷ rows) = conflicts_in cols r + count_conflicts cols rows

-- `showPlanDir`: the numbers of changes and of conflicts.
unfoldable pub show_plan : Direction → Selector → Exec Session (ℕ × ℕ)
unfolding plan_sql count_conflicts ask
show_plan dir s = do
  t ← ask (record { sql = plan_sql dir; args = bound s })
  print (shown t)
  pure (length t.rows, count_conflicts t.cols t.rows)

-- `strings.TrimSpace` of an ASCII line
abbrev is_space : ℕ → Bool
is_space b = b == 32 || (leb 9 b && leb b 13)

unfoldable pub trim_left : Bytes → Bytes
trim_left [] = []
trim_left (b ∷ bs) = let rest = trim_left bs in if is_space b then rest else b ∷ bs

abbrev pub trim_space : Bytes → Bytes
trim_space bs = reverse (trim_left (reverse (trim_left bs)))

abbrev pub is_yes : Option Bytes → Bool
is_yes none = false
is_yes (some line) = beq (trim_space line) (codes "y") || beq (trim_space line) (codes "Y")

-- `confirm`
unfoldable pub confirm : Bool → Input → Outcome Bool
unfolding trim_left
confirm said_yes input =
    if said_yes
    then ok true
    else if input.is_terminal
    then ok (is_yes input.line)
    else err no_terminal

-- The statement that applies the plan
unfoldable pub apply_sql : Direction → Bool → Bytes
apply_sql dir bounded =
    codes
      "SELECT seq, table_name AS \"table\", inverse_op AS applied, pk, status\n\t        FROM volvra."
    ++ elim dir [ undo ↦ codes "undo(" | replay ↦ codes "replay(" ]
    ++ call_text
    ++ codes ",\n\t          confirm => true, skip_conflicts => $9::boolean"
    ++ (if bounded then codes ", max_rows => $10::integer" else [])
    ++ codes ")"

abbrev pub limit : Bytes → List Arg
limit [] = []
limit (b ∷ bs) = text (some (b ∷ bs)) ∷ []

-- The call that changes data.
unfoldable pub apply_query : Direction → Selector → Query
unfolding apply_sql
apply_query dir s = record {
  sql = apply_sql dir (elim s.max_rows [ [] ↦ false | _ ↦ true ]);
  args = bound s ++ flag s.skip_confl ∷ limit s.max_rows;
}

abbrev pub nothing_to_do : Direction → Bytes
nothing_to_do undo = codes "\nNothing to undo for that selection."
nothing_to_do replay = codes "\nNothing to replay for that selection."

abbrev pub will_change : Direction → Bytes
will_change undo = codes "\n%d change(s) will be reverted"
will_change replay = codes "\n%d change(s) will be reapplied"

abbrev pub have_conflicts : Direction → Bytes
have_conflicts undo = codes ", and %d row(s) have changed since they were captured"
have_conflicts replay = codes ", and %d row(s) do not hold the image captured before the change"

abbrev pub will_refuse : Direction → Bytes
will_refuse undo =
    codes ".\nUndo will refuse rather than overwrite them; pass "
    ++ codes "--skip-conflicts to\nrevert the rest and leave those alone"
will_refuse replay =
    codes ".\nReplay will refuse rather than overwrite them; pass "
    ++ codes "--skip-conflicts to\napply the rest and leave those alone"

-- What is said of the rows that do not match.
abbrev pub of_conflicts : Direction → Bool → ℕ → List Printed
of_conflicts dir skip zero = []
of_conflicts dir skip (suc n) =
    said (have_conflicts dir) (suc n ∷ [])
    ∷ said (if skip then codes " -- those will be left alone" else will_refuse dir) []
    ∷ []

abbrev pub of_plan : Direction → Bool → ℕ → ℕ → List Printed
of_plan dir skip rows conflicts =
    said (will_change dir) (rows ∷ []) ∷ of_conflicts dir skip conflicts
    ++ said (codes ".\n") [] ∷ []

abbrev pub act : Direction → Selector → Outcome Bool → Exec Session Exit
act dir s (err e) = throw e
act dir s (ok false) = print (said (codes "Nothing was changed.\n") []) >> pure exit_error
act dir s (ok true) = show_query (apply_query dir s) >> pure exit_ok

abbrev pub act_on : Direction → Bool → Input → Selector → ℕ × ℕ → Exec Session Exit
act_on dir said_yes input s (zero, conflicts) =
    print (said (nothing_to_do dir ++ codes "\n") []) >> pure exit_ok
act_on dir said_yes input s (suc rows, conflicts) =
    print_all (of_plan dir s.skip_confl (suc rows) conflicts) >> act dir s (confirm said_yes input)

abbrev pub change_selected : Direction → Bool → Input → Outcome Selector → Exec Session Exit
change_selected dir said_yes input (err e) = throw e
change_selected dir said_yes input (ok s) = show_plan dir s >>= act_on dir said_yes input s

-- `cmdUndo` and `cmdReplay`, by the direction
unfoldable pub cmd_change : Direction → Bool → Input → List Bytes → Exec Session Exit
unfolding show_plan confirm apply_query
cmd_change dir said_yes input args = change_selected dir said_yes input (parse args)

abbrev pub preview_selected : Direction → Outcome Selector → Exec Session Exit
preview_selected dir (err e) = throw e
preview_selected dir (ok s) = show_plan dir s >> pure exit_ok

-- `cmdPreview` and `cmdPreviewReplay`
unfoldable pub cmd_preview : Direction → List Bytes → Exec Session Exit
unfolding show_plan
cmd_preview dir args = preview_selected dir (parse args)
