-- ===== src/Cli/Modest.antt =====
-- On the exit codes of the commands that find nothing (cli/commands.go, cli/undo.go).
use pgvolvra.Base.{ℕ, zero, suc, ◌≡◌, Bool, true, false, List, [], ◌∷◌, Bytes, codes, beq, arith}
use pgvolvra.Exec.{Exec, Outcome, ok, err, Error, throw, pure, ◌>>=◌, ◌>>◌}
use pgvolvra.Exec.Laws.{Triple, Triple-bind, Triple-weaken, Triple-if, Triple-any}
use pgvolvra.Cli.Session.{
  Exit, exit_ok, exit_error, exit_finding, Query, Session, Input, count, print, print_all,
  show_query, run_query,
}
use pgvolvra.Cli.Statement.{Statement, query_of}
use pgvolvra.Cli.Undo.{
  Direction, apply_query, of_plan, show_plan, confirm, act, act_on, change_selected, cmd_change,
  cmd_preview, preview_selected,
}
use pgvolvra.Cli.Command.{
  cmd_status, cmd_uncovered, cmd_cover, cmd_uncover, of_schema, mark_options, mark_named, cmd_mark,
  cmd_marks, cmd_unmark, log_options, log_of, cmd_log, cmd_history, cmd_as_of, cmd_maintain,
  cmd_seal, forget_options, erase, forget_with, cmd_forget, report_health, report_unsealed,
}
use pgvolvra.Cli.Selector.{Selector, parse}
use pgvolvra.Cli.Entry.{Command, perform}

-- The commands whose code may be 2.
abbrev pub judges : Command → Bool
judges Command.preflight = true
judges Command.verify = true
judges _ = false

abbrev pub Plain : Exit → Type 0
Plain exit_ok = Unit {0}
Plain exit_error = Unit {0}
Plain exit_finding = ⊥

-- An action whose code is not 2.
abbrev pub Modest : Exec Session Exit → Type 0
Modest m = Triple (λ _. Unit {0}) m (λ c _. Plain c) (λ _. Unit {0})

after_any :
    {A : Type 0} (m : Exec Session A) (f : A → Exec Session Exit)
    → ((a : A) → Modest (f a))
    → Modest (m >>= f)
after_any m f h =
    Triple-bind m f (Triple-any m)
      (λ a. Triple-weaken (f a) (h a) (λ s t. tt) (λ c s t. t) (λ s t. t))

pure-Modest : (c : Exit) → Plain c → Modest (pure c)
pure-Modest c h = record { at = λ s t. h }

pub throw-Modest : {e : Error} → Modest (throw e)
throw-Modest = record { at = λ s t. tt }

run_query-Modest : (q : Query) → Modest (run_query q)
unfolding run_query
run_query-Modest q = after_any (show_query q) (λ _. pure exit_ok) λ _. pure-Modest exit_ok tt

of_schema-Modest : (s : Statement) (args : List Bytes) → Modest (of_schema s args)
of_schema-Modest s [] = throw-Modest
of_schema-Modest s (a ∷ rest) = run_query-Modest _

cover-Modest : (args : List Bytes) → Modest (cmd_cover args)
unfolding cmd_cover
cover-Modest [] = throw-Modest
cover-Modest (a ∷ rest) =
    Triple-if (beq a (codes "--schema")) _ _ (of_schema-Modest Statement.enable_all rest)
      (run_query-Modest _)

uncover-Modest : (args : List Bytes) → Modest (cmd_uncover args)
unfolding cmd_uncover
uncover-Modest [] = throw-Modest
uncover-Modest (a ∷ rest) =
    Triple-if (beq a (codes "--schema")) _ _ (of_schema-Modest Statement.disable_all rest)
      (run_query-Modest _)

mark-Modest : (args : List Bytes) → Modest (cmd_mark args)
unfolding cmd_mark
mark-Modest [] = throw-Modest
mark-Modest (name ∷ rest) = named (mark_options rest [] false)
  where
    named : (r : Outcome (Bytes × Bool)) → Modest (mark_named name r)
    named (err e) = throw-Modest
    named (ok (note, replace)) = run_query-Modest _

log_of-Modest : (r : Outcome (Bytes × Bytes)) → Modest (log_of r)
log_of-Modest (err e) = throw-Modest
log_of-Modest (ok (n, since)) = run_query-Modest _

history-Modest : (args : List Bytes) → Modest (cmd_history args)
unfolding cmd_history
history-Modest [] = throw-Modest
history-Modest (a ∷ []) = throw-Modest
history-Modest (a ∷ b ∷ []) = run_query-Modest _
history-Modest (a ∷ b ∷ d ∷ rest) = throw-Modest

as_of-Modest : (args : List Bytes) → Modest (cmd_as_of args)
unfolding cmd_as_of
as_of-Modest [] = throw-Modest
as_of-Modest (a ∷ []) = throw-Modest
as_of-Modest (a ∷ b ∷ []) = run_query-Modest _
as_of-Modest (a ∷ b ∷ d ∷ rest) = throw-Modest

unmark-Modest : (args : List Bytes) → Modest (cmd_unmark args)
unfolding cmd_unmark
unmark-Modest [] = throw-Modest
unmark-Modest (a ∷ rest) = run_query-Modest _

uncovered-Modest : (args : List Bytes) → Modest (cmd_uncovered args)
unfolding cmd_uncovered
uncovered-Modest [] = run_query-Modest _
uncovered-Modest (a ∷ rest) = run_query-Modest _

report_health-Modest : (n : ℕ) → Modest (report_health n)
report_health-Modest zero = record { at = λ s t. tt }
report_health-Modest (suc n) =
    after_any (print _) (λ _. run_query (query_of Statement.health []))
      λ _. run_query-Modest (query_of Statement.health [])

report_unsealed-Modest : (n : ℕ) → Modest (report_unsealed n)
report_unsealed-Modest zero = record { at = λ s t. tt }
report_unsealed-Modest (suc n) = record { at = λ s t. tt }

looked :
    (q k : Query) (f : ℕ → Exec Session Exit)
    → ((n : ℕ) → Modest (f n))
    → Modest (show_query q >> (count k >>= f))
looked q k f h = after_any (show_query q) (λ _. count k >>= f) λ _. after_any (count k) f h

erase-Modest :
    (table pk : Bytes) (hard : Bool) (reason : Bytes) (r : Outcome Bool)
    → Modest (erase table pk hard reason r)
erase-Modest table pk hard reason (err e) = throw-Modest
erase-Modest table pk hard reason (ok false) = record { at = λ s t. tt }
erase-Modest table pk hard reason (ok true) = run_query-Modest _

module _ (said_yes : Bool) (input : Input) where
  forget_with-Modest :
      (table pk : Bytes) (r : Outcome (Bool × Bytes))
      → Modest (forget_with table pk said_yes input r)
  forget_with-Modest table pk (err e) = throw-Modest
  forget_with-Modest table pk (ok (hard, reason)) =
      after_any _ (λ _. erase table pk hard reason (confirm said_yes input))
        λ _. erase-Modest table pk hard reason (confirm said_yes input)

  forget-Modest : (args : List Bytes) → Modest (cmd_forget said_yes input args)
  unfolding cmd_forget
  forget-Modest [] = throw-Modest
  forget-Modest (a ∷ []) = throw-Modest
  forget-Modest (a ∷ b ∷ rest) = forget_with-Modest a b (forget_options rest false [])

  module _ (dir : Direction) where
    preview-Modest : (args : List Bytes) → Modest (cmd_preview dir args)
    unfolding cmd_preview
    preview-Modest args = of_selector (parse args)
      where
        of_selector : (r : Outcome Selector) → Modest (preview_selected dir r)
        of_selector (err e) = throw-Modest
        of_selector (ok s) =
            after_any (show_plan dir s) (λ _. pure exit_ok) λ _. pure-Modest exit_ok tt

    act-Modest : (s : Selector) (r : Outcome Bool) → Modest (act dir s r)
    act-Modest s (err e) = throw-Modest
    act-Modest s (ok false) = record { at = λ s t. tt }
    act-Modest s (ok true) =
        after_any (show_query (apply_query dir s)) (λ _. pure exit_ok) λ _. pure-Modest exit_ok tt

    act_on-Modest : (s : Selector) (counts : ℕ × ℕ) → Modest (act_on dir said_yes input s counts)
    act_on-Modest s (zero, conflicts) = record { at = λ s t. tt }
    act_on-Modest s (suc rows, conflicts) =
        after_any (print_all (of_plan dir s.skip_confl (suc rows) conflicts))
          (λ _. act dir s (confirm said_yes input)) λ _. act-Modest s (confirm said_yes input)

    change-Modest : (args : List Bytes) → Modest (cmd_change dir said_yes input args)
    unfolding cmd_change
    change-Modest args = of_selector (parse args)
      where
        of_selector : (r : Outcome Selector) → Modest (change_selected dir said_yes input r)
        of_selector (err e) = throw-Modest
        of_selector (ok s) =
            after_any (show_plan dir s) (act_on dir said_yes input s) (act_on-Modest s)

pub perform-Modest :
    (c : Command) (said_yes : Bool) (input : Input) (args : List Bytes)
    → judges c ≡ false
    → Modest (perform c said_yes input args)
unfolding perform cmd_status cmd_marks cmd_log cmd_maintain cmd_seal
perform-Modest Command.status said_yes input args e = looked _ _ report_health report_health-Modest
perform-Modest Command.uncovered said_yes input args e = uncovered-Modest args
perform-Modest Command.cover said_yes input args e = cover-Modest args
perform-Modest Command.uncover said_yes input args e = uncover-Modest args
perform-Modest Command.mark said_yes input args e = mark-Modest args
perform-Modest Command.marks said_yes input args e = run_query-Modest _
perform-Modest Command.unmark said_yes input args e = unmark-Modest args
perform-Modest Command.log said_yes input args e = log_of-Modest (log_options args (codes "20") [])
perform-Modest Command.history said_yes input args e = history-Modest args
perform-Modest Command.as_of said_yes input args e = as_of-Modest args
perform-Modest Command.preview said_yes input args e =
    preview-Modest said_yes input Direction.undo args
perform-Modest Command.undo said_yes input args e = change-Modest said_yes input Direction.undo args
perform-Modest Command.preview_replay said_yes input args e =
    preview-Modest said_yes input Direction.replay args
perform-Modest Command.replay said_yes input args e =
    change-Modest said_yes input Direction.replay args
perform-Modest Command.preflight said_yes input args e = absurd (ground (arith, e))
perform-Modest Command.maintain said_yes input args e = run_query-Modest _
perform-Modest Command.seal said_yes input args e =
    looked _ _ report_unsealed report_unsealed-Modest
perform-Modest Command.verify said_yes input args e = absurd (ground (arith, e))
perform-Modest Command.forget said_yes input args e = forget-Modest said_yes input args
