-- ===== src/Cli/Orderly.antt =====
-- On what each command of the command line sends (cli/commands.go, cli/undo.go).
use pgvolvra.Base.{
  arith, ℕ, zero, suc, ◌≡◌, refl, Bool, true, false, List, [], ◌∷◌, Bytes, length, codes, beq,
}
use pgvolvra.Exec.{Outcome, ok, err, ◌>>◌}
use pgvolvra.Exec.Laws.{Triple-bind, Triple-if}
use pgvolvra.Cli.Session.{
  exit_ok, exit_error, exit_finding, Query, Input, shown, said, print, print_all, show_query,
}
use pgvolvra.Cli.Selector.{Selector, parse}
use pgvolvra.Cli.Undo.{
  Direction, count_conflicts, apply_query, of_plan, show_plan, confirm, act, act_on,
  change_selected, cmd_change, cmd_preview, preview_selected,
}
use pgvolvra.Cli.Statement.{Statement, sql_of, query_of}
use pgvolvra.Cli.Command.{
  cmd_uncovered, cmd_cover, cmd_uncover, mark_options, mark_named, cmd_mark, cmd_unmark, log_of,
  cmd_history, cmd_as_of, judge_critical, judge_seals, report_health, report_unsealed,
  forget_options, erase, forget_with, cmd_forget, of_erasure, given,
}
use pgvolvra.Cli.Entry.{Command}
use pgvolvra.Cli.Safe.{
  belongs, reads, Orderly, ask-Orderly, print-Orderly, throw-Orderly, pure-Orderly, say,
  show_query-Orderly, run_query-Orderly, fixed,
}

module _ (base : List Query) where
  pub cover-Orderly : (args : List Bytes) → Orderly base Command.cover (cmd_cover args)
  unfolding cmd_cover
  cover-Orderly [] = throw-Orderly base Command.cover
  cover-Orderly (a ∷ []) =
      Triple-if (beq a (codes "--schema")) _ _ (throw-Orderly base Command.cover)
        (run_query-Orderly base Command.cover _ (fixed Command.cover Statement.enable _ refl refl))
  cover-Orderly (a ∷ schema ∷ rest) =
      Triple-if (beq a (codes "--schema")) _ _
        (run_query-Orderly base Command.cover _
          (fixed Command.cover Statement.enable_all _ refl refl))
        (run_query-Orderly base Command.cover _ (fixed Command.cover Statement.enable _ refl refl))

  pub uncover-Orderly : (args : List Bytes) → Orderly base Command.uncover (cmd_uncover args)
  unfolding cmd_uncover
  uncover-Orderly [] = throw-Orderly base Command.uncover
  uncover-Orderly (a ∷ []) =
      Triple-if (beq a (codes "--schema")) _ _ (throw-Orderly base Command.uncover) (
        run_query-Orderly base Command.uncover _
          (fixed Command.uncover Statement.disable _ refl refl))
  uncover-Orderly (a ∷ schema ∷ rest) =
      Triple-if (beq a (codes "--schema")) _ _
        (run_query-Orderly base Command.uncover _
          (fixed Command.uncover Statement.disable_all _ refl refl))
        (run_query-Orderly base Command.uncover _
          (fixed Command.uncover Statement.disable _ refl refl))

  mark_named-Orderly :
      (name : Bytes) (r : Outcome (Bytes × Bool)) → Orderly base Command.mark (mark_named name r)
  mark_named-Orderly name (err e) = throw-Orderly base Command.mark
  mark_named-Orderly name (ok (note, replace)) =
      run_query-Orderly base Command.mark _ (fixed Command.mark Statement.mark _ refl refl)

  pub mark-Orderly : (args : List Bytes) → Orderly base Command.mark (cmd_mark args)
  unfolding cmd_mark
  mark-Orderly [] = throw-Orderly base Command.mark
  mark-Orderly (name ∷ rest) = mark_named-Orderly name (mark_options rest [] false)

  pub log_of-Orderly : (r : Outcome (Bytes × Bytes)) → Orderly base Command.log (log_of r)
  log_of-Orderly (err e) = throw-Orderly base Command.log
  log_of-Orderly (ok (n, since)) =
      run_query-Orderly base Command.log _ (fixed Command.log Statement.log _ refl refl)

  pub history-Orderly : (args : List Bytes) → Orderly base Command.history (cmd_history args)
  unfolding cmd_history
  history-Orderly [] = throw-Orderly base Command.history
  history-Orderly (a ∷ []) = throw-Orderly base Command.history
  history-Orderly (a ∷ b ∷ []) =
      run_query-Orderly base Command.history _ (fixed Command.history Statement.history _ refl refl)
  history-Orderly (a ∷ b ∷ d ∷ rest) = throw-Orderly base Command.history

  pub as_of-Orderly : (args : List Bytes) → Orderly base Command.as_of (cmd_as_of args)
  unfolding cmd_as_of
  as_of-Orderly [] = throw-Orderly base Command.as_of
  as_of-Orderly (a ∷ []) = throw-Orderly base Command.as_of
  as_of-Orderly (a ∷ b ∷ []) =
      run_query-Orderly base Command.as_of _ (fixed Command.as_of Statement.as_of _ refl refl)
  as_of-Orderly (a ∷ b ∷ d ∷ rest) = throw-Orderly base Command.as_of

  pub unmark-Orderly : (args : List Bytes) → Orderly base Command.unmark (cmd_unmark args)
  unfolding cmd_unmark
  unmark-Orderly [] = throw-Orderly base Command.unmark
  unmark-Orderly (a ∷ rest) =
      run_query-Orderly base Command.unmark _ (fixed Command.unmark Statement.unmark _ refl refl)

  pub uncovered-Orderly : (args : List Bytes) → Orderly base Command.uncovered (cmd_uncovered args)
  unfolding cmd_uncovered
  uncovered-Orderly [] =
      run_query-Orderly base Command.uncovered _
        (fixed Command.uncovered Statement.uncovered _ refl refl)
  uncovered-Orderly (a ∷ rest) =
      run_query-Orderly base Command.uncovered _
        (fixed Command.uncovered Statement.uncovered _ refl refl)

  erase-Orderly :
      (table pk : Bytes) (hard : Bool) (reason : Bytes) (r : Outcome Bool)
      → Orderly base Command.forget (erase table pk hard reason r)
  erase-Orderly table pk hard reason (err e) = throw-Orderly base Command.forget
  erase-Orderly table pk hard reason (ok false) = say base Command.forget _ exit_error
  erase-Orderly table pk hard reason (ok true) =
      run_query-Orderly base Command.forget _ (fixed Command.forget Statement.forget _ refl refl)

  module _ (said_yes : Bool) (input : Input) where
    forget_with-Orderly :
        (table pk : Bytes) (r : Outcome (Bool × Bytes))
        → Orderly base Command.forget (forget_with table pk said_yes input r)
    forget_with-Orderly table pk (err e) = throw-Orderly base Command.forget
    forget_with-Orderly table pk (ok (hard, reason)) =
        Triple-bind
          (show_query (query_of Statement.erasable (given table ∷ given pk ∷ []))
            >> print (said (of_erasure hard) []))
          (λ _. erase table pk hard reason (confirm said_yes input))
          (Triple-bind _ _
            (show_query-Orderly base Command.forget _
              (fixed Command.forget Statement.erasable _ refl refl))
            λ _. print-Orderly base Command.forget _)
          λ _. erase-Orderly table pk hard reason (confirm said_yes input)

    pub forget-Orderly :
        (args : List Bytes) → Orderly base Command.forget (cmd_forget said_yes input args)
    unfolding cmd_forget
    forget-Orderly [] = throw-Orderly base Command.forget
    forget-Orderly (a ∷ []) = throw-Orderly base Command.forget
    forget-Orderly (a ∷ b ∷ rest) = forget_with-Orderly a b (forget_options rest false [])

  module _ (c : Command) (dir : Direction) (plans : belongs c (Statement.plan dir) ≡ true) where
    show_plan-Orderly : (s : Selector) → Orderly base c (show_plan dir s)
    unfolding show_plan sql_of
    show_plan-Orderly s =
        Triple-bind _ _ (ask-Orderly base c _ (Statement.plan dir, refl, plans, ground arith)) λ t.
          Triple-bind _ _ (print-Orderly base c (shown t))
            λ _. pure-Orderly base c (length t.rows, count_conflicts t.cols t.rows)

    pub preview-Orderly : (args : List Bytes) → Orderly base c (cmd_preview dir args)
    unfolding cmd_preview
    preview-Orderly args = of_selector (parse args)
      where
        of_selector : (r : Outcome Selector) → Orderly base c (preview_selected dir r)
        of_selector (err e) = throw-Orderly base c
        of_selector (ok s) = Triple-bind _ _ (show_plan-Orderly s) λ _. pure-Orderly base c exit_ok

    module _ (applies : (bounded : Bool) → belongs c (Statement.apply dir bounded) ≡ true)
        (acts : reads c ≡ false) (said_yes : Bool) (input : Input) where
      act-Orderly : (s : Selector) (r : Outcome Bool) → Orderly base c (act dir s r)
      unfolding apply_query sql_of
      act-Orderly s (err e) = throw-Orderly base c
      act-Orderly s (ok false) = say base c _ exit_error
      act-Orderly s (ok true) =
          Triple-bind _ _
            (show_query-Orderly base c _ (
              Statement.apply dir (elim s.max_rows [ [] ↦ false | _ ↦ true ]),
              refl,
              applies _,
              ground (arith, acts),
            ))
            λ _. pure-Orderly base c exit_ok

      act_on-Orderly :
          (s : Selector) (counts : ℕ × ℕ) → Orderly base c (act_on dir said_yes input s counts)
      act_on-Orderly s (zero, conflicts) = say base c _ exit_ok
      act_on-Orderly s (suc rows, conflicts) =
          Triple-bind (print_all (of_plan dir s.skip_confl (suc rows) conflicts))
            (λ _. act dir s (confirm said_yes input)) (record { at = λ st h. h })
            λ _. act-Orderly s (confirm said_yes input)

      pub change-Orderly : (args : List Bytes) → Orderly base c (cmd_change dir said_yes input args)
      unfolding cmd_change
      change-Orderly args = of_selector (parse args)
        where
          of_selector :
              (r : Outcome Selector) → Orderly base c (change_selected dir said_yes input r)
          of_selector (err e) = throw-Orderly base c
          of_selector (ok s) =
              Triple-bind _ _ (show_plan-Orderly s) λ counts. act_on-Orderly s counts

  pub judge_critical-Orderly : (n : ℕ) → Orderly base Command.preflight (judge_critical n)
  judge_critical-Orderly zero = say base Command.preflight _ exit_ok
  judge_critical-Orderly (suc n) = say base Command.preflight _ exit_finding

  pub judge_seals-Orderly : (n : ℕ) → Orderly base Command.verify (judge_seals n)
  judge_seals-Orderly zero = say base Command.verify _ exit_ok
  judge_seals-Orderly (suc n) = say base Command.verify _ exit_finding

  pub report_unsealed-Orderly : (n : ℕ) → Orderly base Command.seal (report_unsealed n)
  report_unsealed-Orderly zero = say base Command.seal _ exit_ok
  report_unsealed-Orderly (suc n) = say base Command.seal _ exit_ok

  pub report_health-Orderly : (n : ℕ) → Orderly base Command.status (report_health n)
  report_health-Orderly zero = say base Command.status _ exit_ok
  report_health-Orderly (suc n) = Triple-bind _ _ (print-Orderly base Command.status _) λ _.
      run_query-Orderly base Command.status (query_of Statement.health [])
        (fixed Command.status Statement.health [] refl refl)
