-- ===== src/Cli/Command.antt =====
-- The commands of the command line but undo and replay (cli/commands.go).
use pgvolvra.Base.{
  ℕ, zero, suc, Bool, true, false, some, List, [], ◌∷◌, ◌++◌, Bytes, codes, beq, if◌then◌else◌,
}
use pgvolvra.Exec.{
  Exec, Outcome, ok, err, needs_argument, needs_value, unknown_option, ◌>>=◌, ◌>>◌, pure, throw,
}
use pgvolvra.Cli.Session.{
  Exit, exit_ok, exit_error, exit_finding, Arg, text, flag, Session, Input, said, warned, print,
  count, show_query, run_query,
}
use pgvolvra.Cli.Selector.{nullable}
use pgvolvra.Cli.Undo.{confirm}
use pgvolvra.Cli.Statement.{Statement, query_of}

-- A bind parameter that is given as it is.
abbrev pub given : Bytes → Arg
given b = text (some b)

abbrev pub report_health : ℕ → Exec Session Exit
report_health zero = print (said (codes "\nNo problems reported.\n") []) >> pure exit_ok
report_health (suc n) = print (said (codes "\n") []) >> run_query (query_of Statement.health [])

-- `cmdStatus`
unfoldable pub cmd_status : Exec Session Exit
cmd_status = do
  show_query (query_of Statement.status [])
  n ← count (query_of Statement.health_count [])
  report_health n

-- `cmdUncovered`
unfoldable pub cmd_uncovered : List Bytes → Exec Session Exit
cmd_uncovered [] = run_query (query_of Statement.uncovered (given (codes "public") ∷ []))
cmd_uncovered (schema ∷ _) = run_query (query_of Statement.uncovered (given schema ∷ []))

abbrev pub of_schema : Statement → List Bytes → Exec Session Exit
of_schema s [] = throw (needs_value (codes "--schema"))
of_schema s (schema ∷ _) = run_query (query_of s (given schema ∷ []))

-- `cmdCover`
unfoldable pub cmd_cover : List Bytes → Exec Session Exit
cmd_cover [] = throw (needs_argument (codes "cover"))
cmd_cover (a ∷ rest) =
    if beq a (codes "--schema")
    then of_schema Statement.enable_all rest
    else run_query (query_of Statement.enable (given a ∷ []))

-- `cmdUncover`
unfoldable pub cmd_uncover : List Bytes → Exec Session Exit
cmd_uncover [] = throw (needs_argument (codes "uncover"))
cmd_uncover (a ∷ rest) =
    if beq a (codes "--schema")
    then of_schema Statement.disable_all rest
    else run_query (query_of Statement.disable (given a ∷ []))

abbrev pub judge_critical : ℕ → Exec Session Exit
judge_critical zero =
    print (said (codes "\nNothing critical. Warnings above are worth reading anyway.\n") [])
    >> pure exit_ok
judge_critical (suc n) =
    print (
      warned (codes "\n! %d critical finding(s). Do not run this install in production yet.\n")
        (suc n ∷ []))
    >> pure exit_finding

-- `cmdPreflight`
unfoldable pub cmd_preflight : Exec Session Exit
cmd_preflight = do
  show_query (query_of Statement.preflight [])
  n ← count (query_of Statement.critical_count [])
  judge_critical n

-- `cmdMaintain`
unfoldable pub cmd_maintain : Exec Session Exit
cmd_maintain = run_query (query_of Statement.maintain [])

abbrev pub report_unsealed : ℕ → Exec Session Exit
report_unsealed zero = print (said (codes "\nAll history is sealed.\n") []) >> pure exit_ok
report_unsealed (suc n) =
    print (said (codes "\n%d change(s) still unsealed.\n") (suc n ∷ [])) >> pure exit_ok

-- `cmdSeal`
unfoldable pub cmd_seal : Exec Session Exit
cmd_seal = do
  show_query (query_of Statement.seal [])
  n ← count (query_of Statement.unsealed_count [])
  report_unsealed n

abbrev pub all_match : Bytes
all_match = codes "\nEvery seal matches the history.\n"

abbrev pub judge_seals : ℕ → Exec Session Exit
judge_seals zero = print (said all_match []) >> pure exit_ok
judge_seals (suc n) =
    print (
      warned
        (codes "\n! %d sealed span(s) do not match the history and nothing lawful\n"
          ++ codes "  explains it. Treat this as an integrity incident.\n")
        (suc n ∷ []))
    >> pure exit_finding

-- `cmdVerify`
unfoldable pub cmd_verify : Exec Session Exit
cmd_verify = do
  show_query (query_of Statement.verify [])
  n ← count (query_of Statement.bad_count [])
  judge_seals n

-- The options of `cmdMark`: the note and whether a mark is replaced.
unfoldable pub mark_options : List Bytes → Bytes → Bool → Outcome (Bytes × Bool)
mark_options [] note replace = ok (note, replace)
mark_options (a ∷ []) note replace =
    if beq a (codes "--note")
    then err (needs_value a)
    else if beq a (codes "--replace")
    then ok (note, true)
    else err (unknown_option a)
mark_options (a ∷ v ∷ rest) note replace =
    let noted = mark_options rest v replace in
    let replaced = mark_options (v ∷ rest) note true in
    if beq a (codes "--note")
    then noted
    else if beq a (codes "--replace")
    then replaced
    else err (unknown_option a)

abbrev pub mark_named : Bytes → Outcome (Bytes × Bool) → Exec Session Exit
mark_named name (err e) = throw e
mark_named name (ok (note, replace)) =
    run_query (query_of Statement.mark (given name ∷ text (nullable note) ∷ flag replace ∷ []))

-- `cmdMark`
unfoldable pub cmd_mark : List Bytes → Exec Session Exit
unfolding mark_options
cmd_mark [] = throw (needs_argument (codes "mark"))
cmd_mark (name ∷ rest) = mark_named name (mark_options rest [] false)

-- `cmdMarks`
unfoldable pub cmd_marks : Exec Session Exit
cmd_marks = run_query (query_of Statement.marks [])

-- `cmdUnmark`
unfoldable pub cmd_unmark : List Bytes → Exec Session Exit
cmd_unmark [] = throw (needs_argument (codes "unmark"))
cmd_unmark (name ∷ _) = run_query (query_of Statement.unmark (given name ∷ []))

-- The options of `cmdLog`: the number of transactions and the start.
unfoldable pub log_options : List Bytes → Bytes → Bytes → Outcome (Bytes × Bytes)
log_options [] n since = ok (n, since)
log_options (a ∷ []) n since =
    if beq a (codes "-n")
    then err (needs_value a)
    else if beq a (codes "--since")
    then err (needs_value a)
    else err (unknown_option a)
log_options (a ∷ v ∷ rest) n since =
    let numbered = log_options rest v since in
    let begun = log_options rest n v in
    if beq a (codes "-n")
    then numbered
    else if beq a (codes "--since")
    then begun
    else err (unknown_option a)

abbrev pub log_of : Outcome (Bytes × Bytes) → Exec Session Exit
log_of (err e) = throw e
log_of (ok (n, since)) = run_query (query_of Statement.log (text (nullable since) ∷ given n ∷ []))

-- `cmdLog`
unfoldable pub cmd_log : List Bytes → Exec Session Exit
unfolding log_options
cmd_log args = log_of (log_options args (codes "20") [])

-- `cmdHistory`
unfoldable pub cmd_history : List Bytes → Exec Session Exit
cmd_history (table ∷ pk ∷ []) = run_query (query_of Statement.history (given table ∷ given pk ∷ []))
cmd_history _ = throw (needs_argument (codes "history"))

-- `cmdAsOf`
unfoldable pub cmd_as_of : List Bytes → Exec Session Exit
cmd_as_of (table ∷ time ∷ []) = run_query (query_of Statement.as_of (given table ∷ given time ∷ []))
cmd_as_of _ = throw (needs_argument (codes "as-of"))

-- The options of `cmdForget`: hard erasure, and the reason.
unfoldable pub forget_options : List Bytes → Bool → Bytes → Outcome (Bool × Bytes)
forget_options [] hard reason = ok (hard, reason)
forget_options (a ∷ []) hard reason =
    if beq a (codes "--hard")
    then ok (true, reason)
    else if beq a (codes "--reason")
    then err (needs_value a)
    else err (unknown_option a)
forget_options (a ∷ v ∷ rest) hard reason =
    let hardened = forget_options (v ∷ rest) true reason in
    let reasoned = forget_options rest hard v in
    if beq a (codes "--hard")
    then hardened
    else if beq a (codes "--reason")
    then reasoned
    else err (unknown_option a)

abbrev pub of_erasure : Bool → Bytes
of_erasure true =
    codes "\nHard erasure DELETES these history rows outright.\nThis cannot be undone.\n"
of_erasure false =
    codes "\nRedaction blanks the row images and keeps the fact that a change\n"
    ++ codes "happened. Use --hard when the primary key is itself personal data.\n"
    ++ codes "This cannot be undone.\n"

abbrev pub erase : Bytes → Bytes → Bool → Bytes → Outcome Bool → Exec Session Exit
erase table pk hard reason (err e) = throw e
erase table pk hard reason (ok false) =
    print (said (codes "Nothing was changed.\n") []) >> pure exit_error
erase table pk hard reason (ok true) =
    run_query
      (query_of Statement.forget (given table ∷ given pk ∷ flag hard ∷ text (nullable reason) ∷ []))

abbrev pub forget_with : Bytes → Bytes → Bool → Input → Outcome (Bool × Bytes) → Exec Session Exit
forget_with table pk said_yes input (err e) = throw e
forget_with table pk said_yes input (ok (hard, reason)) =
    show_query (query_of Statement.erasable (given table ∷ given pk ∷ []))
    >> print (said (of_erasure hard) [])
    >> erase table pk hard reason (confirm said_yes input)

-- `cmdForget`
unfoldable pub cmd_forget : Bool → Input → List Bytes → Exec Session Exit
unfolding forget_options confirm
cmd_forget said_yes input (table ∷ pk ∷ rest) =
    forget_with table pk said_yes input (forget_options rest false [])
cmd_forget said_yes input _ = throw (needs_argument (codes "forget"))
