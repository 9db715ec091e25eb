-- ===== src/Cli/Sent.antt =====
-- On what the program of the command line sends to the database (cli/main.go).
use pgvolvra.Base.{
  ◌≡◌, refl, sym, Bool, true, false, Option, none, some, List, [], ◌∷◌, ◌++◌, append-nil, Bytes,
  codes, beq, Bool-cases, ◌⊎◌, inl, inr,
}
use pgvolvra.Exec.{Outcome, ok, err, ◌>>◌}
use pgvolvra.Exec.Laws.{After}
use pgvolvra.Cli.Session.{Exit, Query, Session, Input}
use pgvolvra.Cli.Undo.{Direction}
use pgvolvra.Cli.Statement.{Statement}
use pgvolvra.Cli.Command.{
  cmd_status, cmd_marks, log_options, cmd_log, judge_critical, cmd_preflight, cmd_maintain,
  cmd_seal, judge_seals, cmd_verify, report_health, report_unsealed,
}
use pgvolvra.Cli.Entry.{
  Command, perform, command_of, Asked, for_usage, no_value, for_command, scan, Surroundings,
  connect_to, dispatch, settle, run_command, answer_to, run,
}
use pgvolvra.Cli.Orderly.{
  cover-Orderly, uncover-Orderly, mark-Orderly, log_of-Orderly, history-Orderly, as_of-Orderly,
  unmark-Orderly, uncovered-Orderly, preview-Orderly, change-Orderly, forget-Orderly,
  judge_critical-Orderly, judge_seals-Orderly, report_unsealed-Orderly, report_health-Orderly,
}
use pgvolvra.Cli.Safe.{Within, Orderly, run_query-Orderly, look-Orderly, fixed}

module _ (base : List Query) where
  perform-Orderly :
      (c : Command) (said_yes : Bool) (input : Input) (args : List Bytes)
      → Orderly base c (perform c said_yes input args)
  unfolding perform cmd_status cmd_marks cmd_log cmd_preflight cmd_maintain cmd_seal cmd_verify
  perform-Orderly Command.status said_yes input args =
      look-Orderly base Command.status _ _ report_health
        (fixed Command.status Statement.status _ refl refl)
        (fixed Command.status Statement.health_count _ refl refl) (report_health-Orderly base)
  perform-Orderly Command.uncovered said_yes input args = uncovered-Orderly base args
  perform-Orderly Command.cover said_yes input args = cover-Orderly base args
  perform-Orderly Command.uncover said_yes input args = uncover-Orderly base args
  perform-Orderly Command.mark said_yes input args = mark-Orderly base args
  perform-Orderly Command.marks said_yes input args =
      run_query-Orderly base Command.marks _ (fixed Command.marks Statement.marks _ refl refl)
  perform-Orderly Command.unmark said_yes input args = unmark-Orderly base args
  perform-Orderly Command.log said_yes input args =
      log_of-Orderly base (log_options args (codes "20") [])
  perform-Orderly Command.history said_yes input args = history-Orderly base args
  perform-Orderly Command.as_of said_yes input args = as_of-Orderly base args
  perform-Orderly Command.preview said_yes input args =
      preview-Orderly base Command.preview Direction.undo refl args
  perform-Orderly Command.undo said_yes input args =
      change-Orderly base Command.undo Direction.undo refl (λ b. refl) refl said_yes input args
  perform-Orderly Command.preview_replay said_yes input args =
      preview-Orderly base Command.preview_replay Direction.replay refl args
  perform-Orderly Command.replay said_yes input args =
      change-Orderly base Command.replay Direction.replay refl (λ b. refl) refl said_yes input args
  perform-Orderly Command.preflight said_yes input args =
      look-Orderly base Command.preflight _ _ judge_critical
        (fixed Command.preflight Statement.preflight _ refl refl)
        (fixed Command.preflight Statement.critical_count _ refl refl) (judge_critical-Orderly base)
  perform-Orderly Command.maintain said_yes input args =
      run_query-Orderly base Command.maintain _
        (fixed Command.maintain Statement.maintain _ refl refl)
  perform-Orderly Command.seal said_yes input args =
      look-Orderly base Command.seal _ _ report_unsealed
        (fixed Command.seal Statement.seal _ refl refl)
        (fixed Command.seal Statement.unsealed_count _ refl refl) (report_unsealed-Orderly base)
  perform-Orderly Command.verify said_yes input args =
      look-Orderly base Command.verify _ _ judge_seals
        (fixed Command.verify Statement.verify _ refl refl)
        (fixed Command.verify Statement.bad_count _ refl refl) (judge_seals-Orderly base)
  perform-Orderly Command.forget said_yes input args = forget-Orderly base said_yes input args

-- The arguments ask for the command.
abbrev pub Chosen : List Bytes → Command → Type 0
Chosen args c =
    (cmd : Bytes) × (dsn : Bytes) × (said_yes : Bool) × (kept : List Bytes) × (scan args [] false
      ≡ for_command cmd dsn said_yes kept)
    × (command_of cmd ≡ some c)

module _ (env : Surroundings) (args : List Bytes) (st : Session) where
  -- Nothing was sent, or fixed statements of the command that was asked for.
  abbrev pub SentSafely : Session → Type 0
  SentSafely st' = (st'.sent ≡ st.sent) ⊎ ((c : Command) × Chosen args c × Within st.sent c st')

  settle-Within :
      (c : Command) (x : Outcome Exit × Session)
      → After (λ _. Within st.sent c) (Within st.sent c) x
      → Within st.sent c (settle x).1
  settle-Within c (ok code, s) h = h
  settle-Within c (err e, s) h = h

  module _ (cmd dsn : Bytes) (said_yes : Bool) (kept : List Bytes)
      (asked : scan args [] false ≡ for_command cmd dsn said_yes kept) where
    sent_by :
        (connects : Bool) (o : Option Command)
        → command_of cmd ≡ o
        → SentSafely
            (settle ((connect_to connects dsn >> dispatch cmd said_yes env.input kept o) st)).1
    sent_by false o e = inl refl
    sent_by true none e = inl refl
    sent_by true (some c) e = inr (
      c,
      (cmd, dsn, said_yes, kept, asked, e),
      settle-Within c _ (
          (perform-Orderly st.sent c said_yes env.input kept).at
            (record st { connected = st.connected ++ dsn ∷ [] })
            ([], sym (append-nil st.sent), tt)),
    )

    run_command-SentSafely : SentSafely (run_command env cmd dsn said_yes kept st).1
    unfolding run_command
    run_command-SentSafely = elim (Bool-cases (beq cmd (codes "version"))) [
      | inl e ↦ rw e (inl refl)
      | inr e ↦ rw e (sent_by env.connects (command_of cmd) refl)
    ]

  answered-SentSafely : (a : Asked) → scan args [] false ≡ a → SentSafely (answer_to env a st).1
  answered-SentSafely for_usage e = inl refl
  answered-SentSafely no_value e = inl refl
  answered-SentSafely (for_command cmd dsn said_yes kept) e =
      run_command-SentSafely cmd dsn said_yes kept e

  -- Whatever the arguments are and the database answers, the program sends nothing, or queries of the
  -- command that was asked for: their texts are among the fixed statements which that command is for,
  -- as `belongs` lists them, so that what the user wrote is only ever bound; and where the command is one that only looks, none of them changes anything.
  pub run-SentSafely : SentSafely (run env args st).1
  unfolding run
  run-SentSafely = answered-SentSafely (scan args [] false) refl
