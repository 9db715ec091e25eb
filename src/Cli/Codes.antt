-- ===== src/Cli/Codes.antt =====
-- On the exit codes of the command line (cli/main.go, cli/commands.go).
use pgvolvra.Base.{
  beq_iff, ℕ, zero, suc, ◌≡◌, refl, subst, ◌∙◌, ap, Bool, true, false, Option, none, some, List, [],
  ◌∷◌, ◌++◌, Bytes, codes, beq, Option-cases, Bool-cases, ◌⊎◌, inl, inr, arith,
}
use pgvolvra.Exec.{Exec, Outcome, ok, err, ◌>>=◌, ◌>>◌}
use pgvolvra.Exec.Laws.{After}
use pgvolvra.Cli.Session.{
  Exit, exit_ok, exit_error, exit_finding, Query, Answer, Session, Input, ask, count, show_query,
}
use pgvolvra.Cli.Command.{judge_critical, cmd_preflight, judge_seals, cmd_verify}
use pgvolvra.Cli.Entry.{
  Command, command_name, command_of, perform, Asked, for_usage, no_value, for_command, scan,
  Surroundings, connect_to, dispatch, settle, run_command, answer_to, run,
}
use pgvolvra.Cli.Modest.{judges, Plain, perform-Modest}
use pgvolvra.Cli.Sent.{Chosen}

-- How many the database counts, where both queries were answered.
abbrev pub found : Option Answer → Option (Option ℕ) → Option ℕ
found none o = none
found (some t) none = none
found (some t) (some none) = some 0
found (some t) (some (some n)) = some n

-- 0 where there are none, 2 where there are some.
abbrev pub verdict : ℕ → Exit
verdict zero = exit_ok
verdict (suc n) = exit_finding

abbrev pub verdict_of : Option ℕ → Option Exit
verdict_of none = none
verdict_of (some n) = some (verdict n)

-- The code, where there is no error.
abbrev pub code_of : Outcome Exit → Option Exit
code_of (ok c) = some c
code_of (err e) = none

module _ (st : Session) where
  abbrev pub findings : Option ℕ
  findings = found (st.answer st.calls) (st.number (suc st.calls))

  judged :
      (q k : Query) (f : ℕ → Exec Session Exit)
      → ((n : ℕ) (s : Session) → (f n s).0 ≡ ok (verdict n))
      → code_of ((show_query q >> (count k >>= f)) st).0 ≡ verdict_of findings
  unfolding show_query ask count
  judged q k f h = elim (Option-cases (st.answer st.calls)) [
    | inl e ↦ rw e refl
    | inr (t, e) ↦ elim (Option-cases (st.number (suc st.calls))) [
      | inl c ↦ rw (e, c) refl
      | inr (o, c) ↦ elim (Option-cases o) [
        | inl z ↦ rw (e, c, z) (ap code_of (h 0 _))
        | inr (n, z) ↦ rw (e, c, z) (ap code_of (h n _))
      ]
    ]
  ]

  judge_seals-verdict : (n : ℕ) (s : Session) → (judge_seals n s).0 ≡ ok (verdict n)
  judge_seals-verdict zero s = refl
  judge_seals-verdict (suc n) s = refl

  judge_critical-verdict : (n : ℕ) (s : Session) → (judge_critical n s).0 ≡ ok (verdict n)
  judge_critical-verdict zero s = refl
  judge_critical-verdict (suc n) s = refl

  cmd_verify-code : code_of (cmd_verify st).0 ≡ verdict_of findings
  unfolding cmd_verify
  cmd_verify-code = judged _ _ judge_seals judge_seals-verdict

  cmd_preflight-code : code_of (cmd_preflight st).0 ≡ verdict_of findings
  unfolding cmd_preflight
  cmd_preflight-code = judged _ _ judge_critical judge_critical-verdict

-- The code of the program, where there is an error, too.
abbrev pub exit_of : Option Exit → Exit
exit_of none = exit_error
exit_of (some c) = c

settle-code : (x : Outcome Exit × Session) → (settle x).0 ≡ exit_of (code_of x.0)
settle-code (ok c, s) = refl
settle-code (err e, s) = refl

perform-judged :
    (c : Command) (said_yes : Bool) (input : Input) (args : List Bytes) (st : Session)
    → judges c ≡ true
    → code_of (perform c said_yes input args st).0 ≡ verdict_of (findings st)
unfolding perform
perform-judged Command.status said_yes input args st e = absurd (ground (arith, e))
perform-judged Command.uncovered said_yes input args st e = absurd (ground (arith, e))
perform-judged Command.cover said_yes input args st e = absurd (ground (arith, e))
perform-judged Command.uncover said_yes input args st e = absurd (ground (arith, e))
perform-judged Command.mark said_yes input args st e = absurd (ground (arith, e))
perform-judged Command.marks said_yes input args st e = absurd (ground (arith, e))
perform-judged Command.unmark said_yes input args st e = absurd (ground (arith, e))
perform-judged Command.log said_yes input args st e = absurd (ground (arith, e))
perform-judged Command.history said_yes input args st e = absurd (ground (arith, e))
perform-judged Command.as_of said_yes input args st e = absurd (ground (arith, e))
perform-judged Command.preview said_yes input args st e = absurd (ground (arith, e))
perform-judged Command.undo said_yes input args st e = absurd (ground (arith, e))
perform-judged Command.preview_replay said_yes input args st e = absurd (ground (arith, e))
perform-judged Command.replay said_yes input args st e = absurd (ground (arith, e))
perform-judged Command.preflight said_yes input args st e = cmd_preflight-code st
perform-judged Command.maintain said_yes input args st e = absurd (ground (arith, e))
perform-judged Command.seal said_yes input args st e = absurd (ground (arith, e))
perform-judged Command.verify said_yes input args st e = cmd_verify-code st
perform-judged Command.forget said_yes input args st e = absurd (ground (arith, e))

-- There is a finding that the exit code tells.
abbrev pub Told : Session → Exit → Type 0
Told st code = (n : ℕ) × (findings st ≡ some (suc n)) × (code ≡ exit_finding)

told :
    (st : Session) (o : Option ℕ)
    → findings st ≡ o
    → Plain (exit_of (verdict_of o)) ⊎ Told st (exit_of (verdict_of o))
told st none e = inl tt
told st (some zero) e = inl tt
told st (some (suc n)) e = inr (n, e, refl)

settle-Plain :
    (x : Outcome Exit × Session) → After (λ c _. Plain c) (λ _. Unit {0}) x → Plain (settle x).0
settle-Plain (ok c, s) h = h
settle-Plain (err e, s) h = tt

not_version :
    (cmd : Bytes) (c : Command) → command_of cmd ≡ some c → beq cmd (codes "version") ≡ false
unfolding command_of command_name
not_version cmd c named = elim (Bool-cases (beq cmd (codes "version"))) [
  | inl e ↦ absurd (
      let known : command_of (codes "version") ≡ some c =
        subst (λ b. command_of b ≡ some c) ((beq_iff cmd (codes "version")).0 e) named in
      ground (arith, known))
  | inr e ↦ e
]

module _ (env : Surroundings) (args : List Bytes) (st : Session) where
  -- The code is 0 or 1, or the command judges and has found something.
  abbrev pub Coded : Exit → Type 0
  Coded code = Plain code ⊎ ((c : Command) × Chosen args c × (judges c ≡ true) × Told st code)

  module _ (cmd dsn : Bytes) (said_yes : Bool) (kept : List Bytes)
      (asked : scan args [] false ≡ for_command cmd dsn said_yes kept) where
    abbrev joined : Session
    joined = record st { connected = st.connected ++ dsn ∷ [] }

    by_command-Coded :
        (connects : Bool) (o : Option Command)
        → command_of cmd ≡ o
        → Coded (settle ((connect_to connects dsn >> dispatch cmd said_yes env.input kept o) st)).0
    by_command-Coded false o e = inl tt
    by_command-Coded true none e = inl tt
    by_command-Coded true (some c) e = elim (Bool-cases (judges c)) [
      | inr plain ↦
          inl (settle-Plain _ ((perform-Modest c said_yes env.input kept plain).at joined tt))
      | inl judging ↦
          rw
            (
              settle-code (perform c said_yes env.input kept joined),
              perform-judged c said_yes env.input kept joined judging,
            )
            (elim (told st (findings st) refl) [
              | inl plain ↦ inl plain
              | inr t ↦ inr (c, (cmd, dsn, said_yes, kept, asked, e), judging, t)
            ])
    ]

    run_command-Coded : Coded (run_command env cmd dsn said_yes kept st).0
    unfolding run_command
    run_command-Coded = elim (Bool-cases (beq cmd (codes "version"))) [
      | inl e ↦ rw e (inl tt)
      | inr e ↦ rw e (by_command-Coded env.connects (command_of cmd) refl)
    ]

  answered-Coded : (a : Asked) → scan args [] false ≡ a → Coded (answer_to env a st).0
  answered-Coded for_usage e = inl tt
  answered-Coded no_value e = inl tt
  answered-Coded (for_command cmd dsn said_yes kept) e = run_command-Coded cmd dsn said_yes kept e

  -- The program exits with 0 or 1; or the command was preflight or verify, its queries were answered,
  -- and the database counted at least one finding, and only then the code is 2.
  pub run-Coded : Coded (run env args st).0
  unfolding run
  run-Coded = answered-Coded (scan args [] false) refl

  -- When the command is preflight or verify and the database can be connected to, the code is 1 where
  -- a query was not answered, 0 where nothing was counted, and 2 where something was.
  pub run-judged :
      (cmd dsn : Bytes) (said_yes : Bool) (kept : List Bytes) (c : Command)
      → scan args [] false ≡ for_command cmd dsn said_yes kept
      → command_of cmd ≡ some c
      → judges c ≡ true
      → env.connects ≡ true
      → (run env args st).0 ≡ exit_of (verdict_of (findings st))
  unfolding run run_command
  run-judged cmd dsn said_yes kept c asked named judging there =
      rw (asked, not_version cmd c named, there, named)
        (settle-code (perform c said_yes env.input kept (joined cmd dsn said_yes kept asked))
          ∙ ap exit_of (
              perform-judged c said_yes env.input kept (joined cmd dsn said_yes kept asked)
                judging))
