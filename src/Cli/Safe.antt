-- ===== src/Cli/Safe.antt =====
-- On queries of fixed statements (cli/commands.go, cli/undo.go): which of them only look.
use pgvolvra.Base.{
  ℕ, ◌≡◌, refl, ◌∙◌, ap, Bool, true, false, ◌&&◌, List, [], ◌∷◌, ◌++◌, append_assoc, All,
  All-append, Option-cases, inl, inr,
}
use pgvolvra.Exec.{Exec, Error, throw, pure, ◌>>=◌, ◌>>◌}
use pgvolvra.Exec.Laws.{Triple, Triple-bind}
use pgvolvra.Cli.Session.{
  Exit, exit_ok, Arg, Query, Session, Printed, shown, sent_one, ask, count, print, show_query,
  run_query,
}
use pgvolvra.Cli.Statement.{Statement, sql_of, query_of, changes}
use pgvolvra.Cli.Undo.{Direction}
use pgvolvra.Cli.Entry.{Command}

-- The statements that each command is for.
abbrev pub belongs : Command → Statement → Bool
belongs Command.status Statement.status = true
belongs Command.status Statement.health_count = true
belongs Command.status Statement.health = true
belongs Command.uncovered Statement.uncovered = true
belongs Command.cover Statement.enable_all = true
belongs Command.cover Statement.enable = true
belongs Command.uncover Statement.disable_all = true
belongs Command.uncover Statement.disable = true
belongs Command.mark Statement.mark = true
belongs Command.marks Statement.marks = true
belongs Command.unmark Statement.unmark = true
belongs Command.log Statement.log = true
belongs Command.history Statement.history = true
belongs Command.as_of Statement.as_of = true
belongs Command.preview (Statement.plan Direction.undo) = true
belongs Command.undo (Statement.plan Direction.undo) = true
belongs Command.undo (Statement.apply Direction.undo bounded) = true
belongs Command.preview_replay (Statement.plan Direction.replay) = true
belongs Command.replay (Statement.plan Direction.replay) = true
belongs Command.replay (Statement.apply Direction.replay bounded) = true
belongs Command.preflight Statement.preflight = true
belongs Command.preflight Statement.critical_count = true
belongs Command.maintain Statement.maintain = true
belongs Command.seal Statement.seal = true
belongs Command.seal Statement.unsealed_count = true
belongs Command.verify Statement.verify = true
belongs Command.verify Statement.bad_count = true
belongs Command.forget Statement.erasable = true
belongs Command.forget Statement.forget = true
belongs _ _ = false

-- The commands that only look.
abbrev pub reads : Command → Bool
reads Command.status = true
reads Command.uncovered = true
reads Command.marks = true
reads Command.log = true
reads Command.history = true
reads Command.as_of = true
reads Command.preview = true
reads Command.preview_replay = true
reads Command.preflight = true
reads Command.verify = true
reads _ = false

-- The text of the query is one of the fixed statements, one that the command is for; where the
-- command only looks, it is one that changes nothing.
abbrev pub Fixed : Command → Query → Type 0
Fixed c q =
    (s : Statement) × (q.sql ≡ sql_of s) × (belongs c s ≡ true) × ((reads c && changes s) ≡ false)

module _ (base : List Query) (c : Command) where
  -- What was sent behind `base` are such queries.
  abbrev pub Within : Session → Type 0
  Within st = (new : List Query) × (st.sent ≡ base ++ new) × All (Fixed c) new

  abbrev pub Orderly : {A : Type 0} → Exec Session A → Type 0
  Orderly m = Triple Within m (λ _. Within) Within

  one_more : (q : Query) (st : Session) → Fixed c q → Within st → Within (sent_one q st)
  one_more q st f (new, e, all) = (
    new ++ q ∷ [],
    ap (λ l. l ++ q ∷ []) e ∙ append_assoc base new (q ∷ []),
    All-append (Fixed c) new (q ∷ []) all (f, tt),
  )

  pub ask-Orderly : (q : Query) → Fixed c q → Orderly (ask q)
  unfolding ask
  ask-Orderly q f = record {
    at = λ st h. elim (Option-cases (st.answer st.calls)) [
      | inl e ↦ rw e (one_more q st f h)
      | inr (t, e) ↦ rw e (one_more q st f h)
    ];
  }

  pub count-Orderly : (q : Query) → Fixed c q → Orderly (count q)
  unfolding count
  count-Orderly q f = record {
    at = λ st h. elim (Option-cases (st.number st.calls)) [
      | inl e ↦ rw e (one_more q st f h)
      | inr (o, e) ↦ elim (Option-cases o) [
        | inl z ↦ rw (e, z) (one_more q st f h)
        | inr (n, z) ↦ rw (e, z) (one_more q st f h)
      ]
    ];
  }

  pub print-Orderly : (x : Printed) → Orderly (print x)
  print-Orderly x = record { at = λ st h. h }

  pub throw-Orderly : {A : Type 0} {e : Error} → Orderly (throw {A = A} e)
  throw-Orderly = record { at = λ st h. h }

  pub pure-Orderly : {A : Type 0} (a : A) → Orderly (pure a)
  pure-Orderly a = record { at = λ st h. h }

  pub say : (x : Printed) (code : Exit) → Orderly (print x >> pure code)
  say x code = record { at = λ st h. h }

  pub show_query-Orderly : (q : Query) → Fixed c q → Orderly (show_query q)
  unfolding show_query
  show_query-Orderly q f = Triple-bind _ _ (ask-Orderly q f) λ t. print-Orderly (shown t)

  pub run_query-Orderly : (q : Query) → Fixed c q → Orderly (run_query q)
  unfolding run_query
  run_query-Orderly q f = Triple-bind _ _ (show_query-Orderly q f) λ _. pure-Orderly exit_ok

  -- A query whose answer is shown, and a number.
  pub look-Orderly :
      (q k : Query) (f : ℕ → Exec Session Exit)
      → Fixed c q
      → Fixed c k
      → ((n : ℕ) → Orderly (f n))
      → Orderly (show_query q >> (count k >>= f))
  look-Orderly q k f fq fk t =
      Triple-bind _ _ (show_query-Orderly q fq) λ _. Triple-bind _ _ (count-Orderly k fk) t

pub fixed :
    (c : Command) (s : Statement) (args : List Arg)
    → belongs c s ≡ true
    → (reads c && changes s) ≡ false
    → Fixed c (query_of s args)
unfolding query_of
fixed c s args b e = (s, refl, b, e)
