-- ===== src/Cli/Confirmed.antt =====
-- On the confirmation of undo and replay (cli/undo.go).
use pgvolvra.Base.{
  ap, not, is_empty, some, if◌then◌else◌, zero, suc, ℕ, ◌≡◌, refl, ◌⊎◌, inl, inr, Bool, true, false,
  List, [], ◌∷◌, ◌++◌, Bytes, length, arith, Bool-cases, Option-cases,
}
use pgvolvra.Exec.{Outcome, ok, err, Error}
use pgvolvra.Exec.Laws.{ok-injective}
use pgvolvra.Cli.Selector.{Selector, parse, nullable, selector_args}
use pgvolvra.Cli.Session.{Arg, text, flag, Query, rendered, Session, Input, ask, show_query}
use pgvolvra.Cli.Undo.{
  apply_sql, limit, Direction, plan_sql, bound, show_plan, is_yes, confirm, of_plan, apply_query,
  act, act_on, change_selected, cmd_change, count_conflicts,
}

-- `--yes`, or a terminal at which the answer was y or Y.
abbrev pub Confirmed : Bool → Input → Type 0
Confirmed said_yes input =
    (said_yes ≡ true) ⊎ ((input.is_terminal ≡ true) × (is_yes input.line ≡ true))

-- The parameters of a selection: the text of each option, NULL where it is not given.
abbrev pub selecting : Selector → List Arg
selecting s =
    text (nullable s.table)
    ∷ text (nullable s.since)
    ∷ text (nullable s.until)
    ∷ text (nullable s.txid)
    ∷ text (nullable s.actor)
    ∷ text (nullable s.user)
    ∷ text (nullable s.where_)
    ∷ text (nullable s.mark)
    ∷ []

-- The plan of the selection.
abbrev pub plan : Direction → Selector → Query
plan dir s = record { sql = plan_sql dir; args = selecting s }

-- The call that applies it: the same parameters, whether conflicts are skipped, and the limit of rows
-- where one is given.
abbrev pub applied : Direction → Selector → Query
applied dir s = record {
  sql = apply_sql dir (not (is_empty s.max_rows));
  args =
      selecting s
      ++ flag s.skip_confl ∷ (if is_empty s.max_rows then [] else text (some s.max_rows) ∷ []);
}

apply_query-applied : (dir : Direction) (s : Selector) → apply_query dir s ≡ applied dir s
unfolding apply_query selector_args
apply_query-applied dir s = limited s.max_rows
  where
    limited :
        (m : Bytes)
        → ◌≡◌ {A = Query}
            (record {
              sql = apply_sql dir (elim m [ [] ↦ false | _ ↦ true ]);
              args = bound s ++ flag s.skip_confl ∷ limit m;
            })
            (record {
              sql = apply_sql dir (not (is_empty m));
              args =
                  selecting s
                  ++ flag s.skip_confl ∷ (if is_empty m then [] else text (some m) ∷ []);
            })
    limited [] = refl
    limited (b ∷ m) = refl

pub confirm-Confirmed :
    (said_yes : Bool) (input : Input) → confirm said_yes input ≡ ok true → Confirmed said_yes input
unfolding confirm
confirm-Confirmed true input e = inl refl
confirm-Confirmed false input e = elim (Bool-cases input.is_terminal) [
  | inl t ↦ inr (t, ok-injective _ _ (rw t at e))
  | inr t ↦ absurd (ground (arith, e, t))
]

module _ (dir : Direction) (said_yes : Bool) (input : Input) (s : Selector) where
  -- The queries after the plan: none, or the call that changes data, which was confirmed.
  abbrev pub AfterPlan : Session → Session → Type 0
  AfterPlan st st' =
      (st'.sent ≡ st.sent) ⊎ ((st'.sent ≡ st.sent ++ applied dir s ∷ []) × Confirmed said_yes input)

  act-AfterPlan :
      (answer : Outcome Bool) (st : Session)
      → confirm said_yes input ≡ answer
      → AfterPlan st (act dir s answer st).1
  unfolding ask show_query
  act-AfterPlan (err e) st h = inl refl
  act-AfterPlan (ok false) st h = inl refl
  act-AfterPlan (ok true) st h = elim (Option-cases (st.answer st.calls)) [
    | inl e ↦ rw e (inr (sent, confirm-Confirmed said_yes input h))
    | inr (t, e) ↦ rw e (inr (sent, confirm-Confirmed said_yes input h))
  ]
    where
      sent : st.sent ++ apply_query dir s ∷ [] ≡ st.sent ++ applied dir s ∷ []
      sent = ap (λ q. st.sent ++ q ∷ []) (apply_query-applied dir s)

  act_on-AfterPlan :
      (counts : ℕ × ℕ) (st : Session) → AfterPlan st (act_on dir said_yes input s counts st).1
  act_on-AfterPlan (zero, conflicts) st = inl refl
  act_on-AfterPlan (suc rows, conflicts) st =
      act-AfterPlan (confirm said_yes input)
        (record st { printed = st.printed ++ of_plan dir s.skip_confl (suc rows) conflicts }) refl

  -- The plan, and what follows it.
  abbrev pub Planned : Session → Session → Type 0
  Planned st st' =
      (st'.sent ≡ st.sent ++ plan dir s ∷ [])
      ⊎ ((st'.sent ≡ (st.sent ++ plan dir s ∷ []) ++ applied dir s ∷ []) × Confirmed said_yes input)

  planned : (st : Session) → Planned st (change_selected dir said_yes input (ok s) st).1
  unfolding show_plan ask selector_args
  planned st = elim (Option-cases (st.answer st.calls)) [
    | inl e ↦ rw e (inl refl)
    | inr (t, e) ↦ rw e (
        act_on-AfterPlan
          (length (rendered t).rows, count_conflicts (rendered t).cols (rendered t).rows) _)
  ]

module _ (dir : Direction) (said_yes : Bool) (input : Input) (args : List Bytes)
    (st : Session) where
  -- An undo or replay, whatever the database answers, sends nothing where the arguments are no
  -- selector; else it sends the plan, with the selector's options as parameters, and behind that at most
  -- the call that changes data, with the same parameters, `--skip-conflicts` and the limit that were
  -- asked for, and only when this was confirmed.
  pub cmd_change-Confirmed :
      ((e : Error) × (parse args ≡ err e) × ((cmd_change dir said_yes input args st).1 ≡ st))
      ⊎ ((s : Selector) × (parse args ≡ ok s)
          × Planned dir said_yes input s st (cmd_change dir said_yes input args st).1)
  unfolding cmd_change
  cmd_change-Confirmed = by_selector (parse args) refl
    where
      by_selector :
          (r : Outcome Selector)
          → parse args ≡ r
          → ((e : Error) × (parse args ≡ err e)
              × ((change_selected dir said_yes input r st).1 ≡ st))
            ⊎ ((s : Selector) × (parse args ≡ ok s)
                × Planned dir said_yes input s st (change_selected dir said_yes input r st).1)
      by_selector (err e) h = inl (e, h, refl)
      by_selector (ok s) h = inr (s, h, planned dir said_yes input s st)
