-- ===== src/Cli/Erasure.antt =====
-- On the confirmation of the command forget (cli/commands.go).
use pgvolvra.Base.{
  ◌≡◌, refl, ◌⊎◌, inl, inr, Bool, true, false, List, [], ◌∷◌, ◌++◌, Bytes, Option-cases,
}
use pgvolvra.Exec.{Outcome, ok, err}
use pgvolvra.Cli.Session.{flag, text, Query, Session, Input, ask, show_query, run_query}
use pgvolvra.Cli.Selector.{nullable}
use pgvolvra.Cli.Statement.{Statement, query_of}
use pgvolvra.Cli.Undo.{confirm}
use pgvolvra.Cli.Confirmed.{Confirmed, confirm-Confirmed}
use pgvolvra.Cli.Command.{given, forget_options, erase, forget_with, cmd_forget}

module _ (said_yes : Bool) (input : Input) (st : Session) where
  -- The query for what would be erased, and the call that erases it.
  abbrev pub to_count : Bytes → Bytes → Query
  to_count table pk = query_of Statement.erasable (given table ∷ given pk ∷ [])

  abbrev pub to_erase : Bytes → Bytes → Bool → Bytes → Query
  to_erase table pk hard reason =
      query_of Statement.forget (given table ∷ given pk ∷ flag hard ∷ text (nullable reason) ∷ [])

  abbrev pub AfterCount : Bytes → Bytes → Bool → Bytes → Session → Session → Type 0
  AfterCount table pk hard reason mid st' =
      (st'.sent ≡ mid.sent)
      ⊎ ((st'.sent ≡ mid.sent ++ to_erase table pk hard reason ∷ []) × Confirmed said_yes input)

  erase-AfterCount :
      (table pk : Bytes) (hard : Bool) (reason : Bytes) (mid : Session) (r : Outcome Bool)
      → confirm said_yes input ≡ r
      → AfterCount table pk hard reason mid (erase table pk hard reason r mid).1
  unfolding run_query show_query ask
  erase-AfterCount table pk hard reason mid (err e) h = inl refl
  erase-AfterCount table pk hard reason mid (ok false) h = inl refl
  erase-AfterCount table pk hard reason mid (ok true) h =
      elim (Option-cases (mid.answer mid.calls)) [
        | inl e ↦ rw e (inr (refl, confirm-Confirmed said_yes input h))
        | inr (t, e) ↦ rw e (inr (refl, confirm-Confirmed said_yes input h))
      ]

  -- Nothing was sent; or the count; or the count and the call that erases, which was confirmed.
  abbrev pub Erased : List Bytes → Session → Type 0
  Erased args st' =
      (st'.sent ≡ st.sent)
      ⊎ ((table : Bytes) × (pk : Bytes) × (rest : List Bytes) × (hard : Bool) × (reason : Bytes)
          × (args ≡ table ∷ pk ∷ rest)
          × (forget_options rest false [] ≡ ok (hard, reason))
          × ((st'.sent ≡ st.sent ++ to_count table pk ∷ [])
              ⊎ ((st'.sent
                    ≡ (st.sent ++ to_count table pk ∷ []) ++ to_erase table pk hard reason ∷ [])
                  × Confirmed said_yes input)))

  forget_with-Erased :
      (table pk : Bytes) (rest : List Bytes) (r : Outcome (Bool × Bytes))
      → forget_options rest false [] ≡ r
      → Erased (table ∷ pk ∷ rest) (forget_with table pk said_yes input r st).1
  unfolding show_query ask
  forget_with-Erased table pk rest (err e) h = inl refl
  forget_with-Erased table pk rest (ok (hard, reason)) h =
      elim (Option-cases (st.answer st.calls)) [
        | inl e ↦ rw e (inr (table, pk, rest, hard, reason, refl, h, inl refl))
        | inr (t, e) ↦ rw e (
            inr (
              table,
              pk,
              rest,
              hard,
              reason,
              refl,
              h,
              erase-AfterCount table pk hard reason _ (confirm said_yes input) refl,
            ))
      ]

  -- The command forget, whatever the database answers, sends nothing where its arguments are not right;
  -- else it asks what there is for the table and key, and behind that sends at most the call that
  -- erases it, for the same table and key and with the options that were given, and only when this was
  -- confirmed.
  pub cmd_forget-Erased : (args : List Bytes) → Erased args (cmd_forget said_yes input args st).1
  unfolding cmd_forget
  cmd_forget-Erased [] = inl refl
  cmd_forget-Erased (a ∷ []) = inl refl
  cmd_forget-Erased (a ∷ b ∷ rest) = forget_with-Erased a b rest (forget_options rest false []) refl
