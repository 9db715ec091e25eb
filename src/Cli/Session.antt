-- ===== src/Cli/Session.antt =====
-- What a command of the command line does outside: the queries to the database (cli/db.go), and what is
-- printed.
use pgvolvra.Base.{ℕ, suc, Bool, Option, none, some, List, [], ◌∷◌, ◌++◌, Bytes, map}
use pgvolvra.Cli.Value.{Value, render}
use pgvolvra.Exec.{Exec, Error, failed, query, ◌>>=◌, ◌>>◌, pure, throw, modify}

-- The codes 0, 1 and 2
pub data Exit : Type 0 where
  exit_ok exit_error exit_finding : Exit

-- A bind parameter.
pub data Arg : Type 0 where
  text : Option Bytes → Arg
  flag : Bool → Arg

pub record Query : Type 0 where
  pub sql : Bytes
  pub args : List Arg

pub record Table : Type 0 where
  pub cols : List Bytes
  pub rows : List (List Bytes)

-- What the database answers: the names of the columns, and the rows of values.
pub record Answer : Type 0 where
  pub fields : List Bytes
  pub records : List (List Value)

-- A table, a text with the numbers that it is formatted with, and the same on the standard error; the
-- usage, the version, and an error that ended the program.
pub data Printed : Type 0 where
  shown : Table → Printed
  said warned : Bytes → List ℕ → Printed
  usage version : Printed
  complaint : Error → Printed

-- The data sources that were connected to and the queries that were sent, the last one last, the
-- database's answer to each, `none` for an error, and what was printed. A query for a number may have
-- no row.
pub record Session : Type 0 where
  pub connected : List Bytes
  pub sent : List Query
  pub calls : ℕ
  pub answer : ℕ → Option Answer
  pub number : ℕ → Option (Option ℕ)
  pub printed : List Printed

-- What stands at the other end of the standard input: a terminal or not, and the line that is read
-- from it up to its newline, `none` where the reading fails with nothing read.
pub record Input : Type 0 where
  pub is_terminal : Bool
  pub line : Option Bytes

abbrev pub sent_one : Query → Session → Session
sent_one q st = record st { sent = st.sent ++ q ∷ []; calls = suc st.calls }

-- The table of an answer: each value is rendered.
abbrev pub rendered : Answer → Table
rendered a = record { cols = a.fields; rows = map (map render) a.records }

abbrev answered : Option Answer → Exec Session Table
answered none = throw (failed query)
answered (some a) = pure (rendered a)

-- `db.Query`
unfoldable pub ask : Query → Exec Session Table
ask q st = answered (st.answer st.calls) (sent_one q st)

abbrev counted : Option (Option ℕ) → Exec Session ℕ
counted none = throw (failed query)
counted (some none) = pure 0
counted (some (some n)) = pure n

-- `db.Count`: no row counts as 0.
unfoldable pub count : Query → Exec Session ℕ
count q st = counted (st.number st.calls) (sent_one q st)

abbrev pub print : Printed → Exec Session (Unit {0})
print x = modify (λ st. record st { printed = st.printed ++ x ∷ [] })

abbrev pub print_all : List Printed → Exec Session (Unit {0})
print_all xs = modify (λ st. record st { printed = st.printed ++ xs })

-- A query whose answer is shown.
unfoldable pub show_query : Query → Exec Session (Unit {0})
unfolding ask
show_query q = do t ← ask q; print (shown t)

-- The same as a whole command.
unfoldable pub run_query : Query → Exec Session Exit
unfolding show_query
run_query q = show_query q >> pure exit_ok
