-- ===== src/Tests/Commands.antt =====
-- The theorems on the command line at concrete arguments.
use pgvolvra.Base.{◌≡◌, refl, ◌⊎◌, true, false, none, some, List, [], ◌∷◌, ◌++◌, Bytes, codes}
use pgvolvra.Exec.{Error, ok, err, unknown_option}
use pgvolvra.Cli.Selector.{
  Flag, Selector, blank, flag_name, flag_of, set_flag, parse_args, is_blank, is_int64, checked,
  parse,
}
use pgvolvra.Cli.Selected.{
  Valid, arguments, Item, said, parse-arguments, parse-unknown, parse-Valid,
}
use pgvolvra.Cli.Value.{other}
use pgvolvra.Cli.Session.{Session, Input, Answer}
use pgvolvra.Cli.Undo.{undo, cmd_change}
use pgvolvra.Cli.Confirmed.{Planned, cmd_change-Confirmed}

abbrev selected : Selector
selected = record blank { table = codes "orders"; txid = codes "4711" }

abbrev arguments_of : List Bytes
arguments_of = codes "--table" ∷ codes "orders" ∷ codes "--txid" ∷ codes "4711" ∷ []

parsed : parse arguments_of ≡ ok selected
unfolding parse parse_args flag_of flag_name set_flag checked is_blank is_int64
parsed = refl

parse-Valid_example : Valid selected
parse-Valid_example = parse-Valid arguments_of selected parsed

parse-arguments_example : parse (arguments selected) ≡ checked selected
parse-arguments_example = parse-arguments selected

unknown : flag_of (codes "--tabel") ≡ none
unfolding flag_of flag_name
unknown = refl

abbrev items : List Item
items = some (Flag.table, codes "orders") ∷ none ∷ some (Flag.table, codes "lines") ∷ []

parse-unknown_example :
    parse (said items ++ codes "--tabel" ∷ codes "x" ∷ []) ≡ err (unknown_option (codes "--tabel"))
parse-unknown_example = parse-unknown items (codes "--tabel") (codes "x" ∷ []) unknown refl

abbrev answers : Answer
answers = record { fields = codes "seq" ∷ []; records = (other (codes "1") ∷ []) ∷ [] }

abbrev session : Session
session = record {
  connected = [];
  sent = [];
  calls = 0;
  answer = λ n. some answers;
  number = λ n. some (some 0);
  printed = [];
}

abbrev at_terminal : Input
at_terminal = record { is_terminal = true; line = some (codes "y") }

cmd_change-Confirmed_example :
    ((e : Error) × (parse arguments_of ≡ err e)
      × ((cmd_change undo false at_terminal arguments_of session).1 ≡ session))
    ⊎ ((s : Selector) × (parse arguments_of ≡ ok s)
        × Planned undo false at_terminal s session
            (cmd_change undo false at_terminal arguments_of session).1)
cmd_change-Confirmed_example = cmd_change-Confirmed undo false at_terminal arguments_of session
