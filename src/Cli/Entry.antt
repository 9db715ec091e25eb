-- ===== src/Cli/Entry.antt =====
-- The entry point of the command line (cli/main.go): the options that may stand before and behind the
-- command, and the choice of the command.
use pgvolvra.Base.{
  Bool, true, false, ◌||◌, Option, none, some, List, [], ◌∷◌, ◌++◌, Bytes, codes, beq,
  if◌then◌else◌,
}
use pgvolvra.Exec.{
  Exec, Outcome, ok, err, failed, connect, needs_value, unknown_command, ◌>>◌, throw,
}
use pgvolvra.Cli.Session.{Exit, exit_ok, exit_error, Session, Input, usage, version, complaint}
use pgvolvra.Cli.Undo.{Direction, cmd_change, cmd_preview}
use pgvolvra.Cli.Command.{
  cmd_status, cmd_uncovered, cmd_cover, cmd_uncover, cmd_mark, cmd_marks, cmd_unmark, cmd_log,
  cmd_history, cmd_as_of, cmd_preflight, cmd_maintain, cmd_seal, cmd_verify, cmd_forget,
}

pub data Command : Type 0 where
  status uncovered cover uncover mark marks unmark log history as_of : Command
  preview undo preview_replay replay preflight maintain seal verify forget : Command

unfoldable pub command_name : Command → Bytes
command_name Command.status = codes "status"
command_name Command.uncovered = codes "uncovered"
command_name Command.cover = codes "cover"
command_name Command.uncover = codes "uncover"
command_name Command.mark = codes "mark"
command_name Command.marks = codes "marks"
command_name Command.unmark = codes "unmark"
command_name Command.log = codes "log"
command_name Command.history = codes "history"
command_name Command.as_of = codes "as-of"
command_name Command.preview = codes "preview"
command_name Command.undo = codes "undo"
command_name Command.preview_replay = codes "preview-replay"
command_name Command.replay = codes "replay"
command_name Command.preflight = codes "preflight"
command_name Command.maintain = codes "maintain"
command_name Command.seal = codes "seal"
command_name Command.verify = codes "verify"
command_name Command.forget = codes "forget"

-- The cases of the switch, in its order.
abbrev pub all_commands : List Command
all_commands =
    Command.status ∷ Command.uncovered ∷ Command.cover ∷ Command.uncover ∷ Command.mark
    ∷ Command.marks ∷ Command.unmark ∷ Command.log ∷ Command.history ∷ Command.as_of
    ∷ Command.preview ∷ Command.undo ∷ Command.preview_replay ∷ Command.replay ∷ Command.preflight
    ∷ Command.maintain ∷ Command.seal ∷ Command.verify ∷ Command.forget ∷ []

find_command : Bytes → List Command → Option Command
unfolding command_name
find_command a [] = none
find_command a (c ∷ cs) =
    let later = find_command a cs in if beq (command_name c) a then some c else later

unfoldable pub command_of : Bytes → Option Command
unfolding find_command
command_of a = find_command a all_commands

-- What the arguments ask for: the usage, a complaint on an option, or a command with its own arguments.
pub data Asked : Type 0 where
  for_usage : Asked
  no_value : Asked
  for_command : Bytes → Bytes → Bool → List Bytes → Asked

abbrev pub dsn_name : Bytes
dsn_name = codes "--dsn"

abbrev pub is_yes_name : Bytes → Bool
is_yes_name a = beq a (codes "--yes") || beq a (codes "-y")

abbrev pub is_help_name : Bytes → Bool
is_help_name a = beq a (codes "-h") || beq a (codes "--help")

-- The loop over the arguments behind the command.
unfoldable pub behind : Bytes → List Bytes → Bytes → Bool → List Bytes → Asked
behind cmd [] dsn said_yes kept = for_command cmd dsn said_yes kept
behind cmd (a ∷ []) dsn said_yes kept =
    if beq a dsn_name
    then no_value
    else if is_yes_name a
    then for_command cmd dsn true kept
    else if is_help_name a
    then for_usage
    else for_command cmd dsn said_yes (kept ++ a ∷ [])
behind cmd (a ∷ v ∷ rest) dsn said_yes kept =
    let connecting = behind cmd rest v said_yes kept in
    let confirming = behind cmd (v ∷ rest) dsn true kept in
    let keeping = behind cmd (v ∷ rest) dsn said_yes (kept ++ a ∷ []) in
    if beq a dsn_name
    then connecting
    else if is_yes_name a
    then confirming
    else if is_help_name a
    then for_usage
    else keeping

-- The loop over the options before the command.
unfoldable pub scan : List Bytes → Bytes → Bool → Asked
unfolding behind
scan [] dsn said_yes = for_usage
scan (a ∷ []) dsn said_yes =
    if beq a dsn_name
    then no_value
    else if is_yes_name a || is_help_name a
    then for_usage
    else for_command a dsn said_yes []
scan (a ∷ v ∷ rest) dsn said_yes =
    let connecting = scan rest v said_yes in
    let confirming = scan (v ∷ rest) dsn true in
    if beq a dsn_name
    then connecting
    else if is_yes_name a
    then confirming
    else if is_help_name a
    then for_usage
    else behind a (v ∷ rest) dsn said_yes []

unfoldable pub perform : Command → Bool → Input → List Bytes → Exec Session Exit
perform Command.status said_yes input args = cmd_status
perform Command.uncovered said_yes input args = cmd_uncovered args
perform Command.cover said_yes input args = cmd_cover args
perform Command.uncover said_yes input args = cmd_uncover args
perform Command.mark said_yes input args = cmd_mark args
perform Command.marks said_yes input args = cmd_marks
perform Command.unmark said_yes input args = cmd_unmark args
perform Command.log said_yes input args = cmd_log args
perform Command.history said_yes input args = cmd_history args
perform Command.as_of said_yes input args = cmd_as_of args
perform Command.preview said_yes input args = cmd_preview Direction.undo args
perform Command.undo said_yes input args = cmd_change Direction.undo said_yes input args
perform Command.preview_replay said_yes input args = cmd_preview Direction.replay args
perform Command.replay said_yes input args = cmd_change Direction.replay said_yes input args
perform Command.preflight said_yes input args = cmd_preflight
perform Command.maintain said_yes input args = cmd_maintain
perform Command.seal said_yes input args = cmd_seal
perform Command.verify said_yes input args = cmd_verify
perform Command.forget said_yes input args = cmd_forget said_yes input args

-- Whether the database can be connected to, and the standard input.
pub record Surroundings : Type 0 where
  pub connects : Bool
  pub input : Input

abbrev pub connect_to : Bool → Bytes → Exec Session (Unit {0})
connect_to true dsn st = (ok tt, record st { connected = st.connected ++ dsn ∷ [] })
connect_to false dsn st = (err (failed connect), st)

abbrev pub dispatch : Bytes → Bool → Input → List Bytes → Option Command → Exec Session Exit
dispatch cmd said_yes input args none = throw (unknown_command cmd)
dispatch cmd said_yes input args (some c) = perform c said_yes input args

-- `fail`
abbrev pub settle : Outcome Exit × Session → Exit × Session
settle (ok code, st) = (code, st)
settle (err e, st) = (exit_error, record st { printed = st.printed ++ complaint e ∷ [] })

unfoldable pub run_command :
    Surroundings → Bytes → Bytes → Bool → List Bytes → Session → Exit × Session
unfolding perform command_of
run_command env cmd dsn said_yes args st =
    if beq cmd (codes "version")
    then (exit_ok, record st { printed = st.printed ++ version ∷ [] })
    else settle
        ((connect_to env.connects dsn >> dispatch cmd said_yes env.input args (command_of cmd)) st)

abbrev pub answer_to : Surroundings → Asked → Session → Exit × Session
answer_to env for_usage st = (exit_ok, record st { printed = st.printed ++ usage ∷ [] })
answer_to env no_value st = settle (err (needs_value dsn_name), st)
answer_to env (for_command cmd dsn said_yes args) st = run_command env cmd dsn said_yes args st

-- `run`
unfoldable pub run : Surroundings → List Bytes → Session → Exit × Session
unfolding scan run_command
run env args st = answer_to env (scan args [] false) st
