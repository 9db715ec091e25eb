-- ===== src/Cli/Statement.antt =====
-- The statements of the command line (cli/commands.go, cli/undo.go). Their texts are fixed: what the user
-- gives is bound.
use pgvolvra.Base.{Bool, true, false, List, [], ◌∷◌, ◌++◌, Bytes, codes}
use pgvolvra.Cli.Session.{Arg, Query}
use pgvolvra.Cli.Selector.{when}
use pgvolvra.Cli.Undo.{Direction, plan_sql, apply_sql}

pub data Statement : Type 0 where
  status health_count health uncovered enable_all enable disable_all disable preflight
        critical_count maintain seal unsealed_count :
      Statement
  verify bad_count mark marks unmark log history as_of erasable forget : Statement
  plan : Direction → Statement
  apply : Direction → Bool → Statement

abbrev status_sql : Bytes
status_sql =
    codes "\n"
    ++ codes "\t\tSELECT table_name AS \"table\", covered,\n"
    ++ codes "\t\t       truncate_covered AS \"truncate covered\",\n"
    ++ codes "\t\t       changes, newest_change AS \"last change\"\n"
    ++ codes "\t\tFROM volvra.status()"

abbrev health_count_sql : Bytes
health_count_sql = codes "SELECT count(*) FROM volvra.health()"

abbrev health_sql : Bytes
health_sql = codes "SELECT severity, problem, detail FROM volvra.health()"

abbrev uncovered_sql : Bytes
uncovered_sql =
    codes "\n" ++ codes "\t\tSELECT table_name AS \"table\", reason FROM volvra.uncovered($1)"

abbrev enable_all_sql : Bytes
enable_all_sql =
    codes "\n"
    ++ codes "\t\t\tSELECT table_name AS \"table\", status, detail\n"
    ++ codes "\t\t\tFROM volvra.enable_all($1)"

abbrev enable_sql : Bytes
enable_sql = codes "SELECT volvra.enable($1::regclass) AS result"

abbrev disable_all_sql : Bytes
disable_all_sql =
    codes "\n" ++ codes "\t\t\tSELECT table_name AS \"table\", status FROM volvra.disable_all($1)"

abbrev disable_sql : Bytes
disable_sql = codes "SELECT volvra.disable($1::regclass) AS result"

abbrev preflight_sql : Bytes
preflight_sql = codes "SELECT severity, finding, detail FROM volvra.preflight()"

abbrev critical_count_sql : Bytes
critical_count_sql = codes "SELECT count(*) FROM volvra.preflight() WHERE severity = 'critical'"

abbrev maintain_sql : Bytes
maintain_sql = codes "SELECT step, detail, affected FROM volvra.maintain()"

abbrev seal_sql : Bytes
seal_sql =
    codes "\n"
    ++ codes "\t\tSELECT seal_id, from_id, to_id, row_count AS changes,\n"
    ++ codes "\t\t       left(chain_hash, 16) || '"
    ++ (226 ∷ 128 ∷ 166 ∷ [])
    ++ codes "' AS chain\n"
    ++ codes "\t\tFROM volvra.seal()"

abbrev unsealed_count_sql : Bytes
unsealed_count_sql =
    codes "\n"
    ++ codes "\t\tSELECT count(*) FROM volvra.change_log\n"
    ++ codes "\t\tWHERE id > coalesce((SELECT max(to_id) FROM volvra.seal), 0)"

abbrev verify_sql : Bytes
verify_sql =
    codes "\n"
    ++ codes "\t\tSELECT seal_id, from_id, to_id, rows_sealed, rows_found, verdict, detail\n"
    ++ codes "\t\tFROM volvra.verify()"

abbrev bad_count_sql : Bytes
bad_count_sql =
    codes "\n"
    ++ codes "\t\tSELECT count(*) FROM volvra.verify()\n"
    ++ codes "\t\tWHERE verdict IN ('TAMPERED', 'CHAIN BROKEN', 'SEAL FORGED')"

abbrev mark_sql : Bytes
mark_sql = codes "SELECT volvra.mark($1, $2, p_replace => $3) AS marked_at"

abbrev marks_sql : Bytes
marks_sql =
    codes "\n"
    ++ codes "\t\tSELECT name, at, age, created_by,\n"
    ++ codes "\t\t       changes_since AS \"changes since\",\n"
    ++ codes "\t\t       tables_since  AS \"tables\", note\n"
    ++ codes "\t\tFROM volvra.marks()"

abbrev unmark_sql : Bytes
unmark_sql = codes "SELECT volvra.unmark($1) AS removed"

abbrev log_sql : Bytes
log_sql =
    codes "\n"
    ++ codes "\t\tSELECT txid, ended AS \"when\",\n"
    ++ codes "\t\t       array_to_string(db_users, ',') AS \"by\",\n"
    ++ codes "\t\t       array_to_string(tables, ', ')  AS \"tables\",\n"
    ++ codes "\t\t       inserts AS ins, updates AS upd, deletes AS del, changes\n"
    ++ codes "\t\tFROM volvra.transactions($1::timestamptz, NULL, $2::integer)"

abbrev history_sql : Bytes
history_sql =
    codes "\n"
    ++ codes "\t\tSELECT change_id, ts AS \"when\", op, actor, db_user AS \"role\",\n"
    ++ codes "\t\t       old_row, new_row\n"
    ++ codes "\t\tFROM volvra.history($1::regclass, $2::jsonb)"

abbrev as_of_sql : Bytes
as_of_sql =
    codes "SELECT r AS row FROM volvra.as_of($1::regclass, " ++ when (codes "$2") ++ codes ") AS r"

abbrev erasable_sql : Bytes
erasable_sql =
    codes "\n"
    ++ codes "\t\tSELECT count(*) AS history_rows, min(ts) AS first_seen, max(ts) AS last_seen\n"
    ++ codes "\t\tFROM volvra.change_log\n"
    ++ codes "\t\tWHERE table_name = volvra._fqname($1::regclass)\n"
    ++ codes "\t\t  AND pk @> $2::jsonb"

abbrev forget_sql : Bytes
forget_sql =
    codes "\n"
    ++ codes "\t\tSELECT mode, rows_erased, from_id, to_id\n"
    ++ codes "\t\tFROM volvra.forget($1::regclass, $2::jsonb, hard => $3, reason => $4)"

unfoldable pub sql_of : Statement → Bytes
unfolding plan_sql apply_sql when
sql_of Statement.status = status_sql
sql_of Statement.health_count = health_count_sql
sql_of Statement.health = health_sql
sql_of Statement.uncovered = uncovered_sql
sql_of Statement.enable_all = enable_all_sql
sql_of Statement.enable = enable_sql
sql_of Statement.disable_all = disable_all_sql
sql_of Statement.disable = disable_sql
sql_of Statement.preflight = preflight_sql
sql_of Statement.critical_count = critical_count_sql
sql_of Statement.maintain = maintain_sql
sql_of Statement.seal = seal_sql
sql_of Statement.unsealed_count = unsealed_count_sql
sql_of Statement.verify = verify_sql
sql_of Statement.bad_count = bad_count_sql
sql_of Statement.mark = mark_sql
sql_of Statement.marks = marks_sql
sql_of Statement.unmark = unmark_sql
sql_of Statement.log = log_sql
sql_of Statement.history = history_sql
sql_of Statement.as_of = as_of_sql
sql_of Statement.erasable = erasable_sql
sql_of Statement.forget = forget_sql
sql_of (Statement.plan dir) = plan_sql dir
sql_of (Statement.apply dir bounded) = apply_sql dir bounded

unfoldable pub query_of : Statement → List Arg → Query
query_of s args = record { sql = sql_of s; args = args }

-- The statements whose function changes tables, what is covered, marks or the history.
abbrev pub changes : Statement → Bool
changes Statement.status = false
changes Statement.health_count = false
changes Statement.health = false
changes Statement.uncovered = false
changes Statement.enable_all = true
changes Statement.enable = true
changes Statement.disable_all = true
changes Statement.disable = true
changes Statement.preflight = false
changes Statement.critical_count = false
changes Statement.maintain = true
changes Statement.seal = true
changes Statement.unsealed_count = false
changes Statement.verify = false
changes Statement.bad_count = false
changes Statement.mark = true
changes Statement.marks = false
changes Statement.unmark = true
changes Statement.log = false
changes Statement.history = false
changes Statement.as_of = false
changes Statement.erasable = false
changes Statement.forget = true
changes (Statement.plan dir) = false
changes (Statement.apply dir bounded) = true
