-- ===== src/Restore.antt =====
-- Restore of an archive (companion/restore.go): each row change of the segments, in order, becomes
-- one statement on the database.
pub mod Quote
use pgvolvra.Base.{
  ℕ, suc, ◌+◌, Bool, ◌||◌, Option, none, some, List, [], ◌∷◌, ◌++◌, Bytes, codes, is_empty, beq,
  ◌==◌, if◌then◌else◌,
}
use pgvolvra.Exec.{
  Exec, Outcome, ok, err, Error, failed, query, connect, read_file, too_long, ◌>>◌, ◌>>=◌, pure,
  throw, modify,
}
use pgvolvra.Format.{Change, Segment, Manifest, Platform}
use pgvolvra.Format.Names.{decimal}
use pgvolvra.Lines.{Stream, Scanned, Ending, clean, oversize, io_error, scan}
use pgvolvra.Source.{Source, open_source, read_manifest}

doubled : Bytes → Bytes
doubled [] = []
doubled (b ∷ bs) = let rest = b ∷ doubled bs in if b == b'\'' then b'\'' ∷ rest else rest

-- `quoteLiteral`
unfoldable pub quote_literal : Bytes → Bytes
unfolding doubled
quote_literal s = b'\'' ∷ doubled s ++ b'\'' ∷ []

-- `normaliseSQL`
unfoldable pub normalise_sql : Bytes → Bytes
unfolding quote_literal
normalise_sql table =
    codes "\nWITH t AS (SELECT to_regclass("
    ++ quote_literal table
    ++ codes ") AS rel)\nINSERT INTO volvra.change_log\n"
    ++ codes "  (table_name, op, pk, old_row, new_row, actor, db_user, txid, ts)\n"
    ++ codes "-- The canonical name comes from the database, not from the archive: the\n"
    ++ codes "-- companion quotes every identifier, volvra quotes only what needs it, and a\n"
    ++ codes "-- table_name that does not match byte for byte is history the undo cannot see.\n"
    ++ codes "SELECT volvra._fqname(t.rel), $1,\n"
    ++ codes "       CASE WHEN $2::jsonb IS NULL THEN '{}'::jsonb ELSE $2::jsonb END,\n"
    ++ codes "       CASE WHEN $3::jsonb IS NULL THEN NULL\n"
    ++ codes "            ELSE to_jsonb(jsonb_populate_record(NULL::"
    ++ table
    ++ codes ", $3::jsonb)) END,\n       CASE WHEN $4::jsonb IS NULL THEN NULL\n"
    ++ codes "            ELSE to_jsonb(jsonb_populate_record(NULL::"
    ++ table
    ++ codes ", $4::jsonb)) END,\n"
    ++ codes "       'archive:' || coalesce($5, 'unknown'), 'archive', "
    ++ codes "coalesce($6::bigint, 0), $7::timestamptz\nFROM t WHERE t.rel IS NOT NULL"

-- `rawOrNil`
unfoldable pub raw_or_nil : Bytes → Option Bytes
raw_or_nil r = if is_empty r || beq r (codes "null") then none else some r

-- One call of `ExecParams`: the statement and its seven parameters, `none` for NULL.
pub record Statement : Type 0 where
  pub sql : Bytes
  pub op : Bytes
  pub pk : Option Bytes
  pub old : Option Bytes
  pub new : Option Bytes
  pub lsn : Bytes
  pub xid : Bytes
  pub commit_ts : Bytes

-- The counters that are returned, also with an error, and the database: what it executed, and which
-- of the calls fail.
pub record Loading : Type 0 where
  pub loaded : ℕ
  pub skipped : ℕ
  pub sent : List Statement
  pub calls : ℕ
  pub fails : ℕ → Bool

abbrev load : Loading → Loading
load st = record st { loaded = suc st.loaded }

abbrev skip : Loading → Loading
skip st = record st { skipped = suc st.skipped }

-- A call of the database; a failing one changes nothing.
unfoldable pub call : (Loading → Loading) → Error → Exec Loading (Unit {0})
call done e st =
    if st.fails st.calls
    then (err e, record st { calls = suc st.calls })
    else (ok tt, done (record st { calls = suc st.calls }))

-- Gaps and truncates carry no row image.
abbrev pub no_row : Change → Bool
no_row c = c.gap || is_empty c.op || beq c.op (codes "T")

abbrev pub connected : Bool → Exec Loading (Unit {0})
connected dry = if dry then pure tt else call (λ st. st) (failed connect)

module _ (p : Platform) where
  unfoldable pub statement : Change → Statement
  unfolding normalise_sql raw_or_nil
  statement c = record {
    sql = normalise_sql c.table;
    op = c.op;
    pk = raw_or_nil c.pk;
    old = raw_or_nil c.old;
    new = raw_or_nil c.new;
    lsn = c.lsn;
    xid = decimal c.xid;
    commit_ts = p.stamp_micro c.commit_ts;
  }

  execute : Change → Exec Loading (Unit {0})
  unfolding call statement
  execute c =
      call (λ st. record st { sent = st.sent ++ statement c ∷ [] }) (failed query) >> modify load

  -- One line of a segment.
  unfoldable pub restore_change : Bool → Option Change → Exec Loading (Unit {0})
  unfolding execute
  restore_change dry none = modify skip
  restore_change dry (some c) =
      if no_row c then modify skip else if dry then modify load else execute c

  unfoldable pub restore_lines : Bool → List Bytes → Exec Loading (Unit {0})
  unfolding restore_change
  restore_lines dry [] = pure tt
  restore_lines dry (l ∷ ls) = restore_change dry (p.decode_change l) >> restore_lines dry ls

  -- `sc.Err()`
  abbrev check_ending : Ending → Exec Loading (Unit {0})
  check_ending clean = pure tt
  check_ending oversize = throw too_long
  check_ending io_error = throw (failed read_file)

  abbrev pub restore_scanned : Bool → Scanned → Exec Loading (Unit {0})
  restore_scanned dry s = restore_lines dry s.lines >> check_ending s.ending

  abbrev pub restore_opened : Bool → Outcome Stream → Exec Loading (Unit {0})
  restore_opened dry (err e) = throw e
  restore_opened dry (ok f) = restore_scanned dry (scan f)

  unfoldable pub restore_segments : Source → Bool → List Segment → Exec Loading (Unit {0})
  unfolding restore_lines
  restore_segments src dry [] = pure tt
  restore_segments src dry (s ∷ segs) =
      restore_opened dry (open_source src s.file) >> restore_segments src dry segs

  abbrev pub restore_read : Source → Bool → Outcome Manifest → Exec Loading (Unit {0})
  restore_read src dry (err e) = throw e
  restore_read src dry (ok m) = connected dry >> restore_segments src dry m.segments

  -- `RestoreArchive`
  unfoldable pub restore_archive : Source → Bool → Exec Loading (Unit {0})
  unfolding restore_segments call
  restore_archive src dry = restore_read src dry (read_manifest p src)
