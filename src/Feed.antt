-- ===== src/Feed.antt =====
-- The replication stream (companion/stream.go): the messages that the server sends, and what becomes
-- of each in the archive. The loop over them stands in Feed/Run.
pub mod Columns
pub mod Described
pub mod Emitted
pub mod Handled
pub mod Growing
pub mod Naming
pub mod Reported
pub mod Run
pub mod Account
pub mod Loop
use pgvolvra.Base.{
  ℕ, suc, ◌+◌, Bool, true, false, Option, none, some, List, [], ◌∷◌, ◌++◌, Bytes, Assoc, codes,
  lookup, insert, is_empty, leb, ltb, ◌&&◌, not, ◌==◌, if◌then◌else◌, map,
}
use pgvolvra.Exec.{
  Exec, Outcome, ok, err, Error, query, send_status, unknown_relation, bad_message, slot_missing,
  bad_number, bad_lsn, ◌>>=◌, ◌>>◌, pure, throw, gets, modify, attempted,
}
use pgvolvra.Format.{Change, Platform}
use pgvolvra.World.{touch}
use pgvolvra.Archive.{Sys, in_world, resume_lsn}
use pgvolvra.Archive.Upload.{push_remote}
use pgvolvra.Archive.Writer.{append, rotate}

-- A row, or a part of one: the values of its columns, `none` for NULL.
abbrev pub Row : Type 0
Row = Assoc (Option Bytes)

pub record Relation : Type 0 where
  pub name : Bytes
  pub cols : List Bytes
  pub pk_cols : List Bytes

-- A column of a tuple: 'n', 'u' (an unchanged value that is left out), or its text.
pub data Column : Type 0 where
  null_column unchanged : Column
  text_column : Bytes → Column

-- `TupleData`, `none` for nil
abbrev pub Tuple : Type 0
Tuple = Option (List Column)

pub data Message : Type 0 where
  relation_message : ℕ → Bytes → Bytes → List Bytes → Message
  begin_message : ℕ → ℕ → Message
  insert_message : ℕ → Tuple → Message
  update_message : ℕ → Tuple → Tuple → Message
  delete_message : ℕ → Tuple → Message
  truncate_message : List ℕ → Message
  other_message : Message

abbrev pub set_found : Option (Option Bytes) → Bytes → Row → Row
set_found none name out = out
set_found (some v) name out = insert name v out

abbrev pub carried : Option Row → Bytes → Row → Row
carried none name out = out
carried (some old) name out = set_found (lookup name old) name out

abbrev pub column : Column → Option Row → Bytes → Row → Row
column null_column old name out = insert name none out
column unchanged old name out = carried old name out
column (text_column b) old name out = insert name (some b) out

-- The columns of a tuple past those of the relation are dropped.
unfoldable pub columns : List Bytes → List Column → Option Row → Row → Row
columns names [] old out = out
columns [] (c ∷ cs) old out = out
columns (name ∷ names) (c ∷ cs) old out = columns names cs old (column c old name out)

-- `tupleToMap`
unfoldable pub tuple_to_map : Relation → Tuple → Option Row → Row
unfolding columns
tuple_to_map rel none old = []
tuple_to_map rel (some cs) old = columns rel.cols cs old []

unfoldable pub doubled : Bytes → Bytes
doubled [] = []
doubled (b ∷ bs) = let rest = b ∷ doubled bs in if b == b'"' then b'"' ∷ rest else rest

-- `quoteIdent`
unfoldable pub quote_ident : Bytes → Bytes
unfolding doubled
quote_ident s = b'"' ∷ doubled s ++ b'"' ∷ []

-- The columns of the key that the row has.
unfoldable pub key_of : List Bytes → Row → Row
key_of [] row = []
key_of (c ∷ cs) row =
    let rest = key_of cs row in elim (lookup c row) [ none ↦ rest | some v ↦ insert c v rest ]

unfoldable pub relation_of : ℕ → List (ℕ × Relation) → Option Relation
relation_of n [] = none
relation_of n ((m, r) ∷ rs) = let later = relation_of n rs in if m == n then some r else later

-- `Streamer`, with the archive and the world that it writes to.
pub record Feed : Type 0 where
  pub sys : Sys
  pub skip_to : ℕ
  pub rels : List (ℕ × Relation)
  pub commit_ts : ℕ
  pub xid : ℕ
  pub changes : ℕ
  pub skipped : ℕ

abbrev pub in_sys : {A : Type 0} → Exec Sys A → Exec Feed A
in_sys m st = let (r, s) = m st.sys in (r, record st { sys = s })

abbrev pub count_change : Exec Feed (Unit {0})
count_change = modify (λ st. record st { changes = suc st.changes })

module _ (p : Platform) where
  -- Whether a position is at or below the one that was durable at the start.
  abbrev pub is_behind : ℕ → Option ℕ → Bool
  is_behind skip_to none = false
  is_behind skip_to (some pos) = leb pos skip_to

  -- `replayed`
  unfoldable pub replayed : Bytes → Exec Feed Bool
  replayed lsn st =
      if not (st.skip_to == 0) && is_behind st.skip_to (p.parse_lsn lsn)
      then (ok true, record st { skipped = suc st.skipped })
      else (ok false, st)

  -- What is recorded of a change without a key.
  abbrev pub keyless : Bytes → Relation → Feed → Change
  keyless lsn rel st = record {
    lsn = lsn;
    xid = st.xid;
    commit_ts = st.commit_ts;
    table = rel.name;
    op = [];
    pk = [];
    old = [];
    new = [];
    gap = true;
    from_lsn = lsn;
    to_lsn = lsn;
    reason = codes "no primary key: the change cannot be addressed for an undo";
  }

  abbrev pub image : Option Row → Bytes
  image none = []
  image (some row) = p.encode_row row

  abbrev pub row_change : Bytes → Relation → Bytes → Row → Option Row → Option Row → Feed → Change
  row_change lsn rel op pk old new st = record {
    lsn = lsn;
    xid = st.xid;
    commit_ts = st.commit_ts;
    table = rel.name;
    op = op;
    pk = p.encode_row pk;
    old = image old;
    new = image new;
    gap = false;
    from_lsn = [];
    to_lsn = [];
    reason = [];
  }

  unfoldable pub emit_new :
      Bool → Bytes → Relation → Bytes → Row → Option Row → Option Row → Exec Feed (Unit {0})
  emit_new true lsn rel op pk old new = pure tt
  emit_new false lsn rel op [] old new = gets (keyless lsn rel) >>= λ c. in_sys (append p c)
  emit_new false lsn rel op (v ∷ pk) old new =
      count_change >> (gets (row_change lsn rel op (v ∷ pk) old new) >>= λ c. in_sys (append p c))

  unfoldable pub emit_keyed :
      Bytes → Relation → Bytes → Row → Option Row → Option Row → Exec Feed (Unit {0})
  unfolding emit_new
  emit_keyed lsn rel op pk old new = do seen ← replayed lsn; emit_new seen lsn rel op pk old new

  -- `emit`
  unfoldable pub emit :
      Bytes → Relation → Bytes → Row → Option Row → Option Row → Exec Feed (Unit {0})
  unfolding emit_keyed
  emit lsn rel op pk_src old new = emit_keyed lsn rel op (key_of rel.pk_cols pk_src) old new

  abbrev pub truncation : Bytes → Relation → Feed → Change
  truncation lsn rel st = record {
    lsn = lsn;
    xid = st.xid;
    commit_ts = st.commit_ts;
    table = rel.name;
    op = codes "T";
    pk = [];
    old = [];
    new = [];
    gap = true;
    from_lsn = lsn;
    to_lsn = lsn;
    reason = codes "TRUNCATE: rows are not recoverable from the WAL stream";
  }

  abbrev pub truncate_one : Bytes → Option Relation → Exec Feed (Unit {0})
  truncate_one lsn none = pure tt
  truncate_one lsn (some rel) = gets (truncation lsn rel) >>= λ c. in_sys (append p c)

  unfoldable pub truncate_all : Bytes → List ℕ → Exec Feed (Unit {0})
  unfolding relation_of
  truncate_all lsn [] = pure tt
  truncate_all lsn (n ∷ ns) =
      (gets (λ st. relation_of n st.rels) >>= truncate_one lsn) >> truncate_all lsn ns

  abbrev pub insert_row : Bytes → ℕ → Tuple → Option Relation → Exec Feed (Unit {0})
  insert_row lsn n t none = throw (unknown_relation n)
  insert_row lsn n t (some rel) =
      let new = tuple_to_map rel t none in emit lsn rel (codes "I") new none (some new)

  abbrev pub old_row : Relation → Tuple → Option Row
  old_row rel none = none
  old_row rel (some cs) = some (tuple_to_map rel (some cs) none)

  abbrev pub update_row : Bytes → ℕ → Tuple → Tuple → Option Relation → Exec Feed (Unit {0})
  update_row lsn n old t none = throw (unknown_relation n)
  update_row lsn n old t (some rel) =
      let new = tuple_to_map rel t (old_row rel old) in
      emit lsn rel (codes "U") new (old_row rel old) (some new)

  abbrev pub delete_row : Bytes → ℕ → Tuple → Option Relation → Exec Feed (Unit {0})
  delete_row lsn n t none = throw (unknown_relation n)
  delete_row lsn n t (some rel) =
      let old = tuple_to_map rel t none in emit lsn rel (codes "D") old (some old) none

  -- The catalog's answer, the columns of the primary key, is of the database.
  module _ (pk_columns : ℕ → List Bytes) where
    abbrev pub learn : ℕ → Bytes → Bytes → List Bytes → Feed → Feed
    learn n schema name cols st = record st {
      rels =
          (
            n,
            record {
              name = quote_ident schema ++ (b'.' ∷ quote_ident name);
              cols = cols;
              pk_cols = pk_columns n;
            },
          )
          ∷ st.rels;
    }

    -- `handle` of a message at a position
    unfoldable pub handle_message : Bytes → Message → Exec Feed (Unit {0})
    unfolding emit truncate_all relation_of
    handle_message lsn (relation_message n schema name cols) =
        in_sys (in_world (touch query)) >> modify (learn n schema name cols)
    handle_message lsn (begin_message xid t) = modify (λ st. record st { xid = xid; commit_ts = t })
    handle_message lsn (insert_message n t) =
        gets (λ st. relation_of n st.rels) >>= insert_row lsn n t
    handle_message lsn (update_message n old t) =
        gets (λ st. relation_of n st.rels) >>= update_row lsn n old t
    handle_message lsn (delete_message n t) =
        gets (λ st. relation_of n st.rels) >>= delete_row lsn n t
    handle_message lsn (truncate_message ns) = truncate_all lsn ns
    handle_message lsn other_message = pure tt

    -- `handle`: the library's parser may refuse the data.
    unfoldable pub handle : ℕ → Option Message → Exec Feed (Unit {0})
    unfolding handle_message
    handle start none = throw bad_message
    handle start (some m) = handle_message (p.lsn_text start) m

  -- The position to start from: the archive's, where it can be read.
  abbrev resume_point : Option ℕ → ℕ
  resume_point none = 0
  resume_point (some pos) = pos

  -- The beginning of `Run`
  unfoldable pub set_skip_to : Exec Feed (Unit {0})
  set_skip_to =
      modify (λ st. record st { skip_to = resume_point (p.parse_lsn (resume_lsn st.sys.arch)) })

  -- What is acknowledged: never less than before.
  unfoldable pub durable_position : ℕ → Option ℕ → ℕ
  durable_position acked none = acked
  durable_position acked (some pos) = if ltb acked pos then pos else acked

  -- The periodic part of `Run`, up to the guard: the answer is the position that was acknowledged.
  unfoldable pub report_status : ℕ → Exec Sys ℕ
  unfolding durable_position
  report_status acked = do
    rotate p
    attempted (push_remote p false)
    a ← gets (λ s. s.arch)
    in_world (touch send_status)
    pure (durable_position acked (p.parse_lsn (resume_lsn a)))
