-- ===== src/Guard.antt =====
-- The guard of the replication slot (companion/safety.go): past a ceiling of retained log, the slot
-- is advanced, and the archive records the gap before.
pub mod Laws
use pgvolvra.Base.{
  ℕ, Bool, true, false, Option, none, some, [], Bytes, codes, leb, ltb, ◌&&◌, not, if◌then◌else◌,
}
use pgvolvra.Exec.{
  Exec, slot_missing, bad_number, bad_lsn, query, send_status, ◌>>=◌, ◌>>◌, pure, throw, gets,
  modify,
}
use pgvolvra.Format.{Change, Platform}
use pgvolvra.World.{touch}
use pgvolvra.Archive.{Sys, in_world}
use pgvolvra.Archive.Writer.{append, rotate}

-- `SlotGuard`: whether there is a callback for gaps stands for it.
pub record SlotGuard : Type 0 where
  pub warn_bytes : ℕ
  pub max_bytes : ℕ
  pub has_on_gap : Bool

-- The answer of the catalog query: the retained bytes where they could be read, and the text of the
-- current position. A negative number of bytes is in the same branches as 0.
pub record SlotRow : Type 0 where
  pub retained : Option ℕ
  pub current : Bytes

-- The archive, and `warned`.
pub record Guarding : Type 0 where
  pub sys : Sys
  pub warned : Bool
  -- what the slot was advanced to, the last one first
  pub advanced : Option ℕ

abbrev pub on_sys : {A : Type 0} → Exec Sys A → Exec Guarding A
on_sys m st = let (r, s) = m st.sys in (r, record st { sys = s })

module _ (p : Platform) (g : SlotGuard) where
  abbrev pub gap_change : ℕ → ℕ → Change
  gap_change confirmed current = record {
    lsn = p.lsn_text current;
    xid = 0;
    commit_ts = 0;
    table = [];
    op = [];
    pk = [];
    old = [];
    new = [];
    gap = true;
    from_lsn = p.lsn_text confirmed;
    to_lsn = p.lsn_text current;
    reason = codes "slot advanced by the safety valve: retained WAL past the ceiling";
  }

  -- `g.onGap`, a statement on the database
  abbrev pub report_gap : Exec Sys (Unit {0})
  report_gap = if g.has_on_gap then in_world (touch query) else pure tt

  abbrev pub advance : ℕ → Exec Guarding (Unit {0})
  advance current =
      on_sys (in_world (touch send_status)) >> modify (λ st. record st { advanced = some current })

  -- The valve.
  unfoldable pub open_valve : ℕ → ℕ → Exec Guarding (Unit {0})
  open_valve confirmed current = do
    on_sys (append p (gap_change confirmed current))
    on_sys (rotate p)
    on_sys report_gap
    advance current

  abbrev pub set_warned : Bool → Exec Guarding (Unit {0})
  set_warned w = modify (λ st. record st { warned = w })

  abbrev pub warns : ℕ → Bool
  warns retained = ltb 0 g.warn_bytes && leb g.warn_bytes retained

  abbrev pub is_past : ℕ → Bool
  is_past retained = ltb 0 g.max_bytes && leb g.max_bytes retained

  unfoldable pub check_levels : ℕ → ℕ → ℕ → Exec Guarding (Unit {0})
  unfolding open_valve
  check_levels confirmed retained current =
      if is_past retained
      then open_valve confirmed current
      else if warns retained
      then set_warned true
      else set_warned false

  abbrev pub check_position : ℕ → ℕ → Option ℕ → Exec Guarding (Unit {0})
  check_position confirmed retained none = throw bad_lsn
  check_position confirmed retained (some current) = check_levels confirmed retained current

  abbrev pub check_retained : ℕ → Bytes → Option ℕ → Exec Guarding (Unit {0})
  check_retained confirmed current none = throw bad_number
  check_retained confirmed current (some retained) =
      check_position confirmed retained (p.parse_lsn current)

  abbrev pub check_row : ℕ → Option SlotRow → Exec Guarding (Unit {0})
  check_row confirmed none = throw slot_missing
  check_row confirmed (some row) = check_retained confirmed row.current row.retained

  -- `Check`, with the answer that the query has if it succeeds
  unfoldable pub check : ℕ → Option SlotRow → Exec Guarding (Unit {0})
  unfolding check_levels
  check confirmed row = on_sys (in_world (touch query)) >> check_row confirmed row
