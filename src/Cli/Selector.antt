-- ===== src/Cli/Selector.antt =====
-- The selector (cli/selector.go): its flags, its checks, and the parameters that it becomes.
use pgvolvra.Base.{
  ℕ, ◌+◌, ◌*◌, ◌-◌, ◌^◌, Bool, true, false, not, ◌&&◌, Option, none, some, List, [], ◌∷◌, ◌++◌,
  Bytes, codes, is_empty, beq, leb, ◌==◌, if◌then◌else◌, any,
}
use pgvolvra.Exec.{
  Outcome, ok, err, needs_value, unknown_option, selector_required, two_starts, not_a_number,
  and_then,
}

pub record Selector : Type 0 where
  pub table : Bytes
  pub txid : Bytes
  pub since : Bytes
  pub until : Bytes
  pub actor : Bytes
  pub user : Bytes
  pub where_ : Bytes
  pub mark : Bytes
  pub max_rows : Bytes
  pub skip_confl : Bool

abbrev pub blank : Selector
blank = record {
  table = [];
  txid = [];
  since = [];
  until = [];
  actor = [];
  user = [];
  where_ = [];
  mark = [];
  max_rows = [];
  skip_confl = false;
}

-- `Selector.empty`
unfoldable pub is_blank : Selector → Bool
is_blank s =
    is_empty s.table
    && is_empty s.txid
    && is_empty s.since
    && is_empty s.until
    && is_empty s.actor
    && is_empty s.user
    && is_empty s.where_
    && is_empty s.mark

-- The options that take a value, and the one that does not.
pub data Flag : Type 0 where
  table txid since until actor user where_ to max_rows : Flag

unfoldable pub flag_name : Flag → Bytes
flag_name Flag.table = codes "--table"
flag_name Flag.txid = codes "--txid"
flag_name Flag.since = codes "--since"
flag_name Flag.until = codes "--until"
flag_name Flag.actor = codes "--actor"
flag_name Flag.user = codes "--user"
flag_name Flag.where_ = codes "--where"
flag_name Flag.to = codes "--to"
flag_name Flag.max_rows = codes "--max-rows"

abbrev pub skip_name : Bytes
skip_name = codes "--skip-conflicts"

unfoldable pub set_flag : Flag → Bytes → Selector → Selector
set_flag Flag.table v s = record s { table = v }
set_flag Flag.txid v s = record s { txid = v }
set_flag Flag.since v s = record s { since = v }
set_flag Flag.until v s = record s { until = v }
set_flag Flag.actor v s = record s { actor = v }
set_flag Flag.user v s = record s { user = v }
set_flag Flag.where_ v s = record s { where_ = v }
set_flag Flag.to v s = record s { mark = v }
set_flag Flag.max_rows v s = record s { max_rows = v }

find_flag : Bytes → List Flag → Option Flag
unfolding flag_name
find_flag a [] = none
find_flag a (f ∷ fs) = let later = find_flag a fs in if beq (flag_name f) a then some f else later

-- The cases of the switch, in its order.
abbrev pub all_flags : List Flag
all_flags =
    Flag.table ∷ Flag.txid ∷ Flag.since ∷ Flag.until ∷ Flag.actor ∷ Flag.user ∷ Flag.where_
    ∷ Flag.to ∷ Flag.max_rows ∷ []

unfoldable pub flag_of : Bytes → Option Flag
unfolding find_flag
flag_of a = find_flag a all_flags

-- The loop of `parse` over the arguments.
unfoldable pub parse_args : List Bytes → Selector → Outcome Selector
unfolding set_flag
parse_args [] s = ok s
parse_args (a ∷ []) s = elim (flag_of a) [
  | some f ↦ err (needs_value a)
  | none ↦ if beq a skip_name then ok (record s { skip_confl = true }) else err (unknown_option a)
]
parse_args (a ∷ v ∷ rest) s =
    let skipping = parse_args (v ∷ rest) (record s { skip_confl = true }) in
    elim (flag_of a) [
      | some f ↦ parse_args rest (set_flag f v s)
      | none ↦ if beq a skip_name then skipping else err (unknown_option a)
    ]

is_digit : ℕ → Bool
is_digit b = leb b'0' b && leb b b'9'

value : ℕ → Bytes → ℕ
value n [] = n
value n (b ∷ bs) = value (10 * n + (b - b'0')) bs

abbrev digits_within : ℕ → Bytes → Bool
digits_within limit bs =
    not (is_empty bs) && not (any (λ b. not (is_digit b)) bs) && leb (value 0 bs) limit

-- Whether `strconv.ParseInt(…, 10, 64)` takes the text; `strconv.Atoi` takes the same on a 64-bit
-- machine.
unfoldable pub is_int64 : Bytes → Bool
unfolding is_digit value
is_int64 [] = false
is_int64 (b ∷ bs) =
    if b == b'-'
    then digits_within (2 ^ 63) bs
    else if b == b'+'
    then digits_within (2 ^ 63 - 1) bs
    else digits_within (2 ^ 63 - 1) (b ∷ bs)

-- The checks of `parse` behind the loop.
unfoldable pub checked : Selector → Outcome Selector
unfolding is_blank is_int64
checked s =
    if is_blank s
    then err selector_required
    else if not (is_empty s.mark) && not (is_empty s.since)
    then err two_starts
    else if not (is_empty s.txid) && not (is_int64 s.txid)
    then err (not_a_number s.txid)
    else if not (is_empty s.max_rows) && not (is_int64 s.max_rows)
    then err (not_a_number s.max_rows)
    else ok s

-- `parse`
unfoldable pub parse : List Bytes → Outcome Selector
unfolding parse_args checked
parse args = and_then (parse_args args blank) checked

-- `nullable`
abbrev pub nullable : Bytes → Option Bytes
nullable s = if is_empty s then none else some s

-- `args`
unfoldable pub selector_args : Selector → List (Option Bytes)
selector_args s =
    nullable s.table
    ∷ nullable s.since
    ∷ nullable s.until
    ∷ nullable s.txid
    ∷ nullable s.actor
    ∷ nullable s.user
    ∷ nullable s.where_
    ∷ nullable s.mark
    ∷ []

-- `when`
unfoldable pub when : Bytes → Bytes
when ph =
    let p = ph ++ codes "::text" in
    codes "CASE\n\t          WHEN "
    ++ p
    ++ codes " IS NULL THEN NULL\n\t          WHEN lower(btrim("
    ++ p
    ++ codes ")) LIKE '%ago'\n\t            THEN now() - btrim(regexp_replace("
    ++ p
    ++ codes
        ",\n\t                                              '(?i)\\s*ago\\s*$', ''))::interval\n\t          ELSE "
    ++ p
    ++ codes "::timestamptz\n\t        END"

-- `call`
unfoldable pub call_text : Bytes
unfolding when
call_text =
    codes "\n  target    => $1::regclass,\n  from_ts   => coalesce("
    ++ when (codes "$2")
    ++ codes
        ",\n                        (SELECT at FROM volvra.restore_point WHERE name = $8)),\n  to_ts     => "
    ++ when (codes "$3")
    ++ codes ",\n  txid      => $4::bigint,\n  actor     => $5::text,\n"
    ++ codes "  db_user   => $6::text,\n  predicate => $7::text"
