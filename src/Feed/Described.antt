-- ===== src/Feed/Described.antt =====
-- What the messages of the stream are to be recorded as (companion/stream.go, handle, emit).
use pgvolvra.Base.{
  refl, lookup, lookup-insert, beq, beq_iff, any, if◌then◌else◌, Option-cases, inl, inr, arith, ℕ,
  ◌≡◌, Bool, true, false, not, ◌&&◌, Option, none, some, List, [], ◌∷◌, Bytes, codes, leb, ◌==◌,
}
use pgvolvra.Format.{Change, Platform}
use pgvolvra.Feed.{
  Row, Tuple, Relation, Message, relation_message, begin_message, insert_message, update_message,
  delete_message, truncate_message, other_message, tuple_to_map, relation_of, key_of,
}

-- The transaction that the messages are in: its number and the time of its commit.
pub record Transaction : Type 0 where
  pub number : ℕ
  pub committed : ℕ

-- The one that the messages behind this one are in.
abbrev pub transaction_after : Message → Transaction → Transaction
transaction_after (begin_message xid t) tx = record { number = xid; committed = t }
transaction_after _ tx = tx

-- The position was in the archive when the stream started.
abbrev pub is_replay : ℕ → ℕ → Bool
is_replay skip start = not (skip == 0) && leb start skip

-- The values of the row in the columns, and no others.
abbrev pub IsKeyOf : List Bytes → Row → Row → Type 0
IsKeyOf cols source key =
    (k : Bytes) → lookup k key ≡ (if any (λ c. beq c k) cols then lookup k source else none)

pub key_of-IsKeyOf : (cols : List Bytes) (source : Row) → IsKeyOf cols source (key_of cols source)
unfolding key_of lookup
key_of-IsKeyOf [] source k = refl
key_of-IsKeyOf (c ∷ cols) source k =
    let rest = key_of cols source in
    elim (Option-cases (lookup c source)) [
      | inl e ↦ ground (arith, e, beq_iff c k, key_of-IsKeyOf cols source k)
      | inr (v, e) ↦
          ground (arith, e, beq_iff c k, lookup-insert c k v rest, key_of-IsKeyOf cols source k)
    ]

module _ (p : Platform) (tx : Transaction) (lsn : Bytes) (rel : Relation) where
  -- The record is of the table, the transaction and the position.
  abbrev pub IsOf : Change → Type 0
  IsOf c = (c.lsn ≡ lsn) × (c.xid ≡ tx.number) × (c.commit_ts ≡ tx.committed) × (c.table ≡ rel.name)

  -- The field holds the row, or nothing.
  abbrev pub IsImage : Option Row → Bytes → Type 0
  IsImage none text = text ≡ []
  IsImage (some row) text = text ≡ p.encode_row row

  -- A change of a row, which is no gap.
  abbrev pub IsRow : Bytes → Row → Option Row → Option Row → Change → Type 0
  IsRow op key old new c =
      IsOf c
      × (c.op ≡ op)
      × (c.pk ≡ p.encode_row key)
      × IsImage old c.old
      × IsImage new c.new
      × (c.gap ≡ false)

  -- A gap at the position, with no row in it.
  abbrev pub IsLoss : Bytes → Change → Type 0
  IsLoss op c =
      IsOf c
      × (c.op ≡ op)
      × (c.old ≡ [])
      × (c.new ≡ [])
      × (c.gap ≡ true)
      × (c.from_lsn ≡ lsn)
      × (c.to_lsn ≡ lsn)

  -- A change with a key, or the gap that is recorded of one without.
  abbrev pub IsKeyed : Bytes → Row → Option Row → Option Row → Change → Type 0
  IsKeyed op [] old new c = IsLoss [] c
  IsKeyed op (v ∷ key) old new c = IsRow op (v ∷ key) old new c

  -- Nothing of a replay, else the one change, with the key that `source` has.
  abbrev pub IsEmitted : Bool → Bytes → Row → Option Row → Option Row → List Change → Type 0
  IsEmitted true op source old new cs = cs ≡ []
  IsEmitted false op source old new cs =
      (key : Row) × (c : Change) × (cs ≡ c ∷ [])
      × IsKeyOf rel.pk_cols source key
      × IsKeyed op key old new c

module _ (p : Platform) (tx : Transaction) (lsn : Bytes) where
  -- An insert has the new row.
  abbrev pub IsInserted : Bool → Tuple → Option Relation → List Change → Type 0
  IsInserted seen t none cs = ⊥
  IsInserted seen t (some rel) cs =
      let new = tuple_to_map rel t none in
      IsEmitted p tx lsn rel seen (codes "I") new none (some new) cs

  -- An update has the new row, with the values that the server left out taken from the old one, and
  -- the old row where the server sent it.
  abbrev pub IsUpdated : Bool → Tuple → Tuple → Option Relation → List Change → Type 0
  IsUpdated seen old t none cs = ⊥
  IsUpdated seen none t (some rel) cs =
      let new = tuple_to_map rel t none in
      IsEmitted p tx lsn rel seen (codes "U") new none (some new) cs
  IsUpdated seen (some o) t (some rel) cs =
      let old = tuple_to_map rel (some o) none in
      let new = tuple_to_map rel t (some old) in
      IsEmitted p tx lsn rel seen (codes "U") new (some old) (some new) cs

  -- A delete has the old row.
  abbrev pub IsDeleted : Bool → Tuple → Option Relation → List Change → Type 0
  IsDeleted seen t none cs = ⊥
  IsDeleted seen t (some rel) cs =
      let old = tuple_to_map rel t none in
      IsEmitted p tx lsn rel seen (codes "D") old (some old) none cs

  -- A truncation is a gap of each of its tables that is known, replay or not.
  abbrev pub IsTruncated : List (Option Relation) → List Change → Type 0
  IsTruncated [] cs = cs ≡ []
  IsTruncated (none ∷ tables) cs = IsTruncated tables cs
  IsTruncated (some rel ∷ tables) cs =
      (c : Change) × (later : List Change) × (cs ≡ c ∷ later)
      × IsLoss p tx lsn rel (codes "T") c
      × IsTruncated tables later

  module _ (rels : List (ℕ × Relation)) where
    abbrev pub tables_of : List ℕ → List (Option Relation)
    tables_of [] = []
    tables_of (n ∷ ns) = relation_of n rels ∷ tables_of ns

    -- The changes are those of the message. A row's table is known where the message is handled without
    -- an error.
    abbrev pub IsRecorded : Bool → Message → List Change → Type 0
    IsRecorded seen (insert_message n t) cs = IsInserted seen t (relation_of n rels) cs
    IsRecorded seen (update_message n old t) cs = IsUpdated seen old t (relation_of n rels) cs
    IsRecorded seen (delete_message n t) cs = IsDeleted seen t (relation_of n rels) cs
    IsRecorded seen (truncate_message ns) cs = IsTruncated (tables_of ns) cs
    IsRecorded seen (relation_message n schema name cols) cs = cs ≡ []
    IsRecorded seen (begin_message xid t) cs = cs ≡ []
    IsRecorded seen other_message cs = cs ≡ []
