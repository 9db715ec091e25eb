-- ===== src/Feed/Columns.antt =====
-- On the row that is made of a tuple (companion/stream.go, tupleToMap).
use pgvolvra.Base.{
  ◌≡◌, ◌≢◌, refl, sym, ◌∙◌, Option, none, some, List, [], ◌∷◌, Bytes, lookup, lookup-insert_self,
  lookup-insert_ne, All,
}
use pgvolvra.Feed.{
  set_found, Row, Relation, Column, null_column, unchanged, text_column, column, columns,
  tuple_to_map,
}

-- The value that a column stands for: an unchanged one is that of the row before, if there is one.
abbrev pub value_of : Column → Option Row → Bytes → Option (Option Bytes)
value_of null_column old name = some none
value_of (text_column b) old name = some (some b)
value_of unchanged none name = none
value_of unchanged (some row) name = lookup name row

-- The columns have different names.
abbrev pub Distinct : List Bytes → Type 0
Distinct [] = Unit
Distinct (name ∷ names) = All (λ n. name ≢ n) names × Distinct names

-- The row has, for each name that has a column, the column's value.
abbrev pub HasValues : List Bytes → List Column → Option Row → Row → Type 0
HasValues names [] old row = Unit
HasValues [] (c ∷ cs) old row = Unit
HasValues (name ∷ names) (c ∷ cs) old row =
    (lookup name row ≡ value_of c old name) × HasValues names cs old row

set_found-other :
    (o : Option (Option Bytes)) (name k : Bytes) (row : Row)
    → k ≢ name
    → lookup k (set_found o name row) ≡ lookup k row
set_found-other none name k row ne = refl
set_found-other (some v) name k row ne = lookup-insert_ne name k v row ne

set_found_self :
    (o : Option (Option Bytes)) (name : Bytes) (row : Row)
    → lookup name row ≡ none
    → lookup name (set_found o name row) ≡ o
set_found_self none name row absent = absent
set_found_self (some v) name row absent = lookup-insert_self name v row

column-other :
    (c : Column) (old : Option Row) (name k : Bytes) (row : Row)
    → k ≢ name
    → lookup k (column c old name row) ≡ lookup k row
column-other null_column old name k row ne = lookup-insert_ne name k none row ne
column-other (text_column b) old name k row ne = lookup-insert_ne name k (some b) row ne
column-other unchanged none name k row ne = refl
column-other unchanged (some before) name k row ne =
    set_found-other (lookup name before) name k row ne

column_self :
    (c : Column) (old : Option Row) (name : Bytes) (row : Row)
    → lookup name row ≡ none
    → lookup name (column c old name row) ≡ value_of c old name
column_self null_column old name row absent = lookup-insert_self name none row
column_self (text_column b) old name row absent = lookup-insert_self name (some b) row
column_self unchanged none name row absent = absent
column_self unchanged (some before) name row absent =
    set_found_self (lookup name before) name row absent

columns-other :
    (names : List Bytes) (cs : List Column) (old : Option Row) (k : Bytes) (row : Row)
    → All (λ n. k ≢ n) names
    → lookup k (columns names cs old row) ≡ lookup k row
unfolding columns
columns-other names [] old k row ne = refl
columns-other [] (c ∷ cs) old k row ne = refl
columns-other (name ∷ names) (c ∷ cs) old k row ne =
    columns-other names cs old k (column c old name row) ne.1 ∙ column-other c old name k row ne.0

-- The names are not in the row yet.
abbrev Absent : List Bytes → Row → Type 0
Absent names row = All (λ n. lookup n row ≡ none) names

still-Absent :
    (c : Column) (old : Option Row) (name : Bytes) (names : List Bytes) (row : Row)
    → All (λ n. name ≢ n) names
    → Absent names row
    → Absent names (column c old name row)
still-Absent c old name [] row ne h = tt
still-Absent c old name (n ∷ names) row ne h = (
  column-other c old name n row (λ e. ne.0 (sym e)) ∙ h.0,
  still-Absent c old name names row ne.1 h.1,
)

columns-HasValues :
    (names : List Bytes) (cs : List Column) (old : Option Row) (row : Row)
    → Distinct names
    → Absent names row
    → HasValues names cs old (columns names cs old row)
unfolding columns
columns-HasValues names [] old row d h = tt
columns-HasValues [] (c ∷ cs) old row d h = tt
columns-HasValues (name ∷ names) (c ∷ cs) old row d h = (
  columns-other names cs old name (column c old name row) d.0 ∙ column_self c old name row h.0,
  columns-HasValues names cs old (column c old name row) d.1
      (still-Absent c old name names row d.0 h.1),
)

nothing-Absent : (names : List Bytes) → Absent names []
unfolding lookup
nothing-Absent [] = tt
nothing-Absent (n ∷ names) = (refl, nothing-Absent names)

-- The row of a tuple has, for each of the relation's columns that the tuple has, its text or NULL, and
-- the value of the row before where the server left the value out. The columns have different names.
pub tuple_to_map-HasValues :
    (rel : Relation) (cs : List Column) (old : Option Row)
    → Distinct rel.cols
    → HasValues rel.cols cs old (tuple_to_map rel (some cs) old)
unfolding tuple_to_map
tuple_to_map-HasValues rel cs old d =
    columns-HasValues rel.cols cs old [] d (nothing-Absent rel.cols)
