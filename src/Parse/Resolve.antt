-- ===== src/Parse/Resolve.antt =====
-- The second loop of parse_statement (vxodbc/parse.cc): the table of each field. A TABLE_INFO
-- pointer is the table's index, none for NULL.
pub mod Laws
use versaplex.Prelude.{
  ℕ, ◌+◌, ◌==◌, if◌then◌else◌, Bool, true, false, not, ◌&&◌, ◌||◌, Option, none, some, List, [],
  ◌∷◌, Bytes, eq_ignore_case, length,
}
use versaplex.Parse.State.{FieldInfo, TableInfo}

-- NAMEICMP (name1, name2) == 0
unfoldable pub same_name : Option Bytes → Option Bytes → Bool
same_name none none = eq_ignore_case [] []
same_name none (some b) = eq_ignore_case [] b
same_name (some a) none = eq_ignore_case a []
same_name (some a) (some b) = eq_ignore_case a b

-- What the loop over the tables does for a field with a schema.
pub data SchemaSearch : Type 0 where
  found : ℕ → (matchidx : Option ℕ) → SchemaSearch
  not_found : (matchidx : Option ℕ) → SchemaSearch
  duplicated : SchemaSearch

abbrev pub is_none {ℓ} : {A : Type ℓ} → Option A → Bool
is_none none = true
is_none (some a) = false

unfoldable pub search_schema :
    FieldInfo → (k : ℕ) → (matchidx : Option ℕ) → List TableInfo → SchemaSearch
unfolding same_name
search_schema f k matchidx [] = not_found matchidx
search_schema f k matchidx (w ∷ ti) =
    let name = same_name w.table_name f.before_dot in
    let exact = name && same_name w.table_schema f.schema_name in
    let bare = name && is_none w.table_schema in
    let rest = search_schema f (k + 1) (if bare then some k else matchidx) ti in
    if exact then found k matchidx else if bare && not (is_none matchidx) then duplicated else rest

-- A field is given a table or none, or the statement is given up.
pub data Resolution : Type 0 where
  table_at : Option ℕ → Resolution
  duplicated_name : Resolution

-- `if (matchidx >= 0) wfi->ti = ti[matchidx];`, after the loop.
unfoldable pub settle_schema : SchemaSearch → Resolution
settle_schema (found k none) = table_at (some k)
settle_schema (found k (some m)) = table_at (some m)
settle_schema (not_found m) = table_at m
settle_schema duplicated = duplicated_name

unfoldable pub search_qualifier : FieldInfo → (k : ℕ) → List TableInfo → Option ℕ
unfolding same_name
search_qualifier f k [] = none
search_qualifier f k (w ∷ ti) =
    let rest = search_qualifier f (k + 1) ti in
    if same_name w.table_alias f.before_dot || same_name w.table_name f.before_dot
    then some k
    else rest

unfoldable pub only_table : List TableInfo → Option ℕ
only_table [] = none
only_table (w ∷ []) = some 0
only_table (w ∷ v ∷ ti) = none

unfoldable pub resolve_named : FieldInfo → List TableInfo → Resolution
unfolding search_schema settle_schema search_qualifier only_table
resolve_named f ti =
    if not (is_none f.schema_name)
    then settle_schema (search_schema f 0 none ti)
    else if not (is_none f.before_dot)
    then table_at (search_qualifier f 0 ti)
    else table_at (only_table ti)

unfoldable pub resolve_field : FieldInfo → List TableInfo → Resolution
unfolding resolve_named
resolve_field f ti =
    if f.func || f.expr || f.numeric
    then table_at none
    else if f.quote
    then table_at none
    else resolve_named f ti
