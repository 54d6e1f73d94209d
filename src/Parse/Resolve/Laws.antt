-- ===== src/Parse/Resolve/Laws.antt =====
-- The table that a field's qualifier names, and a schema that is passed over.
use versaplex.Prelude.{
  ℕ, zero, suc, ◌+◌, ◌==◌, Bool, true, false, ◌&&◌, ◌||◌, ◌≡◌, refl, ap, ◌∙◌, inl, inr, Bool-cases,
  Option, none, some, List, [], ◌∷◌, Bytes, map, to_lower, eq_ignore_case, arith,
}
use versaplex.Parse.State.{FieldInfo, TableInfo}
use versaplex.Parse.Resolve.{
  same_name, search_schema, Resolution, table_at, duplicated_name, settle_schema, is_none,
  search_qualifier, resolve_named, resolve_field,
}

-- A name in lower case, with NULL for the empty one
abbrev pub folded : Option Bytes → Bytes
folded none = []
folded (some s) = map to_lower s

abbrev pub same_bytes : Bytes → Bytes → Bool
same_bytes [] [] = true
same_bytes (a ∷ s) (b ∷ t) = a == b && same_bytes s t
same_bytes _ _ = false

-- The two names are the same byte by byte once both are in lower case.
abbrev pub same_folded : Option Bytes → Option Bytes → Bool
same_folded a b = same_bytes (folded a) (folded b)

eq_ignore_case-same_bytes :
    (s t : Bytes) → eq_ignore_case s t ≡ same_bytes (map to_lower s) (map to_lower t)
unfolding eq_ignore_case
eq_ignore_case-same_bytes [] [] = refl
eq_ignore_case-same_bytes [] (b ∷ t) = refl
eq_ignore_case-same_bytes (a ∷ s) [] = refl
eq_ignore_case-same_bytes (a ∷ s) (b ∷ t) =
    ap (λ z. to_lower a == to_lower b && z) (eq_ignore_case-same_bytes s t)

same_name-same_folded : (a b : Option Bytes) → same_name a b ≡ same_folded a b
unfolding same_name
same_name-same_folded none none = eq_ignore_case-same_bytes [] []
same_name-same_folded none (some t) = eq_ignore_case-same_bytes [] t
same_name-same_folded (some s) none = eq_ignore_case-same_bytes s []
same_name-same_folded (some s) (some t) = eq_ignore_case-same_bytes s t

-- The qualifier of the field is the table's alias or its name, whatever the case of the letters.
abbrev pub qualifies : FieldInfo → TableInfo → Bool
qualifies f w = same_folded w.table_alias f.before_dot || same_folded w.table_name f.before_dot

abbrev pub AllOther : FieldInfo → List TableInfo → Type 0
AllOther f [] = Unit {0}
AllOther f (w ∷ ti) = (qualifies f w ≡ false) × AllOther f ti

-- The table at the index is named by the qualifier, and none before it is.
abbrev pub FirstAt : FieldInfo → ℕ → List TableInfo → Type 0
FirstAt f j [] = ⊥
FirstAt f zero (w ∷ ti) = qualifies f w ≡ true
FirstAt f (suc j) (w ∷ ti) = (qualifies f w ≡ false) × FirstAt f j ti

-- The first of the tables that the qualifier names, counted from `k`.
abbrev pub NamesFirst : FieldInfo → ℕ → List TableInfo → Option ℕ → Type 0
NamesFirst f k ti none = AllOther f ti
NamesFirst f k ti (some i) = (j : ℕ) × (i ≡ k + j) × FirstAt f j ti

later-NamesFirst :
    (f : FieldInfo) (k : ℕ) (w : TableInfo) (ti : List TableInfo) (o : Option ℕ)
    → qualifies f w ≡ false
    → NamesFirst f (k + 1) ti o
    → NamesFirst f k (w ∷ ti) o
later-NamesFirst f k w ti none h n = (h, n)
later-NamesFirst f k w ti (some i) h (j, e, n) = (suc j, omega arith, (h, n))

search_qualifier-NamesFirst :
    (f : FieldInfo) (k : ℕ) (ti : List TableInfo) → NamesFirst f k ti (search_qualifier f k ti)
unfolding search_qualifier
search_qualifier-NamesFirst f k [] = tt
search_qualifier-NamesFirst f k (w ∷ ti) =
    let alias = same_name-same_folded w.table_alias f.before_dot in
    let name = same_name-same_folded w.table_name f.before_dot in
    rw (alias, name)
      (elim (Bool-cases (qualifies f w)) [
        | inl e ↦ rw e (0, omega arith, e)
        | inr e ↦ rw e (later-NamesFirst f k w ti _ e (search_qualifier-NamesFirst f (k + 1) ti))
      ])

-- The field is given the first table that its qualifier names, or none where it names none.
unfoldable pub ResolvesTo : FieldInfo → List TableInfo → Resolution → Type 0
ResolvesTo f ti (table_at o) = NamesFirst f 0 ti o
ResolvesTo f ti duplicated_name = ⊥

resolve_field-resolve_named :
    (f : FieldInfo) (ti : List TableInfo)
    → (f.func || f.expr || f.numeric || f.quote) ≡ false
    → resolve_field f ti ≡ resolve_named f ti
unfolding resolve_field
resolve_field-resolve_named f ti plain = ground arith

resolve_named-search_qualifier :
    (f : FieldInfo) (ti : List TableInfo)
    → is_none f.schema_name ≡ true
    → is_none f.before_dot ≡ false
    → resolve_named f ti ≡ table_at (search_qualifier f 0 ti)
unfolding resolve_named
resolve_named-search_qualifier f ti schema dot = ground arith

-- A field that is a name with a qualifier, and without a schema, gets the first table of which the
-- qualifier is the alias or the name, both put in lower case byte by byte, and no table only where
-- there is none.
pub resolve_field-ResolvesTo :
    (f : FieldInfo) (ti : List TableInfo)
    → (f.func || f.expr || f.numeric || f.quote) ≡ false
    → is_none f.schema_name ≡ true
    → is_none f.before_dot ≡ false
    → ResolvesTo f ti (resolve_field f ti)
unfolding ResolvesTo
resolve_field-ResolvesTo f ti plain schema dot =
    rw (resolve_field-resolve_named f ti plain, resolve_named-search_qualifier f ti schema dot)
      (search_qualifier-NamesFirst f 0 ti)

-- The tests on one table for a field with a schema.
abbrev pub is_bare : FieldInfo → TableInfo → Bool
is_bare f w = same_name w.table_name f.before_dot && is_none w.table_schema

abbrev pub is_exact : FieldInfo → TableInfo → Bool
is_exact f w = same_name w.table_name f.before_dot && same_name w.table_schema f.schema_name

-- Where a table of the field's name without a schema comes first, it is taken even if the next table
-- has the name and the schema of the field.
pub resolve_field-bare :
    (f : FieldInfo) (w v : TableInfo) (ti : List TableInfo)
    → (f.func || f.expr || f.numeric || f.quote) ≡ false
    → is_none f.schema_name ≡ false
    → is_bare f w ≡ true
    → is_exact f w ≡ false
    → is_exact f v ≡ true
    → resolve_field f (w ∷ v ∷ ti) ≡ table_at (some 0)
unfolding resolve_named search_schema settle_schema
resolve_field-bare f w v ti plain schema bare other exact =
    resolve_field-resolve_named f (w ∷ v ∷ ti) plain ∙ rw (schema, bare, other, exact) refl
