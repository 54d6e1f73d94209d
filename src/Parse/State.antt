-- ===== src/Parse/State.antt =====
-- The state of the first loop of parse_statement (vxodbc/parse.cc): its local variables, and the
-- fields of the statement and the descriptor that it fills.
use versaplex.Prelude.{
  ℕ, ◌==◌, Bool, true, false, not, ◌||◌, Option, none, some, List, [], ◌∷◌, Bytes, eq_ignore_case,
}
use versaplex.Prelude.Int.{ℤ, pos, negsuc}

-- FIELD_INFO and TABLE_INFO with what the loop sets; a pgNAME is none for NULL.
pub record FieldInfo : Type 0 where
  pub schema_name : Option Bytes
  pub before_dot : Option Bytes
  pub column_name : Option Bytes
  pub column_alias : Option Bytes
  pub column_size : ℕ
  pub func : Bool
  pub expr : Bool
  pub quote : Bool
  pub dquote : Bool
  pub numeric : Bool

pub record TableInfo : Type 0 where
  pub table_schema : Option Bytes
  pub table_name : Option Bytes
  pub table_alias : Option Bytes
  pub is_updatable : Bool

unfoldable pub fi_constructor : FieldInfo
fi_constructor = record {
  schema_name = none;
  before_dot = none;
  column_name = none;
  column_alias = none;
  column_size = 0;
  func = false;
  expr = false;
  quote = false;
  dquote = false;
  numeric = false;
}

-- Without `bestitem` and `bestqual`, which name the key of the rows.
unfoldable pub ti_constructor : TableInfo
ti_constructor = record {
  table_schema = none;
  table_name = none;
  table_alias = none;
  is_updatable = true;
}

-- What getNextToken returns, and the place `pptr` where it began: its offset and the text there.
pub record Tok : Type 0 where
  pub token : Bytes
  pub delim : ℕ
  pub quoted : Bool
  pub dquoted : Bool
  pub number : Bool
  pub offset : ℕ
  pub text : Bytes

abbrev pub unquoted : Tok → Bool
unquoted t = not (t.quoted || t.dquoted)

-- The last entries of `fields` and `tables` are fi[nfields - 1] and ti[ntab - 1]. `maybe_join` is 0,
-- 1 or 2.
pub record Parsing : Type 0 where
  pub in_select : Bool
  pub in_distinct : Bool
  pub in_on : Bool
  pub in_from : Bool
  pub in_where : Bool
  pub in_table : Bool
  pub out_table : Bool
  pub in_field : Bool
  pub in_expr : Bool
  pub in_func : Bool
  pub in_dot : Bool
  pub in_as : Bool
  pub maybe_join : ℕ
  pub blevel : ℤ
  pub subqlevel : ℤ
  pub stoken : Bytes
  pub updatable : Bool
  pub fields : List FieldInfo
  pub tables : List TableInfo
  pub from_pos : Option ℕ
  pub where_pos : Option ℕ
  pub outer_join : Bool
  pub inner_join : Bool
  pub makes_table : Bool

-- `stoken` is not initialised before the first SELECT.
unfoldable pub initial : (stoken : Bytes) → Parsing
initial stoken = record {
  in_select = false;
  in_distinct = false;
  in_on = false;
  in_from = false;
  in_where = false;
  in_table = false;
  out_table = true;
  in_field = false;
  in_expr = false;
  in_func = false;
  in_dot = false;
  in_as = false;
  maybe_join = 0;
  blevel = pos 0;
  subqlevel = pos 0;
  stoken = stoken;
  updatable = true;
  fields = [];
  tables = [];
  from_pos = none;
  where_pos = none;
  outer_join = false;
  inner_join = false;
  makes_table = false;
}

-- A part of the loop's body falls through to the next one, or leaves by `continue`, `break` or
-- `goto cleanup`; `bad_index` is a use of fi[-1] or ti[-1].
pub data Stage : Type 0 where
  falls continues breaks fatal : Parsing → Stage
  bad_index : Stage

unfoldable pub and_then : Stage → (Parsing → Stage) → Stage
and_then (falls s) f = f s
and_then (continues s) f = continues s
and_then (breaks s) f = breaks s
and_then (fatal s) f = fatal s
and_then bad_index f = bad_index

-- !stricmp (token, word)
abbrev pub is_word : Tok → Bytes → Bool
is_word t word = eq_ignore_case t.token word

-- token[0] == c
unfoldable pub begins_with : Bytes → ℕ → Bool
begins_with [] c = false
begins_with (b ∷ s) c = b == c

abbrev pub is_zero : ℤ → Bool
is_zero (pos n) = n == 0
is_zero (negsuc n) = false

-- The last entry of a list is changed, if there is one.
unfoldable pub change_last {ℓ} : {A : Type ℓ} → (A → A) → List A → Option (List A)
change_last f [] = none
change_last f (x ∷ []) = some (f x ∷ [])
change_last f (x ∷ y ∷ l) = elim (change_last f (y ∷ l)) [ none ↦ none | some m ↦ some (x ∷ m) ]
