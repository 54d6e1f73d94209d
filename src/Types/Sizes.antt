-- ===== src/Types/Sizes.antt =====
-- The sizes and precisions of vxodbc/pgtypes.cc. `UNKNOWNS_AS_MAX` and its kin say what is
-- returned for a column of unknown size.
use versaplex.Prelude.{
  ℕ, ◌+◌, ◌*◌, ◌/◌, ◌%◌, ltb, ◌==◌, if◌then◌else◌, Bool, true, false, not, ◌&&◌, ◌||◌, Option, none,
  some,
}
use versaplex.Prelude.Int.{lt_ℤ, ℤ, pos, negsuc, at_least}
use versaplex.Types.{
  Settings, PgType, pg_type_char, pg_type_char2, pg_type_char4, pg_type_char8, pg_type_name,
  pg_type_bpchar, pg_type_varchar, pg_type_text, pg_type_bytea, pg_type_lo_undefined, pg_type_int2,
  pg_type_oid, pg_type_xid, pg_type_int4, pg_type_int8, pg_type_numeric, pg_type_float4,
  pg_type_float8, pg_type_date, pg_type_time, vx_type_datetime, pg_type_money, pg_type_bool,
  pg_type_unknown,
}

pub data UnknownSize : Type 0 where
  dont_know as_longest as_max : UnknownSize

-- A column of the current result; `fieldsize` is none for a result without field descriptions.
pub record ResultColumn : Type 0 where
  pub atttypmod : ℤ
  pub display_size : ℤ
  pub fieldsize : Option ℤ
  pub catalog_result : Bool

-- What the functions ask of the connection beyond its `Settings`. `max_bytes` is
-- `mb_maxbyte_per_char`, and `wclen` the size of an SQLWCHAR.
-- `server_has_multibyte` is PG_VERSION_GE (conn, 7.2).
pub record SizeSettings : Type 0 where
  pub settings : Settings
  pub true_is_minus1 : Bool
  pub lf_conversion : Bool
  pub max_bytes : ℕ
  pub wclen : ℕ
  pub server_has_multibyte : Bool

abbrev pub max_varchar_size : ℕ
max_varchar_size = 255

-- SQL_NO_TOTAL
abbrev pub sql_no_total : ℤ
sql_no_total = negsuc 3

unfoldable pub catalog_width : (times default : ℕ) → Option ℤ → ℕ
catalog_width times default none = default
catalog_width times default (some (pos n)) = if n == 0 then default else times * n
catalog_width times default (some (negsuc n)) = default

unfoldable pub shown_width : (times least default : ℕ) → ℤ → ℕ
shown_width times least default (pos n) =
    if n == 0 then default else if ltb (times * n) least then least else times * n
shown_width times least default (negsuc n) = default

-- A numeric column without a type modifier.
unfoldable pub numeric_width : (times least default : ℕ) → ResultColumn → ℕ
unfolding catalog_width shown_width
numeric_width times least default c =
    if c.catalog_result
    then catalog_width times default c.fieldsize
    else shown_width times least default c.display_size

-- The scale is in the low 16 bits of a type modifier, the precision above. The column is none for a
-- negative number.
unfoldable pub scale_of : ResultColumn → ℤ → ℕ
unfolding numeric_width
scale_of c (pos m) = m % 65536
scale_of c (negsuc m) = numeric_width 1 5 6 c

unfoldable pub precision_of : ResultColumn → ℤ → ℕ
unfolding numeric_width
precision_of c (pos m) = m / 65536 % 65536
precision_of c (negsuc m) = numeric_width 2 10 28 c

unfoldable pub get_numeric_decimal_digits : Option ResultColumn → ℕ
unfolding scale_of
get_numeric_decimal_digits none = 6
get_numeric_decimal_digits (some c) = scale_of c c.atttypmod

unfoldable pub get_numeric_column_size : Option ResultColumn → ℕ
unfolding precision_of
get_numeric_column_size none = 28
get_numeric_column_size (some c) = precision_of c c.atttypmod

abbrev is_bpchar : PgType → Bool
is_bpchar pg_type_bpchar = true
is_bpchar _ = false

abbrev is_varying : PgType → Bool
is_varying pg_type_bpchar = true
is_varying pg_type_varchar = true
is_varying _ = false

abbrev pub is_text : PgType → Bool
is_text pg_type_bpchar = true
is_text pg_type_varchar = true
is_text pg_type_text = true
is_text _ = false

-- The size of a column of unknown size, with `p` the longest value.
unfoldable pub unknown_size : UnknownSize → (p : ℤ) → ℤ
unknown_size dont_know p = negsuc 0
unknown_size as_longest p = if at_least p 1 then p else negsuc 0
unknown_size as_max p = if at_least p (max_varchar_size + 1) then p else pos max_varchar_size

unfoldable pub result_char_size : PgType → UnknownSize → ResultColumn → ℤ
unfolding unknown_size
result_char_size type unknown c =
    if at_least c.atttypmod 1 && (not (lt_ℤ c.atttypmod c.display_size) || is_varying type)
    then c.atttypmod
    else if is_bpchar type && at_least c.display_size 1
    then c.display_size
    else if is_text type
    then pos max_varchar_size
    else unknown_size unknown c.display_size

abbrev positive_size : Option ℤ → Option ℤ
positive_size none = none
positive_size (some z) = if at_least z 1 then some z else none

-- The column is none for a negative number, and without a result.
unfoldable pub get_char_column_size : PgType → UnknownSize → Option ResultColumn → ℤ
unfolding result_char_size
get_char_column_size type unknown none = pos max_varchar_size
get_char_column_size type unknown (some c) = elim (positive_size c.fieldsize) [
  | some size ↦ size
  | none ↦ if c.catalog_result then pos max_varchar_size else result_char_size type unknown c
]

-- A type of which the column is no NAME; that one is refused with the size 0.
unfoldable pub pgtype_column_size : SizeSettings → PgType → UnknownSize → Option ResultColumn → ℤ
unfolding get_numeric_column_size get_char_column_size
pgtype_column_size c pg_type_char unknown col = pos 1
pgtype_column_size c pg_type_char2 unknown col = pos 2
pgtype_column_size c pg_type_char4 unknown col = pos 4
pgtype_column_size c pg_type_char8 unknown col = pos 8
pgtype_column_size c pg_type_name unknown col = pos 0
pgtype_column_size c pg_type_int2 unknown col = pos 5
pgtype_column_size c pg_type_oid unknown col = pos 10
pgtype_column_size c pg_type_xid unknown col = pos 10
pgtype_column_size c pg_type_int4 unknown col = pos 10
pgtype_column_size c pg_type_int8 unknown col = pos 19
pgtype_column_size c pg_type_numeric unknown col = pos (get_numeric_column_size col)
pgtype_column_size c pg_type_float4 unknown col = pos 7
pgtype_column_size c pg_type_money unknown col = pos 7
pgtype_column_size c pg_type_float8 unknown col = pos 15
pgtype_column_size c pg_type_date unknown col = pos 10
pgtype_column_size c pg_type_time unknown col = pos 8
pgtype_column_size c vx_type_datetime unknown col = pos 28
pgtype_column_size c pg_type_bool unknown col = if c.true_is_minus1 then pos 2 else pos 1
pgtype_column_size c pg_type_lo_undefined unknown col = sql_no_total
pgtype_column_size c pg_type_bytea unknown col =
    if c.settings.bytea_as_longvarbinary
    then sql_no_total
    else get_char_column_size pg_type_bytea unknown col
pgtype_column_size c pg_type_bpchar unknown col = get_char_column_size pg_type_bpchar unknown col
pgtype_column_size c pg_type_varchar unknown col = get_char_column_size pg_type_varchar unknown col
pgtype_column_size c pg_type_text unknown col = get_char_column_size pg_type_text unknown col
pgtype_column_size c pg_type_unknown unknown col = get_char_column_size pg_type_unknown unknown col

unfoldable pub pgtype_precision : PgType → Option ResultColumn → ℤ
unfolding get_numeric_column_size
pgtype_precision pg_type_numeric col = pos (get_numeric_column_size col)
pgtype_precision _ col = negsuc 0

unfoldable pub pgtype_scale : PgType → Option ResultColumn → ℤ
unfolding get_numeric_decimal_digits
pgtype_scale pg_type_numeric col = pos (get_numeric_decimal_digits col)
pgtype_scale _ col = negsuc 0
