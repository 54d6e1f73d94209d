-- ===== src/Types/Lengths.antt =====
-- The lengths of vxodbc/pgtypes.cc: for display, in a buffer and in transfer, and the scales.
pub mod Laws
use versaplex.Prelude.{
  ℕ, zero, suc, ◌+◌, ◌-◌, ◌*◌, ◌%◌, ltb, ◌==◌, if◌then◌else◌, Bool, true, false, not, ◌&&◌, ◌||◌,
  Option, none, some,
}
use versaplex.Prelude.Int.{ℤ, pos, negsuc, neg_ℕ, at_least, at_most}
use versaplex.Types.{
  Settings, PgType, pg_type_bpchar, pg_type_varchar, pg_type_text, pg_type_bytea, pg_type_int2,
  pg_type_oid, pg_type_xid, pg_type_int4, pg_type_int8, pg_type_numeric, pg_type_float4,
  pg_type_float8, pg_type_date, pg_type_time, vx_type_datetime, pg_type_money, pg_type_bool,
  SqlCType, sql_c_char, pgtype_to_ctype,
}
use versaplex.Types.Sizes.{
  UnknownSize, ResultColumn, SizeSettings, max_varchar_size, sql_no_total, pgtype_column_size,
  get_numeric_column_size, get_numeric_decimal_digits,
}

unfoldable pub pgtype_display_size : SizeSettings → PgType → UnknownSize → Option ResultColumn → ℤ
unfolding get_numeric_column_size
pgtype_display_size c pg_type_int2 unknown col = pos 6
pgtype_display_size c pg_type_oid unknown col = pos 10
pgtype_display_size c pg_type_xid unknown col = pos 10
pgtype_display_size c pg_type_int4 unknown col = pos 11
pgtype_display_size c pg_type_int8 unknown col = pos 20
pgtype_display_size c pg_type_numeric unknown col = pos (get_numeric_column_size col + 2)
pgtype_display_size c pg_type_money unknown col = pos 15
pgtype_display_size c pg_type_float4 unknown col = pos 13
pgtype_display_size c pg_type_float8 unknown col = pos 22
pgtype_display_size c type unknown col = pgtype_column_size c type unknown col

-- SQL_NO_TOTAL is the only length that is not multiplied.
unfoldable pub is_no_total : ℤ → Bool
is_no_total (pos n) = false
is_no_total (negsuc n) = n == 3

-- What an Int4 holds of a product
unfoldable pub int4 : ℤ → ℤ
int4 (pos n) =
    let low = n % 0x100000000 in if ltb low 0x80000000 then pos low else negsuc (0xffffffff - low)
int4 (negsuc n) =
    let low = n % 0x100000000 in if ltb low 0x80000000 then negsuc low else pos (0xffffffff - low)

unfoldable pub times : ℕ → ℤ → ℤ
unfolding int4
times n (pos m) = int4 (pos (n * m))
times n (negsuc m) = int4 (neg_ℕ (n * suc m))

-- `coef`: a server before 7.2 has characters of one byte.
unfoldable pub bytes_per_char : SizeSettings → ℕ
bytes_per_char c =
    let coef = if c.server_has_multibyte then c.max_bytes else 1 in
    if ltb coef 2 && c.lf_conversion then 2 else coef

unfoldable pub char_octets : SizeSettings → ℤ → ℤ
unfolding is_no_total times bytes_per_char
char_octets c prec =
    let coef = bytes_per_char c in
    if is_no_total prec
    then prec
    else if c.settings.unicode_support && c.settings.unicode_driver
    then times c.wclen prec
    else if coef == 1
    then prec
    else if at_most prec max_varchar_size && at_least (times coef prec) (max_varchar_size + 1)
    then pos max_varchar_size
    else times coef prec

abbrev is_char : SqlCType → Bool
is_char sql_c_char = true
is_char _ = false

unfoldable pub pgtype_buffer_length : SizeSettings → PgType → UnknownSize → Option ResultColumn → ℤ
unfolding char_octets get_numeric_column_size pgtype_to_ctype
pgtype_buffer_length c pg_type_int2 unknown col = pos 2
pgtype_buffer_length c pg_type_oid unknown col = pos 4
pgtype_buffer_length c pg_type_xid unknown col = pos 4
pgtype_buffer_length c pg_type_int4 unknown col = pos 4
pgtype_buffer_length c pg_type_int8 unknown col =
    if is_char (pgtype_to_ctype c.settings pg_type_int8) then pos 20 else pos 8
pgtype_buffer_length c pg_type_numeric unknown col = pos (get_numeric_column_size col + 2)
pgtype_buffer_length c pg_type_float4 unknown col = pos 4
pgtype_buffer_length c pg_type_money unknown col = pos 4
pgtype_buffer_length c pg_type_float8 unknown col = pos 8
pgtype_buffer_length c pg_type_date unknown col = pos 6
pgtype_buffer_length c pg_type_time unknown col = pos 6
pgtype_buffer_length c vx_type_datetime unknown col = pos 16
pgtype_buffer_length c pg_type_varchar unknown col =
    char_octets c (pgtype_column_size c pg_type_varchar unknown col)
pgtype_buffer_length c pg_type_bpchar unknown col =
    char_octets c (pgtype_column_size c pg_type_bpchar unknown col)
pgtype_buffer_length c type unknown col = pgtype_column_size c type unknown col

unfoldable pub pgtype_desclength : SizeSettings → PgType → UnknownSize → Option ResultColumn → ℤ
unfolding get_numeric_column_size
pgtype_desclength c pg_type_int2 unknown col = pos 2
pgtype_desclength c pg_type_oid unknown col = pos 4
pgtype_desclength c pg_type_xid unknown col = pos 4
pgtype_desclength c pg_type_int4 unknown col = pos 4
pgtype_desclength c pg_type_int8 unknown col = pos 20
pgtype_desclength c pg_type_numeric unknown col = pos (get_numeric_column_size col + 2)
pgtype_desclength c pg_type_float4 unknown col = pos 4
pgtype_desclength c pg_type_money unknown col = pos 4
pgtype_desclength c pg_type_float8 unknown col = pos 8
pgtype_desclength c type unknown col = pgtype_column_size c type unknown col

unfoldable pub pgtype_transfer_octet_length :
    SizeSettings → PgType → UnknownSize → Option ResultColumn → ℤ
unfolding char_octets
pgtype_transfer_octet_length c pg_type_varchar unknown col =
    char_octets c (pgtype_column_size c pg_type_varchar unknown col)
pgtype_transfer_octet_length c pg_type_bpchar unknown col =
    char_octets c (pgtype_column_size c pg_type_bpchar unknown col)
pgtype_transfer_octet_length c pg_type_text unknown col =
    char_octets c (pgtype_column_size c pg_type_text unknown col)
pgtype_transfer_octet_length c pg_type_bytea unknown col =
    pgtype_column_size c pg_type_bytea unknown col
pgtype_transfer_octet_length c _ unknown col = negsuc 0

unfoldable pub pgtype_decimal_digits : PgType → Option ResultColumn → ℤ
unfolding get_numeric_decimal_digits
pgtype_decimal_digits pg_type_int2 col = pos 0
pgtype_decimal_digits pg_type_oid col = pos 0
pgtype_decimal_digits pg_type_xid col = pos 0
pgtype_decimal_digits pg_type_int4 col = pos 0
pgtype_decimal_digits pg_type_int8 col = pos 0
pgtype_decimal_digits pg_type_float4 col = pos 0
pgtype_decimal_digits pg_type_float8 col = pos 0
pgtype_decimal_digits pg_type_money col = pos 0
pgtype_decimal_digits pg_type_bool col = pos 0
pgtype_decimal_digits vx_type_datetime col = pos 0
pgtype_decimal_digits pg_type_numeric col = pos (get_numeric_decimal_digits col)
pgtype_decimal_digits _ col = negsuc 0

-- The scale of a column that is none.
unfoldable pub pgtype_max_decimal_digits : PgType → ℤ
unfolding pgtype_decimal_digits
pgtype_max_decimal_digits type = pgtype_decimal_digits type none
