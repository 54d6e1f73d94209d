-- ===== src/Types/Tables.antt =====
-- The tables of vxodbc/pgtypes.cc that depend on the type alone, and those of the C types.
use versaplex.Prelude.{ℕ, if◌then◌else◌, Bool, true, false, Option, none, some, Bytes, codes}
use versaplex.Types.{
  Settings, PgType, pg_type_char, pg_type_char2, pg_type_char4, pg_type_char8, pg_type_name,
  pg_type_bpchar, pg_type_varchar, pg_type_text, pg_type_bytea, pg_type_lo_undefined, pg_type_int2,
  pg_type_oid, pg_type_xid, pg_type_int4, pg_type_int8, pg_type_numeric, pg_type_float4,
  pg_type_float8, pg_type_date, pg_type_time, vx_type_datetime, pg_type_money, pg_type_bool,
  pg_type_unknown,
}
use versaplex.Types.{
  SqlType, sql_bigint, sql_binary, sql_bit, sql_char, sql_type_date, sql_date, sql_decimal,
  sql_double, sql_float, sql_integer, sql_longvarbinary, sql_longvarchar, sql_numeric, sql_real,
  sql_smallint, sql_type_time, sql_type_timestamp, sql_time, sql_timestamp, sql_tinyint,
  sql_varbinary, sql_varchar, sql_wchar, sql_wvarchar, sql_wlongvarchar, sql_datetime,
}
use versaplex.Types.{
  SqlCType, sql_c_sbigint, sql_c_char, sql_c_sshort, sql_c_ulong, sql_c_slong, sql_c_float,
  sql_c_double, sql_c_type_date, sql_c_date, sql_c_type_time, sql_c_time, sql_c_type_timestamp,
  sql_c_timestamp, sql_c_binary, sql_c_wchar, sql_c_bit, sql_c_stinyint, sql_c_tinyint,
  sql_c_utinyint, sql_c_short, sql_c_ushort, sql_c_long,
}

unfoldable pub pgtype_to_name : PgType → (auto_increment : Bool) → Bytes
pgtype_to_name pg_type_char auto = codes "char"
pgtype_to_name pg_type_char2 auto = codes "char2"
pgtype_to_name pg_type_char4 auto = codes "char4"
pgtype_to_name pg_type_char8 auto = codes "char8"
pgtype_to_name pg_type_int8 auto = if auto then codes "bigserial" else codes "int8"
pgtype_to_name pg_type_numeric auto = codes "numeric"
pgtype_to_name pg_type_varchar auto = codes "varchar"
pgtype_to_name pg_type_bpchar auto = codes "char"
pgtype_to_name pg_type_text auto = codes "text"
pgtype_to_name pg_type_name auto = codes "name"
pgtype_to_name pg_type_int2 auto = codes "int2"
pgtype_to_name pg_type_oid auto = codes "oid"
pgtype_to_name pg_type_xid auto = codes "xid"
pgtype_to_name pg_type_int4 auto = if auto then codes "serial" else codes "int4"
pgtype_to_name pg_type_float4 auto = codes "float4"
pgtype_to_name pg_type_float8 auto = codes "float8"
pgtype_to_name pg_type_date auto = codes "date"
pgtype_to_name pg_type_time auto = codes "time"
pgtype_to_name vx_type_datetime auto = codes "datetime"
pgtype_to_name pg_type_money auto = codes "money"
pgtype_to_name pg_type_bool auto = codes "bool"
pgtype_to_name pg_type_bytea auto = codes "bytea"
pgtype_to_name pg_type_lo_undefined auto = codes "lo"
pgtype_to_name pg_type_unknown auto = codes "unknown"

-- none is -1
unfoldable pub pgtype_min_decimal_digits : PgType → Option ℕ
pgtype_min_decimal_digits pg_type_int2 = some 0
pgtype_min_decimal_digits pg_type_oid = some 0
pgtype_min_decimal_digits pg_type_xid = some 0
pgtype_min_decimal_digits pg_type_int4 = some 0
pgtype_min_decimal_digits pg_type_int8 = some 0
pgtype_min_decimal_digits pg_type_float4 = some 0
pgtype_min_decimal_digits pg_type_float8 = some 0
pgtype_min_decimal_digits pg_type_money = some 0
pgtype_min_decimal_digits pg_type_bool = some 0
pgtype_min_decimal_digits vx_type_datetime = some 0
pgtype_min_decimal_digits pg_type_numeric = some 0
pgtype_min_decimal_digits _ = none

unfoldable pub pgtype_radix : PgType → Option ℕ
pgtype_radix pg_type_int2 = some 10
pgtype_radix pg_type_xid = some 10
pgtype_radix pg_type_oid = some 10
pgtype_radix pg_type_int4 = some 10
pgtype_radix pg_type_int8 = some 10
pgtype_radix pg_type_numeric = some 10
pgtype_radix pg_type_float4 = some 10
pgtype_radix pg_type_money = some 10
pgtype_radix pg_type_float8 = some 10
pgtype_radix _ = none

unfoldable pub pgtype_auto_increment : PgType → Option Bool
pgtype_auto_increment pg_type_int2 = some false
pgtype_auto_increment pg_type_oid = some false
pgtype_auto_increment pg_type_xid = some false
pgtype_auto_increment pg_type_int4 = some false
pgtype_auto_increment pg_type_int8 = some false
pgtype_auto_increment pg_type_float4 = some false
pgtype_auto_increment pg_type_money = some false
pgtype_auto_increment pg_type_bool = some false
pgtype_auto_increment pg_type_float8 = some false
pgtype_auto_increment pg_type_numeric = some false
pgtype_auto_increment pg_type_date = some false
pgtype_auto_increment pg_type_time = some false
pgtype_auto_increment vx_type_datetime = some false
pgtype_auto_increment _ = none

unfoldable pub pgtype_case_sensitive : PgType → Bool
pgtype_case_sensitive pg_type_char = true
pgtype_case_sensitive pg_type_char2 = true
pgtype_case_sensitive pg_type_char4 = true
pgtype_case_sensitive pg_type_char8 = true
pgtype_case_sensitive pg_type_varchar = true
pgtype_case_sensitive pg_type_bpchar = true
pgtype_case_sensitive pg_type_text = true
pgtype_case_sensitive pg_type_name = true
pgtype_case_sensitive _ = false

unfoldable pub pgtype_money : PgType → Bool
pgtype_money pg_type_money = true
pgtype_money pg_type_numeric = true
pgtype_money _ = false

pub data Searchable : Type 0 where
  sql_searchable sql_all_except_like : Searchable

unfoldable pub pgtype_searchable : PgType → Searchable
pgtype_searchable pg_type_char = sql_searchable
pgtype_searchable pg_type_char2 = sql_searchable
pgtype_searchable pg_type_char4 = sql_searchable
pgtype_searchable pg_type_char8 = sql_searchable
pgtype_searchable pg_type_varchar = sql_searchable
pgtype_searchable pg_type_bpchar = sql_searchable
pgtype_searchable pg_type_text = sql_searchable
pgtype_searchable pg_type_name = sql_searchable
pgtype_searchable _ = sql_all_except_like

unfoldable pub pgtype_unsigned : PgType → Option Bool
pgtype_unsigned pg_type_oid = some true
pgtype_unsigned pg_type_xid = some true
pgtype_unsigned pg_type_int2 = some false
pgtype_unsigned pg_type_int4 = some false
pgtype_unsigned pg_type_int8 = some false
pgtype_unsigned pg_type_numeric = some false
pgtype_unsigned pg_type_float4 = some false
pgtype_unsigned pg_type_float8 = some false
pgtype_unsigned pg_type_money = some false
pgtype_unsigned _ = none

-- NULL is none
unfoldable pub pgtype_literal_prefix : PgType → Option Bytes
pgtype_literal_prefix pg_type_int2 = none
pgtype_literal_prefix pg_type_oid = none
pgtype_literal_prefix pg_type_xid = none
pgtype_literal_prefix pg_type_int4 = none
pgtype_literal_prefix pg_type_int8 = none
pgtype_literal_prefix pg_type_numeric = none
pgtype_literal_prefix pg_type_float4 = none
pgtype_literal_prefix pg_type_float8 = none
pgtype_literal_prefix pg_type_money = none
pgtype_literal_prefix _ = some (codes "'")

unfoldable pub pgtype_literal_suffix : PgType → Option Bytes
pgtype_literal_suffix pg_type_int2 = none
pgtype_literal_suffix pg_type_oid = none
pgtype_literal_suffix pg_type_xid = none
pgtype_literal_suffix pg_type_int4 = none
pgtype_literal_suffix pg_type_int8 = none
pgtype_literal_suffix pg_type_numeric = none
pgtype_literal_suffix pg_type_float4 = none
pgtype_literal_suffix pg_type_float8 = none
pgtype_literal_suffix pg_type_money = none
pgtype_literal_suffix _ = some (codes "'")

unfoldable pub pgtype_create_params : PgType → Option Bytes
pgtype_create_params pg_type_bpchar = some (codes "max. length")
pgtype_create_params pg_type_varchar = some (codes "max. length")
pgtype_create_params pg_type_numeric = some (codes "precision, scale")
pgtype_create_params _ = none

-- `c_bigint` is ALLOWED_C_BIGINT.
unfoldable pub sqltype_to_default_ctype : Settings → (c_bigint : SqlCType) → SqlType → SqlCType
sqltype_to_default_ctype c big sql_char = sql_c_char
sqltype_to_default_ctype c big sql_varchar = sql_c_char
sqltype_to_default_ctype c big sql_longvarchar = sql_c_char
sqltype_to_default_ctype c big sql_decimal = sql_c_char
sqltype_to_default_ctype c big sql_numeric = sql_c_char
sqltype_to_default_ctype c big sql_bigint = big
sqltype_to_default_ctype c big sql_wchar =
    if c.unicode_support then (if c.allow_wchar then sql_c_wchar else sql_c_char) else sql_c_char
sqltype_to_default_ctype c big sql_wvarchar =
    if c.unicode_support then (if c.allow_wchar then sql_c_wchar else sql_c_char) else sql_c_char
sqltype_to_default_ctype c big sql_wlongvarchar =
    if c.unicode_support then (if c.allow_wchar then sql_c_wchar else sql_c_char) else sql_c_char
sqltype_to_default_ctype c big sql_bit = sql_c_bit
sqltype_to_default_ctype c big sql_tinyint = sql_c_stinyint
sqltype_to_default_ctype c big sql_smallint = sql_c_sshort
sqltype_to_default_ctype c big sql_integer = sql_c_slong
sqltype_to_default_ctype c big sql_real = sql_c_float
sqltype_to_default_ctype c big sql_float = sql_c_double
sqltype_to_default_ctype c big sql_double = sql_c_double
sqltype_to_default_ctype c big sql_binary = sql_c_binary
sqltype_to_default_ctype c big sql_varbinary = sql_c_binary
sqltype_to_default_ctype c big sql_longvarbinary = sql_c_binary
sqltype_to_default_ctype c big sql_date = sql_c_date
sqltype_to_default_ctype c big sql_time = sql_c_time
sqltype_to_default_ctype c big sql_timestamp = sql_c_timestamp
sqltype_to_default_ctype c big sql_type_date = sql_c_type_date
sqltype_to_default_ctype c big sql_type_time = sql_c_type_time
sqltype_to_default_ctype c big sql_type_timestamp = sql_c_type_timestamp
sqltype_to_default_ctype c big sql_datetime = sql_c_char

-- The sizes of the ODBC types: SWORD has 2 bytes, SDWORD 4, the date and the time structure 6.
unfoldable pub ctype_length : SqlCType → ℕ
ctype_length sql_c_sshort = 2
ctype_length sql_c_short = 2
ctype_length sql_c_ushort = 2
ctype_length sql_c_slong = 4
ctype_length sql_c_long = 4
ctype_length sql_c_ulong = 4
ctype_length sql_c_float = 4
ctype_length sql_c_double = 8
ctype_length sql_c_bit = 1
ctype_length sql_c_stinyint = 1
ctype_length sql_c_tinyint = 1
ctype_length sql_c_utinyint = 1
ctype_length sql_c_date = 6
ctype_length sql_c_type_date = 6
ctype_length sql_c_time = 6
ctype_length sql_c_type_time = 6
ctype_length sql_c_timestamp = 16
ctype_length sql_c_type_timestamp = 16
ctype_length sql_c_binary = 0
ctype_length sql_c_char = 0
ctype_length sql_c_wchar = 0
ctype_length sql_c_sbigint = 0
