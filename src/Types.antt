-- ===== src/Types.antt =====
-- The type tables of vxodbc/pgtypes.cc. The enumerations have the type codes that the tables tell
-- apart, and `settings` what they ask of the build, the environment and the connection.
pub mod Laws
pub mod Tables
pub mod Sizes
pub mod Lengths
use versaplex.Prelude.{Bool, true, false, if◌then◌else◌, Option, none, some, ℕ}

pub data SqlType : Type 0 where
  sql_bigint sql_binary sql_bit sql_char sql_type_date sql_date sql_decimal sql_double sql_float :
      SqlType
  sql_integer sql_longvarbinary sql_longvarchar sql_numeric sql_real sql_smallint : SqlType
  sql_type_time sql_type_timestamp sql_time sql_timestamp sql_tinyint sql_varbinary sql_varchar :
      SqlType
  sql_wchar sql_wvarchar sql_wlongvarchar sql_datetime : SqlType

-- `pg_type_unknown` is any other OID, 0 among them.
pub data PgType : Type 0 where
  pg_type_char pg_type_char2 pg_type_char4 pg_type_char8 pg_type_name pg_type_bpchar : PgType
  pg_type_varchar pg_type_text pg_type_bytea pg_type_lo_undefined pg_type_int2 pg_type_oid : PgType
  pg_type_xid pg_type_int4 pg_type_int8 pg_type_numeric pg_type_float4 pg_type_float8 : PgType
  pg_type_date pg_type_time vx_type_datetime pg_type_money pg_type_bool pg_type_unknown : PgType

pub data SqlCType : Type 0 where
  sql_c_sbigint sql_c_char sql_c_sshort sql_c_ulong sql_c_slong sql_c_float sql_c_double : SqlCType
  sql_c_type_date sql_c_date sql_c_type_time sql_c_time sql_c_type_timestamp : SqlCType
  sql_c_timestamp sql_c_binary sql_c_wchar sql_c_bit sql_c_stinyint sql_c_tinyint : SqlCType
  sql_c_utinyint sql_c_short sql_c_ushort sql_c_long : SqlCType

-- `int8_as` is none for 0. `allow_wchar` is ALLOW_WCHAR, and `unicode_driver` is
-- CC_is_in_unicode_driver.
pub record Settings : Type 0 where
  pub unicode_support : Bool
  pub allow_wchar : Bool
  pub unicode_driver : Bool
  pub odbc3 : Bool
  pub ms_jet : Bool
  pub int8_as : Option SqlType
  pub bytea_as_longvarbinary : Bool
  pub text_as_longvarchar : Bool

unfoldable pub sqltype_to_pgtype : Settings → SqlType → PgType
sqltype_to_pgtype c sql_binary = pg_type_bytea
sqltype_to_pgtype c sql_char = pg_type_bpchar
sqltype_to_pgtype c sql_wchar = if c.unicode_support then pg_type_bpchar else pg_type_unknown
sqltype_to_pgtype c sql_bit = pg_type_char
sqltype_to_pgtype c sql_type_date = pg_type_date
sqltype_to_pgtype c sql_date = pg_type_date
sqltype_to_pgtype c sql_double = pg_type_float8
sqltype_to_pgtype c sql_float = pg_type_float8
sqltype_to_pgtype c sql_decimal = pg_type_numeric
sqltype_to_pgtype c sql_numeric = pg_type_numeric
sqltype_to_pgtype c sql_bigint = pg_type_int8
sqltype_to_pgtype c sql_integer = pg_type_int4
sqltype_to_pgtype c sql_longvarbinary = pg_type_bytea
sqltype_to_pgtype c sql_longvarchar = pg_type_text
sqltype_to_pgtype c sql_wlongvarchar = pg_type_text
sqltype_to_pgtype c sql_real = pg_type_float4
sqltype_to_pgtype c sql_smallint = pg_type_int2
sqltype_to_pgtype c sql_tinyint = pg_type_int2
sqltype_to_pgtype c sql_time = pg_type_time
sqltype_to_pgtype c sql_type_time = pg_type_time
sqltype_to_pgtype c sql_timestamp = vx_type_datetime
sqltype_to_pgtype c sql_type_timestamp = vx_type_datetime
sqltype_to_pgtype c sql_varbinary = pg_type_bytea
sqltype_to_pgtype c sql_varchar = pg_type_varchar
sqltype_to_pgtype c sql_wvarchar = if c.unicode_support then pg_type_varchar else pg_type_unknown
sqltype_to_pgtype c sql_datetime = pg_type_unknown

-- `wide_column` is the test of the column's size against the longest VARCHAR, false if `col` is
-- negative. ALLOW_WCHAR is asked of a build with Unicode only for some of the types.
unfoldable pub pgtype_to_concise_type : Settings → PgType → Bool → SqlType
pgtype_to_concise_type c pg_type_char wide_column = if c.allow_wchar then sql_wchar else sql_char
pgtype_to_concise_type c pg_type_char2 wide_column = if c.allow_wchar then sql_wchar else sql_char
pgtype_to_concise_type c pg_type_char4 wide_column = if c.allow_wchar then sql_wchar else sql_char
pgtype_to_concise_type c pg_type_char8 wide_column = if c.allow_wchar then sql_wchar else sql_char
pgtype_to_concise_type c pg_type_name wide_column =
    if c.allow_wchar then sql_wvarchar else sql_varchar
pgtype_to_concise_type c pg_type_bpchar wide_column =
    if c.unicode_support
    then (if wide_column
        then (if c.allow_wchar then sql_wlongvarchar else sql_longvarchar)
        else if c.allow_wchar
        then sql_wchar
        else sql_char)
    else if wide_column
    then sql_longvarchar
    else sql_char
pgtype_to_concise_type c pg_type_varchar wide_column =
    if c.unicode_support
    then (if wide_column
        then (if c.allow_wchar then sql_wlongvarchar else sql_longvarchar)
        else if c.allow_wchar
        then sql_wvarchar
        else sql_varchar)
    else if wide_column
    then sql_longvarchar
    else sql_varchar
pgtype_to_concise_type c pg_type_text wide_column =
    if c.unicode_support
    then (if c.allow_wchar then sql_wlongvarchar else sql_longvarchar)
    else if c.text_as_longvarchar
    then sql_longvarchar
    else sql_varchar
pgtype_to_concise_type c pg_type_bytea wide_column =
    if c.bytea_as_longvarbinary then sql_longvarbinary else sql_varbinary
pgtype_to_concise_type c pg_type_lo_undefined wide_column = sql_longvarbinary
pgtype_to_concise_type c pg_type_int2 wide_column = sql_smallint
pgtype_to_concise_type c pg_type_oid wide_column = sql_integer
pgtype_to_concise_type c pg_type_xid wide_column = sql_integer
pgtype_to_concise_type c pg_type_int4 wide_column = sql_integer
pgtype_to_concise_type c pg_type_int8 wide_column = elim c.int8_as [
  | none ↦ if c.ms_jet then sql_numeric else sql_bigint
  | some t ↦ t
]
pgtype_to_concise_type c pg_type_numeric wide_column = sql_numeric
pgtype_to_concise_type c pg_type_float4 wide_column = sql_real
pgtype_to_concise_type c pg_type_float8 wide_column = sql_float
pgtype_to_concise_type c pg_type_date wide_column = if c.odbc3 then sql_type_date else sql_date
pgtype_to_concise_type c pg_type_time wide_column = if c.odbc3 then sql_type_time else sql_time
pgtype_to_concise_type c vx_type_datetime wide_column =
    if c.odbc3 then sql_type_timestamp else sql_timestamp
pgtype_to_concise_type c pg_type_money wide_column = sql_float
pgtype_to_concise_type c pg_type_bool wide_column = sql_char
pgtype_to_concise_type c pg_type_unknown wide_column = sql_varchar

unfoldable pub is_datetime : SqlType → Bool
is_datetime sql_type_date = true
is_datetime sql_type_time = true
is_datetime sql_type_timestamp = true
is_datetime _ = false

unfoldable pub pgtype_to_sqldesctype : Settings → PgType → Bool → SqlType
unfolding is_datetime pgtype_to_concise_type
pgtype_to_sqldesctype c type wide_column =
    let rettype = pgtype_to_concise_type c type wide_column in
    if is_datetime rettype then sql_datetime else rettype

pub data DatetimeCode : Type 0 where
  sql_code_date sql_code_time sql_code_timestamp : DatetimeCode

unfoldable pub datetime_code : SqlType → Option DatetimeCode
datetime_code sql_type_date = some sql_code_date
datetime_code sql_type_time = some sql_code_time
datetime_code sql_type_timestamp = some sql_code_timestamp
datetime_code _ = none

-- none is -1; PG_STATIC is a negative column
unfoldable pub pgtype_to_datetime_sub : Settings → PgType → Option DatetimeCode
unfolding datetime_code pgtype_to_concise_type
pgtype_to_datetime_sub c type = datetime_code (pgtype_to_concise_type c type false)

unfoldable pub pgtype_to_ctype : Settings → PgType → SqlCType
pgtype_to_ctype c pg_type_int8 = if c.ms_jet then sql_c_char else sql_c_sbigint
pgtype_to_ctype c pg_type_numeric = sql_c_char
pgtype_to_ctype c pg_type_int2 = sql_c_sshort
pgtype_to_ctype c pg_type_oid = sql_c_ulong
pgtype_to_ctype c pg_type_xid = sql_c_ulong
pgtype_to_ctype c pg_type_int4 = sql_c_slong
pgtype_to_ctype c pg_type_float4 = sql_c_float
pgtype_to_ctype c pg_type_float8 = sql_c_double
pgtype_to_ctype c pg_type_date = if c.odbc3 then sql_c_type_date else sql_c_date
pgtype_to_ctype c pg_type_time = if c.odbc3 then sql_c_type_time else sql_c_time
pgtype_to_ctype c vx_type_datetime = if c.odbc3 then sql_c_type_timestamp else sql_c_timestamp
pgtype_to_ctype c pg_type_money = sql_c_float
pgtype_to_ctype c pg_type_bool = sql_c_char
pgtype_to_ctype c pg_type_bytea = sql_c_binary
pgtype_to_ctype c pg_type_lo_undefined = sql_c_binary
pgtype_to_ctype c pg_type_bpchar =
    if c.unicode_support then (if c.unicode_driver then sql_c_wchar else sql_c_char) else sql_c_char
pgtype_to_ctype c pg_type_varchar =
    if c.unicode_support then (if c.unicode_driver then sql_c_wchar else sql_c_char) else sql_c_char
pgtype_to_ctype c pg_type_text =
    if c.unicode_support then (if c.unicode_driver then sql_c_wchar else sql_c_char) else sql_c_char
pgtype_to_ctype c _ = sql_c_char
