-- ===== src/Types/Laws.antt =====
-- The type tables of vxodbc/pgtypes.cc agree with each other.
use versaplex.Prelude.{Bool, true, false, ◌||◌, if◌then◌else◌, Option, none, some, ◌≡◌, refl, arith}
use versaplex.Types.{
  SqlType, sql_type_date, sql_type_time, sql_type_timestamp, sql_datetime, PgType, pg_type_bpchar,
  pg_type_varchar, pg_type_text, pg_type_bytea, pg_type_int2, pg_type_int4, pg_type_int8,
  pg_type_numeric, pg_type_float4, pg_type_float8, pg_type_date, pg_type_time, vx_type_datetime,
  Settings, sqltype_to_pgtype, pgtype_to_concise_type, pgtype_to_sqldesctype,
  pgtype_to_datetime_sub, is_datetime, datetime_code, DatetimeCode,
}

-- The types that SQLGetTypeInfo and a CREATE TABLE statement can both name.
abbrev pub is_standard : PgType → Bool
is_standard pg_type_bpchar = true
is_standard pg_type_varchar = true
is_standard pg_type_text = true
is_standard pg_type_bytea = true
is_standard pg_type_int2 = true
is_standard pg_type_int4 = true
is_standard pg_type_int8 = true
is_standard pg_type_numeric = true
is_standard pg_type_float4 = true
is_standard pg_type_float8 = true
is_standard pg_type_date = true
is_standard pg_type_time = true
is_standard vx_type_datetime = true
is_standard _ = false

-- A standard type that is reported to the application comes back as itself, in a build with or
-- without Unicode, for both versions of ODBC, unless the settings replace int8 or text.
pub sqltype_to_pgtype-pgtype_to_concise_type :
    (c : Settings) (t : PgType)
    → is_standard t ≡ true
    → c.int8_as ≡ none
    → c.ms_jet ≡ false
    → (c.unicode_support || c.text_as_longvarchar) ≡ true
    → sqltype_to_pgtype c (pgtype_to_concise_type c t false) ≡ t
unfolding sqltype_to_pgtype pgtype_to_concise_type
sqltype_to_pgtype-pgtype_to_concise_type c pg_type_bpchar s i j u = ground arith
sqltype_to_pgtype-pgtype_to_concise_type c pg_type_varchar s i j u = ground arith
sqltype_to_pgtype-pgtype_to_concise_type c pg_type_text s i j u = ground arith
sqltype_to_pgtype-pgtype_to_concise_type c pg_type_bytea s i j u = ground arith
sqltype_to_pgtype-pgtype_to_concise_type c pg_type_int2 s i j u = refl
sqltype_to_pgtype-pgtype_to_concise_type c pg_type_int4 s i j u = refl
sqltype_to_pgtype-pgtype_to_concise_type c pg_type_int8 s i j u = rw i (rw j refl)
sqltype_to_pgtype-pgtype_to_concise_type c pg_type_numeric s i j u = refl
sqltype_to_pgtype-pgtype_to_concise_type c pg_type_float4 s i j u = refl
sqltype_to_pgtype-pgtype_to_concise_type c pg_type_float8 s i j u = refl
sqltype_to_pgtype-pgtype_to_concise_type c pg_type_date s i j u = ground arith
sqltype_to_pgtype-pgtype_to_concise_type c pg_type_time s i j u = ground arith
sqltype_to_pgtype-pgtype_to_concise_type c vx_type_datetime s i j u = ground arith
sqltype_to_pgtype-pgtype_to_concise_type c _ s i j u = cc

-- What the two descriptor fields say of a type.
abbrev pub Described : SqlType → SqlType → Option DatetimeCode → Type 0
Described concise desc none = desc ≡ concise
Described concise desc (some code) = desc ≡ sql_datetime

described_lem :
    (s : SqlType) → Described s (if is_datetime s then sql_datetime else s) (datetime_code s)
unfolding is_datetime datetime_code
described_lem sql_type_date = refl
described_lem sql_type_time = refl
described_lem sql_type_timestamp = refl
described_lem _ = refl

-- The verbose type of a type with a datetime subcode is SQL_DATETIME, and that of any other type is
-- its concise type.
pub pgtype_to_sqldesctype-Described :
    (c : Settings) (t : PgType)
    → Described
        (pgtype_to_concise_type c t false)
        (pgtype_to_sqldesctype c t false)
        (pgtype_to_datetime_sub c t)
unfolding pgtype_to_sqldesctype pgtype_to_datetime_sub
pgtype_to_sqldesctype-Described c t = described_lem (pgtype_to_concise_type c t false)
