-- ===== src/Types/Lengths/Laws.antt =====
-- The lengths of vxodbc/pgtypes.cc agree with the sizes and with the C types.
use versaplex.Prelude.{ℕ, zero, suc, ◌*◌, ◌≤◌, ◌<◌, Bool, true, false, ◌≡◌, refl, Option, arith}
use versaplex.Prelude.Int.{ℤ, pos, negsuc, at_most}
use versaplex.Types.{
  PgType, pg_type_bpchar, pg_type_varchar, pg_type_text, pg_type_int2, pg_type_oid, pg_type_xid,
  pg_type_int4, pg_type_int8, pg_type_numeric, pg_type_float4, pg_type_float8, pg_type_date,
  pg_type_time, vx_type_datetime, pg_type_money, pgtype_to_ctype,
}
use versaplex.Types.Tables.{ctype_length}
use versaplex.Types.Sizes.{is_text, UnknownSize, ResultColumn, SizeSettings, pgtype_column_size}
use versaplex.Types.Lengths.{
  pgtype_display_size, pgtype_buffer_length, pgtype_transfer_octet_length, char_octets, int4, times,
  bytes_per_char, is_no_total,
}

-- The types whose values have one size as a C value.
abbrev pub has_c_size : PgType → Bool
has_c_size pg_type_int2 = true
has_c_size pg_type_oid = true
has_c_size pg_type_xid = true
has_c_size pg_type_int4 = true
has_c_size pg_type_float4 = true
has_c_size pg_type_float8 = true
has_c_size pg_type_money = true
has_c_size pg_type_date = true
has_c_size pg_type_time = true
has_c_size vx_type_datetime = true
has_c_size _ = false

-- For every type of one size but int8, the length of the buffer that is reported for a column is that
-- of the C type that the driver uses by default, for both versions of ODBC.
pub ctype_length-pgtype_to_ctype :
    (c : SizeSettings) (t : PgType) (unknown : UnknownSize) (col : Option ResultColumn)
    → has_c_size t ≡ true
    → pos (ctype_length (pgtype_to_ctype c.settings t)) ≡ pgtype_buffer_length c t unknown col
unfolding ctype_length pgtype_to_ctype pgtype_buffer_length
ctype_length-pgtype_to_ctype c pg_type_int2 unknown col h = refl
ctype_length-pgtype_to_ctype c pg_type_oid unknown col h = refl
ctype_length-pgtype_to_ctype c pg_type_xid unknown col h = refl
ctype_length-pgtype_to_ctype c pg_type_int4 unknown col h = refl
ctype_length-pgtype_to_ctype c pg_type_float4 unknown col h = refl
ctype_length-pgtype_to_ctype c pg_type_float8 unknown col h = refl
ctype_length-pgtype_to_ctype c pg_type_money unknown col h = refl
ctype_length-pgtype_to_ctype c pg_type_date unknown col h = ground arith
ctype_length-pgtype_to_ctype c pg_type_time unknown col h = ground arith
ctype_length-pgtype_to_ctype c vx_type_datetime unknown col h = ground arith
ctype_length-pgtype_to_ctype c _ unknown col h = cc

-- a ≤ b for a size
abbrev pub FitsIn : ℤ → ℤ → Type 0
FitsIn a (pos n) = at_most a n ≡ true
FitsIn a (negsuc n) = a ≡ negsuc n

FitsIn-refl : (z : ℤ) → FitsIn z z
FitsIn-refl (pos n) = ground arith
FitsIn-refl (negsuc n) = refl

-- For every type and column, as many characters as the column size says can be displayed.
pub pgtype_column_size-FitsIn :
    (c : SizeSettings) (t : PgType) (unknown : UnknownSize) (col : Option ResultColumn)
    → FitsIn (pgtype_column_size c t unknown col) (pgtype_display_size c t unknown col)
unfolding pgtype_column_size pgtype_display_size
pgtype_column_size-FitsIn c pg_type_int2 unknown col = refl
pgtype_column_size-FitsIn c pg_type_oid unknown col = refl
pgtype_column_size-FitsIn c pg_type_xid unknown col = refl
pgtype_column_size-FitsIn c pg_type_int4 unknown col = refl
pgtype_column_size-FitsIn c pg_type_int8 unknown col = refl
pgtype_column_size-FitsIn c pg_type_numeric unknown col = ground arith
pgtype_column_size-FitsIn c pg_type_money unknown col = refl
pgtype_column_size-FitsIn c pg_type_float4 unknown col = refl
pgtype_column_size-FitsIn c pg_type_float8 unknown col = refl
pgtype_column_size-FitsIn c t unknown col = FitsIn-refl (pgtype_column_size c t unknown col)

le_times : (k n : ℕ) → 1 ≤ k → n ≤ k * n
le_times zero n h = elim h [ ]
le_times (suc k) n h = grind arith

int4-small : (n : ℕ) → n < 0x80000000 → int4 (pos n) ≡ pos n
unfolding int4
int4-small n h = ground arith

bytes_per_char_pos : (c : SizeSettings) → 1 ≤ c.max_bytes → 1 ≤ bytes_per_char c
unfolding bytes_per_char
bytes_per_char_pos c m = ground arith

char_octets-FitsIn :
    (c : SizeSettings) (n : ℕ)
    → 1 ≤ c.wclen
    → 1 ≤ c.max_bytes
    → c.wclen * n < 0x80000000
    → bytes_per_char c * n < 0x80000000
    → FitsIn (pos n) (char_octets c (pos n))
unfolding char_octets is_no_total times
char_octets-FitsIn c n w m short_w short_m =
    rw (int4-small (c.wclen * n) short_w, int4-small (bytes_per_char c * n) short_m)
      (ground (arith, le_times c.wclen n w, le_times (bytes_per_char c) n (bytes_per_char_pos c m)))

-- A column of type bpchar, varchar or text of known size has at least as many bytes in transfer as
-- it has characters, where the bytes of that many characters, one or more for each, are fewer than
-- 2 ^ 31, also where the server has characters of several bytes, the driver is the Unicode one, or
-- the bytes are limited.
pub pgtype_column_size-transfer :
    (c : SizeSettings) (t : PgType) (unknown : UnknownSize) (col : Option ResultColumn) (n : ℕ)
    → is_text t ≡ true
    → 1 ≤ c.wclen
    → 1 ≤ c.max_bytes
    → c.wclen * n < 0x80000000
    → bytes_per_char c * n < 0x80000000
    → pgtype_column_size c t unknown col ≡ pos n
    → FitsIn (pos n) (pgtype_transfer_octet_length c t unknown col)
unfolding pgtype_transfer_octet_length
pgtype_column_size-transfer c pg_type_varchar unknown col n h w m sw sm e =
    rw e (char_octets-FitsIn c n w m sw sm)
pgtype_column_size-transfer c pg_type_bpchar unknown col n h w m sw sm e =
    rw e (char_octets-FitsIn c n w m sw sm)
pgtype_column_size-transfer c pg_type_text unknown col n h w m sw sm e =
    rw e (char_octets-FitsIn c n w m sw sm)
pgtype_column_size-transfer c _ unknown col n h w m sw sm e = cc
