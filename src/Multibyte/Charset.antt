-- ===== src/Multibyte/Charset.antt =====
-- The character sets of vxodbc/multibyte.h, and the two tables of vxodbc/multibyte.cc that
-- name them. A name that stands in neither table is `other`.
use versaplex.Prelude.{
  ℕ, ◌==◌, if◌then◌else◌, Bool, false, List, [], ◌∷◌, Option, none, some, Bytes, codes,
  eq_ignore_case,
}
use versaplex.Prelude.Int.{ℤ, pos, negsuc}

pub data Charset : Type 0 where
  sql_ascii euc_jp euc_cn euc_kr euc_tw johab utf8 mule_internal : Charset
  latin1 latin2 latin3 latin4 latin5 latin6 latin7 latin8 latin9 latin10 : Charset
  win1256 win1258 win866 win874 koi8r win1251 win1252 : Charset
  iso_8859_5 iso_8859_6 iso_8859_7 iso_8859_8 : Charset
  win1250 win1253 win1254 win1255 win1257 : Charset
  sjis big5 gbk uhc gb18030 other : Charset

-- The value of the C enumerator.
unfoldable pub enum_value : Charset → ℤ
enum_value sql_ascii = pos 0
enum_value euc_jp = pos 1
enum_value euc_cn = pos 2
enum_value euc_kr = pos 3
enum_value euc_tw = pos 4
enum_value johab = pos 5
enum_value utf8 = pos 6
enum_value mule_internal = pos 7
enum_value latin1 = pos 8
enum_value latin2 = pos 9
enum_value latin3 = pos 10
enum_value latin4 = pos 11
enum_value latin5 = pos 12
enum_value latin6 = pos 13
enum_value latin7 = pos 14
enum_value latin8 = pos 15
enum_value latin9 = pos 16
enum_value latin10 = pos 17
enum_value win1256 = pos 18
enum_value win1258 = pos 19
enum_value win866 = pos 20
enum_value win874 = pos 21
enum_value koi8r = pos 22
enum_value win1251 = pos 23
enum_value win1252 = pos 24
enum_value iso_8859_5 = pos 25
enum_value iso_8859_6 = pos 26
enum_value iso_8859_7 = pos 27
enum_value iso_8859_8 = pos 28
enum_value win1250 = pos 29
enum_value win1253 = pos 30
enum_value win1254 = pos 31
enum_value win1255 = pos 32
enum_value win1257 = pos 33
enum_value sjis = pos 34
enum_value big5 = pos 35
enum_value gbk = pos 36
enum_value uhc = pos 37
enum_value gb18030 = pos 38
enum_value other = negsuc 0

eq_int : ℤ → ℤ → Bool
eq_int (pos a) (pos b) = a == b
eq_int (negsuc a) (negsuc b) = a == b
eq_int (pos a) (negsuc b) = false
eq_int (negsuc a) (pos b) = false

-- The comparison of two codes.
unfoldable pub same : Charset → Charset → Bool
unfolding enum_value eq_int
same a b = eq_int (enum_value a) (enum_value b)

-- One row, `struct pg_CS`.
pub record CsRow : Type 0 where
  pub name : Bytes
  pub code : Charset

abbrev row : Bytes → Charset → CsRow
row n c = record { name = n; code = c }

abbrev pub cs_table : List CsRow
cs_table =
    row (codes "SQL_ASCII") sql_ascii
    ∷ row (codes "EUC_JP") euc_jp
    ∷ row (codes "EUC_CN") euc_cn
    ∷ row (codes "EUC_KR") euc_kr
    ∷ row (codes "EUC_TW") euc_tw
    ∷ row (codes "JOHAB") johab
    ∷ row (codes "UTF8") utf8
    ∷ row (codes "MULE_INTERNAL") mule_internal
    ∷ row (codes "LATIN1") latin1
    ∷ row (codes "LATIN2") latin2
    ∷ row (codes "LATIN3") latin3
    ∷ row (codes "LATIN4") latin4
    ∷ row (codes "LATIN5") latin5
    ∷ row (codes "LATIN6") latin6
    ∷ row (codes "LATIN7") latin7
    ∷ row (codes "LATIN8") latin8
    ∷ row (codes "LATIN9") latin9
    ∷ row (codes "LATIN10") latin10
    ∷ row (codes "WIN1256") win1256
    ∷ row (codes "WIN1258") win1258
    ∷ row (codes "WIN866") win866
    ∷ row (codes "WIN874") win874
    ∷ row (codes "KOI8") koi8r
    ∷ row (codes "WIN1251") win1251
    ∷ row (codes "WIN1252") win1252
    ∷ row (codes "ISO_8859_5") iso_8859_5
    ∷ row (codes "ISO_8859_6") iso_8859_6
    ∷ row (codes "ISO_8859_7") iso_8859_7
    ∷ row (codes "ISO_8859_8") iso_8859_8
    ∷ row (codes "WIN1250") win1250
    ∷ row (codes "WIN1253") win1253
    ∷ row (codes "WIN1254") win1254
    ∷ row (codes "WIN1255") win1255
    ∷ row (codes "WIN1257") win1257
    ∷ row (codes "SJIS") sjis
    ∷ row (codes "BIG5") big5
    ∷ row (codes "GBK") gbk
    ∷ row (codes "UHC") uhc
    ∷ row (codes "GB18030") gb18030
    ∷ row (codes "OTHER") other
    ∷ []

abbrev pub cs_alias : List CsRow
cs_alias =
    row (codes "UNICODE") utf8
    ∷ row (codes "TCVN") win1258
    ∷ row (codes "ALT") win866
    ∷ row (codes "WIN") win1251
    ∷ row (codes "OTHER") other
    ∷ []

-- `for (i = 0; table[i].code != OTHER; i++) if (0 == stricmp (name, table[i].name)) ...`;
-- `none` is the initial -1.
unfoldable pub find_code : List CsRow → Bytes → Option Charset
unfolding same eq_ignore_case
find_code [] s = none
find_code (r ∷ rs) s =
    if same r.code other
    then none
    else if eq_ignore_case s r.name
    then some r.code
    else find_code rs s

or_else : Option Charset → Option Charset → Option Charset
or_else (some c) d = some c
or_else none d = d

or_other : Option Charset → Charset
or_other (some c) = c
or_other none = other

unfoldable pub pg_cs_code : Bytes → Charset
unfolding find_code or_else or_other
pg_cs_code s = or_other (or_else (find_code cs_table s) (find_code cs_alias s))

unfoldable pub find_name : List CsRow → Charset → Bytes
unfolding same
find_name [] c = codes "OTHER"
find_name (r ∷ rs) c =
    if same r.code other then codes "OTHER" else if same r.code c then r.name else find_name rs c

unfoldable pub pg_cs_name : Charset → Bytes
unfolding find_name
pg_cs_name c = find_name cs_table c

unfoldable pub pg_mb_maxlen : Charset → ℕ
pg_mb_maxlen utf8 = 6
pg_mb_maxlen euc_tw = 4
pg_mb_maxlen euc_jp = 3
pg_mb_maxlen gb18030 = 3
pg_mb_maxlen sjis = 2
pg_mb_maxlen big5 = 2
pg_mb_maxlen gbk = 2
pg_mb_maxlen uhc = 2
pg_mb_maxlen euc_cn = 2
pg_mb_maxlen euc_kr = 2
pg_mb_maxlen johab = 2
pg_mb_maxlen _ = 1
