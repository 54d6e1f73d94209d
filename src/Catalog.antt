-- ===== src/Catalog.antt =====
-- The texts of the catalog functions of vxodbc/info.cc: simpleCatalogEscape and adjustLikePattern,
-- which escape a name for a literal and a pattern for LIKE. A text is the bytes before its
-- terminator, and a length given is not above the text's. `malloc` succeeds.
pub mod Laws
use versaplex.Prelude.{
  ℕ, ◌+◌, ◌*◌, ◌==◌, if◌then◌else◌, Bool, true, false, not, ◌||◌, [], ◌∷◌, ◌++◌, Option, none, some,
  Bytes, length, take,
}
use versaplex.Multibyte.Charset.{Charset}
use versaplex.Multibyte.Stat.{pg_cs_stat}
use versaplex.Multibyte.ClientEncoding.{literal_quote}

-- SQL_NTS, SQL_NULL_DATA, or a number of bytes; the other negative numbers count as 0 for
-- simpleCatalogEscape.
pub data SrcLen : Type 0 where
  sql_nts sql_null_data : SrcLen
  bytes : ℕ → SrcLen

-- The bytes to escape, if there are any to be looked at
unfoldable pub source_of : Option Bytes → SrcLen → Option Bytes
source_of none srclen = none
source_of (some src) sql_nts = some src
source_of (some src) sql_null_data = none
source_of (some src) (bytes n) = some (take n src)

unfoldable pub simple_from : Charset → (escape_ch st : ℕ) → Bytes → Bytes
simple_from ccsc escape_ch st [] = []
simple_from ccsc escape_ch st (c ∷ src) =
    let st1 = pg_cs_stat st c ccsc in
    let rest = simple_from ccsc escape_ch st1 src in
    if not (st1 == 0)
    then c ∷ rest
    else if c == literal_quote || c == escape_ch
    then c ∷ c ∷ rest
    else c ∷ rest

unfoldable pub escape_source : Charset → ℕ → Option Bytes → Option Bytes
unfolding simple_from
escape_source ccsc escape_ch none = none
escape_source ccsc escape_ch (some []) = none
escape_source ccsc escape_ch (some (c ∷ src)) = some (simple_from ccsc escape_ch 0 (c ∷ src))

unfoldable pub simple_catalog_escape : Charset → ℕ → Option Bytes → SrcLen → Option Bytes
unfolding source_of escape_source
simple_catalog_escape ccsc escape_ch src srclen =
    escape_source ccsc escape_ch (source_of src srclen)

-- What a byte after the escape character puts before itself
unfoldable pub escape_prefix : (escape_ch escape_in_literal c : ℕ) → Bytes
escape_prefix escape_ch escape_in_literal c =
    let once =
      if escape_ch == escape_in_literal
      then escape_in_literal ∷ escape_ch ∷ []
      else escape_ch ∷ [] in
    if c == b'%' || c == b'_' then once else once ++ once

unfoldable pub itself : ℕ → Bytes
itself c = if c == literal_quote then c ∷ c ∷ [] else c ∷ []

unfoldable pub adjust_from :
    Charset → (escape_ch escape_in_literal st : ℕ) → (escape_in : Bool) → Bytes → Bytes
unfolding escape_prefix itself
adjust_from ccsc escape_ch escape_in_literal st escape_in [] = []
adjust_from ccsc escape_ch escape_in_literal st escape_in (c ∷ src) =
    let st1 = pg_cs_stat st c ccsc in
    let as_is = adjust_from ccsc escape_ch escape_in_literal st1 escape_in src in
    let after_escape = adjust_from ccsc escape_ch escape_in_literal st1 true src in
    let after_other = adjust_from ccsc escape_ch escape_in_literal st1 false src in
    let before = if escape_in then escape_prefix escape_ch escape_in_literal c else [] in
    if not (st1 == 0)
    then c ∷ as_is
    else if c == escape_ch
    then before ++ after_escape
    else before ++ (itself c ++ after_other)

abbrev pub map_source : (Bytes → Bytes) → Option Bytes → Option Bytes
map_source f none = none
map_source f (some src) = some (f src)

unfoldable pub adjust_like_pattern :
    Charset → (escape_ch escape_in_literal : ℕ) → Option Bytes → SrcLen → Option Bytes
unfolding source_of adjust_from
adjust_like_pattern ccsc escape_ch escape_in_literal src srclen =
    map_source (adjust_from ccsc escape_ch escape_in_literal 0 false) (source_of src srclen)

-- The size of the memory for the result of either, with its terminator
abbrev pub dest_size : ℕ → ℕ
dest_size srclen = 2 * srclen + 1
