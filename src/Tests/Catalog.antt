-- ===== src/Tests/Catalog.antt =====
-- The escaping functions of vxodbc/info.cc at concrete inputs.
use versaplex.Prelude.{◌+◌, ◌≤◌, ◌≡◌, refl, some, none, Bytes, codes, length}
use versaplex.Multibyte.Charset.{sql_ascii, utf8}
use versaplex.Multibyte.Stat.{pg_cs_stat}
use versaplex.Convert.Literal.{convert_special_chars}
use versaplex.Convert.Literal.Laws.{quoting}
use versaplex.Catalog.{sql_nts, simple_catalog_escape, adjust_like_pattern, dest_size}
use versaplex.Catalog.Laws.{simple_catalog_escape-convert_special_chars, length-adjust_like_pattern}

simple_catalog_escape-convert_special_chars_example :
    simple_catalog_escape utf8 b'\\' (some (codes "o'n")) sql_nts
    ≡ some (convert_special_chars (quoting utf8 b'\\') (codes "o'n") none)
simple_catalog_escape-convert_special_chars_example =
    simple_catalog_escape-convert_special_chars utf8 b'\\' b'o' (codes "'n")

length-adjust_like_pattern_example :
    (dest : Bytes) × (adjust_like_pattern utf8 b'!' b'\\' (some (codes "a!'")) sql_nts ≡ some dest)
    × (length dest + 1 ≤ dest_size 3)
length-adjust_like_pattern_example = length-adjust_like_pattern utf8 b'!' b'\\' (codes "a!'") refl

backslash : pg_cs_stat 0 b'\\' sql_ascii ≡ 0
unfolding pg_cs_stat
backslash = refl

letter : pg_cs_stat 0 b'a' sql_ascii ≡ 0
unfolding pg_cs_stat
letter = refl
