-- ===== src/Tests/Convert.antt =====
-- vxodbc/convert.cc at concrete inputs.
use versaplex.Prelude.{
  ℕ, ◌+◌, ◌<◌, ◌≡◌, refl, arith, true, [], ◌∷◌, ◌++◌, Bytes, codes, some, none, flatten, get_or,
}
use versaplex.Multibyte.Charset.{sjis, sql_ascii, same}
use versaplex.Multibyte.Stat.{pg_cs_stat}
use versaplex.Convert.Bytea.{convert_to_pgbinary, convert_from, done}
use versaplex.Convert.Bytea.RoundTrip.{convert_from-convert_to_pgbinary}
use versaplex.Convert.Hex.{Mem, pg_bin2hex, pg_hex2bin}
use versaplex.Convert.Hex.RoundTrip.{pg_hex2bin-pg_bin2hex}
use versaplex.Convert.Linefeeds.{convert_linefeeds}
use versaplex.Convert.Linefeeds.Laws.{crlf_from, convert_linefeeds-crlf_from}
use versaplex.Convert.Literal.{convert_special_chars}
use versaplex.Convert.Literal.Laws.{quoting, convert_special_chars-IsText}
use versaplex.Tests.Multibyte.{kanji, kanji-IsText}

abbrev raw : Bytes
raw = 0 ∷ 0x5c ∷ b'a' ∷ 255 ∷ []

convert_from-convert_to_pgbinary_example :
    convert_from 0 (convert_to_pgbinary raw 0x5c true) ≡ done raw
convert_from-convert_to_pgbinary_example = convert_from-convert_to_pgbinary raw 0x5c (omega arith)

escaped : convert_from 0 (codes "a\\\\\\141") ≡ done (codes "a\\a")
unfolding convert_from
escaped = refl

abbrev price : Bytes
price = codes "($1,234.50)"

-- Two bytes at address 4, written over themselves.
abbrev memory : Mem
memory a = get_or (0 ∷ 0 ∷ 0 ∷ 0 ∷ 0x4f ∷ 0xa3 ∷ 7 ∷ 7 ∷ 7 ∷ 7 ∷ []) a 0

memory_hex : (new : Mem) × (pg_bin2hex memory 4 4 2 ≡ some new)
unfolding pg_bin2hex
memory_hex = (_, refl)

pg_hex2bin-pg_bin2hex_example :
    ((i : ℕ) → i < 2 → pg_hex2bin (memory_hex.0) 4 3 4 (3 + i) ≡ memory (4 + i))
    × (pg_hex2bin (memory_hex.0) 4 3 4 5 ≡ 0)
pg_hex2bin-pg_bin2hex_example =
    pg_hex2bin-pg_bin2hex memory (memory_hex.0) 4 4 3 2 (λ i h. ground arith) (memory_hex.1)
      (omega arith)

-- One bare linefeed and one behind a carriage return
abbrev lines : Bytes
lines = codes "a\nb\r\n"

convert_linefeeds-crlf_from_example :
    convert_linefeeds lines true 7 true
    ≡ record { written = crlf_from none lines ++ 0 ∷ []; out = 6; changed = true }
convert_linefeeds-crlf_from_example = convert_linefeeds-crlf_from lines 7 (omega arith)

convert_special_chars-IsText_example :
    convert_special_chars (quoting sjis 0x5c) (flatten kanji) none ≡ 0x95 ∷ 0x5c ∷ 0x5c ∷ 0x5c ∷ []
unfolding flatten same
convert_special_chars-IsText_example =
    convert_special_chars-IsText 0x5c (omega arith) refl kanji-IsText

ascii_state : (st b : ℕ) → pg_cs_stat st b sql_ascii ≡ 0
unfolding pg_cs_stat
ascii_state st b = refl
