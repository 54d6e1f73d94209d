-- ===== src/Multibyte/Scan.antt =====
-- The scans of vxodbc/multibyte.cc over a C string: `pg_mbschr`, `pg_mbslen`, `pg_mbsinc`, and
-- the cursor `encoded_str`. A pointer into the string is its offset, and `none` is NULL.
use versaplex.Prelude.{
  ℕ, ◌+◌, ltb, ◌==◌, ◌&&◌, if◌then◌else◌, [], ◌∷◌, Option, none, some, Bytes, get_or,
}
use versaplex.Multibyte.Charset.{Charset}
use versaplex.Multibyte.Stat.{pg_cs_stat}

-- The loop of `pg_mbschr` at offset `i`, with the state so far.
unfoldable pub mbschr_from : Charset → ℕ → ℕ → Bytes → ℕ → Option ℕ
mbschr_from csc st i [] character = none
mbschr_from csc st i (b ∷ s) character =
    let st' = pg_cs_stat st b csc in
    let rest = mbschr_from csc st' (i + 1) s character in
    if st' == 0 && b == character then some i else rest

unfoldable pub pg_mbschr : Charset → Bytes → ℕ → Option ℕ
unfolding mbschr_from
pg_mbschr csc s character = mbschr_from csc 0 0 s character

unfoldable pub mbslen_from : Charset → ℕ → Bytes → ℕ → ℕ
mbslen_from csc st [] len = len
mbslen_from csc st (b ∷ s) len =
    let st' = pg_cs_stat st b csc in mbslen_from csc st' s (if ltb st' 2 then len + 1 else len)

unfoldable pub pg_mbslen : Charset → Bytes → ℕ
unfolding mbslen_from
pg_mbslen csc s = mbslen_from csc 0 s 0

-- The number of bytes by which `current` is advanced.
unfoldable pub pg_mbsinc : Charset → Bytes → Option ℕ
pg_mbsinc csc [] = none
pg_mbsinc csc (b ∷ s) = let st = pg_cs_stat 0 b csc in some (if st == 0 then 1 else st)

-- `pos` is the source's position plus one, since a new cursor stands at -1.
pub record EncodedStr : Type 0 where
  pub csc : Charset
  pub encstr : Bytes
  pub pos : ℕ
  pub ccst : ℕ

unfoldable pub encoded_str_constr : Charset → Bytes → EncodedStr
encoded_str_constr csc s = record { csc = csc; encstr = s; pos = 0; ccst = 0 }

-- The byte under the cursor; the terminator is 0.
abbrev byte_at : Bytes → ℕ → ℕ
byte_at s i = get_or s i 0

unfoldable pub encoded_nextchar : EncodedStr → EncodedStr × ℕ
encoded_nextchar e =
    let chr = byte_at e.encstr e.pos in
    (record e { pos = e.pos + 1; ccst = pg_cs_stat e.ccst chr e.csc }, chr)

unfoldable pub encoded_position_shift : EncodedStr → ℕ → EncodedStr
encoded_position_shift e shift = record e { pos = e.pos + shift }

unfoldable pub encoded_byte_check : EncodedStr → ℕ → EncodedStr × ℕ
encoded_byte_check e abspos =
    let chr = byte_at e.encstr abspos in
    (record e { pos = abspos + 1; ccst = pg_cs_stat e.ccst chr e.csc }, chr)
