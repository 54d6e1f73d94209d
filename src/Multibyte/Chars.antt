-- ===== src/Multibyte/Chars.antt =====
-- What a character is, byte by byte, in each of the encodings of vxodbc/multibyte.h, written
-- down from the encodings and not from the driver's state machine. An encoding of one byte has any
-- byte. The driver takes the lead bytes 0x84 to 0xA0 of JOHAB for characters of one byte.
use versaplex.Prelude.{
  ℕ, ◌≤◌, leb, ◌==◌, ◌&&◌, ◌||◌, not, Bool, true, false, [], ◌∷◌, Bytes, within, ◌≡◌,
}
use versaplex.Multibyte.Charset.{
  Charset, euc_jp, euc_cn, euc_kr, euc_tw, johab, utf8, sjis, big5, gbk, uhc, gb18030,
}

abbrev pub high : ℕ → Bool
high b = within 0xa1 0xfe b

abbrev pub cont : ℕ → Bool
cont b = within 0x80 0xbf b

abbrev pub one_byte : Charset → ℕ → Bool
one_byte utf8 a = leb a 0x7f
one_byte sjis a = leb a 0x80 || within 0xa0 0xdf a
one_byte big5 a = leb a 0xa0
one_byte gbk a = leb a 0x7f
one_byte uhc a = leb a 0x7f
one_byte euc_cn a = leb a 0xa0
one_byte euc_kr a = leb a 0xa0
one_byte johab a = leb a 0x7f
one_byte euc_jp a = leb a 0xa0 && not (a == 0x8e) && not (a == 0x8f)
one_byte euc_tw a = leb a 0xa0 && not (a == 0x8e)
one_byte gb18030 a = leb a 0x80
one_byte _ a = true

abbrev pub two_bytes : Charset → ℕ → ℕ → Bool
two_bytes utf8 a b = within 0xc0 0xdf a && cont b
two_bytes sjis a b = (within 0x81 0x9f a || within 0xe0 0xfc a) && within 0x40 0xfc b
two_bytes big5 a b = high a && within 0x40 0xfe b
two_bytes gbk a b = within 0x81 0xfe a && within 0x40 0xfe b
two_bytes uhc a b = within 0x81 0xfe a && within 0x41 0xfe b
two_bytes euc_cn a b = high a && high b
two_bytes euc_kr a b = high a && high b
two_bytes johab a b =
    (within 0x84 0xd3 a || within 0xd8 0xde a || within 0xe0 0xf9 a)
    && (within 0x31 0x7e b || within 0x91 0xfe b)
two_bytes euc_jp a b = (a == 0x8e || high a) && high b
two_bytes euc_tw a b = high a && high b
two_bytes gb18030 a b = within 0x81 0xfe a && within 0x40 0xfe b
two_bytes _ a b = false

abbrev pub three_bytes : Charset → ℕ → ℕ → ℕ → Bool
three_bytes utf8 a b c = within 0xe0 0xef a && (cont b && cont c)
three_bytes euc_jp a b c = a == 0x8f && (high b && high c)
three_bytes _ a b c = false

abbrev pub digit : ℕ → Bool
digit b = within 0x30 0x39 b

abbrev pub four_bytes : Charset → ℕ → ℕ → ℕ → ℕ → Bool
four_bytes utf8 a b c d = within 0xf0 0xf7 a && (cont b && (cont c && cont d))
four_bytes euc_tw a b c d = a == 0x8e && (high b && (high c && high d))
four_bytes gb18030 a b c d = within 0x81 0xfe a && (digit b && (within 0x81 0xfe c && digit d))
four_bytes _ a b c d = false

-- One character. No character holds the terminator.
pub data IsChar (cs : Charset) : Bytes → Type 0 where
  one : {a : ℕ} → 1 ≤ a → one_byte cs a ≡ true → IsChar cs (a ∷ [])
  two : {a b : ℕ} → two_bytes cs a b ≡ true → IsChar cs (a ∷ b ∷ [])
  three : {a b c : ℕ} → three_bytes cs a b c ≡ true → IsChar cs (a ∷ b ∷ c ∷ [])
  four : {a b c d : ℕ} → four_bytes cs a b c d ≡ true → IsChar cs (a ∷ b ∷ c ∷ d ∷ [])
