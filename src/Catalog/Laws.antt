-- ===== src/Catalog/Laws.antt =====
-- vxodbc/info.cc: the size of what the escaping functions write.
use versaplex.Prelude.{
  ℕ, zero, suc, ◌+◌, ◌*◌, ◌≤◌, ◌<◌, ◌==◌, if◌then◌else◌, Bool, true, false, [], ◌∷◌, ◌++◌, none,
  some, Bytes, length, length-append, ◌≡◌, refl, ap, arith, Bool-cases, inl, inr,
}
use versaplex.Multibyte.Charset.{Charset}
use versaplex.Multibyte.Stat.{pg_cs_stat}
use versaplex.Multibyte.ClientEncoding.{literal_quote}
use versaplex.Convert.Literal.{special_from, convert_special_chars}
use versaplex.Convert.Literal.Laws.{quoting}
use versaplex.Catalog.{
  sql_nts, source_of, simple_from, escape_source, simple_catalog_escape, escape_prefix, itself,
  adjust_from, adjust_like_pattern, dest_size,
}

simple_from-special_from :
    (cs : Charset) (esc st : ℕ) (src : Bytes)
    → simple_from cs esc st src ≡ special_from (quoting cs esc) st (length src) src
unfolding simple_from special_from
simple_from-special_from cs esc st [] = refl
simple_from-special_from cs esc st (c ∷ src) =
    rw (simple_from-special_from cs esc (pg_cs_stat st c cs) src) refl

-- simpleCatalogEscape of a text that is not empty writes what convert_special_chars writes for it
-- with the same escape character, when that doubles the special characters and keeps line ends.
pub simple_catalog_escape-convert_special_chars :
    (cs : Charset) (esc c : ℕ) (src : Bytes)
    → simple_catalog_escape cs esc (some (c ∷ src)) sql_nts
      ≡ some (convert_special_chars (quoting cs esc) (c ∷ src) none)
unfolding simple_catalog_escape convert_special_chars source_of escape_source
simple_catalog_escape-convert_special_chars cs esc c src =
    ap some (simple_from-special_from cs esc 0 (c ∷ src))

-- The bytes that are still to be paid for an escape character
abbrev pub owed : Bool → ℕ
owed true = 2
owed false = 0

length-escape_prefix :
    (escape_ch escape_in_literal c : ℕ)
    → (escape_ch == escape_in_literal) ≡ false
    → length (escape_prefix escape_ch escape_in_literal c) ≤ 2
unfolding escape_prefix
length-escape_prefix e l c h = ground arith

length-itself : (c : ℕ) → length (itself c) ≤ 2
unfolding itself
length-itself c = ground arith

length-before :
    (e l c : ℕ) (escape_in : Bool)
    → (e == l) ≡ false
    → length (if escape_in then escape_prefix e l c else []) ≤ owed escape_in
length-before e l c true h = length-escape_prefix e l c h
length-before e l c false h = omega arith

length-adjust_from :
    (cs : Charset) (escape_ch escape_in_literal st : ℕ) (escape_in : Bool) (src : Bytes)
    → (escape_ch == escape_in_literal) ≡ false
    → length (adjust_from cs escape_ch escape_in_literal st escape_in src)
      ≤ 2 * length src + owed escape_in
unfolding adjust_from
length-adjust_from cs e l st escape_in [] h = omega arith
length-adjust_from cs e l st escape_in (c ∷ src) h =
    let st1 = pg_cs_stat st c cs in
    let before = if escape_in then escape_prefix e l c else [] in
    let b = length-before e l c escape_in h in
    let as_is = length-adjust_from cs e l st1 escape_in src h in
    let after_escape = length-adjust_from cs e l st1 true src h in
    let after_other = length-adjust_from cs e l st1 false src h in
    elim (Bool-cases (st1 == 0)) [
      | inr f ↦ rw f (omega (arith, as_is))
      | inl t ↦ elim (Bool-cases (c == e)) [
        | inl u ↦ rw t (
            rw u (
              omega
                (arith, b, after_escape, length-append before (adjust_from cs e l st1 true src))))
        | inr u ↦ rw t (
            rw u (
              omega (
                arith,
                b,
                after_other,
                length-itself c,
                length-append before (itself c ++ adjust_from cs e l st1 false src),
                length-append (itself c) (adjust_from cs e l st1 false src),
              )))
      ]
    ]

-- When the escape character of the pattern is not that of literals, adjustLikePattern stores its
-- result, with the terminator, in the memory that it allocates.
pub length-adjust_like_pattern :
    (cs : Charset) (escape_ch escape_in_literal : ℕ) (src : Bytes)
    → (escape_ch == escape_in_literal) ≡ false
    → (dest : Bytes) × (adjust_like_pattern cs escape_ch escape_in_literal (some src) sql_nts
        ≡ some dest)
      × (length dest + 1 ≤ dest_size (length src))
unfolding adjust_like_pattern source_of
length-adjust_like_pattern cs e l src h =
    (adjust_from cs e l 0 false src, refl, omega (arith, length-adjust_from cs e l 0 false src h))

-- n times the escape character, with a byte that is not special behind it
unfoldable pub escaped_bytes : ℕ → (escape_ch c : ℕ) → Bytes
escaped_bytes zero escape_ch c = []
escaped_bytes (suc n) escape_ch c = escape_ch ∷ c ∷ escaped_bytes n escape_ch c

length-escaped_bytes : (n e c : ℕ) → length (escaped_bytes n e c) ≡ 2 * n
unfolding escaped_bytes
length-escaped_bytes zero e c = refl
length-escaped_bytes (suc n) e c = omega (arith, length-escaped_bytes n e c)

-- A byte that is not special for LIKE, for literals or for escaping
abbrev pub IsPlain : ℕ → ℕ → Type 0
IsPlain e c =
    ((c == e) ≡ false)
    × ((c == literal_quote) ≡ false)
    × ((c == b'%') ≡ false)
    × ((c == b'_') ≡ false)

five :
    (cs : Charset) (e c n : ℕ)
    → IsPlain e c
    → pg_cs_stat 0 e cs ≡ 0
    → pg_cs_stat 0 c cs ≡ 0
    → length (adjust_from cs e e 0 false (escaped_bytes n e c)) ≡ 5 * n
unfolding escaped_bytes adjust_from escape_prefix itself
five cs e c zero p a b = refl
five cs e c (suc n) p a b =
    let same : (e == e) ≡ true = ground arith in
    rw a (
      rw b
        (rw same (rw (p.0) (rw (p.1) (rw (p.2) (rw (p.3) (omega (arith, five cs e c n p a b))))))))

-- When the escape character of the pattern is that of literals, and it and a byte c are each a
-- character of their own, where c is not special, then n times the escape character and c make
-- adjustLikePattern store five bytes for each pair, which with the terminator are more than it has
-- allocated as soon as n is 1.
pub adjust_like_pattern-overrun :
    (cs : Charset) (e c m : ℕ)
    → IsPlain e c
    → pg_cs_stat 0 e cs ≡ 0
    → pg_cs_stat 0 c cs ≡ 0
    → (dest : Bytes) × (adjust_like_pattern cs e e (some (escaped_bytes (suc m) e c)) sql_nts
        ≡ some dest)
      × (length dest ≡ 5 * suc m)
      × (dest_size (length (escaped_bytes (suc m) e c)) < length dest + 1)
unfolding adjust_like_pattern source_of
adjust_like_pattern-overrun cs e c m p a b =
    let n = suc m in
    let l = five cs e c n p a b in
    (
      adjust_from cs e e 0 false (escaped_bytes n e c),
      refl,
      l,
      omega (arith, l, length-escaped_bytes n e c),
    )
