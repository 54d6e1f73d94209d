-- ===== src/Unicode/Count.antt =====
-- How much vxodbc/win_unicode.cc writes: the buffers are large enough, and a call with no buffer
-- gives the count that a call with one gives.
use versaplex.Prelude.{
  ℕ, zero, suc, ◌+◌, ◌-◌, ◌*◌, ◌<◌, ◌≤◌, ◌==◌, ltb, if◌then◌else◌, Bool, true, false, ◌&&◌, List,
  [], ◌∷◌, ◌++◌, some, Bytes, ◌≡◌, ◌∙◌, ap, refl, arith, length, length-append, flatten, map,
  Option, none,
}
use versaplex.Multibyte.Charset.{utf8, same}
use versaplex.Multibyte.Chars.{IsChar, one, two, three}
use versaplex.Multibyte.Laws.{IsText, nil, cons, pg_mbslen-IsText}
use versaplex.Multibyte.Scan.{pg_mbslen}
use versaplex.Unicode.{
  encode_unit, encode, Length, count, ucs2_to_utf8, Output, Decoded, done, overrun, put, put_ascii,
  decode, finish, bytes_of, utf8_to_ucs2_lf, three_code, two_code, is_ascii, is_three, head_or_zero,
  tail_of, past_terminator,
}
use versaplex.Unicode.Units.{UnitBytes, ascii, pair, triple, encode_unit-UnitBytes}
use versaplex.Unicode.RoundTrip.{IsUnits, encoded, encode-encoded}

length-encode_unit : (low : Bool) (w : ℕ) → length (encode_unit low w) ≤ 3
unfolding encode_unit
length-encode_unit low w = ground arith

length-encode : (low : Bool) (n : ℕ) (ws : List ℕ) → length (encode low n ws) ≤ 3 * n
unfolding encode
length-encode low zero ws = omega arith
length-encode low (suc n) [] = omega arith
length-encode low (suc n) (w ∷ ws) = ground (
  arith,
  length-append (encode_unit low w) (encode low n ws),
  length-encode_unit low w,
  length-encode low n ws,
)

-- Whatever the units are, the UTF-8 form and its terminator fit the `3 * ilen + 1` bytes that
-- are allocated.
pub length-ucs2_to_utf8 :
    (ws : List ℕ) (n : ℕ) (low : Bool) (s : Bytes)
    → ucs2_to_utf8 (some ws) (count n) low ≡ some s
    → length s + 1 ≤ n * 3 + 1
unfolding ucs2_to_utf8
length-ucs2_to_utf8 ws n low s h = ground (arith, length-encode low n ws)

-- Each unit becomes one character of UTF-8.
abbrev unit_chars : List ℕ → List Bytes
unit_chars = map (encode_unit false)

UnitBytes-IsChar : {w : ℕ} {u : Bytes} → 0 < w → UnitBytes w u → IsChar utf8 u
UnitBytes-IsChar p (ascii h) = one p (ground arith)
UnitBytes-IsChar p (pair h1 h2 h3 h4 h5 h6) = two (ground arith)
UnitBytes-IsChar p (triple h1 h2 h3 h4 h5 h6 h7 h8) = three (ground arith)

unit_chars-IsText : (ws : List ℕ) → IsUnits ws → IsText utf8 (unit_chars ws)
unit_chars-IsText [] h = nil
unit_chars-IsText (w ∷ ws) h =
    cons (UnitBytes-IsChar h.0 (encode_unit-UnitBytes w h.1)) (unit_chars-IsText ws h.2)

encoded-flatten : (ws : List ℕ) → encoded ws ≡ flatten (unit_chars ws)
unfolding flatten
encoded-flatten [] = refl
encoded-flatten (w ∷ ws) = ap (λ t. encode_unit false w ++ t) (encoded-flatten ws)

length-unit_chars : (ws : List ℕ) → length (unit_chars ws) ≡ length ws
length-unit_chars [] = refl
length-unit_chars (w ∷ ws) = ap suc (length-unit_chars ws)

-- The multibyte length of the UTF-8 form is the number of units.
pub pg_mbslen-ucs2_to_utf8 :
    (ws : List ℕ) (s : Bytes)
    → IsUnits ws
    → ucs2_to_utf8 (some ws) (count (length ws)) false ≡ some s
    → pg_mbslen utf8 s ≡ length ws
unfolding ucs2_to_utf8 same
pg_mbslen-ucs2_to_utf8 ws s h e =
    let whole : s ≡ flatten (unit_chars ws) =
      ground (arith, encode-encoded ws h, encoded-flatten ws) in
    rw whole (pg_mbslen-IsText refl (unit_chars-IsText ws h) ∙ length-unit_chars ws)

-- The count of a run with a buffer is that of a run with none, which overruns nowhere else.
data SameCount : Decoded → Decoded → Type 0 where
  over : {d : Decoded} → SameCount overrun d
  both : {o p : Output} → o.ocount ≡ p.ocount → SameCount (done o) (done p)

SameCount-if :
    (t : Bool) {a b c d : Decoded}
    → SameCount a c
    → SameCount b d
    → SameCount (if t then a else b) (if t then c else d)
SameCount-if true h k = h
SameCount-if false h k = k

SameCount-guard :
    (t : Bool) {u : Bool} {a c : Decoded}
    → u ≡ false
    → SameCount a c
    → SameCount (if t then overrun else a) (if u then overrun else c)
SameCount-guard true e h = over
SameCount-guard false e h = rw e h

decode-SameCount :
    (lf : Bool) (cap before left skip : ℕ) (s : Bytes) (o p : Output)
    → o.ocount ≡ p.ocount
    → SameCount (decode lf cap before left skip s o) (decode lf 0 before left skip s p)
unfolding decode put
decode-SameCount lf cap before left zero [] o p h = both h
decode-SameCount lf cap before left (suc skip) [] o p h = SameCount-if (left == 0) (both h) over
decode-SameCount lf cap before left (suc skip) (b ∷ s) o p h =
    decode-SameCount lf cap b left skip s o p h
decode-SameCount lf cap before left zero (b ∷ s) o p h =
    let code = three_code b (head_or_zero s) (head_or_zero (tail_of s)) in
    let pair_code = two_code b (head_or_zero s) in
    SameCount-if (left == 0) (both h) (
      SameCount-if (is_ascii b)
        (decode-SameCount lf cap b (left - 1) 0 s (put_ascii lf cap before b o)
          (put_ascii lf 0 before b p) (ground arith))
        (SameCount-if (is_three b)
          (SameCount-guard (ltb o.ocount cap && past_terminator s) (ground arith) (
            decode-SameCount lf cap b (left - 3) 2 s (put cap code o) (put 0 code p)
              (ground arith)))
          (decode-SameCount lf cap b (left - 2) 1 s (put cap pair_code o) (put 0 pair_code p)
            (ground arith))))

finish-SameCount : (cap : ℕ) {a b : Decoded} → SameCount a b → SameCount (finish cap a) (finish 0 b)
unfolding finish
finish-SameCount cap over = over
finish-SameCount cap (both h) = both h

SameCount-done :
    {o : Output} {a b : Decoded}
    → SameCount a b
    → a ≡ done o
    → (p : Output) × (b ≡ done p) × (p.ocount ≡ o.ocount)
SameCount-done over e = cc
SameCount-done (both {o} {p} h) e = (p, refl, ground arith)

-- What a call with a buffer counts, a call with no buffer counts for the same string.
pub utf8_to_ucs2_lf_count :
    (s : Option Bytes) (ilen : Length) (lf : Bool) (cap : ℕ) (o : Output)
    → utf8_to_ucs2_lf s ilen lf cap ≡ done o
    → (p : Output) × (utf8_to_ucs2_lf s ilen lf 0 ≡ done p) × (p.ocount ≡ o.ocount)
unfolding utf8_to_ucs2_lf
utf8_to_ucs2_lf_count none ilen lf cap o h =
    (record { written = []; ocount = 0 }, refl, ground arith)
utf8_to_ucs2_lf_count (some s) ilen lf cap o h =
    let empty : Output = record { written = []; ocount = 0 } in
    SameCount-done
      (finish-SameCount cap (decode-SameCount lf cap 0 (bytes_of ilen s) 0 s empty empty refl)) h
