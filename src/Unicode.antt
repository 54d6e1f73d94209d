-- ===== src/Unicode.antt =====
-- vxodbc/win_unicode.cc: UCS-2 to UTF-8 and back. A wide string is the list of its units before
-- the terminator, a narrow one the list of its bytes. The host is little-endian, as the packed
-- codes of the source assume, `SQLWCHAR` has 16 bits, and memory is always allocated.
pub mod Units
pub mod Steps
pub mod RoundTrip
pub mod Count
pub mod Bounds
use versaplex.Prelude.{
  ℕ, zero, suc, ◌+◌, ◌-◌, ◌*◌, ◌/◌, ◌%◌, ◌^◌, bit_and, bit_or, ltb, ◌==◌, if◌then◌else◌, Bool, true,
  false, not, ◌&&◌, ◌||◌, List, [], ◌∷◌, ◌++◌, Option, none, some, Bytes, to_lower, length,
}

-- The bytes that one unit is written as: up to 0x7F, up to 0x7FF, and above.
unfoldable pub encode_unit : Bool → ℕ → Bytes
unfolding to_lower
encode_unit lower_identifier w =
    if bit_and w 0xffffff80 == 0
    then (if lower_identifier then to_lower w else w) ∷ []
    else if bit_and w 0xfffff800 == 0
    then (let byte2code =
          bit_or (bit_or 0x80c0 (bit_and 0x07c0 w / 2 ^ 6)) (bit_and 0x003f w * 2 ^ 8) in
        byte2code % 2 ^ 8 ∷ byte2code / 2 ^ 8 ∷ [])
    else (let byte4code =
          bit_or (bit_or (bit_or 0x8080e0 (bit_and 0xf000 w / 2 ^ 12)) (bit_and 0x0fc0 w * 2 ^ 2))
            (bit_and 0x003f w * 2 ^ 16) in
        byte4code % 2 ^ 8 ∷ byte4code / 2 ^ 8 % 2 ^ 8 ∷ byte4code / 2 ^ 16 ∷ [])

-- The loop, with `n` units left of `ilen`.
unfoldable pub encode : Bool → ℕ → List ℕ → Bytes
encode lower_identifier zero ws = []
encode lower_identifier (suc n) [] = []
encode lower_identifier (suc n) (w ∷ ws) =
    if w == 0 then [] else encode_unit lower_identifier w ++ encode lower_identifier n ws

-- The length argument: SQL_NTS, or a count.
pub data Length : Type 0 where
  nts : Length
  count : ℕ → Length

-- `ucs2strlen`: the units before the first zero.
unfoldable pub ucs2strlen : List ℕ → ℕ
ucs2strlen [] = 0
ucs2strlen (w ∷ ws) = if w == 0 then 0 else suc (ucs2strlen ws)

unfoldable pub units_of : Length → List ℕ → ℕ
unfolding ucs2strlen
units_of nts ws = ucs2strlen ws
units_of (count n) ws = n

-- `none` is the NULL string; its `olen` is SQL_NULL_DATA. Otherwise `*olen` is the length.
unfoldable pub ucs2_to_utf8 : Option (List ℕ) → Length → Bool → Option Bytes
unfolding encode units_of
ucs2_to_utf8 none ilen lower_identifier = none
ucs2_to_utf8 (some ws) ilen lower_identifier = some (encode lower_identifier (units_of ilen ws) ws)

-- The buffer written so far, which has room for `bufcount` units, and the count of all units.
pub record Output : Type 0 where
  pub written : List ℕ
  pub ocount : ℕ

-- `overrun`: a byte behind the terminator is read.
pub data Decoded : Type 0 where
  done : Output → Decoded
  overrun : Decoded

unfoldable pub put : ℕ → ℕ → Output → Output
put bufcount u o = record {
  written = if ltb o.ocount bufcount then o.written ++ u ∷ [] else o.written;
  ocount = o.ocount + 1;
}

abbrev pub three_code : ℕ → ℕ → ℕ → ℕ
three_code a b c =
    bit_or (bit_or (bit_and a 0x0f * 2 ^ 12) (bit_and b 0x3f * 2 ^ 6)) (bit_and c 0x3f) % 2 ^ 16

abbrev pub two_code : ℕ → ℕ → ℕ
two_code a b = bit_or (bit_and a 0x1f * 2 ^ 6) (bit_and b 0x3f) % 2 ^ 16

abbrev pub is_ascii : ℕ → Bool
is_ascii b = ltb b 128

abbrev pub is_three : ℕ → Bool
is_three b = bit_and b 0xe0 == 0xe0

-- The byte at the head; at the end this is the terminator.
abbrev pub head_or_zero : Bytes → ℕ
head_or_zero [] = 0
head_or_zero (b ∷ s) = b

-- A byte is read only where it is in the string or is the terminator.
abbrev pub past_terminator : Bytes → Bool
past_terminator [] = true
past_terminator (b ∷ s) = false

abbrev pub tail_of : Bytes → Bytes
tail_of [] = []
tail_of (b ∷ s) = s

-- An ASCII byte `b` behind the byte `before`, which is 0 at the start.
unfoldable pub put_ascii : Bool → ℕ → ℕ → ℕ → Output → Output
unfolding put
put_ascii lfconv bufcount before b o =
    if lfconv && b == 10 && not (before == 13)
    then put bufcount b (put bufcount 13 o)
    else put bufcount b o

-- The loop at `str`, with `left` bytes of `ilen` left and `skip` bytes to pass first; `before`
-- is the byte before `str`. Behind the terminator only an exhausted `ilen` ends the loop.
unfoldable pub decode : Bool → ℕ → ℕ → ℕ → ℕ → Bytes → Output → Decoded
unfolding put_ascii
decode lfconv bufcount before left zero [] o = done o
decode lfconv bufcount before left (suc skip) [] o = if left == 0 then done o else overrun
decode lfconv bufcount before left (suc skip) (b ∷ s) o = decode lfconv bufcount b left skip s o
decode lfconv bufcount before left zero (b ∷ s) o =
    let ascii = decode lfconv bufcount b (left - 1) 0 s (put_ascii lfconv bufcount before b o) in
    let three =
      decode lfconv bufcount b (left - 3) 2 s
        (put bufcount (three_code b (head_or_zero s) (head_or_zero (tail_of s))) o) in
    let two =
      decode lfconv bufcount b (left - 2) 1 s (put bufcount (two_code b (head_or_zero s)) o) in
    if left == 0
    then done o
    else if is_ascii b
    then ascii
    else if is_three b
    then (if ltb o.ocount bufcount && past_terminator s then overrun else three)
    else two

-- The final terminator, where there is room for it.
unfoldable pub finish : ℕ → Decoded → Decoded
finish bufcount overrun = overrun
finish bufcount (done o) =
    done (record o { written = if ltb o.ocount bufcount then o.written ++ 0 ∷ [] else o.written })

unfoldable pub bytes_of : Length → Bytes → ℕ
bytes_of nts s = length s
bytes_of (count n) s = n

-- A NULL buffer is a `bufcount` of 0, and a NULL string gives 0. A negative `ilen` is `nts`.
unfoldable pub utf8_to_ucs2_lf : Option Bytes → Length → Bool → ℕ → Decoded
unfolding decode finish bytes_of
utf8_to_ucs2_lf none ilen lfconv bufcount = done (record { written = []; ocount = 0 })
utf8_to_ucs2_lf (some s) ilen lfconv bufcount =
    finish bufcount
      (decode lfconv bufcount 0 (bytes_of ilen s) 0 s (record { written = []; ocount = 0 }))
