-- ===== src/Convert/Bytea.antt =====
-- Binary columns in vxodbc/convert.cc: `convert_to_pgbinary` writes bytes with octal escapes,
-- and `convert_from_pgbinary` reads them. Both texts are C strings.
pub mod RoundTrip
use versaplex.Prelude.{
  ℕ, zero, suc, ◌+◌, ◌-◌, ◌*◌, ◌/◌, ◌%◌, ltb, ◌==◌, if◌then◌else◌, Bool, true, false, not, ◌&&◌,
  ◌||◌, [], ◌∷◌, ◌++◌, Option, none, some, Bytes, is_alnum, length, bit_and,
}

abbrev pub bytea_escape_char : ℕ
bytea_escape_char = 0x5c

-- The three octal digits that both writers leave, from the last one to the first.
unfoldable pub octal_digits : ℕ → Bytes
octal_digits val =
    (bit_and (val / 8 / 8) 7 + b'0') ∷ (bit_and (val / 8) 7 + b'0') ∷ (bit_and val 7 + b'0') ∷ []

-- With the escape character of the connection in front, if there is one (0 is none).
unfoldable pub conv_to_octal : ℕ → ℕ → Bytes
unfolding octal_digits
conv_to_octal val escape_ch =
    if escape_ch == 0
    then bytea_escape_char ∷ octal_digits val
    else escape_ch ∷ bytea_escape_char ∷ octal_digits val

unfoldable pub conv_to_octal2 : ℕ → Bytes
unfolding octal_digits
conv_to_octal2 val = bytea_escape_char ∷ octal_digits val

-- The loop; `building_bind` is the flag FLGB_BUILDING_BIND_REQUEST.
unfoldable pub convert_to_pgbinary : Bytes → ℕ → Bool → Bytes
unfolding conv_to_octal conv_to_octal2
convert_to_pgbinary [] escape_in_literal building_bind = []
convert_to_pgbinary (inc ∷ s) escape_in_literal building_bind =
    let esc_double = not building_bind && not (escape_in_literal == 0) in
    let rest = convert_to_pgbinary s escape_in_literal building_bind in
    if ltb inc 128 && (is_alnum inc || inc == b' ')
    then inc ∷ rest
    else if esc_double
    then conv_to_octal inc escape_in_literal ++ rest
    else conv_to_octal2 inc ++ rest

-- The sum is stored in a byte; 256 is added first since `-` stops at 0.
unfoldable pub conv_from_octal : ℕ → ℕ → ℕ → ℕ
conv_from_octal a b c = ((a + 256 - b'0') * 64 + (b + 256 - b'0') * 8 + (c + 256 - b'0')) % 256

-- `overrun`: digits behind the terminator are read.
pub data FromBinary : Type 0 where
  done : Bytes → FromBinary
  overrun : FromBinary

unfoldable pub cons_byte : ℕ → FromBinary → FromBinary
cons_byte b (done s) = done (b ∷ s)
cons_byte b overrun = overrun

-- What stands behind an escape character that does not escape another one.
unfoldable pub octal_at : Bytes → Option ℕ
unfolding conv_from_octal
octal_at [] = none
octal_at (a ∷ []) = none
octal_at (a ∷ b ∷ []) = some (conv_from_octal a b 0)
octal_at (a ∷ b ∷ c ∷ s) = some (conv_from_octal a b c)

with_octal : Option ℕ → FromBinary → FromBinary
unfolding cons_byte
with_octal none r = overrun
with_octal (some b) r = cons_byte b r

is_escape : Bytes → Bool
is_escape [] = false
is_escape (b ∷ s) = b == bytea_escape_char

-- The loop into a buffer, with `skip` bytes to pass first.
unfoldable pub convert_from : ℕ → Bytes → FromBinary
unfolding with_octal is_escape octal_at
convert_from skip [] = done []
convert_from (suc skip) (c ∷ s) = convert_from skip s
convert_from zero (c ∷ s) =
    let escaped = convert_from 1 s in
    let octal = convert_from 3 s in
    let plain = convert_from 0 s in
    if c == bytea_escape_char
    then (if is_escape s then cons_byte c escaped else with_octal (octal_at s) octal)
    else cons_byte c plain

-- The loop with no buffer, which only counts.
unfoldable pub count_from : ℕ → Bytes → ℕ
unfolding is_escape
count_from skip [] = 0
count_from (suc skip) (c ∷ s) = count_from skip s
count_from zero (c ∷ s) =
    let escaped = count_from 1 s in
    let octal = count_from 3 s in
    let plain = count_from 0 s in
    if c == bytea_escape_char then (if is_escape s then suc escaped else suc octal) else suc plain
