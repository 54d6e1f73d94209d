-- ===== src/Convert/Hex.antt =====
-- `pg_bin2hex` and `pg_hex2bin` of vxodbc/convert.cc, which may work in place: both read and write
-- one memory, a function from addresses to bytes.
pub mod InPlace
pub mod RoundTrip
use versaplex.Prelude.{
  ℕ, zero, suc, ◌+◌, ◌-◌, ◌*◌, ◌/◌, ◌%◌, ltb, ◌==◌, if◌then◌else◌, Bool, true, false, ◌&&◌, Option,
  none, some, Bytes, codes, within, get_or,
}

abbrev pub Mem : Type 0
Mem = ℕ → ℕ

unfoldable pub store : Mem → ℕ → ℕ → Mem
store m a v x = if x == a then v else m x

abbrev pub hextbl : Bytes
hextbl = codes "0123456789ABCDEF"

-- chr >> 4 is chr / 16
abbrev pub high_digit : ℕ → ℕ
high_digit chr = get_or hextbl (chr / 16) 0

abbrev pub low_digit : ℕ → ℕ
low_digit chr = get_or hextbl (chr % 16) 0

-- From the last byte to the first: `n` bytes of `src` are left.
unfoldable pub hex_backwards : Mem → ℕ → ℕ → ℕ → Mem
hex_backwards m src dst zero = m
hex_backwards m src dst (suc n) =
    hex_backwards
      (store (store m (dst + 2 * n + 1) (low_digit (m (src + n)))) (dst + 2 * n)
        (high_digit (m (src + n))))
      src dst n

unfoldable pub hex_forwards : Mem → ℕ → ℕ → ℕ → Mem
hex_forwards m src dst zero = m
hex_forwards m src dst (suc n) =
    hex_forwards (store (store m dst (high_digit (m src))) (dst + 1) (low_digit (m src))) (src + 1)
      (dst + 2) n

-- The memory after the call, or `none` for -1 with nothing written.
unfoldable pub pg_bin2hex : Mem → ℕ → ℕ → ℕ → Option Mem
unfolding hex_backwards hex_forwards
pg_bin2hex m src dst length =
    if ltb dst src
    then (if ltb (src + 1) (dst + length)
        then none
        else some (store (hex_forwards m src dst length) (dst + 2 * length) 0))
    else if ltb dst (src + length)
    then some (store (hex_backwards m src dst length) (dst + 2 * length) 0)
    else some (store (hex_forwards m src dst length) (dst + 2 * length) 0)

-- `val`, as a byte: 256 is added first since `-` stops at 0.
unfoldable pub digit_value : ℕ → ℕ
digit_value chr =
    if within b'a' b'f' chr
    then chr - b'a' + 10
    else if within b'A' b'F' chr
    then chr - b'A' + 10
    else (chr + 256 - b'0') % 256

-- The loop and the terminator behind it; the last argument is `HByte`.
unfoldable pub hex2bin_from : Mem → ℕ → ℕ → ℕ → Bool → Mem
unfolding digit_value
hex2bin_from m src dst zero hbyte = store m dst 0
hex2bin_from m src dst (suc n) true =
    let rest = hex2bin_from (store m dst (digit_value (m src) * 16 % 256)) (src + 1) dst n false in
    if m src == 0 then store m dst 0 else rest
hex2bin_from m src dst (suc n) false =
    let rest =
      hex2bin_from (store m dst ((m dst + digit_value (m src)) % 256)) (src + 1) (dst + 1) n true in
    if m src == 0 then store m dst 0 else rest

unfoldable pub pg_hex2bin : Mem → ℕ → ℕ → ℕ → Mem
unfolding hex2bin_from
pg_hex2bin m src dst length = hex2bin_from m src dst length true
