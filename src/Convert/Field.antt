-- ===== src/Convert/Field.antt =====
-- `copy_and_convert_field` of vxodbc/convert.cc for SQLGetData of a text column, as SQL_C_CHAR,
-- SQL_C_WCHAR or SQL_C_BINARY: the value comes in pieces, as large as the application's buffer.
-- The buffer is there and the value is not NULL. Left out are numbers, whose decimal point is that
-- of the locale, BYTEA as text, and the builds for Windows. Units of 16 bits are little endian.
pub mod Deliver
pub mod Read
pub mod Pieces
use versaplex.Prelude.{
  ℕ, zero, suc, ◌+◌, ◌-◌, ◌*◌, ◌/◌, ◌%◌, ltb, leb, ◌==◌, if◌then◌else◌, Bool, true, false, ◌||◌,
  List, [], ◌∷◌, ◌++◌, Option, none, some, Bytes, take, drop,
}
use versaplex.Prelude.Int.{ℤ, pos, negsuc}
use versaplex.Bindings.{GetData}
use versaplex.Convert.Linefeeds.{convert_linefeeds}
use versaplex.Unicode.{Decoded, done, overrun, utf8_to_ucs2_lf}
use versaplex.Unicode.{nts}

pub data TextType : Type 0 where
  char_text wide_text binary_text : TextType

-- COPY_OK, COPY_RESULT_TRUNCATED and COPY_NO_DATA_FOUND
pub data CopyCode : Type 0 where
  copy_ok copy_truncated copy_no_data : CopyCode

-- `copied_data` is what memcpy copies, and `zeros` counts the bytes of the terminator behind it.
-- `length_or_ind` is what `*pcbValue` is set to.
pub record Copied : Type 0 where
  pub code : CopyCode
  pub pgdc : GetData
  pub copied_data : Bytes
  pub zeros : ℕ
  pub length_or_ind : Option ℕ

-- `fault`: a byte behind the value or at NULL is read.
pub data Copying : Type 0 where
  copied : Copied → Copying
  fault : Copying

-- The length of the value for the application, and whether it differs from the one of the server.
pub record Measured : Type 0 where
  pub len : ℕ
  pub is_changed : Bool

unfoldable pub measured_wide : Decoded → Option Measured
measured_wide (done o) = some (record { len = 2 * o.ocount; is_changed = true })
measured_wide overrun = none

unfoldable pub measured_lines : Bytes → Bool → Option Measured
measured_lines value lf_conv =
    let l = convert_linefeeds value false 0 lf_conv in
    some (record { len = l.out; is_changed = l.changed })

unfoldable pub measure : TextType → Bytes → (lf_conv : Bool) → Option Measured
measure wide_text value lf_conv = measured_wide (utf8_to_ucs2_lf (some value) nts lf_conv 0)
measure char_text value lf_conv = measured_lines value lf_conv
measure binary_text value lf_conv = measured_lines value lf_conv

unfoldable pub unit_bytes : List ℕ → Bytes
unit_bytes [] = []
unit_bytes (u ∷ us) = u % 256 ∷ u / 256 ∷ unit_bytes us

unfoldable pub wide_bytes : Decoded → Option Bytes
wide_bytes (done o) = some (unit_bytes o.written)
wide_bytes overrun = none

-- What is written to `ttlbuf`
unfoldable pub convert_text :
    TextType → Bytes → (lf_conv : Bool) → (len ttlbuflen : ℕ) → Option Bytes
convert_text wide_text value lf_conv len ttlbuflen =
    wide_bytes (utf8_to_ucs2_lf (some value) nts lf_conv (len / 2))
convert_text char_text value lf_conv len ttlbuflen =
    some (convert_linefeeds value true ttlbuflen lf_conv).written
convert_text binary_text value lf_conv len ttlbuflen =
    some (convert_linefeeds value true ttlbuflen lf_conv).written

-- The bytes of a terminator
unfoldable pub terminator : TextType → ℕ
terminator char_text = 1
terminator wide_text = 2
terminator binary_text = 0

unfoldable pub copy_length : TextType → (len cb_value_max : ℕ) → ℕ
copy_length char_text len cb = if leb cb len then cb - 1 else len
copy_length wide_text len cb = (if leb cb len then cb - 1 else len) / 2 * 2
copy_length binary_text len cb = if ltb cb len then cb else len

unfoldable pub zeros_behind : TextType → (copy_len cb_value_max : ℕ) → ℕ
zeros_behind char_text n cb = if ltb n cb then 1 else 0
zeros_behind wide_text n cb = if leb (n + 2) cb then 2 else 0
zeros_behind binary_text n cb = if ltb n cb then 1 else 0

-- The last tests, on the truncation and on the result: with COPY_OK nothing is left.
unfoldable pub end_copy : (truncated : Bool) → Copied → Copied
end_copy true c = record c { code = copy_truncated }
end_copy false c = record c {
  code = copy_ok;
  pgdc = record c.pgdc { ttlbuf = none; data_left = pos 0 };
}

-- From `ptr` on `len` bytes are left, and a whole copy with what stands behind takes `needbuflen`.
unfoldable pub deliver :
    TextType → (ptr : Option Bytes) → (len needbuflen : ℕ) → GetData → (cb_value_max : ℕ) → Copying
deliver type ptr len needbuflen g zero = copied (
    end_copy false
      (record { code = copy_ok; pgdc = g; copied_data = []; zeros = 0; length_or_ind = some len }))
deliver type none len needbuflen g (suc cb) = fault
deliver type (some ptr) len needbuflen g (suc cb) =
    let copy_len = copy_length type len (suc cb) in
    copied (
      end_copy (ltb (suc cb) needbuflen) (record {
        code = copy_ok;
        pgdc = record g { data_left = pos (len - copy_len) };
        copied_data = take copy_len ptr;
        zeros = zeros_behind type copy_len (suc cb);
        length_or_ind = some len;
      }))

-- if (!pgdc->ttlbuf) pgdc->ttlbuflen = 0
unfoldable pub held_size : Option Bytes → (ttlbuflen : ℕ) → ℕ
held_size none ttlbuflen = 0
held_size (some buf) ttlbuflen = ttlbuflen

-- realloc, when the value and its terminator need more
unfoldable pub ttlbuf_size : GetData → (needbuflen : ℕ) → ℕ
ttlbuf_size g needbuflen =
    let ttlbuflen = held_size g.ttlbuf g.ttlbuflen in
    if ltb ttlbuflen needbuflen then needbuflen else ttlbuflen

unfoldable pub from_ttlbuf :
    TextType → (stored : Option Bytes) → (size len : ℕ) → GetData → (cb_value_max : ℕ) → Copying
from_ttlbuf type none size len g cb = fault
from_ttlbuf type (some stored) size len g cb =
    deliver type (some stored) len (len + terminator type)
      (record g { ttlbuf = some stored; ttlbuflen = size; ttlbufused = len; data_left = pos len })
      cb

unfoldable pub no_data : GetData → Copying
no_data g = copied (record {
  code = copy_no_data;
  pgdc = record g {
    ttlbuf = none;
    ttlbuflen = elim g.ttlbuf [ none ↦ g.ttlbuflen | some buf ↦ 0 ];
    data_left = negsuc 1;
  };
  copied_data = [];
  zeros = 0;
  length_or_ind = none;
})

unfoldable pub only_length : GetData → (len : ℕ) → Copying
only_length g len = copied (record {
  code = copy_truncated;
  pgdc = g;
  copied_data = [];
  zeros = 0;
  length_or_ind = some len;
})

-- The first piece of a value that is measured; it goes through `ttlbuf` if it has to.
unfoldable pub first_measured :
    TextType → Bytes → (lf_conv : Bool) → Measured → GetData → (cb_value_max : ℕ) → Copying
first_measured type value lf_conv m g zero = only_length g m.len
first_measured type value lf_conv m g (suc cb) =
    let needbuflen = m.len + terminator type in
    let size = ttlbuf_size g needbuflen in
    if m.is_changed || ltb (suc cb) needbuflen
    then from_ttlbuf type (convert_text type value lf_conv m.len size) size m.len g (suc cb)
    else deliver type (some value) m.len needbuflen
        (record g {
          ttlbuf = none;
          ttlbuflen = held_size g.ttlbuf g.ttlbuflen;
          data_left = pos m.len;
        })
        (suc cb)

unfoldable pub first_piece :
    TextType → Bytes → (lf_conv : Bool) → GetData → (cb_value_max : ℕ) → Copying
first_piece type value lf_conv g cb = elim (measure type value lf_conv) [
  | none ↦ fault
  | some m ↦ first_measured type value lf_conv m g cb
]

-- The `left` bytes at the end of what `ttlbuf` holds
unfoldable pub later_piece : TextType → (left : ℕ) → GetData → (cb_value_max : ℕ) → Copying
later_piece type left g cb =
    deliver type (elim g.ttlbuf [ none ↦ none | some buf ↦ some (drop (g.ttlbufused - left) buf) ])
      left (left + (g.ttlbuflen - g.ttlbufused)) g cb

-- `data_left` is the third argument: -1 before the first piece, -2 behind the last one.
unfoldable pub piece_at :
    TextType → Bytes → (data_left : ℤ) → (lf_conv : Bool) → GetData → (cb_value_max : ℕ) → Copying
piece_at type value (pos zero) lf_conv g cb = no_data g
piece_at type value (pos (suc left)) lf_conv g cb = later_piece type (suc left) g cb
piece_at type value (negsuc (suc zero)) lf_conv g (suc cb) = no_data g
piece_at type value (negsuc (suc zero)) lf_conv g zero =
    first_piece type value lf_conv (record g { data_left = negsuc 0 }) zero
piece_at type value (negsuc zero) lf_conv g cb = first_piece type value lf_conv g cb
piece_at type value (negsuc (suc (suc n))) lf_conv g cb = first_piece type value lf_conv g cb

unfoldable pub copy_text :
    TextType → Bytes → (lf_conv : Bool) → GetData → (cb_value_max : ℕ) → Copying
copy_text type value lf_conv g cb = piece_at type value g.data_left lf_conv g cb
