-- ===== src/Text.antt =====
-- The string helpers of vxodbc/misc.cc. A destination that is not written is none, and else the
-- text in front of the terminator that is stored.
pub mod Laws
use versaplex.Prelude.{
  ℕ, zero, suc, ◌+◌, ◌-◌, ltb, leb, ◌==◌, if◌then◌else◌, Bool, true, false, ◌||◌, [], ◌∷◌, Option,
  none, some, Bytes, length, take, get_or, map,
}

-- A length of the application: SQL_NTS, SQL_NULL_DATA, another negative number or a count.
pub data Len : Type 0 where
  nts null_data negative : Len
  count : ℕ → Len

pub data StrcpyResult : Type 0 where
  strcpy_fail strcpy_truncated strcpy_null : StrcpyResult
  copied : ℕ → StrcpyResult

-- `src` has the bytes that are copied.
unfoldable pub copy_into : ℕ → Bytes → ℕ → Option Bytes × StrcpyResult
copy_into dst_len src src_len =
    if src_len == 0
    then (none, strcpy_fail)
    else if ltb src_len dst_len
    then (some (take src_len src), copied (length (take src_len src)))
    else (some (take (dst_len - 1) src), strcpy_truncated)

-- A negative `dst_len` does what 0 does.
unfoldable pub my_strcpy : ℕ → Bytes → Len → Option Bytes × StrcpyResult
unfolding copy_into
my_strcpy zero src len = (none, strcpy_fail)
my_strcpy (suc d) src null_data = (some [], strcpy_null)
my_strcpy (suc d) src nts = copy_into (suc d) src (length src)
my_strcpy (suc d) src negative = (none, strcpy_fail)
my_strcpy (suc d) src (count n) = copy_into (suc d) src n

-- The loop, up to the terminator or to `limit` bytes
unfoldable pub copy_loop : Bytes → ℕ → Bytes
copy_loop [] limit = []
copy_loop (c ∷ s) zero = []
copy_loop (c ∷ s) (suc limit) = c ∷ copy_loop s limit

unfoldable pub copy_bounded : Bytes → ℕ → Option Bytes
unfolding copy_loop
copy_bounded src zero = none
copy_bounded src (suc n) = some (copy_loop src n)

unfoldable pub strncpy_null : Bytes → Len → Option Bytes
unfolding copy_bounded
strncpy_null src null_data = some []
strncpy_null src nts = copy_bounded src (length src + 1)
strncpy_null src negative = none
strncpy_null src (count n) = copy_bounded src n

unfoldable pub text_length : Bytes → Len → Option ℕ
text_length s null_data = none
text_length s negative = none
text_length s nts = some (length s)
text_length s (count n) = some n

-- The text returned; `no_string` is NULL, and `unwritten` a buffer that is returned as it was.
pub data MadeString : Type 0 where
  no_string unwritten : MadeString
  made : Bytes → MadeString

abbrev pub as_made : Option Bytes → MadeString
as_made none = unwritten
as_made (some t) = made t

-- `buf` is the size of the buffer given, or none for a new one. The first clause is for lengths
-- that are refused.
unfoldable pub place : Option ℕ → Bytes → Option ℕ → MadeString
unfolding strncpy_null
place none s buf = no_string
place (some n) s none = as_made (strncpy_null s (count (n + 1)))
place (some n) s (some size) = as_made (strncpy_null s (count (if ltb n size then n + 1 else size)))

unfoldable pub make_string : Option Bytes → Len → Option ℕ → MadeString
unfolding text_length place
make_string none len buf = no_string
make_string (some s) len buf = place (text_length s len) s buf

unfoldable pub remove_newlines : Bytes → Bytes
remove_newlines s = map (λ c. if c == 10 || c == 13 then b' ' else c) s

-- `underrun`: the index, a size_t, wraps round below 0 and a byte outside is read.
pub data Trimmed : Type 0 where
  trimmed : Bytes → Trimmed
  underrun : Trimmed

-- The loop with i + 1. A terminator stored at i leaves the bytes before it.
unfoldable pub trim_from : Bytes → ℕ → Trimmed
trim_from s zero = underrun
trim_from s (suc i) =
    let rest = trim_from (take i s) i in if get_or s i 0 == b' ' then rest else trimmed s

unfoldable pub trim : Bytes → Trimmed
unfolding trim_from
trim s = trim_from s (length s)
