-- ===== src/Diagnostics.antt =====
-- The error information of vxodbc/environ.cc: `PG_ErrorInfo`, and `ER_ReturnError`, which hands a
-- message out in pieces. `cbErrorMsgMax` is an SQLSMALLINT that is not negative, and `recsize` and
-- `errorpos` come from it and from the message's 16-bit length.
pub mod Laws
pub mod Drain
use versaplex.Prelude.{
  ℕ, zero, suc, ◌+◌, ◌-◌, ◌*◌, ◌/◌, ltb, leb, ◌==◌, if◌then◌else◌, Bool, true, false, not, ◌&&◌, [],
  ◌∷◌, ◌++◌, ◌%◌, Option, none, some, Bytes, length, take, drop,
}
use versaplex.Prelude.Int.{ℤ, pos, negsuc, neg_ℕ}

-- `errorsize` is none for -1, as is `recsize` up to the first request.
pub record ErrorInfo : Type 0 where
  pub status : ℕ
  pub errorsize : Option ℕ
  pub recsize : Option ℕ
  pub errorpos : ℕ
  pub sqlstate : Bytes
  pub diag_row_count : ℕ
  pub error_message : Bytes

-- DESC_OK is 0.
unfoldable pub er_constructor : ℕ → Option Bytes → Option ErrorInfo
er_constructor zero msg = none
er_constructor (suc n) msg = some (record {
  status = suc n;
  errorsize = elim msg [ none ↦ none | some m ↦ some (length m) ];
  recsize = none;
  errorpos = 0;
  sqlstate = [];
  diag_row_count = 0;
  error_message = elim msg [ none ↦ [] | some m ↦ m ];
})

abbrev pub drvmngrdiv : ℕ
drvmngrdiv = 511

-- A record number of the request: -1 and the other negative numbers are `next`.
pub data RecNumber : Type 0 where
  next : RecNumber
  at : ℕ → RecNumber

-- What goes out: `text` is szErrorMsg before its terminator, or none if nothing is stored there.
-- `underrun` is a request for the bytes before the message, which record number 0 makes, and one at
-- a position that has wrapped.
pub data Reply : Type 0 where
  no_data_found : Reply
  underrun : Reply
  reply :
      (success : Bool) (pcb : ℕ) (text : Option Bytes) (native_error : ℕ) (state : Bytes) → Reply

unfoldable pub first_recsize : ErrorInfo → ℕ → ErrorInfo
first_recsize error cb = elim error.recsize [
  | none ↦ record error { recsize = some (if ltb 0 cb then cb - 1 else drvmngrdiv) }
  | some r ↦ error
]

unfoldable pub record_number : RecNumber → ℕ → ℕ → ℕ
record_number (at n) errorpos recsize = n
record_number next errorpos recsize = if errorpos == 0 then 1 else 2 + (errorpos - 1) / recsize

-- `rest` is msglen - stapos.
unfoldable pub wrtlen : Bool → ℕ → ℕ → ℕ → ℕ
wrtlen partial_ok cb recsize rest =
    let pcblen = if ltb recsize rest then recsize else rest in
    let w =
      if cb == 0
      then 0
      else if leb cb rest
      then (if partial_ok then cb - 1 else if leb cb recsize then 0 else recsize)
      else rest in
    if ltb pcblen w then pcblen else w

-- A number stored in an SWORD
unfoldable pub sword : ℕ → ℤ
sword n = let low = n % 65536 in if ltb low 0x8000 then pos low else negsuc (65535 - low)

-- (n - 1) * recsize, in an SWORD
unfoldable pub start_position : ℕ → ℕ → ℤ
unfolding sword
start_position zero recsize = neg_ℕ recsize
start_position (suc n) recsize = sword (n * recsize)

-- The last part, for a position inside the message: what is stored, and what stays of the error.
unfoldable pub extract :
    (msglen stapos : ℕ) → ErrorInfo → ℕ → Bool → ℕ → Bool → Bool → Option ErrorInfo × Reply
unfolding wrtlen
extract msglen stapos error recsize buffer cb partial_ok clear_str =
    let rest = msglen - stapos in
    let w = wrtlen partial_ok cb recsize rest in
    (
      if clear_str
          then (if leb msglen (stapos + w)
              then none
              else some (record error { errorpos = stapos + w }))
          else some error,
      reply (not (w == 0)) (if ltb recsize rest then recsize else rest)
          (if buffer && ltb 0 cb then some (take w (drop stapos error.error_message)) else none)
          error.status (take 6 error.sqlstate),
    )

-- By the signs of msglen and stapos
unfoldable pub extract_signed :
    (msglen stapos : ℤ) → ErrorInfo → ℕ → Bool → ℕ → Bool → Bool → Option ErrorInfo × Reply
unfolding extract
extract_signed (pos msglen) (pos stapos) error recsize buffer cb partial_ok clear_str =
    if ltb msglen stapos
    then (some error, no_data_found)
    else extract msglen stapos error recsize buffer cb partial_ok clear_str
extract_signed (negsuc m) (pos stapos) error recsize buffer cb partial_ok clear_str =
    (some error, no_data_found)
extract_signed (pos msglen) (negsuc n) error recsize buffer cb partial_ok clear_str =
    (some error, underrun)
extract_signed (negsuc m) (negsuc n) error recsize buffer cb partial_ok clear_str =
    if ltb n m then (some error, no_data_found) else (some error, underrun)

-- With the record size set. `buffer` is szErrorMsg, given or NULL.
unfoldable pub return_record :
    ErrorInfo → ℕ → RecNumber → Bool → ℕ → Bool → Bool → Option ErrorInfo × Reply
unfolding extract_signed record_number start_position sword
return_record error recsize rec buffer cb partial_ok clear_str =
    extract_signed (sword (length error.error_message))
      (start_position (record_number rec error.errorpos recsize) recsize) error recsize buffer cb
      partial_ok clear_str

-- The record size is set by then; the first clause is not reached.
unfoldable pub at_recsize :
    Option ℕ → ErrorInfo → RecNumber → Bool → ℕ → Bool → Bool → Option ErrorInfo × Reply
unfolding return_record
at_recsize none error rec buffer cb partial_ok clear_str = (some error, no_data_found)
at_recsize (some r) error rec buffer cb partial_ok clear_str =
    return_record error r rec buffer cb partial_ok clear_str

unfoldable pub er_return_error :
    Option ErrorInfo → RecNumber → Bool → ℕ → Bool → Bool → Option ErrorInfo × Reply
unfolding at_recsize first_recsize
er_return_error none rec buffer cb partial_ok clear_str = (none, no_data_found)
er_return_error (some error) rec buffer cb partial_ok clear_str =
    let e = first_recsize error cb in at_recsize e.recsize e rec buffer cb partial_ok clear_str
