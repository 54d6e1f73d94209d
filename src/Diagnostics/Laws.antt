-- ===== src/Diagnostics/Laws.antt =====
-- How much `ER_ReturnError` stores, and what a buffer of one byte does (vxodbc/environ.cc).
use versaplex.Prelude.{
  ℕ, suc, ◌-◌, ◌<◌, ltb, leb, if◌then◌else◌, Bool, true, false, ◌&&◌, [], ◌∷◌, Option, none, some,
  Bytes, length, take, drop, ◌≡◌, refl, ap, ◌∙◌, arith, length-take,
}
use versaplex.Prelude.Int.{ℤ, pos, negsuc}
use versaplex.Diagnostics.{
  ErrorInfo, er_constructor, RecNumber, next, Reply, no_data_found, underrun, reply, first_recsize,
  record_number, wrtlen, sword, start_position, extract, extract_signed, return_record, at_recsize,
  er_return_error,
}

-- The text and its terminator have room.
pub data Fits (cb : ℕ) : Reply → Type 0 where
  no_data : Fits cb no_data_found
  under : Fits cb underrun
  unstored : {s : Bool} {p n : ℕ} {st : Bytes} → Fits cb (reply s p none n st)
  stored : {s : Bool} {p n : ℕ} {t st : Bytes} → length t < cb → Fits cb (reply s p (some t) n st)

wrtlen_room :
    (partial_ok : Bool) (cb recsize rest : ℕ) → 0 < cb → wrtlen partial_ok cb recsize rest < cb
unfolding wrtlen
wrtlen_room partial_ok cb recsize rest h = ground arith

Fits-if :
    (t : Bool) {cb : ℕ} (p q : Option ErrorInfo × Reply)
    → Fits cb p.1
    → Fits cb q.1
    → Fits cb (if t then p else q).1
Fits-if true p q h k = h
Fits-if false p q h k = k

text-Fits :
    (t : Bool) {s : Bool} {p n cb : ℕ} {st : Bytes} (w : ℕ) (text : Bytes)
    → (t ≡ true → w < cb)
    → Fits cb (reply s p (if t then some (take w text) else none) n st)
text-Fits true w text h = stored (omega (arith, length-take w text, h refl))
text-Fits false w text h = unstored

extract-Fits :
    (msglen stapos : ℕ) (e : ErrorInfo) (recsize : ℕ) (buffer : Bool) (cb : ℕ)
    (partial_ok clear_str : Bool)
    → Fits cb (extract msglen stapos e recsize buffer cb partial_ok clear_str).1
unfolding extract
extract-Fits msglen stapos e recsize buffer cb partial_ok clear_str =
    let rest = msglen - stapos in
    let text = drop stapos e.error_message in
    text-Fits (buffer && ltb 0 cb) (wrtlen partial_ok cb recsize rest) text
      (λ t. wrtlen_room partial_ok cb recsize rest (ground (arith, t)))

extract_signed-Fits :
    (msglen stapos : ℤ) (e : ErrorInfo) (recsize : ℕ) (buffer : Bool) (cb : ℕ)
    (partial_ok clear_str : Bool)
    → Fits cb (extract_signed msglen stapos e recsize buffer cb partial_ok clear_str).1
unfolding extract_signed
extract_signed-Fits (pos m) (pos n) e recsize buffer cb partial_ok clear_str =
    Fits-if (ltb m n) (some e, no_data_found) (extract m n e recsize buffer cb partial_ok clear_str)
      no_data (extract-Fits m n e recsize buffer cb partial_ok clear_str)
extract_signed-Fits (negsuc m) (pos n) e recsize buffer cb partial_ok clear_str = no_data
extract_signed-Fits (pos m) (negsuc n) e recsize buffer cb partial_ok clear_str = under
extract_signed-Fits (negsuc m) (negsuc n) e recsize buffer cb partial_ok clear_str =
    Fits-if (ltb n m) (some e, no_data_found) (some e, underrun) no_data under

return_record-Fits :
    (e : ErrorInfo) (recsize : ℕ) (rec : RecNumber) (buffer : Bool) (cb : ℕ)
    (partial_ok clear_str : Bool)
    → Fits cb (return_record e recsize rec buffer cb partial_ok clear_str).1
unfolding return_record
return_record-Fits e recsize rec buffer cb partial_ok clear_str =
    extract_signed-Fits (sword (length e.error_message))
      (start_position (record_number rec e.errorpos recsize) recsize) e recsize buffer cb partial_ok
      clear_str

at_recsize-Fits :
    (size : Option ℕ) (e : ErrorInfo) (rec : RecNumber) (buffer : Bool) (cb : ℕ)
    (partial_ok clear_str : Bool)
    → Fits cb (at_recsize size e rec buffer cb partial_ok clear_str).1
unfolding at_recsize
at_recsize-Fits none e rec buffer cb partial_ok clear_str = no_data
at_recsize-Fits (some r) e rec buffer cb partial_ok clear_str =
    return_record-Fits e r rec buffer cb partial_ok clear_str

-- What is stored in a buffer of `cb` bytes has room there with its terminator, at every request.
pub er_return_error-Fits :
    (error : Option ErrorInfo) (rec : RecNumber) (buffer : Bool) (cb : ℕ)
    (partial_ok clear_str : Bool)
    → Fits cb (er_return_error error rec buffer cb partial_ok clear_str).1
unfolding er_return_error
er_return_error-Fits none rec buffer cb partial_ok clear_str = no_data
er_return_error-Fits (some error) rec buffer cb partial_ok clear_str =
    at_recsize-Fits (first_recsize error cb).recsize (first_recsize error cb) rec buffer cb
      partial_ok clear_str

pub sword-small : (n : ℕ) → n < 0x8000 → sword n ≡ pos n
unfolding sword
sword-small n h = ground arith

-- The error as a first request with a buffer of one byte leaves it.
abbrev pub tiny : ℕ → Bytes → ErrorInfo
tiny status msg = record {
  status = status;
  errorsize = some (length msg);
  recsize = some 0;
  errorpos = 0;
  sqlstate = [];
  diag_row_count = 0;
  error_message = msg;
}

first_start : start_position (record_number next 0 0) 0 ≡ pos 0
unfolding start_position record_number sword
first_start = refl

tiny_request :
    (status c : ℕ) (msg : Bytes) (cb : ℕ) (partial_ok : Bool)
    → length (c ∷ msg) < 0x8000
    → er_return_error (some (tiny status (c ∷ msg))) next true (suc cb) partial_ok true
      ≡ (some (tiny status (c ∷ msg)), reply false 0 (some []) status [])
unfolding er_return_error at_recsize return_record extract_signed extract first_recsize
tiny_request status c msg cb partial_ok short =
    let n = length msg in
    let before : ltb (suc n) 0 ≡ false = ground arith in
    let rest : suc n - 0 ≡ suc n = omega arith in
    let w : wrtlen partial_ok (suc cb) 0 (suc n) ≡ 0 = unfold wrtlen in ground arith in
    let more : leb (suc n) 0 ≡ false = ground arith in
    let room : ltb 0 (suc cb) ≡ true = ground arith in
    let cut : ltb 0 (suc n) ≡ true = ground arith in
    let e = tiny status (c ∷ msg) in
    ap (λ stapos. extract_signed (sword (suc n)) stapos e 0 true (suc cb) partial_ok true)
      first_start
    ∙ ap (λ msglen. extract_signed msglen (pos 0) e 0 true (suc cb) partial_ok true)
        (sword-small (suc n) short)
    ∙ rw before (rw rest (rw w (rw more (rw room (rw cut refl)))))

-- A first request with a buffer of one byte stores nothing, and so does every request for the next
-- record after it, whatever its buffer: the message, of fewer than 2 ^ 15 bytes, is never handed out.
pub er_return_error_stuck :
    (status c : ℕ) (msg : Bytes) (cb : ℕ) (partial_ok : Bool)
    → length (c ∷ msg) < 0x8000
    → (e : Option ErrorInfo) × (er_return_error
          (er_constructor (suc status) (some (c ∷ msg)))
          next
          true
          1
          partial_ok
          true
        ≡ (e, reply false 0 (some []) (suc status) []))
      × (er_return_error e next true (suc cb) partial_ok true
          ≡ (e, reply false 0 (some []) (suc status) []))
er_return_error_stuck status c msg cb partial_ok short = (
  some (tiny (suc status) (c ∷ msg)),
  unfold er_return_error er_constructor first_recsize in
      tiny_request (suc status) c msg 0 partial_ok short,
  tiny_request (suc status) c msg cb partial_ok short,
)
