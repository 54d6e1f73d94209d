-- ===== src/Diagnostics/Drain.antt =====
-- Repeated requests to `ER_ReturnError` hand out the whole message (vxodbc/environ.cc).
use native.Mathlib.Nat.{le-div_iff_mul-le, div-lt_iff_lt-mul}
use mathlib.Core.List.{append-nil}
use versaplex.Prelude.{
  take_all, ℕ, zero, suc, ◌+◌, ◌-◌, ◌*◌, ◌/◌, ◌≤◌, ◌<◌, ltb, leb, ◌==◌, if◌then◌else◌, Bool, true,
  false, [], ◌++◌, Option, none, some, Bytes, length, take, drop, ◌≡◌, refl, sym, ap, ◌∙◌, arith,
  take-append-drop, length-drop, drop-drop, dec_lt, lt→ltb,
}
use versaplex.Prelude.Int.{pos}
use versaplex.Diagnostics.Laws.{sword-small}
use versaplex.Diagnostics.{
  ErrorInfo, er_constructor, next, Reply, reply, first_recsize, record_number, wrtlen, sword,
  start_position, extract, extract_signed, return_record, at_recsize, er_return_error,
}

-- The texts of the requests for the next record with the error cleared behind them, until there
-- is none left.
prepend : Reply → Option Bytes → Option Bytes
prepend (reply success pcb (some t) native_error state) (some rest) = some (t ++ rest)
prepend _ _ = none

unfoldable pub drain : ℕ → Option ErrorInfo → ℕ → Bool → Option Bytes
unfolding prepend
drain fuel none cb partial_ok = some []
drain zero (some e) cb partial_ok = none
drain (suc fuel) (some e) cb partial_ok =
    let r = er_return_error (some e) next true cb partial_ok true in
    prepend r.1 (drain fuel r.0 cb partial_ok)

quotient_lem : (k r : ℕ) → (suc k * suc r - 1) / suc r ≡ k
quotient_lem k r =
    let e : suc k * suc r ≡ k * suc r + suc r = ground arith in
    let z : 0 < suc r = omega arith in
    let lo : k ≤ (suc k * suc r - 1) / suc r = (le-div_iff_mul-le z).1 (omega (arith, e)) in
    let hi : (suc k * suc r - 1) / suc r < suc k = (div-lt_iff_lt-mul z).1 (omega (arith, e)) in
    omega (arith, lo, hi)

record_number_lem : (k r : ℕ) → record_number next (k * suc r) (suc r) ≡ suc k
unfolding record_number
record_number_lem zero r = let e : 0 * suc r ≡ 0 = omega arith in rw e refl
record_number_lem (suc k) r =
    let e : suc k * suc r ≡ k * suc r + suc r = ground arith in
    let ne : (suc k * suc r == 0) ≡ false = ground (arith, e) in
    rw ne (omega (arith, quotient_lem k r))

wrtlen_lem :
    (partial_ok : Bool) (r rest : ℕ)
    → wrtlen partial_ok (suc (suc r)) (suc r) rest ≡ (if ltb (suc r) rest then suc r else rest)
unfolding wrtlen
wrtlen_lem partial_ok r rest = ground arith

-- With records of `suc r` bytes, all that one request does at the position of record k + 1.
next_record :
    (e : ErrorInfo) (k r : ℕ) (partial_ok : Bool)
    → e.recsize ≡ some (suc r)
    → e.errorpos ≡ k * suc r
    → e.errorpos ≤ length e.error_message
    → length e.error_message < 0x8000
    → er_return_error (some e) next true (suc (suc r)) partial_ok true
      ≡ extract (length e.error_message) e.errorpos e (suc r) true (suc (suc r)) partial_ok true
unfolding er_return_error at_recsize return_record extract_signed first_recsize start_position
next_record e k r partial_ok size at_record inside short =
    let n : record_number next e.errorpos (suc r) ≡ suc k = rw at_record (record_number_lem k r) in
    let all = sword-small (length e.error_message) short in
    let start : sword (k * suc r) ≡ pos (k * suc r) =
      sword-small (k * suc r) (omega (arith, at_record, inside, short)) in
    let not_behind : ltb (length e.error_message) (k * suc r) ≡ false = ground (arith, at_record) in
    rw size (rw n (rw (all, start) (rw not_behind (rw (sym at_record) refl))))

drain_from :
    (fuel : ℕ) (e : ErrorInfo) (k r : ℕ) (partial_ok : Bool)
    → e.recsize ≡ some (suc r)
    → e.errorpos ≡ k * suc r
    → e.errorpos ≤ length e.error_message
    → length e.error_message < 0x8000
    → length e.error_message - e.errorpos < fuel
    → drain fuel (some e) (suc (suc r)) partial_ok ≡ some (drop e.errorpos e.error_message)
unfolding drain prepend extract
drain_from zero e k r partial_ok size at_record inside short h = absurd (omega arith)
drain_from (suc fuel) e k r partial_ok size at_record inside short h =
    let msglen = length e.error_message in
    let rest = msglen - e.errorpos in
    let w = wrtlen_lem partial_ok r rest in
    let room : ltb 0 (suc (suc r)) ≡ true = ground arith in
    let at_pos = length-drop e.errorpos e.error_message in
    rw (next_record e k r partial_ok size at_record inside short) (
      rw w (elim (dec_lt (suc r) rest) [
        | yes more ↦
            let next_pos : e.errorpos + suc r ≡ suc k * suc r = ground (arith, at_record) in
            let e' : ErrorInfo = record e { errorpos = e.errorpos + suc r } in
            let big : ltb (suc r) rest ≡ true = lt→ltb (suc r) rest more in
            let left : leb msglen (e.errorpos + suc r) ≡ false = ground arith in
            let ih =
              drain_from fuel e' (suc k) r partial_ok size next_pos (omega arith) short
                (omega arith) in
            rw big (
              rw left (
                rw ih (
                  rw room (
                    ap some (
                      ap (◌++◌ (take (suc r) (drop e.errorpos e.error_message)))
                        (sym (drop-drop (suc r) e.errorpos e.error_message))
                      ∙ take-append-drop (suc r) (drop e.errorpos e.error_message))))))
        | no last ↦
            let small : ltb (suc r) rest ≡ false = ground arith in
            let over : leb msglen (e.errorpos + rest) ≡ true = ground arith in
            let all : take rest (drop e.errorpos e.error_message)
                ≡ drop e.errorpos e.error_message =
              take_all rest (drop e.errorpos e.error_message) (omega (arith, at_pos)) in
            rw small
              (rw over (rw all (rw room (ap some (append-nil (drop e.errorpos e.error_message))))))
      ]))

-- The first request fixes the size of the records.
sized_first :
    (e : ErrorInfo) (r : ℕ)
    → e.recsize ≡ none
    → first_recsize e (suc (suc r)) ≡ record e { recsize = some (suc r) }
unfolding first_recsize
sized_first e r size =
    let less : suc (suc r) - 1 ≡ suc r = omega arith in
    let room : ltb 0 (suc (suc r)) ≡ true = ground arith in rw size (rw room (rw less refl))

sized_again :
    (e : ErrorInfo) (r : ℕ)
    → first_recsize (record e { recsize = some (suc r) }) (suc (suc r))
      ≡ record e { recsize = some (suc r) }
unfolding first_recsize
sized_again e r = refl

first_request :
    (e : ErrorInfo) (r : ℕ) (partial_ok : Bool)
    → e.recsize ≡ none
    → er_return_error (some e) next true (suc (suc r)) partial_ok true
      ≡ er_return_error
          (some (record e { recsize = some (suc r) }))
          next
          true
          (suc (suc r))
          partial_ok
          true
unfolding er_return_error
first_request e r partial_ok size =
    let f = λ (k : ErrorInfo). at_recsize k.recsize k next true (suc (suc r)) partial_ok true in
    ap f (sized_first e r size) ∙ sym (ap f (sized_again e r))

-- The whole message of an error, of fewer than 2 ^ 15 bytes, is handed out, by at most one request for each byte and one more, when
-- the application keeps to a buffer of `suc (suc r)` bytes, that is of two or more.
pub drain-er_constructor :
    (status : ℕ) (msg : Bytes) (r : ℕ) (partial_ok : Bool)
    → length msg < 0x8000
    → drain (suc (length msg)) (er_constructor (suc status) (some msg)) (suc (suc r)) partial_ok
      ≡ some msg
unfolding er_constructor drain
drain-er_constructor status msg r partial_ok short =
    let e : ErrorInfo = record {
      status = suc status;
      errorsize = some (length msg);
      recsize = none;
      errorpos = 0;
      sqlstate = [];
      diag_row_count = 0;
      error_message = msg;
    } in
    let sized : ErrorInfo = record e { recsize = some (suc r) } in
    let cb = suc (suc r) in
    let rest =
      λ (o : Option ErrorInfo × Reply). prepend o.1 (drain (length msg) o.0 cb partial_ok) in
    ap rest (first_request e r partial_ok refl)
    ∙ drain_from (suc (length msg)) sized 0 r partial_ok refl (omega arith) (omega arith) short
        (omega arith)
