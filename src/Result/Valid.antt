-- ===== src/Result/Valid.antt =====
-- vxodbc/results.cc: getNthValid, which finds the nth row that is not deleted, forward from a row
-- or backward from it.
pub mod Scan
pub mod Laws
use versaplex.Prelude.{
  ℕ, zero, suc, ◌+◌, ◌-◌, ltb, leb, ◌==◌, if◌then◌else◌, Bool, not, ◌||◌, List, [], ◌∷◌, Option,
  none, some, get_elem?,
}
use versaplex.Prelude.Int.{ℤ, pos, negsuc, neg_ℕ, sub_ℕ, pred_ℤ, at_most, is_negative}
use versaplex.Result.{KeySet, QResult, has_cursor, qr_get_num_total_tuples}

-- What comes back: `nearest`, and the result, which is `nth` or, when there are too few rows,
-- minus a count.
pub record Nth : Type 0 where
  pub nearest : ℤ
  pub found : ℤ

abbrev pub int_max : ℕ
int_max = 2147483647

-- The number of rows, INT_MAX as long as the end is not reached
unfoldable pub num_tuples : QResult → ℕ
unfolding qr_get_num_total_tuples
num_tuples res = if res.reached_eof then qr_get_num_total_tuples res else int_max

unfoldable pub is_valid : KeySet → Bool
is_valid key = not (key.status.self_deleting || key.status.self_deleted || key.status.other_deleted)

-- The loop over `deleted`, forward: `nearest` moves on for each deleted row from `sta` on that it
-- passes.
unfoldable pub pass_forward : List ℕ → ℕ → ℕ → ℕ
pass_forward [] sta nearest = nearest
pass_forward (d ∷ ds) sta nearest =
    let rest = pass_forward ds sta (if leb sta d then suc nearest else nearest) in
    if leb d nearest then rest else nearest

-- The loop backward, over the list from its end; a row below `upto` is one not above `sta`.
unfoldable pub pass_backward : List ℕ → ℕ → ℤ → ℤ
pass_backward [] upto nearest = nearest
pass_backward (d ∷ ds) upto nearest =
    let rest = pass_backward ds upto (if ltb d upto then pred_ℤ nearest else nearest) in
    if at_most nearest d then rest else nearest

-- One key of a scan with `count` valid ones seen, and what the scan goes on with. None is a read
-- behind the keyset.
unfoldable pub visit : Option KeySet → (i nth count : ℕ) → (rest rest_1 : Option Nth) → Option Nth
unfolding is_valid
visit none i nth count rest rest_1 = none
visit (some key) i nth count rest rest_1 =
    if is_valid key
    then (if suc count == nth then some (record { nearest = pos i; found = pos nth }) else rest_1)
    else rest

-- The keys from row i on, `fuel` of them
unfoldable pub scan_forward : List KeySet → (fuel i nth count : ℕ) → Option Nth
unfolding visit
scan_forward keys zero i nth count = some (record { nearest = pos i; found = neg_ℕ count })
scan_forward keys (suc fuel) i nth count =
    visit (get_elem? keys i) i nth count (scan_forward keys fuel (suc i) nth count)
      (scan_forward keys fuel (suc i) nth (suc count))

-- The keys of the rows below `upto`, from the last one down
unfoldable pub scan_backward : List KeySet → (upto nth count : ℕ) → Option Nth
unfolding visit
scan_backward keys zero nth count = some (record { nearest = negsuc 0; found = neg_ℕ count })
scan_backward keys (suc i) nth count =
    visit (get_elem? keys i) i nth count (scan_backward keys i nth count)
      (scan_backward keys i nth (suc count))

abbrev pub or_empty {ℓ} : {A : Type ℓ} → Option (List A) → List A
or_empty none = []
or_empty (some xs) = xs

abbrev pub reverse_onto : List ℕ → List ℕ → List ℕ
reverse_onto [] ys = ys
reverse_onto (x ∷ xs) ys = reverse_onto xs (x ∷ ys)

-- The row `nearest`, or the end of the result with the distance to it
unfoldable pub up_to_end : (nearest total sta nth : ℕ) → Nth
up_to_end nearest total sta nth =
    if ltb nearest total
    then record { nearest = pos nearest; found = pos nth }
    else record { nearest = pos total; found = sub_ℕ sta total }

-- SQL_FETCH_NEXT and the others but SQL_FETCH_PRIOR, from row `sta` on; `nth` is 1 or more.
unfoldable pub next_valid : QResult → (sta nth : ℕ) → Option Nth
unfolding num_tuples pass_forward scan_forward up_to_end
next_valid res sta nth =
    let total = num_tuples res in
    if res.dl_count == 0
    then some (up_to_end (sta + nth - 1) total sta nth)
    else if has_cursor res
    then some (up_to_end (pass_forward (or_empty res.deleted) sta (sta + nth - 1)) total sta nth)
    else if leb total sta
    then some (record { nearest = pos total; found = pos 0 })
    else scan_forward (or_empty res.keyset) (total - sta) sta nth 0

-- SQL_FETCH_PRIOR, from row `upto - 1` down, which is `sta`: `upto` is 0 where `sta` is -1.
unfoldable pub prior_valid : QResult → (upto nth : ℕ) → Option Nth
unfolding pass_backward scan_backward
prior_valid res upto nth =
    let passed =
      pass_backward (reverse_onto (or_empty res.deleted) []) upto (sub_ℕ (upto + nth) 2) in
    if res.dl_count == 0
    then (if leb nth upto
        then some (record { nearest = pos (upto - nth); found = pos nth })
        else some (record { nearest = negsuc 0; found = neg_ℕ upto }))
    else if has_cursor res
    then (if is_negative passed
        then some (record { nearest = negsuc 0; found = neg_ℕ upto })
        else some (record { nearest = passed; found = pos nth }))
    else scan_backward (or_empty res.keyset) upto nth 0
