-- ===== src/Fetch/Place.antt =====
-- vxodbc/results.cc: the switch over the fetch types of PGAPI_ExtendedFetch.
use versaplex.Prelude.{
  ℕ, zero, suc, ◌+◌, ◌-◌, ltb, leb, ◌==◌, if◌then◌else◌, Bool, true, false, not, ◌&&◌, Option, none,
  some,
}
use versaplex.Prelude.Int.{ℤ, pos, negsuc, sub_ℕ, add_ℤ, neg_ℤ, at_most, at_least, is_negative}
use versaplex.Result.{has_cursor}
use versaplex.Result.Cache.{is_null}
use versaplex.Result.Valid.{Nth, next_valid, prior_valid}
use versaplex.Fetch.{
  FetchType, Fetching, sc_set_rowset_start, sc_inc_rowset_start, move_from_the_last, Placed,
}
use versaplex.Fetch.{
  fetch_next, fetch_prior, fetch_first, fetch_last, fetch_other, fetch_absolute, fetch_relative,
  fetch_bookmark, placed, at_bof, at_eof, refused, outside,
}

-- getNthValid with SQL_FETCH_NEXT from `sta`, which is not before the first row: EOF if there are
-- too few rows.
unfoldable pub from_next : Fetching → Option Nth → Placed
from_next s none = outside
from_next s (some n) = if at_most n.found 0 then at_eof s else placed s (some n.nearest)

unfoldable pub place_next : Fetching → (sta : ℤ) → (nth : ℕ) → Placed
unfolding from_next next_valid
place_next s (pos sta) nth = from_next s (next_valid s.res sta nth)
place_next s (negsuc n) nth = outside

unfoldable pub from_prior : Fetching → Option Nth → Placed
from_prior s none = outside
from_prior s (some n) = if at_most n.found 0 then at_bof s else placed s (some n.nearest)

-- The rows up to `sta`, and none before the first
abbrev pub up_to : ℤ → ℕ
up_to (pos sta) = suc sta
up_to (negsuc n) = 0

unfoldable pub place_prior : Fetching → (sta : ℤ) → (nth : ℕ) → Placed
unfolding from_prior prior_valid
place_prior s sta nth = from_prior s (prior_valid s.res (up_to sta) nth)

abbrev pub size_or : ℤ → ℕ → ℕ
size_or (pos zero) rowset_size = rowset_size
size_or (pos (suc n)) rowset_size = suc n
size_or (negsuc n) rowset_size = rowset_size

-- SQL_FETCH_NEXT for a result with keys, from a start that is not negative
unfoldable pub next_by_keys : Fetching → (progress_size : ℕ) → Placed
unfolding sc_inc_rowset_start place_next
next_by_keys s progress_size =
    let passed = leb s.last_fetch_count progress_size in
    let t : Fetching =
      if passed then sc_inc_rowset_start s (pos s.last_fetch_count_include_ommitted) else s in
    let left = if passed then progress_size - s.last_fetch_count else progress_size in
    if left == 0 then placed t none else place_next t t.rowset_start (suc left)

unfoldable pub place_next_rowset : Fetching → (save_rowset_size : ℤ) → (rowset_size : ℕ) → Placed
unfolding next_by_keys sc_set_rowset_start sc_inc_rowset_start
place_next_rowset s save rowset_size =
    let progress_size = size_or save rowset_size in
    if is_negative s.rowset_start
    then placed (sc_set_rowset_start s (pos 0) true) none
    else if is_null s.res.keyset
    then placed (sc_inc_rowset_start s (pos progress_size)) none
    else next_by_keys s progress_size

-- The last rowset of the result
abbrev pub last_start : (num_tuples rowset_size : ℕ) → ℤ
last_start num_tuples rowset_size = if num_tuples == 0 then pos 0 else sub_ℕ num_tuples rowset_size

abbrev pub is_below_minus_1 : ℤ → Bool
is_below_minus_1 (negsuc (suc n)) = true
is_below_minus_1 _ = false

unfoldable pub prior_by_keys : Fetching → Option Nth → Placed
unfolding sc_set_rowset_start
prior_by_keys s none = outside
prior_by_keys s (some n) =
    if is_below_minus_1 n.found
    then placed (sc_set_rowset_start (record s { before_recordset = true }) (pos 0) true) none
    else if at_most n.found 0
    then at_bof s
    else placed s (some n.nearest)

unfoldable pub place_prior_rowset : Fetching → (num_tuples rowset_size : ℕ) → Placed
unfolding prior_by_keys prior_valid sc_set_rowset_start sc_inc_rowset_start
place_prior_rowset s num_tuples rowset_size =
    let too_few : Fetching = record s {
      before_recordset = if ltb num_tuples rowset_size then true else s.before_recordset;
    } in
    if at_most s.rowset_start 0
    then at_bof s
    else if at_least s.rowset_start num_tuples
    then placed (sc_set_rowset_start too_few (last_start num_tuples rowset_size) true) none
    else if s.res.has_keyset
    then prior_by_keys s (prior_valid s.res (up_to (add_ℤ s.rowset_start (negsuc 0))) rowset_size)
    else if not (at_least s.rowset_start rowset_size)
    then placed (sc_set_rowset_start (record s { before_recordset = true }) (pos 0) true) none
    else placed (sc_inc_rowset_start s (neg_ℤ (pos rowset_size))) none

-- A row found, counted from the end of a result that may have more rows
abbrev pub from_end : Bool → ℕ → Placed → Placed
from_end reached_eof offset (placed s (some row)) =
    if reached_eof
    then placed s (some row)
    else placed (record s { res = move_from_the_last s.res offset }) (some row)
from_end reached_eof offset p = p

unfoldable pub place_absolute : Fetching → (num_tuples : ℕ) → (reached_eof : Bool) → ℤ → Placed
unfolding place_next place_prior move_from_the_last
place_absolute s num_tuples reached_eof (pos zero) = at_bof s
place_absolute s num_tuples reached_eof (pos (suc n)) = place_next s (pos 0) (suc n)
place_absolute s num_tuples reached_eof (negsuc n) =
    from_end reached_eof (suc n) (place_prior s (sub_ℕ num_tuples 1) (suc n))

unfoldable pub place_relative : Fetching → ℤ → Placed
unfolding place_next place_prior
place_relative s (pos zero) = placed s none
place_relative s (pos (suc n)) = place_next s (add_ℤ s.rowset_start (pos 1)) (suc n)
place_relative s (negsuc n) = place_prior s (add_ℤ s.rowset_start (negsuc 0)) (suc n)

unfoldable pub offset_from : Fetching → (bidx bookmark_offset : ℤ) → Placed
unfolding place_next place_prior
offset_from s bidx (pos n) = place_next s bidx (suc n)
offset_from s bidx (negsuc n) = place_prior s bidx (suc (suc n))

unfoldable pub place_bookmark :
    Fetching → (num_tuples : ℕ) → (reached_eof : Bool) → (bidx bookmark_offset : ℤ) → Placed
unfolding offset_from move_from_the_last
place_bookmark s num_tuples reached_eof (pos n) offset = offset_from s (pos n) offset
place_bookmark s num_tuples reached_eof (negsuc n) offset =
    let moved : Fetching =
      if reached_eof then s else record s { res = move_from_the_last s.res (s.res.ad_count - n) } in
    offset_from moved (sub_ℕ (num_tuples + n) s.res.ad_count) offset

unfoldable pub place_rowset :
    Fetching → (save_rowset_size : ℤ) → (num_tuples rowset_size : ℕ) → FetchType → Placed
unfolding sc_set_rowset_start place_next_rowset place_prior_rowset place_absolute place_relative
    place_bookmark move_from_the_last
place_rowset s save num_tuples rowset_size fetch_next = place_next_rowset s save rowset_size
place_rowset s save num_tuples rowset_size fetch_prior = place_prior_rowset s num_tuples rowset_size
place_rowset s save num_tuples rowset_size fetch_first =
    placed (sc_set_rowset_start s (pos 0) true) none
place_rowset s save num_tuples rowset_size fetch_last =
    let moved : Fetching =
      if s.res.reached_eof && has_cursor s.res
      then s
      else record s { res = move_from_the_last s.res rowset_size } in
    placed (sc_set_rowset_start moved (last_start num_tuples rowset_size) true) none
place_rowset s save num_tuples rowset_size (fetch_absolute irow) =
    place_absolute s num_tuples (s.res.reached_eof && has_cursor s.res) irow
place_rowset s save num_tuples rowset_size (fetch_relative irow) = place_relative s irow
place_rowset s save num_tuples rowset_size (fetch_bookmark bidx offset) =
    place_bookmark s num_tuples (s.res.reached_eof && has_cursor s.res) bidx offset
place_rowset s save num_tuples rowset_size fetch_other = refused s
