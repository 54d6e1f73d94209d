-- ===== src/Fetch/Run.antt =====
-- vxodbc/results.cc: PGAPI_ExtendedFetch behind its switch over the fetch types, and around it.
use versaplex.Prelude.{ℕ, suc, leb, if◌then◌else◌, Bool, true, false, not, ◌&&◌, none, some}
use versaplex.Prelude.Int.{ℤ, pos, negsuc, add_ℤ}
use versaplex.Result.{QResult, qr_get_num_total_tuples, not_moving}
use versaplex.Result.Cache.{qr_set_rowstart_in_cache}
use versaplex.Fetch.{FetchType, Fetching, sc_set_rowset_start, Placed}
use versaplex.Fetch.Place.{place_rowset}
use versaplex.Fetch.{fetch_next, placed, at_bof, at_eof, refused, outside}

-- SQL_NO_DATA_FOUND, the rows to fetch, SQL_ERROR, or a read outside the keyset
pub data FetchResult : Type 0 where
  no_data fetch_rows sql_error : Fetching → FetchResult
  bad_read : FetchResult

-- EXTFETCH_RETURN_BOF and EXTFETCH_RETURN_EOF
unfoldable pub return_at : Fetching → ℤ → FetchResult
unfolding sc_set_rowset_start
return_at s start = no_data (record (sc_set_rowset_start s start true) { curr_tuple = negsuc 0 })

-- The cache is set to the rowset, and the current row to the one before it.
unfoldable pub start_rows : Fetching → (rowset_size : ℕ) → FetchResult
unfolding qr_set_rowstart_in_cache
start_rows s rowset_size =
    let sized : QResult = record s.res { rowset_size_include_ommitted = rowset_size } in
    fetch_rows (record s {
      curr_tuple = add_ℤ s.rowset_start (negsuc 0);
      res = qr_set_rowstart_in_cache sized s.rowset_start;
    })

-- Behind the switch: `row` is the new start, and `should_set` whether it is still to be set.
unfoldable pub settle :
    Fetching → (num_tuples rowset_size : ℕ) → (row : ℤ) → (should_set : Bool) → FetchResult
unfolding return_at start_rows sc_set_rowset_start
settle s num_tuples rowset_size (pos row) should_set =
    if leb num_tuples row
    then return_at s (pos num_tuples)
    else if should_set
    then start_rows (sc_set_rowset_start s (pos row) true) rowset_size
    else start_rows s rowset_size
settle s num_tuples rowset_size (negsuc n) should_set =
    if leb rowset_size (suc n)
    then return_at s (negsuc 0)
    else start_rows (sc_set_rowset_start s (pos 0) true) rowset_size

unfoldable pub conclude : (num_tuples rowset_size : ℕ) → Placed → FetchResult
unfolding settle return_at
conclude num_tuples rowset_size (placed s none) =
    settle s num_tuples rowset_size s.rowset_start false
conclude num_tuples rowset_size (placed s (some row)) = settle s num_tuples rowset_size row true
conclude num_tuples rowset_size (at_bof s) = return_at s (negsuc 0)
conclude num_tuples rowset_size (at_eof s) = return_at s (pos num_tuples)
conclude num_tuples rowset_size (refused s) = sql_error s
conclude num_tuples rowset_size outside = bad_read

-- `forward_only` says that the cursor is SQL_CURSOR_FORWARD_ONLY.
unfoldable pub is_next : FetchType → Bool
is_next fetch_next = true
is_next _ = false

unfoldable pub extended_fetch : (forward_only : Bool) → Fetching → FetchType → ℕ → FetchResult
unfolding is_next qr_get_num_total_tuples place_rowset conclude
extended_fetch forward_only s fetch_type rowset_size =
    let num_tuples = qr_get_num_total_tuples s.res in
    let t : Fetching = record s {
      before_recordset = false;
      save_rowset_size = negsuc 0;
      res = record s.res { move_direction = not_moving; move_offset = 0 };
    } in
    if forward_only && not (is_next fetch_type)
    then sql_error (record s { before_recordset = false })
    else conclude num_tuples rowset_size
        (place_rowset t s.save_rowset_size num_tuples rowset_size fetch_type)
