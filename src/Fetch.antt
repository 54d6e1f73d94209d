-- ===== src/Fetch.antt =====
-- vxodbc/results.cc: how PGAPI_ExtendedFetch finds the rowset to fetch, up to its loop over the
-- rows, with SC_set_rowset_start and SC_inc_rowset_start of vxodbc/statement.cc. A statement has a
-- result, whose state, bindings and bookmark column are in order. The rowset has one row at least.
pub mod Place
pub mod Run
pub mod Laws
pub mod Scroll
use versaplex.Prelude.{
  ℕ, zero, suc, ◌+◌, ◌-◌, ltb, leb, ◌==◌, if◌then◌else◌, Bool, true, false, not, ◌&&◌, Option, none,
  some,
}
use versaplex.Prelude.Int.{ℤ, pos, negsuc, sub_ℕ, add_ℤ, neg_ℤ, at_most, at_least, is_negative}
use versaplex.Result.{
  QResult, has_cursor, qr_get_num_total_tuples, MoveDirection, not_moving, from_the_last,
}
use versaplex.Result.Cache.{qr_set_rowstart_in_cache, qr_inc_rowstart_in_cache, is_null}
use versaplex.Result.Valid.{Nth, next_valid, prior_valid}

pub data FetchType : Type 0 where
  fetch_next fetch_prior fetch_first fetch_last fetch_other : FetchType
  fetch_absolute fetch_relative : (irow : ℤ) → FetchType
  fetch_bookmark : (bidx bookmark_offset : ℤ) → FetchType

-- The fields of the statement that the search reads or changes. `before_recordset` says that the
-- error is STMT_POS_BEFORE_RECORDSET.
pub record Fetching : Type 0 where
  pub res : QResult
  pub rowset_start : ℤ
  pub curr_tuple : ℤ
  pub save_rowset_size : ℤ
  pub last_fetch_count : ℕ
  pub last_fetch_count_include_ommitted : ℕ
  pub before_recordset : Bool

-- The result object's part of SC_set_rowset_start, for a change by `incr`
unfoldable pub res_rowset_start : QResult → (start incr : ℤ) → (valid_base : Bool) → QResult
unfolding qr_set_rowstart_in_cache qr_inc_rowstart_in_cache
res_rowset_start res start incr valid_base =
    let based : QResult =
      if res.has_valid_base
      then (if valid_base
          then qr_inc_rowstart_in_cache res incr
          else record res { has_valid_base = false })
      else if valid_base
      then qr_set_rowstart_in_cache (record res { has_valid_base = true })
          (if is_negative start then negsuc 0 else pos 0)
      else res in
    if has_cursor res then based else record based { key_base = start }

unfoldable pub sc_set_rowset_start : Fetching → ℤ → Bool → Fetching
unfolding res_rowset_start
sc_set_rowset_start s start valid_base = record s {
  res = res_rowset_start s.res start (add_ℤ start (neg_ℤ s.rowset_start)) valid_base;
  rowset_start = start;
}

unfoldable pub sc_inc_rowset_start : Fetching → ℤ → Fetching
unfolding sc_set_rowset_start
sc_inc_rowset_start s inc = sc_set_rowset_start s (add_ℤ s.rowset_start inc) true

unfoldable pub move_from_the_last : QResult → ℕ → QResult
move_from_the_last res offset = record res { move_direction = from_the_last; move_offset = offset }

-- Where the switch over the fetch types leads: `placed` with the row it found, or with none if the
-- statement has its rowset start already. Outside is a read outside the keyset.
pub data Placed : Type 0 where
  placed : Fetching → Option ℤ → Placed
  at_bof at_eof : Fetching → Placed
  refused : Fetching → Placed
  outside : Placed
