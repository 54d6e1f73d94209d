-- ===== src/Tests/Fetch.antt =====
-- PGAPI_ExtendedFetch of vxodbc/results.cc at concrete inputs.
use versaplex.Prelude.{◌≤◌, ◌≡◌, ◌⊎◌, refl, arith, false, none}
use versaplex.Prelude.Int.{pos, negsuc}
use versaplex.Result.{QResult, qr_get_num_total_tuples}
use versaplex.Fetch.{Fetching, fetch_next, fetch_prior, fetch_relative}
use versaplex.Fetch.Run.{no_data, fetch_rows, extended_fetch}
use versaplex.Fetch.Laws.{Positioned, extended_fetch-Positioned}
use versaplex.Fetch.Scroll.{prior-next}
use versaplex.Tests.Result.{five_rows}

abbrev no_keys : QResult
no_keys = record five_rows {
  keyset = none;
  has_keyset = false;
  dl_count = 0;
  deleted = none;
  deleted_keyset = none;
}

abbrev at_1 : Fetching
at_1 = record {
  res = no_keys;
  rowset_start = pos 1;
  curr_tuple = pos 1;
  save_rowset_size = negsuc 0;
  last_fetch_count = 2;
  last_fetch_count_include_ommitted = 2;
  before_recordset = false;
}

some_rows : 1 ≤ qr_get_num_total_tuples no_keys
unfolding qr_get_num_total_tuples
some_rows = omega arith

extended_fetch-Positioned_example :
    Positioned
      (qr_get_num_total_tuples no_keys)
      (extended_fetch false at_1 (fetch_relative (negsuc 4)) 2)
extended_fetch-Positioned_example =
    extended_fetch-Positioned false at_1 (fetch_relative (negsuc 4)) 2 some_rows

prior-next_example :
    ((u : Fetching) × (extended_fetch false at_1 fetch_next 2 ≡ no_data u)
      × (qr_get_num_total_tuples no_keys ≤ 3))
    ⊎ ((u : Fetching) × (w : Fetching) × (extended_fetch false at_1 fetch_next 2 ≡ fetch_rows u)
        × (u.rowset_start ≡ pos 3)
        × (extended_fetch false u fetch_prior 2 ≡ fetch_rows w)
        × (w.rowset_start ≡ pos 1))
prior-next_example = prior-next at_1 1 1 (refl, refl, refl, refl)
