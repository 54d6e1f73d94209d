-- ===== src/Tests/Result.antt =====
-- vxodbc/qresult.cc and the deleted rows of vxodbc/results.cc at concrete inputs.
use versaplex.Prelude.{
  ℕ, zero, suc, ◌≤◌, ◌==◌, ◌||◌, ◌≡◌, refl, arith, true, false, List, [], ◌∷◌, some, none, codes,
  length,
}
use versaplex.Prelude.Int.{pos}
use versaplex.Result.{
  KeySet, QResult, pores_empty_query, not_moving, no_status, qr_get_num_total_tuples,
}
use versaplex.Result.Valid.{is_valid, num_tuples, next_valid, prior_valid, or_empty}
use versaplex.Result.Valid.Scan.{is_deleted, Ascending, asc_nil, asc_cons, Agrees, SameRow}
use versaplex.Result.Valid.Laws.{next_valid-SameRow, prior_valid-moves_on}
use versaplex.Result.Deleted.{
  added, overrun, deleted_status, marked_deleted, position, store_at, store_deleted, add_more,
  add_by_block, add_deleted,
}
use versaplex.Result.Deleted.Remove.{remove_deleted}
use versaplex.Result.Deleted.RoundTrip.{add_deleted-Ascending, remove_deleted-add_deleted}
use versaplex.Result.Deleted.Room.{add_deleted-overrun}
use versaplex.Result.Cache.Rows.{qr_add_new, rows_of}
use versaplex.Result.Cache.Room.{Appended, qr_add_new-Appended}

-- Five rows of one field, all read, of which two are deleted
abbrev key : KeySet
key = record { status = no_status; offset = 1; blocknum = 2; oid = 3 }

abbrev gone : KeySet
gone = record key { status = record no_status { self_deleted = true } }

abbrev five_keys : List KeySet
five_keys = key ∷ gone ∷ key ∷ gone ∷ key ∷ []

abbrev pub five_rows : QResult
five_rows = record {
  column_count = 1;
  num_fields = 1;
  rstatus = pores_empty_query;
  message = none;
  notice = none;
  command = none;
  cursor_name = some (codes "c");
  fetching_tuples = false;
  reached_eof = true;
  has_valid_base = true;
  has_keyset = false;
  withhold = false;
  hold_permanent = false;
  synchronize_keys = false;
  num_total_read = 5;
  num_cached_rows = 2;
  num_cached_keys = 5;
  count_backend_allocated = 2;
  count_keyset_allocated = 5;
  backend_tuples = some (some (some (codes "a") ∷ []) ∷ some (none ∷ []) ∷ []);
  keyset = some five_keys;
  fetch_number = pos 0;
  curs_tuple = pos 0;
  base = pos 0;
  key_base = pos 0;
  move_offset = 0;
  move_direction = not_moving;
  cache_size = 0;
  rowset_size_include_ommitted = 1;
  ad_count = 0;
  added_keyset = none;
  dl_alloc = 4;
  dl_count = 2;
  deleted = some (1 ∷ 3 ∷ []);
  deleted_keyset = some (some key ∷ some key ∷ none ∷ none ∷ []);
}

ascending : Ascending 0 (1 ∷ 3 ∷ [])
ascending = asc_cons (omega arith) (asc_cons (omega arith) asc_nil)

agrees : Agrees five_keys (1 ∷ 3 ∷ []) 0 (num_tuples five_rows)
unfolding is_valid is_deleted num_tuples qr_get_num_total_tuples
agrees zero l k = (key, refl, refl)
agrees (suc zero) l k = (gone, refl, refl)
agrees (suc (suc zero)) l k = (key, refl, refl)
agrees (suc (suc (suc zero))) l k = (gone, refl, refl)
agrees (suc (suc (suc (suc zero)))) l k = (key, refl, refl)
agrees (suc (suc (suc (suc (suc j))))) l k = absurd (omega arith)

rows : num_tuples five_rows ≡ 5
unfolding num_tuples qr_get_num_total_tuples
rows = refl

next_valid-SameRow_example :
    SameRow
      (num_tuples five_rows)
      2
      (next_valid (record five_rows { cursor_name = some (codes "c") }) 1 2)
      (next_valid (record five_rows { cursor_name = none }) 1 2)
next_valid-SameRow_example =
    next_valid-SameRow five_rows (codes "c") (1 ∷ 3 ∷ []) five_keys 1 1 refl refl refl
      (omega (arith, rows)) ascending agrees

-- Past the deleted rows 1 and 3, the second row from 1 on is 4.
second : next_valid five_rows 1 2 ≡ some (record { nearest = pos 4; found = pos 2 })
unfolding next_valid num_tuples qr_get_num_total_tuples
second = refl

prior_valid-moves_on_example :
    prior_valid five_rows 4 2 ≡ some (record { nearest = pos 4; found = pos 2 })
prior_valid-moves_on_example = prior_valid-moves_on five_rows (codes "c") 4 0 refl refl

abbrev three_deleted : QResult
three_deleted = record five_rows {
  dl_count = 3;
  deleted = some (1 ∷ 2 ∷ 3 ∷ []);
  deleted_keyset = some (
      some key
      ∷ some (record key { status = record no_status { public_info = 1; self_deleted = true } })
      ∷ some key
      ∷ none
      ∷ []);
}

not_yet : is_deleted 2 (1 ∷ 3 ∷ []) ≡ false
unfolding is_deleted
not_yet = refl

add_2 : add_deleted true true five_rows 2 key ≡ added three_deleted true
unfolding add_deleted add_by_block add_more store_deleted position store_at marked_deleted
    deleted_status
add_2 = refl

add_deleted-Ascending_example :
    Ascending 0 (or_empty three_deleted.deleted)
    × (three_deleted.dl_count ≡ length (or_empty three_deleted.deleted))
    × ((j : ℕ)
        → is_deleted j (or_empty three_deleted.deleted)
          ≡ (j == 2) || is_deleted j (or_empty five_rows.deleted))
add_deleted-Ascending_example =
    add_deleted-Ascending true true five_rows three_deleted 2 key refl ascending not_yet add_2

remove_deleted-add_deleted_example :
    (r1 : QResult) × (remove_deleted three_deleted (pos 2) ≡ some r1)
    × (r1.deleted ≡ some (1 ∷ 3 ∷ []))
    × (r1.dl_count ≡ 2)
remove_deleted-add_deleted_example =
    remove_deleted-add_deleted true true five_rows three_deleted 2 key refl not_yet add_2

below_8 : (j : ℕ) → is_deleted j (1 ∷ 3 ∷ []) ≡ true → j ≤ 7
unfolding is_deleted
below_8 j h = ground arith

add_deleted-overrun_example :
    add_deleted true true (record five_rows { num_fields = 2 }) 7 key ≡ overrun
add_deleted-overrun_example =
    add_deleted-overrun true true (record five_rows { num_fields = 2 }) 7 key (1 ∷ 3 ∷ [])
      (some key ∷ some key ∷ none ∷ none ∷ []) refl refl refl refl (omega arith) below_8
      (omega arith)

qr_add_new-Appended_example :
    Appended (rows_of five_rows.backend_tuples) 2 1 (qr_add_new true five_rows)
qr_add_new-Appended_example = qr_add_new-Appended five_rows refl (refl, omega arith, omega arith)
