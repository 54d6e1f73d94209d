-- ===== src/Result/Cache.antt =====
-- vxodbc/qresult.cc: the life of a result object, its cursor, its messages, and the memory for its
-- rows and keys. Each allocation of memory for rows or keys takes a Boolean that says whether it
-- succeeds; the copies of strings always do. `keyset` holds the keys stored so far, for which there
-- is room for `count_keyset_allocated`. The chain of further results, and the memory of updated
-- rows and of rollbacks, are not kept.
pub mod Rows
pub mod Room
pub mod Growth
pub mod Cursor
use versaplex.Prelude.{
  ℕ, zero, suc, ◌+◌, ◌-◌, ◌*◌, ltb, leb, ◌==◌, if◌then◌else◌, Bool, true, false, ◌||◌, List, [],
  ◌∷◌, ◌++◌, Option, none, some, Bytes, codes, length, take, replicate,
}
use versaplex.Prelude.Int.{ℤ, pos, negsuc, sub_ℕ, add_ℤ}
use versaplex.Result.{
  KeySet, Tuple, QResult, pores_empty_query, pores_fatal_error, not_moving, has_cursor,
}

-- `fields` is there if CI_Constructor succeeds.
unfoldable pub qr_constructor : (ok ok_fields : Bool) → Option QResult
qr_constructor ok ok_fields =
    if ok
    then (if ok_fields
        then some (record {
          column_count = 0;
          num_fields = 0;
          rstatus = pores_empty_query;
          message = none;
          notice = none;
          command = none;
          cursor_name = none;
          fetching_tuples = false;
          reached_eof = false;
          has_valid_base = false;
          has_keyset = false;
          withhold = false;
          hold_permanent = false;
          synchronize_keys = false;
          num_total_read = 0;
          num_cached_rows = 0;
          num_cached_keys = 0;
          count_backend_allocated = 0;
          count_keyset_allocated = 0;
          backend_tuples = none;
          keyset = none;
          fetch_number = pos 0;
          curs_tuple = negsuc 0;
          base = negsuc 0;
          key_base = negsuc 0;
          move_offset = 0;
          move_direction = not_moving;
          cache_size = 0;
          rowset_size_include_ommitted = 1;
          ad_count = 0;
          added_keyset = none;
          dl_alloc = 0;
          dl_count = 0;
          deleted = none;
          deleted_keyset = none;
        })
        else none)
    else none

-- With `conn->ncursors`, which a result with no connection leaves alone
abbrev pub count_down : Option ℕ → Option ℕ
count_down none = none
count_down (some n) = some (n - 1)

abbrev pub count_up : Option ℕ → Option ℕ
count_up none = none
count_up (some n) = some (suc n)

unfoldable pub drop_cursor : QResult → Option ℕ → QResult × Option ℕ
drop_cursor self ncursors =
    if has_cursor self
    then (
      record self {
        curs_tuple = negsuc 0;
        fetching_tuples = false;
        reached_eof = false;
        has_valid_base = false;
      },
      count_down ncursors,
    )
    else (self, ncursors)

unfoldable pub qr_set_cursor : QResult → Option ℕ → Option Bytes → QResult × Option ℕ
unfolding drop_cursor
qr_set_cursor self ncursors (some name) =
    let (s, n) = drop_cursor self ncursors in (record s { cursor_name = some name }, count_up n)
qr_set_cursor self ncursors none =
    let (s, n) = drop_cursor self ncursors in
    (record s { cursor_name = none; withhold = false; hold_permanent = false }, n)

unfoldable pub qr_set_num_cached_rows : QResult → ℕ → QResult
qr_set_num_cached_rows self num_rows =
    if self.synchronize_keys
    then record self { num_cached_rows = num_rows; num_cached_keys = num_rows }
    else record self { num_cached_rows = num_rows }

unfoldable pub qr_set_rowstart_in_cache : QResult → ℤ → QResult
qr_set_rowstart_in_cache self start =
    if self.synchronize_keys
    then record self { key_base = start; base = start }
    else record self { base = start }

unfoldable pub qr_inc_rowstart_in_cache : QResult → ℤ → QResult
qr_inc_rowstart_in_cache self base_inc =
    let base = add_ℤ self.base base_inc in
    if self.synchronize_keys
    then record self { base = base; key_base = base }
    else record self { base = base }

-- What QR_add_message and QR_add_notice make of a text and one to add
unfoldable pub joined : Option Bytes → Option Bytes → Option Bytes
joined message none = message
joined message (some []) = message
joined none (some (c ∷ msg)) = some (c ∷ msg)
joined (some message) (some (c ∷ msg)) = some (message ++ (codes ";" ++ (c ∷ msg)))

unfoldable pub qr_set_message : QResult → Option Bytes → QResult
qr_set_message self msg = record self { message = msg }

unfoldable pub qr_add_message : QResult → Option Bytes → QResult
unfolding joined
qr_add_message self msg = record self { message = joined self.message msg }

unfoldable pub qr_set_notice : QResult → Option Bytes → QResult
qr_set_notice self msg = record self { notice = msg }

unfoldable pub qr_add_notice : QResult → Option Bytes → QResult
unfolding joined
qr_add_notice self msg = record self { notice = joined self.notice msg }

unfoldable pub qr_free_memory : QResult → QResult
qr_free_memory self =
    let s : QResult = record self {
      backend_tuples = none;
      keyset = none;
      dl_alloc = 0;
      dl_count = 0;
      deleted = none;
      deleted_keyset = none;
      added_keyset = none;
      ad_count = 0;
      num_total_read = 0;
      num_cached_rows = 0;
      num_cached_keys = 0;
      curs_tuple = negsuc 0;
      fetching_tuples = false;
      reached_eof = false;
      has_valid_base = false;
    } in
    record s {
      count_backend_allocated = elim self.backend_tuples [
        | none ↦ self.count_backend_allocated
        | some block ↦ 0
      ];
      count_keyset_allocated = elim self.keyset [
        | none ↦ self.count_keyset_allocated
        | some keys ↦ 0
      ];
    }

-- QR_close_result, which keeps the object, on a result with no next one
unfoldable pub qr_close_result : QResult → Option ℕ → QResult × Option ℕ
unfolding qr_free_memory qr_set_cursor
qr_close_result self ncursors =
    let (s, n) = qr_set_cursor (qr_free_memory self) ncursors none in
    (record s { command = none; message = none; notice = none }, n)

abbrev pub is_null {ℓ} : {A : Type ℓ} → Option A → Bool
is_null none = true
is_null (some a) = false
