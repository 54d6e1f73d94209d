-- ===== src/Result.antt =====
-- The result object of vxodbc/qresult.h and tuple.h: the cache of rows, the keys of the rows, and
-- the rows a statement has deleted from it. A flag word is a record of its bits. The blocks that
-- `malloc` gives are lists with an element for each entry there is room for, none where nothing is
-- stored yet, and NULL is none. Counts stay below 2 ^ 15, so that no counter wraps.
pub mod Valid
pub mod Deleted
pub mod Cache
use versaplex.Prelude.{
  ℕ, ◌+◌, if◌then◌else◌, Bool, true, false, not, ◌||◌, List, Option, none, some, Bytes,
}
use versaplex.Prelude.Int.{ℤ, pos, negsuc}

-- CURS_SELF_ADDING to CURS_OTHER_DELETED, and the low bits, KEYSET_INFO_PUBLIC, as a number
pub record KeyStatus : Type 0 where
  pub public_info : ℕ
  pub self_adding : Bool
  pub self_deleting : Bool
  pub self_updating : Bool
  pub self_added : Bool
  pub self_deleted : Bool
  pub self_updated : Bool
  pub needs_reread : Bool
  pub in_rowset : Bool
  pub other_deleted : Bool

pub record KeySet : Type 0 where
  pub status : KeyStatus
  pub offset : ℕ
  pub blocknum : ℕ
  pub oid : ℕ

pub data QueryResultCode : Type 0 where
  pores_empty_query pores_command_ok pores_tuples_ok pores_bad_response pores_nonfatal_error :
      QueryResultCode
  pores_fatal_error pores_fields_ok pores_internal_error : QueryResultCode

pub data MoveDirection : Type 0 where
  not_moving forward backward from_the_last : MoveDirection

-- A field's value, or NULL
abbrev pub Tuple : Type 0
Tuple = List (Option Bytes)

-- `column_count` is what CI_get_num_fields says of `fields`; `pstatus` and `flags` are their bits.
pub record QResult : Type 0 where
  pub column_count : ℕ
  pub num_fields : ℕ
  pub rstatus : QueryResultCode
  pub message : Option Bytes
  pub notice : Option Bytes
  pub command : Option Bytes
  pub cursor_name : Option Bytes
  pub fetching_tuples : Bool
  pub reached_eof : Bool
  pub has_valid_base : Bool
  pub has_keyset : Bool
  pub withhold : Bool
  pub hold_permanent : Bool
  pub synchronize_keys : Bool
  pub num_total_read : ℕ
  pub num_cached_rows : ℕ
  pub num_cached_keys : ℕ
  pub count_backend_allocated : ℕ
  pub count_keyset_allocated : ℕ
  pub backend_tuples : Option (List (Option Tuple))
  pub keyset : Option (List KeySet)
  pub fetch_number : ℤ
  pub curs_tuple : ℤ
  pub base : ℤ
  pub key_base : ℤ
  pub move_offset : ℕ
  pub move_direction : MoveDirection
  pub cache_size : ℕ
  pub rowset_size_include_ommitted : ℕ
  pub ad_count : ℕ
  pub added_keyset : Option (List KeySet)
  pub dl_alloc : ℕ
  pub dl_count : ℕ
  pub deleted : Option (List ℕ)
  pub deleted_keyset : Option (List (Option KeySet))

abbrev pub has_cursor : QResult → Bool
has_cursor res = elim res.cursor_name [ none ↦ false | some name ↦ true ]

unfoldable pub qr_get_num_total_tuples : QResult → ℕ
qr_get_num_total_tuples res =
    if res.reached_eof then res.num_total_read + res.ad_count else res.num_total_read

abbrev pub no_status : KeyStatus
no_status = record {
  public_info = 0;
  self_adding = false;
  self_deleting = false;
  self_updating = false;
  self_added = false;
  self_deleted = false;
  self_updated = false;
  needs_reread = false;
  in_rowset = false;
  other_deleted = false;
}
