-- ===== src/Options/Attribute.antt =====
-- The statement attributes of ODBC 3: PGAPI_SetStmtAttr, PGAPI_GetStmtAttr and
-- descHandleFromStatementHandle of vxodbc/pgapi30.cc, with the descriptors of vxodbc/descriptor.h.
-- A handle or a pointer of the application is a number and NULL zero. The attributes
-- SQL_GET_BOOKMARK and SQL_ROW_NUMBER, which read the result, are left out.
pub mod Laws
pub mod Own
use versaplex.Prelude.{ℕ, zero, suc, ◌==◌, if◌then◌else◌, Bool, Option, none, some}
use versaplex.Options.{
  StatementOption, StatementOptions, OptionState, SetResult, set_value, changed_value, set_refused,
}
use versaplex.Options.{
  OptionError, not_implemented, option_not_for_the_driver, invalid_option_identifier, uinteger,
  sql_concur_read_only, sql_cursor_forward_only,
}
use versaplex.Options.Set.{set_statement_option, get_stmt_option}

-- `other` stands for the attributes that are passed on to the functions of ODBC 2.
pub data StmtAttr : Type 0 where
  fetch_bookmark_attr param_bind_offset_attr param_bind_type_attr : StmtAttr
  param_operation_attr param_status_attr params_processed_attr paramset_size_attr : StmtAttr
  row_bind_offset_attr row_operation_attr row_status_attr rows_fetched_attr : StmtAttr
  row_array_size_attr app_row_desc app_param_desc imp_row_desc imp_param_desc : StmtAttr
  cursor_scrollable cursor_sensitivity metadata_id_attr enable_auto_ipd auto_ipd : StmtAttr
  other : StatementOption → StmtAttr

-- What an ARDFields and an APDFields hold at the same place: `size_of_rowset` is also
-- `paramset_size`, `bind_size` also `param_bind_type`, and so on. An application may give one
-- descriptor to a statement for its rows and for its parameters.
pub record AppFields : Type 0 where
  pub size_of_rowset : ℕ
  pub bind_size : ℕ
  pub operation_ptr : ℕ
  pub offset_ptr : ℕ
  pub size_of_rowset_odbc2 : ℕ

-- `ardi` and `apdi` are the addresses of the descriptors inside the statement, `descriptors` is
-- the memory of all application descriptors. These functions do not change `ird` and `ipd`, so
-- the fields of those descriptors stand here.
pub record AttrState : Type 0 where
  pub ard : ℕ
  pub apd : ℕ
  pub ird : ℕ
  pub ipd : ℕ
  pub ardi : ℕ
  pub apdi : ℕ
  pub descriptors : ℕ → AppFields
  pub rows_fetched : ℕ
  pub row_status_array : ℕ
  pub param_processed_ptr : ℕ
  pub param_status_ptr : ℕ
  pub bookmark_ptr : ℕ
  pub metadata_id : ℕ
  pub updatable_cursors : ℕ
  pub is_open : Bool
  pub save_rowset_size : ℕ
  pub last_fetch_count : ℕ
  pub options : StatementOptions
  pub options_orig : StatementOptions
  pub error_number : Option OptionError

-- SC_get_ARDF and SC_get_APDF
unfoldable pub ard_fields : AttrState → AppFields
ard_fields s = s.descriptors s.ard

unfoldable pub apd_fields : AttrState → AppFields
apd_fields s = s.descriptors s.apd

unfoldable pub set_descriptor : (ℕ → AppFields) → ℕ → AppFields → ℕ → AppFields
set_descriptor memory handle fields h = if handle == h then fields else memory h

unfoldable pub put_ard : AttrState → AppFields → AttrState
put_ard s fields = record s { descriptors = set_descriptor s.descriptors s.ard fields }

unfoldable pub put_apd : AttrState → AppFields → AttrState
put_apd s fields = record s { descriptors = set_descriptor s.descriptors s.apd fields }

-- What PGAPI_SetStmtOption and PGAPI_GetStmtOption use of the statement, and the statement after.
unfoldable pub option_state : AttrState → OptionState
option_state s = record {
  updatable_cursors = s.updatable_cursors;
  is_open = s.is_open;
  save_rowset_size = s.save_rowset_size;
  last_fetch_count = s.last_fetch_count;
  bind_size = (ard_fields s).bind_size;
  size_of_rowset_odbc2 = (ard_fields s).size_of_rowset_odbc2;
  options = s.options;
  options_orig = s.options_orig;
  error_number = s.error_number;
}

unfoldable pub with_option_state : AttrState → OptionState → AttrState
with_option_state s o = record s {
  updatable_cursors = o.updatable_cursors;
  is_open = o.is_open;
  save_rowset_size = o.save_rowset_size;
  last_fetch_count = o.last_fetch_count;
  descriptors = set_descriptor s.descriptors s.ard (record (ard_fields s) {
    bind_size = o.bind_size;
    size_of_rowset_odbc2 = o.size_of_rowset_odbc2;
  });
  options = o.options;
  options_orig = o.options_orig;
  error_number = o.error_number;
}

-- SQL_SUCCESS, SQL_SUCCESS_WITH_INFO and SQL_ERROR, with the statement after the call
pub data AttrResult : Type 0 where
  attr_set attr_changed attr_refused : AttrState → AttrResult

unfoldable pub attr_state : AttrResult → AttrState
attr_state (attr_set s) = s
attr_state (attr_changed s) = s
attr_state (attr_refused s) = s

unfoldable pub attr_result : AttrState → SetResult → AttrResult
attr_result s (set_value o) = attr_set (with_option_state s o)
attr_result s (changed_value o) = attr_changed (with_option_state s o)
attr_result s (set_refused o) = attr_refused (with_option_state s o)

unfoldable pub attr_error : AttrState → OptionError → AttrState
attr_error s e = record s { error_number = some e }

-- SQL_FALSE is accepted for SQL_ATTR_ENABLE_AUTO_IPD.
unfoldable pub set_auto_ipd : AttrState → ℕ → AttrResult
set_auto_ipd s zero = attr_set s
set_auto_ipd s (suc v) = attr_refused (attr_error s option_not_for_the_driver)

-- SQL_NULL_HDESC goes back to the descriptor inside the statement.
unfoldable pub descriptor_or : (own handle : ℕ) → ℕ
descriptor_or own zero = own
descriptor_or own (suc handle) = suc handle

unfoldable pub set_stmt_attr : AttrState → StmtAttr → (value : ℕ) → AttrResult
set_stmt_attr s enable_auto_ipd v = set_auto_ipd s v
set_stmt_attr s cursor_scrollable v = attr_refused (attr_error s option_not_for_the_driver)
set_stmt_attr s cursor_sensitivity v = attr_refused (attr_error s option_not_for_the_driver)
set_stmt_attr s auto_ipd v = attr_refused (attr_error s option_not_for_the_driver)
set_stmt_attr s imp_row_desc v = attr_refused (attr_error s invalid_option_identifier)
set_stmt_attr s imp_param_desc v = attr_refused (attr_error s invalid_option_identifier)
set_stmt_attr s metadata_id_attr v = attr_set (record s { metadata_id = uinteger v })
set_stmt_attr s app_row_desc v = attr_set (record s { ard = descriptor_or s.ardi v })
set_stmt_attr s app_param_desc v = attr_set (record s { apd = descriptor_or s.apdi v })
set_stmt_attr s fetch_bookmark_attr v = attr_set (record s { bookmark_ptr = v })
set_stmt_attr s param_bind_offset_attr v =
    attr_set (put_apd s (record (apd_fields s) { offset_ptr = v }))
set_stmt_attr s param_bind_type_attr v =
    attr_set (put_apd s (record (apd_fields s) { bind_size = uinteger v }))
set_stmt_attr s param_operation_attr v =
    attr_set (put_apd s (record (apd_fields s) { operation_ptr = v }))
set_stmt_attr s param_status_attr v = attr_set (record s { param_status_ptr = v })
set_stmt_attr s params_processed_attr v = attr_set (record s { param_processed_ptr = v })
set_stmt_attr s paramset_size_attr v =
    attr_set (put_apd s (record (apd_fields s) { size_of_rowset = uinteger v }))
set_stmt_attr s row_bind_offset_attr v =
    attr_set (put_ard s (record (ard_fields s) { offset_ptr = v }))
set_stmt_attr s row_operation_attr v =
    attr_set (put_ard s (record (ard_fields s) { operation_ptr = v }))
set_stmt_attr s row_status_attr v = attr_set (record s { row_status_array = v })
set_stmt_attr s rows_fetched_attr v = attr_set (record s { rows_fetched = v })
set_stmt_attr s row_array_size_attr v =
    attr_set (put_ard s (record (ard_fields s) { size_of_rowset = v }))
set_stmt_attr s (other option) v = attr_result s (set_statement_option (option_state s) option v)

-- SQL_SUCCESS with the value that is written, and SQL_ERROR with the statement after the call
pub data GetResult : Type 0 where
  got : ℕ → GetResult
  get_refused : AttrState → GetResult

unfoldable pub got_option : AttrState → Option ℕ → GetResult
got_option s (some v) = got v
got_option s none = get_refused (attr_error s not_implemented)

-- SQL_NONSCROLLABLE and SQL_INSENSITIVE against SQL_SCROLLABLE and SQL_UNSPECIFIED
unfoldable pub scrollable : (cursor : ℕ) → ℕ
scrollable cursor = if sql_cursor_forward_only == cursor then 0 else 1

unfoldable pub sensitivity : (concurrency : ℕ) → ℕ
sensitivity concurrency = if sql_concur_read_only == concurrency then 1 else 0

unfoldable pub get_stmt_attr : AttrState → StmtAttr → GetResult
get_stmt_attr s fetch_bookmark_attr = got s.bookmark_ptr
get_stmt_attr s param_bind_offset_attr = got (apd_fields s).offset_ptr
get_stmt_attr s param_bind_type_attr = got (apd_fields s).bind_size
get_stmt_attr s param_operation_attr = got (apd_fields s).operation_ptr
get_stmt_attr s param_status_attr = got s.param_status_ptr
get_stmt_attr s params_processed_attr = got s.param_processed_ptr
get_stmt_attr s paramset_size_attr = got (uinteger (apd_fields s).size_of_rowset)
get_stmt_attr s row_bind_offset_attr = got (ard_fields s).offset_ptr
get_stmt_attr s row_operation_attr = got (ard_fields s).operation_ptr
get_stmt_attr s row_status_attr = got s.row_status_array
get_stmt_attr s rows_fetched_attr = got s.rows_fetched
get_stmt_attr s row_array_size_attr = got (ard_fields s).size_of_rowset
get_stmt_attr s app_row_desc = got s.ard
get_stmt_attr s app_param_desc = got s.apd
get_stmt_attr s imp_row_desc = got s.ird
get_stmt_attr s imp_param_desc = got s.ipd
get_stmt_attr s cursor_scrollable = got (scrollable s.options.option_cursor)
get_stmt_attr s cursor_sensitivity = got (sensitivity s.options.option_concurrency)
get_stmt_attr s metadata_id_attr = got s.metadata_id
get_stmt_attr s enable_auto_ipd = got 0
get_stmt_attr s auto_ipd = get_refused (attr_error s invalid_option_identifier)
get_stmt_attr s (other option) = got_option s (get_stmt_option (option_state s) option)
