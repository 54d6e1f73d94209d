-- ===== src/Options/Set.antt =====
-- vxodbc/options.cc: set_statement_option with a statement and without a connection, the switch
-- of PGAPI_GetStmtOption; vxodbc/statement.cc: the options that SC_recycle_statement puts back.
use versaplex.Prelude.{
  ℕ, ltb, ◌==◌, bit_and, if◌then◌else◌, Bool, true, false, not, ◌&&◌, ◌||◌, Option, none, some,
}
use versaplex.Options.{
  StatementOption, async_enable, bind_type, concurrency, cursor_type, keyset_size, max_length,
  max_rows, noscan, query_timeout, retrieve_data, rowset_size, simulate_cursor, use_bookmarks,
  server_option, unknown,
}
use versaplex.Options.{
  OptionState, SetResult, set_value, changed_value, set_refused, OptionError, invalid_cursor_state,
  not_implemented, option_not_for_the_driver, option_value_changed,
}
use versaplex.Options.{
  uinteger, int_as_len, is_positive, sql_concur_read_only, sql_concur_rowver,
  sql_cursor_forward_only, sql_cursor_keyset_driven, sql_cursor_dynamic, sql_cursor_static,
  allow_keyset_driven_cursors,
}

unfoldable pub refuse : OptionState → OptionError → SetResult
refuse s e = set_refused (record s { error_number = some e })

unfoldable pub set_outcome : (changed : Bool) → OptionState → SetResult
set_outcome false s = set_value s
set_outcome true s = changed_value (record s { error_number = some option_value_changed })

unfoldable pub supported_concurrency : (updatable_cursors v_param : ℕ) → ℕ
supported_concurrency updatable v_param =
    if sql_concur_read_only == v_param || 0 == updatable
    then sql_concur_read_only
    else sql_concur_rowver

unfoldable pub supported_cursor : (updatable_cursors v_param : ℕ) → ℕ
supported_cursor updatable v_param =
    if sql_cursor_static == v_param
    then v_param
    else if sql_cursor_keyset_driven == v_param || sql_cursor_dynamic == v_param
    then (if 0 == bit_and updatable allow_keyset_driven_cursors then sql_cursor_static else v_param)
    else sql_cursor_forward_only

-- The first argument is `is_open`.
unfoldable pub set_concurrency : Bool → OptionState → ℕ → SetResult
set_concurrency true s v = refuse s invalid_cursor_state
set_concurrency false s v =
    let val = supported_concurrency s.updatable_cursors v in
    set_outcome (not (val == v)) (record s {
      options = record s.options { option_concurrency = uinteger val };
      options_orig = record s.options_orig { option_concurrency = uinteger val };
    })

unfoldable pub set_cursor : Bool → OptionState → ℕ → SetResult
set_cursor true s v = refuse s invalid_cursor_state
set_cursor false s v =
    let val = supported_cursor s.updatable_cursors v in
    set_outcome (not (val == v)) (record s {
      options = record s.options { option_cursor = uinteger val };
      options_orig = record s.options_orig { option_cursor = uinteger val };
    })

unfoldable pub set_keyset : Bool → OptionState → ℕ → SetResult
set_keyset true s v =
    set_outcome (not (s.options.option_keyset == int_as_len v))
      (record s { options_orig = record s.options_orig { option_keyset = v } })
set_keyset false s v = set_outcome (not (v == int_as_len v)) (record s {
  options = record s.options { option_keyset = v };
  options_orig = record s.options_orig { option_keyset = v };
})

unfoldable pub set_length : Bool → OptionState → ℕ → SetResult
set_length true s v =
    set_outcome (not (s.options.option_length == int_as_len v))
      (record s { options_orig = record s.options_orig { option_length = v } })
set_length false s v = set_outcome (not (v == int_as_len v)) (record s {
  options = record s.options { option_length = v };
  options_orig = record s.options_orig { option_length = v };
})

unfoldable pub set_rows : Bool → OptionState → ℕ → SetResult
set_rows true s v =
    set_outcome (not (s.options.option_rows == int_as_len v))
      (record s { options_orig = record s.options_orig { option_rows = v } })
set_rows false s v = set_outcome (not (v == int_as_len v)) (record s {
  options = record s.options { option_rows = v };
  options_orig = record s.options_orig { option_rows = v };
})

-- The size that the rows of the last fetch were asked for with is kept.
unfoldable pub save_size : OptionState → ℕ
save_size s =
    if not (is_positive s.save_rowset_size) && is_positive s.last_fetch_count
    then s.size_of_rowset_odbc2
    else s.save_rowset_size

unfoldable pub set_rowset : OptionState → ℕ → SetResult
set_rowset s v =
    set_outcome (ltb v 1)
      (record s { save_rowset_size = save_size s; size_of_rowset_odbc2 = if ltb v 1 then 1 else v })

unfoldable pub set_statement_option : OptionState → StatementOption → (v_param : ℕ) → SetResult
set_statement_option s async_enable v = set_outcome false s
set_statement_option s bind_type v = set_outcome false (record s { bind_size = uinteger v })
set_statement_option s concurrency v = set_concurrency s.is_open s v
set_statement_option s cursor_type v = set_cursor s.is_open s v
set_statement_option s keyset_size v = set_keyset s.is_open s v
set_statement_option s max_length v = set_length s.is_open s v
set_statement_option s max_rows v = set_rows s.is_open s v
set_statement_option s noscan v = set_outcome false s
set_statement_option s query_timeout v = set_outcome false s
set_statement_option s retrieve_data v =
    set_outcome false (record s { options = record s.options { option_retrieve = uinteger v } })
set_statement_option s rowset_size v = set_rowset s v
set_statement_option s simulate_cursor v = refuse s not_implemented
set_statement_option s use_bookmarks v =
    set_outcome false (record s { options = record s.options { option_bookmarks = uinteger v } })
set_statement_option s server_option v = refuse s option_not_for_the_driver
set_statement_option s unknown v = refuse s not_implemented

-- The value that is written, or none for SQL_ERROR. Without SQL_GET_BOOKMARK and SQL_ROW_NUMBER.
unfoldable pub get_stmt_option : OptionState → StatementOption → Option ℕ
get_stmt_option s async_enable = some 0
get_stmt_option s bind_type = some s.bind_size
get_stmt_option s concurrency = some s.options.option_concurrency
get_stmt_option s cursor_type = some s.options.option_cursor
get_stmt_option s keyset_size = some s.options.option_keyset
get_stmt_option s max_length = some s.options.option_length
get_stmt_option s max_rows = some s.options.option_rows
get_stmt_option s noscan = some 1
get_stmt_option s query_timeout = some 0
get_stmt_option s retrieve_data = some s.options.option_retrieve
get_stmt_option s rowset_size = some s.size_of_rowset_odbc2
get_stmt_option s simulate_cursor = some 0
get_stmt_option s use_bookmarks = some s.options.option_bookmarks
get_stmt_option s server_option = none
get_stmt_option s unknown = none

-- What a statement that was prepared or has finished keeps: its result is closed and the options of
-- the cursor are those that were set.
unfoldable pub recycle_options : OptionState → OptionState
recycle_options s =
    let orig = s.options_orig in
    record s {
      is_open = false;
      last_fetch_count = 0;
      error_number = none;
      options = record s.options {
        option_concurrency = orig.option_concurrency;
        option_cursor = orig.option_cursor;
        option_keyset = orig.option_keyset;
        option_length = orig.option_length;
        option_rows = orig.option_rows;
      };
    }
