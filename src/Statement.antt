-- ===== src/Statement.antt =====
-- The statement object of vxodbc/statement.cc and statement.h: its state from allocation on.
-- `curres` is `result`. The texts of errors, the parsed tables and fields, the parameters whose data
-- comes later, and the descriptors are not kept; the locks are taken and given back without effect.
pub mod Recycle
pub mod Execution
pub mod Prepare
pub mod Execute
pub mod Lifecycle
pub mod Reachable
pub mod Kind
use versaplex.Prelude.{
  ℕ, zero, suc, ◌+◌, ◌==◌, if◌then◌else◌, Bool, true, false, not, ◌&&◌, ◌||◌, Option, none, some,
  Bytes,
}
use versaplex.Prelude.Int.{ℤ, pos, negsuc, add_ℤ, neg_ℤ}
use versaplex.Bindings.{GetDataInfo, reset_a_getdata_info}
use versaplex.Result.{QResult, QueryResultCode, pores_bad_response, pores_fatal_error}
use versaplex.Result.Cache.{qr_close_result, is_null}
use versaplex.Fetch.{res_rowset_start}

pub data Status : Type 0 where
  stmt_allocated stmt_ready stmt_premature stmt_finished stmt_executing : Status

pub data Prepared : Type 0 where
  not_yet_prepared prepared_permanently prepared_temporarily once_described : Prepared

-- The errors that the operations set here
pub data StmtError : Type 0 where
  sequence_error option_out_of_range no_memory_error : StmtError

pub record Options : Type 0 where
  pub max_rows : ℕ
  pub max_length : ℕ
  pub keyset_size : ℕ
  pub scroll_concurrency : ℕ
  pub cursor_type : ℕ
  pub retrieve_data : ℕ
  pub use_bookmarks : ℕ

-- `cancel_info` is its three bits. `ncursors` is that of the connection of the result.
pub record StatementClass : Type 0 where
  pub hdbc : Option ℕ
  pub ncursors : Option ℕ
  pub result : Option QResult
  pub status : Status
  pub error : Option StmtError
  pub prepare : Bool
  pub prepared : Prepared
  pub plan_name : Option Bytes
  pub statement : Option Bytes
  pub execute_statement : Option Bytes
  pub stmt_with_params : Option Bytes
  pub load_statement : Option Bytes
  pub catalog_result : Bool
  pub inaccurate_result : Bool
  pub multi_statement : ℤ
  pub num_params : ℤ
  pub proc_return : ℤ
  pub curr_tuple : ℤ
  pub rowset_start : ℤ
  pub current_col : ℤ
  pub bind_row : ℕ
  pub last_fetch_count : ℕ
  pub last_fetch_count_include_ommitted : ℕ
  pub save_rowset_size : ℤ
  pub cancel_request_set : Bool
  pub cancel_request_accepted : Bool
  pub cancel_completed : Bool
  pub gdata_info : GetDataInfo
  pub options : Options
  pub options_orig : Options

unfoldable pub is_executing : Status → Bool
is_executing stmt_executing = true
is_executing _ = false

-- SC_Constructor, with the options that PGAPI_AllocStmt copies
unfoldable pub sc_constructor : (conn : ℕ) → Options → StatementClass
sc_constructor conn options = record {
  hdbc = some conn;
  ncursors = none;
  result = none;
  status = stmt_allocated;
  error = none;
  prepare = false;
  prepared = not_yet_prepared;
  plan_name = none;
  statement = none;
  execute_statement = none;
  stmt_with_params = none;
  load_statement = none;
  catalog_result = false;
  inaccurate_result = false;
  multi_statement = negsuc 0;
  num_params = negsuc 0;
  proc_return = negsuc 0;
  curr_tuple = negsuc 0;
  rowset_start = negsuc 0;
  current_col = negsuc 0;
  bind_row = 0;
  last_fetch_count = 0;
  last_fetch_count_include_ommitted = 0;
  save_rowset_size = negsuc 0;
  cancel_request_set = false;
  cancel_request_accepted = false;
  cancel_completed = false;
  gdata_info = record {
    fdata = record { ttlbuf = none; ttlbuflen = 0; ttlbufused = 0; data_left = negsuc 0 };
    gdata = none;
    allocated = 0;
  };
  options = options;
  options_orig = options;
}

unfoldable pub cleared_result : Option QResult → Option QResult
cleared_result none = none
cleared_result (some res) = some (record res { message = none; notice = none })

unfoldable pub sc_clear_error : StatementClass → StatementClass
unfolding cleared_result
sc_clear_error self = record self { error = none; result = cleared_result self.result }

unfoldable pub sc_set_prepared : StatementClass → Prepared → StatementClass
sc_set_prepared self not_yet_prepared = record self {
  plan_name = none;
  prepared = not_yet_prepared;
}
sc_set_prepared self prepared = record self { prepared = prepared }

unfoldable pub sc_initialize_stmts : StatementClass → (original : Bool) → StatementClass
unfolding sc_set_prepared
sc_initialize_stmts self true =
    sc_set_prepared
      (record self {
        statement = none;
        execute_statement = none;
        prepare = false;
        multi_statement = negsuc 0;
        num_params = negsuc 0;
        proc_return = negsuc 0;
        stmt_with_params = none;
        load_statement = none;
      })
      not_yet_prepared
sc_initialize_stmts self false = record self { stmt_with_params = none; load_statement = none }

abbrev pub same_col : ℤ → ℤ → Bool
same_col (pos a) (pos b) = a == b
same_col (negsuc a) (negsuc b) = a == b
same_col _ _ = false

unfoldable pub read_again : GetDataInfo → ℤ → GetDataInfo
unfolding reset_a_getdata_info
read_again g (pos col) = reset_a_getdata_info g (col + 1)
read_again g (negsuc n) = g

unfoldable pub sc_set_current_col : StatementClass → ℤ → StatementClass
unfolding read_again
sc_set_current_col self col =
    if same_col col self.current_col
    then self
    else record self { gdata_info = read_again self.gdata_info col; current_col = col }
