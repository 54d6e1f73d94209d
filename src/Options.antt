-- ===== src/Options.antt =====
-- The statement options of vxodbc/options.cc: the record `StatementOptions` of vxodbc/psqlodbc.h,
-- PGAPI_SetStmtOption and PGAPI_GetStmtOption. A field of type SQLLEN holds the 64 bits of its
-- number, one of type SQLUINTEGER 32 bits, and `vParam` is a SQLULEN, so below 2 ^ 64.
pub mod Set
pub mod Laws
pub mod Recycle
pub mod Supported
pub mod Attribute
pub mod Connect
use versaplex.Prelude.{
  ℕ, ltb, leb, ◌==◌, ◌+◌, ◌%◌, bit_and, if◌then◌else◌, Bool, true, false, not, ◌&&◌, ◌||◌, Option,
  none, some,
}

-- `server_option` is one of the numbers 1204, 1227 and 1228, `unknown` any other without a case.
pub data StatementOption : Type 0 where
  async_enable bind_type concurrency cursor_type keyset_size max_length max_rows : StatementOption
  noscan query_timeout retrieve_data rowset_size simulate_cursor : StatementOption
  use_bookmarks server_option unknown : StatementOption

-- Without `bookmark_ptr` and `metadata_id`, which these functions do not touch.
pub record StatementOptions : Type 0 where
  pub option_rows : ℕ
  pub option_length : ℕ
  pub option_keyset : ℕ
  pub option_cursor : ℕ
  pub option_concurrency : ℕ
  pub option_retrieve : ℕ
  pub option_bookmarks : ℕ

-- The values of the ODBC interface.
abbrev pub sql_concur_read_only : ℕ
sql_concur_read_only = 1

abbrev pub sql_concur_rowver : ℕ
sql_concur_rowver = 3

abbrev pub sql_cursor_forward_only : ℕ
sql_cursor_forward_only = 0

abbrev pub sql_cursor_keyset_driven : ℕ
sql_cursor_keyset_driven = 1

abbrev pub sql_cursor_dynamic : ℕ
sql_cursor_dynamic = 2

abbrev pub sql_cursor_static : ℕ
sql_cursor_static = 3

abbrev pub allow_keyset_driven_cursors : ℕ
allow_keyset_driven_cursors = 2

unfoldable pub initialize_statement_options : StatementOptions
initialize_statement_options = record {
  option_rows = 0;
  option_length = 0;
  option_keyset = 0;
  option_cursor = sql_cursor_forward_only;
  option_concurrency = sql_concur_read_only;
  option_retrieve = 1;
  option_bookmarks = 0;
}

pub data OptionError : Type 0 where
  invalid_cursor_state not_implemented option_not_for_the_driver option_value_changed : OptionError
  invalid_option_identifier : OptionError

-- The fields of a statement, its connection and its row descriptor that the functions use.
-- `is_open` says that the statement has a result.
pub record OptionState : Type 0 where
  pub updatable_cursors : ℕ
  pub is_open : Bool
  pub save_rowset_size : ℕ
  pub last_fetch_count : ℕ
  pub bind_size : ℕ
  pub size_of_rowset_odbc2 : ℕ
  pub options : StatementOptions
  pub options_orig : StatementOptions
  pub error_number : Option OptionError

-- SQL_SUCCESS, SQL_SUCCESS_WITH_INFO and SQL_ERROR, with the state after the call
pub data SetResult : Type 0 where
  set_value changed_value set_refused : OptionState → SetResult

unfoldable pub state_after : SetResult → OptionState
state_after (set_value s) = s
state_after (changed_value s) = s
state_after (set_refused s) = s

-- (SQLUINTEGER) n
unfoldable pub uinteger : ℕ → ℕ
uinteger n = n % 4294967296

-- (int) n, as the 64 bits it is widened to
unfoldable pub int_as_len : ℕ → ℕ
int_as_len n =
    let low = n % 4294967296 in if ltb low 2147483648 then low else low + 18446744069414584320

-- 0 < n for the 64 bits of an SQLLEN
unfoldable pub is_positive : ℕ → Bool
is_positive n = leb 1 n && ltb n 9223372036854775808
