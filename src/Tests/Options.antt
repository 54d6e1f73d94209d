-- ===== src/Tests/Options.antt =====
-- The statement options at concrete inputs.
use versaplex.Prelude.{◌≡◌, refl, true, false, some, none}
use versaplex.Options.{
  OptionState, initialize_statement_options, state_after, cursor_type, max_rows,
}
use versaplex.Options.{uinteger}
use versaplex.Options.Set.{
  set_statement_option, get_stmt_option, recycle_options, set_cursor, set_outcome, supported_cursor,
}
use versaplex.Options.Recycle.{is_deferred, recycle_options-set_statement_option}
use versaplex.Options.Supported.{IsSupported, set_statement_option-IsSupported}

abbrev closed_stmt : OptionState
closed_stmt = record {
  updatable_cursors = 1;
  is_open = false;
  save_rowset_size = 0;
  last_fetch_count = 0;
  bind_size = 0;
  size_of_rowset_odbc2 = 1;
  options = initialize_statement_options;
  options_orig = initialize_statement_options;
  error_number = none;
}

abbrev open_stmt : OptionState
open_stmt = record closed_stmt { is_open = true }

closed_stmt-IsSupported : IsSupported closed_stmt
unfolding IsSupported initialize_statement_options
closed_stmt-IsSupported = (refl, refl, refl, refl)

-- A keyset-driven cursor is asked for and a static one set.
static_cursor :
    get_stmt_option (state_after (set_statement_option closed_stmt cursor_type 1)) cursor_type
    ≡ some 3
unfolding get_stmt_option state_after set_statement_option set_cursor set_outcome supported_cursor
    uinteger
static_cursor = refl

recycle_options-set_statement_option_example :
    get_stmt_option
      (recycle_options (state_after (set_statement_option open_stmt max_rows 7)))
      max_rows
    ≡ some 7
unfolding is_deferred
recycle_options-set_statement_option_example =
    recycle_options-set_statement_option open_stmt max_rows 7 refl

set_statement_option-IsSupported_example :
    IsSupported (state_after (set_statement_option closed_stmt cursor_type 1))
set_statement_option-IsSupported_example =
    set_statement_option-IsSupported closed_stmt cursor_type 1 closed_stmt-IsSupported
