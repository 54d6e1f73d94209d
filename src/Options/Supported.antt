-- ===== src/Options/Supported.antt =====
-- The concurrency and the type of a cursor are always ones that the driver supports.
use versaplex.Prelude.{ℕ, ◌==◌, ◌≡◌, ap, ◌∙◌, Bool, true, false, not, ◌&&◌, ◌||◌, bit_and, arith}
use versaplex.Options.{
  StatementOption, async_enable, bind_type, concurrency, cursor_type, keyset_size, max_length,
  max_rows, noscan, query_timeout, retrieve_data, rowset_size, simulate_cursor, use_bookmarks,
  server_option, unknown,
}
use versaplex.Options.{OptionState, state_after, uinteger}
use versaplex.Options.Laws.{uinteger-id, supported_cursor-bound, supported_concurrency-bound}
use versaplex.Options.Set.{
  set_statement_option, recycle_options, set_outcome, refuse, set_concurrency, set_cursor,
  set_keyset, set_length, set_rows, set_rowset, supported_concurrency, supported_cursor,
}

-- Read-only (1) is offered always, and with row versions (3) only with updatable cursors.
abbrev pub concurrency_offered : (updatable_cursors : ℕ) → ℕ → Bool
concurrency_offered u v = v == 1 || (v == 3 && not (u == 0))

-- Forward-only (0) and static (3) are offered always, and keyset-driven (1) and dynamic (2) only
-- with the second bit of the setting.
abbrev pub cursor_offered : (updatable_cursors : ℕ) → ℕ → Bool
cursor_offered u v = v == 0 || v == 3 || ((v == 1 || v == 2) && not (bit_and u 2 == 0))

supported_concurrency_offered : (u v : ℕ) → concurrency_offered u (supported_concurrency u v) ≡ true
unfolding supported_concurrency
supported_concurrency_offered u v = ground arith

supported_cursor_offered : (u v : ℕ) → cursor_offered u (supported_cursor u v) ≡ true
unfolding supported_cursor
supported_cursor_offered u v = ground arith

-- The settings of the statement and those it goes back to are offered on its connection.
unfoldable pub IsSupported : OptionState → Type 0
IsSupported s =
    (concurrency_offered s.updatable_cursors s.options.option_concurrency ≡ true)
    × (cursor_offered s.updatable_cursors s.options.option_cursor ≡ true)
    × (concurrency_offered s.updatable_cursors s.options_orig.option_concurrency ≡ true)
    × (cursor_offered s.updatable_cursors s.options_orig.option_cursor ≡ true)

stored_concurrency : (u v : ℕ) → concurrency_offered u (uinteger (supported_concurrency u v)) ≡ true
stored_concurrency u v =
    let stored = uinteger-id (supported_concurrency u v) (supported_concurrency-bound u v) in
    ap (concurrency_offered u) stored ∙ supported_concurrency_offered u v

stored_cursor : (u v : ℕ) → cursor_offered u (uinteger (supported_cursor u v)) ≡ true
stored_cursor u v =
    let stored = uinteger-id (supported_cursor u v) (supported_cursor-bound u v) in
    ap (cursor_offered u) stored ∙ supported_cursor_offered u v

set_outcome-IsSupported :
    (changed : Bool) (s : OptionState)
    → IsSupported s
    → IsSupported (state_after (set_outcome changed s))
unfolding set_outcome state_after IsSupported
set_outcome-IsSupported true s valid = valid
set_outcome-IsSupported false s valid = valid

set_concurrency-IsSupported :
    (opened : Bool) (s : OptionState) (v : ℕ)
    → IsSupported s
    → IsSupported (state_after (set_concurrency opened s v))
unfolding set_concurrency refuse state_after IsSupported
set_concurrency-IsSupported true s v valid = valid
set_concurrency-IsSupported false s v valid =
    let now = stored_concurrency s.updatable_cursors v in
    set_outcome-IsSupported _ _ (now, valid.1, now, valid.3)

set_cursor-IsSupported :
    (opened : Bool) (s : OptionState) (v : ℕ)
    → IsSupported s
    → IsSupported (state_after (set_cursor opened s v))
unfolding set_cursor refuse state_after IsSupported
set_cursor-IsSupported true s v valid = valid
set_cursor-IsSupported false s v valid =
    let now = stored_cursor s.updatable_cursors v in
    set_outcome-IsSupported _ _ (valid.0, now, valid.2, now)

set_keyset-IsSupported :
    (opened : Bool) (s : OptionState) (v : ℕ)
    → IsSupported s
    → IsSupported (state_after (set_keyset opened s v))
unfolding set_keyset IsSupported
set_keyset-IsSupported true s v valid = set_outcome-IsSupported _ _ valid
set_keyset-IsSupported false s v valid = set_outcome-IsSupported _ _ valid

set_length-IsSupported :
    (opened : Bool) (s : OptionState) (v : ℕ)
    → IsSupported s
    → IsSupported (state_after (set_length opened s v))
unfolding set_length IsSupported
set_length-IsSupported true s v valid = set_outcome-IsSupported _ _ valid
set_length-IsSupported false s v valid = set_outcome-IsSupported _ _ valid

set_rows-IsSupported :
    (opened : Bool) (s : OptionState) (v : ℕ)
    → IsSupported s
    → IsSupported (state_after (set_rows opened s v))
unfolding set_rows IsSupported
set_rows-IsSupported true s v valid = set_outcome-IsSupported _ _ valid
set_rows-IsSupported false s v valid = set_outcome-IsSupported _ _ valid

set_rowset-IsSupported :
    (s : OptionState) (v : ℕ) → IsSupported s → IsSupported (state_after (set_rowset s v))
unfolding set_rowset IsSupported
set_rowset-IsSupported s v valid = set_outcome-IsSupported _ _ valid

-- Each call of PGAPI_SetStmtOption, whatever the option, the value and the answer, keeps the
-- concurrency of a statement read-only or, with updatable cursors, by row versions, and its cursor
-- type forward-only, static or, where keyset-driven cursors are allowed, keyset-driven or dynamic,
-- in the settings in force and in those a recycled statement gets.
pub set_statement_option-IsSupported :
    (s : OptionState) (option : StatementOption) (v : ℕ)
    → IsSupported s
    → IsSupported (state_after (set_statement_option s option v))
unfolding set_statement_option IsSupported refuse state_after set_outcome
set_statement_option-IsSupported s concurrency v valid =
    set_concurrency-IsSupported s.is_open s v valid
set_statement_option-IsSupported s cursor_type v valid = set_cursor-IsSupported s.is_open s v valid
set_statement_option-IsSupported s keyset_size v valid = set_keyset-IsSupported s.is_open s v valid
set_statement_option-IsSupported s max_length v valid = set_length-IsSupported s.is_open s v valid
set_statement_option-IsSupported s max_rows v valid = set_rows-IsSupported s.is_open s v valid
set_statement_option-IsSupported s rowset_size v valid = set_rowset-IsSupported s v valid
set_statement_option-IsSupported s async_enable v valid = valid
set_statement_option-IsSupported s bind_type v valid = valid
set_statement_option-IsSupported s noscan v valid = valid
set_statement_option-IsSupported s query_timeout v valid = valid
set_statement_option-IsSupported s retrieve_data v valid = valid
set_statement_option-IsSupported s simulate_cursor v valid = valid
set_statement_option-IsSupported s use_bookmarks v valid = valid
set_statement_option-IsSupported s server_option v valid = valid
set_statement_option-IsSupported s unknown v valid = valid

pub recycle_options-IsSupported :
    (s : OptionState) → IsSupported s → IsSupported (recycle_options s)
unfolding recycle_options IsSupported
recycle_options-IsSupported s valid = (valid.2, valid.3, valid.2, valid.3)
