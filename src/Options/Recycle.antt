-- ===== src/Options/Recycle.antt =====
-- The settings of an open cursor stay until its statement is recycled, and then those that were
-- set take effect.
use versaplex.Prelude.{ℕ, ◌≡◌, refl, ap, Bool, true, false, some, arith}
use versaplex.Options.{
  StatementOption, async_enable, bind_type, concurrency, cursor_type, keyset_size, max_length,
  max_rows, noscan, query_timeout, retrieve_data, rowset_size, simulate_cursor, use_bookmarks,
  server_option, unknown,
}
use versaplex.Options.{OptionState, StatementOptions, state_after}
use versaplex.Options.Set.{
  set_statement_option, get_stmt_option, recycle_options, set_outcome, refuse, set_concurrency,
  set_cursor, set_keyset, set_length, set_rows, set_rowset,
}

-- The options that belong to a cursor and are read again when a statement is recycled.
unfoldable pub cursor_settings : StatementOptions → ℕ × ℕ × ℕ × ℕ × ℕ
cursor_settings o =
    (o.option_concurrency, o.option_cursor, o.option_keyset, o.option_length, o.option_rows)

-- What holds for the options of the result's state in either case holds after `set_outcome`.
options-set_outcome :
    (changed : Bool) (s : OptionState) → (state_after (set_outcome changed s)).options ≡ s.options
unfolding set_outcome state_after
options-set_outcome true s = refl
options-set_outcome false s = refl

options_orig-set_outcome :
    (changed : Bool) (s : OptionState)
    → (state_after (set_outcome changed s)).options_orig ≡ s.options_orig
unfolding set_outcome state_after
options_orig-set_outcome true s = refl
options_orig-set_outcome false s = refl

concurrency_opened :
    (opened : Bool) (s : OptionState) (v : ℕ)
    → opened ≡ true
    → (state_after (set_concurrency opened s v)).options ≡ s.options
unfolding set_concurrency refuse state_after
concurrency_opened true s v h = refl
concurrency_opened false s v h = ground arith

cursor_opened :
    (opened : Bool) (s : OptionState) (v : ℕ)
    → opened ≡ true
    → (state_after (set_cursor opened s v)).options ≡ s.options
unfolding set_cursor refuse state_after
cursor_opened true s v h = refl
cursor_opened false s v h = ground arith

keyset_opened :
    (opened : Bool) (s : OptionState) (v : ℕ)
    → opened ≡ true
    → (state_after (set_keyset opened s v)).options ≡ s.options
unfolding set_keyset
keyset_opened true s v h = options-set_outcome _ _
keyset_opened false s v h = ground arith

length_opened :
    (opened : Bool) (s : OptionState) (v : ℕ)
    → opened ≡ true
    → (state_after (set_length opened s v)).options ≡ s.options
unfolding set_length
length_opened true s v h = options-set_outcome _ _
length_opened false s v h = ground arith

rows_opened :
    (opened : Bool) (s : OptionState) (v : ℕ)
    → opened ≡ true
    → (state_after (set_rows opened s v)).options ≡ s.options
unfolding set_rows
rows_opened true s v h = options-set_outcome _ _
rows_opened false s v h = ground arith

-- While a statement has a result, no call of PGAPI_SetStmtOption, whatever the option and the
-- value, changes the concurrency, the type, the keyset size, the maximal length or the maximal
-- number of rows of its cursor.
pub set_statement_option-opened :
    (s : OptionState) (option : StatementOption) (v : ℕ)
    → s.is_open ≡ true
    → cursor_settings (state_after (set_statement_option s option v)).options
      ≡ cursor_settings s.options
unfolding set_statement_option cursor_settings refuse state_after set_rowset set_outcome
set_statement_option-opened s concurrency v opened =
    ap cursor_settings (concurrency_opened s.is_open s v opened)
set_statement_option-opened s cursor_type v opened =
    ap cursor_settings (cursor_opened s.is_open s v opened)
set_statement_option-opened s keyset_size v opened =
    ap cursor_settings (keyset_opened s.is_open s v opened)
set_statement_option-opened s max_length v opened =
    ap cursor_settings (length_opened s.is_open s v opened)
set_statement_option-opened s max_rows v opened =
    ap cursor_settings (rows_opened s.is_open s v opened)
set_statement_option-opened s rowset_size v opened = ap cursor_settings (options-set_outcome _ _)
set_statement_option-opened s async_enable v opened = refl
set_statement_option-opened s bind_type v opened = refl
set_statement_option-opened s noscan v opened = refl
set_statement_option-opened s query_timeout v opened = refl
set_statement_option-opened s retrieve_data v opened = refl
set_statement_option-opened s simulate_cursor v opened = refl
set_statement_option-opened s use_bookmarks v opened = refl
set_statement_option-opened s server_option v opened = refl
set_statement_option-opened s unknown v opened = refl

-- The options that may be set under an open cursor, for a later one.
unfoldable pub is_deferred : StatementOption → Bool
is_deferred keyset_size = true
is_deferred max_length = true
is_deferred max_rows = true
is_deferred _ = false

keyset_stored :
    (opened : Bool) (s : OptionState) (v : ℕ)
    → (state_after (set_keyset opened s v)).options_orig.option_keyset ≡ v
unfolding set_keyset
keyset_stored true s v = ap (λ o. o.option_keyset) (options_orig-set_outcome _ _)
keyset_stored false s v = ap (λ o. o.option_keyset) (options_orig-set_outcome _ _)

length_stored :
    (opened : Bool) (s : OptionState) (v : ℕ)
    → (state_after (set_length opened s v)).options_orig.option_length ≡ v
unfolding set_length
length_stored true s v = ap (λ o. o.option_length) (options_orig-set_outcome _ _)
length_stored false s v = ap (λ o. o.option_length) (options_orig-set_outcome _ _)

rows_stored :
    (opened : Bool) (s : OptionState) (v : ℕ)
    → (state_after (set_rows opened s v)).options_orig.option_rows ≡ v
unfolding set_rows
rows_stored true s v = ap (λ o. o.option_rows) (options_orig-set_outcome _ _)
rows_stored false s v = ap (λ o. o.option_rows) (options_orig-set_outcome _ _)

-- A keyset size, a maximal length or a maximal number of rows that is set reads that value once
-- a recycled statement has its options back, whether or not it had a result when it was set.
pub recycle_options-set_statement_option :
    (s : OptionState) (option : StatementOption) (v : ℕ)
    → is_deferred option ≡ true
    → get_stmt_option (recycle_options (state_after (set_statement_option s option v))) option
      ≡ some v
unfolding set_statement_option is_deferred get_stmt_option recycle_options
recycle_options-set_statement_option s keyset_size v deferred =
    ap some (keyset_stored s.is_open s v)
recycle_options-set_statement_option s max_length v deferred = ap some (length_stored s.is_open s v)
recycle_options-set_statement_option s max_rows v deferred = ap some (rows_stored s.is_open s v)
recycle_options-set_statement_option s async_enable v deferred = ground arith
recycle_options-set_statement_option s bind_type v deferred = ground arith
recycle_options-set_statement_option s concurrency v deferred = ground arith
recycle_options-set_statement_option s cursor_type v deferred = ground arith
recycle_options-set_statement_option s noscan v deferred = ground arith
recycle_options-set_statement_option s query_timeout v deferred = ground arith
recycle_options-set_statement_option s retrieve_data v deferred = ground arith
recycle_options-set_statement_option s rowset_size v deferred = ground arith
recycle_options-set_statement_option s simulate_cursor v deferred = ground arith
recycle_options-set_statement_option s use_bookmarks v deferred = ground arith
recycle_options-set_statement_option s server_option v deferred = ground arith
recycle_options-set_statement_option s unknown v deferred = ground arith
