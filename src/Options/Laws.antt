-- ===== src/Options/Laws.antt =====
-- What is set is what is read, now or after the statement is recycled; the settings of an open
-- cursor stay, and they are always ones that the driver supports.
use versaplex.Prelude.{
  ℕ, ltb, ◌==◌, ◌<◌, ◌≡◌, refl, ap, ◌∙◌, Bool, true, false, not, some, arith, if◌then◌else◌,
}
use versaplex.Options.{
  StatementOption, async_enable, bind_type, concurrency, cursor_type, keyset_size, max_length,
  max_rows, noscan, query_timeout, retrieve_data, rowset_size, simulate_cursor, use_bookmarks,
  server_option, unknown,
}
use versaplex.Options.{
  OptionState, SetResult, set_value, changed_value, set_refused, uinteger, int_as_len,
}
use versaplex.Options.Set.{
  set_statement_option, get_stmt_option, set_outcome, refuse, supported_cursor,
  supported_concurrency, set_concurrency, set_cursor, set_keyset, set_length, set_rows, set_rowset,
}

int_as_len-id : (n : ℕ) → n < 2147483648 → int_as_len n ≡ n
unfolding int_as_len
int_as_len-id n small = ground arith

pub uinteger-id : (n : ℕ) → n < 2147483648 → uinteger n ≡ n
unfolding uinteger
uinteger-id n small = omega arith

-- The options whose value is kept; the others are accepted and ignored, or refused.
unfoldable pub is_kept : StatementOption → Bool
is_kept bind_type = true
is_kept concurrency = true
is_kept cursor_type = true
is_kept keyset_size = true
is_kept max_length = true
is_kept max_rows = true
is_kept retrieve_data = true
is_kept rowset_size = true
is_kept use_bookmarks = true
is_kept async_enable = false
is_kept noscan = false
is_kept query_timeout = false
is_kept simulate_cursor = false
is_kept server_option = false
is_kept unknown = false

-- SQL_SUCCESS means that the value is read back.
unfoldable pub GetsBack : StatementOption → ℕ → SetResult → Type 0
GetsBack option v (set_value s) = get_stmt_option s option ≡ some v
GetsBack option v (changed_value s) = Unit
GetsBack option v (set_refused s) = Unit

set_outcome-GetsBack :
    (option : StatementOption) (v : ℕ) (s : OptionState) (changed : Bool)
    → (changed ≡ false → get_stmt_option s option ≡ some v)
    → GetsBack option v (set_outcome changed s)
unfolding set_outcome GetsBack
set_outcome-GetsBack option v s true kept = tt
set_outcome-GetsBack option v s false kept = kept refl

pub not_equal_false : (a b : ℕ) → not (a == b) ≡ false → a ≡ b
not_equal_false a b h = ground arith

pub supported_concurrency-bound : (u v : ℕ) → supported_concurrency u v < 2147483648
unfolding supported_concurrency
supported_concurrency-bound u v = ground arith

pub supported_cursor-bound : (u v : ℕ) → supported_cursor u v < 2147483648
unfolding supported_cursor
supported_cursor-bound u v = ground arith

set_concurrency-GetsBack :
    (opened : Bool) (s : OptionState) (v : ℕ) → GetsBack concurrency v (set_concurrency opened s v)
unfolding set_concurrency get_stmt_option GetsBack refuse
set_concurrency-GetsBack true s v = tt
set_concurrency-GetsBack false s v =
    let val = supported_concurrency s.updatable_cursors v in
    set_outcome-GetsBack concurrency v _ (not (val == v)) (λ h. ap some (
      uinteger-id val (supported_concurrency-bound s.updatable_cursors v)
      ∙ not_equal_false val v h))

set_cursor-GetsBack :
    (opened : Bool) (s : OptionState) (v : ℕ) → GetsBack cursor_type v (set_cursor opened s v)
unfolding set_cursor get_stmt_option GetsBack refuse
set_cursor-GetsBack true s v = tt
set_cursor-GetsBack false s v =
    let val = supported_cursor s.updatable_cursors v in
    set_outcome-GetsBack cursor_type v _ (not (val == v)) (λ h.
      ap some
        (uinteger-id val (supported_cursor-bound s.updatable_cursors v) ∙ not_equal_false val v h))

-- With an open result the value that is kept is compared with the one that is set.
kept_value : (kept v : ℕ) → v < 2147483648 → not (kept == int_as_len v) ≡ false → some kept ≡ some v
kept_value kept v small h = ap some (not_equal_false kept (int_as_len v) h ∙ int_as_len-id v small)

set_keyset-GetsBack :
    (opened : Bool) (s : OptionState) (v : ℕ)
    → v < 2147483648
    → GetsBack keyset_size v (set_keyset opened s v)
unfolding set_keyset get_stmt_option
set_keyset-GetsBack true s v small =
    set_outcome-GetsBack keyset_size v _ _ (kept_value s.options.option_keyset v small)
set_keyset-GetsBack false s v small = set_outcome-GetsBack keyset_size v _ _ (λ h. refl)

set_length-GetsBack :
    (opened : Bool) (s : OptionState) (v : ℕ)
    → v < 2147483648
    → GetsBack max_length v (set_length opened s v)
unfolding set_length get_stmt_option
set_length-GetsBack true s v small =
    set_outcome-GetsBack max_length v _ _ (kept_value s.options.option_length v small)
set_length-GetsBack false s v small = set_outcome-GetsBack max_length v _ _ (λ h. refl)

set_rows-GetsBack :
    (opened : Bool) (s : OptionState) (v : ℕ)
    → v < 2147483648
    → GetsBack max_rows v (set_rows opened s v)
unfolding set_rows get_stmt_option
set_rows-GetsBack true s v small =
    set_outcome-GetsBack max_rows v _ _ (kept_value s.options.option_rows v small)
set_rows-GetsBack false s v small = set_outcome-GetsBack max_rows v _ _ (λ h. refl)

rowset_kept : (v : ℕ) → ltb v 1 ≡ false → some (if ltb v 1 then 1 else v) ≡ some v
rowset_kept v h = rw h refl

set_rowset-GetsBack : (s : OptionState) (v : ℕ) → GetsBack rowset_size v (set_rowset s v)
unfolding set_rowset get_stmt_option
set_rowset-GetsBack s v = set_outcome-GetsBack rowset_size v _ _ (rowset_kept v)

-- When a value below 2 ^ 31 is set for an option whose value is kept and the answer is
-- SQL_SUCCESS, the option reads that value, with or without an open result.
pub get_stmt_option-set_statement_option :
    (s : OptionState) (option : StatementOption) (v : ℕ)
    → is_kept option ≡ true
    → v < 2147483648
    → GetsBack option v (set_statement_option s option v)
unfolding set_statement_option is_kept set_outcome GetsBack get_stmt_option
get_stmt_option-set_statement_option s bind_type v kept small = ap some (uinteger-id v small)
get_stmt_option-set_statement_option s concurrency v kept small =
    set_concurrency-GetsBack s.is_open s v
get_stmt_option-set_statement_option s cursor_type v kept small = set_cursor-GetsBack s.is_open s v
get_stmt_option-set_statement_option s keyset_size v kept small =
    set_keyset-GetsBack s.is_open s v small
get_stmt_option-set_statement_option s max_length v kept small =
    set_length-GetsBack s.is_open s v small
get_stmt_option-set_statement_option s max_rows v kept small = set_rows-GetsBack s.is_open s v small
get_stmt_option-set_statement_option s retrieve_data v kept small = ap some (uinteger-id v small)
get_stmt_option-set_statement_option s rowset_size v kept small = set_rowset-GetsBack s v
get_stmt_option-set_statement_option s use_bookmarks v kept small = ap some (uinteger-id v small)
get_stmt_option-set_statement_option s async_enable v kept small = ground arith
get_stmt_option-set_statement_option s noscan v kept small = ground arith
get_stmt_option-set_statement_option s query_timeout v kept small = ground arith
get_stmt_option-set_statement_option s simulate_cursor v kept small = ground arith
get_stmt_option-set_statement_option s server_option v kept small = ground arith
get_stmt_option-set_statement_option s unknown v kept small = ground arith
