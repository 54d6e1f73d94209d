-- ===== src/Options/Connect/Defaults.antt =====
-- What is set for a connection is what its new statements read.
use versaplex.Prelude.{
  ℕ, ltb, ◌==◌, ◌<◌, ◌≡◌, refl, ap, ◌∙◌, Bool, true, false, not, arith, if◌then◌else◌,
}
use versaplex.Options.{
  StatementOption, async_enable, bind_type, concurrency, cursor_type, keyset_size, max_length,
  max_rows, noscan, query_timeout, retrieve_data, rowset_size, simulate_cursor, use_bookmarks,
  server_option, unknown,
}
use versaplex.Options.Set.{get_stmt_option, supported_concurrency, supported_cursor}
use versaplex.Options.Laws.{
  is_kept, uinteger-id, not_equal_false, supported_concurrency-bound, supported_cursor-bound,
}
use versaplex.Options.Attribute.{
  AppFields, AttrState, other, get_stmt_attr, got, got_option, option_state, ard_fields,
}
use versaplex.Options.Attribute.Laws.{set_descriptor_same}
use versaplex.Options.Connect.{
  ConnState, ConnResult, conn_set, conn_changed, conn_refused, set_default_option,
  set_conn_concurrency, set_conn_cursor, set_conn_rowset, conn_outcome, put_options, conn_other,
  statement_default, set_connect_attr, set_connect_option, copy_defaults,
}

-- The default of an option for the statements of a connection
unfoldable pub default_of : ConnState → StatementOption → ℕ
default_of c bind_type = c.ard_options.bind_size
default_of c concurrency = c.stmt_options.option_concurrency
default_of c cursor_type = c.stmt_options.option_cursor
default_of c keyset_size = c.stmt_options.option_keyset
default_of c max_length = c.stmt_options.option_length
default_of c max_rows = c.stmt_options.option_rows
default_of c retrieve_data = c.stmt_options.option_retrieve
default_of c rowset_size = c.ard_options.size_of_rowset_odbc2
default_of c use_bookmarks = c.stmt_options.option_bookmarks
default_of c async_enable = 0
default_of c noscan = 1
default_of c query_timeout = 0
default_of c simulate_cursor = 0
default_of c server_option = 0
default_of c unknown = 0

unfoldable pub HasDefault : StatementOption → ℕ → ConnResult → Type 0
HasDefault option v (conn_set c) = default_of c option ≡ v
HasDefault option v (conn_changed c) = Unit
HasDefault option v (conn_refused c) = Unit

conn_outcome-HasDefault :
    (option : StatementOption) (v : ℕ) (c : ConnState) (changed : Bool)
    → (changed ≡ false → default_of c option ≡ v)
    → HasDefault option v (conn_outcome changed c)
unfolding conn_outcome HasDefault
conn_outcome-HasDefault option v c true kept = tt
conn_outcome-HasDefault option v c false kept = kept refl

set_conn_concurrency-HasDefault :
    (c : ConnState) (v : ℕ) → HasDefault concurrency v (set_conn_concurrency c v)
unfolding set_conn_concurrency default_of put_options
set_conn_concurrency-HasDefault c v =
    let val = supported_concurrency c.conn_updatable_cursors v in
    conn_outcome-HasDefault concurrency v _ (not (val == v)) (λ h.
      uinteger-id val (supported_concurrency-bound c.conn_updatable_cursors v)
      ∙ not_equal_false val v h)

set_conn_cursor-HasDefault :
    (c : ConnState) (v : ℕ) → HasDefault cursor_type v (set_conn_cursor c v)
unfolding set_conn_cursor default_of put_options
set_conn_cursor-HasDefault c v =
    let val = supported_cursor c.conn_updatable_cursors v in
    conn_outcome-HasDefault cursor_type v _ (not (val == v)) (λ h.
      uinteger-id val (supported_cursor-bound c.conn_updatable_cursors v) ∙ not_equal_false val v h)

kept_rowset : (v : ℕ) → ltb v 1 ≡ false → (if ltb v 1 then 1 else v) ≡ v
kept_rowset v h = rw h refl

set_conn_rowset-HasDefault :
    (c : ConnState) (v : ℕ) → HasDefault rowset_size v (set_conn_rowset c v)
unfolding set_conn_rowset default_of
set_conn_rowset-HasDefault c v = conn_outcome-HasDefault rowset_size v _ (ltb v 1) (kept_rowset v)

set_default_option-HasDefault :
    (c : ConnState) (option : StatementOption) (v : ℕ)
    → is_kept option ≡ true
    → v < 2147483648
    → HasDefault option v (set_default_option c option v)
unfolding set_default_option HasDefault default_of is_kept put_options
set_default_option-HasDefault c bind_type v kept small = uinteger-id v small
set_default_option-HasDefault c concurrency v kept small = set_conn_concurrency-HasDefault c v
set_default_option-HasDefault c cursor_type v kept small = set_conn_cursor-HasDefault c v
set_default_option-HasDefault c keyset_size v kept small = refl
set_default_option-HasDefault c max_length v kept small = refl
set_default_option-HasDefault c max_rows v kept small = refl
set_default_option-HasDefault c retrieve_data v kept small = uinteger-id v small
set_default_option-HasDefault c rowset_size v kept small = set_conn_rowset-HasDefault c v
set_default_option-HasDefault c use_bookmarks v kept small = uinteger-id v small
set_default_option-HasDefault c async_enable v kept small = ground arith
set_default_option-HasDefault c noscan v kept small = ground arith
set_default_option-HasDefault c query_timeout v kept small = ground arith
set_default_option-HasDefault c simulate_cursor v kept small = ground arith
set_default_option-HasDefault c server_option v kept small = ground arith
set_default_option-HasDefault c unknown v kept small = ground arith

-- A new statement uses the row descriptor inside it, which has the connection's defaults.
ard_fields-copy_defaults :
    (c : ConnState) (s : AttrState)
    → s.ard ≡ s.ardi
    → ard_fields (copy_defaults c s) ≡ c.ard_options
unfolding ard_fields copy_defaults
ard_fields-copy_defaults c s own =
    ap (copy_defaults c s).descriptors own ∙ set_descriptor_same s.descriptors s.ardi c.ard_options

get_stmt_attr-copy_defaults :
    (c : ConnState) (s : AttrState) (option : StatementOption)
    → s.ard ≡ s.ardi
    → is_kept option ≡ true
    → get_stmt_attr (copy_defaults c s) (other option) ≡ got (default_of c option)
unfolding get_stmt_attr got_option get_stmt_option option_state default_of is_kept copy_defaults
get_stmt_attr-copy_defaults c s bind_type own kept =
    ap (λ fields. got (AppFields.bind_size fields)) (ard_fields-copy_defaults c s own)
get_stmt_attr-copy_defaults c s rowset_size own kept =
    ap (λ fields. got (AppFields.size_of_rowset_odbc2 fields)) (ard_fields-copy_defaults c s own)
get_stmt_attr-copy_defaults c s concurrency own kept = refl
get_stmt_attr-copy_defaults c s cursor_type own kept = refl
get_stmt_attr-copy_defaults c s keyset_size own kept = refl
get_stmt_attr-copy_defaults c s max_length own kept = refl
get_stmt_attr-copy_defaults c s max_rows own kept = refl
get_stmt_attr-copy_defaults c s retrieve_data own kept = refl
get_stmt_attr-copy_defaults c s use_bookmarks own kept = refl
get_stmt_attr-copy_defaults c s async_enable own kept = ground arith
get_stmt_attr-copy_defaults c s noscan own kept = ground arith
get_stmt_attr-copy_defaults c s query_timeout own kept = ground arith
get_stmt_attr-copy_defaults c s simulate_cursor own kept = ground arith
get_stmt_attr-copy_defaults c s server_option own kept = ground arith
get_stmt_attr-copy_defaults c s unknown own kept = ground arith

-- SQL_SUCCESS means that a statement which is allocated then reads the value.
unfoldable pub IsInherited : StatementOption → ℕ → AttrState → ConnResult → Type 0
IsInherited option v s (conn_set c) = get_stmt_attr (copy_defaults c s) (other option) ≡ got v
IsInherited option v s (conn_changed c) = Unit
IsInherited option v s (conn_refused c) = Unit

HasDefault-IsInherited :
    (option : StatementOption) (v : ℕ) (s : AttrState) (r : ConnResult)
    → s.ard ≡ s.ardi
    → is_kept option ≡ true
    → HasDefault option v r
    → IsInherited option v s r
unfolding IsInherited HasDefault
HasDefault-IsInherited option v s (conn_set c) own kept default =
    get_stmt_attr-copy_defaults c s option own kept ∙ ap got default
HasDefault-IsInherited option v s (conn_changed c) own kept default = tt
HasDefault-IsInherited option v s (conn_refused c) own kept default = tt

-- When a value below 2 ^ 31 is set for the connection, by PGAPI_SetConnectAttr for an option of
-- statements whose value is kept, and the answer is SQL_SUCCESS, then PGAPI_GetStmtAttr of a
-- statement that is allocated next, with the row descriptor inside it, reads that value.
pub get_stmt_attr-set_connect_attr :
    (accepted : Bool) (c : ConnState) (s : AttrState) (option : StatementOption) (v : ℕ)
    → s.ard ≡ s.ardi
    → is_kept option ≡ true
    → v < 2147483648
    → IsInherited option v s (set_connect_attr accepted c (conn_other (statement_default option)) v)
unfolding set_connect_attr set_connect_option
get_stmt_attr-set_connect_attr accepted c s option v own kept small =
    HasDefault-IsInherited option v s _ own kept
      (set_default_option-HasDefault c option v kept small)
