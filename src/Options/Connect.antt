-- ===== src/Options/Connect.antt =====
-- The options and attributes of a connection: set_statement_option with a connection and
-- PGAPI_SetConnectOption and PGAPI_GetConnectOption of vxodbc/options.cc, PGAPI_SetConnectAttr and
-- PGAPI_GetConnectAttr of vxodbc/pgapi30.cc, and what PGAPI_AllocStmt of vxodbc/statement.cc copies
-- to a new statement. `accepted` says whether the server carries out the query for the isolation
-- level. Option 30002 of Microsoft Jet and the name of the current catalog are left out.
pub mod Defaults
use versaplex.Prelude.{
  ℕ, zero, suc, ltb, ◌==◌, if◌then◌else◌, Bool, true, false, not, ◌&&◌, ◌||◌, Option, none, some,
}
use versaplex.Options.{
  StatementOption, async_enable, bind_type, concurrency, cursor_type, keyset_size, max_length,
  max_rows, noscan, query_timeout, retrieve_data, rowset_size, simulate_cursor, use_bookmarks,
  server_option, unknown,
}
use versaplex.Options.{StatementOptions, uinteger}
use versaplex.Options.Set.{supported_concurrency, supported_cursor}
use versaplex.Options.Attribute.{AppFields, AttrState, set_descriptor}

pub data ConnError : Type 0 where
  conn_not_implemented conn_unsupported_option conn_invalid_argument conn_exec_error : ConnError
  conn_option_not_for_the_driver conn_option_value_changed : ConnError

pub data ConnStatus : Type 0 where
  conn_not_connected conn_connected conn_down conn_executing : ConnStatus

-- `conn_metadata_id` and `conn_bookmark_ptr` are fields of `stmtOptions` too.
pub record ConnState : Type 0 where
  pub status : ConnStatus
  pub conn_updatable_cursors : ℕ
  pub stmt_options : StatementOptions
  pub conn_metadata_id : ℕ
  pub conn_bookmark_ptr : ℕ
  pub ard_options : AppFields
  pub login_timeout : ℕ
  pub isolation : ℕ
  pub pg_version_major : ℕ
  pub pg_version_minor : ℕ
  pub in_unicode_driver : Bool
  pub in_ansi_app : Bool
  pub conn_error : Option ConnError

pub data ConnResult : Type 0 where
  conn_set conn_changed conn_refused : ConnState → ConnResult

unfoldable pub refuse_conn : ConnState → ConnError → ConnResult
refuse_conn c e = conn_refused (record c { conn_error = some e })

-- What `changed` becomes, in set_statement_option and after it in PGAPI_SetConnectOption
unfoldable pub conn_outcome : (changed : Bool) → ConnState → ConnResult
conn_outcome false c = conn_set c
conn_outcome true c = conn_changed (record c { conn_error = some conn_option_value_changed })

unfoldable pub put_options : ConnState → StatementOptions → ConnState
put_options c o = record c { stmt_options = o }

unfoldable pub set_conn_concurrency : ConnState → ℕ → ConnResult
set_conn_concurrency c v =
    let val = supported_concurrency c.conn_updatable_cursors v in
    conn_outcome (not (val == v))
      (put_options c (record c.stmt_options { option_concurrency = uinteger val }))

unfoldable pub set_conn_cursor : ConnState → ℕ → ConnResult
set_conn_cursor c v =
    let val = supported_cursor c.conn_updatable_cursors v in
    conn_outcome (not (val == v))
      (put_options c (record c.stmt_options { option_cursor = uinteger val }))

unfoldable pub set_conn_rowset : ConnState → ℕ → ConnResult
set_conn_rowset c v = conn_outcome (ltb v 1) (record c {
  ard_options = record c.ard_options { size_of_rowset_odbc2 = if ltb v 1 then 1 else v };
})

-- The default for all later statements. The options of the server fall to the default of
-- PGAPI_SetConnectOption, like the unknown ones.
unfoldable pub set_default_option : ConnState → StatementOption → (v_param : ℕ) → ConnResult
set_default_option c async_enable v = conn_set c
set_default_option c bind_type v =
    conn_set (record c { ard_options = record c.ard_options { bind_size = uinteger v } })
set_default_option c concurrency v = set_conn_concurrency c v
set_default_option c cursor_type v = set_conn_cursor c v
set_default_option c keyset_size v =
    conn_set (put_options c (record c.stmt_options { option_keyset = v }))
set_default_option c max_length v =
    conn_set (put_options c (record c.stmt_options { option_length = v }))
set_default_option c max_rows v =
    conn_set (put_options c (record c.stmt_options { option_rows = v }))
set_default_option c noscan v = conn_set c
set_default_option c query_timeout v = conn_set c
set_default_option c retrieve_data v =
    conn_set (put_options c (record c.stmt_options { option_retrieve = uinteger v }))
set_default_option c rowset_size v = set_conn_rowset c v
set_default_option c simulate_cursor v = refuse_conn c conn_not_implemented
set_default_option c use_bookmarks v =
    conn_set (put_options c (record c.stmt_options { option_bookmarks = uinteger v }))
set_default_option c server_option v = refuse_conn c conn_unsupported_option
set_default_option c unknown v = refuse_conn c conn_unsupported_option

-- `manager_option` stands for the options of the driver manager, `dead_option` for
-- SQL_ATTR_CONNECTION_DEAD and `ansi_option` for SQL_ATTR_ANSI_APP, which can only be read.
pub data ConnectOption : Type 0 where
  statement_default : StatementOption → ConnectOption
  access_mode autocommit current_qualifier login_option packet_size : ConnectOption
  quiet_mode txn_isolation dead_option ansi_option : ConnectOption
  manager_option unknown_option : ConnectOption

abbrev pub sql_txn_read_committed : ℕ
sql_txn_read_committed = 2

abbrev pub sql_txn_serializable : ℕ
sql_txn_serializable = 8

-- SERVER_VERSION_GE and SERVER_VERSION_GT
unfoldable pub version_ge : ConnState → (major minor : ℕ) → Bool
version_ge c major minor =
    ltb major c.pg_version_major
    || (c.pg_version_major == major && not (ltb c.pg_version_minor minor))

unfoldable pub version_gt : ConnState → (major minor : ℕ) → Bool
version_gt c major minor =
    ltb major c.pg_version_major || (c.pg_version_major == major && ltb minor c.pg_version_minor)

-- The levels of isolation that the switch takes
unfoldable pub isolation_known : ConnState → ℕ → Bool
isolation_known c v =
    if v == sql_txn_serializable
    then not (version_ge c 6 5 && not (version_gt c 7 0))
    else (v == sql_txn_read_committed) && version_ge c 6 5

unfoldable pub send_isolation : (accepted : Bool) → ConnState → ℕ → ConnResult
send_isolation false c v = refuse_conn c conn_exec_error
send_isolation true c v = conn_set (record c { isolation = uinteger v })

unfoldable pub set_isolation : (accepted : Bool) → ConnState → ℕ → ConnResult
set_isolation accepted c v =
    if c.isolation == v
    then conn_set c
    else if isolation_known c v
    then send_isolation accepted c v
    else refuse_conn c conn_invalid_argument

unfoldable pub set_connect_option : (accepted : Bool) → ConnState → ConnectOption → ℕ → ConnResult
set_connect_option accepted c (statement_default option) v = set_default_option c option v
set_connect_option accepted c access_mode v = conn_set c
set_connect_option accepted c autocommit v = conn_set c
set_connect_option accepted c current_qualifier v = conn_set c
set_connect_option accepted c login_option v = conn_set (record c { login_timeout = uinteger v })
set_connect_option accepted c packet_size v = conn_set c
set_connect_option accepted c quiet_mode v = conn_set c
set_connect_option accepted c txn_isolation v = set_isolation accepted c v
set_connect_option accepted c dead_option v = refuse_conn c conn_unsupported_option
set_connect_option accepted c ansi_option v = refuse_conn c conn_unsupported_option
set_connect_option accepted c manager_option v = conn_set c
set_connect_option accepted c unknown_option v = refuse_conn c conn_unsupported_option

-- SQL_SUCCESS with what is written, if anything, and SQL_ERROR with the connection after the call
pub data ConnGot : Type 0 where
  conn_got : Option ℕ → ConnGot
  conn_get_refused : ConnState → ConnGot

unfoldable pub is_dead : ConnStatus → ℕ
is_dead conn_not_connected = 1
is_dead conn_down = 1
is_dead conn_connected = 0
is_dead conn_executing = 0

-- The options of statements are none of a connection's that can be read. The name that is written
-- for `current_qualifier` is not modelled.
unfoldable pub get_connect_option : ConnState → ConnectOption → ConnGot
get_connect_option c access_mode = conn_got (some 0)
get_connect_option c autocommit = conn_got (some 0)
get_connect_option c current_qualifier = conn_got none
get_connect_option c login_option = conn_got (some c.login_timeout)
get_connect_option c packet_size = conn_got (some 4096)
get_connect_option c quiet_mode = conn_got (some 0)
get_connect_option c txn_isolation = conn_got (some c.isolation)
get_connect_option c dead_option = conn_got (some (is_dead c.status))
get_connect_option c ansi_option = conn_got (some (if c.in_ansi_app then 1 else 0))
get_connect_option c manager_option = conn_got none
get_connect_option c (statement_default option) =
    conn_get_refused (record c { conn_error = some conn_unsupported_option })
get_connect_option c unknown_option =
    conn_get_refused (record c { conn_error = some conn_unsupported_option })

pub data ConnectAttr : Type 0 where
  conn_metadata_attr ansi_app enlist_in_dtc conn_auto_ipd conn_async_enable : ConnectAttr
  connection_dead connection_timeout : ConnectAttr
  conn_other : ConnectOption → ConnectAttr

-- SQL_FALSE is accepted for SQL_ATTR_AUTO_IPD.
unfoldable pub set_conn_auto_ipd : ConnState → ℕ → ConnResult
set_conn_auto_ipd c zero = conn_set c
set_conn_auto_ipd c (suc v) = refuse_conn c conn_option_not_for_the_driver

-- SQL_AA_FALSE, for an application in Unicode, is zero.
unfoldable pub set_ansi_app : ConnState → ℕ → ConnState
set_ansi_app c zero = c
set_ansi_app c (suc v) = record c { in_ansi_app = c.in_ansi_app || c.in_unicode_driver }

unfoldable pub set_connect_attr : (accepted : Bool) → ConnState → ConnectAttr → ℕ → ConnResult
set_connect_attr accepted c conn_metadata_attr v =
    conn_set (record c { conn_metadata_id = uinteger v })
set_connect_attr accepted c ansi_app v = conn_set (set_ansi_app c v)
set_connect_attr accepted c enlist_in_dtc v = refuse_conn c conn_option_not_for_the_driver
set_connect_attr accepted c conn_auto_ipd v = set_conn_auto_ipd c v
set_connect_attr accepted c conn_async_enable v = refuse_conn c conn_option_not_for_the_driver
set_connect_attr accepted c connection_dead v = refuse_conn c conn_option_not_for_the_driver
set_connect_attr accepted c connection_timeout v = refuse_conn c conn_option_not_for_the_driver
set_connect_attr accepted c (conn_other option) v = set_connect_option accepted c option v

-- The two attributes that only PGAPI_SetConnectAttr has fall to PGAPI_GetConnectOption, which has
-- one of them.
unfoldable pub get_connect_attr : ConnState → ConnectAttr → ConnGot
get_connect_attr c conn_async_enable = conn_got (some 0)
get_connect_attr c conn_auto_ipd = conn_got (some 0)
get_connect_attr c connection_dead = conn_got (some (is_dead c.status))
get_connect_attr c connection_timeout = conn_got (some 0)
get_connect_attr c conn_metadata_attr = conn_got (some c.conn_metadata_id)
get_connect_attr c ansi_app = get_connect_option c ansi_option
get_connect_attr c enlist_in_dtc = get_connect_option c unknown_option
get_connect_attr c (conn_other option) = get_connect_option c option

-- What PGAPI_AllocStmt copies to the statement, and to the row descriptor inside it
unfoldable pub copy_defaults : ConnState → AttrState → AttrState
copy_defaults c s = record s {
  options = c.stmt_options;
  options_orig = c.stmt_options;
  metadata_id = c.conn_metadata_id;
  bookmark_ptr = c.conn_bookmark_ptr;
  descriptors = set_descriptor s.descriptors s.ardi c.ard_options;
}
