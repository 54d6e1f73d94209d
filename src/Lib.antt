-- ===== src/Lib.antt =====
-- Verification library of vxodbc, the ODBC driver of Versaplex (the C++ part of the repository).
--
-- The driver takes ODBC calls from an application, turns its strings into the encoding of the
-- connection, passes queries on, and hands rows, column data and errors back in the pieces that
-- the application's buffers hold.
--
-- The files and the code that they model:
--   Prelude         the shared names, lists and Boolean tests over the native numbers, C strings,
--                   integers, and checks of a whole small range by evaluation
--   Multibyte       vxodbc/multibyte.cc and multibyte.h: Charset has the enumeration and the two
--                   tables with pg_CS_code, pg_CS_name and pg_mb_maxlen; Stat has pg_CS_stat; Scan
--                   has pg_mbschr, pg_mbslen, pg_mbsinc and encoded_str; ClientEncoding has
--                   check_client_encoding. Chars says what a character of each encoding is; the theorems
--                   on whole texts leave out JOHAB, some of whose lead bytes the driver does not know.
--   Unicode         vxodbc/win_unicode.cc: ucs2strlen, ucs2_to_utf8 (encode), utf8_to_ucs2_lf (decode)
--   Convert         vxodbc/convert.cc: Bytea has convert_to_pgbinary and convert_from_pgbinary, Hex has
--                   pg_bin2hex and pg_hex2bin over one memory, Linefeeds has convert_linefeeds,
--                   Literal has convert_special_chars, Money has convert_money; Clause has
--                   into_table_from, table_for_update, insert_without_target and findTag; Field has the part
--                   of copy_and_convert_field that copies a text in pieces
--   Diagnostics     vxodbc/environ.cc: ER_Constructor and ER_ReturnError; Drain has the requests for a
--                   whole message
--   Bindings        vxodbc/bind.cc and bind.h: the lists of bindings and of SQLGetData states; BindCol has
--                   PGAPI_BindCol, Parameters has CountParameters
--   Text            vxodbc/misc.cc: my_strcpy, strncpy_null, make_string, remove_newlines and trim
--   Types           vxodbc/pgtypes.cc and pgtypes.h: the tables between SQL, PostgreSQL and C types,
--                   and (Tables, Sizes, Lengths) those of names, sizes and lengths
--   Result          vxodbc/qresult.h, qresult.cc, tuple.h and the search of vxodbc/results.cc: Result has
--                   the result object; Cache has QR_Constructor, QR_set_cursor, QR_AddNew,
--                   QR_free_memory, QR_close_result, the messages and enlargeKeyCache; Valid has
--                   getNthValid; Deleted has AddDeleted, RemoveDeleted, CommitDeleted and CommitAdded
--   Fetch           vxodbc/results.cc: PGAPI_ExtendedFetch from the switch over the fetch types up to
--                   its loop over the rows, with SC_set_rowset_start of vxodbc/statement.cc
--   Statement       vxodbc/statement.cc and statement.h: SC_Constructor, SC_recycle_statement,
--                   SC_opencheck, SC_SetExecuting and the requests to cancel, PGAPI_Prepare of
--                   vxodbc/execute.cc, and (Execute) PGAPI_Execute_Vx and PGAPI_ExecDirect_Vx with
--                   the VxStatement of vxodbc/vxhelpers.h; Reachable has the states any calls lead to; Kind has
--                   statement_type
--   Connection      the tables of handles: CC_add_statement and CC_remove_statement of
--                   vxodbc/connection.cc, CC_add_descriptor of descriptor.cc, EN_add_connection and
--                   EN_remove_connection of environ.cc; Free has PGAPI_FreeStmt of statement.cc
--   Catalog         vxodbc/info.cc: simpleCatalogEscape and adjustLikePattern
--   Options         vxodbc/options.cc: set_statement_option for a statement and PGAPI_GetStmtOption,
--                   and the options SC_recycle_statement puts back; Attribute has PGAPI_SetStmtAttr and
--                   PGAPI_GetStmtAttr of vxodbc/pgapi30.cc; Connect has the options and attributes of a
--                   connection, with what PGAPI_AllocStmt of statement.cc copies of them
--   Parse           vxodbc/parse.cc: getNextToken in Token; the loop of parse_statement over the tokens
--                   in State, Level, Select, From and Loop; the tables of the fields in Resolve
--   Tests           the theorems at concrete inputs, and runs of the definitions
--
-- A C string is the list of its bytes before the terminator, and a pointer into it an offset or
-- what is left of the list. A loop over a string is a recursion on the list; no fuel is needed.
-- A statement has one result, which Fetch reaches through getNthValid, and Statement closes with
-- QR_close_result. A flag word is a record of its bits.
-- Where the code can read behind the terminator, the result type has a constructor for it. The
-- calls of <ctype.h> and <string.h> are those of the C locale. An allocation can fail in Bindings,
-- Result and Connection, where the code tests for it, and succeeds elsewhere. Three loops go by fuel:
-- the requests for the whole of a message, with one unit for each byte and one more, which a record
-- of one byte needs; and the doubling of enlargeKeyCache, with one unit for each entry asked for and
-- one more, since each doubling adds an entry at least; and the loop over the tokens of a statement,
-- with one unit for each byte and one more, since each token takes a byte.
--
-- Not modelled: what asks the server, the operating system or the driver manager, logging, locks,
-- and the C# server.
mod Prelude
pub mod Multibyte
pub mod Unicode
pub mod Convert
pub mod Diagnostics
pub mod Bindings
pub mod Text
pub mod Types
pub mod Result
pub mod Fetch
pub mod Statement
pub mod Connection
pub mod Catalog
pub mod Options
pub mod Parse
mod Tests
