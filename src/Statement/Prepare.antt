-- ===== src/Statement/Prepare.antt =====
-- vxodbc/execute.cc: PGAPI_Prepare.
use versaplex.Prelude.{Bool, true, false, Option, none, some, Bytes}
use versaplex.Statement.{Status, StatementClass, sc_set_prepared, sc_initialize_stmts}
use versaplex.Statement.{
  not_yet_prepared, stmt_allocated, stmt_ready, stmt_premature, stmt_finished, stmt_executing,
  sequence_error, no_memory_error,
}
use versaplex.Statement.Recycle.{sc_recycle_statement}

-- PGAPI_Prepare up to the copy of the text, if the status allows it
unfoldable pub prepare_by_status : StatementClass → Status → Option StatementClass
unfolding sc_recycle_statement
prepare_by_status self stmt_premature = some (sc_recycle_statement self).0
prepare_by_status self stmt_finished = some (sc_recycle_statement self).0
prepare_by_status self stmt_allocated = some (record self { status = stmt_ready })
prepare_by_status self stmt_ready = some self
prepare_by_status self stmt_executing = none

-- PGAPI_Prepare, of a text that make_string gives, or of none, on a connection that is not only for
-- reading. The result is true for SQL_SUCCESS.
unfoldable pub prepare_text : StatementClass → Option Bytes → StatementClass × Bool
unfolding sc_initialize_stmts
prepare_text self none =
    (record (sc_initialize_stmts self true) { error = some no_memory_error }, false)
prepare_text self (some text) =
    (record (sc_initialize_stmts self true) { statement = some text; prepare = true }, true)

unfoldable pub prepare_ready :
    StatementClass → Option StatementClass → Option Bytes → StatementClass × Bool
unfolding prepare_text
prepare_ready self none text = (record self { error = some sequence_error }, false)
prepare_ready self (some ready) text = prepare_text ready text

unfoldable pub pgapi_prepare : StatementClass → Option Bytes → StatementClass × Bool
unfolding prepare_by_status prepare_ready sc_set_prepared
pgapi_prepare self text =
    let s = sc_set_prepared self not_yet_prepared in
    prepare_ready s (prepare_by_status s s.status) text
