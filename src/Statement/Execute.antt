-- ===== src/Statement/Execute.antt =====
-- PGAPI_Execute_Vx and PGAPI_ExecDirect_Vx of vxodbc/execute.cc with the VxStatement of
-- vxodbc/vxhelpers.h, for a statement that is not internal. What runquery gets from the server is
-- an argument.
use versaplex.Prelude.{Bool, true, false, some, Bytes}
use versaplex.Prelude.Int.{negsuc}
use versaplex.Result.{QResult}
use versaplex.Statement.{StatementClass, stmt_finished, sc_initialize_stmts, sc_set_current_col}
use versaplex.Statement.Recycle.{sc_recycle_statement, start_before_first}

-- The old result, if there is one, is destroyed.
unfoldable pub sc_set_result : StatementClass → QResult → StatementClass
sc_set_result self res = record self { result = some res }

unfoldable pub vx_destructor : StatementClass → StatementClass
unfolding start_before_first sc_set_current_col
vx_destructor stmt =
    sc_set_current_col
      (start_before_first (record stmt { status = stmt_finished; curr_tuple = negsuc 0 }))
      (negsuc 0)

unfoldable pub sc_initialize_and_recycle : StatementClass → StatementClass × Bool
unfolding sc_initialize_stmts sc_recycle_statement
sc_initialize_and_recycle self = sc_recycle_statement (sc_initialize_stmts self true)

unfoldable pub pgapi_execute_vx : StatementClass → QResult → StatementClass
unfolding sc_set_result vx_destructor
pgapi_execute_vx stmt rs = vx_destructor (sc_set_result stmt rs)

-- The second component is true for SQL_SUCCESS. The statement is executed also where
-- SC_recycle_statement refuses.
unfoldable pub pgapi_exec_direct_vx : StatementClass → Bytes → QResult → StatementClass × Bool
unfolding sc_initialize_and_recycle sc_set_result vx_destructor
pgapi_exec_direct_vx stmt text rs =
    let (t, recycled) = sc_initialize_and_recycle stmt in
    (
      vx_destructor (record (sc_set_result t rs) { statement = some text; catalog_result = false }),
      recycled,
    )
