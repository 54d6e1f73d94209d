-- ===== src/Tests/Statement.antt =====
-- vxodbc/statement.cc at concrete inputs.
use versaplex.Prelude.{◌≡◌, refl, true, false, some, codes}
use versaplex.Statement.{
  StatementClass, Options, is_executing, sc_constructor, sc_set_current_col, sc_initialize_stmts,
  sc_set_prepared,
}
use versaplex.Statement.Recycle.{sc_recycle_statement, start_before_first}
use versaplex.Statement.Prepare.{pgapi_prepare, prepare_ready, prepare_by_status, prepare_text}
use versaplex.Statement.Execute.{pgapi_execute_vx, vx_destructor, sc_set_result}
use versaplex.Statement.Execution.{
  sc_set_executing, sc_set_cancel_request, request_cancel, sc_accepted_cancel_request,
}
use versaplex.Statement.Lifecycle.{IsClosed, sc_set_executing-sc_set_cancel_request}
use versaplex.Statement.Reachable.{
  Reachable, allocated, after, prepare, execute, Reachable-IsClosed,
}
use versaplex.Tests.Result.{five_rows}

abbrev defaults : Options
defaults = record {
  max_rows = 0;
  max_length = 0;
  keyset_size = 0;
  scroll_concurrency = 1;
  cursor_type = 0;
  retrieve_data = 1;
  use_bookmarks = 0;
}

abbrev pub new_stmt : StatementClass
new_stmt = sc_constructor 1 defaults

abbrev running : StatementClass
running = (sc_set_executing new_stmt true).0

-- A statement that is prepared, then executed with a result
abbrev prepared : StatementClass
prepared = (pgapi_prepare new_stmt (some (codes "select 1"))).0

abbrev finished : StatementClass
finished = pgapi_execute_vx prepared five_rows

finished-Reachable : Reachable 1 defaults finished
finished-Reachable =
    after (after allocated (prepare new_stmt (some (codes "select 1"))))
      (execute prepared five_rows)

idle : is_executing finished.status ≡ false
unfolding pgapi_execute_vx is_executing vx_destructor sc_set_current_col start_before_first
    sc_set_result pgapi_prepare prepare_ready prepare_by_status prepare_text sc_constructor
    sc_initialize_stmts sc_set_prepared
idle = refl

Reachable-IsClosed_example :
    ((sc_recycle_statement finished).1 ≡ true) × IsClosed (sc_recycle_statement finished).0
Reachable-IsClosed_example = Reachable-IsClosed 1 defaults finished finished-Reachable idle

abbrev requested : StatementClass
requested = record running { cancel_request_set = true }

request : sc_set_cancel_request true running ≡ (requested, false)
unfolding sc_set_cancel_request request_cancel is_executing sc_set_executing sc_constructor
request = refl

nothing_completed : running.cancel_completed ≡ false
unfolding sc_set_executing sc_constructor
nothing_completed = refl

sc_set_executing-sc_set_cancel_request_example :
    (sc_accepted_cancel_request requested ≡ true)
    × (sc_set_executing requested true ≡ (requested, false))
    × ((sc_set_executing (sc_set_executing requested false).0 true).1 ≡ true)
    × (sc_accepted_cancel_request (sc_set_executing requested false).0 ≡ false)
sc_set_executing-sc_set_cancel_request_example =
    sc_set_executing-sc_set_cancel_request true running requested nothing_completed request
