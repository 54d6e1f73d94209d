-- ===== src/Statement/Execution.antt =====
-- vxodbc/statement.cc: SC_opencheck, SC_SetExecuting and the requests to cancel.
use versaplex.Prelude.{if◌then◌else◌, Bool, true, false, not, ◌&&◌, ◌||◌, Option, none, some}
use versaplex.Result.{QResult, QueryResultCode, pores_bad_response, pores_fatal_error}
use versaplex.Result.Cache.{is_null}
use versaplex.Statement.{Status, StatementClass, is_executing}
use versaplex.Statement.{stmt_premature, stmt_finished, stmt_executing, sequence_error}

unfoldable pub maybe_successful : QueryResultCode → Bool
maybe_successful pores_bad_response = false
maybe_successful pores_fatal_error = false
maybe_successful _ = true

unfoldable pub is_open : Option QResult → Bool
unfolding maybe_successful
is_open none = false
is_open (some res) = maybe_successful res.rstatus && not (is_null res.backend_tuples)

-- A statement that is executed before its time may be given up.
unfoldable pub is_premature : Status → Bool
is_premature stmt_premature = true
is_premature _ = false

unfoldable pub sc_opencheck : StatementClass → StatementClass × Bool
unfolding is_executing is_premature is_open
sc_opencheck self =
    let refused : StatementClass = record self { error = some sequence_error } in
    if is_executing self.status
    then (refused, true)
    else if self.prepare && is_premature self.status
    then (self, false)
    else if is_open self.result
    then (refused, true)
    else (self, false)

unfoldable pub sc_set_executing : StatementClass → (on : Bool) → StatementClass × Bool
sc_set_executing self true =
    if self.cancel_request_set
    then (self, false)
    else (record self { status = stmt_executing }, true)
sc_set_executing self false = (
  record self {
    cancel_request_set = false;
    cancel_request_accepted = false;
    cancel_completed = false;
    status = stmt_finished;
  },
  true,
)

unfoldable pub request_cancel :
    (completed executing lock_free : Bool) → StatementClass → StatementClass × Bool
request_cancel true executing lock_free self = (self, false)
request_cancel false true lock_free self = (record self { cancel_request_set = true }, false)
request_cancel false false true self = (self, true)
request_cancel false false false self = (record self { cancel_request_set = true }, false)

-- `lock_free` says whether the lock of the statement can be taken at once. The result is true if
-- it is taken.
unfoldable pub sc_set_cancel_request : (lock_free : Bool) → StatementClass → StatementClass × Bool
unfolding is_executing request_cancel
sc_set_cancel_request lock_free self =
    request_cancel self.cancel_completed (is_executing self.status) lock_free self

unfoldable pub sc_accepted_cancel_request : StatementClass → Bool
sc_accepted_cancel_request self =
    self.cancel_request_set || self.cancel_request_accepted || self.cancel_completed
