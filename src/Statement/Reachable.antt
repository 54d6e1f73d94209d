-- ===== src/Statement/Reachable.antt =====
-- vxodbc/statement.cc and execute.cc: the states that a statement comes to, from its allocation on,
-- by any sequence of calls.
use versaplex.Prelude.{
  Bool, true, false, ◌&&◌, ℕ, Option, none, some, Bytes, ◌≡◌, refl, sym, ap, ◌∙◌, Bool-cases, inl,
  inr,
}
use versaplex.Result.{QResult}
use versaplex.Statement.{
  Status, stmt_allocated, stmt_ready, stmt_premature, stmt_finished, stmt_executing,
  not_yet_prepared, StatementClass, Options, sc_constructor, is_executing, sc_set_prepared,
  sc_initialize_stmts, sc_clear_error,
}
use versaplex.Prelude.Int.{negsuc}
use versaplex.Statement.Recycle.{sc_recycle_statement, recycle_by_status, start_before_first}
use versaplex.Statement.Execution.{sc_set_executing, sc_set_cancel_request, request_cancel}
use versaplex.Statement.Execute.{
  sc_set_result, vx_destructor, sc_initialize_and_recycle, pgapi_execute_vx, pgapi_exec_direct_vx,
}
use versaplex.Statement.Prepare.{pgapi_prepare, prepare_by_status, prepare_ready, prepare_text}
use versaplex.Statement.Lifecycle.{
  IsSound, IsClosed, recycled-IsClosed, is_idle, has_rows, sc_recycle_statement-IsClosed,
  IsSound-sc_clear_error, status-sc_set_current_col,
}

-- One call. The result of an execution is whatever comes from the server.
pub data Step : StatementClass → StatementClass → Type 0 where
  prepare : (s : StatementClass) (text : Option Bytes) → Step s (pgapi_prepare s text).0
  set_executing : (s : StatementClass) (on : Bool) → Step s (sc_set_executing s on).0
  cancel : (s : StatementClass) (lock_free : Bool) → Step s (sc_set_cancel_request lock_free s).0
  recycle : (s : StatementClass) → Step s (sc_recycle_statement s).0
  execute : (s : StatementClass) (res : QResult) → Step s (pgapi_execute_vx s res)
  exec_direct :
      (s : StatementClass) (text : Bytes) (res : QResult)
      → Step s (pgapi_exec_direct_vx s text res).0

pub data Reachable (conn : ℕ) (options : Options) : StatementClass → Type 0 where
  allocated : Reachable conn options (sc_constructor conn options)
  after : {s t : StatementClass} → Reachable conn options s → Step s t → Reachable conn options t

recycle_by_status-IsSound :
    (s : StatementClass) (status : Status) → IsSound s → IsSound (recycle_by_status s status).0
unfolding recycle_by_status
recycle_by_status-IsSound s stmt_allocated i = i
recycle_by_status-IsSound s stmt_ready i = (recycled-IsClosed s).2
recycle_by_status-IsSound s stmt_premature i = (recycled-IsClosed s).2
recycle_by_status-IsSound s stmt_finished i = (recycled-IsClosed s).2
recycle_by_status-IsSound s stmt_executing i = i

IsSound-recycle : (s : StatementClass) → IsSound s → IsSound (sc_recycle_statement s).0
unfolding sc_recycle_statement
IsSound-recycle s i =
    recycle_by_status-IsSound (sc_clear_error s) s.status (IsSound-sc_clear_error s i)

IsSound-prepare_text :
    (s : StatementClass) (text : Option Bytes) → IsSound s → IsSound (prepare_text s text).0
unfolding prepare_text sc_initialize_stmts sc_set_prepared
IsSound-prepare_text s none i = i
IsSound-prepare_text s (some text) i = i

-- An idle statement has no rows.
idle :
    (s : StatementClass) (status : Status)
    → s.status ≡ status
    → is_idle status ≡ true
    → IsSound s
    → has_rows s.result ≡ false
idle s status e h i = sym (ap (λ b. b && has_rows s.result) (ap is_idle e ∙ h)) ∙ i

prepare_by_status-IsSound :
    (s : StatementClass) (status : Status) (text : Option Bytes)
    → s.status ≡ status
    → IsSound s
    → IsSound (prepare_ready s (prepare_by_status s status) text).0
unfolding prepare_by_status prepare_ready is_idle
prepare_by_status-IsSound s stmt_allocated text e i =
    IsSound-prepare_text (record s { status = stmt_ready }) text (idle s stmt_allocated e refl i)
prepare_by_status-IsSound s stmt_ready text e i = IsSound-prepare_text s text i
prepare_by_status-IsSound s stmt_premature text e i =
    IsSound-prepare_text (sc_recycle_statement s).0 text (IsSound-recycle s i)
prepare_by_status-IsSound s stmt_finished text e i =
    IsSound-prepare_text (sc_recycle_statement s).0 text (IsSound-recycle s i)
prepare_by_status-IsSound s stmt_executing text e i = i

IsSound-pgapi_prepare :
    (s : StatementClass) (text : Option Bytes) → IsSound s → IsSound (pgapi_prepare s text).0
unfolding pgapi_prepare sc_set_prepared
IsSound-pgapi_prepare s text i =
    prepare_by_status-IsSound (sc_set_prepared s not_yet_prepared) s.status text refl i

IsSound-sc_set_executing :
    (s : StatementClass) (on : Bool) → IsSound s → IsSound (sc_set_executing s on).0
unfolding sc_set_executing is_idle
IsSound-sc_set_executing s true i = elim (Bool-cases s.cancel_request_set) [
  | inl t ↦ simp t i
  | inr f ↦ simp f refl
]
IsSound-sc_set_executing s false i = refl

IsSound-request_cancel :
    (completed executing lock_free : Bool) (s : StatementClass)
    → IsSound s
    → IsSound (request_cancel completed executing lock_free s).0
unfolding request_cancel
IsSound-request_cancel true executing lock_free s i = i
IsSound-request_cancel false true lock_free s i = i
IsSound-request_cancel false false true s i = i
IsSound-request_cancel false false false s i = i

-- A statement that is executed is finished, whatever its result.
IsSound-vx_destructor : (s : StatementClass) → IsSound (vx_destructor s)
unfolding vx_destructor is_idle start_before_first
IsSound-vx_destructor s =
    let ended : StatementClass = record s { status = stmt_finished; curr_tuple = negsuc 0 } in
    ap (λ t. is_idle t && has_rows (vx_destructor s).result)
      (status-sc_set_current_col (start_before_first ended) (negsuc 0))

IsSound-Step : {s t : StatementClass} → Step s t → IsSound s → IsSound t
unfolding sc_set_cancel_request is_idle pgapi_execute_vx pgapi_exec_direct_vx
IsSound-Step (prepare s text) i = IsSound-pgapi_prepare s text i
IsSound-Step (set_executing s on) i = IsSound-sc_set_executing s on i
IsSound-Step (cancel s lock_free) i =
    IsSound-request_cancel s.cancel_completed (is_executing s.status) lock_free s i
IsSound-Step (recycle s) i = IsSound-recycle s i
IsSound-Step (execute s res) i = IsSound-vx_destructor (sc_set_result s res)
IsSound-Step (exec_direct s text res) i =
    IsSound-vx_destructor (record (sc_set_result (sc_initialize_and_recycle s).0 res) {
      statement = some text;
      catalog_result = false;
    })

Reachable-IsSound :
    (conn : ℕ) (options : Options) {s : StatementClass} → Reachable conn options s → IsSound s
unfolding sc_constructor is_idle has_rows
Reachable-IsSound conn options allocated = refl
Reachable-IsSound conn options (after r step) = IsSound-Step step (Reachable-IsSound conn options r)

-- A statement that any calls of PGAPI_Prepare, PGAPI_Execute_Vx and PGAPI_ExecDirect_Vx with
-- whatever results, SC_SetExecuting, SC_SetCancelRequest and SC_recycle_statement have come to from
-- its allocation on: if
-- it is not executing, SC_recycle_statement returns TRUE, and leaves it not executing and with no
-- cursor that SC_opencheck finds.
pub Reachable-IsClosed :
    (conn : ℕ) (options : Options) (s : StatementClass)
    → Reachable conn options s
    → is_executing s.status ≡ false
    → ((sc_recycle_statement s).1 ≡ true) × IsClosed (sc_recycle_statement s).0
Reachable-IsClosed conn options s r e =
    sc_recycle_statement-IsClosed s e (Reachable-IsSound conn options r)
