-- ===== src/Statement/Lifecycle.antt =====
-- vxodbc/statement.cc: what recycling a statement leaves, and how a request to cancel stops it.
use versaplex.Prelude.{
  and_false, ℕ, Bool, true, false, not, ◌&&◌, Option, none, some, ◌≡◌, refl, sym, arith, ap, ◌∙◌,
  Bool-cases, Option-cases, inl, inr,
}
use mathlib.Core.Bool.{true≢false}
use versaplex.Prelude.Int.{ℤ, negsuc, add_ℤ, neg_ℤ}
use versaplex.Result.{QResult, has_cursor}
use versaplex.Result.Cache.{
  is_null, qr_close_result, qr_free_memory, qr_set_cursor, drop_cursor, qr_set_rowstart_in_cache,
  qr_inc_rowstart_in_cache,
}
use versaplex.Fetch.{res_rowset_start}
use versaplex.Statement.{
  Status, stmt_allocated, stmt_ready, stmt_premature, stmt_finished, stmt_executing, StatementClass,
  sequence_error, is_executing, sc_clear_error, cleared_result, sc_set_current_col,
  sc_initialize_stmts, same_col,
}
use versaplex.Statement.Recycle.{
  is_permanent, free_result, start_before_first, made_ready, recycled, recycle_by_status,
  sc_recycle_statement,
}
use versaplex.Statement.Execution.{
  is_open, maybe_successful, sc_opencheck, sc_set_executing, request_cancel, sc_set_cancel_request,
  sc_accepted_cancel_request, is_premature,
}

unfoldable pub is_idle : Status → Bool
is_idle stmt_allocated = true
is_idle stmt_ready = true
is_idle _ = false

unfoldable pub has_rows : Option QResult → Bool
has_rows none = false
has_rows (some res) = not (is_null res.backend_tuples)

-- A statement that is allocated or ready has no rows.
abbrev pub IsSound : StatementClass → Type 0
IsSound s = (is_idle s.status && has_rows s.result) ≡ false

-- A result with no rows is not open.
is_open-has_rows : (o : Option QResult) → has_rows o ≡ false → is_open o ≡ false
unfolding is_open has_rows
is_open-has_rows none h = refl
is_open-has_rows (some res) h = rw h (and_false (maybe_successful res.rstatus))

backend_tuples-res_rowset_start :
    (res : QResult) (start incr : ℤ) (valid : Bool)
    → (res_rowset_start res start incr valid).backend_tuples ≡ res.backend_tuples
unfolding res_rowset_start qr_set_rowstart_in_cache qr_inc_rowstart_in_cache
backend_tuples-res_rowset_start res start incr valid = ground arith

backend_tuples-qr_close_result :
    (res : QResult) (n : Option ℕ) → (qr_close_result res n).0.backend_tuples ≡ none
unfolding qr_close_result qr_free_memory qr_set_cursor drop_cursor
backend_tuples-qr_close_result res n = elim (Bool-cases (has_cursor res)) [
  | inl t ↦ rw t refl
  | inr f ↦ rw f refl
]

has_rows-free_result :
    (s : StatementClass) (o : Option QResult)
    → s.result ≡ o
    → has_rows (free_result s o).result ≡ false
unfolding free_result has_rows
has_rows-free_result s none e = rw e refl
has_rows-free_result s (some res) e = elim (Bool-cases (is_permanent s.prepared)) [
  | inl t ↦ rw t (rw (backend_tuples-qr_close_result res s.ncursors) refl)
  | inr f ↦ rw f refl
]

has_rows-start_before_first :
    (s : StatementClass) → has_rows (start_before_first s).result ≡ has_rows s.result
unfolding start_before_first has_rows
has_rows-start_before_first s = elim (Option-cases s.result) [
  | inl e ↦ rw e refl
  | inr (res, e) ↦ rw e (
      rw
        (backend_tuples-res_rowset_start res (negsuc 0) (add_ℤ (negsuc 0) (neg_ℤ s.rowset_start))
          false)
        refl)
]

result-sc_set_current_col :
    (s : StatementClass) (col : ℤ) → (sc_set_current_col s col).result ≡ s.result
unfolding sc_set_current_col
result-sc_set_current_col s col = elim (Bool-cases (same_col col s.current_col)) [
  | inl t ↦ rw t refl
  | inr f ↦ rw f refl
]

pub status-sc_set_current_col :
    (s : StatementClass) (col : ℤ) → (sc_set_current_col s col).status ≡ s.status
unfolding sc_set_current_col
status-sc_set_current_col s col = elim (Bool-cases (same_col col s.current_col)) [
  | inl t ↦ rw t refl
  | inr f ↦ rw f refl
]

has_rows-recycled : (s : StatementClass) → has_rows (recycled s).result ≡ false
unfolding recycled sc_initialize_stmts made_ready
has_rows-recycled s =
    ap has_rows (result-sc_set_current_col (start_before_first (made_ready s)) (negsuc 0))
    ∙ has_rows-start_before_first (made_ready s)
    ∙ has_rows-free_result s s.result refl

status-recycled : (s : StatementClass) → (recycled s).status ≡ stmt_ready
unfolding recycled sc_initialize_stmts start_before_first made_ready
status-recycled s = status-sc_set_current_col (start_before_first (made_ready s)) (negsuc 0)

-- Closed: not executing, and SC_opencheck finds no open cursor.
abbrev pub IsClosed : StatementClass → Type 0
IsClosed s = (is_executing s.status ≡ false) × (sc_opencheck s ≡ (s, false)) × IsSound s

closed :
    (s : StatementClass)
    → is_executing s.status ≡ false
    → has_rows s.result ≡ false
    → sc_opencheck s ≡ (s, false)
unfolding sc_opencheck
closed s e h = elim (Bool-cases (s.prepare && is_premature s.status)) [
  | inl t ↦ rw e (rw t refl)
  | inr f ↦ rw e (rw f (rw (is_open-has_rows s.result h) refl))
]

pub recycled-IsClosed : (s : StatementClass) → IsClosed (recycled s)
unfolding is_executing is_idle
recycled-IsClosed s =
    let e : is_executing (recycled s).status ≡ false = ap is_executing (status-recycled s) in
    (
      e,
      closed (recycled s) e (has_rows-recycled s),
      ap (λ t. is_idle t && has_rows (recycled s).result) (status-recycled s) ∙ has_rows-recycled s,
    )

recycle_by_status-IsClosed :
    (s : StatementClass) (status : Status)
    → s.status ≡ status
    → is_executing status ≡ false
    → IsSound s
    → ((recycle_by_status s status).1 ≡ true) × IsClosed (recycle_by_status s status).0
unfolding recycle_by_status is_executing is_idle
recycle_by_status-IsClosed s stmt_allocated e h i =
    let f : is_executing s.status ≡ false = ap is_executing e in
    let n : has_rows s.result ≡ false = sym (ap (λ t. is_idle t && has_rows s.result) e) ∙ i in
    (refl, (f, closed s f n, i))
recycle_by_status-IsClosed s stmt_ready e h i = (refl, recycled-IsClosed s)
recycle_by_status-IsClosed s stmt_premature e h i = (refl, recycled-IsClosed s)
recycle_by_status-IsClosed s stmt_finished e h i = (refl, recycled-IsClosed s)
recycle_by_status-IsClosed s stmt_executing e h i = absurd cc

has_rows-cleared_result : (o : Option QResult) → has_rows (cleared_result o) ≡ has_rows o
unfolding cleared_result has_rows
has_rows-cleared_result none = refl
has_rows-cleared_result (some res) = refl

pub IsSound-sc_clear_error : (s : StatementClass) → IsSound s → IsSound (sc_clear_error s)
unfolding sc_clear_error
IsSound-sc_clear_error s i = ap (λ b. is_idle s.status && b) (has_rows-cleared_result s.result) ∙ i

-- Let a statement that is allocated or ready have no rows. SC_recycle_statement of a statement that
-- is not executing returns TRUE, and leaves it not executing, with no cursor that SC_opencheck
-- finds, and with no rows if it is allocated or ready.
pub sc_recycle_statement-IsClosed :
    (s : StatementClass)
    → is_executing s.status ≡ false
    → IsSound s
    → ((sc_recycle_statement s).1 ≡ true) × IsClosed (sc_recycle_statement s).0
unfolding sc_recycle_statement sc_clear_error
sc_recycle_statement-IsClosed s e i =
    recycle_by_status-IsClosed (sc_clear_error s) s.status refl e (IsSound-sc_clear_error s i)

-- Of a statement that is executing, it returns FALSE and changes the errors only.
pub sc_recycle_statement-executing :
    (s : StatementClass)
    → s.status ≡ stmt_executing
    → sc_recycle_statement s ≡ (record (sc_clear_error s) { error = some sequence_error }, false)
unfolding sc_recycle_statement recycle_by_status
sc_recycle_statement-executing s e = ap (λ status. recycle_by_status (sc_clear_error s) status) e

request_cancel-request_set :
    (completed executing lock_free : Bool) (s t : StatementClass)
    → completed ≡ false
    → request_cancel completed executing lock_free s ≡ (t, false)
    → t.cancel_request_set ≡ true
unfolding request_cancel
request_cancel-request_set true executing lock_free s t c e = absurd cc
request_cancel-request_set false true lock_free s t c e =
    sym (ap (λ (p : StatementClass × Bool). p.0.cancel_request_set) e)
request_cancel-request_set false false true s t c e =
    absurd (true≢false (ap (λ (p : StatementClass × Bool). p.1) e))
request_cancel-request_set false false false s t c e =
    sym (ap (λ (p : StatementClass × Bool). p.0.cancel_request_set) e)

-- A request to cancel that does not take the statement's lock, on a statement where no cancelling is
-- completed: the request is seen; the next SC_SetExecuting with TRUE is refused and leaves the
-- statement as it is; after SC_SetExecuting with FALSE one with TRUE succeeds and the request is no
-- longer seen.
pub sc_set_executing-sc_set_cancel_request :
    (lock_free : Bool) (s t : StatementClass)
    → s.cancel_completed ≡ false
    → sc_set_cancel_request lock_free s ≡ (t, false)
    → (sc_accepted_cancel_request t ≡ true)
      × (sc_set_executing t true ≡ (t, false))
      × ((sc_set_executing (sc_set_executing t false).0 true).1 ≡ true)
      × (sc_accepted_cancel_request (sc_set_executing t false).0 ≡ false)
unfolding sc_set_executing sc_accepted_cancel_request sc_set_cancel_request
sc_set_executing-sc_set_cancel_request lock_free s t c e =
    let q =
      request_cancel-request_set s.cancel_completed (is_executing s.status) lock_free s t c e in
    (rw q refl, rw q refl, refl, refl)
