-- ===== src/Statement/Recycle.antt =====
-- vxodbc/statement.cc: SC_recycle_statement.
use versaplex.Prelude.{if◌then◌else◌, Bool, true, false, Option, none, some}
use versaplex.Prelude.Int.{negsuc, add_ℤ, neg_ℤ}
use versaplex.Result.{QResult}
use versaplex.Result.Cache.{qr_close_result}
use versaplex.Fetch.{res_rowset_start}
use versaplex.Statement.{
  Status, Prepared, StatementClass, sc_clear_error, sc_initialize_stmts, sc_set_current_col,
}
use versaplex.Statement.{
  prepared_permanently, stmt_allocated, stmt_ready, stmt_executing, sequence_error,
}

abbrev pub is_permanent : Prepared → Bool
is_permanent prepared_permanently = true
is_permanent _ = false

-- A result prepared for good is closed and kept, any other is destroyed.
unfoldable pub free_result : StatementClass → Option QResult → StatementClass
unfolding qr_close_result
free_result self none = self
free_result self (some res) =
    let (closed, n) = qr_close_result res self.ncursors in
    record self { ncursors = n; result = if is_permanent self.prepared then some closed else none }

unfoldable pub start_before_first : StatementClass → StatementClass
unfolding res_rowset_start
start_before_first self = record self {
  rowset_start = negsuc 0;
  result = elim self.result [
    | none ↦ none
    | some res ↦
        some (res_rowset_start res (negsuc 0) (add_ℤ (negsuc 0) (neg_ℤ self.rowset_start)) false)
  ];
}

unfoldable pub made_ready : StatementClass → StatementClass
unfolding free_result
made_ready self = record (free_result self self.result) {
  inaccurate_result = false;
  status = stmt_ready;
  catalog_result = false;
  curr_tuple = negsuc 0;
}

-- The part of SC_recycle_statement behind its tests
unfoldable pub recycled : StatementClass → StatementClass
unfolding made_ready start_before_first sc_set_current_col sc_initialize_stmts
recycled self =
    let at_start = sc_set_current_col (start_before_first (made_ready self)) (negsuc 0) in
    let t : StatementClass =
      sc_initialize_stmts
        (record at_start {
          bind_row = 0;
          last_fetch_count = 0;
          last_fetch_count_include_ommitted = 0;
          error = none;
        })
        false in
    record t {
      cancel_request_set = false;
      cancel_request_accepted = false;
      cancel_completed = false;
      options = record t.options {
        scroll_concurrency = t.options_orig.scroll_concurrency;
        cursor_type = t.options_orig.cursor_type;
        keyset_size = t.options_orig.keyset_size;
        max_length = t.options_orig.max_length;
        max_rows = t.options_orig.max_rows;
      };
    }

unfoldable pub recycle_by_status : StatementClass → Status → StatementClass × Bool
unfolding recycled
recycle_by_status self stmt_executing = (record self { error = some sequence_error }, false)
recycle_by_status self stmt_allocated = (self, true)
recycle_by_status self _ = (recycled self, true)

unfoldable pub sc_recycle_statement : StatementClass → StatementClass × Bool
unfolding sc_clear_error recycle_by_status
sc_recycle_statement self = recycle_by_status (sc_clear_error self) self.status
