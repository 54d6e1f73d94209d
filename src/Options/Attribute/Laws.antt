-- ===== src/Options/Attribute/Laws.antt =====
-- What an attribute of a statement is set to is what is read.
use versaplex.Prelude.{ℕ, zero, suc, ◌<◌, ◌≡◌, refl, ap, ◌∙◌, Bool, true, arith}
use versaplex.Options.{
  StatementOption, OptionState, SetResult, set_value, changed_value, set_refused, uinteger,
}
use versaplex.Options.Set.{get_stmt_option}
use versaplex.Options.Laws.{GetsBack, is_kept, uinteger-id, get_stmt_option-set_statement_option}
use versaplex.Options.Attribute.{
  StmtAttr, fetch_bookmark_attr, param_bind_offset_attr, param_bind_type_attr, param_operation_attr,
  param_status_attr, params_processed_attr, paramset_size_attr, row_bind_offset_attr,
  row_operation_attr, row_status_attr, rows_fetched_attr, row_array_size_attr, app_row_desc,
  app_param_desc, imp_row_desc, imp_param_desc, cursor_scrollable, cursor_sensitivity,
  metadata_id_attr, enable_auto_ipd, auto_ipd, other,
}
use versaplex.Options.Attribute.{
  AppFields, AttrState, AttrResult, attr_set, attr_changed, attr_refused, ard_fields, apd_fields,
  set_descriptor, put_ard, put_apd, option_state, with_option_state, attr_result, set_auto_ipd,
  descriptor_or, set_stmt_attr, get_stmt_attr, got, got_option,
}

pub set_descriptor_same :
    (memory : ℕ → AppFields) (h : ℕ) (fields : AppFields)
    → set_descriptor memory h fields h ≡ fields
unfolding set_descriptor
set_descriptor_same memory h fields = ground arith

pub ard_fields-put_ard :
    (s : AttrState) (fields : AppFields) → ard_fields (put_ard s fields) ≡ fields
unfolding ard_fields put_ard
ard_fields-put_ard s fields = set_descriptor_same s.descriptors s.ard fields

apd_fields-put_apd : (s : AttrState) (fields : AppFields) → apd_fields (put_apd s fields) ≡ fields
unfolding apd_fields put_apd
apd_fields-put_apd s fields = set_descriptor_same s.descriptors s.apd fields

-- The functions of ODBC 2 find the statement as they left it.
option_state-with_option_state :
    (s : AttrState) (o : OptionState) → option_state (with_option_state s o) ≡ o
unfolding option_state with_option_state ard_fields
option_state-with_option_state s o =
    ap
      (λ fields. record o {
        bind_size = AppFields.bind_size fields;
        size_of_rowset_odbc2 = AppFields.size_of_rowset_odbc2 fields;
      })
      (set_descriptor_same s.descriptors s.ard _)

-- The attributes whose value is kept; the others are refused, or accepted and ignored.
unfoldable pub is_kept_attr : StmtAttr → Bool
is_kept_attr fetch_bookmark_attr = true
is_kept_attr param_bind_offset_attr = true
is_kept_attr param_bind_type_attr = true
is_kept_attr param_operation_attr = true
is_kept_attr param_status_attr = true
is_kept_attr params_processed_attr = true
is_kept_attr paramset_size_attr = true
is_kept_attr row_bind_offset_attr = true
is_kept_attr row_operation_attr = true
is_kept_attr row_status_attr = true
is_kept_attr rows_fetched_attr = true
is_kept_attr row_array_size_attr = true
is_kept_attr app_row_desc = true
is_kept_attr app_param_desc = true
is_kept_attr imp_row_desc = true
is_kept_attr imp_param_desc = true
is_kept_attr cursor_scrollable = true
is_kept_attr cursor_sensitivity = true
is_kept_attr metadata_id_attr = true
is_kept_attr enable_auto_ipd = true
is_kept_attr auto_ipd = true
is_kept_attr (other option) = is_kept option

-- NULL for one of the application descriptors reads as the one inside the statement.
unfoldable pub value_read : AttrState → StmtAttr → ℕ → ℕ
value_read s app_row_desc v = descriptor_or s.ardi v
value_read s app_param_desc v = descriptor_or s.apdi v
value_read s fetch_bookmark_attr v = v
value_read s param_bind_offset_attr v = v
value_read s param_bind_type_attr v = v
value_read s param_operation_attr v = v
value_read s param_status_attr v = v
value_read s params_processed_attr v = v
value_read s paramset_size_attr v = v
value_read s row_bind_offset_attr v = v
value_read s row_operation_attr v = v
value_read s row_status_attr v = v
value_read s rows_fetched_attr v = v
value_read s row_array_size_attr v = v
value_read s imp_row_desc v = v
value_read s imp_param_desc v = v
value_read s cursor_scrollable v = v
value_read s cursor_sensitivity v = v
value_read s metadata_id_attr v = v
value_read s enable_auto_ipd v = v
value_read s auto_ipd v = v
value_read s (other option) v = v

-- SQL_SUCCESS means that the value is read back.
unfoldable pub ReadsBack : StmtAttr → ℕ → AttrResult → Type 0
ReadsBack a v (attr_set s) = get_stmt_attr s a ≡ got (value_read s a v)
ReadsBack a v (attr_changed s) = Unit
ReadsBack a v (attr_refused s) = Unit

attr_result-ReadsBack :
    (s : AttrState) (option : StatementOption) (v : ℕ) (r : SetResult)
    → GetsBack option v r
    → ReadsBack (other option) v (attr_result s r)
unfolding attr_result GetsBack ReadsBack get_stmt_attr got_option value_read
attr_result-ReadsBack s option v (set_value o) back =
    ap (got_option (with_option_state s o))
      (ap (λ after. get_stmt_option after option) (option_state-with_option_state s o) ∙ back)
attr_result-ReadsBack s option v (changed_value o) back = tt
attr_result-ReadsBack s option v (set_refused o) back = tt

set_auto_ipd-ReadsBack : (s : AttrState) (v : ℕ) → ReadsBack enable_auto_ipd v (set_auto_ipd s v)
unfolding set_auto_ipd ReadsBack get_stmt_attr value_read
set_auto_ipd-ReadsBack s zero = refl
set_auto_ipd-ReadsBack s (suc v) = tt

-- The size of a parameter set is cut to 32 bits when it is set and when it is read.
paramset_kept :
    (s : AttrState) (v : ℕ)
    → v < 2147483648
    → got (
        uinteger
          (apd_fields
            (put_apd s (record (apd_fields s) { size_of_rowset = uinteger v }))).size_of_rowset)
      ≡ got v
paramset_kept s v small =
    ap (λ fields. got (uinteger (AppFields.size_of_rowset fields))) (apd_fields-put_apd s _)
    ∙ ap (λ n. got (uinteger n)) (uinteger-id v small)
    ∙ ap got (uinteger-id v small)

-- When a value below 2 ^ 31 is set for an attribute of a statement, other than those of ODBC 2
-- that are accepted and ignored, and the answer is SQL_SUCCESS, the attribute reads that value;
-- after NULL for an application descriptor it reads the descriptor inside the statement. This
-- holds also when one descriptor serves the statement's rows and its parameters.
pub get_stmt_attr-set_stmt_attr :
    (s : AttrState) (a : StmtAttr) (v : ℕ)
    → is_kept_attr a ≡ true
    → v < 2147483648
    → ReadsBack a v (set_stmt_attr s a v)
unfolding set_stmt_attr is_kept_attr ReadsBack get_stmt_attr value_read
get_stmt_attr-set_stmt_attr s fetch_bookmark_attr v kept small = refl
get_stmt_attr-set_stmt_attr s param_bind_offset_attr v kept small =
    ap (λ fields. got (AppFields.offset_ptr fields)) (apd_fields-put_apd s _)
get_stmt_attr-set_stmt_attr s param_bind_type_attr v kept small =
    ap (λ fields. got (AppFields.bind_size fields)) (apd_fields-put_apd s _)
    ∙ ap got (uinteger-id v small)
get_stmt_attr-set_stmt_attr s param_operation_attr v kept small =
    ap (λ fields. got (AppFields.operation_ptr fields)) (apd_fields-put_apd s _)
get_stmt_attr-set_stmt_attr s param_status_attr v kept small = refl
get_stmt_attr-set_stmt_attr s params_processed_attr v kept small = refl
get_stmt_attr-set_stmt_attr s paramset_size_attr v kept small = paramset_kept s v small
get_stmt_attr-set_stmt_attr s row_bind_offset_attr v kept small =
    ap (λ fields. got (AppFields.offset_ptr fields)) (ard_fields-put_ard s _)
get_stmt_attr-set_stmt_attr s row_operation_attr v kept small =
    ap (λ fields. got (AppFields.operation_ptr fields)) (ard_fields-put_ard s _)
get_stmt_attr-set_stmt_attr s row_status_attr v kept small = refl
get_stmt_attr-set_stmt_attr s rows_fetched_attr v kept small = refl
get_stmt_attr-set_stmt_attr s row_array_size_attr v kept small =
    ap (λ fields. got (AppFields.size_of_rowset fields)) (ard_fields-put_ard s _)
get_stmt_attr-set_stmt_attr s app_row_desc v kept small = refl
get_stmt_attr-set_stmt_attr s app_param_desc v kept small = refl
get_stmt_attr-set_stmt_attr s imp_row_desc v kept small = tt
get_stmt_attr-set_stmt_attr s imp_param_desc v kept small = tt
get_stmt_attr-set_stmt_attr s cursor_scrollable v kept small = tt
get_stmt_attr-set_stmt_attr s cursor_sensitivity v kept small = tt
get_stmt_attr-set_stmt_attr s metadata_id_attr v kept small = ap got (uinteger-id v small)
get_stmt_attr-set_stmt_attr s enable_auto_ipd v kept small = set_auto_ipd-ReadsBack s v
get_stmt_attr-set_stmt_attr s auto_ipd v kept small = tt
get_stmt_attr-set_stmt_attr s (other option) v kept small =
    attr_result-ReadsBack s option v _
      (get_stmt_option-set_statement_option (option_state s) option v kept small)
