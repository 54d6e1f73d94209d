-- ===== src/Options/Attribute/Own.antt =====
-- The descriptor inside a statement while another one is in its place.
use versaplex.Prelude.{
  ℕ, zero, suc, ◌≡◌, ◌≢◌, refl, ap, sym, ◌∙◌, Bool, true, false, List, [], ◌∷◌, arith,
}
use versaplex.Options.{
  OptionState, SetResult, set_value, changed_value, set_refused, bind_type, rowset_size,
}
use versaplex.Options.Set.{get_stmt_option}
use versaplex.Options.Attribute.{
  StmtAttr, fetch_bookmark_attr, param_bind_offset_attr, param_bind_type_attr, param_operation_attr,
  param_status_attr, params_processed_attr, paramset_size_attr, row_bind_offset_attr,
  row_operation_attr, row_status_attr, rows_fetched_attr, row_array_size_attr, app_row_desc,
  app_param_desc, imp_row_desc, imp_param_desc, cursor_scrollable, cursor_sensitivity,
  metadata_id_attr, enable_auto_ipd, auto_ipd, other,
}
use versaplex.Options.Attribute.{
  AppFields, AttrState, attr_state, ard_fields, set_descriptor, put_ard, put_apd, option_state,
  with_option_state, attr_result, attr_error, set_auto_ipd, descriptor_or, set_stmt_attr,
  get_stmt_attr, got, got_option,
}

-- A call of PGAPI_SetStmtAttr
pub record AttrCall : Type 0 where
  pub attribute : StmtAttr
  pub value : ℕ

unfoldable pub set_stmt_attrs : AttrState → List AttrCall → AttrState
set_stmt_attrs s [] = s
set_stmt_attrs s (call ∷ calls) =
    set_stmt_attrs (attr_state (set_stmt_attr s call.attribute call.value)) calls

-- The calls that leave the statement with the application descriptors it has
unfoldable pub keeps_descriptors : StmtAttr → Bool
keeps_descriptors app_row_desc = false
keeps_descriptors app_param_desc = false
keeps_descriptors fetch_bookmark_attr = true
keeps_descriptors param_bind_offset_attr = true
keeps_descriptors param_bind_type_attr = true
keeps_descriptors param_operation_attr = true
keeps_descriptors param_status_attr = true
keeps_descriptors params_processed_attr = true
keeps_descriptors paramset_size_attr = true
keeps_descriptors row_bind_offset_attr = true
keeps_descriptors row_operation_attr = true
keeps_descriptors row_status_attr = true
keeps_descriptors rows_fetched_attr = true
keeps_descriptors row_array_size_attr = true
keeps_descriptors imp_row_desc = true
keeps_descriptors imp_param_desc = true
keeps_descriptors cursor_scrollable = true
keeps_descriptors cursor_sensitivity = true
keeps_descriptors metadata_id_attr = true
keeps_descriptors enable_auto_ipd = true
keeps_descriptors auto_ipd = true
keeps_descriptors (other option) = true

unfoldable pub KeepDescriptors : List AttrCall → Type 0
KeepDescriptors [] = Unit
KeepDescriptors (call ∷ calls) = (keeps_descriptors call.attribute ≡ true) × KeepDescriptors calls

-- The statement `s` became `after`: the handles are the same, and one descriptor is as it was.
record Untouched (handle : ℕ) (s after : AttrState) : Type 0 where
  same_ard : after.ard ≡ s.ard
  same_apd : after.apd ≡ s.apd
  same_ardi : after.ardi ≡ s.ardi
  same_fields : after.descriptors handle ≡ s.descriptors handle

set_descriptor_other :
    (memory : ℕ → AppFields) (h k : ℕ) (fields : AppFields)
    → h ≢ k
    → set_descriptor memory h fields k ≡ memory k
unfolding set_descriptor
set_descriptor_other memory h k fields apart = ground arith

unchanged :
    (k : ℕ) (s after : AttrState)
    → after.ard ≡ s.ard
    → after.apd ≡ s.apd
    → after.ardi ≡ s.ardi
    → after.descriptors k ≡ s.descriptors k
    → Untouched k s after
unchanged k s after ard apd ardi fields = record {
  same_ard = ard;
  same_apd = apd;
  same_ardi = ardi;
  same_fields = fields;
}

Untouched-refl : (k : ℕ) (s : AttrState) → Untouched k s s
Untouched-refl k s = unchanged k s s refl refl refl refl

Untouched-trans :
    (k : ℕ) (s middle after : AttrState)
    → Untouched k s middle
    → Untouched k middle after
    → Untouched k s after
Untouched-trans k s middle after p q = record {
  same_ard = q.same_ard ∙ p.same_ard;
  same_apd = q.same_apd ∙ p.same_apd;
  same_ardi = q.same_ardi ∙ p.same_ardi;
  same_fields = q.same_fields ∙ p.same_fields;
}

put_ard-Untouched :
    (k : ℕ) (s : AttrState) (fields : AppFields) → s.ard ≢ k → Untouched k s (put_ard s fields)
unfolding put_ard
put_ard-Untouched k s fields apart =
    unchanged k s _ refl refl refl (set_descriptor_other s.descriptors s.ard k fields apart)

put_apd-Untouched :
    (k : ℕ) (s : AttrState) (fields : AppFields) → s.apd ≢ k → Untouched k s (put_apd s fields)
unfolding put_apd
put_apd-Untouched k s fields apart =
    unchanged k s _ refl refl refl (set_descriptor_other s.descriptors s.apd k fields apart)

with_option_state-Untouched :
    (k : ℕ) (s : AttrState) (o : OptionState) → s.ard ≢ k → Untouched k s (with_option_state s o)
unfolding with_option_state
with_option_state-Untouched k s o apart =
    unchanged k s _ refl refl refl (set_descriptor_other s.descriptors s.ard k _ apart)

attr_result-Untouched :
    (k : ℕ) (s : AttrState) (r : SetResult)
    → s.ard ≢ k
    → Untouched k s (attr_state (attr_result s r))
unfolding attr_result attr_state
attr_result-Untouched k s (set_value o) apart = with_option_state-Untouched k s o apart
attr_result-Untouched k s (changed_value o) apart = with_option_state-Untouched k s o apart
attr_result-Untouched k s (set_refused o) apart = with_option_state-Untouched k s o apart

set_auto_ipd-Untouched :
    (k : ℕ) (s : AttrState) (v : ℕ) → Untouched k s (attr_state (set_auto_ipd s v))
unfolding set_auto_ipd attr_state attr_error
set_auto_ipd-Untouched k s zero = Untouched-refl k s
set_auto_ipd-Untouched k s (suc v) = unchanged k s _ refl refl refl refl

-- One call writes to no application descriptor but those that the statement uses.
set_stmt_attr-Untouched :
    (k : ℕ) (s : AttrState) (a : StmtAttr) (v : ℕ)
    → s.ard ≢ k
    → s.apd ≢ k
    → keeps_descriptors a ≡ true
    → Untouched k s (attr_state (set_stmt_attr s a v))
unfolding set_stmt_attr attr_state attr_error keeps_descriptors
set_stmt_attr-Untouched k s app_row_desc v row param keeps = ground arith
set_stmt_attr-Untouched k s app_param_desc v row param keeps = ground arith
set_stmt_attr-Untouched k s fetch_bookmark_attr v row param keeps =
    unchanged k s _ refl refl refl refl
set_stmt_attr-Untouched k s param_bind_offset_attr v row param keeps = put_apd-Untouched k s _ param
set_stmt_attr-Untouched k s param_bind_type_attr v row param keeps = put_apd-Untouched k s _ param
set_stmt_attr-Untouched k s param_operation_attr v row param keeps = put_apd-Untouched k s _ param
set_stmt_attr-Untouched k s param_status_attr v row param keeps =
    unchanged k s _ refl refl refl refl
set_stmt_attr-Untouched k s params_processed_attr v row param keeps =
    unchanged k s _ refl refl refl refl
set_stmt_attr-Untouched k s paramset_size_attr v row param keeps = put_apd-Untouched k s _ param
set_stmt_attr-Untouched k s row_bind_offset_attr v row param keeps = put_ard-Untouched k s _ row
set_stmt_attr-Untouched k s row_operation_attr v row param keeps = put_ard-Untouched k s _ row
set_stmt_attr-Untouched k s row_status_attr v row param keeps = unchanged k s _ refl refl refl refl
set_stmt_attr-Untouched k s rows_fetched_attr v row param keeps =
    unchanged k s _ refl refl refl refl
set_stmt_attr-Untouched k s row_array_size_attr v row param keeps = put_ard-Untouched k s _ row
set_stmt_attr-Untouched k s imp_row_desc v row param keeps = unchanged k s _ refl refl refl refl
set_stmt_attr-Untouched k s imp_param_desc v row param keeps = unchanged k s _ refl refl refl refl
set_stmt_attr-Untouched k s cursor_scrollable v row param keeps =
    unchanged k s _ refl refl refl refl
set_stmt_attr-Untouched k s cursor_sensitivity v row param keeps =
    unchanged k s _ refl refl refl refl
set_stmt_attr-Untouched k s metadata_id_attr v row param keeps = unchanged k s _ refl refl refl refl
set_stmt_attr-Untouched k s enable_auto_ipd v row param keeps = set_auto_ipd-Untouched k s v
set_stmt_attr-Untouched k s auto_ipd v row param keeps = unchanged k s _ refl refl refl refl
set_stmt_attr-Untouched k s (other option) v row param keeps = attr_result-Untouched k s _ row

set_stmt_attrs-Untouched :
    (k : ℕ) (s : AttrState) (calls : List AttrCall)
    → s.ard ≢ k
    → s.apd ≢ k
    → KeepDescriptors calls
    → Untouched k s (set_stmt_attrs s calls)
unfolding set_stmt_attrs KeepDescriptors
set_stmt_attrs-Untouched k s [] row param keeps = Untouched-refl k s
set_stmt_attrs-Untouched k s (call ∷ calls) row param keeps =
    let after = attr_state (set_stmt_attr s call.attribute call.value) in
    let first = set_stmt_attr-Untouched k s call.attribute call.value row param keeps.0 in
    Untouched-trans k s _ _ first (
      set_stmt_attrs-Untouched k after calls (λ same. row (sym first.same_ard ∙ same))
        (λ same. param (sym first.same_apd ∙ same)) keeps.1)

-- The attributes that are read from the row descriptor
pub data IsRowAttr : StmtAttr → Type 0 where
  offset_row : IsRowAttr row_bind_offset_attr
  operation_row : IsRowAttr row_operation_attr
  array_size_row : IsRowAttr row_array_size_attr
  bind_type_row : IsRowAttr (other bind_type)
  rowset_size_row : IsRowAttr (other rowset_size)

row_attr_read :
    (s after : AttrState) (a : StmtAttr)
    → IsRowAttr a
    → ard_fields after ≡ ard_fields s
    → get_stmt_attr after a ≡ get_stmt_attr s a
unfolding get_stmt_attr got_option get_stmt_option option_state
row_attr_read s after a offset_row same = ap (λ fields. got (AppFields.offset_ptr fields)) same
row_attr_read s after a operation_row same =
    ap (λ fields. got (AppFields.operation_ptr fields)) same
row_attr_read s after a array_size_row same =
    ap (λ fields. got (AppFields.size_of_rowset fields)) same
row_attr_read s after a bind_type_row same = ap (λ fields. got (AppFields.bind_size fields)) same
row_attr_read s after a rowset_size_row same =
    ap (λ fields. got (AppFields.size_of_rowset_odbc2 fields)) same

-- A statement uses its own row descriptor. It is given another one, any calls follow that set
-- attributes, other than the application descriptors, with whatever values and answers, and then
-- SQL_NULL_HDESC gives it back its own: the bind offset, the operation pointer, the array size, the
-- bind type and the rowset size of ODBC 2 of the rows then read as before the first call. The other descriptor and the one for the parameters are not the statement's row descriptor.
pub set_stmt_attr_own-row :
    (s : AttrState) (h : ℕ) (calls : List AttrCall) (a : StmtAttr)
    → s.ard ≡ s.ardi
    → suc h ≢ s.ardi
    → s.apd ≢ s.ardi
    → KeepDescriptors calls
    → IsRowAttr a
    → get_stmt_attr
        (attr_state (
          set_stmt_attr
            (set_stmt_attrs (attr_state (set_stmt_attr s app_row_desc (suc h))) calls)
            app_row_desc
            zero))
        a
      ≡ get_stmt_attr s a
unfolding set_stmt_attr attr_state descriptor_or ard_fields
set_stmt_attr_own-row s h calls a own apart param keeps row_attr =
    let redirected = record s { ard = suc h } in
    let kept = set_stmt_attrs-Untouched s.ardi redirected calls apart param keeps in
    let later = set_stmt_attrs redirected calls in
    row_attr_read s (record later { ard = later.ardi }) a row_attr
      (ap later.descriptors kept.same_ardi ∙ kept.same_fields ∙ ap s.descriptors (sym own))
