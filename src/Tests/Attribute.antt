-- ===== src/Tests/Attribute.antt =====
-- The attributes of a statement at concrete inputs. A statement at address 100 holds its row
-- descriptor at 110 and its parameter descriptor at 120; the application has one more at 7.
use versaplex.Prelude.{◌≡◌, refl, arith, true, false, none, some}
use versaplex.Prelude.{List, [], ◌∷◌}
use versaplex.Options.{initialize_statement_options, rowset_size, uinteger}
use versaplex.Options.Attribute.{
  AppFields, AttrState, attr_state, set_stmt_attr, get_stmt_attr, got, row_array_size_attr,
  paramset_size_attr, app_row_desc, param_bind_offset_attr, other, ard_fields, apd_fields, put_ard,
  set_descriptor,
}
use versaplex.Options.Attribute.Laws.{ReadsBack, is_kept_attr, get_stmt_attr-set_stmt_attr}
use versaplex.Options.{keyset_size}
use versaplex.Options.Laws.{is_kept}
use versaplex.Options.Connect.{
  ConnState, conn_connected, conn_other, statement_default, set_connect_attr, txn_isolation,
  set_connect_option, conn_refused, conn_invalid_argument, refuse_conn, set_isolation,
  isolation_known, version_ge, version_gt,
}
use versaplex.Options.Connect.Defaults.{IsInherited, get_stmt_attr-set_connect_attr}
use versaplex.Options.Attribute.Own.{
  AttrCall, set_stmt_attrs, KeepDescriptors, keeps_descriptors, array_size_row,
  set_stmt_attr_own-row,
}

abbrev new_fields : AppFields
new_fields = record {
  size_of_rowset = 1;
  bind_size = 0;
  operation_ptr = 0;
  offset_ptr = 0;
  size_of_rowset_odbc2 = 1;
}

abbrev new_stmt : AttrState
new_stmt = record {
  ard = 110;
  apd = 120;
  ird = 130;
  ipd = 140;
  ardi = 110;
  apdi = 120;
  descriptors = λ h. new_fields;
  rows_fetched = 0;
  row_status_array = 0;
  param_processed_ptr = 0;
  param_status_ptr = 0;
  bookmark_ptr = 0;
  metadata_id = 0;
  updatable_cursors = 1;
  is_open = false;
  save_rowset_size = 0;
  last_fetch_count = 0;
  options = initialize_statement_options;
  options_orig = initialize_statement_options;
  error_number = none;
}

-- One descriptor serves the rows and the parameters.
abbrev shared_stmt : AttrState
shared_stmt = record new_stmt { ard = 7; apd = 7 }

-- With one descriptor the size of the parameter sets is the number of rows.
shared_size :
    get_stmt_attr (attr_state (set_stmt_attr shared_stmt row_array_size_attr 20)) paramset_size_attr
    ≡ got 20
unfolding get_stmt_attr attr_state set_stmt_attr ard_fields apd_fields put_ard set_descriptor
    uinteger
shared_size = refl

get_stmt_attr-set_stmt_attr_example :
    ReadsBack paramset_size_attr 20 (set_stmt_attr shared_stmt paramset_size_attr 20)
unfolding is_kept_attr
get_stmt_attr-set_stmt_attr_example =
    get_stmt_attr-set_stmt_attr shared_stmt paramset_size_attr 20 refl (omega arith)

abbrev row_calls : List AttrCall
row_calls =
    record { attribute = row_array_size_attr; value = 50 }
    ∷ record { attribute = param_bind_offset_attr; value = 8 }
    ∷ record { attribute = other rowset_size; value = 9 }
    ∷ []

row_calls-KeepDescriptors : KeepDescriptors row_calls
unfolding KeepDescriptors keeps_descriptors
row_calls-KeepDescriptors = (refl, (refl, (refl, tt)))

set_stmt_attr_own-row_example :
    get_stmt_attr
      (attr_state (
        set_stmt_attr
          (set_stmt_attrs (attr_state (set_stmt_attr new_stmt app_row_desc 7)) row_calls)
          app_row_desc
          0))
      row_array_size_attr
    ≡ get_stmt_attr new_stmt row_array_size_attr
set_stmt_attr_own-row_example =
    set_stmt_attr_own-row new_stmt 6 row_calls row_array_size_attr refl (λ e. omega arith)
      (λ e. omega arith) row_calls-KeepDescriptors array_size_row

abbrev new_conn : ConnState
new_conn = record {
  status = conn_connected;
  conn_updatable_cursors = 1;
  stmt_options = initialize_statement_options;
  conn_metadata_id = 0;
  conn_bookmark_ptr = 0;
  ard_options = new_fields;
  login_timeout = 0;
  isolation = 2;
  pg_version_major = 7;
  pg_version_minor = 0;
  in_unicode_driver = true;
  in_ansi_app = false;
  conn_error = none;
}

-- A server of version 7.0 has no serializable transactions.
no_serializable :
    set_connect_option true new_conn txn_isolation 8
    ≡ conn_refused (record new_conn { conn_error = some conn_invalid_argument })
unfolding set_connect_option set_isolation isolation_known version_ge version_gt refuse_conn
no_serializable = refl

get_stmt_attr-set_connect_attr_example :
    IsInherited keyset_size 40 new_stmt
      (set_connect_attr true new_conn (conn_other (statement_default keyset_size)) 40)
unfolding is_kept
get_stmt_attr-set_connect_attr_example =
    get_stmt_attr-set_connect_attr true new_conn new_stmt keyset_size 40 refl refl (omega arith)
