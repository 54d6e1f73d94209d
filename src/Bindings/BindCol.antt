-- ===== src/Bindings/BindCol.antt =====
-- `PGAPI_BindCol` of vxodbc/bind.cc, on the parts of a statement that it uses. The call of
-- `DiscardStatementSvp` for internal statements is left out, and the statement is not NULL.
use versaplex.Prelude.{
  ℕ, ◌-◌, ltb, ◌==◌, if◌then◌else◌, Bool, true, false, ◌&&◌, List, Option, none, some, length,
}
use versaplex.Prelude.Int.{negsuc}
use versaplex.Bindings.{
  CType, sql_c_numeric, sql_c_bookmark, sql_c_varbookmark, BindInfo, GetData, Ard, GetDataInfo,
  empty_binding, unbound, extend_column_bindings, extend_getdata_info, update,
}

pub data BindError : Type 0 where
  sequence_error program_type_out_of_range no_memory_error : BindError

pub record Stmt : Type 0 where
  pub executing : Bool
  pub error : Option BindError
  pub ard : Ard
  pub gdti : GetDataInfo

-- `null_access` writes through a NULL pointer, `overrun` behind the end of a block.
pub data Outcome : Type 0 where
  success : Stmt → Outcome
  sql_error : Stmt → Outcome
  null_access overrun : Outcome

-- rgbValue, pcbValue, cbValueMax and fCType
pub record Request : Type 0 where
  pub ctype : CType
  pub value : Option ℕ
  pub value_max : ℕ
  pub pcb_value : Option ℕ

abbrev pub is_bookmark : CType → Bool
is_bookmark sql_c_bookmark = true
is_bookmark sql_c_varbookmark = true
is_bookmark _ = false

abbrev is_numeric : CType → Bool
is_numeric sql_c_numeric = true
is_numeric _ = false

-- ARD_AllocBookmark, which takes zeroed memory. The type is set behind it.
unfoldable pub alloc_bookmark : Ard → BindInfo
alloc_bookmark ard = elim ard.bookmark [
  | none ↦ record empty_binding { precision = some 0; scale = some 0 }
  | some b ↦ b
]

unfoldable pub bind_bookmark : Stmt → Request → Outcome
unfolding alloc_bookmark
bind_bookmark stmt q =
    let opts = stmt.ard in
    elim q.value [
      | none ↦ elim opts.bookmark [
        | none ↦ success stmt
        | some b ↦ success (record stmt {
          ard = record opts {
            bookmark = some (record b { buffer = none; used = none; indicator = none });
          };
        })
      ]
      | some v ↦
          if is_bookmark q.ctype
          then success (record stmt {
            ard = record opts {
              bookmark = some (record (alloc_bookmark opts) {
                buffer = some v;
                used = q.pcb_value;
                indicator = q.pcb_value;
                buflen = q.value_max;
                returntype = some q.ctype;
              });
            };
          })
          else sql_error (record stmt { error = some program_type_out_of_range })
    ]

-- What becomes of the binding of the column
unfoldable pub rebind : Request → BindInfo → BindInfo
rebind q b = elim q.value [
  | none ↦ record (unbound b) { precision = some 0; scale = some 0 }
  | some v ↦ record {
    buflen = q.value_max;
    buffer = some v;
    used = q.pcb_value;
    indicator = q.pcb_value;
    returntype = some q.ctype;
    precision = some (if is_numeric q.ctype then 32 else 0);
    scale = some 0;
  }
]

unfoldable pub reset_data : Request → GetData → GetData
reset_data q g = elim q.value [
  | none ↦ record g { data_left = negsuc 0; ttlbuf = none; ttlbuflen = 0; ttlbufused = 0 }
  | some v ↦ record g { data_left = negsuc 0 }
]

-- The column `icol`, counted from 0, in the entries that there are then
unfoldable pub bind_found :
    Option (List BindInfo) → Option (List GetData) → Stmt → ℕ → Request → Outcome
unfolding rebind reset_data
bind_found none g stmt icol q = sql_error (record stmt { error = some no_memory_error })
bind_found (some b) none stmt icol q = null_access
bind_found (some b) (some g) stmt icol q =
    let ard = stmt.ard in
    let gdti = stmt.gdti in
    if ltb icol (length b) && ltb icol (length g)
    then success (record stmt {
      ard = record ard { bindings = some (update (rebind q) b icol) };
      gdti = record gdti { gdata = some (update (reset_data q) g icol) };
    })
    else overrun

unfoldable pub bind_at : Stmt → ℕ → Request → Outcome
unfolding bind_found
bind_at stmt icol q = bind_found stmt.ard.bindings stmt.gdti.gdata stmt icol q

-- `ok_ard` and `ok_gdata` say whether the two allocations succeed.
unfoldable pub bind_col : Bool → Bool → Stmt → ℕ → Request → Outcome
unfolding bind_bookmark bind_at extend_column_bindings extend_getdata_info
bind_col ok_ard ok_gdata stmt icol q =
    let clear = record stmt { error = none } in
    let ard =
      if ltb stmt.ard.allocated icol
      then extend_column_bindings ok_ard stmt.ard icol
      else stmt.ard in
    let gdti =
      if ltb stmt.gdti.allocated icol
      then extend_getdata_info ok_gdata stmt.gdti icol false
      else stmt.gdti in
    if stmt.executing
    then sql_error (record stmt { error = some sequence_error })
    else if icol == 0
    then bind_bookmark clear q
    else bind_at (record clear { ard = ard; gdti = gdti }) (icol - 1) q
