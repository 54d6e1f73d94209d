-- ===== src/Bindings.antt =====
-- Column bindings and the state of SQLGetData: vxodbc/bind.cc and bind.h. A pointer of the
-- application is a number and NULL none. What `malloc` leaves uninitialised is none too. Each
-- allocation takes a Boolean that says whether `malloc` succeeds. A column number has 16 bits without
-- a sign.
pub mod BindCol
pub mod Column
pub mod Laws
pub mod Parameters
pub mod Unbind
use versaplex.Prelude.{
  ℕ, zero, suc, ◌+◌, ◌-◌, ltb, leb, ◌==◌, if◌then◌else◌, Bool, true, false, ◌&&◌, List, [], ◌∷◌,
  Option, none, some, Bytes, replicate, get_or,
}
use versaplex.Prelude.Int.{ℤ, pos, negsuc}

pub data CType : Type 0 where
  sql_c_char sql_c_numeric sql_c_bookmark sql_c_varbookmark : CType
  sql_c_other : ℕ → CType

pub record BindInfo : Type 0 where
  pub buflen : ℕ
  pub buffer : Option ℕ
  pub used : Option ℕ
  pub indicator : Option ℕ
  pub returntype : Option CType
  pub precision : Option ℕ
  pub scale : Option ℕ

pub record GetData : Type 0 where
  pub ttlbuf : Option Bytes
  pub ttlbuflen : ℕ
  pub ttlbufused : ℕ
  pub data_left : ℤ

-- ARDFields and GetDataInfo. `allocated` counts the entries in use: it is an SQLSMALLINT, and stands
-- for 0 where it is negative, which the tests on columns from 1 on and the loops take alike.
pub record Ard : Type 0 where
  pub bookmark : Option BindInfo
  pub bindings : Option (List BindInfo)
  pub allocated : ℕ

pub record GetDataInfo : Type 0 where
  pub fdata : GetData
  pub gdata : Option (List GetData)
  pub allocated : ℕ

abbrev pub empty_binding : BindInfo
empty_binding = record {
  buflen = 0;
  buffer = none;
  used = none;
  indicator = none;
  returntype = none;
  precision = none;
  scale = none;
}

abbrev pub empty_gdata : GetData
empty_gdata = record { ttlbuf = none; ttlbuflen = 0; ttlbufused = 0; data_left = negsuc 0 }

unfoldable pub create_empty_bindings : Bool → ℕ → Option (List BindInfo)
create_empty_bindings ok num_columns =
    if ok then some (replicate num_columns empty_binding) else none

unfoldable pub create_empty_gdata : Bool → ℕ → Option (List GetData)
create_empty_gdata ok num_columns = if ok then some (replicate num_columns empty_gdata) else none

-- new[i] = old[i] for each i below `count`
unfoldable pub copy_old {ℓ} : {A : Type ℓ} → ℕ → List A → List A → List A
copy_old zero old new = new
copy_old (suc count) [] new = new
copy_old (suc count) (o ∷ old) [] = []
copy_old (suc count) (o ∷ old) (n ∷ new) = o ∷ copy_old count old new

abbrev pub copy_from {ℓ} : {A : Type ℓ} → ℕ → Option (List A) → List A → List A
copy_from count none new = new
copy_from count (some old) new = copy_old count old new

-- A number of columns stored in `allocated`: from 2 ^ 15 on it is negative there.
unfoldable pub small_int : ℕ → ℕ
small_int n = if ltb n 0x8000 then n else 0

unfoldable pub extend_column_bindings : Bool → Ard → ℕ → Ard
unfolding create_empty_bindings copy_old small_int
extend_column_bindings ok self num_columns =
    if ltb self.allocated num_columns
    then elim (create_empty_bindings ok num_columns) [
      | none ↦ record self { bindings = none; allocated = 0 }
      | some new ↦ record self {
        bindings = some (copy_from self.allocated self.bindings new);
        allocated = small_int num_columns;
      }
    ]
    else self

-- The element at `i` is changed. Behind the end and under NULL, where the code would be undefined,
-- nothing is: bind_found tests for that, and the releases stay below `allocated`.
abbrev pub update {ℓ} : {A : Type ℓ} → (A → A) → List A → ℕ → List A
update f [] i = []
update f (x ∷ xs) zero = f x ∷ xs
update f (x ∷ xs) (suc i) = x ∷ update f xs i

abbrev pub update_in {ℓ} : {A : Type ℓ} → (A → A) → Option (List A) → ℕ → Option (List A)
update_in f none i = none
update_in f (some xs) i = some (update f xs i)

abbrev pub unbound : BindInfo → BindInfo
unbound b = record b {
  buflen = 0;
  buffer = none;
  used = none;
  indicator = none;
  returntype = some sql_c_char;
}

unfoldable pub reset_a_column_binding : Ard → ℕ → Ard
reset_a_column_binding self icol =
    if ltb self.allocated icol
    then self
    else if icol == 0
    then elim self.bookmark [
      | none ↦ self
      | some b ↦ record self {
        bookmark = some (record b { buffer = none; used = none; indicator = none });
      }
    ]
    else record self { bindings = update_in unbound self.bindings (icol - 1) }

-- The columns from 1 to n, one after the other
unfoldable pub reset_columns : ℕ → Ard → Ard
unfolding reset_a_column_binding
reset_columns zero self = self
reset_columns (suc n) self = reset_a_column_binding (reset_columns n self) (suc n)

unfoldable pub ard_unbind_cols : Ard → Bool → Ard
unfolding reset_columns
ard_unbind_cols self freeall =
    let s = reset_columns self.allocated self in
    if freeall then record s { bindings = none; allocated = 0 } else s

abbrev pub unread : GetData → GetData
unread g = record g { ttlbuf = none; ttlbuflen = 0; ttlbufused = 0; data_left = negsuc 0 }

unfoldable pub reset_a_getdata_info : GetDataInfo → ℕ → GetDataInfo
reset_a_getdata_info self icol =
    if ltb icol 1
    then self
    else if ltb self.allocated icol
    then self
    else record self { gdata = update_in unread self.gdata (icol - 1) }

reset_gdata : ℕ → GetDataInfo → GetDataInfo
unfolding reset_a_getdata_info
reset_gdata zero self = self
reset_gdata (suc n) self = reset_a_getdata_info (reset_gdata n self) (suc n)

unfoldable pub gdata_unbind_cols : GetDataInfo → Bool → GetDataInfo
unfolding reset_gdata
gdata_unbind_cols self freeall =
    let f = record self { fdata = unread self.fdata } in
    let s = reset_gdata self.allocated f in
    if freeall then record s { gdata = none; allocated = 0 } else s

-- The columns from above + n down to above + 1
reset_above : ℕ → ℕ → GetDataInfo → GetDataInfo
unfolding reset_a_getdata_info
reset_above above zero self = self
reset_above above (suc n) self = reset_above above n (reset_a_getdata_info self (above + suc n))

unfoldable pub extend_getdata_info : Bool → GetDataInfo → ℕ → Bool → GetDataInfo
unfolding create_empty_gdata copy_old reset_above small_int
extend_getdata_info ok self num_columns shrink =
    if ltb self.allocated num_columns
    then elim (create_empty_gdata ok num_columns) [
      | none ↦ record self { gdata = none; allocated = 0 }
      | some new ↦ record self {
        gdata = some (copy_from self.allocated self.gdata new);
        allocated = small_int num_columns;
      }
    ]
    else if shrink && ltb num_columns self.allocated
    then (let s = reset_above num_columns (self.allocated - num_columns) self in
        record s {
          gdata = if num_columns == 0 then none else s.gdata;
          allocated = small_int num_columns;
        })
    else self
