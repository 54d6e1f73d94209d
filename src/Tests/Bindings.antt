-- ===== src/Tests/Bindings.antt =====
-- vxodbc/bind.cc at concrete inputs.
use versaplex.Prelude.{
  ℕ, ◌<◌, ◌≡◌, ◌≢◌, refl, arith, true, false, List, [], ◌∷◌, some, none, get_elem?,
}
use versaplex.Bindings.{sql_c_numeric, sql_c_char, BindInfo, Ard, empty_gdata}
use versaplex.Bindings.BindCol.{Stmt, Request, success, bind_col}
use versaplex.Bindings.Laws.{IsValid, GoodOutcome, bind_col-IsValid}
use versaplex.Bindings.Column.{IsAsRequested, bind_col_column}

abbrev bound : BindInfo
bound = record {
  buflen = 8;
  buffer = some 0x1000;
  used = some 0x2000;
  indicator = some 0x2000;
  returntype = some sql_c_char;
  precision = some 0;
  scale = some 0;
}

-- One column is bound.
abbrev one_ard : Ard
one_ard = record { bookmark = none; bindings = some (bound ∷ []); allocated = 1 }

abbrev one_stmt : Stmt
one_stmt = record {
  executing = false;
  error = none;
  ard = one_ard;
  gdti = record { fdata = empty_gdata; gdata = some (empty_gdata ∷ []); allocated = 1 };
}

abbrev numeric : Request
numeric = record { ctype = sql_c_numeric; value = some 0x3000; value_max = 19; pcb_value = none }

one_stmt-IsValid : IsValid one_stmt
one_stmt-IsValid = (omega arith, omega arith)

bind_col-IsValid_example : GoodOutcome (bind_col false true one_stmt 3 numeric)
bind_col-IsValid_example = bind_col-IsValid false true one_stmt 3 numeric one_stmt-IsValid

bind_col_column_example :
    (s' : Stmt) × (xs : List BindInfo) × (b : BindInfo) × (bind_col true true one_stmt 3 numeric
      ≡ success s')
    × (s'.error ≡ none)
    × (s'.ard.bindings ≡ some xs)
    × (get_elem? xs 2 ≡ some b)
    × IsAsRequested numeric (some 0x3000) b
    × ((os : List BindInfo) (j : ℕ)
        → some (bound ∷ []) ≡ some os
        → j < 1
        → 2 ≢ j
        → get_elem? xs j ≡ get_elem? os j)
bind_col_column_example = bind_col_column one_stmt 2 numeric one_stmt-IsValid refl
