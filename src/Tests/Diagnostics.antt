-- ===== src/Tests/Diagnostics.antt =====
-- vxodbc/environ.cc at concrete inputs.
use versaplex.Prelude.{◌≡◌, refl, arith, true, false, [], codes, some}
use versaplex.Diagnostics.{er_constructor, at, reply, er_return_error}
use versaplex.Diagnostics.Drain.{drain, drain-er_constructor}

drain-er_constructor_example :
    drain 13 (er_constructor 7 (some (codes "syntax error"))) 6 false ≡ some (codes "syntax error")
drain-er_constructor_example = drain-er_constructor 6 (codes "syntax error") 4 false (omega arith)

-- Record 2 in pieces of four bytes
second_piece :
    (er_return_error (er_constructor 7 (some (codes "syntax error"))) (at 2) true 5 true false).1
    ≡ reply true 4 (some (codes "ax e")) 7 []
unfolding er_return_error er_constructor
second_piece = refl
