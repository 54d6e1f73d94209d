-- ===== src/Tests/Connection.antt =====
-- The tables of handles at concrete inputs.
use versaplex.Prelude.{
  ℕ, ◌+◌, ◌≤◌, ◌==◌, ◌≡◌, refl, arith, true, false, [], ◌∷◌, Option, some, none,
}
use versaplex.Bindings.{Ard}
use versaplex.Statement.{StatementClass, is_executing, sc_constructor}
use versaplex.Statement.Execution.{sc_set_executing}
use versaplex.Connection.{Slots, put_free, cc_add_statement, cc_remove_statement}
use versaplex.Connection.Table.{entry_count, one_if, cc_remove_statement-cc_add_statement}
use versaplex.Connection.Free.{sql_drop, gone, kept, pgapi_free_stmt, pgapi_free_stmt-drop}
use versaplex.Tests.Statement.{new_stmt}

abbrev two : Slots
two = some 7 ∷ some 8 ∷ []

cc_remove_statement-cc_add_statement_example :
    (after : Slots) × (cc_add_statement true two 9 ≡ (some after, true))
    × ((cc_remove_statement after 9 true).1 ≡ true)
    × ((j : ℕ)
        → (entry_count j after ≡ entry_count j two + one_if (9 == j))
          × (entry_count j (cc_remove_statement after 9 true).0 ≡ entry_count j two))
cc_remove_statement-cc_add_statement_example =
    cc_remove_statement-cc_add_statement two 9 (omega arith)

full : put_free two 9 ≡ none
unfolding put_free
full = refl

abbrev no_ard : Ard
no_ard = record { bookmark = none; bindings = none; allocated = 0 }

abbrev running : StatementClass
running = (sc_set_executing new_stmt true).0

new-hdbc : new_stmt.hdbc ≡ some 1
unfolding sc_constructor
new-hdbc = refl

running-hdbc : running.hdbc ≡ some 1
unfolding sc_set_executing sc_constructor
running-hdbc = refl

new-idle : is_executing new_stmt.status ≡ false
unfolding sc_constructor is_executing
new-idle = refl

running-executing : is_executing running.status ≡ true
unfolding sc_set_executing sc_constructor is_executing
running-executing = refl

there : 1 ≤ entry_count 7 two
unfolding entry_count
there = omega arith

pgapi_free_stmt-drop_example :
    ((after : Slots) × (n : Option ℕ) × (pgapi_free_stmt two 7 new_stmt no_ard sql_drop
        ≡ gone after n)
      × ((j : ℕ) → entry_count j two ≡ entry_count j after + one_if (7 == j)))
    × ((u : StatementClass) × (pgapi_free_stmt two 7 running no_ard sql_drop
          ≡ kept two u no_ard false)
        × (u.status ≡ running.status))
pgapi_free_stmt-drop_example =
    pgapi_free_stmt-drop two 7 1 new_stmt running no_ard new-hdbc new-idle there running-hdbc
      running-executing
