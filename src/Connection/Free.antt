-- ===== src/Connection/Free.antt =====
-- vxodbc/statement.cc: PGAPI_FreeStmt, with SC_unbind_cols and SC_Destructor. A statement has no
-- delegate.
use versaplex.Prelude.{
  ℕ, ◌+◌, ◌≤◌, ◌==◌, if◌then◌else◌, Bool, true, false, not, Option, none, some, ◌≡◌, refl, ap, ◌∙◌,
}
use versaplex.Bindings.{Ard, BindInfo, ard_unbind_cols, gdata_unbind_cols}
use versaplex.Result.{QResult}
use versaplex.Result.Cache.{qr_close_result}
use versaplex.Statement.{
  StatementClass, sequence_error, option_out_of_range, is_executing, sc_clear_error,
}
use versaplex.Statement.Recycle.{sc_recycle_statement}
use versaplex.Connection.{Slots, take_out, cc_remove_statement}
use versaplex.Connection.Table.{entry_count, one_if, take_out-Removes, take_out-executing}

pub data FreeOption : Type 0 where
  sql_drop sql_unbind sql_close sql_other : FreeOption

-- The statement is gone, with `ncursors` of its connection, or is kept. The Boolean says whether
-- SQL_SUCCESS is returned.
pub data Freed : Type 0 where
  gone : Slots → (ncursors : Option ℕ) → Freed
  kept : Slots → StatementClass → Ard → Bool → Freed

unfoldable pub unbound_bookmark : Option BindInfo → Option BindInfo
unbound_bookmark none = none
unbound_bookmark (some b) = some (record b { buffer = none; used = none })

unfoldable pub sc_unbind_cols : StatementClass → Ard → StatementClass × Ard
unfolding unbound_bookmark ard_unbind_cols gdata_unbind_cols
sc_unbind_cols self ard =
    let cleared = ard_unbind_cols ard false in
    (
      record self { gdata_info = gdata_unbind_cols self.gdata_info false },
      record cleared { bookmark = unbound_bookmark cleared.bookmark },
    )

-- QR_Destructor, as far as the connection counts cursors
unfoldable pub destroyed : Option QResult → Option ℕ → Option ℕ
unfolding qr_close_result
destroyed none ncursors = ncursors
destroyed (some res) ncursors = (qr_close_result res ncursors).1

-- SQL_DROP of a statement that has a connection, with the table after CC_remove_statement and
-- whether it was there
unfoldable pub drop_removed : StatementClass → Ard → Slots × Bool → Freed
unfolding destroyed
drop_removed s ard (stmts, true) = gone stmts (destroyed s.result s.ncursors)
drop_removed s ard (stmts, false) = kept stmts (record s { error = some sequence_error }) ard false

-- SC_Destructor of a statement with no connection, which keeps one that is executing
unfoldable pub drop_alone : StatementClass → Ard → Slots → Freed
unfolding destroyed is_executing
drop_alone s ard stmts =
    if is_executing s.status
    then kept stmts (record s { error = some sequence_error }) ard true
    else gone stmts (destroyed s.result none)

unfoldable pub drop_stmt : Option ℕ → Slots → ℕ → StatementClass → Ard → Freed
unfolding drop_removed drop_alone cc_remove_statement is_executing
drop_stmt none stmts handle s ard = drop_alone s ard stmts
drop_stmt (some conn) stmts handle s ard =
    drop_removed s ard (cc_remove_statement stmts handle (not (is_executing s.status)))

unfoldable pub free_cleared : Slots → ℕ → StatementClass → Ard → FreeOption → Freed
unfolding drop_stmt sc_unbind_cols sc_recycle_statement
free_cleared stmts handle s ard sql_drop = drop_stmt s.hdbc stmts handle s ard
free_cleared stmts handle s ard sql_unbind =
    let (t, cleared) = sc_unbind_cols s ard in kept stmts t cleared true
free_cleared stmts handle s ard sql_close =
    let (t, ok) = sc_recycle_statement s in kept stmts t ard ok
free_cleared stmts handle s ard sql_other =
    kept stmts (record s { error = some option_out_of_range }) ard false

unfoldable pub pgapi_free_stmt : Slots → ℕ → StatementClass → Ard → FreeOption → Freed
unfolding free_cleared sc_clear_error
pgapi_free_stmt stmts handle s ard option = free_cleared stmts handle (sc_clear_error s) ard option

drop_removed-gone :
    (s : StatementClass) (ard : Ard) (p : Slots × Bool)
    → p.1 ≡ true
    → drop_removed s ard p ≡ gone p.0 (destroyed s.result s.ncursors)
unfolding drop_removed
drop_removed-gone s ard (stmts, true) e = refl
drop_removed-gone s ard (stmts, false) e = absurd cc

-- SQL_DROP of a statement that is in the table of its connection and is not executing: the statement
-- is gone, and in one entry less of the table, which has every other as often as before. SQL_DROP of
-- one that is executing is an error, which leaves the table and the statement's status as they were.
pub pgapi_free_stmt-drop :
    (stmts : Slots) (handle conn : ℕ) (s t : StatementClass) (ard : Ard)
    → s.hdbc ≡ some conn
    → is_executing s.status ≡ false
    → 1 ≤ entry_count handle stmts
    → t.hdbc ≡ some conn
    → is_executing t.status ≡ true
    → ((after : Slots) × (n : Option ℕ) × (pgapi_free_stmt stmts handle s ard sql_drop
          ≡ gone after n)
        × ((j : ℕ) → entry_count j stmts ≡ entry_count j after + one_if (handle == j)))
      × ((u : StatementClass) × (pgapi_free_stmt stmts handle t ard sql_drop
            ≡ kept stmts u ard false)
          × (u.status ≡ t.status))
unfolding pgapi_free_stmt free_cleared sc_clear_error drop_stmt cc_remove_statement
pgapi_free_stmt-drop stmts handle conn s t ard hs es k ht et =
    let c = sc_clear_error s in
    let p = take_out stmts handle true in
    let u = sc_clear_error t in
    let executing : drop_removed u ard (take_out stmts handle false)
        ≡ kept stmts (record u { error = some sequence_error }) ard false =
      ap (λ q. drop_removed u ard q) (take_out-executing stmts handle) in
    (
      (
        p.0,
        destroyed c.result c.ncursors,
        ap (λ o. drop_stmt o stmts handle c ard) hs
            ∙ ap (λ b. drop_removed c ard (take_out stmts handle (not b))) es
            ∙ drop_removed-gone c ard p (take_out-Removes stmts handle handle k).0,
        λ j. (take_out-Removes stmts handle j k).1,
      ),
      (
        record u { error = some sequence_error },
        ap (λ o. drop_stmt o stmts handle u ard) ht
            ∙ ap (λ b. drop_removed u ard (take_out stmts handle (not b))) et
            ∙ executing,
        refl,
      ),
    )
