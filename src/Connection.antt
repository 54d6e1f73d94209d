-- ===== src/Connection.antt =====
-- The tables of handles: the statements of a connection (CC_add_statement and CC_remove_statement of
-- vxodbc/connection.cc), its descriptors (CC_add_descriptor of descriptor.cc), and the connections
-- of the process (EN_add_connection and EN_remove_connection of environ.cc), with PGAPI_FreeStmt of
-- statement.cc. A handle is a number, NULL is none, and a table is the list of its entries.
pub mod Table
pub mod Free
use versaplex.Prelude.{
  ℕ, zero, suc, ◌+◌, ◌-◌, ltb, ◌==◌, if◌then◌else◌, Bool, true, false, not, ◌&&◌, List, [], ◌∷◌,
  ◌++◌, Option, none, some, length, replicate,
}

abbrev pub Slots : Type 0
Slots = List (Option ℕ)

abbrev pub cons_some : ℕ → Option Slots → Option Slots
cons_some x none = none
cons_some x (some rest) = some (some x ∷ rest)

-- The handle is put into the first free entry; none is no free entry.
unfoldable pub put_free : Slots → ℕ → Option Slots
put_free [] h = none
put_free (none ∷ slots) h = some (some h ∷ slots)
put_free (some x ∷ slots) h = cons_some x (put_free slots h)

-- The table after an entry behind the end and `increment` - 1 free ones, if `realloc` succeeds. The
-- table is NULL when it does not.
unfoldable pub enlarged_table : Bool → ℕ → Slots → ℕ → Option Slots
enlarged_table true increment slots h = some (slots ++ (some h ∷ replicate (increment - 1) none))
enlarged_table false increment slots h = none

unfoldable pub put_or_grow : Bool → ℕ → Slots → ℕ → Option Slots → Option Slots
unfolding enlarged_table
put_or_grow ok increment slots h none = enlarged_table ok increment slots h
put_or_grow ok increment slots h (some done) = some done

abbrev pub stmt_increment : ℕ
stmt_increment = 16

abbrev pub desc_increment : ℕ
desc_increment = 10

-- The entries that the Int2 num_stmts counts: from 2 ^ 15 on it is negative, and no loop finds any.
unfoldable pub counted : Option Slots → Option Slots
counted none = none
counted (some slots) = some (if ltb (length slots) 0x8000 then slots else [])

-- With what is returned. A table that is NULL with entries, and one with a negative number of them,
-- are not among the arguments.
unfoldable pub cc_add_statement : Bool → Slots → ℕ → Option Slots × Bool
unfolding put_or_grow put_free counted
cc_add_statement ok stmts stmt =
    (counted (put_or_grow ok stmt_increment stmts stmt (put_free stmts stmt)), true)

abbrev pub is_there : Option Slots → Bool
is_there none = false
is_there (some slots) = true

unfoldable pub cc_add_descriptor : Bool → Slots → ℕ → Option Slots × Bool
unfolding put_or_grow put_free
cc_add_descriptor ok descs desc =
    let after = put_or_grow ok desc_increment descs desc (put_free descs desc) in
    (after, is_there after)

-- The table `conns` of MAX_CONNECTIONS entries
abbrev pub or_same : Slots → Option Slots → Slots × Bool
or_same slots none = (slots, false)
or_same slots (some after) = (after, true)

unfoldable pub en_add_connection : Slots → ℕ → Slots × Bool
unfolding put_free
en_add_connection conns conn = or_same conns (put_free conns conn)

abbrev pub is_handle : ℕ → Option ℕ → Bool
is_handle h none = false
is_handle h (some x) = x == h

-- The first entry with the handle is freed, if `idle` says that what it names is not executing.
unfoldable pub take_out : Slots → ℕ → (idle : Bool) → Slots × Bool
take_out [] h idle = ([], false)
take_out (x ∷ slots) h idle =
    let (rest, found) = take_out slots h idle in
    if is_handle h x && idle then (none ∷ slots, true) else (x ∷ rest, found)

unfoldable pub cc_remove_statement : Slots → ℕ → (idle : Bool) → Slots × Bool
unfolding take_out
cc_remove_statement stmts stmt idle = take_out stmts stmt idle

unfoldable pub en_remove_connection : Slots → ℕ → (idle : Bool) → Slots × Bool
unfolding take_out
en_remove_connection conns conn idle = take_out conns conn idle
