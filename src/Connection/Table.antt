-- ===== src/Connection/Table.antt =====
-- The tables of handles: what is added is there once more, and removing it takes that back.
use versaplex.Prelude.{
  and_false, ℕ, zero, suc, ◌+◌, ◌-◌, ◌≤◌, ◌<◌, ltb, ◌==◌, if◌then◌else◌, Bool, true, false, [], ◌∷◌,
  ◌++◌, Option, none, some, length, length-append, replicate, length-replicate, ◌≡◌, refl, ap, ◌⊎◌,
  arith, Bool-cases, inl, inr,
}
use versaplex.Connection.{
  Slots, put_free, cons_some, or_same, enlarged_table, put_or_grow, counted, cc_add_statement,
  cc_add_descriptor, en_add_connection, is_handle, take_out, cc_remove_statement, stmt_increment,
}

-- How many entries have the handle
unfoldable pub entry_count : ℕ → Slots → ℕ
entry_count h [] = 0
entry_count h (x ∷ slots) =
    let rest = entry_count h slots in if is_handle h x then suc rest else rest

unfoldable pub count_free : Slots → ℕ
count_free [] = 0
count_free (none ∷ slots) = suc (count_free slots)
count_free (some x ∷ slots) = count_free slots

abbrev pub one_if : Bool → ℕ
one_if true = 1
one_if false = 0

-- One entry more has the handle, and no other entry is lost.
abbrev pub Adds : Slots → ℕ → ℕ → Slots → Type 0
Adds slots h j after = entry_count j after ≡ entry_count j slots + one_if (h == j)

AddsIfSome : Slots → ℕ → ℕ → Option Slots → Type 0
AddsIfSome slots h j none = count_free slots ≡ 0
AddsIfSome slots h j (some after) =
    Adds slots h j after
    × (length after ≡ length slots)
    × (count_free slots ≡ suc (count_free after))

AddsIfSome-cons :
    (x : ℕ) (slots : Slots) (h j : ℕ) (o : Option Slots)
    → AddsIfSome slots h j o
    → AddsIfSome (some x ∷ slots) h j (cons_some x o)
unfolding AddsIfSome entry_count count_free
AddsIfSome-cons x slots h j none a = a
AddsIfSome-cons x slots h j (some after) (a, l, f) = (ground (arith, a), ap suc l, f)

AddsIfSome-put_free : (slots : Slots) (h j : ℕ) → AddsIfSome slots h j (put_free slots h)
unfolding put_free entry_count count_free AddsIfSome
AddsIfSome-put_free [] h j = refl
AddsIfSome-put_free (none ∷ slots) h j = (ground arith, refl, refl)
AddsIfSome-put_free (some x ∷ slots) h j =
    AddsIfSome-cons x slots h j (put_free slots h) (AddsIfSome-put_free slots h j)

entry_count-append :
    (j : ℕ) (a b : Slots) → entry_count j (a ++ b) ≡ entry_count j a + entry_count j b
unfolding entry_count
entry_count-append j [] b = omega arith
entry_count-append j (x ∷ a) b = ground (arith, entry_count-append j a b)

entry_count-replicate : (j n : ℕ) → entry_count j (replicate n none) ≡ 0
unfolding entry_count
entry_count-replicate j zero = refl
entry_count-replicate j (suc n) = entry_count-replicate j n

enlarged_table-Adds :
    (increment : ℕ) (slots : Slots) (h j : ℕ)
    → Adds slots h j (slots ++ (some h ∷ replicate (increment - 1) none))
unfolding entry_count
enlarged_table-Adds increment slots h j = ground (
  arith,
  entry_count-append j slots (some h ∷ replicate (increment - 1) none),
  entry_count-replicate j (increment - 1),
)

-- The table after an addition that may grow it
put_or_grow-Adds :
    (increment : ℕ) (slots : Slots) (h : ℕ) (o : Option Slots)
    → 0 < increment
    → ((j : ℕ) → AddsIfSome slots h j o)
    → (after : Slots) × (put_or_grow true increment slots h o ≡ some after)
      × (length after ≤ length slots + increment)
      × ((j : ℕ) → Adds slots h j after)
unfolding put_or_grow AddsIfSome
put_or_grow-Adds increment slots h none some_more a = (
  slots ++ (some h ∷ replicate (increment - 1) none),
  refl,
  omega (
    arith,
    length-append slots (some h ∷ replicate (increment - 1) none),
    length-replicate {A = Option ℕ} (increment - 1) none,
  ),
  enlarged_table-Adds increment slots h,
)
put_or_grow-Adds increment slots h (some after) some_more a =
    (after, refl, omega (arith, (a 0).1), λ j. (a j).0)

abbrev pub Removes : Slots → ℕ → ℕ → Slots × Bool → Type 0
Removes slots h j (after, found) =
    (found ≡ true) × (entry_count j slots ≡ entry_count j after + one_if (h == j))

pub take_out-Removes :
    (slots : Slots) (h j : ℕ) → 1 ≤ entry_count h slots → Removes slots h j (take_out slots h true)
unfolding take_out entry_count
take_out-Removes [] h j k = absurd (omega arith)
take_out-Removes (none ∷ slots) h j k = take_out-Removes slots h j k
take_out-Removes (some x ∷ slots) h j k = elim (Bool-cases (x == h)) [
  | inl t ↦ rw t (refl, ground arith)
  | inr f ↦
      (let (found, c) = take_out-Removes slots h j (ground arith) in
        rw f (found, ground (arith, c)))
]

-- An executing statement is not taken out.
pub take_out-executing : (slots : Slots) (h : ℕ) → take_out slots h false ≡ (slots, false)
unfolding take_out
take_out-executing [] h = refl
take_out-executing (x ∷ slots) h =
    rw (and_false (is_handle h x)) (rw (take_out-executing slots h) refl)

-- CC_add_statement of a table of fewer than 2 ^ 15 - 16 entries, when its allocation succeeds,
-- returns TRUE with a table that has the statement
-- in one entry more and every other as often as before. CC_remove_statement of a statement that is
-- not executing then returns TRUE, and every statement is in the table as often as at first.
pub cc_remove_statement-cc_add_statement :
    (stmts : Slots) (stmt : ℕ)
    → length stmts + 16 < 0x8000
    → (after : Slots) × (cc_add_statement true stmts stmt ≡ (some after, true))
      × ((cc_remove_statement after stmt true).1 ≡ true)
      × ((j : ℕ)
          → (entry_count j after ≡ entry_count j stmts + one_if (stmt == j))
            × (entry_count j (cc_remove_statement after stmt true).0 ≡ entry_count j stmts))
unfolding cc_add_statement cc_remove_statement counted
cc_remove_statement-cc_add_statement stmts stmt few =
    let (after, e, grown, adds) =
      put_or_grow-Adds stmt_increment stmts stmt (put_free stmts stmt) (omega arith)
        (λ j. AddsIfSome-put_free stmts stmt j) in
    let below : ltb (length after) 0x8000 ≡ true = ground arith in
    let there : 1 ≤ entry_count stmt after = ground (arith, adds stmt) in
    (
      after,
      rw e (rw below refl),
      (take_out-Removes after stmt stmt there).0,
      λ j. (adds j, ground (arith, adds j, (take_out-Removes after stmt j there).1)),
    )

-- When the table has no free entry and cannot be enlarged, CC_add_statement returns TRUE and
-- CC_add_descriptor FALSE, both with a table that is NULL.
pub cc_add_statement-null :
    (stmts : Slots) (stmt : ℕ)
    → put_free stmts stmt ≡ none
    → (cc_add_statement false stmts stmt ≡ (none, true))
      × (cc_add_descriptor false stmts stmt ≡ (none, false))
unfolding cc_add_statement cc_add_descriptor counted put_or_grow enlarged_table
cc_add_statement-null stmts stmt e = (rw e refl, rw e refl)

or_same-AddsIfSome :
    (slots : Slots) (h j : ℕ) (o : Option Slots)
    → AddsIfSome slots h j o
    → ((or_same slots o ≡ (slots, false)) × (count_free slots ≡ 0))
      ⊎ ((after : Slots) × (or_same slots o ≡ (after, true))
          × Adds slots h j after
          × (length after ≡ length slots)
          × (count_free slots ≡ suc (count_free after)))
unfolding AddsIfSome
or_same-AddsIfSome slots h j none a = inl (refl, a)
or_same-AddsIfSome slots h j (some after) (a, l, f) = inr (after, refl, a, l, f)

-- EN_add_connection either returns FALSE, and then no entry of the table is free, or puts the
-- connection into one more entry of a table as long as before, with one free entry less.
pub en_add_connection-AddsIfSome :
    (conns : Slots) (conn j : ℕ)
    → ((en_add_connection conns conn ≡ (conns, false)) × (count_free conns ≡ 0))
      ⊎ ((after : Slots) × (en_add_connection conns conn ≡ (after, true))
          × Adds conns conn j after
          × (length after ≡ length conns)
          × (count_free conns ≡ suc (count_free after)))
unfolding en_add_connection
en_add_connection-AddsIfSome conns conn j =
    or_same-AddsIfSome conns conn j (put_free conns conn) (AddsIfSome-put_free conns conn j)
