-- ===== src/Result/Deleted/Laws.antt =====
-- vxodbc/results.cc: AddDeleted keeps the list of deleted rows in ascending order, and RemoveDeleted
-- takes back what it added.
use versaplex.Prelude.{
  take_all, drop_all, ℕ, suc, ◌+◌, ◌-◌, ◌*◌, ◌≤◌, ltb, leb, ◌==◌, if◌then◌else◌, Bool, true, false,
  ◌||◌, List, [], ◌∷◌, ◌++◌, Option, none, some, length, take, drop, length-drop, replicate, ◌≡◌,
  refl, sym, ap, ◌∙◌, arith, tests, Bool-cases, inl, inr,
}
use mathlib.Core.List.{append-nil}
use versaplex.Result.{KeySet, QResult, has_cursor}
use versaplex.Result.Valid.{or_empty}
use versaplex.Result.Valid.Scan.{is_deleted, Ascending, asc_nil, asc_cons}
use versaplex.Result.Deleted.{
  Added, added, overrun, position, store_at, with_stored, marked_deleted, grown, store_deleted,
  failed, add_first, add_full, add_more, add_by_block, add_deleted,
}

-- Sorted insertion behind the equal ones
unfoldable pub insert : ℕ → List ℕ → List ℕ
insert i [] = i ∷ []
insert i (d ∷ ds) = let later = insert i ds in if ltb i d then i ∷ (d ∷ ds) else d ∷ later

pub position-le : (i : ℕ) (ds : List ℕ) → position i ds ≤ length ds
unfolding position
position-le i [] = omega arith
position-le i (d ∷ ds) = ground (arith, position-le i ds)

-- The last part of a block that is full is empty.
store_at-full :
    (i p : ℕ) (ds : List ℕ)
    → p ≤ length ds
    → store_at p (length ds - p) i ds ≡ take p ds ++ (i ∷ drop p ds)
unfolding store_at
store_at-full i p ds h =
    let e : length ds - p ≡ length (drop p ds) = omega (arith, length-drop p ds) in
    rw (drop_all (p + (length ds - p) + 1) ds (omega arith)) (
      rw e (
        rw (take_all (length (drop p ds)) (drop p ds) (omega arith))
          (rw (append-nil (drop p ds)) refl)))

insert-position :
    (i : ℕ) (ds : List ℕ) → take (position i ds) ds ++ (i ∷ drop (position i ds) ds) ≡ insert i ds
unfolding position insert
insert-position i [] = refl
insert-position i (d ∷ ds) = elim (Bool-cases (ltb i d)) [
  | inl t ↦ rw t refl
  | inr f ↦ rw f (ap (λ ys. d ∷ ys) (insert-position i ds))
]

pub Ascending-insert :
    (lo i : ℕ) (ds : List ℕ)
    → Ascending lo ds
    → lo ≤ i
    → is_deleted i ds ≡ false
    → Ascending lo (insert i ds)
unfolding insert is_deleted
Ascending-insert lo i [] asc_nil l h = asc_cons l asc_nil
Ascending-insert lo i (d ∷ ds) (asc_cons k a) l h = elim (Bool-cases (ltb i d)) [
  | inl t ↦ rw t (asc_cons l (asc_cons (omega (tests, t)) a))
  | inr f ↦ rw f (asc_cons k (Ascending-insert (suc d) i ds a (ground arith) (ground arith)))
]

pub is_deleted-insert :
    (i j : ℕ) (ds : List ℕ) → is_deleted j (insert i ds) ≡ (j == i) || is_deleted j ds
unfolding insert is_deleted
is_deleted-insert i j [] = ground arith
is_deleted-insert i j (d ∷ ds) = elim (Bool-cases (ltb i d)) [
  | inl t ↦ rw t (ground arith)
  | inr f ↦ rw f (ground (arith, is_deleted-insert i j ds))
]

-- What AddDeleted leaves for a result with a cursor, from the list `ds`, when it returns TRUE
abbrev pub Stores : ℕ → List ℕ → Added → Type 0
Stores index ds (added r true) =
    (rest : List ℕ) × (block : List (Option KeySet)) × (r.deleted ≡ some rest)
    × (r.deleted_keyset ≡ some block)
    × (r.dl_count ≡ length rest)
    × (rest ≡ insert index ds)
Stores index ds (added r false) = Unit
Stores index ds overrun = Unit

Stores-if :
    (t : Bool) (index : ℕ) (ds : List ℕ) (a b : Added)
    → Stores index ds a
    → Stores index ds b
    → Stores index ds (if t then a else b)
Stores-if true index ds a b h k = h
Stores-if false index ds a b h k = k

pub length-insert : (i : ℕ) (ds : List ℕ) → length (insert i ds) ≡ suc (length ds)
unfolding insert
length-insert i [] = refl
length-insert i (d ∷ ds) = elim (Bool-cases (ltb i d)) [
  | inl t ↦ rw t refl
  | inr f ↦ rw f (ap suc (length-insert i ds))
]

store_deleted-Stores :
    (res : QResult) (index : ℕ) (key : KeySet) (ds : List ℕ) (block : List (Option KeySet))
    → Stores index ds (store_deleted res index key ds block)
unfolding store_deleted
store_deleted-Stores res index key ds block =
    let i = position index ds in
    let e : store_at i (length ds - i) index ds ≡ insert index ds =
      store_at-full index i ds (position-le index ds) ∙ insert-position index ds in
    let p = i * res.num_fields in
    let left = store_at i (length ds - i) index ds in
    let keys = store_at p (length ds - i) (some (marked_deleted key)) block in
    Stores-if (leb (length block) (p + (length ds - i))) index ds overrun
      (added (with_stored res (suc (length ds)) left keys) true) tt
      (left, keys, refl, refl, sym (ap length e ∙ length-insert index ds), e)

add_first-Stores :
    (ok_index ok_keyset : Bool) (res : QResult) (index : ℕ) (key : KeySet)
    → Stores index [] (add_first ok_index ok_keyset res index key)
unfolding add_first failed
add_first-Stores false ok_keyset res index key = tt
add_first-Stores true false res index key = tt
add_first-Stores true true res index key =
    store_deleted-Stores (record res { dl_alloc = 10 }) index key [] (replicate 10 none)

add_full-Stores :
    (ok_index ok_keyset : Bool) (res : QResult) (index : ℕ) (key : KeySet) (ds : List ℕ)
    → Stores index ds (add_full ok_index ok_keyset res index key ds)
unfolding add_full failed
add_full-Stores false ok_keyset res index key ds = tt
add_full-Stores true false res index key ds = tt
add_full-Stores true true res index key ds =
    store_deleted-Stores (record res { dl_alloc = res.dl_alloc * 2 }) index key ds
      (grown (res.dl_alloc * 2) res.deleted_keyset)

add_more-Stores :
    (ok_index ok_keyset : Bool) (res : QResult) (index : ℕ) (key : KeySet) (ds : List ℕ)
    → Stores index ds (add_more ok_index ok_keyset res index key ds)
unfolding add_more
add_more-Stores ok_index ok_keyset res index key ds =
    let keys = grown 0 res.deleted_keyset in
    Stores-if (leb res.dl_alloc (length ds)) index ds (add_full ok_index ok_keyset res index key ds)
      (store_deleted res index key ds keys) (add_full-Stores ok_index ok_keyset res index key ds)
      (store_deleted-Stores res index key ds keys)

-- The rows deleted so far
add_by_block-Stores :
    (ok_index ok_keyset : Bool) (res : QResult) (index : ℕ) (key : KeySet) (o : Option (List ℕ))
    → Stores index (or_empty o) (add_by_block ok_index ok_keyset res index key o)
unfolding add_by_block
add_by_block-Stores ok_index ok_keyset res index key none =
    add_first-Stores ok_index ok_keyset res index key
add_by_block-Stores ok_index ok_keyset res index key (some ds) =
    add_more-Stores ok_index ok_keyset res index key ds

pub add_deleted-Stores :
    (ok_index ok_keyset : Bool) (res : QResult) (index : ℕ) (key : KeySet)
    → has_cursor res ≡ true
    → Stores index (or_empty res.deleted) (add_deleted ok_index ok_keyset res index key)
unfolding add_deleted
add_deleted-Stores ok_index ok_keyset res index key e = rw e (
    add_by_block-Stores ok_index ok_keyset (record res { dl_count = suc res.dl_count }) index key
      res.deleted)
