-- ===== src/Result/Deleted/RoundTrip.antt =====
-- vxodbc/results.cc: what AddDeleted and RemoveDeleted do to the list of deleted rows together.
use versaplex.Prelude.{
  ℕ, ltb, ◌==◌, Bool, true, false, ◌||◌, List, [], ◌∷◌, some, length, ◌≡◌, refl, ap, ◌∙◌, arith,
  Bool-cases, inl, inr,
}
use versaplex.Prelude.Int.{ℤ, pos}
use versaplex.Result.{KeySet, QResult, has_cursor}
use versaplex.Result.Valid.{or_empty}
use versaplex.Result.Valid.Scan.{is_deleted, Ascending}
use versaplex.Result.Deleted.{added, add_deleted, with_stored}
use versaplex.Result.Deleted.Remove.{
  matches, remove_entries, remove_from, remove_deleted, remove_keys, pidx, midx,
}
use versaplex.Result.Deleted.Laws.{insert, add_deleted-Stores, Ascending-insert, is_deleted-insert}

-- Let the list of deleted rows of a result with a cursor be strictly ascending and not have the
-- row `index`. When AddDeleted returns TRUE, the list is strictly ascending again, has `dl_count`
-- entries, and holds the rows it held and `index`, no others.
pub add_deleted-Ascending :
    (ok_index ok_keyset : Bool) (res r : QResult) (index : ℕ) (key : KeySet)
    → has_cursor res ≡ true
    → Ascending 0 (or_empty res.deleted)
    → is_deleted index (or_empty res.deleted) ≡ false
    → add_deleted ok_index ok_keyset res index key ≡ added r true
    → Ascending 0 (or_empty r.deleted)
      × (r.dl_count ≡ length (or_empty r.deleted))
      × ((j : ℕ)
          → is_deleted j (or_empty r.deleted) ≡ (j == index) || is_deleted j (or_empty res.deleted))
add_deleted-Ascending ok_index ok_keyset res r index key c a h e =
    let ds = or_empty res.deleted in
    let (rest, block, de, ke, n, i) =
      rw e at (add_deleted-Stores ok_index ok_keyset res index key c) in
    rw de (
      rw i (
        Ascending-insert 0 index ds a (omega arith) h,
        n ∙ ap length i,
        λ j. is_deleted-insert index j ds,
      ))

remove_entries-cons :
    (p m : ℤ) (d : ℕ) (ds : List ℕ)
    → matches p m d ≡ false
    → remove_entries p m (d ∷ ds) ≡ d ∷ remove_entries p m ds
unfolding remove_entries
remove_entries-cons p m d [] h = rw h refl
remove_entries-cons p m d (e ∷ ds) h = rw h refl

-- An index of a row matches that row only.
matches_ne :
    (num_read index d : ℕ)
    → (index == d) ≡ false
    → matches (pidx num_read (pos index)) (midx num_read (pos index)) d ≡ false
unfolding matches
matches_ne num_read index d h = ground arith

matches_self :
    (num_read index : ℕ)
    → matches (pidx num_read (pos index)) (midx num_read (pos index)) index ≡ true
unfolding matches
matches_self num_read index = ground arith

module _ (p m : ℤ) (index : ℕ) (here : matches p m index ≡ true)
    (elsewhere : (d : ℕ) → (index == d) ≡ false → matches p m d ≡ false) where
  remove_entries-none : (ds : List ℕ) → is_deleted index ds ≡ false → remove_entries p m ds ≡ ds
  unfolding is_deleted remove_entries
  remove_entries-none [] h = refl
  remove_entries-none (d ∷ ds) h =
      let ne : (index == d) ≡ false = ground arith in
      rw (remove_entries-cons p m d ds (elsewhere d ne))
        (ap (λ xs. d ∷ xs) (remove_entries-none ds (ground arith)))

  remove_entries-insert :
      (ds : List ℕ) → is_deleted index ds ≡ false → remove_entries p m (insert index ds) ≡ ds
  unfolding insert is_deleted remove_entries
  remove_entries-insert [] h = rw here refl
  remove_entries-insert (d ∷ ds) h =
      let ne : (index == d) ≡ false = ground arith in
      let later : is_deleted index ds ≡ false = ground arith in
      elim (Bool-cases (ltb index d)) [
        | inl t ↦ rw t (rw here (ap (λ xs. d ∷ xs) (remove_entries-none ds later)))
        | inr f ↦ rw f (
            rw (remove_entries-cons p m d (insert index ds) (elsewhere d ne))
              (ap (λ xs. d ∷ xs) (remove_entries-insert ds later)))
      ]

-- Let the list of deleted rows of a result with a cursor not have the row `index`. When AddDeleted
-- returns TRUE, RemoveDeleted of the row then gives back the list as it was, with `dl_count` its
-- length.
pub remove_deleted-add_deleted :
    (ok_index ok_keyset : Bool) (res r : QResult) (index : ℕ) (key : KeySet)
    → has_cursor res ≡ true
    → is_deleted index (or_empty res.deleted) ≡ false
    → add_deleted ok_index ok_keyset res index key ≡ added r true
    → (r1 : QResult) × (remove_deleted r (pos index) ≡ some r1)
      × (r1.deleted ≡ some (or_empty res.deleted))
      × (r1.dl_count ≡ length (or_empty res.deleted))
unfolding remove_deleted remove_from
remove_deleted-add_deleted ok_index ok_keyset res r index key c h e =
    let ds = or_empty res.deleted in
    let (rest, block, de, ke, n, i) =
      rw e at (add_deleted-Stores ok_index ok_keyset res index key c) in
    let p = pidx r.num_total_read (pos index) in
    let m = midx r.num_total_read (pos index) in
    let back : remove_entries p m rest ≡ ds = rw i (
      remove_entries-insert p m index (matches_self r.num_total_read index)
        (matches_ne r.num_total_read index) ds h) in
    let r1 : QResult =
      with_stored r (length (remove_entries p m rest)) (remove_entries p m rest)
        (remove_keys p m 0 rest block) in
    rw de (rw ke (r1, refl, ap some back, ap length back))
