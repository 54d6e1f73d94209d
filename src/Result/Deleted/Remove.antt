-- ===== src/Result/Deleted/Remove.antt =====
-- vxodbc/results.cc: RemoveDeleted.
use versaplex.Prelude.{
  ℕ, suc, ◌+◌, ◌-◌, leb, ◌==◌, if◌then◌else◌, Bool, false, ◌||◌, List, [], ◌∷◌, ◌++◌, Option, none,
  some, length, take, drop,
}
use versaplex.Prelude.Int.{ℤ, pos, negsuc}
use versaplex.Result.{KeySet, QResult}

-- The index of a row, and the number it has as a row added behind those read
abbrev pub pidx : ℕ → ℤ → ℤ
pidx num_read (pos index) = pos index
pidx num_read (negsuc n) = pos (num_read + n)

abbrev pub midx : ℕ → ℤ → ℤ
midx num_read (pos index) = if leb num_read index then negsuc (index - num_read) else pos index
midx num_read (negsuc n) = negsuc n

abbrev pub is_index : ℤ → ℕ → Bool
is_index (pos n) d = n == d
is_index (negsuc n) d = false

unfoldable pub matches : ℤ → ℤ → ℕ → Bool
matches p m d = is_index p d || is_index m d

-- The loop of RemoveDeleted over the entries: the one behind a removed entry moves to its place
-- and is not looked at.
unfoldable pub remove_entries : ℤ → ℤ → List ℕ → List ℕ
unfolding matches
remove_entries p m [] = []
remove_entries p m (d ∷ []) = if matches p m d then [] else d ∷ []
remove_entries p m (d ∷ (e ∷ ds)) =
    let skipped = remove_entries p m ds in
    let rest = remove_entries p m (e ∷ ds) in if matches p m d then e ∷ skipped else d ∷ rest

-- The memmove down by one entry of the `count` entries behind `i`
unfoldable pub close_gap {ℓ} : {A : Type ℓ} → (i count : ℕ) → List A → List A
close_gap i count block =
    take i block ++ (take count (drop (suc i) block) ++ drop (i + count) block)

-- The same loop over the keyset block: `ds` are the entries from `i` on.
unfoldable pub remove_keys {ℓ} : {A : Type ℓ} → ℤ → ℤ → (i : ℕ) → List ℕ → List A → List A
unfolding matches close_gap
remove_keys p m i [] block = block
remove_keys p m i (d ∷ []) block = block
remove_keys p m i (d ∷ (e ∷ ds)) block =
    let skipped = remove_keys p m (suc i) ds (close_gap i (suc (length ds)) block) in
    let rest = remove_keys p m (suc i) (e ∷ ds) block in if matches p m d then skipped else rest

-- None is an access of a NULL block.
unfoldable pub remove_from : QResult → ℤ → List ℕ → Option (List (Option KeySet)) → Option QResult
unfolding remove_entries remove_keys
remove_from res index ds none = none
remove_from res index ds (some block) =
    let p = pidx res.num_total_read index in
    let m = midx res.num_total_read index in
    let left = remove_entries p m ds in
    some (record res {
      deleted = some left;
      deleted_keyset = some (remove_keys p m 0 ds block);
      dl_count = length left;
    })

unfoldable pub remove_deleted : QResult → ℤ → Option QResult
unfolding remove_from
remove_deleted res index = elim res.deleted [
  | none ↦ if res.dl_count == 0 then some res else none
  | some ds ↦ remove_from res index ds res.deleted_keyset
]
