-- ===== src/Result/Deleted.antt =====
-- vxodbc/results.cc: AddDeleted, RemoveDeleted, CommitDeleted and CommitAdded, which keep the list of
-- the rows deleted from a result. `deleted` is the list of the entries in use, of a block with room
-- for `dl_alloc`; `deleted_keyset` is the whole block. A list of `dl_count` entries is meant.
pub mod Remove
pub mod Laws
pub mod RoundTrip
pub mod Room
pub mod Commit
use versaplex.Prelude.{
  ℕ, zero, suc, ◌+◌, ◌-◌, ◌*◌, ltb, leb, ◌==◌, if◌then◌else◌, Bool, true, false, ◌||◌, List, [],
  ◌∷◌, ◌++◌, map, Option, none, some, length, take, drop, replicate, Bytes, codes,
}
use versaplex.Prelude.Int.{ℤ, pos, negsuc}
use versaplex.Result.{KeyStatus, KeySet, QResult, pores_fatal_error, has_cursor}

-- What a call leaves, and whether it returns TRUE. Overrun is a write behind the keyset block.
pub data Added : Type 0 where
  added : QResult → Bool → Added
  overrun : Added

-- SQL_ROW_DELETED is 1.
unfoldable pub deleted_status : KeyStatus → KeyStatus
deleted_status st = record st {
  public_info = 1;
  self_adding = false;
  self_updating = false;
  self_deleting = false;
  self_deleted = true;
}

unfoldable pub position : ℕ → List ℕ → ℕ
position index [] = 0
position index (d ∷ ds) = let later = position index ds in if ltb index d then 0 else suc later

-- The memmove up by one entry of `count` entries from `p` on, and the store into the gap
unfoldable pub store_at {ℓ} : {A : Type ℓ} → (p count : ℕ) → A → List A → List A
store_at p count x block =
    take p block ++ (x ∷ (take count (drop p block) ++ drop (p + count + 1) block))

unfoldable pub failed : Bytes → QResult → Added
failed msg res = added (record res { rstatus = pores_fatal_error; message = some msg }) false

unfoldable pub marked_deleted : KeySet → KeySet
unfolding deleted_status
marked_deleted key = record key { status = deleted_status key.status }

abbrev pub with_stored : QResult → ℕ → List ℕ → List (Option KeySet) → QResult
with_stored res count ds block = record res {
  dl_count = count;
  deleted = some ds;
  deleted_keyset = some block;
}

-- Both blocks are there. The pointer into the keyset block goes on by `num_fields` entries a step.
unfoldable pub store_deleted : QResult → ℕ → KeySet → List ℕ → List (Option KeySet) → Added
unfolding position store_at marked_deleted
store_deleted res index key ds block =
    let i = position index ds in
    let p = i * res.num_fields in
    let count = length ds - i in
    if leb (length block) (p + count)
    then overrun
    else added
        (with_stored res (suc (length ds)) (store_at i count index ds)
          (store_at p count (some (marked_deleted key)) block))
        true

abbrev pub grown {ℓ} : {A : Type ℓ} → ℕ → Option (List (Option A)) → List (Option A)
grown n none = replicate n none
grown n (some xs) = xs ++ replicate (n - length xs) none

-- The first entry: two blocks of ten
unfoldable pub add_first : (ok_index ok_keyset : Bool) → QResult → ℕ → KeySet → Added
unfolding store_deleted failed
add_first false ok_keyset res index key = failed (codes "Deleted index malloc error") res
add_first true false res index key =
    failed (codes "Deleted keyset malloc error")
      (record res { deleted = some []; deleted_keyset = none })
add_first true true res index key =
    store_deleted (record res { dl_alloc = 10 }) index key [] (replicate 10 none)

-- The blocks are full: twice as long ones
unfoldable pub add_full : (ok_index ok_keyset : Bool) → QResult → ℕ → KeySet → List ℕ → Added
unfolding store_deleted failed
add_full false ok_keyset res index key ds =
    failed (codes "Dleted index realloc error") (record res { dl_alloc = 0; deleted = none })
add_full true false res index key ds =
    failed (codes "Dleted KeySet realloc error")
      (record res { dl_alloc = 0; deleted_keyset = none })
add_full true true res index key ds =
    let new_alloc = res.dl_alloc * 2 in
    store_deleted (record res { dl_alloc = new_alloc }) index key ds
      (grown new_alloc res.deleted_keyset)

unfoldable pub add_more : (ok_index ok_keyset : Bool) → QResult → ℕ → KeySet → List ℕ → Added
unfolding add_full store_deleted
add_more ok_index ok_keyset res index key ds =
    if leb res.dl_alloc (length ds)
    then add_full ok_index ok_keyset res index key ds
    else store_deleted res index key ds (grown 0 res.deleted_keyset)

unfoldable pub add_by_block :
    (ok_index ok_keyset : Bool) → QResult → ℕ → KeySet → Option (List ℕ) → Added
unfolding add_first add_more
add_by_block ok_index ok_keyset res index key none = add_first ok_index ok_keyset res index key
add_by_block ok_index ok_keyset res index key (some ds) =
    add_more ok_index ok_keyset res index key ds

-- Each of the two allocations succeeds or not.
unfoldable pub add_deleted : (ok_index ok_keyset : Bool) → QResult → ℕ → KeySet → Added
unfolding add_by_block
add_deleted ok_index ok_keyset res index key =
    let counted : QResult = record res { dl_count = suc res.dl_count } in
    if has_cursor res
    then add_by_block ok_index ok_keyset counted index key res.deleted
    else added counted true

-- The changes of a transaction are done.
unfoldable pub commit_status : KeyStatus → KeyStatus
commit_status st = record st {
  self_added = st.self_added || st.self_adding;
  self_adding = false;
  self_updated = st.self_updated || st.self_updating;
  self_updating = false;
  self_deleted = st.self_deleted || st.self_deleting;
  self_deleting = false;
}

unfoldable pub commit_key : KeySet → KeySet
unfolding commit_status
commit_key key = record key { status = commit_status key.status }

-- The first `n` entries of the keyset block
unfoldable pub commit_first : ℕ → List (Option KeySet) → List (Option KeySet)
unfolding commit_key
commit_first zero block = block
commit_first (suc n) [] = []
commit_first (suc n) (none ∷ block) = none ∷ commit_first n block
commit_first (suc n) (some key ∷ block) = some (commit_key key) ∷ commit_first n block

unfoldable pub commit_deleted : QResult → QResult
unfolding commit_first
commit_deleted res = elim res.deleted [
  | none ↦ res
  | some ds ↦ record res {
    deleted_keyset = elim res.deleted_keyset [
      | none ↦ none
      | some block ↦ some (commit_first res.dl_count block)
    ];
  }
]

unfoldable pub commit_added : QResult → QResult
unfolding commit_key
commit_added res = elim res.added_keyset [
  | none ↦ res
  | some keys ↦ record res {
    added_keyset = some (map commit_key (take res.ad_count keys) ++ drop res.ad_count keys);
  }
]
