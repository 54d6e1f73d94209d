-- ===== src/Result/Deleted/Room.antt =====
-- vxodbc/results.cc: AddDeleted stores within its blocks when the result has one field, and writes
-- behind the keyset block when it has more.
use versaplex.Prelude.{
  ℕ, suc, ◌+◌, ◌-◌, ◌*◌, ◌≤◌, ◌<◌, ltb, leb, Bool, true, false, List, [], ◌∷◌, ◌++◌, Option, none,
  some, length, replicate, length-append, length-replicate, ◌≡◌, refl, ap, arith, Bool-cases, inl,
  inr,
}
use versaplex.Result.{KeySet, QResult, has_cursor}
use versaplex.Result.Valid.Scan.{is_deleted}
use versaplex.Result.Deleted.{
  Added, added, overrun, add_deleted, store_deleted, add_first, add_full, add_more, add_by_block,
  position, grown,
}
use versaplex.Result.Deleted.Laws.{position-le}

-- Both blocks have room for `alloc` entries, of which there is one at least, or both are NULL.
abbrev pub HasBlocks : Option (List ℕ) → Option (List (Option KeySet)) → ℕ → Type 0
HasBlocks none o alloc = Unit
HasBlocks (some ds) none alloc = ⊥
HasBlocks (some ds) (some block) alloc = (length ds ≤ alloc) × (1 ≤ alloc) × (length block ≡ alloc)

Succeeds : Added → Type 0
Succeeds a = (r : QResult) × (a ≡ added r true)

store_deleted-Succeeds :
    (res : QResult) (index : ℕ) (key : KeySet) (ds : List ℕ) (block : List (Option KeySet))
    → res.num_fields ≡ 1
    → length ds < length block
    → Succeeds (store_deleted res index key ds block)
unfolding store_deleted Succeeds
store_deleted-Succeeds res index key ds block f h =
    let i = position index ds in
    let n : i * 1 + (length ds - i) ≡ length ds = omega (arith, position-le index ds) in
    let t : leb (length block) (length ds) ≡ false = ground arith in rw f (rw n (rw t (_, refl)))

add_more-Succeeds :
    (res : QResult) (index : ℕ) (key : KeySet) (ds : List ℕ) (block : List (Option KeySet))
    → res.num_fields ≡ 1
    → res.deleted_keyset ≡ some block
    → length ds ≤ res.dl_alloc
    → 1 ≤ res.dl_alloc
    → length block ≡ res.dl_alloc
    → Succeeds (add_more true true res index key ds)
unfolding add_more add_full
add_more-Succeeds res index key ds block f e l o b =
    elim (Bool-cases (leb res.dl_alloc (length ds))) [
      | inl t ↦
          let more : List (Option KeySet) = replicate (res.dl_alloc * 2 - length block) none in
          let n = length-append block more in
          let k = length-replicate {A = Option KeySet} (res.dl_alloc * 2 - length block) none in
          rw t (
            rw e (
              store_deleted-Succeeds (record res { dl_alloc = res.dl_alloc * 2 }) index key ds
                (block ++ more) f (omega (arith, n, k))))
      | inr u ↦
          let n = length-append block (replicate (0 - length block) none) in
          let same : length (grown 0 (some block)) ≡ length block =
            omega (arith, n, length-replicate {A = Option KeySet} (0 - length block) none) in
          rw u (
            rw e (
              store_deleted-Succeeds res index key ds (grown 0 (some block)) f
                (ground (arith, same))))
    ]

add_by_block-Succeeds :
    (res : QResult) (index : ℕ) (key : KeySet) (o : Option (List ℕ))
    (k : Option (List (Option KeySet)))
    → res.num_fields ≡ 1
    → res.deleted_keyset ≡ k
    → HasBlocks o k res.dl_alloc
    → Succeeds (add_by_block true true res index key o)
unfolding add_by_block add_first
add_by_block-Succeeds res index key none k f e h =
    store_deleted-Succeeds (record res { dl_alloc = 10 }) index key [] (replicate 10 none) f
      (omega arith)
add_by_block-Succeeds res index key (some ds) none f e h = absurd h
add_by_block-Succeeds res index key (some ds) (some block) f e h =
    add_more-Succeeds res index key ds block f e (h.0) (h.1) (h.2)

-- AddDeleted returns TRUE, and writes nothing behind its blocks, for a result with a cursor and one
-- field whose blocks have room for `dl_alloc` entries, or are not there yet, when its allocations
-- succeed.
pub add_deleted-succeeds :
    (res : QResult) (index : ℕ) (key : KeySet)
    → has_cursor res ≡ true
    → res.num_fields ≡ 1
    → HasBlocks res.deleted res.deleted_keyset res.dl_alloc
    → (r : QResult) × (add_deleted true true res index key ≡ added r true)
unfolding add_deleted Succeeds
add_deleted-succeeds res index key c f h = rw c (
    add_by_block-Succeeds (record res { dl_count = suc res.dl_count }) index key res.deleted
      res.deleted_keyset f refl h)

position-last :
    (index : ℕ) (ds : List ℕ)
    → ((j : ℕ) → is_deleted j ds ≡ true → j ≤ index)
    → position index ds ≡ length ds
unfolding position is_deleted
position-last index [] h = refl
position-last index (d ∷ ds) h =
    let le : d ≤ index = h d (ground arith) in
    let t : ltb index d ≡ false = ground arith in
    rw t (ap suc (position-last index ds (λ j k. h j (ground (arith, k)))))

store_deleted-overrun :
    (res : QResult) (index : ℕ) (key : KeySet) (ds : List ℕ) (block : List (Option KeySet))
    → position index ds ≡ length ds
    → length block ≤ length ds * res.num_fields
    → store_deleted res index key ds block ≡ overrun
unfolding store_deleted
store_deleted-overrun res index key ds block e h =
    let n : length ds * res.num_fields + (length ds - length ds) ≡ length ds * res.num_fields =
      omega arith in
    let t : leb (length block) (length ds * res.num_fields) ≡ true = ground arith in
    rw e (rw n (rw t refl))

-- Let the blocks of a result with a cursor be there and not full, and the row lie behind all
-- deleted rows. AddDeleted then writes behind the keyset block as soon as the entries in use times
-- the number of fields make up the block.
pub add_deleted-overrun :
    (ok_index ok_keyset : Bool) (res : QResult) (index : ℕ) (key : KeySet) (ds : List ℕ)
    (block : List (Option KeySet))
    → has_cursor res ≡ true
    → res.deleted ≡ some ds
    → res.deleted_keyset ≡ some block
    → length block ≡ res.dl_alloc
    → length ds < res.dl_alloc
    → ((j : ℕ) → is_deleted j ds ≡ true → j ≤ index)
    → res.dl_alloc ≤ length ds * res.num_fields
    → add_deleted ok_index ok_keyset res index key ≡ overrun
unfolding add_deleted add_by_block add_more
add_deleted-overrun ok_index ok_keyset res index key ds block c de ke b l last full =
    let t : leb res.dl_alloc (length ds) ≡ false = ground arith in
    let n = length-append block (replicate (0 - length block) none) in
    let same : length (grown 0 (some block)) ≡ length block =
      omega (arith, n, length-replicate {A = Option KeySet} (0 - length block) none) in
    rw c (
      rw de (
        rw t (
          rw ke (
            store_deleted-overrun (record res { dl_count = suc res.dl_count }) index key ds
              (grown 0 (some block)) (position-last index ds last) (omega (arith, same))))))
