-- ===== src/Result/Deleted/Commit.antt =====
-- vxodbc/results.cc: CommitDeleted and CommitAdded leave no change pending and no row of another
-- standing.
use versaplex.Prelude.{
  ℕ, zero, suc, ◌<◌, Bool, true, false, not, ◌||◌, List, [], ◌∷◌, ◌++◌, map, Option, none, some,
  get_elem?, take, drop, ◌≡◌, refl, arith,
}
use versaplex.Result.{KeySet, QResult}
use versaplex.Result.Valid.{is_valid, or_empty}
use versaplex.Result.Deleted.{commit_status, commit_key, commit_first, commit_added, commit_deleted}

-- Nothing is pending, and the row is deleted or not as before.
abbrev pub IsCommitted : KeySet → KeySet → Type 0
IsCommitted old new =
    (new.status.self_adding ≡ false)
    × (new.status.self_updating ≡ false)
    × (new.status.self_deleting ≡ false)
    × (is_valid new ≡ is_valid old)

or_swap : (a b c : Bool) → not (b || a || c) ≡ not (a || b || c)
or_swap true true c = refl
or_swap true false c = refl
or_swap false true c = refl
or_swap false false c = refl

commit_key-IsCommitted : (key : KeySet) → IsCommitted key (commit_key key)
unfolding commit_key commit_status is_valid
commit_key-IsCommitted key = (
  refl,
  refl,
  refl,
  or_swap key.status.self_deleting key.status.self_deleted key.status.other_deleted,
)

get_elem?-map_commit :
    (n i : ℕ) (keys : List KeySet) (key : KeySet)
    → i < n
    → get_elem? keys i ≡ some key
    → get_elem? (map commit_key (take n keys) ++ drop n keys) i ≡ some (commit_key key)
get_elem?-map_commit zero i keys key h e = absurd (omega arith)
get_elem?-map_commit (suc n) i [] key h e = cc
get_elem?-map_commit (suc n) zero (k ∷ keys) key h e = cc
get_elem?-map_commit (suc n) (suc i) (k ∷ keys) key h e =
    get_elem?-map_commit n i keys key (omega arith) e

get_elem?-commit_first :
    (n i : ℕ) (block : List (Option KeySet)) (key : KeySet)
    → i < n
    → get_elem? block i ≡ some (some key)
    → get_elem? (commit_first n block) i ≡ some (some (commit_key key))
unfolding commit_first
get_elem?-commit_first zero i block key h e = absurd (omega arith)
get_elem?-commit_first (suc n) i [] key h e = cc
get_elem?-commit_first (suc n) zero (none ∷ block) key h e = cc
get_elem?-commit_first (suc n) zero (some k ∷ block) key h e = cc
get_elem?-commit_first (suc n) (suc i) (none ∷ block) key h e =
    get_elem?-commit_first n i block key (omega arith) e
get_elem?-commit_first (suc n) (suc i) (some k ∷ block) key h e =
    get_elem?-commit_first n i block key (omega arith) e

-- CommitAdded leaves each of the first `ad_count` keys of the added rows with nothing pending, and
-- valid or deleted as it was.
pub commit_added-IsCommitted :
    (res : QResult) (keys : List KeySet) (key : KeySet) (i : ℕ)
    → res.added_keyset ≡ some keys
    → i < res.ad_count
    → get_elem? keys i ≡ some key
    → (new : KeySet) × IsCommitted key new
      × (get_elem? (or_empty (commit_added res).added_keyset) i ≡ some new)
unfolding commit_added
commit_added-IsCommitted res keys key i a h e =
    rw a
      (commit_key key, commit_key-IsCommitted key, get_elem?-map_commit res.ad_count i keys key h e)

-- CommitDeleted does so for each of the first `dl_count` keys of the deleted rows.
pub commit_deleted-IsCommitted :
    (res : QResult) (ds : List ℕ) (block : List (Option KeySet)) (key : KeySet) (i : ℕ)
    → res.deleted ≡ some ds
    → res.deleted_keyset ≡ some block
    → i < res.dl_count
    → get_elem? block i ≡ some (some key)
    → (new : KeySet) × IsCommitted key new
      × (get_elem? (or_empty (commit_deleted res).deleted_keyset) i ≡ some (some new))
unfolding commit_deleted
commit_deleted-IsCommitted res ds block key i d b h e = rw d (
    rw b (
      commit_key key,
      commit_key-IsCommitted key,
      get_elem?-commit_first res.dl_count i block key h e,
    ))
