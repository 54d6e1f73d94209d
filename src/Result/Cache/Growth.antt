-- ===== src/Result/Cache/Growth.antt =====
-- vxodbc/qresult.cc: the loops of enlargeKeyCache end, and there is room afterwards for what was
-- asked for.
use versaplex.Prelude.{ℕ, ◌+◌, ◌≤◌, ◌⊎◌, Bool, true, false, List, Option, none, some, length, ◌≡◌}
use versaplex.Result.{Tuple, QResult}
use versaplex.Result.Cache.{is_null}

-- A block is there and has at least n entries.
abbrev pub HoldsRows : Option (List (Option Tuple)) → ℕ → Type 0
HoldsRows none n = ⊥
HoldsRows (some block) n = n ≤ length block

-- The block, if there is one, has the entries that are counted.
abbrev pub IsCounted : Option (List (Option Tuple)) → ℕ → Type 0
IsCounted none n = Unit {0}
IsCounted (some block) n = n ≤ length block

-- Room for `add_size` more rows and keys, if the result has fields and keeps keys
abbrev pub HasSpace : QResult → ℕ → Type 0
HasSpace self add_size =
    ((self.num_fields ≡ 0) ⊎ HoldsRows self.backend_tuples (self.num_cached_rows + add_size))
    × ((self.has_keyset ≡ false)
        ⊎ ((is_null self.keyset ≡ false)
            × (self.num_cached_keys + add_size ≤ self.count_keyset_allocated)))

-- What the rows' part leaves: the room for the rows, and the rest as it was
RowSpace : QResult → ℕ → Option (QResult × Bool) → Type 0
RowSpace self add_size o =
    (r : QResult) × (o ≡ some (r, true))
    × ((r.num_fields ≡ 0) ⊎ HoldsRows r.backend_tuples (r.num_cached_rows + add_size))
