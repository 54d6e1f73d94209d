-- ===== src/Result/Cache/Rows.antt =====
-- vxodbc/qresult.cc: the memory for the rows and the keys of a result, in QR_AddNew and
-- enlargeKeyCache.
use versaplex.Prelude.{
  ℕ, zero, suc, ◌+◌, ◌-◌, ◌*◌, ltb, leb, ◌==◌, if◌then◌else◌, Bool, true, false, ◌||◌, List, [],
  ◌∷◌, ◌++◌, Option, none, some, Bytes, length, take, replicate,
}
use versaplex.Prelude.Int.{ℤ, pos, sub_ℕ}
use versaplex.Result.{Tuple, QResult, pores_fatal_error, has_cursor}
use versaplex.Result.Cache.{is_null}

abbrev pub tuple_malloc_inc : ℕ
tuple_malloc_inc = 100

-- A block with room for `n` rows, from an old one
abbrev pub resize {ℓ} : {A : Type ℓ} → ℕ → List (Option A) → List (Option A)
resize n block = take n block ++ replicate (n - length block) none

abbrev pub alloc_block : Bool → ℕ → List (Option Tuple) → Option (List (Option Tuple))
alloc_block ok n block = if ok then some (resize n block) else none

-- The row is stored, if there is room for it.
unfoldable pub put_row : List (Option Tuple) → ℕ → Tuple → Option (List (Option Tuple))
put_row [] i row = none
put_row (x ∷ block) zero row = some (some row ∷ block)
put_row (x ∷ block) (suc i) row = elim (put_row block i row) [
  | none ↦ none
  | some rest ↦ some (x ∷ rest)
]

-- What QR_AddNew returns: NULL, or a pointer `row` rows into the block, which may be NULL itself.
-- Overrun is a write behind the block.
pub data NewRow : Type 0 where
  no_row : QResult → NewRow
  new_row : QResult → (row : ℤ) → NewRow
  overrun : NewRow

unfoldable pub row_stored : QResult → Option (List (Option Tuple)) → NewRow
row_stored self none = overrun
row_stored self (some block) =
    new_row
      (record self {
        backend_tuples = some block;
        num_cached_rows = suc self.num_cached_rows;
        ad_count = suc self.ad_count;
      })
      (pos self.num_cached_rows)

-- The memory is there or not.
unfoldable pub append_row : QResult → Option (List (Option Tuple)) → NewRow
unfolding put_row row_stored
append_row self none =
    new_row (record self { backend_tuples = none }) (sub_ℕ self.num_cached_rows 1)
append_row self (some block) =
    row_stored self (put_row block self.num_cached_rows (replicate self.column_count none))

unfoldable pub add_to_block : Bool → QResult → Option (List (Option Tuple)) → NewRow
unfolding append_row
add_to_block ok self none =
    append_row (record self { num_cached_rows = 0; count_backend_allocated = tuple_malloc_inc })
      (alloc_block ok tuple_malloc_inc [])
add_to_block ok self (some block) =
    let alloc = self.count_backend_allocated * 2 in
    if leb self.count_backend_allocated self.num_cached_rows
    then append_row (record self { count_backend_allocated = alloc }) (alloc_block ok alloc block)
    else append_row self (some block)

unfoldable pub qr_add_new : Bool → QResult → NewRow
unfolding add_to_block
qr_add_new ok self =
    let s : QResult =
      if self.num_fields == 0
      then record self { num_fields = self.column_count; reached_eof = true }
      else self in
    if self.column_count == 0 then no_row self else add_to_block ok s self.backend_tuples

-- The do-while loop that doubles; none is no fuel left.
unfoldable pub doubled_until : (fuel alloc alloc_req : ℕ) → Option ℕ
doubled_until zero alloc alloc_req = none
doubled_until (suc fuel) alloc alloc_req =
    let rest = doubled_until fuel (alloc * 2) alloc_req in
    if ltb (alloc * 2) alloc_req then rest else some (alloc * 2)

unfoldable pub new_alloc : (curs : Bool) (alloc alloc_req : ℕ) → Option ℕ
unfolding doubled_until
new_alloc curs zero alloc_req =
    if curs
    then some alloc_req
    else some (if ltb tuple_malloc_inc alloc_req then alloc_req else tuple_malloc_inc)
new_alloc curs (suc alloc) alloc_req = doubled_until (suc alloc_req) (suc alloc) alloc_req

abbrev pub rows_of : Option (List (Option Tuple)) → List (Option Tuple)
rows_of none = []
rows_of (some block) = block

-- Room for the rows, and then for the keys: false where an allocation fails.
unfoldable pub enlarge_rows : Bool → QResult → Bytes → Option ℕ → Option (QResult × Bool)
enlarge_rows ok self message none = none
enlarge_rows true self message (some alloc) = some (
  record self {
    backend_tuples = some (resize alloc (rows_of self.backend_tuples));
    count_backend_allocated = alloc;
  },
  true,
)
enlarge_rows false self message (some alloc) = some (
  record self {
    backend_tuples = none;
    count_backend_allocated = 0;
    rstatus = pores_fatal_error;
    message = some message;
  },
  false,
)

unfoldable pub enlarge_keys : Bool → QResult → Bytes → Option ℕ → Option (QResult × Bool)
enlarge_keys ok self message none = none
enlarge_keys true self message (some alloc) = some (
  record self {
    keyset = some (elim self.keyset [ none ↦ [] | some keys ↦ keys ]);
    count_keyset_allocated = alloc;
  },
  true,
)
enlarge_keys false self message (some alloc) = some (
  record self {
    keyset = none;
    count_keyset_allocated = 0;
    rstatus = pores_fatal_error;
    message = some message;
  },
  false,
)

unfoldable pub rows_enlarged : Bool → QResult → ℕ → Bytes → Option (QResult × Bool)
unfolding enlarge_rows new_alloc
rows_enlarged ok self add_size message =
    let req = self.num_cached_rows + add_size in
    if self.num_fields == 0
    then some (self, true)
    else if ltb self.count_backend_allocated req || is_null self.backend_tuples
    then enlarge_rows ok self message (new_alloc (has_cursor self) self.count_backend_allocated req)
    else some (self, true)

unfoldable pub keys_enlarged : Bool → QResult → ℕ → Bytes → Option (QResult × Bool)
unfolding enlarge_keys new_alloc
keys_enlarged ok self add_size message =
    let req = self.num_cached_keys + add_size in
    if self.has_keyset
    then (if ltb self.count_keyset_allocated req || is_null self.keyset
        then enlarge_keys ok self message
            (new_alloc (has_cursor self) self.count_keyset_allocated req)
        else some (self, true))
    else some (self, true)

-- The keys after the rows, unless that failed
unfoldable pub then_keys : Bool → Option (QResult × Bool) → ℕ → Bytes → Option (QResult × Bool)
unfolding keys_enlarged
then_keys ok none add_size message = none
then_keys ok (some (self, false)) add_size message = some (self, false)
then_keys ok (some (self, true)) add_size message = keys_enlarged ok self add_size message

-- An `add_size` of 0 stands for those below too. The result is true where the function returns
-- `count_keyset_allocated`, false where it returns -1.
unfoldable pub enlarge_key_cache :
    (ok_rows ok_keys : Bool) → QResult → ℕ → Bytes → Option (QResult × Bool)
unfolding rows_enlarged then_keys
enlarge_key_cache ok_rows ok_keys self zero message = some (self, true)
enlarge_key_cache ok_rows ok_keys self (suc n) message =
    then_keys ok_keys (rows_enlarged ok_rows self (suc n) message) (suc n) message
