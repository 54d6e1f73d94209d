-- ===== src/Result/Cache/Room.antt =====
-- vxodbc/qresult.cc: QR_AddNew stores its rows inside its block, one behind the other.
use versaplex.Prelude.{
  ℕ, zero, suc, ◌-◌, ◌*◌, ◌≤◌, ◌<◌, leb, ◌==◌, true, false, List, [], ◌∷◌, Option, none, some,
  length, get_elem?, take, replicate, length-append, length-take, length-replicate, ◌≡◌, refl, ap,
  ◌∙◌, arith, Bool-cases, inl, inr,
}
use versaplex.Prelude.Int.{pos}
use versaplex.Result.{Tuple, QResult}
use versaplex.Result.Cache.Rows.{
  NewRow, new_row, put_row, resize, row_stored, append_row, add_to_block, qr_add_new,
  tuple_malloc_inc, rows_of,
}

-- The block, if there is one, has room for `count_backend_allocated` rows, for one at least, and the
-- cached rows are in it.
abbrev pub HasRoom :
    (num_cached_rows count_backend_allocated : ℕ) → Option (List (Option Tuple)) → Type 0
HasRoom cached allocated none = Unit
HasRoom cached allocated (some block) =
    (length block ≡ allocated) × (cached ≤ allocated) × (1 ≤ allocated)

-- A row stored in a block
put_row-put :
    (block : List (Option Tuple)) (i : ℕ) (row : Tuple)
    → i < length block
    → (after : List (Option Tuple)) × (put_row block i row ≡ some after)
      × (length after ≡ length block)
      × (get_elem? after i ≡ some (some row))
      × (take i after ≡ take i block)
unfolding put_row
put_row-put [] i row h = absurd (omega arith)
put_row-put (x ∷ block) zero row h = (some row ∷ block, refl, refl, refl, refl)
put_row-put (x ∷ block) (suc i) row h =
    let (after, e, n, here, before) = put_row-put block i row (omega arith) in
    rw e (x ∷ after, refl, ap suc n, here, ap (λ xs. x ∷ xs) before)

length-resize :
    (n : ℕ) (block : List (Option Tuple)) → length block ≤ n → length (resize n block) ≡ n
length-resize n block h = omega (
  arith,
  h,
  length-append (take n block) (replicate (n - length block) none),
  length-take n block,
  length-replicate {A = Option Tuple} (n - length block) none,
)

take-resize :
    (n : ℕ) (block : List (Option Tuple)) (k : ℕ)
    → length block ≤ n
    → k ≤ length block
    → take k (resize n block) ≡ take k block
take-resize n block zero h l = refl
take-resize n [] (suc k) h l = absurd (omega arith)
take-resize zero (x ∷ block) (suc k) h l = absurd (omega arith)
take-resize (suc n) (x ∷ block) (suc k) h l =
    let e : suc n - suc (length block) ≡ n - length block = omega arith in
    rw e (ap (λ xs. x ∷ xs) (take-resize n block k (omega arith) (omega arith)))

-- A row of `columns` NULL fields is stored as row `at` behind those of `old`, in a block that has
-- room for it.
abbrev pub Appended : List (Option Tuple) → (at columns : ℕ) → NewRow → Type 0
Appended old at columns o =
    (r : QResult) × (after : List (Option Tuple)) × (o ≡ new_row r (pos at))
    × (r.backend_tuples ≡ some after)
    × (r.num_cached_rows ≡ suc at)
    × (suc at ≤ r.count_backend_allocated)
    × (length after ≡ r.count_backend_allocated)
    × (get_elem? after at ≡ some (some (replicate columns none)))
    × (take at after ≡ take at old)

append_row-Appended :
    (self : QResult) (block old : List (Option Tuple))
    → length block ≡ self.count_backend_allocated
    → self.num_cached_rows < self.count_backend_allocated
    → take self.num_cached_rows block ≡ take self.num_cached_rows old
    → Appended old self.num_cached_rows self.column_count (append_row self (some block))
unfolding append_row row_stored
append_row-Appended self block old n h same =
    let (after, e, l, here, before) =
      put_row-put block self.num_cached_rows (replicate self.column_count none) (omega arith) in
    rw e (
      record self {
        backend_tuples = some after;
        num_cached_rows = suc self.num_cached_rows;
        ad_count = suc self.ad_count;
      },
      after,
      refl,
      refl,
      refl,
      omega arith,
      l ∙ n,
      here,
      before ∙ same,
    )

-- The number of rows of a block
abbrev pub row_count : ℕ → Option (List (Option Tuple)) → ℕ
row_count num_cached_rows none = 0
row_count num_cached_rows (some block) = num_cached_rows

add_to_block-Appended :
    (self : QResult) (o : Option (List (Option Tuple)))
    → HasRoom self.num_cached_rows self.count_backend_allocated o
    → Appended
        (rows_of o)
        (row_count self.num_cached_rows o)
        self.column_count
        (add_to_block true self o)
unfolding add_to_block
add_to_block-Appended self none h =
    append_row-Appended
      (record self { num_cached_rows = 0; count_backend_allocated = tuple_malloc_inc })
      (resize tuple_malloc_inc []) [] (length-resize tuple_malloc_inc [] (omega arith))
      (omega arith) refl
add_to_block-Appended self (some block) (n, c, o) =
    elim (Bool-cases (leb self.count_backend_allocated self.num_cached_rows)) [
      | inl t ↦ rw t (
          append_row-Appended
            (record self { count_backend_allocated = self.count_backend_allocated * 2 })
            (resize (self.count_backend_allocated * 2) block) block
            (length-resize (self.count_backend_allocated * 2) block (omega arith)) (omega arith)
            (take-resize (self.count_backend_allocated * 2) block self.num_cached_rows (omega arith)
              (omega arith)))
      | inr f ↦ rw f (append_row-Appended self block block n (ground arith) refl)
    ]

-- Let the block of the cached rows, if there is one, have room for `count_backend_allocated` rows,
-- the cached ones and at least one among them. When its allocation succeeds, QR_AddNew on a result
-- with columns stores a row of NULL fields behind the cached ones, inside the block, and keeps the
-- rows before it; the block has room for `count_backend_allocated` rows again.
pub qr_add_new-Appended :
    (self : QResult)
    → (self.column_count == 0) ≡ false
    → HasRoom self.num_cached_rows self.count_backend_allocated self.backend_tuples
    → Appended
        (rows_of self.backend_tuples)
        (row_count self.num_cached_rows self.backend_tuples)
        self.column_count
        (qr_add_new true self)
unfolding qr_add_new
qr_add_new-Appended self c h = elim (Bool-cases (self.num_fields == 0)) [
  | inl t ↦ rw c (
      rw t (
        add_to_block-Appended (record self { num_fields = self.column_count; reached_eof = true })
          self.backend_tuples h))
  | inr f ↦ rw c (rw f (add_to_block-Appended self self.backend_tuples h))
]
