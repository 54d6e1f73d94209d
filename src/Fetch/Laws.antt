-- ===== src/Fetch/Laws.antt =====
-- vxodbc/results.cc: where PGAPI_ExtendedFetch leaves the rowset, whatever is fetched.
use versaplex.Prelude.{
  ℕ, suc, ◌≤◌, ◌<◌, ◌⊎◌, leb, Bool, true, false, not, ◌&&◌, none, some, ◌≡◌, refl, ap, ◌∙◌, arith,
  Bool-cases, inl, inr,
}
use versaplex.Prelude.Int.{ℤ, pos, negsuc, add_ℤ}
use versaplex.Result.{QResult, qr_get_num_total_tuples}
use versaplex.Result.Cache.{qr_set_rowstart_in_cache}
use versaplex.Fetch.{
  FetchType, Fetching, Placed, placed, at_bof, at_eof, refused, outside, sc_set_rowset_start,
}
use versaplex.Fetch.Run.{
  FetchResult, no_data, fetch_rows, sql_error, bad_read, return_at, start_rows, settle, conclude,
  extended_fetch, is_next,
}

-- Rows are fetched from a row of the result on, which is the one that the cache is set to, with the
-- current row before it; with no data the statement is before the first row or behind the last.
abbrev pub Positioned : ℕ → FetchResult → Type 0
Positioned num_tuples (fetch_rows s) =
    (n : ℕ) × (n < num_tuples)
    × (s.rowset_start ≡ pos n)
    × (s.res.base ≡ pos n)
    × (s.curr_tuple ≡ add_ℤ (pos n) (negsuc 0))
Positioned num_tuples (no_data s) =
    ((s.rowset_start ≡ negsuc 0) ⊎ (s.rowset_start ≡ pos num_tuples)) × (s.curr_tuple ≡ negsuc 0)
Positioned num_tuples (sql_error s) = Unit
Positioned num_tuples bad_read = Unit

return_at-bof : (s : Fetching) (n : ℕ) → Positioned n (return_at s (negsuc 0))
unfolding return_at sc_set_rowset_start
return_at-bof s n = (inl refl, refl)

return_at-eof : (s : Fetching) (n : ℕ) → Positioned n (return_at s (pos n))
unfolding return_at sc_set_rowset_start
return_at-eof s n = (inr refl, refl)

base-qr_set_rowstart_in_cache :
    (res : QResult) (start : ℤ) → (qr_set_rowstart_in_cache res start).base ≡ start
unfolding qr_set_rowstart_in_cache
base-qr_set_rowstart_in_cache res start = elim (Bool-cases res.synchronize_keys) [
  | inl t ↦ simp t refl
  | inr f ↦ simp f refl
]

start_rows-Positioned :
    (s : Fetching) (num_tuples rowset_size n : ℕ)
    → n < num_tuples
    → s.rowset_start ≡ pos n
    → Positioned num_tuples (start_rows s rowset_size)
unfolding start_rows
start_rows-Positioned s num_tuples rowset_size n h e = (
  n,
  h,
  e,
  base-qr_set_rowstart_in_cache (record s.res { rowset_size_include_ommitted = rowset_size })
        s.rowset_start
      ∙ e,
  ap (λ (z : ℤ). add_ℤ z (negsuc 0)) e,
)

settle-Positioned :
    (s : Fetching) (num_tuples rowset_size : ℕ) (row : ℤ) (should_set : Bool)
    → 1 ≤ num_tuples
    → (should_set ≡ true) ⊎ (s.rowset_start ≡ row)
    → Positioned num_tuples (settle s num_tuples rowset_size row should_set)
unfolding settle sc_set_rowset_start
settle-Positioned s num_tuples rowset_size (pos row) true h k =
    elim (Bool-cases (leb num_tuples row)) [
      | inl t ↦ rw t (return_at-eof s num_tuples)
      | inr f ↦ rw f (
          start_rows-Positioned (sc_set_rowset_start s (pos row) true) num_tuples rowset_size row
            (ground arith) refl)
    ]
settle-Positioned s num_tuples rowset_size (pos row) false h k =
    elim (Bool-cases (leb num_tuples row)) [
      | inl t ↦ rw t (return_at-eof s num_tuples)
      | inr f ↦ rw f (
          start_rows-Positioned s num_tuples rowset_size row (ground arith)
            (elim k [ inl e ↦ absurd cc | inr e ↦ e ]))
    ]
settle-Positioned s num_tuples rowset_size (negsuc n) should_set h k =
    elim (Bool-cases (leb rowset_size (suc n))) [
      | inl t ↦ rw t (return_at-bof s num_tuples)
      | inr f ↦ rw f (
          start_rows-Positioned (sc_set_rowset_start s (pos 0) true) num_tuples rowset_size 0
            (omega arith) refl)
    ]

conclude-Positioned :
    (num_tuples rowset_size : ℕ) (p : Placed)
    → 1 ≤ num_tuples
    → Positioned num_tuples (conclude num_tuples rowset_size p)
unfolding conclude
conclude-Positioned num_tuples rowset_size (placed s none) h =
    settle-Positioned s num_tuples rowset_size s.rowset_start false h (inr refl)
conclude-Positioned num_tuples rowset_size (placed s (some row)) h =
    settle-Positioned s num_tuples rowset_size row true h (inl refl)
conclude-Positioned num_tuples rowset_size (at_bof s) h = return_at-bof s num_tuples
conclude-Positioned num_tuples rowset_size (at_eof s) h = return_at-eof s num_tuples
conclude-Positioned num_tuples rowset_size (refused s) h = tt
conclude-Positioned num_tuples rowset_size outside h = tt

-- Whatever PGAPI_ExtendedFetch is to fetch of a result with rows, and from wherever: it fetches from
-- a row of the result on, to which it has set the cache, with the current row before it; or it has
-- no data, and the statement is before the first row or behind the last one, with no current row;
-- or it reports an error, or reads keys that are not there.
pub extended_fetch-Positioned :
    (forward_only : Bool) (s : Fetching) (fetch_type : FetchType) (rowset_size : ℕ)
    → 1 ≤ qr_get_num_total_tuples s.res
    → Positioned
        (qr_get_num_total_tuples s.res)
        (extended_fetch forward_only s fetch_type rowset_size)
unfolding extended_fetch
extended_fetch-Positioned forward_only s fetch_type rowset_size h =
    elim (Bool-cases (forward_only && not (is_next fetch_type))) [
      | inl t ↦ rw t tt
      | inr f ↦ rw f (conclude-Positioned (qr_get_num_total_tuples s.res) rowset_size _ h)
    ]
