-- ===== src/Fetch/Scroll.antt =====
-- vxodbc/results.cc: the rowsets that PGAPI_ExtendedFetch goes through, one after the other, in a
-- result with no keys and no deleted rows.
use versaplex.Prelude.{
  ℕ, suc, ◌+◌, ◌-◌, ◌≤◌, ◌<◌, leb, if◌then◌else◌, Bool, true, false, none, ◌≡◌, refl, ap, ◌∙◌, ◌⊎◌,
  arith, Bool-cases, inl, inr,
}
use versaplex.Prelude.Int.{ℤ, pos, negsuc, add_ℤ, neg_ℤ, at_most, at_least, is_negative}
use versaplex.Result.{QResult, qr_get_num_total_tuples, has_cursor, not_moving}
use versaplex.Result.Cache.{is_null, qr_set_rowstart_in_cache, qr_inc_rowstart_in_cache}
use versaplex.Fetch.{
  fetch_next, fetch_prior, Fetching, placed, sc_set_rowset_start, sc_inc_rowset_start,
  res_rowset_start,
}
use versaplex.Fetch.Place.{place_rowset, place_next_rowset, place_prior_rowset, size_or}
use versaplex.Fetch.Run.{
  FetchResult, no_data, fetch_rows, return_at, start_rows, settle, conclude, extended_fetch,
}

-- What a fetch keeps of the result: its number of rows, and whether it has keys
abbrev pub KeepsRows : QResult → QResult → Type 0
KeepsRows a b =
    (b.has_keyset ≡ a.has_keyset) × (qr_get_num_total_tuples b ≡ qr_get_num_total_tuples a)

KeepsRows-if :
    (t : Bool) (a b c : QResult) → KeepsRows a b → KeepsRows a c → KeepsRows a (if t then b else c)
KeepsRows-if true a b c h k = h
KeepsRows-if false a b c h k = k

KeepsRows-set : (res : QResult) (start : ℤ) → KeepsRows res (qr_set_rowstart_in_cache res start)
unfolding qr_set_rowstart_in_cache qr_get_num_total_tuples
KeepsRows-set res start =
    KeepsRows-if res.synchronize_keys res (record res { key_base = start; base = start })
      (record res { base = start }) (refl, refl) (refl, refl)

KeepsRows-inc : (res : QResult) (by : ℤ) → KeepsRows res (qr_inc_rowstart_in_cache res by)
unfolding qr_inc_rowstart_in_cache qr_get_num_total_tuples
KeepsRows-inc res by =
    let base = add_ℤ res.base by in
    KeepsRows-if res.synchronize_keys res (record res { base = base; key_base = base })
      (record res { base = base }) (refl, refl) (refl, refl)

KeepsRows-res_rowset_start :
    (res : QResult) (start incr : ℤ) (valid : Bool)
    → KeepsRows res (res_rowset_start res start incr valid)
unfolding res_rowset_start qr_get_num_total_tuples
KeepsRows-res_rowset_start res start incr valid =
    let first : ℤ = if is_negative start then negsuc 0 else pos 0 in
    let valid_res : QResult = record res { has_valid_base = true } in
    let based : QResult =
      if res.has_valid_base
      then (if valid
          then qr_inc_rowstart_in_cache res incr
          else record res { has_valid_base = false })
      else if valid
      then qr_set_rowstart_in_cache valid_res first
      else res in
    let k : KeepsRows res based =
      KeepsRows-if res.has_valid_base res
        (if valid then qr_inc_rowstart_in_cache res incr else record res { has_valid_base = false })
        (if valid then qr_set_rowstart_in_cache valid_res first else res)
        (KeepsRows-if valid res (qr_inc_rowstart_in_cache res incr)
          (record res { has_valid_base = false }) (KeepsRows-inc res incr) (refl, refl))
        (KeepsRows-if valid res (qr_set_rowstart_in_cache valid_res first) res
          (KeepsRows-set valid_res first) (refl, refl)) in
    KeepsRows-if (has_cursor res) res based (record based { key_base = start }) k k

-- The rows fetched start at row n of the same rows, if there is such a row, and otherwise there is
-- no data.
abbrev pub FetchesAt : QResult → ℕ → FetchResult → Type 0
FetchesAt res n o =
    ((u : Fetching) × (o ≡ fetch_rows u)
      × (u.rowset_start ≡ pos n)
      × KeepsRows res u.res
      × (u.save_rowset_size ≡ negsuc 0)
      × (n < qr_get_num_total_tuples res))
    ⊎ ((u : Fetching) × (o ≡ no_data u) × (qr_get_num_total_tuples res ≤ n))

settle-FetchesAt :
    (res : QResult) (s : Fetching) (rowset_size n : ℕ) (row : ℤ)
    → KeepsRows res s.res
    → s.rowset_start ≡ pos n
    → row ≡ pos n
    → s.save_rowset_size ≡ negsuc 0
    → FetchesAt res n (settle s (qr_get_num_total_tuples res) rowset_size row false)
unfolding settle return_at start_rows qr_get_num_total_tuples
settle-FetchesAt res s rowset_size n row k e r v =
    let sized : QResult = record s.res { rowset_size_include_ommitted = rowset_size } in
    let set = KeepsRows-set sized s.rowset_start in
    rw r (elim (Bool-cases (leb (qr_get_num_total_tuples res) n)) [
      | inl t ↦ rw t (inr (_, refl, ground arith))
      | inr f ↦ rw f (inl (_, refl, e, (set.0 ∙ k.0, set.1 ∙ k.1), v, ground arith))
    ])

-- A statement at row `at`, with no saved rowset size and no keys
abbrev pub IsAt : Fetching → ℕ → Type 0
IsAt s at =
    (s.rowset_start ≡ pos at)
    × (s.save_rowset_size ≡ negsuc 0)
    × (s.res.has_keyset ≡ false)
    × (is_null s.res.keyset ≡ true)

-- The start that is given to a statement with no saved size
moved-FetchesAt :
    (res : QResult) (s : Fetching) (rowset_size n : ℕ) (start : ℤ)
    → KeepsRows res s.res
    → s.save_rowset_size ≡ negsuc 0
    → start ≡ pos n
    → FetchesAt res n (
        conclude
          (qr_get_num_total_tuples res)
          rowset_size
          (placed (sc_set_rowset_start s start true) none))
unfolding conclude sc_set_rowset_start
moved-FetchesAt res s rowset_size n start k v e =
    let incr : ℤ = add_ℤ start (neg_ℤ s.rowset_start) in
    let set = KeepsRows-res_rowset_start s.res start incr true in
    settle-FetchesAt res (sc_set_rowset_start s start true) rowset_size n start
      (set.0 ∙ k.0, set.1 ∙ k.1) e e v

-- From row `at`, with no saved size and no keys, SQL_FETCH_NEXT fetches at the row `rowset_size`
-- further on, if the result has that row, and otherwise has no data.
pub next-FetchesAt :
    (s : Fetching) (rowset_size at : ℕ)
    → IsAt s at
    → FetchesAt s.res (at + rowset_size) (extended_fetch false s fetch_next rowset_size)
unfolding extended_fetch place_rowset place_next_rowset sc_inc_rowset_start qr_get_num_total_tuples
next-FetchesAt s rowset_size at (e, v, k, null) =
    let neg : is_negative s.rowset_start ≡ false = ap is_negative e in
    let size : size_or s.save_rowset_size rowset_size ≡ rowset_size =
      ap (λ z. size_or z rowset_size) v in
    let t : Fetching = record s {
      before_recordset = false;
      save_rowset_size = negsuc 0;
      res = record s.res { move_direction = not_moving; move_offset = 0 };
    } in
    rw neg (
      rw null (
        rw size (
          moved-FetchesAt s.res t rowset_size (at + rowset_size)
            (add_ℤ s.rowset_start (pos rowset_size)) (refl, refl) refl
            (ap (λ z. add_ℤ z (pos rowset_size)) e))))

back : (at m : ℕ) → suc m ≤ at → add_ℤ (pos at) (neg_ℤ (pos (suc m))) ≡ pos (at - suc m)
back at m h = ground arith

place_prior_rowset-back :
    (t : Fetching) (num_tuples size : ℕ)
    → at_most t.rowset_start 0 ≡ false
    → at_least t.rowset_start num_tuples ≡ false
    → t.res.has_keyset ≡ false
    → at_least t.rowset_start size ≡ true
    → place_prior_rowset t num_tuples size ≡ placed (sc_inc_rowset_start t (neg_ℤ (pos size))) none
unfolding place_prior_rowset
place_prior_rowset-back t num_tuples size after inside k enough =
    rw after (rw inside (rw k (rw enough refl)))

-- From row `at` of a result with no keys, where at least one rowset lies before it and the result
-- has that row, SQL_FETCH_PRIOR fetches at the row one rowset back.
pub prior-FetchesAt :
    (s : Fetching) (m at : ℕ)
    → s.rowset_start ≡ pos at
    → s.res.has_keyset ≡ false
    → suc m ≤ at
    → at < qr_get_num_total_tuples s.res
    → FetchesAt s.res (at - suc m) (extended_fetch false s fetch_prior (suc m))
unfolding extended_fetch place_rowset sc_inc_rowset_start qr_get_num_total_tuples
prior-FetchesAt s m at e k h l =
    let total = qr_get_num_total_tuples s.res in
    let after : at_most s.rowset_start 0 ≡ false = ap (λ z. at_most z 0) e ∙ ground arith in
    let inside : at_least s.rowset_start total ≡ false =
      ap (λ z. at_least z total) e ∙ ground arith in
    let enough : at_least s.rowset_start (suc m) ≡ true =
      ap (λ z. at_least z (suc m)) e ∙ ground arith in
    let t : Fetching = record s {
      before_recordset = false;
      save_rowset_size = negsuc 0;
      res = record s.res { move_direction = not_moving; move_offset = 0 };
    } in
    rw (place_prior_rowset-back t total (suc m) after inside k enough) (
      moved-FetchesAt s.res t (suc m) (at - suc m) (add_ℤ s.rowset_start (neg_ℤ (pos (suc m))))
        (refl, refl) refl (ap (λ z. add_ℤ z (neg_ℤ (pos (suc m)))) e ∙ back at m h))

-- From row `at` of a result with no keys, with no saved size, SQL_FETCH_NEXT of rowsets of
-- `suc m` rows either finds the end of the result, or fetches at the next rowset, and then
-- SQL_FETCH_PRIOR fetches at row `at` again.
pub prior-next :
    (s : Fetching) (m at : ℕ)
    → IsAt s at
    → ((u : Fetching) × (extended_fetch false s fetch_next (suc m) ≡ no_data u)
        × (qr_get_num_total_tuples s.res ≤ at + suc m))
      ⊎ ((u : Fetching) × (w : Fetching) × (extended_fetch false s fetch_next (suc m)
            ≡ fetch_rows u)
          × (u.rowset_start ≡ pos (at + suc m))
          × (extended_fetch false u fetch_prior (suc m) ≡ fetch_rows w)
          × (w.rowset_start ≡ pos at))
prior-next s m at i = elim (next-FetchesAt s (suc m) at i) [
  | inr end ↦ inl end
  | inl (u, e, r, k, v, l) ↦
      elim (prior-FetchesAt u m (at + suc m) r (k.0 ∙ i.2) (omega arith) (rw (k.1) l)) [
        | inl (w, d, q, k1, v1, l1) ↦
            let n : at + suc m - suc m ≡ at = omega arith in inr (u, w, e, r, d, q ∙ ap pos n)
        | inr (w, d, big) ↦ absurd (omega (arith, big, l, k.1))
      ]
]
