-- ===== src/Result/Valid/Laws.antt =====
-- vxodbc/results.cc: getNthValid forward over the list of deleted rows finds the row that it finds
-- over the keys, and getNthValid backward over the list does not move back.
use versaplex.Prelude.{
  ℕ, zero, suc, ◌+◌, ◌-◌, ◌≤◌, ltb, leb, ◌==◌, if◌then◌else◌, true, false, not, List, [], ◌∷◌,
  Option, none, some, Bytes, get_elem?, ◌≡◌, refl, sym, ap, ◌∙◌, arith, tests, Bool-cases, inl, inr,
}
use versaplex.Prelude.Int.{pos, sub_ℕ}
use versaplex.Result.{KeySet, QResult}
use versaplex.Result.Valid.{
  Nth, is_valid, visit, pass_forward, scan_forward, up_to_end, next_valid, num_tuples, or_empty,
  prior_valid, pass_backward, reverse_onto,
}
use versaplex.Result.Valid.Scan.{
  is_deleted, Ascending, Agrees, SameRow, same_row, same_end, asc_nil, asc_cons, Ascending-cases,
  le-pass_forward, pass_forward-cons_at, pass_forward-before, end_row, up_to_end-row, Agrees-tail,
  Agrees-suc,
}

visit-dead :
    (key : Option KeySet) (k : KeySet) (i nth count : ℕ) (rest rest_1 : Option Nth)
    → key ≡ some k
    → is_valid k ≡ false
    → visit key i nth count rest rest_1 ≡ rest
unfolding visit
visit-dead key k i nth count rest rest_1 e v = rw e (rw v refl)

visit-live :
    (key : Option KeySet) (k : KeySet) (i nth count : ℕ) (rest rest_1 : Option Nth)
    → key ≡ some k
    → is_valid k ≡ true
    → visit key i nth count rest rest_1
      ≡ (if suc count == nth then some (record { nearest = pos i; found = pos nth }) else rest_1)
unfolding visit
visit-live key k i nth count rest rest_1 e v = rw e (rw v refl)

-- What is left behind a row that counts, from the induction hypothesis
after_live :
    (keys : List KeySet) (ds : List ℕ) (fuel i sta nth count m total : ℕ)
    → sta ≤ i
    → total ≡ i + suc fuel
    → nth ≡ count + suc m
    → Ascending (suc i) ds
    → ((m1 : ℕ)
        → nth ≡ suc count + suc m1
        → SameRow total nth
            (some (up_to_end (pass_forward ds sta (suc i + m1)) total sta nth))
            (scan_forward keys fuel (suc i) nth (suc count)))
    → SameRow total nth (some (up_to_end (pass_forward ds sta (i + m)) total sta nth)) (
        if suc count == nth
        then some (record { nearest = pos i; found = pos nth })
        else scan_forward keys fuel (suc i) nth (suc count))
after_live keys ds fuel i sta nth count zero total h e n a ih =
    let t : (suc count == nth) ≡ true = ground arith in
    let z : i + 0 ≡ i = omega arith in
    rw t (
      rw z (
        rw (pass_forward-before i sta ds a)
          (rw (up_to_end-row i total sta nth (omega arith)) (same_row i (omega arith)))))
after_live keys ds fuel i sta nth count (suc m) total h e n a ih =
    let t : (suc count == nth) ≡ false = ground arith in
    let z : i + suc m ≡ suc i + m = omega arith in rw t (rw z (ih m (omega arith)))

pub scan_forward-SameRow :
    (keys : List KeySet) (ds : List ℕ) (fuel i sta nth count m total : ℕ)
    → sta ≤ i
    → total ≡ i + fuel
    → nth ≡ count + suc m
    → Ascending i ds
    → Agrees keys ds i total
    → SameRow total nth
        (some (up_to_end (pass_forward ds sta (i + m)) total sta nth))
        (scan_forward keys fuel i nth count)
unfolding scan_forward
scan_forward-SameRow keys ds zero i sta nth count m total h e n a g =
    let here : i ≡ total = omega arith in
    rw here (
      rw
        (end_row (pass_forward ds sta (total + m)) total sta nth (total - sta)
          (omega (arith, le-pass_forward ds sta (total + m))) (omega arith))
        (same_end (total - sta) count (omega arith)))
scan_forward-SameRow keys ds (suc fuel) i sta nth count m total h e n a g =
    let (key, found, valid) = g i (omega arith) (omega arith) in
    elim (Ascending-cases i ds a) [
      | inl live ↦
          let v : is_valid key ≡ true = valid ∙ ap not (live.0) in
          rw
            (visit-live (get_elem? keys i) key i nth count
              (scan_forward keys fuel (suc i) nth count)
              (scan_forward keys fuel (suc i) nth (suc count)) found v)
            (after_live keys ds fuel i sta nth count m total h e n (live.1) (λ m1 n1.
              scan_forward-SameRow keys ds fuel (suc i) sta nth (suc count) m1 total (omega arith)
                (omega arith) n1 (live.1) (Agrees-suc keys i total ds g)))
      | inr dead ↦
          let v : is_valid key ≡ false =
            valid ∙ ap (λ (x : List ℕ). not (is_deleted i x)) (dead.1) ∙ ap not (dead.2) in
          let ih =
            scan_forward-SameRow keys (dead.0) fuel (suc i) sta nth count m total (omega arith)
              (omega arith) n (dead.3) (Agrees-tail keys i total (dead.0) (rw (sym (dead.1)) g)) in
          rw
            (visit-dead (get_elem? keys i) key i nth count
              (scan_forward keys fuel (suc i) nth count)
              (scan_forward keys fuel (suc i) nth (suc count)) found v)
            (rw (dead.1) (rw (pass_forward-cons_at i sta m (dead.0) h) ih))
    ]

-- The rows deleted before `sta` play no part.
deleted_from :
    (lo sta near : ℕ) (ds : List ℕ)
    → Ascending lo ds
    → lo ≤ sta
    → sta ≤ near
    → (rest : List ℕ) × Ascending sta rest
      × (pass_forward ds sta near ≡ pass_forward rest sta near)
      × ((j : ℕ) → sta ≤ j → is_deleted j ds ≡ is_deleted j rest)
unfolding pass_forward is_deleted
deleted_from lo sta near [] asc_nil l h = ([], asc_nil, refl, λ (j : ℕ) k. refl)
deleted_from lo sta near (d ∷ ds) (asc_cons k a) l h = elim (Bool-cases (ltb d sta)) [
  | inl t ↦
      let p : pass_forward (d ∷ ds) sta near ≡ pass_forward ds sta near = ground arith in
      let (rest, a1, e, same) = deleted_from (suc d) sta near ds a (omega (tests, t)) h in
      (rest, a1, p ∙ e, λ (j : ℕ) u. (ground arith) ∙ same j u)
  | inr f ↦ (d ∷ ds, asc_cons (ground arith) a, refl, λ (j : ℕ) u. refl)
]

list_and_keys :
    (ds : List ℕ) (keys : List KeySet) (sta m total : ℕ)
    → sta ≤ total
    → Ascending 0 ds
    → Agrees keys ds 0 total
    → SameRow total (suc m) (some (up_to_end (pass_forward ds sta (sta + m)) total sta (suc m))) (
        if leb total sta
        then some (record { nearest = pos total; found = pos 0 })
        else scan_forward keys (total - sta) sta (suc m) 0)
list_and_keys ds keys sta m total h a g =
    let (rest, a1, e, same) = deleted_from 0 sta (sta + m) ds a (omega arith) (omega arith) in
    let g1 : Agrees keys rest sta total = λ j l k.
      let (key, found, valid) = g j (omega arith) k in (key, found, valid ∙ ap not (same j l)) in
    rw e (elim (Bool-cases (leb total sta)) [
      | inl t ↦
          let near = le-pass_forward rest sta (sta + m) in
          rw t (
            rw
              (end_row (pass_forward rest sta (sta + m)) total sta (suc m) 0
                (omega (tests, t, near)) (omega (tests, t)))
              (same_end 0 0 (omega arith)))
      | inr f ↦ rw f (
          scan_forward-SameRow keys rest (total - sta) sta sta (suc m) 0 m total (omega arith)
            (omega arith) (omega arith) a1 g1)
    ])

-- Let the list of deleted rows be strictly ascending, let each row up to the end have a key that is
-- valid unless the row is in the list, and let some row be deleted. Then SQL_FETCH_NEXT from a row
-- that is not behind the end gives the same result over the list, as for a result with a cursor, as
-- over the keys: the same row and the number asked for, or the end of the result in both, where
-- the keys give minus a smaller count than was asked for.
pub next_valid-SameRow :
    (res : QResult) (name : Bytes) (ds : List ℕ) (keys : List KeySet) (sta m : ℕ)
    → res.deleted ≡ some ds
    → res.keyset ≡ some keys
    → (res.dl_count == 0) ≡ false
    → sta ≤ num_tuples res
    → Ascending 0 ds
    → Agrees keys ds 0 (num_tuples res)
    → SameRow
        (num_tuples res)
        (suc m)
        (next_valid (record res { cursor_name = some name }) sta (suc m))
        (next_valid (record res { cursor_name = none }) sta (suc m))
unfolding next_valid num_tuples
next_valid-SameRow res name ds keys sta m de ke c h a g =
    let e : sta + suc m - 1 ≡ sta + m = omega arith in
    rw c (rw de (rw ke (rw e (list_and_keys ds keys sta m (num_tuples res) h a g))))

pass_backward-behind :
    (ds : List ℕ) (upto near : ℕ) → upto ≤ near → pass_backward ds upto (pos near) ≡ pos near
unfolding pass_backward
pass_backward-behind [] upto near h = refl
pass_backward-behind (d ∷ ds) upto near h = ground (arith, pass_backward-behind ds upto near h)

-- For a result with a cursor and a deleted row, SQL_FETCH_PRIOR of two rows or more from row
-- `upto - 1` gives the row `upto - 2 + nth`, which lies behind it, whatever the list of deleted
-- rows.
pub prior_valid-moves_on :
    (res : QResult) (name : Bytes) (upto m : ℕ)
    → (res.dl_count == 0) ≡ false
    → res.cursor_name ≡ some name
    → prior_valid res upto (2 + m) ≡ some (record { nearest = pos (upto + m); found = pos (2 + m) })
unfolding prior_valid
prior_valid-moves_on res name upto m c n =
    let near : sub_ℕ (upto + (2 + m)) 2 ≡ pos (upto + m) = ground arith in
    rw c (
      rw n (
        rw near (
          rw
            (pass_backward-behind (reverse_onto (or_empty res.deleted) []) upto (upto + m)
              (omega arith))
            refl)))
