-- ===== src/Result/Valid/Scan.antt =====
-- vxodbc/results.cc: getNthValid forward. Its loop over the sorted list of deleted rows, against its
-- loop over the keys.
use versaplex.Prelude.{
  ℕ, zero, suc, ◌+◌, ◌≤◌, ◌<◌, ltb, ◌==◌, if◌then◌else◌, Bool, true, false, not, List, [], ◌∷◌,
  Option, some, get_elem?, ◌≡◌, refl, sym, ap, ◌⊎◌, arith, tests, Bool-cases, inl, inr,
}
use versaplex.Prelude.Int.{pos, neg_ℕ, sub_ℕ}
use versaplex.Result.{KeySet}
use versaplex.Result.Valid.{Nth, is_valid, pass_forward, up_to_end}

unfoldable pub is_deleted : ℕ → List ℕ → Bool
is_deleted i [] = false
is_deleted i (d ∷ ds) = let later = is_deleted i ds in if i == d then true else later

-- Strictly ascending, from `lo` on
pub data Ascending : ℕ → List ℕ → Type 0 where
  asc_nil : {lo : ℕ} → Ascending lo []
  asc_cons : {lo d : ℕ} {ds : List ℕ} → lo ≤ d → Ascending (suc d) ds → Ascending lo (d ∷ ds)

-- From row i up to `total`, each row has a key, which is valid if the row is not in the list.
abbrev pub Agrees : List KeySet → List ℕ → ℕ → ℕ → Type 0
Agrees keys ds i total =
    (j : ℕ)
    → i ≤ j
    → j < total
    → (key : KeySet) × (get_elem? keys j ≡ some key) × (is_valid key ≡ not (is_deleted j ds))

-- The same row of `total`, or both are at the end
pub data SameRow (total nth : ℕ) : Option Nth → Option Nth → Type 0 where
  same_row :
      (r : ℕ)
      → r < total
      → SameRow total nth
          (some (record { nearest = pos r; found = pos nth }))
          (some (record { nearest = pos r; found = pos nth }))
  same_end :
      (a b : ℕ)
      → b < nth
      → SameRow total nth
          (some (record { nearest = pos total; found = neg_ℕ a }))
          (some (record { nearest = pos total; found = neg_ℕ b }))

pub is_deleted-below : (lo i : ℕ) (ds : List ℕ) → Ascending lo ds → i < lo → is_deleted i ds ≡ false
unfolding is_deleted
is_deleted-below lo i [] asc_nil h = refl
is_deleted-below lo i (d ∷ ds) (asc_cons l a) h =
    ground (arith, is_deleted-below (suc d) i ds a (omega arith))

pub is_deleted-cons_gt : (i j : ℕ) (ds : List ℕ) → i < j → is_deleted j (i ∷ ds) ≡ is_deleted j ds
unfolding is_deleted
is_deleted-cons_gt i j ds h = ground arith

-- The list goes on behind row i, or with row i.
pub Ascending-cases :
    (i : ℕ) (ds : List ℕ)
    → Ascending i ds
    → ((is_deleted i ds ≡ false) × Ascending (suc i) ds)
      ⊎ ((rest : List ℕ) × (ds ≡ i ∷ rest)
          × (is_deleted i (i ∷ rest) ≡ true)
          × Ascending (suc i) rest)
unfolding is_deleted
Ascending-cases i [] asc_nil = inl (refl, asc_nil)
Ascending-cases i (d ∷ ds) (asc_cons l a) = elim (Bool-cases (ltb i d)) [
  | inl t ↦
      let lt : suc i ≤ d = omega (tests, t) in
      inl (is_deleted-below (suc i) i (d ∷ ds) (asc_cons lt a) (omega arith), asc_cons lt a)
  | inr f ↦
      let e : d ≡ i = ground arith in inr (ds, ap (λ (x : ℕ). x ∷ ds) e, ground arith, rw (sym e) a)
]

pub le-pass_forward : (ds : List ℕ) (sta near : ℕ) → near ≤ pass_forward ds sta near
unfolding pass_forward
le-pass_forward [] sta near = omega arith
le-pass_forward (d ∷ ds) sta near =
    ground (arith, le-pass_forward ds sta (suc near), le-pass_forward ds sta near)

pub pass_forward-cons_at :
    (i sta m : ℕ) (ds : List ℕ)
    → sta ≤ i
    → pass_forward (i ∷ ds) sta (i + m) ≡ pass_forward ds sta (suc i + m)
unfolding pass_forward
pass_forward-cons_at i sta m ds h = ground arith

pub pass_forward-before :
    (i sta : ℕ) (ds : List ℕ) → Ascending (suc i) ds → pass_forward ds sta i ≡ i
unfolding pass_forward
pass_forward-before i sta [] asc_nil = refl
pass_forward-before i sta (d ∷ ds) (asc_cons l a) = ground arith

sub_ℕ-add : (a k : ℕ) → sub_ℕ a (a + k) ≡ neg_ℕ k
sub_ℕ-add a zero = ground arith
sub_ℕ-add a (suc k) = ground arith

sub_ℕ-neg : (a b k : ℕ) → b ≡ a + k → sub_ℕ a b ≡ neg_ℕ k
sub_ℕ-neg a b k e = rw e (sub_ℕ-add a k)

-- Behind a deleted row, and behind one that is not
pub Agrees-tail :
    (keys : List KeySet) (i total : ℕ) (ds : List ℕ)
    → Agrees keys (i ∷ ds) i total
    → Agrees keys ds (suc i) total
Agrees-tail keys i total ds h j l k =
    let a = h j (omega arith) k in (a.0, a.1, rw (sym (is_deleted-cons_gt i j ds l)) (a.2))

pub Agrees-suc :
    (keys : List KeySet) (i total : ℕ) (ds : List ℕ)
    → Agrees keys ds i total
    → Agrees keys ds (suc i) total
Agrees-suc keys i total ds h j l k = h j (omega arith) k

pub end_row :
    (near total sta nth k : ℕ)
    → total ≤ near
    → total ≡ sta + k
    → up_to_end near total sta nth ≡ record { nearest = pos total; found = neg_ℕ k }
unfolding up_to_end
end_row near total sta nth k h e = rw (sym (sub_ℕ-neg sta total k e)) (ground arith)

pub up_to_end-row :
    (near total sta nth : ℕ)
    → near < total
    → up_to_end near total sta nth ≡ record { nearest = pos near; found = pos nth }
unfolding up_to_end
up_to_end-row near total sta nth h = ground arith
