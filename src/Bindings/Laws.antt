-- ===== src/Bindings/Laws.antt =====
-- The bindings of vxodbc/bind.cc stay well formed, and binding one column keeps the others.
use versaplex.Prelude.{
  ℕ, zero, suc, ◌-◌, ◌≤◌, ◌<◌, ltb, ◌==◌, if◌then◌else◌, Bool, true, false, List, [], ◌∷◌, Option,
  none, some, length, get_elem?, replicate, length-replicate, ◌≡◌, ◌≢◌, refl, ap, arith, Bool-cases,
  Option-cases, inl, inr,
}
use versaplex.Bindings.{
  BindInfo, GetData, Ard, GetDataInfo, empty_binding, empty_gdata, copy_old, copy_from, update,
  update_in, small_int, extend_column_bindings, extend_getdata_info, create_empty_bindings,
  create_empty_gdata,
}
use versaplex.Bindings.BindCol.{
  Stmt, Request, Outcome, success, sql_error, null_access, bind_col, bind_found, bind_at,
  bind_bookmark, is_bookmark, rebind, reset_data,
}

-- The entries in use are there.
abbrev pub Holds {ℓ} : {A : Type ℓ} → Option (List A) → ℕ → Type 0
Holds none n = n ≡ 0
Holds (some xs) n = n ≤ length xs

abbrev pub IsValid : Stmt → Type 0
IsValid s = Holds s.ard.bindings s.ard.allocated × Holds s.gdti.gdata s.gdti.allocated

module _ {ℓ} {A : Type ℓ} where
  length-copy_old : (n : ℕ) (old new : List A) → length (copy_old n old new) ≡ length new
  unfolding copy_old
  length-copy_old zero old new = refl
  length-copy_old (suc n) [] new = refl
  length-copy_old (suc n) (o ∷ old) [] = refl
  length-copy_old (suc n) (o ∷ old) (x ∷ new) = ap suc (length-copy_old n old new)

  get_elem?-copy_old :
      (n : ℕ) (old new : List A) (j : ℕ)
      → j < n
      → n ≤ length old
      → n ≤ length new
      → get_elem? (copy_old n old new) j ≡ get_elem? old j
  unfolding copy_old
  get_elem?-copy_old zero old new j h k l = absurd (omega arith)
  get_elem?-copy_old (suc n) [] new j h k l = absurd (omega arith)
  get_elem?-copy_old (suc n) (o ∷ old) [] j h k l = absurd (omega arith)
  get_elem?-copy_old (suc n) (o ∷ old) (x ∷ new) zero h k l = refl
  get_elem?-copy_old (suc n) (o ∷ old) (x ∷ new) (suc j) h k l =
      get_elem?-copy_old n old new j (omega arith) (omega arith) (omega arith)

  pub length-update : (f : A → A) (xs : List A) (i : ℕ) → length (update f xs i) ≡ length xs
  length-update f [] i = refl
  length-update f (x ∷ xs) zero = refl
  length-update f (x ∷ xs) (suc i) = ap suc (length-update f xs i)

  pub get_elem?-update_ne :
      (f : A → A) (xs : List A) (i j : ℕ) → i ≢ j → get_elem? (update f xs i) j ≡ get_elem? xs j
  get_elem?-update_ne f [] i j h = refl
  get_elem?-update_ne f (x ∷ xs) zero zero h = absurd (h refl)
  get_elem?-update_ne f (x ∷ xs) zero (suc j) h = refl
  get_elem?-update_ne f (x ∷ xs) (suc i) zero h = refl
  get_elem?-update_ne f (x ∷ xs) (suc i) (suc j) h =
      get_elem?-update_ne f xs i j (λ e. h (ap suc e))

  pub get_elem?-update_self :
      (f : A → A) (xs : List A) (i : ℕ)
      → i < length xs
      → (x : A) × (get_elem? xs i ≡ some x) × (get_elem? (update f xs i) i ≡ some (f x))
  get_elem?-update_self f [] i h = absurd (omega arith)
  get_elem?-update_self f (x ∷ xs) zero h = (x, refl, refl)
  get_elem?-update_self f (x ∷ xs) (suc i) h = get_elem?-update_self f xs i (omega arith)

  Holds-update_in :
      (f : A → A) (o : Option (List A)) (i n : ℕ) → Holds o n → Holds (update_in f o i) n
  Holds-update_in f none i n h = h
  Holds-update_in f (some xs) i n h = omega (arith, h, length-update f xs i)

  pub length-copy_from :
      (n : ℕ) (o : Option (List A)) (new : List A) → length (copy_from n o new) ≡ length new
  length-copy_from n none new = refl
  length-copy_from n (some old) new = length-copy_old n old new

  pub get_elem?-copy_from :
      (n : ℕ) (o : Option (List A)) (old new : List A) (j : ℕ)
      → o ≡ some old
      → j < n
      → n ≤ length old
      → n ≤ length new
      → get_elem? (copy_from n o new) j ≡ get_elem? old j
  get_elem?-copy_from n o old new j e h k l = rw e (get_elem?-copy_old n old new j h k l)

small_int-le : (n : ℕ) → small_int n ≤ n
unfolding small_int
small_int-le n = ground arith

Holds-extend_column_bindings :
    (ok : Bool) (ard : Ard) (n : ℕ)
    → Holds ard.bindings ard.allocated
    → Holds (extend_column_bindings ok ard n).bindings (extend_column_bindings ok ard n).allocated
unfolding extend_column_bindings create_empty_bindings
Holds-extend_column_bindings true ard n h =
    let new = length-copy_from ard.allocated ard.bindings (replicate n empty_binding) in
    elim (Bool-cases (ltb ard.allocated n)) [
      | inl t ↦ rw t (omega (arith, new, length-replicate n empty_binding, small_int-le n))
      | inr f ↦ rw f h
    ]
Holds-extend_column_bindings false ard n h = elim (Bool-cases (ltb ard.allocated n)) [
  | inl t ↦ rw t refl
  | inr f ↦ rw f h
]

Holds-extend_getdata_info :
    (ok : Bool) (g : GetDataInfo) (n : ℕ)
    → Holds g.gdata g.allocated
    → Holds (extend_getdata_info ok g n false).gdata (extend_getdata_info ok g n false).allocated
unfolding extend_getdata_info create_empty_gdata
Holds-extend_getdata_info true g n h =
    let new = length-copy_from g.allocated g.gdata (replicate n empty_gdata) in
    elim (Bool-cases (ltb g.allocated n)) [
      | inl t ↦ rw t (omega (arith, new, length-replicate n empty_gdata, small_int-le n))
      | inr f ↦ rw f h
    ]
Holds-extend_getdata_info false g n h = elim (Bool-cases (ltb g.allocated n)) [
  | inl t ↦ rw t refl
  | inr f ↦ rw f h
]

-- Where there are entries at all there are n.
abbrev Reaches {ℓ} : {A : Type ℓ} → Option (List A) → ℕ → Type 0
Reaches none n = Unit {0}
Reaches (some xs) n = n ≤ length xs

Reaches-Holds {ℓ} :
    {A : Type ℓ} (o : Option (List A)) (used n : ℕ) → Holds o used → n ≤ used → Reaches o n
Reaches-Holds none used n h k = tt
Reaches-Holds (some xs) used n h k = omega (arith, h, k)

Reaches-extend_column_bindings :
    (ok : Bool) (ard : Ard) (n : ℕ)
    → Holds ard.bindings ard.allocated
    → Reaches (if ltb ard.allocated n then extend_column_bindings ok ard n else ard).bindings n
unfolding extend_column_bindings create_empty_bindings
Reaches-extend_column_bindings true ard n h = elim (Bool-cases (ltb ard.allocated n)) [
  | inl t ↦
      let new = length-copy_from ard.allocated ard.bindings (replicate n empty_binding) in
      rw t (omega (arith, new, length-replicate n empty_binding))
  | inr f ↦ rw f (Reaches-Holds ard.bindings ard.allocated n h (ground (arith, f)))
]
Reaches-extend_column_bindings false ard n h = elim (Bool-cases (ltb ard.allocated n)) [
  | inl t ↦ rw t tt
  | inr f ↦ rw f (Reaches-Holds ard.bindings ard.allocated n h (ground (arith, f)))
]

Reaches-extend_getdata_info :
    (ok : Bool) (g : GetDataInfo) (n : ℕ)
    → Holds g.gdata g.allocated
    → Reaches (if ltb g.allocated n then extend_getdata_info ok g n false else g).gdata n
unfolding extend_getdata_info create_empty_gdata
Reaches-extend_getdata_info true g n h = elim (Bool-cases (ltb g.allocated n)) [
  | inl t ↦
      let new = length-copy_from g.allocated g.gdata (replicate n empty_gdata) in
      rw t (omega (arith, new, length-replicate n empty_gdata))
  | inr f ↦ rw f (Reaches-Holds g.gdata g.allocated n h (ground (arith, f)))
]
Reaches-extend_getdata_info false g n h = elim (Bool-cases (ltb g.allocated n)) [
  | inl t ↦ rw t tt
  | inr f ↦ rw f (Reaches-Holds g.gdata g.allocated n h (ground (arith, f)))
]

-- A statement that comes out of a call is well formed.
pub data GoodOutcome : Outcome → Type 0 where
  good_success : {s : Stmt} → IsValid s → GoodOutcome (success s)
  good_error : {s : Stmt} → IsValid s → GoodOutcome (sql_error s)
  good_null : GoodOutcome null_access

GoodOutcome-if :
    (t : Bool) {p q : Outcome} → GoodOutcome p → GoodOutcome q → GoodOutcome (if t then p else q)
GoodOutcome-if true h k = h
GoodOutcome-if false h k = k

bind_bookmark-GoodOutcome : (s : Stmt) (q : Request) → IsValid s → GoodOutcome (bind_bookmark s q)
unfolding bind_bookmark
bind_bookmark-GoodOutcome s q h = elim (Option-cases q.value) [
  | inl e ↦ elim (Option-cases s.ard.bookmark) [
    | inl d ↦ rw e (rw d (good_success h))
    | inr d ↦ rw e (rw (d.1) (good_success h))
  ]
  | inr e ↦ rw (e.1) (GoodOutcome-if (is_bookmark q.ctype) (good_success h) (good_error h))
]

bind_found-GoodOutcome :
    (b : Option (List BindInfo)) (g : Option (List GetData)) (s : Stmt) (i : ℕ) (q : Request)
    → IsValid s
    → Holds b s.ard.allocated
    → Holds g s.gdti.allocated
    → Reaches b (suc i)
    → Reaches g (suc i)
    → GoodOutcome (bind_found b g s i q)
unfolding bind_found
bind_found-GoodOutcome none g s i q h k l rb rg = good_error h
bind_found-GoodOutcome (some b) none s i q h k l rb rg = good_null
bind_found-GoodOutcome (some b) (some g) s i q h k l rb rg =
    let in_b : ltb i (length b) ≡ true = ground (arith, rb) in
    let in_g : ltb i (length g) ≡ true = ground (arith, rg) in
    rw (in_b, in_g)
      (good_success (
        Holds-update_in (rebind q) (some b) i s.ard.allocated k,
        Holds-update_in (reset_data q) (some g) i s.gdti.allocated l,
      ))

bind_at-GoodOutcome :
    (s : Stmt) (i : ℕ) (q : Request)
    → IsValid s
    → Reaches s.ard.bindings (suc i)
    → Reaches s.gdti.gdata (suc i)
    → GoodOutcome (bind_at s i q)
unfolding bind_at
bind_at-GoodOutcome s i q h rb rg =
    bind_found-GoodOutcome s.ard.bindings s.gdti.gdata s i q h h.0 h.1 rb rg

Holds-if_ard :
    (t : Bool) (a b : Ard)
    → Holds a.bindings a.allocated
    → Holds b.bindings b.allocated
    → Holds (if t then a else b).bindings (if t then a else b).allocated
Holds-if_ard true a b h k = h
Holds-if_ard false a b h k = k

Holds-if_gdata :
    (t : Bool) (a b : GetDataInfo)
    → Holds a.gdata a.allocated
    → Holds b.gdata b.allocated
    → Holds (if t then a else b).gdata (if t then a else b).allocated
Holds-if_gdata true a b h k = h
Holds-if_gdata false a b h k = k

-- Every call of PGAPI_BindCol, successful or not and whichever allocation fails in it, leaves a
-- well-formed statement well formed and writes behind the end of no block, unless it writes through
-- NULL.
pub bind_col-IsValid :
    (ok_ard ok_gdata : Bool) (s : Stmt) (icol : ℕ) (q : Request)
    → IsValid s
    → GoodOutcome (bind_col ok_ard ok_gdata s icol q)
unfolding bind_col
bind_col-IsValid ok_ard ok_gdata s zero q h =
    GoodOutcome-if s.executing (good_error h)
      (bind_bookmark-GoodOutcome (record s { error = none }) q h)
bind_col-IsValid ok_ard ok_gdata s (suc i) q h =
    let more_ard = ltb s.ard.allocated (suc i) in
    let more_gdata = ltb s.gdti.allocated (suc i) in
    let ard = if more_ard then extend_column_bindings ok_ard s.ard (suc i) else s.ard in
    let gdti = if more_gdata then extend_getdata_info ok_gdata s.gdti (suc i) false else s.gdti in
    let h_ard : Holds ard.bindings ard.allocated =
      Holds-if_ard more_ard (extend_column_bindings ok_ard s.ard (suc i)) s.ard
        (Holds-extend_column_bindings ok_ard s.ard (suc i) h.0) h.0 in
    let h_gdti : Holds gdti.gdata gdti.allocated =
      Holds-if_gdata more_gdata (extend_getdata_info ok_gdata s.gdti (suc i) false) s.gdti
        (Holds-extend_getdata_info ok_gdata s.gdti (suc i) h.1) h.1 in
    let column : (suc i == 0) ≡ false = ground arith in
    let back : suc i - 1 ≡ i = omega arith in
    GoodOutcome-if s.executing (good_error h) (
      rw column (
        rw back (
          bind_at-GoodOutcome (record s { error = none; ard = ard; gdti = gdti }) i q
            (h_ard, h_gdti) (Reaches-extend_column_bindings ok_ard s.ard (suc i) h.0)
            (Reaches-extend_getdata_info ok_gdata s.gdti (suc i) h.1))))
