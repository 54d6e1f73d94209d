-- ===== src/Bindings/Column.antt =====
-- What `PGAPI_BindCol` does to the columns (vxodbc/bind.cc).
use versaplex.Prelude.{
  ℕ, suc, ◌-◌, ◌≤◌, ◌<◌, ltb, ◌==◌, if◌then◌else◌, true, false, List, [], Option, none, some,
  length, get_elem?, replicate, length-replicate, ◌≡◌, ◌≢◌, refl, sym, ap, ◌∙◌, arith, Bool-cases,
  Option-cases, inl, inr,
}
use versaplex.Bindings.{
  sql_c_char, BindInfo, GetData, Ard, GetDataInfo, empty_binding, empty_gdata, copy_from, update,
  extend_column_bindings, extend_getdata_info, create_empty_bindings, create_empty_gdata,
}
use versaplex.Bindings.BindCol.{
  Stmt, Request, success, null_access, bind_col, bind_found, bind_at, rebind, reset_data,
}
use versaplex.Bindings.Laws.{
  Holds, IsValid, get_elem?-copy_from, get_elem?-update_ne, get_elem?-update_self, length-copy_from,
}

-- The entries of `old` in use stand in `xs`, which has at least n.
abbrev pub Keeps : Option (List BindInfo) → ℕ → List BindInfo → ℕ → Type 0
Keeps old used xs n =
    (n ≤ length xs)
    × ((os : List BindInfo) (j : ℕ) → old ≡ some os → j < used → get_elem? xs j ≡ get_elem? os j)

Holds-some {ℓ} :
    {A : Type ℓ} (o : Option (List A)) (xs : List A) (n : ℕ)
    → o ≡ some xs
    → Holds o n
    → n ≤ length xs
Holds-some none xs n e h = cc
Holds-some (some ys) xs n e h =
    let same : length ys ≡ length xs =
      ap length (ap (λ o. elim o [ none ↦ [] | some zs ↦ zs ]) e) in
    omega (arith, same)

Holds-none {ℓ} : {A : Type ℓ} (o : Option (List A)) (n : ℕ) → o ≡ none → Holds o n → n ≡ 0
Holds-none none n e h = h
Holds-none (some ys) n e h = cc

room_ard :
    (ard : Ard) (i : ℕ)
    → Holds ard.bindings ard.allocated
    → (xs : List BindInfo) × ((if ltb ard.allocated (suc i)
          then extend_column_bindings true ard (suc i)
          else ard).bindings
        ≡ some xs)
      × Keeps ard.bindings ard.allocated xs (suc i)
unfolding extend_column_bindings create_empty_bindings
room_ard ard i h = elim (Bool-cases (ltb ard.allocated (suc i))) [
  | inl t ↦
      let new = replicate (suc i) empty_binding in
      let sized = length-replicate (suc i) empty_binding in
      (
        copy_from ard.allocated ard.bindings new,
        rw t refl,
        (
          omega (arith, length-copy_from ard.allocated ard.bindings new, sized),
          λ os j e k.
              get_elem?-copy_from ard.allocated ard.bindings os new j e k
                (Holds-some ard.bindings os ard.allocated e h) (ground (arith, sized)),
        ),
      )
  | inr f ↦ elim (Option-cases ard.bindings) [
    | inl e ↦ let z = Holds-none ard.bindings ard.allocated e h in absurd (ground (arith, z))
    | inr e ↦
        let used = Holds-some ard.bindings (e.0) ard.allocated (e.1) h in
        (
          e.0,
          rw f (e.1),
          (
            ground (arith, used),
            λ os j d k.
                let same : e.0 ≡ os =
                  ap (λ o. elim o [ none ↦ [] | some zs ↦ zs ]) (sym (e.1) ∙ d) in
                rw same refl,
          ),
        )
  ]
]

room_gdti :
    (g : GetDataInfo) (i : ℕ)
    → Holds g.gdata g.allocated
    → (xs : List GetData) × ((if ltb g.allocated (suc i)
          then extend_getdata_info true g (suc i) false
          else g).gdata
        ≡ some xs)
      × (suc i ≤ length xs)
unfolding extend_getdata_info create_empty_gdata
room_gdti g i h = elim (Bool-cases (ltb g.allocated (suc i))) [
  | inl t ↦
      let new = replicate (suc i) empty_gdata in
      let sized = length-replicate (suc i) empty_gdata in
      (
        copy_from g.allocated g.gdata new,
        rw t refl,
        omega (arith, length-copy_from g.allocated g.gdata new, sized),
      )
  | inr f ↦ elim (Option-cases g.gdata) [
    | inl e ↦ let z = Holds-none g.gdata g.allocated e h in absurd (ground (arith, z))
    | inr e ↦
        let used = Holds-some g.gdata (e.0) g.allocated (e.1) h in
        (e.0, rw f (e.1), ground (arith, used))
  ]
]

-- The binding has the buffer, the length, the place for lengths and indicators, and the type of the
-- request; without a buffer it is bound to nothing.
abbrev pub IsAsRequested : Request → Option ℕ → BindInfo → Type 0
IsAsRequested q none b =
    (b.buffer ≡ none)
    × (b.buflen ≡ 0)
    × (b.used ≡ none)
    × (b.indicator ≡ none)
    × (b.returntype ≡ some sql_c_char)
IsAsRequested q (some v) b =
    (b.buffer ≡ some v)
    × (b.buflen ≡ q.value_max)
    × (b.used ≡ q.pcb_value)
    × (b.indicator ≡ q.pcb_value)
    × (b.returntype ≡ some q.ctype)

rebind-IsAsRequested :
    (q : Request) (v : Option ℕ) (b : BindInfo) → q.value ≡ v → IsAsRequested q v (rebind q b)
unfolding rebind
rebind-IsAsRequested q none b e = rw e (refl, refl, refl, refl, refl)
rebind-IsAsRequested q (some v) b e = rw e (refl, refl, refl, refl, refl)

-- Where both allocations succeed, a call for a column of an idle, well-formed statement binds that
-- column to the requested buffer with its length, its place for lengths and indicators and its type,
-- or to nothing where no buffer is given, clears the error and keeps the binding of every other
-- column in use.
pub bind_col_column :
    (s : Stmt) (i : ℕ) (q : Request)
    → IsValid s
    → s.executing ≡ false
    → (s' : Stmt) × (xs : List BindInfo) × (b : BindInfo) × (bind_col true true s (suc i) q
        ≡ success s')
      × (s'.error ≡ none)
      × (s'.ard.bindings ≡ some xs)
      × (get_elem? xs i ≡ some b)
      × IsAsRequested q q.value b
      × ((os : List BindInfo) (j : ℕ)
          → s.ard.bindings ≡ some os
          → j < s.ard.allocated
          → i ≢ j
          → get_elem? xs j ≡ get_elem? os j)
unfolding bind_col bind_at bind_found
bind_col_column s i q h idle =
    let a = room_ard s.ard i h.0 in
    let g = room_gdti s.gdti i h.1 in
    let hit = get_elem?-update_self (rebind q) (a.0) i (omega (arith, a.2.0)) in
    let ard : Ard =
      if ltb s.ard.allocated (suc i) then extend_column_bindings true s.ard (suc i) else s.ard in
    let gdti : GetDataInfo =
      if ltb s.gdti.allocated (suc i)
      then extend_getdata_info true s.gdti (suc i) false
      else s.gdti in
    let xs = update (rebind q) (a.0) i in
    let ys = update (reset_data q) (g.0) i in
    let in_a : ltb i (length (a.0)) ≡ true = ground (arith, a.2.0) in
    let in_g : ltb i (length (g.0)) ≡ true = ground (arith, g.2) in
    let column : (suc i == 0) ≡ false = ground arith in
    let back : suc i - 1 ≡ i = omega arith in
    let done : Stmt = record s {
      error = none;
      ard = record ard { bindings = some xs };
      gdti = record gdti { gdata = some ys };
    } in
    (
      done,
      xs,
      rebind q (hit.0),
      rw idle (rw column (rw back (rw (a.1) (rw (g.1) (rw (in_a, in_g) refl))))),
      refl,
      refl,
      hit.2,
      rebind-IsAsRequested q q.value (hit.0) refl,
      λ os j e k ne. get_elem?-update_ne (rebind q) (a.0) i j ne ∙ a.2.1 os j e k,
    )

-- A failed allocation for SQLGetData is not noticed: in an idle statement the binding of a column
-- that is new to both lists then writes through NULL.
pub bind_col_null_access :
    (s : Stmt) (icol : ℕ) (q : Request)
    → s.executing ≡ false
    → s.ard.allocated < icol
    → s.gdti.allocated < icol
    → bind_col true false s icol q ≡ null_access
unfolding bind_col bind_at bind_found extend_column_bindings extend_getdata_info
    create_empty_bindings create_empty_gdata
bind_col_null_access s icol q idle h k =
    let more : ltb s.ard.allocated icol ≡ true = ground arith in
    let more_data : ltb s.gdti.allocated icol ≡ true = ground arith in
    let column : (icol == 0) ≡ false = ground arith in
    rw idle (rw column (rw more (rw more_data refl)))
