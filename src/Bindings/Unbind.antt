-- ===== src/Bindings/Unbind.antt =====
-- `ARD_unbind_cols` unbinds every column in use (vxodbc/bind.cc).
use versaplex.Prelude.{
  ℕ, zero, suc, ◌-◌, ◌≤◌, ◌<◌, ltb, ◌==◌, true, false, List, none, some, length, get_elem?, ◌≡◌,
  refl, sym, ◌∙◌, arith, ℕ_discrete,
}
use versaplex.Bindings.{
  BindInfo, Ard, update, unbound, reset_a_column_binding, reset_columns, ard_unbind_cols,
}
use versaplex.Bindings.Laws.{length-update, get_elem?-update_ne, get_elem?-update_self}

-- The first n columns of the list are unbound.
abbrev pub Unbound : List BindInfo → ℕ → Type 0
Unbound xs n = (j : ℕ) → j < n → (old : BindInfo) × (get_elem? xs j ≡ some (unbound old))

reset_columns-Unbound :
    (n : ℕ) (ard : Ard) (bs : List BindInfo)
    → ard.bindings ≡ some bs
    → ard.allocated ≤ length bs
    → n ≤ ard.allocated
    → (xs : List BindInfo) × (reset_columns n ard ≡ record ard { bindings = some xs })
      × (length xs ≡ length bs)
      × Unbound xs n
unfolding reset_columns reset_a_column_binding
reset_columns-Unbound zero ard bs e h k = (bs, rw (sym e) refl, refl, λ j l. absurd (omega arith))
reset_columns-Unbound (suc n) ard bs e h k =
    let (xs, r, l, u) = reset_columns-Unbound n ard bs e h (omega arith) in
    let inside : ltb ard.allocated (suc n) ≡ false = ground arith in
    let column : (suc n == 0) ≡ false = ground arith in
    let back : suc n - 1 ≡ n = omega arith in
    let hit = get_elem?-update_self unbound xs n (omega arith) in
    (
      update unbound xs n,
      rw r (rw inside (rw column (rw back refl))),
      length-update unbound xs n ∙ l,
      λ j m. elim (ℕ_discrete n j) [
        | yes same ↦ (hit.0, rw (sym same) (hit.2))
        | no ne ↦
            let earlier = u j (omega arith) in
            (earlier.0, get_elem?-update_ne unbound xs n j ne ∙ earlier.1)
      ],
    )

-- Of a well-formed list every column in use is unbound, and nothing else of it is changed; with
-- `freeall` the list is given up.
pub ard_unbind_cols-Unbound :
    (ard : Ard) (bs : List BindInfo)
    → ard.bindings ≡ some bs
    → ard.allocated ≤ length bs
    → ((xs : List BindInfo) × (ard_unbind_cols ard false ≡ record ard { bindings = some xs })
        × (length xs ≡ length bs)
        × Unbound xs ard.allocated)
      × (ard_unbind_cols ard true ≡ record ard { bindings = none; allocated = 0 })
unfolding ard_unbind_cols
ard_unbind_cols-Unbound ard bs e h =
    let out = reset_columns-Unbound ard.allocated ard bs e h (omega arith) in (out, rw (out.1) refl)
