-- ===== src/Convert/Hex/InPlace.antt =====
-- `pg_bin2hex` and `pg_hex2bin` (vxodbc/convert.cc) never read a byte that they have overwritten.
use versaplex.Prelude.{
  ℕ, zero, suc, ◌+◌, ◌*◌, ◌<◌, ◌≤◌, ◌⊎◌, inl, inr, some, ◌≡◌, refl, sym, ◌∙◌, ap, arith, dec_lt,
  ℕ_discrete,
}
use versaplex.Convert.Hex.{
  Mem, store, high_digit, low_digit, hex_backwards, hex_forwards, pg_bin2hex,
}

pub store_self : (m : Mem) (a v : ℕ) → store m a v a ≡ v
unfolding store
store_self m a v = ground arith

pub store_ne : (m : Mem) (a v x : ℕ) → ((x < a) ⊎ (a < x)) → store m a v x ≡ m x
unfolding store
store_ne m a v x h = ground arith

-- Neither loop writes outside the 2 * n bytes at `dst`.
hex_backwards_above :
    (n : ℕ) (m : Mem) (src dst x : ℕ) → dst + 2 * n ≤ x → hex_backwards m src dst n x ≡ m x
unfolding hex_backwards
hex_backwards_above zero m src dst x h = refl
hex_backwards_above (suc n) m src dst x h =
    hex_backwards_above n _ src dst x (omega arith)
    ∙ store_ne _ (dst + 2 * n) _ x (omega arith)
    ∙ store_ne m (dst + 2 * n + 1) _ x (omega arith)

hex_forwards_below : (n : ℕ) (m : Mem) (src dst x : ℕ) → x < dst → hex_forwards m src dst n x ≡ m x
unfolding hex_forwards
hex_forwards_below zero m src dst x h = refl
hex_forwards_below (suc n) m src dst x h =
    hex_forwards_below n _ (src + 1) (dst + 2) x (omega arith)
    ∙ store_ne _ (dst + 1) _ x (omega arith)
    ∙ store_ne m dst _ x (omega arith)

-- The digits of n bytes of `old` at `src` stand in `new` at `dst`.
abbrev pub Digits : Mem → ℕ → Mem → ℕ → ℕ → Type 0
Digits old src new dst n =
    (i : ℕ)
    → i < n
    → (new (dst + 2 * i) ≡ high_digit (old (src + i)))
      × (new (dst + 2 * i + 1) ≡ low_digit (old (src + i)))

hex_backwards-Digits :
    (n : ℕ) (m : Mem) (src dst : ℕ) → src ≤ dst → Digits m src (hex_backwards m src dst n) dst n
unfolding hex_backwards
hex_backwards-Digits zero m src dst h i k = absurd (omega arith)
hex_backwards-Digits (suc n) m src dst h i k =
    let hi = high_digit (m (src + n)) in
    let lo = low_digit (m (src + n)) in
    let m1 = store m (dst + 2 * n + 1) lo in
    let m2 = store m1 (dst + 2 * n) hi in
    elim (ℕ_discrete i n) [
      | yes e ↦ rw e (
        (hex_backwards_above n m2 src dst (dst + 2 * n) (omega arith)
            ∙ store_self m1 (dst + 2 * n) hi),
        (hex_backwards_above n m2 src dst (dst + 2 * n + 1) (omega arith)
            ∙ store_ne m1 (dst + 2 * n) hi (dst + 2 * n + 1) (omega arith)
            ∙ store_self m (dst + 2 * n + 1) lo),
      )
      | no ne ↦
          let r = hex_backwards-Digits n m2 src dst h i (omega arith) in
          let same : m2 (src + i) ≡ m (src + i) =
            store_ne m1 (dst + 2 * n) hi (src + i) (omega arith)
            ∙ store_ne m (dst + 2 * n + 1) lo (src + i) (omega arith) in
          ((r.0 ∙ ap high_digit same), (r.1 ∙ ap low_digit same))
    ]

hex_forwards-Digits :
    (n : ℕ) (m : Mem) (src dst : ℕ)
    → dst + n ≤ src + 1 ⊎ src + n ≤ dst
    → Digits m src (hex_forwards m src dst n) dst n
unfolding hex_forwards
hex_forwards-Digits zero m src dst h i k = absurd (omega arith)
hex_forwards-Digits (suc n) m src dst h zero k =
    let hi = high_digit (m src) in
    let lo = low_digit (m src) in
    let m1 = store m dst hi in
    let m2 = store m1 (dst + 1) lo in
    let first : hex_forwards m2 (src + 1) (dst + 2) n dst ≡ hi =
      hex_forwards_below n m2 (src + 1) (dst + 2) dst (omega arith)
      ∙ store_ne m1 (dst + 1) lo dst (omega arith)
      ∙ store_self m dst hi in
    let second : hex_forwards m2 (src + 1) (dst + 2) n (dst + 1) ≡ lo =
      hex_forwards_below n m2 (src + 1) (dst + 2) (dst + 1) (omega arith)
      ∙ store_self m1 (dst + 1) lo in
    let d0 : dst + 0 ≡ dst = omega arith in
    let s0 : src + 0 ≡ src = omega arith in rw d0 (rw s0 (first, second))
hex_forwards-Digits (suc n) m src dst h (suc i) k =
    let hi = high_digit (m src) in
    let lo = low_digit (m src) in
    let m1 = store m dst hi in
    let m2 = store m1 (dst + 1) lo in
    let r = hex_forwards-Digits n m2 (src + 1) (dst + 2) (omega arith) i (omega arith) in
    let same : m2 (src + 1 + i) ≡ m (src + 1 + i) =
      store_ne m1 (dst + 1) lo (src + 1 + i) (omega arith)
      ∙ store_ne m dst hi (src + 1 + i) (omega arith) in
    let ed : dst + 2 * suc i ≡ dst + 2 + 2 * i = omega arith in
    let es : src + suc i ≡ src + 1 + i = omega arith in
    rw ed (rw es (r.0 ∙ ap high_digit same, r.1 ∙ ap low_digit same))

terminated_lem :
    (m : Mem) (src : ℕ) (w : Mem) (dst n : ℕ) (new : Mem)
    → Digits m src w dst n
    → some (store w (dst + 2 * n) 0) ≡ some new
    → Digits m src new dst n × (new (dst + 2 * n) ≡ 0)
terminated_lem m src w dst n new h e =
    let same : store w (dst + 2 * n) 0 ≡ new = cc in
    let kept = λ (x : ℕ). store_ne w (dst + 2 * n) 0 x in
    rw (sym same) (
      (λ i k. (
        kept (dst + 2 * i) (omega arith) ∙ (h i k).0,
        kept (dst + 2 * i + 1) (omega arith) ∙ (h i k).1,
      )),
      store_self w (dst + 2 * n) 0,
    )

-- Where the call succeeds, the bytes that stood at `src` stand in hexadecimal at `dst`, with a
-- terminator behind them, whatever overlap it allowed.
pub pg_bin2hex-Digits :
    (m new : Mem) (src dst length : ℕ)
    → pg_bin2hex m src dst length ≡ some new
    → Digits m src new dst length × (new (dst + 2 * length) ≡ 0)
unfolding pg_bin2hex
pg_bin2hex-Digits m new src dst length e =
    let forwards = hex_forwards m src dst length in
    let backwards = hex_backwards m src dst length in
    elim (dec_lt dst src) [
      | yes p ↦
          let fits : dst + length ≤ src + 1 = ground arith in
          let same : some (store forwards (dst + 2 * length) 0) ≡ some new = ground arith in
          terminated_lem m src forwards dst length new
            (hex_forwards-Digits length m src dst (inl fits)) same
      | no p ↦ elim (dec_lt dst (src + length)) [
        | yes q ↦
            let same : some (store backwards (dst + 2 * length) 0) ≡ some new = ground arith in
            terminated_lem m src backwards dst length new
              (hex_backwards-Digits length m src dst (omega arith)) same
        | no q ↦
            let same : some (store forwards (dst + 2 * length) 0) ≡ some new = ground arith in
            terminated_lem m src forwards dst length new
              (hex_forwards-Digits length m src dst (inr (omega arith))) same
      ]
    ]
