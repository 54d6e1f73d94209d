-- ===== src/Convert/Hex/RoundTrip.antt =====
-- `pg_hex2bin` reads back what `pg_bin2hex` writes (vxodbc/convert.cc).
use versaplex.Prelude.{
  ℕ, zero, suc, ◌+◌, ◌-◌, ◌*◌, ◌%◌, ◌<◌, ◌≤◌, ◌==◌, Bool, true, false, not, ◌&&◌, inl, inr, some,
  ◌≡◌, refl, sym, ◌∙◌, ap, arith, ℕ_discrete,
}
use versaplex.Prelude.Bits.{holds_from, holds_at}
use versaplex.Convert.Hex.{
  Mem, store, high_digit, low_digit, pg_bin2hex, digit_value, hex2bin_from, pg_hex2bin,
}
use versaplex.Convert.Hex.InPlace.{Digits, store_self, store_ne, pg_bin2hex-Digits}

-- A digit that one writes the other reads.
digits_test : ℕ → Bool
digits_test b =
    ((digit_value (high_digit b) * 16 % 256 + digit_value (low_digit b)) % 256 == b)
    && not (high_digit b == 0)
    && not (low_digit b == 0)

digits_table : holds_from digits_test 0 256 ≡ true
unfolding holds_from digits_test digit_value
digits_table = refl

hex2bin_from_below :
    (n : ℕ) (m : Mem) (src dst x : ℕ) (hbyte : Bool)
    → x < dst
    → hex2bin_from m src dst n hbyte x ≡ m x
unfolding hex2bin_from
hex2bin_from_below zero m src dst x hbyte h = store_ne m dst 0 x (omega arith)
hex2bin_from_below (suc n) m src dst x true h = ground (
  arith,
  store_ne m dst 0 x (inl h),
  store_ne m dst (digit_value (m src) * 16 % 256) x (inl h),
  hex2bin_from_below n (store m dst (digit_value (m src) * 16 % 256)) (src + 1) dst x false h,
)
hex2bin_from_below (suc n) m src dst x false h = ground (
  arith,
  store_ne m dst 0 x (inl h),
  store_ne m dst ((m dst + digit_value (m src)) % 256) x (inl h),
  hex2bin_from_below n (store m dst ((m dst + digit_value (m src)) % 256)) (src + 1) (dst + 1) x
      true (omega arith),
)

digits_lem :
    (b : ℕ)
    → b < 256
    → ((digit_value (high_digit b) * 16 % 256 + digit_value (low_digit b)) % 256 ≡ b)
      × ((high_digit b == 0) ≡ false)
      × ((low_digit b == 0) ≡ false)
unfolding digits_test
digits_lem b h = let t = holds_at digits_test 256 b digits_table h in ground arith

-- Two digits are read into one byte.
hex2bin_from_pair :
    (m : Mem) (src dst k b : ℕ)
    → dst ≤ src
    → b < 256
    → m src ≡ high_digit b
    → m (src + 1) ≡ low_digit b
    → hex2bin_from m src dst (suc (suc k)) true
      ≡ hex2bin_from
          (store (store m dst (digit_value (m src) * 16 % 256)) dst b)
          (src + 1 + 1)
          (dst + 1)
          k
          true
unfolding hex2bin_from
hex2bin_from_pair m src dst k b h kb ehi elo =
    let t = digits_lem b kb in
    let v = digit_value (m src) * 16 % 256 in
    let at_dst = store_self m dst v in
    let sum : (v + digit_value (m (src + 1))) % 256 ≡ b = rw ehi (rw elo (t.0)) in
    let some_hi : (m src == 0) ≡ false = rw ehi (t.1) in
    let some_lo : (m (src + 1) == 0) ≡ false = rw elo (t.2) in
    let at_src : store m dst v (src + 1) ≡ m (src + 1) = store_ne m dst v (src + 1) (omega arith) in
    rw some_hi (rw at_src (rw some_lo (rw at_dst (rw sum refl))))

hex_end : (m : Mem) (src dst : ℕ) → hex2bin_from m src dst 0 true (dst + 0) ≡ 0
unfolding hex2bin_from
hex_end m src dst = let d0 : dst + 0 ≡ dst = omega arith in rw d0 (store_self m dst 0)

hex2bin_from-Digits :
    (n : ℕ) (old : Mem) (at : ℕ) (m : Mem) (src dst : ℕ)
    → ((i : ℕ) → i < n → old (at + i) < 256)
    → dst ≤ src
    → Digits old at m src n
    → ((i : ℕ) → i < n → hex2bin_from m src dst (2 * n) true (dst + i) ≡ old (at + i))
      × (hex2bin_from m src dst (2 * n) true (dst + n) ≡ 0)
hex2bin_from-Digits zero old at m src dst hb h hd =
    ((λ i k. absurd (omega arith)), hex_end m src dst)
hex2bin_from-Digits (suc n) old at m src dst hb h hd =
    let b = old at in
    let v = digit_value (m src) * 16 % 256 in
    let m1 = store m dst v in
    let m2 = store m1 dst b in
    let kept : (x : ℕ) → dst < x → m2 x ≡ m x =
      λ x k. store_ne m1 dst b x (inr k) ∙ store_ne m dst v x (inr k) in
    let next : (i : ℕ) → at + 1 + i ≡ at + suc i = λ i. omega arith in
    let at_0 : at ≡ at + 0 = omega arith in
    let two : 2 * suc n ≡ suc (suc (2 * n)) = omega arith in
    let hb_0 : old at < 256 = rw (ap old at_0) (hb 0 (omega arith)) in
    let ehi : m src ≡ high_digit b =
      ap m (omega arith) ∙ (hd 0 (omega arith)).0 ∙ ap high_digit (ap old (sym at_0)) in
    let elo : m (src + 1) ≡ low_digit b =
      ap m (omega arith) ∙ (hd 0 (omega arith)).1 ∙ ap low_digit (ap old (sym at_0)) in
    let rest =
      hex2bin_from-Digits n old (at + 1) m2 (src + 1 + 1) (dst + 1)
        (λ i k. rw (next i) (hb (suc i) (omega arith))) (omega arith)
        (λ i k. (
          kept (src + 1 + 1 + 2 * i) (omega arith)
              ∙ ap m (omega arith)
              ∙ (hd (suc i) (omega arith)).0
              ∙ ap high_digit (ap old (sym (next i))),
          kept (src + 1 + 1 + 2 * i + 1) (omega arith)
              ∙ ap m (omega arith)
              ∙ (hd (suc i) (omega arith)).1
              ∙ ap low_digit (ap old (sym (next i))),
        )) in
    let step : hex2bin_from m src dst (2 * suc n) true
        ≡ hex2bin_from m2 (src + 1 + 1) (dst + 1) (2 * n) true =
      rw two (hex2bin_from_pair m src dst (2 * n) b h (hb_0) ehi elo) in
    (
      (λ i k. elim (ℕ_discrete i 0) [
        | yes e ↦
            let d0 : dst + i ≡ dst = omega arith in
            let a0 : at + i ≡ at = omega arith in
            ap (λ f. f (dst + i)) step
            ∙ ap (hex2bin_from m2 (src + 1 + 1) (dst + 1) (2 * n) true) d0
            ∙ hex2bin_from_below (2 * n) m2 (src + 1 + 1) (dst + 1) dst true (omega arith)
            ∙ store_self m1 dst b
            ∙ ap old (sym a0)
        | no ne ↦
            ap (λ f. f (dst + i)) step
            ∙ ap (hex2bin_from m2 (src + 1 + 1) (dst + 1) (2 * n) true) (omega arith)
            ∙ rest.0 (i - 1) (omega arith)
            ∙ ap old (omega arith)
      ]),
      ap (λ f. f (dst + suc n)) step
          ∙ ap (hex2bin_from m2 (src + 1 + 1) (dst + 1) (2 * n) true) (omega arith)
          ∙ rest.1,
    )

-- Where `pg_bin2hex` succeeds, the bytes at `src` that it writes in hexadecimal are read back, to any
-- place at or below the digits, as they were, with a terminator behind them.
pub pg_hex2bin-pg_bin2hex :
    (m new : Mem) (src dst back length : ℕ)
    → ((i : ℕ) → i < length → m (src + i) < 256)
    → pg_bin2hex m src dst length ≡ some new
    → back ≤ dst
    → ((i : ℕ) → i < length → pg_hex2bin new dst back (2 * length) (back + i) ≡ m (src + i))
      × (pg_hex2bin new dst back (2 * length) (back + length) ≡ 0)
unfolding pg_hex2bin
pg_hex2bin-pg_bin2hex m new src dst back length hb e h =
    hex2bin_from-Digits length m src new dst back hb h (pg_bin2hex-Digits m new src dst length e).0
