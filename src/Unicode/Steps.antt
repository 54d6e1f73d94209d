-- ===== src/Unicode/Steps.antt =====
-- The decoder of vxodbc/win_unicode.cc one sequence at a time.
use versaplex.Prelude.{ℕ, suc, ◌-◌, ◌<◌, ◌≤◌, Bool, true, false, ◌∷◌, Bytes, ◌≡◌, refl, arith}
use versaplex.Unicode.{
  Output, put, put_ascii, decode, three_code, two_code, is_three, head_or_zero, tail_of,
  past_terminator,
}

module _ (lf : Bool) (cap before : ℕ) where
  pub decode_ascii :
      (left b : ℕ) (s : Bytes) (o : Output)
      → b < 128
      → decode lf cap before (suc left) 0 (b ∷ s) o
        ≡ decode lf cap b left 0 s (put_ascii lf cap before b o)
  unfolding decode
  decode_ascii left b s o h = let e : suc left - 1 ≡ left = omega arith in rw e (ground arith)

  pub decode_two :
      (left a b : ℕ) (s : Bytes) (o : Output)
      → 0x80 ≤ a
      → is_three a ≡ false
      → decode lf cap before (suc (suc left)) 0 (a ∷ b ∷ s) o
        ≡ decode lf cap b left 0 s (put cap (two_code a b) o)
  unfolding decode
  decode_two left a b s o h k = two_tail (b ∷ s)
    where
      two_tail :
          (t : Bytes)
          → decode lf cap before (suc (suc left)) 0 (a ∷ t) o
            ≡ decode lf cap a left 1 t (put cap (two_code a (head_or_zero t)) o)
      two_tail t = let e : suc (suc left) - 2 ≡ left = omega arith in rw (← e) (ground arith)

  pub decode_three :
      (left a b c : ℕ) (s : Bytes) (o : Output)
      → 0xe0 ≤ a
      → is_three a ≡ true
      → decode lf cap before (suc (suc (suc left))) 0 (a ∷ b ∷ c ∷ s) o
        ≡ decode lf cap c left 0 s (put cap (three_code a b c) o)
  unfolding decode
  decode_three left a b c s o h k = three_tail (b ∷ c ∷ s) refl
    where
      three_tail :
          (t : Bytes)
          → past_terminator t ≡ false
          → decode lf cap before (suc (suc (suc left))) 0 (a ∷ t) o
            ≡ decode lf cap a left 2 t
                (put cap (three_code a (head_or_zero t) (head_or_zero (tail_of t))) o)
      three_tail t p =
          let e : suc (suc (suc left)) - 3 ≡ left = omega arith in rw (← e) (ground arith)
