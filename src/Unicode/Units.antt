-- ===== src/Unicode/Units.antt =====
-- One unit of vxodbc/win_unicode.cc, for each of the 65536 values.
use versaplex.Prelude.{
  ℕ, ◌<◌, ◌^◌, ◌==◌, leb, ◌≤◌, Bool, true, false, not, ◌&&◌, [], ◌∷◌, Bytes, ◌≡◌, refl, arith,
}
use versaplex.Prelude.Bits.{holds_from, holds_at}
use versaplex.Unicode.{encode_unit, three_code, two_code, is_ascii, is_three}

-- What the bytes of a unit are, and that the decoder's formulas lead back to it.
unit_fits : ℕ → Bytes → Bool
unit_fits w [] = false
unit_fits w (a ∷ []) = is_ascii a && a == w
unit_fits w (a ∷ b ∷ []) =
    leb 0xc0 a && leb a 0xdf && leb 0x80 b && leb b 0xbf && not (is_three a) && two_code a b == w
unit_fits w (a ∷ b ∷ c ∷ []) =
    leb 0xe0 a
    && leb a 0xef
    && leb 0x80 b
    && leb b 0xbf
    && leb 0x80 c
    && leb c 0xbf
    && is_three a
    && three_code a b c == w
unit_fits w (a ∷ b ∷ c ∷ d ∷ s) = false

unit_table : holds_from (λ w. unit_fits w (encode_unit false w)) 0 65536 ≡ true
unfolding holds_from unit_fits encode_unit
unit_table = refl

-- The three forms of a unit, in the decoder's terms.
pub data UnitBytes (w : ℕ) : Bytes → Type 0 where
  ascii : w < 128 → UnitBytes w (w ∷ [])
  pair :
      {a b : ℕ}
      → 0xc0 ≤ a
      → a ≤ 0xdf
      → 0x80 ≤ b
      → b ≤ 0xbf
      → is_three a ≡ false
      → two_code a b ≡ w
      → UnitBytes w (a ∷ b ∷ [])
  triple :
      {a b c : ℕ}
      → 0xe0 ≤ a
      → a ≤ 0xef
      → 0x80 ≤ b
      → b ≤ 0xbf
      → 0x80 ≤ c
      → c ≤ 0xbf
      → is_three a ≡ true
      → three_code a b c ≡ w
      → UnitBytes w (a ∷ b ∷ c ∷ [])

unit_fits-UnitBytes : (w : ℕ) (u : Bytes) → unit_fits w u ≡ true → UnitBytes w u
unfolding unit_fits
unit_fits-UnitBytes w [] h = cc
unit_fits-UnitBytes w (a ∷ []) h = let e : w ≡ a = ground arith in rw (← e) (ascii (ground arith))
unit_fits-UnitBytes w (a ∷ b ∷ []) h =
    pair (ground arith) (ground arith) (ground arith) (ground arith) (ground arith) (ground arith)
unit_fits-UnitBytes w (a ∷ b ∷ c ∷ []) h =
    triple (ground arith) (ground arith) (ground arith) (ground arith) (ground arith) (ground arith)
      (ground arith) (ground arith)
unit_fits-UnitBytes w (a ∷ b ∷ c ∷ d ∷ s) h = cc

pub encode_unit-UnitBytes : (w : ℕ) → w < 2 ^ 16 → UnitBytes w (encode_unit false w)
encode_unit-UnitBytes w h =
    unit_fits-UnitBytes w _ (holds_at (λ w. unit_fits w (encode_unit false w)) 65536 w unit_table h)
