-- ===== src/Tests/Unicode.antt =====
-- vxodbc/win_unicode.cc at concrete inputs.
use Prim.Native.Nat.{min}
use versaplex.Prelude.{
  ℕ, ◌≤◌, ◌≡◌, refl, arith, true, false, List, [], ◌∷◌, ◌++◌, Bytes, codes, length, some,
}
use versaplex.Unicode.{encode_unit, put, ucs2_to_utf8, utf8_to_ucs2_lf, nts, count, Output, done}
use versaplex.Unicode.RoundTrip.{IsUnits, utf8_to_ucs2_lf-ucs2_to_utf8}
use versaplex.Unicode.Bounds.{length-utf8_to_ucs2_lf}

-- "aé€"
abbrev wide : List ℕ
wide = 0x61 ∷ 0xe9 ∷ 0x20ac ∷ []

abbrev narrow : Bytes
narrow = 0x61 ∷ 0xc3 ∷ 0xa9 ∷ 0xe2 ∷ 0x82 ∷ 0xac ∷ []

wide-IsUnits : IsUnits wide
wide-IsUnits = omega arith

encodes_wide : ucs2_to_utf8 (some wide) (count 3) false ≡ some narrow
unfolding ucs2_to_utf8 encode_unit
encodes_wide = refl

utf8_to_ucs2_lf-ucs2_to_utf8_example :
    (s : Bytes) × (ucs2_to_utf8 (some wide) (count (length wide)) false ≡ some s)
    × (utf8_to_ucs2_lf (some s) nts false 8
        ≡ done (record { written = wide ++ 0 ∷ []; ocount = length wide }))
    × (utf8_to_ucs2_lf (some s) (count (length s)) false 8
        ≡ done (record { written = wide ++ 0 ∷ []; ocount = length wide }))
utf8_to_ucs2_lf-ucs2_to_utf8_example =
    utf8_to_ucs2_lf-ucs2_to_utf8 wide 8 wide-IsUnits (omega arith)

-- "\n\r\na" with room for two units
abbrev cut : Output
cut = record { written = 13 ∷ 10 ∷ []; ocount = 5 }

reads_cut : utf8_to_ucs2_lf (some (codes "\n\r\na")) nts true 2 ≡ done cut
unfolding utf8_to_ucs2_lf put
reads_cut = refl

length-utf8_to_ucs2_lf_example : (2 ≤ 2) × (min 5 2 ≤ 2)
length-utf8_to_ucs2_lf_example =
    length-utf8_to_ucs2_lf (some (codes "\n\r\na")) nts true 2 cut reads_cut
