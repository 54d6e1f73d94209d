-- ===== src/Convert/Bytea/RoundTrip.antt =====
-- What `convert_to_pgbinary` writes, `convert_from_pgbinary` reads back (vxodbc/convert.cc).
use versaplex.Prelude.{
  ℕ, zero, suc, ◌+◌, ◌/◌, ◌<◌, ltb, ◌==◌, if◌then◌else◌, Bool, true, false, not, ◌&&◌, ◌||◌, [],
  ◌∷◌, ◌++◌, Option, none, some, Bytes, is_alnum, length, bit_and, ◌≡◌, ◌∙◌, ap, refl, arith,
  Bool-cases, inl, inr,
}
use versaplex.Prelude.Bits.{holds_from, holds_at}
use versaplex.Convert.Bytea.{
  bytea_escape_char, conv_to_octal2, conv_from_octal, convert_to_pgbinary, FromBinary, done,
  overrun, cons_byte, octal_at, convert_from, count_from, with_octal, is_escape,
}

abbrev pub IsBytes : Bytes → Type 0
IsBytes [] = Unit
IsBytes (b ∷ s) = (b < 256) × IsBytes s

octal_test : ℕ → Bool
octal_test b =
    (conv_from_octal (bit_and (b / 8 / 8) 7 + b'0') (bit_and (b / 8) 7 + b'0') (bit_and b 7 + b'0')
      == b)
    && not (bit_and (b / 8 / 8) 7 + b'0' == bytea_escape_char)

octal_table : holds_from octal_test 0 256 ≡ true
unfolding holds_from octal_test conv_from_octal
octal_table = refl

convert_from-conv_to_octal2 :
    (b : ℕ) (s : Bytes)
    → b < 256
    → convert_from 0 (conv_to_octal2 b ++ s) ≡ cons_byte b (convert_from 0 s)
unfolding octal_test
convert_from-conv_to_octal2 b s h =
    let t = holds_at octal_test 256 b octal_table h in
    unfold convert_from conv_to_octal2 in ground arith

convert_from_plain :
    (c : ℕ) (s : Bytes)
    → (c == bytea_escape_char) ≡ false
    → convert_from 0 (c ∷ s) ≡ cons_byte c (convert_from 0 s)
unfolding convert_from
convert_from_plain c s h = ground arith

plain_ne_escape : (c : ℕ) → (is_alnum c || c == b' ') ≡ true → (c == bytea_escape_char) ≡ false
unfolding is_alnum
plain_ne_escape c h = ground arith

-- Any bytes come back from their escaped form as it is built for a bind request, where the escape
-- character is not doubled.
pub convert_from-convert_to_pgbinary :
    (s : Bytes) (escape_ch : ℕ)
    → IsBytes s
    → convert_from 0 (convert_to_pgbinary s escape_ch true) ≡ done s
unfolding convert_to_pgbinary cons_byte
convert_from-convert_to_pgbinary [] escape_ch h = unfold convert_from in refl
convert_from-convert_to_pgbinary (b ∷ s) escape_ch h =
    elim (Bool-cases (ltb b 128 && (is_alnum b || b == b' '))) [
      | inl p ↦ rw p (
          convert_from_plain b _ (plain_ne_escape b (ground arith))
          ∙ ap (cons_byte b) (convert_from-convert_to_pgbinary s escape_ch h.1))
      | inr p ↦ rw p (
          convert_from-conv_to_octal2 b _ h.0
          ∙ ap (cons_byte b) (convert_from-convert_to_pgbinary s escape_ch h.1))
    ]

-- The count of a run with no buffer is the length of what a run with one writes.
data Counts : ℕ → FromBinary → Type 0 where
  over : {n : ℕ} → Counts n overrun
  exact : {n : ℕ} {t : Bytes} → n ≡ length t → Counts n (done t)

Counts-cons_byte : {n : ℕ} {r : FromBinary} (b : ℕ) → Counts n r → Counts (suc n) (cons_byte b r)
unfolding cons_byte
Counts-cons_byte b over = over
Counts-cons_byte b (exact e) = exact (ap suc e)

Counts-with_octal :
    {n : ℕ} {r : FromBinary} (o : Option ℕ) → Counts n r → Counts (suc n) (with_octal o r)
unfolding with_octal
Counts-with_octal none h = over
Counts-with_octal (some b) h = Counts-cons_byte b h

Counts-if :
    (t : Bool) {m n : ℕ} {q r : FromBinary}
    → Counts m q
    → Counts n r
    → Counts (if t then m else n) (if t then q else r)
Counts-if true h k = h
Counts-if false h k = k

count_from-Counts : (skip : ℕ) (s : Bytes) → Counts (count_from skip s) (convert_from skip s)
unfolding count_from convert_from
count_from-Counts skip [] = exact refl
count_from-Counts (suc skip) (c ∷ s) = count_from-Counts skip s
count_from-Counts zero (c ∷ s) =
    Counts-if (c == bytea_escape_char)
      (Counts-if (is_escape s) (Counts-cons_byte c (count_from-Counts 1 s))
        (Counts-with_octal (octal_at s) (count_from-Counts 3 s)))
      (Counts-cons_byte c (count_from-Counts 0 s))

exact_count : {n : ℕ} {r : FromBinary} {t : Bytes} → Counts n r → r ≡ done t → n ≡ length t
exact_count over e = cc
exact_count (exact h) e = ground (arith, h)

-- A call with no buffer counts the bytes that a call with a buffer writes.
pub count_from-convert_from : (s t : Bytes) → convert_from 0 s ≡ done t → count_from 0 s ≡ length t
count_from-convert_from s t e = exact_count (count_from-Counts 0 s) e
