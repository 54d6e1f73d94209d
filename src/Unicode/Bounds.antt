-- ===== src/Unicode/Bounds.antt =====
-- `utf8_to_ucs2_lf` of vxodbc/win_unicode.cc stays in its buffer, and what it makes of a
-- four-byte sequence.
use Prim.Native.Nat.{min}
use versaplex.Prelude.{
  ℕ, zero, suc, ◌-◌, ◌<◌, ◌≤◌, ◌==◌, ltb, if◌then◌else◌, Bool, true, false, not, ◌&&◌, [], ◌∷◌,
  some, Bytes, ◌≡◌, ◌∙◌, ap, refl, arith, length, length-append, Option, none, within,
}
use versaplex.Prelude.Bits.{holds_from, holds_at}
use versaplex.Multibyte.Charset.{utf8}
use versaplex.Multibyte.Chars.{four_bytes, cont}
use versaplex.Unicode.{
  Length, nts, Output, Decoded, done, overrun, put, put_ascii, decode, finish, bytes_of,
  utf8_to_ucs2_lf, three_code, two_code, is_ascii, is_three, head_or_zero, tail_of, past_terminator,
}
use versaplex.Unicode.Steps.{decode_two, decode_three}

-- The buffer holds the units counted, up to its size.
abbrev Fits : ℕ → Output → Type 0
Fits cap o = length o.written ≡ min o.ocount cap

data Bounded (cap : ℕ) : Decoded → Type 0 where
  over : Bounded cap overrun
  fits : {o : Output} → Fits cap o → Bounded cap (done o)

Bounded-if :
    {cap : ℕ} (t : Bool) {a b : Decoded}
    → Bounded cap a
    → Bounded cap b
    → Bounded cap (if t then a else b)
Bounded-if true h k = h
Bounded-if false h k = k

put-Fits : (cap u : ℕ) (o : Output) → Fits cap o → Fits cap (put cap u o)
unfolding put
put-Fits cap u o h = ground (arith, length-append o.written (u ∷ []))

put_ascii-Fits :
    (lf : Bool) (cap before b : ℕ) (o : Output)
    → Fits cap o
    → Fits cap (put_ascii lf cap before b o)
unfolding put_ascii
put_ascii-Fits lf cap before b o h =
    ground (arith, put-Fits cap b o, put-Fits cap 13 o, put-Fits cap b (put cap 13 o))

decode-Bounded :
    (lf : Bool) (cap before left skip : ℕ) (s : Bytes) (o : Output)
    → Fits cap o
    → Bounded cap (decode lf cap before left skip s o)
unfolding decode
decode-Bounded lf cap before left zero [] o h = fits h
decode-Bounded lf cap before left (suc skip) [] o h = Bounded-if (left == 0) (fits h) over
decode-Bounded lf cap before left (suc skip) (b ∷ s) o h = decode-Bounded lf cap b left skip s o h
decode-Bounded lf cap before left zero (b ∷ s) o h =
    let code = three_code b (head_or_zero s) (head_or_zero (tail_of s)) in
    let pair_code = two_code b (head_or_zero s) in
    Bounded-if (left == 0) (fits h) (
      Bounded-if (is_ascii b)
        (decode-Bounded lf cap b (left - 1) 0 s (put_ascii lf cap before b o)
          (put_ascii-Fits lf cap before b o h))
        (Bounded-if (is_three b)
          (Bounded-if (ltb o.ocount cap && past_terminator s) over
            (decode-Bounded lf cap b (left - 3) 2 s (put cap code o) (put-Fits cap code o h)))
          (decode-Bounded lf cap b (left - 2) 1 s (put cap pair_code o)
            (put-Fits cap pair_code o h))))

finish_le :
    (cap : ℕ) {d : Decoded} {o : Output}
    → Bounded cap d
    → finish cap d ≡ done o
    → (length o.written ≤ cap) × (min o.ocount cap ≤ length o.written)
unfolding finish
finish_le cap over e = cc
finish_le cap (fits {o} h) e = ground (arith, length-append o.written (0 ∷ []))

-- Where a call reads no byte behind the terminator, it writes no more units than the buffer has room
-- for, and all that it counts if they fit.
pub length-utf8_to_ucs2_lf :
    (s : Option Bytes) (ilen : Length) (lf : Bool) (cap : ℕ) (o : Output)
    → utf8_to_ucs2_lf s ilen lf cap ≡ done o
    → (length o.written ≤ cap) × (min o.ocount cap ≤ length o.written)
unfolding utf8_to_ucs2_lf
length-utf8_to_ucs2_lf none ilen lf cap o e = ground arith
length-utf8_to_ucs2_lf (some s) ilen lf cap o e =
    let empty : Output = record { written = []; ocount = 0 } in
    finish_le cap (decode-Bounded lf cap 0 (bytes_of ilen s) 0 s empty (omega arith)) e

lead_test : ℕ → Bool
lead_test b = if within 0xf0 0xf7 b then is_three b else if cont b then not (is_three b) else true

lead_table : holds_from lead_test 0 256 ≡ true
unfolding holds_from lead_test
lead_table = refl

lead_bytes :
    (b : ℕ)
    → b < 256
    → (within 0xf0 0xf7 b ≡ true → is_three b ≡ true) × (cont b ≡ true → is_three b ≡ false)
unfolding lead_test
lead_bytes b h =
    let t = holds_at lead_test 256 b lead_table h in (λ e. ground arith, λ e. ground arith)

-- A four-byte sequence is read as three bytes and two: it becomes two units that are not the
-- character, and the byte behind it is taken for the second of the two.
pub utf8_to_ucs2_lf_four :
    (a b c d x cap : ℕ)
    → four_bytes utf8 a b c d ≡ true
    → 2 < cap
    → utf8_to_ucs2_lf (some (a ∷ b ∷ c ∷ d ∷ x ∷ [])) nts false cap
      ≡ done (record { written = three_code a b c ∷ two_code d x ∷ 0 ∷ []; ocount = 2 })
unfolding utf8_to_ucs2_lf
utf8_to_ucs2_lf_four a b c d x cap h room =
    let empty : Output = record { written = []; ocount = 0 } in
    let o = put cap (three_code a b c) empty in
    let first =
      decode_three false cap 0 2 a b c (d ∷ x ∷ []) empty (ground arith)
        ((lead_bytes a (ground arith)).0 (ground arith)) in
    let second =
      decode_two false cap c 0 d x [] o (ground arith)
        ((lead_bytes d (ground arith)).1 (ground arith)) in
    ap (finish cap) (first ∙ second) ∙ unfold put in ground arith
