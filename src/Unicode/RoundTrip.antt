-- ===== src/Unicode/RoundTrip.antt =====
-- `utf8_to_ucs2_lf` reads back what `ucs2_to_utf8` writes (vxodbc/win_unicode.cc).
use versaplex.Prelude.{
  ℕ, zero, suc, ◌+◌, ◌<◌, ◌≤◌, ◌^◌, false, List, [], ◌∷◌, ◌++◌, some, Bytes, ◌≡◌, ◌∙◌, ap, refl,
  arith, length, length-append,
}
use versaplex.Unicode.{
  put_ascii, encode_unit, encode, nts, count, ucs2_to_utf8, Output, done, put, decode, finish,
  utf8_to_ucs2_lf,
}
use mathlib.Core.List.{append-nil, append_assoc}
use versaplex.Unicode.Steps.{decode_ascii, decode_two, decode_three}
use versaplex.Unicode.Units.{UnitBytes, ascii, pair, triple, encode_unit-UnitBytes}

-- Units of 16 bits before a terminator.
abbrev pub IsUnits : List ℕ → Type 0
IsUnits [] = Unit
IsUnits (w ∷ ws) = (0 < w) × (w < 2 ^ 16) × IsUnits ws

-- The encoder over all units.
abbrev pub encoded : List ℕ → Bytes
encoded [] = []
encoded (w ∷ ws) = encode_unit false w ++ encoded ws

pub encode-encoded : (ws : List ℕ) → IsUnits ws → encode false (length ws) ws ≡ encoded ws
unfolding encode
encode-encoded [] h = refl
encode-encoded (w ∷ ws) h = ground (arith, encode-encoded ws h.2)

-- One unit is read, whatever stands behind it.
decode-UnitBytes :
    {w : ℕ} {u : Bytes} (cap before left : ℕ) (s : Bytes) (o : Output)
    → UnitBytes w u
    → (b : ℕ) × (decode false cap before (length u + left) 0 (u ++ s) o
        ≡ decode false cap b left 0 s (put cap w o))
decode-UnitBytes {w} cap before left s o (ascii h) =
    (w, rw one_left (unfold put_ascii in decode_ascii false cap before left w s o h))
  where
    one_left : suc zero + left ≡ suc left
    one_left = omega arith
decode-UnitBytes cap before left s o (pair {a} {b} h1 h2 h3 h4 h5 h6) =
    (b, rw (two_left, ← h6) (decode_two false cap before left a b s o (omega arith) h5))
  where
    two_left : suc (suc zero) + left ≡ suc (suc left)
    two_left = omega arith
decode-UnitBytes cap before left s o (triple {a} {b} {c} h1 h2 h3 h4 h5 h6 h7 h8) =
    (c, rw (three_left, ← h8) (decode_three false cap before left a b c s o h1 h7))
  where
    three_left : suc (suc (suc zero)) + left ≡ suc (suc (suc left))
    three_left = omega arith

abbrev put_all : ℕ → List ℕ → Output → Output
put_all cap [] o = o
put_all cap (w ∷ ws) o = put_all cap ws (put cap w o)

decode-encoded :
    (cap before : ℕ) (ws : List ℕ) (o : Output)
    → IsUnits ws
    → decode false cap before (length (encoded ws)) 0 (encoded ws) o ≡ done (put_all cap ws o)
decode-encoded cap before [] o h = unfold decode in refl
decode-encoded cap before (w ∷ ws) o h =
    let u = encode_unit false w in
    let (b, e) =
      decode-UnitBytes cap before (length (encoded ws)) (encoded ws) o
        (encode_unit-UnitBytes w h.1) in
    rw (length-append u (encoded ws)) (e ∙ decode-encoded cap b ws (put cap w o) h.2)

put_all-ocount :
    (cap : ℕ) (ws : List ℕ) (o : Output) → (put_all cap ws o).ocount ≡ o.ocount + length ws
unfolding put
put_all-ocount cap [] o = omega arith
put_all-ocount cap (w ∷ ws) o = omega (arith, put_all-ocount cap ws (put cap w o))

-- With room for all units the buffer holds them all.
put_all-written :
    (cap : ℕ) (ws : List ℕ) (o : Output)
    → o.ocount + length ws ≤ cap
    → (put_all cap ws o).written ≡ o.written ++ ws
unfolding put
put_all-written cap [] o h = rw append-nil
put_all-written cap (w ∷ ws) o h =
    put_all-written cap ws (put cap w o) (omega arith)
    ∙ ground (arith, append_assoc o.written (w ∷ []) ws)

-- A string of 16-bit units, none of them zero, is read back from its UTF-8 form by a call that
-- leaves line feeds alone and has room for the units and the terminator, whether the length is
-- given or not: the buffer holds the units and a zero, and the count is that of the units.
pub utf8_to_ucs2_lf-ucs2_to_utf8 :
    (ws : List ℕ) (cap : ℕ)
    → IsUnits ws
    → length ws < cap
    → (s : Bytes) × (ucs2_to_utf8 (some ws) (count (length ws)) false ≡ some s)
      × (utf8_to_ucs2_lf (some s) nts false cap
          ≡ done (record { written = ws ++ 0 ∷ []; ocount = length ws }))
      × (utf8_to_ucs2_lf (some s) (count (length s)) false cap
          ≡ done (record { written = ws ++ 0 ∷ []; ocount = length ws }))
unfolding ucs2_to_utf8 utf8_to_ucs2_lf
utf8_to_ucs2_lf-ucs2_to_utf8 ws cap h room = (encoded ws, ap some (encode-encoded ws h), read, read)
  where
    empty : Output
    empty = record { written = []; ocount = 0 }

    read :
        finish cap (decode false cap 0 (length (encoded ws)) 0 (encoded ws) empty)
        ≡ done (record { written = ws ++ 0 ∷ []; ocount = length ws })
    read =
        ap (finish cap) (decode-encoded cap 0 ws empty h)
        ∙ ground (arith, put_all-ocount cap ws empty, put_all-written cap ws empty (omega arith))
