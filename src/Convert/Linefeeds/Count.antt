-- ===== src/Convert/Linefeeds/Count.antt =====
-- How many bytes `convert_linefeeds` counts and writes (vxodbc/convert.cc).
use versaplex.Prelude.{
  ℕ, suc, ◌+◌, ◌-◌, ◌≤◌, ◌<◌, ltb, ◌==◌, if◌then◌else◌, Bool, true, false, ◌&&◌, [], ◌∷◌, ◌++◌,
  Option, none, some, Bytes, length, ◌≡◌, refl, sym, arith, ap, ◌∙◌, length-append, zero, replicate,
}
use versaplex.Convert.Linefeeds.{
  Lines, put, linefeed_step, linefeeds_from, convert_linefeeds, after_cr, pg_linefeed,
  pg_carriage_return,
}

-- One byte more than the buffer has may be written, and no more.
linefeeds_from-bound :
    (dst convlf : Bool) (max : ℕ) (prev : Option ℕ) (s : Bytes) (l : Lines)
    → l.out ≤ max
    → (linefeeds_from dst convlf max prev s l).out ≤ max
unfolding linefeeds_from linefeed_step put
linefeeds_from-bound dst convlf max prev [] l h = h
linefeeds_from-bound dst convlf max prev (c ∷ s) l h =
    ground
      (arith, linefeeds_from-bound dst convlf max (some c) s (linefeed_step dst convlf prev c l))

-- A call without a buffer counts what a call with one writes, and changes the same.
data SameLines : Lines → Lines → Type 0 where
  same :
      {l k : Lines}
      → l.out ≡ k.out
      → l.changed ≡ k.changed
      → length k.written ≡ k.out
      → SameLines l k

SameLines-if :
    (t u : Bool) {a b c d : Lines}
    → t ≡ u
    → SameLines a c
    → SameLines b d
    → SameLines (if t then a else b) (if u then c else d)
SameLines-if true true e h k = h
SameLines-if false false e h k = k
SameLines-if true false e h k = cc
SameLines-if false true e h k = cc

SameLines-put :
    (cs : Bytes) {l k : Lines} → SameLines l k → SameLines (put false cs l) (put true cs k)
unfolding put
SameLines-put cs {l} {k} (same p q r) =
    same (omega (arith, p)) q (omega (arith, r, length-append k.written cs))

SameLines-linefeed_step :
    (convlf : Bool) (prev : Option ℕ) (c : ℕ) {l k : Lines}
    → SameLines l k
    → SameLines (linefeed_step false convlf prev c l) (linefeed_step true convlf prev c k)
unfolding linefeed_step
SameLines-linefeed_step convlf prev c {l} {k} (same p q r) =
    SameLines-if (convlf && c == pg_linefeed) (convlf && c == pg_linefeed) refl
      (SameLines-if (after_cr prev) (after_cr prev) refl (SameLines-put (c ∷ []) (same p q r))
        (SameLines-put (pg_carriage_return ∷ pg_linefeed ∷ []) (same p refl r)))
      (SameLines-put (c ∷ []) (same p q r))

linefeeds_from-SameLines :
    (convlf : Bool) (max : ℕ) (prev : Option ℕ) (s : Bytes) {l k : Lines}
    → SameLines l k
    → SameLines (linefeeds_from false convlf max prev s l) (linefeeds_from true convlf max prev s k)
unfolding linefeeds_from
linefeeds_from-SameLines convlf max prev [] h = h
linefeeds_from-SameLines convlf max prev (c ∷ s) {l} {k} (same p q r) =
    let next = SameLines-linefeed_step convlf prev c (same p q r) in
    SameLines-if (ltb l.out (max - 1)) (ltb k.out (max - 1)) (ap (λ o. ltb o (max - 1)) p)
      (linefeeds_from-SameLines convlf max (some c) s next) (same p q r)

SameLines-counts :
    {l k : Lines}
    → SameLines l k
    → (l.out ≡ k.out) × (l.changed ≡ k.changed) × (length k.written ≡ l.out)
SameLines-counts (same p q r) = (p, q, r ∙ sym p)

-- A call without a buffer returns the same count and the same `changed` as one with a buffer of
-- the same size, which writes that many bytes and a terminator.
pub convert_linefeeds_count :
    (s : Bytes) (max : ℕ) (convlf : Bool)
    → ((convert_linefeeds s false max convlf).out ≡ (convert_linefeeds s true max convlf).out)
      × ((convert_linefeeds s false max convlf).changed
          ≡ (convert_linefeeds s true max convlf).changed)
      × (length (convert_linefeeds s true max convlf).written
          ≡ (convert_linefeeds s false max convlf).out + 1)
unfolding convert_linefeeds
convert_linefeeds_count s max convlf =
    let max' = if max == 0 then 0xffffffff else max in
    let start : Lines = record { written = []; out = 0; changed = false } in
    let l = linefeeds_from true convlf max' none s start in
    let c = SameLines-counts (linefeeds_from-SameLines convlf max' none s (same refl refl refl)) in
    (c.0, c.1, length-append l.written (0 ∷ []) ∙ ap (λ n. n + 1) c.2)

-- At most one byte is written outside a buffer of `max` bytes.
pub length-convert_linefeeds :
    (s : Bytes) (max : ℕ) (convlf : Bool)
    → 0 < max
    → length (convert_linefeeds s true max convlf).written ≤ max + 1
unfolding convert_linefeeds
length-convert_linefeeds s max convlf h =
    let start : Lines = record { written = []; out = 0; changed = false } in
    let l = linefeeds_from true convlf max none s start in
    let c =
      SameLines-counts (
        linefeeds_from-SameLines convlf max none s {l = start} {k = start} (same refl refl refl)) in
    let some_room : (max == 0) ≡ false = ground arith in
    rw some_room (
      omega (
        arith,
        length-append l.written (0 ∷ []),
        c,
        linefeeds_from-bound true convlf max none s start (omega arith),
      ))

linefeed_last :
    (n max : ℕ) (prev : Option ℕ) (l : Lines)
    → after_cr prev ≡ false
    → l.out + n + 2 ≡ max
    → (linefeeds_from true true max prev (replicate n b'a' ++ pg_linefeed ∷ []) l).out ≡ max
unfolding linefeeds_from linefeed_step put
linefeed_last zero max prev l h e = ground arith
linefeed_last (suc n) max prev l h e =
    let l' = put true (b'a' ∷ []) l in
    ground (arith, linefeed_last n max (some b'a') l' refl (omega arith))

-- The byte outside is written, in a buffer of any size from 2, when the linefeed that does not
-- fit any more meets one free place.
pub convert_linefeeds_overrun :
    (n : ℕ)
    → length (convert_linefeeds (replicate n b'a' ++ pg_linefeed ∷ []) true (n + 2) true).written
      ≡ n + 2 + 1
convert_linefeeds_overrun n =
    let s = replicate n b'a' ++ pg_linefeed ∷ [] in
    let start : Lines = record { written = []; out = 0; changed = false } in
    let c = convert_linefeeds_count s (n + 2) true in
    let some_room : (n + 2 == 0) ≡ false = ground arith in
    let full : (convert_linefeeds s true (n + 2) true).out ≡ n + 2 =
      unfold convert_linefeeds in
      rw some_room (linefeed_last n (n + 2) none start refl (omega arith)) in
    omega (arith, c, full)
