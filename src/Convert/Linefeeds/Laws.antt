-- ===== src/Convert/Linefeeds/Laws.antt =====
-- What `convert_linefeeds` writes (vxodbc/convert.cc), and how much.
use versaplex.Prelude.{
  ℕ, ◌+◌, ◌-◌, ◌≤◌, ◌<◌, ltb, ◌==◌, if◌then◌else◌, Bool, true, false, not, ◌&&◌, ◌||◌, [], ◌∷◌,
  ◌++◌, Option, none, some, Bytes, length, ◌≡◌, refl, sym, arith, ap, ◌∙◌, length-append, lt→ltb,
}
use mathlib.Core.List.{append_assoc, append-nil}
use versaplex.Convert.Linefeeds.{
  Lines, put, linefeed_step, linefeeds_from, convert_linefeeds, after_cr, pg_linefeed,
  pg_carriage_return,
}

-- What one byte becomes.
abbrev pub expanded : Option ℕ → ℕ → Bytes
expanded prev c =
    if c == pg_linefeed && not (after_cr prev)
    then pg_carriage_return ∷ pg_linefeed ∷ []
    else c ∷ []

-- The text with every bare linefeed as carriage return and linefeed, `prev` the byte before it.
abbrev pub crlf_from : Option ℕ → Bytes → Bytes
crlf_from prev [] = []
crlf_from prev (c ∷ s) = expanded prev c ++ crlf_from (some c) s

-- There is a bare linefeed.
abbrev pub bare_from : Option ℕ → Bytes → Bool
bare_from prev [] = false
bare_from prev (c ∷ s) = c == pg_linefeed && not (after_cr prev) || bare_from (some c) s

pub Lines-eq :
    {l l' : Lines} → l.written ≡ l'.written → l.out ≡ l'.out → l.changed ≡ l'.changed → l ≡ l'
Lines-eq p q r i = record { written = p i; out = q i; changed = r i }

linefeed_step-expanded :
    (prev : Option ℕ) (c : ℕ) (l : Lines)
    → linefeed_step true true prev c l ≡ record {
      written = l.written ++ expanded prev c;
      out = l.out + length (expanded prev c);
      changed = l.changed || (c == pg_linefeed && not (after_cr prev));
    }
unfolding linefeed_step put
linefeed_step-expanded prev c l = Lines-eq (ground arith) (ground arith) (ground arith)

or_assoc : (a b c : Bool) → ((a || b) || c) ≡ (a || (b || c))
or_assoc true b c = refl
or_assoc false b c = refl

linefeeds_from-crlf_from :
    (max : ℕ) (prev : Option ℕ) (s : Bytes) (l : Lines)
    → l.out + length (crlf_from prev s) < max
    → linefeeds_from true true max prev s l ≡ record {
      written = l.written ++ crlf_from prev s;
      out = l.out + length (crlf_from prev s);
      changed = l.changed || bare_from prev s;
    }
unfolding linefeeds_from
linefeeds_from-crlf_from max prev [] l h =
    Lines-eq (sym (append-nil l.written)) (omega arith) (ground arith)
linefeeds_from-crlf_from max prev (c ∷ s) l h =
    let l' = linefeed_step true true prev c l in
    let e = linefeed_step-expanded prev c l in
    let grown = length-append (expanded prev c) (crlf_from (some c) s) in
    let outs : l'.out ≡ l.out + length (expanded prev c) = ap (λ k. k.out) e in
    let more : 1 ≤ length (expanded prev c) = ground arith in
    let ih = linefeeds_from-crlf_from max (some c) s l' (omega (arith, grown, outs)) in
    let room : ltb l.out (max - 1) ≡ true = lt→ltb l.out (max - 1) (omega (arith, grown, more)) in
    rw room (
      ih
      ∙ Lines-eq
          (ap (λ k. k.written ++ crlf_from (some c) s) e
            ∙ append_assoc l.written (expanded prev c) (crlf_from (some c) s))
          (omega (arith, grown, outs))
          (ap (λ k. k.changed || bare_from (some c) s) e
            ∙ or_assoc l.changed (c == pg_linefeed && not (after_cr prev)) (bare_from (some c) s)))

-- Where the converted text and its terminator fit, the buffer gets the text with every bare
-- linefeed as carriage return and linefeed, and `changed` tells whether there was one.
pub convert_linefeeds-crlf_from :
    (s : Bytes) (max : ℕ)
    → length (crlf_from none s) < max
    → convert_linefeeds s true max true ≡ record {
      written = crlf_from none s ++ 0 ∷ [];
      out = length (crlf_from none s);
      changed = bare_from none s;
    }
unfolding convert_linefeeds
convert_linefeeds-crlf_from s max h =
    let start : Lines = record { written = []; out = 0; changed = false } in
    let some_room : (max == 0) ≡ false = ground arith in
    rw some_room (
      ap (λ (l : Lines). record l { written = l.written ++ 0 ∷ [] })
        (linefeeds_from-crlf_from max none s start (omega (arith, h))
          ∙ Lines-eq refl (omega arith) refl))

crlf_from_twice :
    (prev : Option ℕ) (s : Bytes) → crlf_from prev (crlf_from prev s) ≡ crlf_from prev s
crlf_from_twice prev [] = refl
crlf_from_twice prev (c ∷ s) =
    ground (arith, crlf_from_twice (some c) s, crlf_from_twice (some pg_linefeed) s)

bare_from-crlf_from : (prev : Option ℕ) (s : Bytes) → bare_from prev (crlf_from prev s) ≡ false
bare_from-crlf_from prev [] = refl
bare_from-crlf_from prev (c ∷ s) =
    ground (arith, bare_from-crlf_from (some c) s, bare_from-crlf_from (some pg_linefeed) s)

-- Converted text is left as it is by a second conversion.
pub convert_linefeeds_twice :
    (s : Bytes) (max : ℕ)
    → length (crlf_from none s) < max
    → convert_linefeeds (crlf_from none s) true max true ≡ record {
      written = crlf_from none s ++ 0 ∷ [];
      out = length (crlf_from none s);
      changed = false;
    }
convert_linefeeds_twice s max h =
    let same = crlf_from_twice none s in
    convert_linefeeds-crlf_from (crlf_from none s) max (rw same h)
    ∙ rw same (rw (bare_from-crlf_from none s) refl)
