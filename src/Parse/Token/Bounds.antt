-- ===== src/Parse/Token/Bounds.antt =====
-- A token fits the buffer of `smax` bytes with its terminator, unless it is a numeric literal.
use versaplex.Prelude.{
  ℕ, zero, suc, ◌+◌, ◌-◌, ◌≤◌, ◌<◌, leb, ◌==◌, if◌then◌else◌, Bool, true, false, ◌||◌, ap, inl, inr,
  Bool-cases, ◌≡◌, refl, [], ◌∷◌, ◌++◌, Bytes, length, drop, is_alnum, arith,
}
use versaplex.Multibyte.Stat.{pg_cs_stat}
use versaplex.Parse.Token.{
  Lexeme, stop, put, Quotation, QuoteStep, ends, keeps, passes, quote_step, quote_by, quoted_from,
  Lexing, quoted, TokenStep, stops, alone, begins_quoted, begins_number, goes_on, token_step,
  token_by, token_from, NextToken, no_room, no_token, next, end_token, begin_token, get_next_token,
  number_from, open_quotation, skip_delimiters,
}

pub quote_by-all :
    (P : Lexeme → Type 0) (step : QuoteStep) (l : Lexeme) (kept passed : Bool → Lexeme)
    → P l
    → ((esc : Bool) → P (kept esc))
    → ((esc : Bool) → P (passed esc))
    → P (quote_by step l kept passed)
unfolding quote_by
quote_by-all P ends l kept passed h k p = h
quote_by-all P (keeps esc) l kept passed h k p = k esc
quote_by-all P (passes esc) l kept passed h k p = p esc

pub token_by-all :
    (P : Lexeme → Type 0) (step : TokenStep) (stopped single quot number longer : Lexeme)
    → P stopped
    → P single
    → P quot
    → P number
    → P longer
    → P (token_by step stopped single quot number longer)
unfolding token_by
token_by-all P stops s a q n l hs ha hq hn hl = hs
token_by-all P alone s a q n l hs ha hq hn hl = ha
token_by-all P begins_quoted s a q n l hs ha hq hn hl = hq
token_by-all P begins_number s a q n l hs ha hq hn hl = hn
token_by-all P goes_on s a q n l hs ha hq hn hl = hl

quoted_from-le :
    (q : Quotation) (st : ℕ) (esc : Bool) (room : ℕ) (s : Bytes)
    → length (quoted_from q st esc room s).token ≤ room
unfolding quoted_from stop put
quoted_from-le q st esc room [] = omega arith
quoted_from-le q st esc zero (c ∷ s) = omega arith
quoted_from-le q st esc (suc room) (c ∷ s) =
    let now = pg_cs_stat st c q.csc in
    quote_by-all (λ l. length l.token ≤ suc room)
      (if now == 0 then quote_step q esc c s else keeps esc) _ _ _ (omega arith)
      (λ e. omega (arith, quoted_from-le q now e room s)) (λ e. quoted_from-le q now e (suc room) s)

quoted-le :
    (q : Lexing) (before st room c : ℕ) (s : Bytes)
    → length (quoted q before st room c s).token ≤ room
unfolding quoted
quoted-le q before st room c s =
    let o = open_quotation q before c s in
    quoted_from-le o st false room (drop (length o.tag - 1) s)

-- Either the token fits, or the numeric literals' flag is set.
Fits : ℕ → Lexeme → Type 0
Fits room l = l.numeric ≡ false → length l.token ≤ room

token_from-Fits :
    (q : Lexing) (first : Bool) (st room : ℕ) (s : Bytes) → Fits room (token_from q first st room s)
unfolding token_from stop put Fits
token_from-Fits q first st room [] = λ h. omega arith
token_from-Fits q first st zero (c ∷ s) = λ h. omega arith
token_from-Fits q first st (suc room) (c ∷ s) =
    let now = pg_cs_stat st c q.csc in
    token_by-all (Fits (suc room)) (if now == 0 then token_step first c else goes_on) _ _ _ _ _
      (λ h. omega arith) (λ h. omega arith) (λ h. quoted-le q q.before now (suc room) c s)
      (λ h. ground arith) (λ h. omega (arith, token_from-Fits q false now room s h))

-- The bytes of a token that is not a numeric literal, and its terminator, fit in `smax`.
unfoldable pub FitsBuffer : ℕ → NextToken → Type 0
FitsBuffer smax no_room = Unit
FitsBuffer smax no_token = Unit
FitsBuffer smax (next l delim) = l.numeric ≡ false → length l.token + 1 ≤ smax

begin_token-FitsBuffer :
    (q : Lexing) (smax : ℕ) (s : Bytes) → 1 < smax → FitsBuffer smax (begin_token q smax s)
unfolding begin_token FitsBuffer end_token Fits
begin_token-FitsBuffer q smax [] room = tt
begin_token-FitsBuffer q smax (c ∷ s) room =
    λ h. omega (arith, token_from-Fits q true 0 (smax - 1) (c ∷ s) h)

-- Whatever the text, its encoding, the escape character and the size of the buffer: the bytes of
-- the token that getNextToken writes and its terminator fit in the `smax` bytes of the buffer,
-- unless the token is a numeric literal.
pub get_next_token-FitsBuffer :
    (q : Lexing) (s : Bytes) (smax : ℕ) → FitsBuffer smax (get_next_token q s smax)
unfolding get_next_token FitsBuffer
get_next_token-FitsBuffer q s smax = elim (Bool-cases (leb smax 1)) [
  | inl small ↦ rw small tt
  | inr large ↦ rw large (
      let skipped = skip_delimiters q.before s in
      begin_token-FitsBuffer (record q { before = skipped.0 }) smax skipped.1 (ground arith))
]

abbrev pub AllNumber : Bytes → Type 0
AllNumber [] = Unit {0}
AllNumber (c ∷ s) = ((is_alnum c || c == b'.') ≡ true) × AllNumber s

abbrev pub StopsNumber : Bytes → Type 0
StopsNumber [] = Unit {0}
StopsNumber (c ∷ s) = (is_alnum c || c == b'.') ≡ false

-- The loop over a numeric literal goes through all of its digits, letters and points.
pub number_from-append :
    (w s : Bytes)
    → AllNumber w
    → StopsNumber s
    → number_from (w ++ s) ≡ record (stop s) { token = w }
unfolding number_from stop put
number_from-append [] [] h e = refl
number_from-append [] (c ∷ s) h e = rw e refl
number_from-append (c ∷ w) s h e = rw (h.0) (ap (put c) (number_from-append w s h.1 e))
