-- ===== src/Parse/Token/Progress.antt =====
-- Each token takes at least one byte of the text, so a loop over the tokens ends.
use versaplex.Prelude.{
  ℕ, zero, suc, ◌-◌, ◌≤◌, ◌<◌, leb, ◌==◌, if◌then◌else◌, Bool, true, false, ◌≡◌, [], ◌∷◌, Bytes,
  length, length-drop, drop, inl, inr, Bool-cases, arith,
}
use versaplex.Multibyte.Stat.{pg_cs_stat}
use versaplex.Parse.Token.{
  Lexeme, stop, put, Quotation, quote_step, keeps, quoted_from, Lexing, quoted, TokenStep, stops,
  alone, begins_quoted, begins_number, goes_on, token_step, token_by, token_from, NextToken,
  no_room, no_token, next, end_token, begin_token, get_next_token, behind, leave, number_from,
  open_quotation, skip_delimiters, skip_spaces, is_delimiter,
}
use versaplex.Parse.Token.Bounds.{quote_by-all, token_by-all}

skip_spaces-le : (s : Bytes) → length (skip_spaces s) ≤ length s
unfolding skip_spaces
skip_spaces-le [] = omega arith
skip_spaces-le (c ∷ s) = ground (arith, skip_spaces-le s)

leave-le : (qc : ℕ) (s : Bytes) → length (leave qc s) ≤ length s
unfolding leave
leave-le qc [] = omega arith
leave-le qc (c ∷ s) = ground arith

behind-le : (q : Quotation) (s : Bytes) → length (behind q s) ≤ length s
unfolding behind
behind-le q s = omega (
  arith,
  leave-le q.qc (if q.in_dollar_quote then drop (length q.tag - 1) s else s),
  dropped q.in_dollar_quote (length q.tag - 1),
)
  where
    dropped : (b : Bool) (n : ℕ) → length (if b then drop n s else s) ≤ length s
    dropped true n = omega (arith, length-drop n s)
    dropped false n = omega arith

quoted_from_rest :
    (q : Quotation) (st : ℕ) (esc : Bool) (room : ℕ) (s : Bytes)
    → length (quoted_from q st esc room s).rest ≤ length s
unfolding quoted_from stop put
quoted_from_rest q st esc room [] = omega arith
quoted_from_rest q st esc zero (c ∷ s) = leave-le q.qc (c ∷ s)
quoted_from_rest q st esc (suc room) (c ∷ s) =
    let now = pg_cs_stat st c q.csc in
    quote_by-all (λ l. length l.rest ≤ suc (length s))
      (if now == 0 then quote_step q esc c s else keeps esc) _ _ _ (behind-le q (c ∷ s))
      (λ e. omega (arith, quoted_from_rest q now e room s))
      (λ e. omega (arith, quoted_from_rest q now e (suc room) s))

quoted_rest :
    (q : Lexing) (before st room c : ℕ) (s : Bytes)
    → length (quoted q before st room c s).rest ≤ length s
unfolding quoted
quoted_rest q before st room c s =
    let o = open_quotation q before c s in
    let n = length o.tag - 1 in
    omega (arith, quoted_from_rest o st false room (drop n s), length-drop n s)

number_from_rest : (s : Bytes) → length (number_from s).rest ≤ length s
unfolding number_from stop put
number_from_rest [] = omega arith
number_from_rest (c ∷ s) = ground (arith, number_from_rest s)

token_from_rest :
    (q : Lexing) (first : Bool) (st room : ℕ) (s : Bytes)
    → length (token_from q first st room s).rest ≤ length s
unfolding token_from stop put
token_from_rest q first st room [] = omega arith
token_from_rest q first st zero (c ∷ s) = omega arith
token_from_rest q first st (suc room) (c ∷ s) =
    let now = pg_cs_stat st c q.csc in
    token_by-all (λ l. length l.rest ≤ suc (length s))
      (if now == 0 then token_step first c else goes_on) _ _ _ _ _ (omega arith) (omega arith)
      (omega (arith, quoted_rest q q.before now (suc room) c s)) (omega (arith, number_from_rest s))
      (omega (arith, token_from_rest q false now room s))

TakesByte : TokenStep → Type 0
TakesByte stops = ⊥
TakesByte alone = Unit
TakesByte begins_quoted = Unit
TakesByte begins_number = Unit
TakesByte goes_on = Unit

-- The first byte is taken, since it is no delimiter.
token_step-TakesByte : (c : ℕ) → is_delimiter c ≡ false → TakesByte (token_step true c)
unfolding token_step TakesByte
token_step-TakesByte c h = ground arith

first_step-TakesByte :
    (plain : Bool) (c : ℕ)
    → is_delimiter c ≡ false
    → TakesByte (if plain then token_step true c else goes_on)
unfolding TakesByte
first_step-TakesByte true c h = token_step-TakesByte c h
first_step-TakesByte false c h = tt

token_by-taken :
    (step : TokenStep) (n : ℕ) (stopped single quot number longer : Lexeme)
    → TakesByte step
    → length single.rest < n
    → length quot.rest < n
    → length number.rest < n
    → length longer.rest < n
    → length (token_by step stopped single quot number longer).rest < n
unfolding token_by TakesByte
token_by-taken stops n s a q m l t ha hq hm hl = elim t [ ]
token_by-taken alone n s a q m l t ha hq hm hl = ha
token_by-taken begins_quoted n s a q m l t ha hq hm hl = hq
token_by-taken begins_number n s a q m l t ha hq hm hl = hm
token_by-taken goes_on n s a q m l t ha hq hm hl = hl

token_from-lt :
    (q : Lexing) (room c : ℕ) (s : Bytes)
    → 0 < room
    → is_delimiter c ≡ false
    → length (token_from q true 0 room (c ∷ s)).rest < suc (length s)
unfolding token_from stop put
token_from-lt q zero c s pos h = absurd (omega arith)
token_from-lt q (suc room) c s pos h =
    let now = pg_cs_stat 0 c q.csc in
    token_by-taken (if now == 0 then token_step true c else goes_on) (suc (length s)) _ _ _ _ _
      (first_step-TakesByte (now == 0) c h) (omega arith)
      (omega (arith, quoted_rest q q.before now (suc room) c s)) (omega (arith, number_from_rest s))
      (omega (arith, token_from_rest q false now room s))

-- The text behind the delimiters is no longer and begins with none.
BeginsToken : Bytes → Type 0
BeginsToken [] = Unit
BeginsToken (c ∷ s) = is_delimiter c ≡ false

skip_delimiters-BeginsToken :
    (before : ℕ) (s : Bytes)
    → BeginsToken (skip_delimiters before s).1 × (length (skip_delimiters before s).1 ≤ length s)
unfolding skip_delimiters BeginsToken
skip_delimiters-BeginsToken before [] = (tt, omega arith)
skip_delimiters-BeginsToken before (c ∷ s) = elim (Bool-cases (is_delimiter c)) [
  | inl passed ↦
      rw passed (let later = skip_delimiters-BeginsToken c s in (later.0, omega (arith, later.1)))
  | inr found ↦ rw found (found, omega arith)
]

-- What is returned is shorter than `n` bytes.
unfoldable pub IsShorter : ℕ → NextToken → Type 0
IsShorter n no_room = Unit
IsShorter n no_token = Unit
IsShorter n (next l delim) = length l.rest < n

begin_token-IsShorter :
    (q : Lexing) (smax : ℕ) (s : Bytes)
    → 1 < smax
    → BeginsToken s
    → IsShorter (length s) (begin_token q smax s)
unfolding begin_token IsShorter end_token BeginsToken
begin_token-IsShorter q smax [] room h = tt
begin_token-IsShorter q smax (c ∷ s) room h =
    let l = token_from q true 0 (smax - 1) (c ∷ s) in
    omega (arith, skip_spaces-le l.rest, token_from-lt q (smax - 1) c s (omega arith) h)

IsShorter-le : (m n : ℕ) (t : NextToken) → m ≤ n → IsShorter m t → IsShorter n t
unfolding IsShorter
IsShorter-le m n no_room h s = tt
IsShorter-le m n no_token h s = tt
IsShorter-le m n (next l delim) h s = omega arith

-- Whatever the text, its encoding and the size of the buffer: where getNextToken returns a rest of
-- the text, and not NULL, the rest is shorter than the text, so that the loop over the tokens of a
-- statement ends.
pub get_next_token-IsShorter :
    (q : Lexing) (s : Bytes) (smax : ℕ) → IsShorter (length s) (get_next_token q s smax)
unfolding get_next_token IsShorter
get_next_token-IsShorter q s smax = elim (Bool-cases (leb smax 1)) [
  | inl small ↦ rw small tt
  | inr large ↦ rw large (
      let skipped = skip_delimiters q.before s in
      let found = skip_delimiters-BeginsToken q.before s in
      IsShorter-le (length skipped.1) (length s) _ found.1 (
        begin_token-IsShorter (record q { before = skipped.0 }) smax skipped.1 (ground arith)
          found.0))
]
