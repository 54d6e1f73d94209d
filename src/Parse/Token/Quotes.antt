-- ===== src/Parse/Token/Quotes.antt =====
-- Quoted texts and numeric literals, as getNextToken reads them.
use mathlib.Core.List.{append_assoc}
use versaplex.Prelude.{
  ℕ, zero, suc, ◌+◌, ◌-◌, ◌≤◌, ◌<◌, ◌==◌, if◌then◌else◌, Bool, true, false, not, ◌&&◌, ◌||◌, ◌≡◌,
  refl, ap, ◌∙◌, sym, List, [], ◌∷◌, ◌++◌, Bytes, length, length-append, flatten, is_space, arith,
}
use versaplex.Multibyte.Charset.{johab, same}
use versaplex.Multibyte.ClientEncoding.{literal_quote}
use versaplex.Multibyte.Stat.{pg_cs_stat}
use versaplex.Multibyte.Run.{RunsTo, Reading, single, multi, IsChar-Reading}
use versaplex.Multibyte.Laws.{IsText, nil, cons}
use versaplex.Parse.Token.{
  Lexeme, stop, put, Quotation, quote_by, quote_step, quoted_from, behind, leave, Lexing, quoted,
  open_quotation, literal_escape, token_step, token_from, NextToken, end_token, get_next_token,
  is_delimiter, is_quote, is_digit, begins_quoted, begins_number, identifier_quote, dollar_quote,
}
use versaplex.Parse.Token.Bounds.{number_from-append, AllNumber, StopsNumber}
use versaplex.Parse.Token.Words.{
  prepend, prepend-append, prepend-stop, ascii-stat, get_next_token-begin,
}

-- The character is neither the mark of the quotation nor the escape character.
abbrev pub plain_char : (qc esc : ℕ) → Bytes → Bool
plain_char qc esc [] = true
plain_char qc esc (c ∷ []) = not (c == qc) && not (c == esc)
plain_char qc esc (c ∷ d ∷ s) = true

abbrev pub AllPlain : (qc esc : ℕ) → List Bytes → Type 0
AllPlain qc esc [] = Unit {0}
AllPlain qc esc (c ∷ l) = (plain_char qc esc c ≡ true) × AllPlain qc esc l

module _ (q : Quotation) (simple : q.in_dollar_quote ≡ false) where
  -- A byte that is part of a longer character, or neither mark nor escape character.
  quoted_from-kept :
      (st room b : ℕ) (s : Bytes)
      → (pg_cs_stat st b q.csc ≡ 0 → (not (b == q.qc) && not (b == q.escape_in_literal)) ≡ true)
      → quoted_from q st false (suc room) (b ∷ s)
        ≡ put b (quoted_from q (pg_cs_stat st b q.csc) false room s)
  unfolding quoted_from quote_by quote_step put
  quoted_from-kept st room b s h = ground arith

  quoted_from-RunsTo :
      (st room : ℕ) (c rest : Bytes)
      → q.qc < 0x80
      → q.escape_in_literal < 0x80
      → RunsTo q.csc st c
      → (st' : ℕ) × (st' < 2)
        × (quoted_from q st false (length c + room) (c ++ rest)
            ≡ prepend c (quoted_from q st' false room rest))
  unfolding prepend put
  quoted_from-RunsTo st room [] rest low esc r = absurd r
  quoted_from-RunsTo st room (b ∷ []) rest low esc r =
      let one : length (b ∷ []) + room ≡ suc room = omega arith in
      (
        pg_cs_stat st b q.csc,
        r.0,
        rw one (quoted_from-kept st room b rest (λ z. let big = r.1 z in ground arith)),
      )
  quoted_from-RunsTo st room (b ∷ d ∷ s) rest low esc r =
      let (st', lt, e) = quoted_from-RunsTo (pg_cs_stat st b q.csc) room (d ∷ s) rest low esc r.1 in
      let more : length (b ∷ d ∷ s) + room ≡ suc (length (d ∷ s) + room) = omega arith in
      (
        st',
        lt,
        rw more (
            quoted_from-kept st (length (d ∷ s) + room) b (d ∷ s ++ rest)
              (λ z. absurd (omega (arith, z, r.0)))
            ∙ ap (put b) e),
      )

  quoted_from-Reading :
      {st : ℕ} {c : Bytes} (room : ℕ) (rest : Bytes)
      → q.qc < 0x80
      → q.escape_in_literal < 0x80
      → plain_char q.qc q.escape_in_literal c ≡ true
      → Reading q.csc st c
      → (st' : ℕ) × (st' < 2)
        × (quoted_from q st false (length c + room) (c ++ rest)
            ≡ prepend c (quoted_from q st' false room rest))
  unfolding prepend put
  quoted_from-Reading {st} room rest low esc plain (single {a} e) =
      let one : length (a ∷ []) + room ≡ suc room = omega arith in
      (
        pg_cs_stat st a q.csc,
        omega (arith, e),
        rw one (quoted_from-kept st room a rest (λ z. plain)),
      )
  quoted_from-Reading {st} room rest low esc plain (multi {a} {b} {s} r) =
      quoted_from-RunsTo st room (a ∷ b ∷ s) rest low esc r

  -- At the mark the quotation ends, whether or not there is room.
  quoted_from-mark :
      (st room : ℕ) (s : Bytes)
      → st < 2
      → 1 ≤ q.qc
      → q.qc < 0x80
      → quoted_from q st false room (q.qc ∷ s) ≡ stop s
  unfolding quoted_from quote_by quote_step behind leave stop
  quoted_from-mark st zero s lt pos low = ground arith
  quoted_from-mark st (suc room) s lt pos low =
      ground (arith, ascii-stat q.csc st q.qc lt pos low, simple)

  quoted_from-IsText :
      {l : List Bytes} (st more : ℕ) (s : Bytes)
      → st < 2
      → 1 ≤ q.qc
      → q.qc < 0x80
      → q.escape_in_literal < 0x80
      → same q.csc johab ≡ false
      → AllPlain q.qc q.escape_in_literal l
      → IsText q.csc l
      → quoted_from q st false (length (flatten l) + more) (flatten l ++ q.qc ∷ s)
        ≡ prepend (flatten l) (stop s)
  unfolding flatten prepend stop
  quoted_from-IsText st more s lt pos low esc known plain nil = quoted_from-mark st _ s lt pos low
  quoted_from-IsText st more s lt pos low esc known plain (cons {c} {l} h t) =
      let (st', lt', e) =
        quoted_from-Reading (length (flatten l) + more) (flatten l ++ q.qc ∷ s) low esc plain.0
          (IsChar-Reading st known lt h) in
      let room : length (c ++ flatten l) + more ≡ length c + (length (flatten l) + more) =
        omega (arith, length-append c (flatten l)) in
      rw (room, append_assoc c (flatten l) (q.qc ∷ s))
        (e
          ∙ ap (prepend c) (quoted_from-IsText st' more s lt' pos low esc known plain.1 t)
          ∙ sym (prepend-append c (flatten l) (stop s)))

-- The two marks that quote a text up to the next one.
abbrev pub is_mark : ℕ → Bool
is_mark c = c == literal_quote || c == identifier_quote

-- The escape character in a text quoted by `c`.
abbrev pub escape_for : Lexing → ℕ → ℕ
escape_for q c = if c == literal_quote then literal_escape q q.before else 0

-- A quoted text as it is returned, with the text `s` behind it.
unfoldable pub quoted_token : ℕ → Bytes → Bytes → NextToken
quoted_token c t s =
    end_token
      (record (stop s) { token = t; quote = c == literal_quote; dquote = c == identifier_quote })

mark_step : (c : ℕ) → is_mark c ≡ true → token_step true c ≡ begins_quoted
unfolding token_step is_delimiter is_space is_quote
mark_step c h = ground arith

mark_ascii :
    (c : ℕ)
    → is_mark c ≡ true
    → (1 ≤ c) × (c < 0x80) × (is_delimiter c ≡ false) × ((c == dollar_quote) ≡ false)
unfolding is_delimiter is_space
mark_ascii c h = ground arith

mark_quotation : Lexing → ℕ → Quotation
mark_quotation q c = record {
  csc = q.csc;
  qc = c;
  escape_in_literal = escape_for q c;
  in_dollar_quote = false;
  tag = [];
}

open_quotation-mark :
    (q : Lexing) (c : ℕ) (s : Bytes)
    → (c == dollar_quote) ≡ false
    → open_quotation q q.before c s ≡ mark_quotation q c
unfolding open_quotation mark_quotation
open_quotation-mark q c s e = rw e refl

quoted-IsText :
    {l : List Bytes} (q : Lexing) (c more : ℕ) (s : Bytes)
    → is_mark c ≡ true
    → escape_for q c < 0x80
    → same q.csc johab ≡ false
    → AllPlain c (escape_for q c) l
    → IsText q.csc l
    → quoted q q.before 0 (length (flatten l) + more) c (flatten l ++ c ∷ s) ≡ record (stop s) {
      token = flatten l;
      quote = c == literal_quote;
      dquote = c == identifier_quote;
    }
unfolding quoted mark_quotation
quoted-IsText {l} q c more s mark esc known plain t =
    let (pos, low, d, e) = mark_ascii c mark in
    let o = mark_quotation q c in
    rw (open_quotation-mark q c (flatten l ++ c ∷ s) e, e)
      (ap (λ (x : Lexeme). record x { quote = c == literal_quote; dquote = c == identifier_quote })
        (quoted_from-IsText o refl 0 more s (omega arith) pos low esc known plain t
          ∙ prepend-stop (flatten l) s))

token_from-mark :
    (q : Lexing) (c room : ℕ) (s : Bytes)
    → is_mark c ≡ true
    → 0 < room
    → token_from q true 0 room (c ∷ s) ≡ quoted q q.before 0 room c s
unfolding token_from
token_from-mark q c zero s mark pos = absurd (omega arith)
token_from-mark q c (suc room) s mark pos =
    let (one, low, d, e) = mark_ascii c mark in
    rw (ascii-stat q.csc 0 c (omega arith) one low, mark_step c mark) refl

-- A text between two quotation marks, in any of the encodings but JOHAB and of whatever characters
-- but the mark and the escape character, is one token without its marks where it fits the buffer,
-- also where the byte of the escape character stands inside one of its longer characters.
pub get_next_token-IsText :
    {l : List Bytes} (q : Lexing) (c : ℕ) (s : Bytes) (smax : ℕ)
    → is_mark c ≡ true
    → escape_for q c < 0x80
    → same q.csc johab ≡ false
    → AllPlain c (escape_for q c) l
    → IsText q.csc l
    → length (flatten l) < smax
    → 1 < smax
    → get_next_token q (c ∷ flatten l ++ c ∷ s) smax ≡ quoted_token c (flatten l) s
unfolding quoted_token
get_next_token-IsText {l} q c s smax mark esc known plain t n two =
    let (one, low, d, e) = mark_ascii c mark in
    let more = smax - 1 - length (flatten l) in
    let room : smax - 1 ≡ length (flatten l) + more = omega arith in
    get_next_token-begin q c (flatten l ++ c ∷ s) smax d (omega arith)
    ∙ ap end_token (token_from-mark q c (smax - 1) (flatten l ++ c ∷ s) mark (omega arith))
    ∙ ap (λ r. end_token (quoted q q.before 0 r c (flatten l ++ c ∷ s))) room
    ∙ ap end_token (quoted-IsText q c more s mark esc known plain t)

number_step :
    (d : ℕ)
    → is_digit d ≡ true
    → (token_step true d ≡ begins_number) × (1 ≤ d) × (d < 0x80) × (is_delimiter d ≡ false)
unfolding token_step is_delimiter is_space is_quote is_digit
number_step d h = ground arith

-- A numeric literal as it is returned, with the text `s` behind it.
unfoldable pub number_token : Bytes → Bytes → NextToken
number_token w s = end_token (record (stop s) { token = w; numeric = true })

token_from-number :
    (q : Lexing) (d room : ℕ) (w s : Bytes)
    → is_digit d ≡ true
    → AllNumber w
    → StopsNumber s
    → 0 < room
    → token_from q true 0 room (d ∷ w ++ s) ≡ record (stop s) { token = d ∷ w; numeric = true }
unfolding token_from put
token_from-number q d zero w s h all e pos = absurd (omega arith)
token_from-number q d (suc room) w s h all e pos =
    let (step, one, low, x) = number_step d h in
    rw (ascii-stat q.csc 0 d (omega arith) one low, step, number_from-append w s all e) refl

-- A numeric literal is written whole, however small the buffer: where it has `smax` bytes or more
-- they and the terminator do not fit.
pub get_next_token-number :
    (q : Lexing) (d : ℕ) (w s : Bytes) (smax : ℕ)
    → is_digit d ≡ true
    → AllNumber w
    → StopsNumber s
    → 1 < smax
    → get_next_token q (d ∷ w ++ s) smax ≡ number_token (d ∷ w) s
unfolding number_token
get_next_token-number q d w s smax h all e n =
    let (step, one, low, x) = number_step d h in
    get_next_token-begin q d (w ++ s) smax x n
    ∙ ap end_token (token_from-number q d (smax - 1) w s h all e (omega arith))
