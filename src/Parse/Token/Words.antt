-- ===== src/Parse/Token/Words.antt =====
-- Words, and texts that end them, as getNextToken reads them.
use mathlib.Core.List.{append-nil, append_assoc}
use versaplex.Prelude.{
  ℕ, zero, suc, ◌-◌, ◌≤◌, ◌<◌, leb, ◌==◌, Bool, true, false, not, ◌&&◌, ◌||◌, ◌≡◌, refl, ap, ◌∙◌,
  [], ◌∷◌, ◌++◌, Bytes, length, is_space, is_alnum, arith,
}
use versaplex.Multibyte.Charset.{Charset, utf8}
use versaplex.Multibyte.Chars.{one_byte}
use versaplex.Multibyte.Run.{one-stat}
use versaplex.Multibyte.Stat.{pg_cs_stat}
use versaplex.Parse.Token.{
  Lexeme, stop, put, Lexing, token_step, token_from, NextToken, end_token, begin_token,
  get_next_token, skip_delimiters, is_delimiter, is_punct, is_quote, is_digit, goes_on, stops,
}

ascii-one_byte : (cs : Charset) (a : ℕ) → a < 0x80 → one_byte cs a ≡ true
ascii-one_byte utf8 a h = ground arith
ascii-one_byte _ a h = ground arith

-- An ASCII byte is a character of its own, between two characters.
pub ascii-stat : (cs : Charset) (st a : ℕ) → st < 2 → 1 ≤ a → a < 0x80 → pg_cs_stat st a cs ≡ 0
ascii-stat cs st a s p h = one-stat cs st a s p (ascii-one_byte cs a h)

-- The bytes that a word goes on with, those that it begins with, and those that end it.
abbrev pub is_word_byte : ℕ → Bool
is_word_byte c = is_alnum c || c == b'_'

abbrev pub begins_word : ℕ → Bool
begins_word c = is_word_byte c && not (is_digit c)

abbrev pub ends_word : ℕ → Bool
ends_word c = is_delimiter c || (is_punct c && not (c == b'_'))

abbrev pub AllWord : Bytes → Type 0
AllWord [] = Unit {0}
AllWord (c ∷ s) = (is_word_byte c ≡ true) × AllWord s

-- The end of the text ends a word, too.
abbrev pub EndsWord : Bytes → Type 0
EndsWord [] = Unit {0}
EndsWord (c ∷ s) = ends_word c ≡ true

word_byte-ascii : (c : ℕ) → is_word_byte c ≡ true → (1 ≤ c) × (c < 0x80)
unfolding is_alnum
word_byte-ascii c h = ground arith

word_byte_step : (c : ℕ) → is_word_byte c ≡ true → token_step false c ≡ goes_on
unfolding is_alnum token_step is_delimiter is_punct is_space
word_byte_step c h = ground arith

word_begins_step : (c : ℕ) → begins_word c ≡ true → token_step true c ≡ goes_on
unfolding is_alnum token_step is_delimiter is_punct is_space is_quote is_digit
word_begins_step c h = ground arith

word_ends_ascii : (c : ℕ) → ends_word c ≡ true → (1 ≤ c) × (c < 0x80)
unfolding is_delimiter is_punct is_space
word_ends_ascii c h = ground arith

word_ends_step : (c : ℕ) → ends_word c ≡ true → token_step false c ≡ stops
unfolding token_step is_delimiter is_punct is_space
word_ends_step c h = ground arith

-- A byte that goes on, in state 0.
token_from-put :
    (q : Lexing) (first : Bool) (room c : ℕ) (s : Bytes)
    → (1 ≤ c) × (c < 0x80)
    → token_step first c ≡ goes_on
    → token_from q first 0 (suc room) (c ∷ s) ≡ put c (token_from q false 0 room s)
unfolding token_from put
token_from-put q first room c s ascii step =
    rw (ascii-stat q.csc 0 c (omega arith) ascii.0 ascii.1, step) refl

-- Lexemes with more bytes in front.
unfoldable pub prepend : Bytes → Lexeme → Lexeme
prepend w l = record l { token = w ++ l.token }

pub prepend-append : (a b : Bytes) (l : Lexeme) → prepend (a ++ b) l ≡ prepend a (prepend b l)
unfolding prepend
prepend-append a b l = ap (λ (w : Bytes). record l { token = w }) (append_assoc a b l.token)

pub prepend-stop : (w s : Bytes) → prepend w (stop s) ≡ record (stop s) { token = w }
unfolding prepend stop
prepend-stop w s = ap (λ (v : Bytes). record (stop s) { token = v }) (append-nil w)

token_from-stop :
    (q : Lexing) (room : ℕ) (s : Bytes) → EndsWord s → token_from q false 0 room s ≡ stop s
unfolding token_from stop
token_from-stop q zero [] e = refl
token_from-stop q (suc room) [] e = refl
token_from-stop q zero (c ∷ s) e = refl
token_from-stop q (suc room) (c ∷ s) e =
    let ascii = word_ends_ascii c e in
    rw (ascii-stat q.csc 0 c (omega arith) ascii.0 ascii.1, word_ends_step c e) refl

token_from-append :
    (q : Lexing) (room : ℕ) (w s : Bytes)
    → AllWord w
    → EndsWord s
    → length w ≤ room
    → token_from q false 0 room (w ++ s) ≡ prepend w (stop s)
unfolding prepend stop put
token_from-append q room [] s h e n = token_from-stop q room s e
token_from-append q zero (c ∷ w) s h e n = absurd (omega arith)
token_from-append q (suc room) (c ∷ w) s h e n =
    token_from-put q false room c (w ++ s) (word_byte-ascii c h.0) (word_byte_step c h.0)
    ∙ ap (put c) (token_from-append q room w s h.1 e (omega arith))

token_from-word :
    (q : Lexing) (room c : ℕ) (w s : Bytes)
    → begins_word c ≡ true
    → AllWord w
    → EndsWord s
    → length (c ∷ w) ≤ room
    → token_from q true 0 room (c ∷ w ++ s) ≡ prepend (c ∷ w) (stop s)
unfolding prepend stop put
token_from-word q zero c w s b h e n = absurd (omega arith)
token_from-word q (suc room) c w s b h e n =
    let word : is_word_byte c ≡ true = ground arith in
    token_from-put q true room c (w ++ s) (word_byte-ascii c word) (word_begins_step c b)
    ∙ ap (put c) (token_from-append q room w s h e (omega arith))

-- A word as it is returned, with the text `s` behind it.
unfoldable pub word_token : Bytes → Bytes → NextToken
word_token w s = end_token (record (stop s) { token = w })

begins_word-is_delimiter : (c : ℕ) → begins_word c ≡ true → is_delimiter c ≡ false
unfolding is_alnum is_delimiter is_space
begins_word-is_delimiter c h = ground arith

leb-false : (a b : ℕ) → b < a → leb a b ≡ false
leb-false a b h = ground arith

-- A text behind its delimiters.
pub get_next_token-begin :
    (q : Lexing) (c : ℕ) (s : Bytes) (smax : ℕ)
    → is_delimiter c ≡ false
    → 1 < smax
    → get_next_token q (c ∷ s) smax ≡ end_token (token_from q true 0 (smax - 1) (c ∷ s))
unfolding get_next_token skip_delimiters begin_token
get_next_token-begin q c s smax h n = rw (leb-false smax 1 n, h) refl

-- A word of ASCII letters, digits and underscores that fits the buffer, and that the end of the text,
-- a blank, a comma or another punctuation mark follows, is one token in every encoding.
pub get_next_token-word :
    (q : Lexing) (c : ℕ) (w s : Bytes) (smax : ℕ)
    → begins_word c ≡ true
    → AllWord w
    → EndsWord s
    → length (c ∷ w) < smax
    → get_next_token q (c ∷ w ++ s) smax ≡ word_token (c ∷ w) s
unfolding word_token
get_next_token-word q c w s smax b h e n =
    get_next_token-begin q c (w ++ s) smax (begins_word-is_delimiter c b) (omega arith)
    ∙ ap end_token (token_from-word q (smax - 1) c w s b h e (omega arith) ∙ prepend-stop (c ∷ w) s)

-- A delimiter in front is passed.
pub get_next_token-skip :
    (q : Lexing) (d : ℕ) (s : Bytes) (smax : ℕ)
    → is_delimiter d ≡ true
    → get_next_token q (d ∷ s) smax ≡ get_next_token (record q { before = d }) s smax
unfolding get_next_token skip_delimiters
get_next_token-skip q d s smax h = rw h refl
