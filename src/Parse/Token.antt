-- ===== src/Parse/Token.antt =====
-- `getNextToken` of vxodbc/parse.cc. The cursor `encstr` and the index `i` move together, so the
-- loops go by the rest of the text and the state `ccst` of the cursor; `room` is `smax - out`.
pub mod Bounds
pub mod Progress
pub mod Words
pub mod Quotes
use mathlib.Core.Option
use versaplex.Prelude.{
  Option, none, some, ℕ, zero, suc, ◌-◌, ltb, leb, ◌==◌, if◌then◌else◌, Bool, true, false, not,
  ◌&&◌, ◌||◌, [], ◌∷◌, ◌++◌, Bytes, within, is_space, is_alnum, take, drop, length,
}
use versaplex.Multibyte.Charset.{Charset}
use versaplex.Multibyte.ClientEncoding.{literal_quote}
use versaplex.Multibyte.Stat.{pg_cs_stat}

-- ispunct in the C locale
unfoldable pub is_punct : ℕ → Bool
is_punct c = within 33 47 c || within 58 64 c || within 91 96 c || within 123 126 c

unfoldable pub is_digit : ℕ → Bool
is_digit c = within b'0' b'9' c

abbrev pub identifier_quote : ℕ
identifier_quote = b'"'

abbrev pub dollar_quote : ℕ
dollar_quote = b'$'

-- The bytes of the token, the text at `s[i]`, and the three flags.
pub record Lexeme : Type 0 where
  pub token : Bytes
  pub rest : Bytes
  pub quote : Bool
  pub dquote : Bool
  pub numeric : Bool

unfoldable pub stop : Bytes → Lexeme
stop s = record { token = []; rest = s; quote = false; dquote = false; numeric = false }

unfoldable pub put : ℕ → Lexeme → Lexeme
put c l = record l { token = c ∷ l.token }

-- An open quotation: its mark `qc`, the escape character in force, 0 for none, and for a dollar
-- quotation its tag.
pub record Quotation : Type 0 where
  pub csc : Charset
  pub qc : ℕ
  pub escape_in_literal : ℕ
  pub in_dollar_quote : Bool
  pub tag : Bytes

-- strncmp (s, tag, strlen (tag)) == 0
unfoldable pub starts_with : Bytes → Bytes → Bool
starts_with s [] = true
starts_with [] (w ∷ tag) = false
starts_with (c ∷ s) (w ∷ tag) = c == w && starts_with s tag

-- if (s[i] == qc) i++
unfoldable pub leave : ℕ → Bytes → Bytes
leave qc [] = []
leave qc (c ∷ s) = if c == qc then s else c ∷ s

-- What a byte does inside a quotation: it ends it, goes into the token, or is passed.
pub data QuoteStep : Type 0 where
  ends : QuoteStep
  keeps passes : (in_escape : Bool) → QuoteStep

-- The byte `c` in front of `s`, when the cursor is in state 0.
unfoldable pub quote_step : Quotation → (in_escape : Bool) → ℕ → Bytes → QuoteStep
quote_step q in_escape c s =
    if in_escape
    then passes false
    else if c == q.qc
    then (if q.in_dollar_quote && not (starts_with (c ∷ s) q.tag) then keeps false else ends)
    else if q.qc == literal_quote && c == q.escape_in_literal
    then passes true
    else keeps false

-- Where the quotation ends with the text `s`: behind its mark or its tag.
unfoldable pub behind : Quotation → Bytes → Bytes
unfolding leave
behind q s = leave q.qc (if q.in_dollar_quote then drop (length q.tag - 1) s else s)

unfoldable pub quote_by :
    QuoteStep → (ended : Lexeme) → (kept passed : (in_escape : Bool) → Lexeme) → Lexeme
quote_by ends ended kept passed = ended
quote_by (keeps esc) ended kept passed = kept esc
quote_by (passes esc) ended kept passed = passed esc

unfoldable pub quoted_from :
    Quotation → (ccst : ℕ) → (in_escape : Bool) → (room : ℕ) → Bytes → Lexeme
quoted_from q ccst in_escape room [] = stop []
quoted_from q ccst in_escape zero (c ∷ s) = stop (leave q.qc (c ∷ s))
quoted_from q ccst in_escape (suc room) (c ∷ s) =
    let st = pg_cs_stat ccst c q.csc in
    quote_by (if st == 0 then quote_step q in_escape c s else keeps in_escape)
      (stop (behind q (c ∷ s))) (λ esc. put c (quoted_from q st esc room s))
      (λ esc. quoted_from q st esc (suc room) s)

-- The tag of a dollar quotation that begins with `s`: up to the next `$`, or the first one alone.
unfoldable pub tag_end : Bytes → Option ℕ
tag_end [] = none
tag_end (c ∷ s) = if c == dollar_quote then some 1 else Option.map suc (tag_end s)

unfoldable pub tag_length : Bytes → ℕ
unfolding tag_end
tag_length s = elim (tag_end s) [ none ↦ 1 | some n ↦ suc n ]

-- What the parameters of a call set; `before` is the byte in front of the text.
pub record Lexing : Type 0 where
  pub csc : Charset
  pub escape_ch : ℕ
  pub before : ℕ

unfoldable pub literal_escape : Lexing → (before : ℕ) → ℕ
literal_escape q before =
    if q.escape_ch == 0 then (if before == b'E' then b'\\' else 0) else q.escape_ch

-- The quotation that the mark `c` in front of `s` opens.
unfoldable pub open_quotation : Lexing → (before : ℕ) → ℕ → Bytes → Quotation
unfolding tag_length literal_escape
open_quotation q before c s = record {
  csc = q.csc;
  qc = c;
  escape_in_literal = if c == literal_quote then literal_escape q before else 0;
  in_dollar_quote = c == dollar_quote;
  tag = if c == dollar_quote then c ∷ take (tag_length s - 1) s else [];
}

unfoldable pub is_quote : ℕ → Bool
is_quote c = c == dollar_quote || c == literal_quote || c == identifier_quote

unfoldable pub quoted : Lexing → (before : ℕ) → (ccst : ℕ) → (room : ℕ) → ℕ → Bytes → Lexeme
unfolding quoted_from open_quotation
quoted q before ccst room c s =
    let o = open_quotation q before c s in
    record (quoted_from o ccst false room (drop (length o.tag - 1) s)) {
      quote = c == dollar_quote || c == literal_quote;
      dquote = c == identifier_quote;
    }

-- The loop over a numeric literal, which asks for no room.
unfoldable pub number_from : Bytes → Lexeme
number_from [] = stop []
number_from (c ∷ s) =
    let later = number_from s in if is_alnum c || c == b'.' then put c later else stop (c ∷ s)

unfoldable pub is_delimiter : ℕ → Bool
is_delimiter c = is_space c || c == b','

-- What a byte does outside of a quotation.
pub data TokenStep : Type 0 where
  stops alone begins_quoted begins_number goes_on : TokenStep

-- A byte `c` when the cursor is in state 0; `first` is `out == 0`.
unfoldable pub token_step : (first : Bool) → ℕ → TokenStep
token_step first c =
    if is_delimiter c
    then stops
    else if first && is_quote c
    then begins_quoted
    else if first && is_digit c
    then begins_number
    else if is_punct c && not (c == b'_')
    then (if first then alone else stops)
    else goes_on

unfoldable pub token_by : TokenStep → (stopped single quoted number longer : Lexeme) → Lexeme
token_by stops stopped single quoted number longer = stopped
token_by alone stopped single quoted number longer = single
token_by begins_quoted stopped single quoted number longer = quoted
token_by begins_number stopped single quoted number longer = number
token_by goes_on stopped single quoted number longer = longer

unfoldable pub token_from : Lexing → (first : Bool) → (ccst : ℕ) → (room : ℕ) → Bytes → Lexeme
unfolding token_by
token_from q first ccst room [] = stop []
token_from q first ccst zero (c ∷ s) = stop (c ∷ s)
token_from q first ccst (suc room) (c ∷ s) =
    let st = pg_cs_stat ccst c q.csc in
    token_by (if st == 0 then token_step first c else goes_on) (stop (c ∷ s)) (put c (stop s))
      (quoted q q.before st (suc room) c s) (record (put c (number_from s)) { numeric = true })
      (put c (token_from q false st room s))

-- The leading delimiters are passed; the first number is the byte in front of the text.
unfoldable pub skip_delimiters : ℕ → Bytes → ℕ × Bytes
skip_delimiters before [] = (before, [])
skip_delimiters before (c ∷ s) = if is_delimiter c then skip_delimiters c s else (before, c ∷ s)

unfoldable pub skip_spaces : Bytes → Bytes
skip_spaces [] = []
skip_spaces (c ∷ s) = if is_space c then skip_spaces s else c ∷ s

unfoldable pub delimiter_of : Bytes → ℕ
delimiter_of [] = 0
delimiter_of (c ∷ s) = if c == b',' then c else b' '

-- NULL before anything is written, NULL with the empty token, or a token with the delimiter and
-- the rest that are returned.
pub data NextToken : Type 0 where
  no_room no_token : NextToken
  next : Lexeme → (delim : ℕ) → NextToken

unfoldable pub end_token : Lexeme → NextToken
unfolding skip_spaces delimiter_of
end_token l = let rest = skip_spaces l.rest in next (record l { rest = rest }) (delimiter_of rest)

-- The text behind the leading delimiters.
unfoldable pub begin_token : Lexing → (smax : ℕ) → Bytes → NextToken
unfolding token_from end_token
begin_token q smax [] = no_token
begin_token q smax (c ∷ s) = end_token (token_from q true 0 (smax - 1) (c ∷ s))

unfoldable pub get_next_token : Lexing → Bytes → (smax : ℕ) → NextToken
unfolding begin_token skip_delimiters
get_next_token q s smax =
    if leb smax 1
    then no_room
    else let (before, text) = skip_delimiters q.before s in
      begin_token (record q { before = before }) smax text
