-- ===== src/Parse/Loop.antt =====
-- The first loop of parse_statement (vxodbc/parse.cc) over the tokens of a statement.
pub mod Indexed
pub mod Ends
pub mod Columns
pub mod Plain
use versaplex.Prelude.{
  ℕ, zero, suc, ◌+◌, ◌-◌, ◌==◌, if◌then◌else◌, Bool, true, false, Option, none, some, List, [], ◌∷◌,
  Bytes, codes, length, get_or,
}
use versaplex.Prelude.Int.{ℤ}
use versaplex.Multibyte.Charset.{Charset}
use versaplex.Parse.Token.{Lexeme, Lexing, NextToken, no_room, no_token, next, get_next_token}
use versaplex.Parse.State.{
  Tok, Parsing, Stage, falls, continues, breaks, fatal, bad_index, and_then, initial, is_zero,
}
use versaplex.Parse.Level.{key_words, levels}
use versaplex.Parse.Select.{select_list}
use versaplex.Parse.From.{end_command, from_list}

-- The body of the loop, for one token.
unfoldable pub body : Charset → Tok → Parsing → Stage
unfolding and_then
body cs t s = and_then (key_words s t) (λ a. and_then (levels a t) (λ b.
    and_then (select_list (is_zero s.blevel) t b)
      (λ c. and_then (end_command t c) (from_list cs t))))

-- The loop is left at its end or by `break`, or by `goto cleanup`, or it uses fi[-1] or ti[-1].
pub data Parsed : Type 0 where
  ended failed : Parsing → Parsed
  bad_access no_fuel : Parsed

unfoldable pub loop_by : Stage → (Parsing → Parsed) → Parsed
loop_by (falls s) again = again s
loop_by (continues s) again = again s
loop_by (breaks s) again = ended s
loop_by (fatal s) again = failed s
loop_by bad_index again = bad_access

-- The loop ends at NULL.
unfoldable pub next_by : NextToken → Parsing → (Lexeme → (delim : ℕ) → Parsed) → Parsed
next_by no_room s go_on = ended s
next_by no_token s go_on = ended s
next_by (next l delim) s go_on = go_on l delim

-- What one token is in the statement: `text` is at `offset` in it.
unfoldable pub tok_of : Lexeme → (delim : ℕ) → (offset : ℕ) → (text : Bytes) → Tok
tok_of l delim offset text = record {
  token = l.token;
  delim = delim;
  quoted = l.quote;
  dquoted = l.dquote;
  number = l.numeric;
  offset = offset;
  text = text;
}

-- Where the next token is looked for: the offset and the byte in front of it.
unfoldable pub offset_behind : Lexeme → (offset : ℕ) → (text : Bytes) → ℕ
offset_behind l offset text = offset + (length text - length l.rest)

unfoldable pub byte_before : Lexeme → (before : ℕ) → (text : Bytes) → ℕ
byte_before l before text = get_or text (length text - length l.rest - 1) before

-- `q.before` is the byte in front of `text`. `token` has 256 bytes.
unfoldable pub parse_from : Lexing → (fuel : ℕ) → (offset : ℕ) → (text : Bytes) → Parsing → Parsed
unfolding loop_by next_by tok_of offset_behind byte_before
parse_from q zero offset text s = no_fuel
parse_from q (suc fuel) offset text s = next_by (get_next_token q text 256) s (λ l delim.
    loop_by (body q.csc (tok_of l delim offset text) s) (λ s'.
      parse_from (record q { before = byte_before l q.before text }) fuel
        (offset_behind l offset text) l.rest s'))

unfoldable pub parse_tokens : Lexing → (stoken : Bytes) → (statement : Bytes) → Parsed
unfolding parse_from initial
parse_tokens q stoken statement = parse_from q (suc (length statement)) 0 statement (initial stoken)
