-- ===== src/Parse/Loop/Plain.antt =====
-- From the text of a plain SELECT to its columns and its table.
use versaplex.Prelude.{
  ℕ, suc, ◌<◌, true, ◌≡◌, Option, none, some, List, [], ◌∷◌, ◌++◌, Bytes, codes, eq_ignore_case,
  length,
}
use versaplex.Parse.Token.{Lexeme, Lexing, skip_spaces, delimiter_of, stop}
use versaplex.Parse.Token.Words.{begins_word, AllWord}
use versaplex.Parse.State.{FieldInfo, TableInfo, Parsing}
use versaplex.Parse.Loop.{Parsed, ended, failed, bad_access, no_fuel, loop_by, body, parse_from}
use versaplex.Parse.Loop.Columns.{is_name, is_table_name, word_tok, table}

-- A word of the lexer.
abbrev pub IsWord : Bytes → Type 0
IsWord [] = ⊥
IsWord (c ∷ w) = (begins_word c ≡ true) × AllWord w × (length (c ∷ w) < 256)

word_lexeme : Bytes → Bytes → Lexeme
word_lexeme w s = record (stop s) { token = w; rest = skip_spaces s }

-- Where a word is read, the loop goes on behind it after the body.
module _ (q : Lexing) (fuel offset : ℕ) (st : Parsing) where
  abbrev Reads : Bytes → Bytes → Bytes → Type 0
  Reads text w s =
      (q' : Lexing) × (offset' : ℕ) × (q'.csc ≡ q.csc)
      × (parse_from q (suc fuel) offset text st
          ≡ loop_by (body q.csc (word_tok w (delimiter_of (skip_spaces s)) offset text) st)
              (parse_from q' fuel offset' (skip_spaces s)))

-- A key word, in any case of its letters.
abbrev pub Spells : Bytes → Bytes → Type 0
Spells v word = IsWord v × (eq_ignore_case v word ≡ true)

-- The text behind a column: the other columns, and the table.
abbrev pub more_columns : (frm : Bytes) → List Bytes → Bytes → Bytes
more_columns frm [] t = b' ' ∷ frm ++ b' ' ∷ t
more_columns frm (w ∷ ws) t = b',' ∷ b' ' ∷ w ++ more_columns frm ws t

-- What the loop leaves in the descriptor and the statement.
unfoldable pub columns_and_tables : Parsed → Option (List FieldInfo × List TableInfo)
columns_and_tables (ended s) = some (s.fields, s.tables)
columns_and_tables (failed s) = none
columns_and_tables bad_access = none
columns_and_tables no_fuel = none

-- One unit of fuel for each column, and for FROM, the table and the end.
abbrev fuel_for : List Bytes → ℕ → ℕ
fuel_for [] more = suc (suc (suc more))
fuel_for (w ∷ ws) more = suc (fuel_for ws more)

-- The names of columns, and the words of the lexer that they are.
abbrev pub AllNames : List Bytes → Type 0
AllNames [] = Unit {0}
AllNames (w ∷ ws) = IsWord w × (is_name w ≡ true) × AllNames ws

module _ (t frm : Bytes) (word : IsWord t) (name : is_table_name t ≡ true)
    (key : Spells frm (codes "from")) (more : ℕ) where
  abbrev FoundColumns : Lexing → Parsed → List FieldInfo → Type 0
  FoundColumns q r fs = columns_and_tables r ≡ some (fs, table q.csc t ∷ [])

-- SELECT w, ... FROM t
abbrev pub plain_select : (sel frm w : Bytes) → List Bytes → Bytes → Bytes
plain_select sel frm w ws t = sel ++ (b' ' ∷ w ++ more_columns frm ws t)
