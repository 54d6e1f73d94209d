-- ===== src/Tests/Parse.antt =====
-- The parsing of statements at concrete inputs.
use versaplex.Prelude.{◌≡◌, refl, arith, some, List, [], ◌∷◌, ◌++◌, Bytes, codes, flatten, is_alnum}
use versaplex.Multibyte.Charset.{utf8, same}
use versaplex.Multibyte.Chars.{one, two}
use versaplex.Multibyte.Laws.{nil, cons}
use versaplex.Parse.Token.{Lexing, get_next_token, is_digit}
use versaplex.Parse.Token.Bounds.{FitsBuffer, get_next_token-FitsBuffer}
use versaplex.Parse.Token.Quotes.{
  quoted_token, get_next_token-IsText, number_token, get_next_token-number,
}
use versaplex.Parse.State.{FieldInfo, fi_constructor, TableInfo, ti_constructor}
use versaplex.Parse.Resolve.{resolve_field}
use versaplex.Parse.Resolve.Laws.{ResolvesTo, resolve_field-ResolvesTo}

abbrev in_utf8 : Lexing
in_utf8 = record { csc = utf8; escape_ch = b'\\'; before = 0 }

get_next_token-FitsBuffer_example : FitsBuffer 4 (get_next_token in_utf8 (codes "column, other") 4)
get_next_token-FitsBuffer_example = get_next_token-FitsBuffer in_utf8 (codes "column, other") 4

-- An accented letter and a blank between double quotation marks.
abbrev accented : List Bytes
accented = (0xc3 ∷ 0xa9 ∷ []) ∷ (b' ' ∷ []) ∷ []

get_next_token-IsText_example :
    get_next_token in_utf8 (b'"' ∷ flatten accented ++ b'"' ∷ codes ", x") 256
    ≡ quoted_token b'"' (flatten accented) (codes ", x")
unfolding same
get_next_token-IsText_example =
    get_next_token-IsText {l = accented} in_utf8 b'"' (codes ", x") 256 refl (omega arith) refl
      (refl, (refl, tt)) (cons (two refl) (cons (one (omega arith) refl) nil))
      (unfold flatten in omega arith) (omega arith)

get_next_token-number_example :
    get_next_token in_utf8 (b'1' ∷ codes "234567" ++ codes " from") 4
    ≡ number_token (codes "1234567") (codes " from")
unfolding is_digit is_alnum
get_next_token-number_example =
    get_next_token-number in_utf8 b'1' (codes "234567") (codes " from") 4 refl
      (refl, (refl, (refl, (refl, (refl, (refl, tt)))))) refl (omega arith)

abbrev qualified : FieldInfo
qualified = record fi_constructor { before_dot = some (codes "U"); column_name = some (codes "id") }

abbrev users : TableInfo
users = record ti_constructor { table_name = some (codes "users"); table_alias = some (codes "u") }

resolve_field-ResolvesTo_example :
    ResolvesTo qualified (users ∷ []) (resolve_field qualified (users ∷ []))
unfolding fi_constructor
resolve_field-ResolvesTo_example = resolve_field-ResolvesTo qualified (users ∷ []) refl refl refl
