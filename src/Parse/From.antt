-- ===== src/Parse/From.antt =====
-- The part of the loop's body in parse_statement (vxodbc/parse.cc) for the tables behind FROM.
use versaplex.Prelude.{
  ℕ, ◌==◌, if◌then◌else◌, Bool, true, false, not, ◌&&◌, ◌||◌, none, some, List, [], ◌∷◌, ◌++◌,
  Bytes, codes, to_lower,
}
use versaplex.Multibyte.Charset.{Charset}
use versaplex.Multibyte.Stat.{pg_cs_stat}
use versaplex.Parse.State.{
  TableInfo, ti_constructor, Tok, Parsing, Stage, falls, continues, breaks, bad_index, is_word,
  begins_with, is_zero, change_last, and_then,
}

-- lower_the_name: the cursor reads a byte before it is lowered.
unfoldable pub lower_from : Charset → (ccst : ℕ) → Bytes → Bytes
unfolding to_lower
lower_from cs ccst [] = []
lower_from cs ccst (c ∷ s) =
    let st = pg_cs_stat ccst c cs in (if st == 0 then to_lower c else c) ∷ lower_from cs st s

unfoldable pub lower_the_name : Charset → Bytes → (dquote : Bool) → Bytes
unfolding lower_from
lower_the_name cs name dquote = if dquote then name else lower_from cs 0 name

unfoldable pub table_of : Charset → Tok → TableInfo
unfolding ti_constructor lower_the_name
table_of cs t =
    if t.dquoted || not (is_word t (codes "select"))
    then record ti_constructor { table_name = some (lower_the_name cs t.token t.dquoted) }
    else record ti_constructor { is_updatable = false }

unfoldable pub new_table : Charset → Parsing → Tok → Stage
unfolding table_of
new_table cs s t =
    let fresh = record s { in_dot = false; maybe_join = 0 } in
    if not t.dquoted && (begins_with t.token b'(' || begins_with t.token b')')
    then continues fresh
    else let more = is_zero s.blevel && t.delim == b',' in
      continues (record fresh {
        tables = s.tables ++ table_of cs t ∷ [];
        out_table = more;
        in_table = s.in_table || not more;
      })

abbrev pub is_side : Tok → Bool
is_side t =
    is_word t (codes "LEFT")
    || is_word t (codes "RIGHT")
    || is_word t (codes "OUTER")
    || is_word t (codes "FULL")

abbrev pub is_inner : Tok → Bool
is_inner t = is_word t (codes "INNER") || is_word t (codes "CROSS")

-- The key words of a join, outside of brackets and quotation marks.
unfoldable pub join_word : Parsing → Tok → Stage
join_word s t =
    if t.dquoted || s.in_dot
    then falls s
    else if begins_with t.token b')'
    then continues s
    else if is_side t
    then continues (record s { maybe_join = 1; in_table = false })
    else if is_inner t
    then continues (record s { maybe_join = 2; in_table = false })
    else if is_word t (codes "JOIN")
    then continues (record s {
      in_table = false;
      out_table = true;
      outer_join = s.outer_join || s.maybe_join == 1;
      inner_join = s.inner_join || s.maybe_join == 2;
      maybe_join = 0;
    })
    else falls s

unfoldable pub qualify_table : Charset → Tok → TableInfo → TableInfo
unfolding lower_the_name
qualify_table cs t w = record w {
  table_schema = w.table_name;
  table_name = some (lower_the_name cs t.token t.dquoted);
}

unfoldable pub name_table_alias : Bytes → TableInfo → TableInfo
name_table_alias name w = record w { table_alias = some name }

unfoldable pub change_table :
    Parsing → (TableInfo → TableInfo) → (List TableInfo → Parsing) → (Parsing → Stage) → Stage
change_table s f store leave = elim (change_last f s.tables) [
  | none ↦ bad_index
  | some ts ↦ leave (store ts)
]

-- strcmp (token, ".") == 0
unfoldable pub is_point : Bytes → Bool
is_point [] = false
is_point (c ∷ []) = c == b'.'
is_point (c ∷ d ∷ s) = false

-- A second token of the current table.
unfoldable pub rest_of_table : Charset → Parsing → Tok → Stage
unfolding is_point change_table qualify_table name_table_alias
rest_of_table cs s t =
    if s.in_dot
    then change_table s (qualify_table cs t) (λ ts. record s { tables = ts; in_dot = false })
        continues
    else if is_point t.token
    then continues (record s { in_dot = true })
    else if not t.dquoted && is_word t (codes "as")
    then falls s
    else if not t.dquoted && is_word t (codes "ON")
    then continues (record s { in_table = false })
    else change_table s (name_table_alias t.token)
        (λ ts. record s {
          tables = ts;
          in_table = false;
          out_table = s.out_table || t.delim == b',';
        })
        falls

unfoldable pub known_table : Charset → Tok → Parsing → Stage
unfolding rest_of_table
known_table cs t s =
    let s' = record s { maybe_join = 0 } in if s.in_table then rest_of_table cs s' t else falls s'

-- The last argument is the token.
unfoldable pub table_text : Charset → Tok → Parsing → Bytes → Stage
unfolding new_table join_word known_table and_then
table_text cs t s [] = continues s
table_text cs t s (c ∷ w) =
    if c == b','
    then continues (record s { out_table = true })
    else if s.out_table && not s.in_table
    then new_table cs s t
    else if not (is_zero s.blevel)
    then continues s
    else and_then (join_word s t) (known_table cs t)

unfoldable pub table_token : Charset → Tok → Parsing → Stage
unfolding table_text
table_token cs t s = table_text cs t s t.token

-- A semicolon ends the first command.
unfoldable pub end_command : Tok → Parsing → Stage
end_command t s =
    if (s.in_from || s.in_where) && begins_with t.token b';'
    then breaks
        (record s { in_select = false; in_from = false; in_where = false; in_table = false })
    else falls s

unfoldable pub from_list : Charset → Tok → Parsing → Stage
unfolding table_token
from_list cs t s = if s.in_from then table_token cs t s else falls s
