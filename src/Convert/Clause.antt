-- ===== src/Convert/Clause.antt =====
-- The tests on the text of a statement of vxodbc/convert.cc: into_table_from, table_for_update,
-- insert_without_target and findTag. A text is the list of the bytes from `stmt` on.
pub mod Laws
use versaplex.Prelude.{
  ℕ, zero, suc, ◌+◌, ◌-◌, ◌==◌, if◌then◌else◌, Bool, true, false, not, ◌&&◌, ◌||◌, [], ◌∷◌, Option,
  none, some, Bytes, codes, is_space, starts_ignore_case, drop, length,
}
use versaplex.Multibyte.Charset.{Charset}
use versaplex.Multibyte.ClientEncoding.{literal_quote}
use versaplex.Multibyte.Stat.{pg_cs_stat}
use versaplex.Parse.Token.{identifier_quote, dollar_quote, skip_spaces}

unfoldable pub head_is_space : Bytes → Bool
head_is_space [] = false
head_is_space (c ∷ s) = is_space c

-- Where the loops over a quoted name stand: inside of the marks, behind a mark that may be the
-- first of two, or behind the closing one.
pub data NamePart : Type 0 where
  inside behind_mark outside : NamePart

unfoldable pub next_part : NamePart → ℕ → NamePart
next_part inside c = if c == identifier_quote then behind_mark else inside
next_part behind_mark c = if c == identifier_quote then inside else outside
next_part outside c = if c == identifier_quote then inside else outside

unfoldable pub ends_name : NamePart → ℕ → Bool
ends_name inside c = false
ends_name behind_mark c = is_space c
ends_name outside c = is_space c

-- The text behind a quoted name, from behind its first mark
unfoldable pub name_end : NamePart → Bytes → Bytes
name_end part [] = []
name_end part (c ∷ s) =
    let rest = name_end (next_part part c) s in if ends_name part c then c ∷ s else rest

-- The loop over a plain name stops at a blank only, so it goes on behind the terminator.
pub data Answer : Type 0 where
  answer : Bool → Answer
  overread : Answer

-- The blanks behind the table and the word `from`
unfoldable pub from_follows : Bytes → Answer
from_follows [] = answer false
from_follows (c ∷ s) =
    let from = skip_spaces s in
    answer (starts_ignore_case from (codes "from") && head_is_space (drop 4 from))

unfoldable pub plain_name : Bytes → Answer
plain_name [] = overread
plain_name (c ∷ s) = let rest = plain_name s in if is_space c then from_follows (c ∷ s) else rest

unfoldable pub table_name : Bytes → Answer
table_name [] = answer false
table_name (c ∷ s) =
    if c == b',' || c == literal_quote
    then answer false
    else if c == identifier_quote
    then from_follows (name_end inside s)
    else plain_name s

unfoldable pub into_table_from : Bytes → Answer
into_table_from stmt =
    let rest = drop 4 stmt in
    if starts_ignore_case stmt (codes "into") && head_is_space rest
    then table_name (skip_spaces rest)
    else answer false

-- The answer with `*endpos`, which is none where the function leaves it alone. `stmt` is the text
-- behind the byte that the pointer is at.
pub record Found : Type 0 where
  pub found : Bool
  pub endpos : Option ℕ

abbrev pub not_found : Found
not_found = record { found = false; endpos = none }

unfoldable pub ends_or_space : Bytes → Bool
ends_or_space [] = true
ends_or_space (c ∷ s) = is_space c

unfoldable pub table_for_update : (stmt : Bytes) → Found
table_for_update stmt =
    let word = skip_spaces stmt in
    let rest = drop 6 word in
    if starts_ignore_case word (codes "update")
    then record { found = ends_or_space rest; endpos = some (1 + (length stmt - length rest)) }
    else not_found

-- An empty pair of parentheses, with what may follow it
unfoldable pub no_target : (stmt rest : Bytes) → Found
no_target stmt [] = not_found
no_target stmt (a ∷ []) = not_found
no_target stmt (a ∷ b ∷ rest) =
    if a == b'(' && b == b')'
    then record {
      found = ends_or_space rest || starts_ignore_case rest (codes ";");
      endpos = some (1 + (length stmt - length rest));
    }
    else not_found

unfoldable pub insert_without_target : (stmt : Bytes) → Found
insert_without_target stmt =
    let word = skip_spaces stmt in
    let rest = drop 6 word in
    if starts_ignore_case word (codes "values") && head_is_space rest
    then no_target stmt (skip_spaces rest)
    else not_found

-- `taglen` is the length of the tag when it ends at the next byte.
unfoldable pub find_tag_from : Charset → (ccst taglen : ℕ) → Bytes → ℕ
find_tag_from csc ccst taglen [] = 0
find_tag_from csc ccst taglen (c ∷ s) =
    let st = pg_cs_stat ccst c csc in
    let rest = find_tag_from csc st (suc taglen) s in
    if not (st == 0)
    then rest
    else if c == dollar_quote
    then taglen
    else if is_space c
    then 0
    else rest

-- `s` is the text behind the first mark.
unfoldable pub find_tag : Charset → (s : Bytes) → ℕ
find_tag csc s = find_tag_from csc 0 2 s
