-- ===== src/Convert/Clause/Laws.antt =====
-- Quoted names, and the tags of dollar quotations, as the tests on a statement find them.
use mathlib.Core.Option
use mathlib.Core.Option.{Option, none, some}
use versaplex.Prelude.{
  ℕ, suc, ◌+◌, ◌≤◌, ◌<◌, ◌==◌, Bool, true, false, ◌≡◌, refl, ap, ◌∙◌, [], ◌∷◌, ◌++◌, Bytes, codes,
  is_space, starts_ignore_case, length, arith, to_lower,
}
use versaplex.Multibyte.Charset.{Charset}
use versaplex.Parse.Token.{skip_spaces, identifier_quote, dollar_quote, tag_end, tag_length}
use versaplex.Parse.Token.Words.{ascii-stat}
use versaplex.Convert.Clause.{
  head_is_space, inside, next_part, ends_name, name_end, answer, from_follows, table_name,
  into_table_from, find_tag_from, find_tag,
}

-- A name between two marks has each mark in it doubled. The first argument says whether it is one.
unfoldable pub put_doubled : Bool → ℕ → Bytes → Bytes
put_doubled true c s = identifier_quote ∷ identifier_quote ∷ s
put_doubled false c s = c ∷ s

unfoldable pub doubled : Bytes → Bytes
doubled [] = []
doubled (c ∷ s) = put_doubled (c == identifier_quote) c (doubled s)

name_end-put_doubled :
    (mark : Bool) (c : ℕ) (s r : Bytes)
    → (c == identifier_quote) ≡ mark
    → name_end inside (put_doubled mark c s ++ r) ≡ name_end inside (s ++ r)
unfolding name_end next_part ends_name put_doubled is_space
name_end-put_doubled true c s r is_mark = refl
name_end-put_doubled false c s r no_mark = rw no_mark refl

name_end-doubled : (t r : Bytes) → name_end inside (doubled t ++ r) ≡ name_end inside r
unfolding doubled
name_end-doubled [] r = refl
name_end-doubled (c ∷ t) r =
    name_end-put_doubled (c == identifier_quote) c (doubled t) r refl ∙ name_end-doubled t r

blank-from_follows :
    (c : ℕ) (s : Bytes) → from_follows (b' ' ∷ (codes "from" ++ c ∷ s)) ≡ answer (is_space c)
unfolding from_follows skip_spaces starts_ignore_case head_is_space is_space to_lower
blank-from_follows c s = refl

marked_name_end : (r : Bytes) → name_end inside (identifier_quote ∷ b' ' ∷ r) ≡ b' ' ∷ r
unfolding name_end next_part ends_name is_space
marked_name_end r = refl

into_table_name :
    (s : Bytes)
    → into_table_from (codes "into " ++ identifier_quote ∷ s) ≡ from_follows (name_end inside s)
unfolding into_table_from starts_ignore_case head_is_space skip_spaces table_name is_space to_lower
into_table_name s = refl

-- Behind `into` and a blank stands a name between quotation marks, of whatever bytes, blanks and
-- marks among them, each mark doubled. Then into_table_from answers TRUE when ` from` and a byte of
-- white space follow, and FALSE when another byte follows the word: no part of the name is taken
-- for its end.
pub into_table_from-doubled :
    (name : Bytes) (c : ℕ) (s : Bytes)
    → into_table_from (
        codes "into "
        ++ identifier_quote ∷ (doubled name ++ identifier_quote ∷ b' ' ∷ (codes "from" ++ c ∷ s)))
      ≡ answer (is_space c)
into_table_from-doubled name c s =
    into_table_name (doubled name ++ identifier_quote ∷ b' ' ∷ (codes "from" ++ c ∷ s))
    ∙ ap from_follows (
        name_end-doubled name (identifier_quote ∷ b' ' ∷ (codes "from" ++ c ∷ s))
        ∙ marked_name_end (codes "from" ++ c ∷ s))
    ∙ blank-from_follows c s

-- The bytes of a tag in ASCII
unfoldable pub AllTag : Bytes → Type 0
AllTag [] = Unit
AllTag (c ∷ s) =
    (1 ≤ c) × (c < 0x80) × ((c == dollar_quote) ≡ false) × (is_space c ≡ false) × AllTag s

find_tag_from-tag :
    (csc : Charset) (n : ℕ) (t s : Bytes)
    → AllTag t
    → find_tag_from csc 0 n (t ++ dollar_quote ∷ s) ≡ length t + n
unfolding find_tag_from AllTag
find_tag_from-tag csc n [] s tag =
    rw (ascii-stat csc 0 dollar_quote (omega arith) (omega arith) (omega arith)) (omega arith)
find_tag_from-tag csc n (c ∷ t) s tag =
    rw (ascii-stat csc 0 c (omega arith) tag.0 tag.1)
      (rw tag.2 (rw tag.3 (find_tag_from-tag csc (suc n) t s tag.4 ∙ omega arith)))

tag_end-tag : (t s : Bytes) → AllTag t → tag_end (t ++ dollar_quote ∷ s) ≡ some (suc (length t))
unfolding tag_end AllTag
tag_end-tag [] s tag = refl
tag_end-tag (c ∷ t) s tag = rw tag.2 (ap (Option.map suc) (tag_end-tag t s tag.4))

-- The two lexers of the driver agree on the tag of a dollar quotation: for one of ASCII bytes
-- without blanks, in every encoding, findTag of convert.cc and getNextToken of parse.cc find the
-- same length, that of the tag with its two marks.
pub find_tag-tag_length :
    (csc : Charset) (t s : Bytes)
    → AllTag t
    → (find_tag csc (t ++ dollar_quote ∷ s) ≡ tag_length (t ++ dollar_quote ∷ s))
      × (find_tag csc (t ++ dollar_quote ∷ s) ≡ length t + 2)
unfolding find_tag tag_length
find_tag-tag_length csc t s tag =
    let found = find_tag_from-tag csc 2 t s tag in
    (found ∙ rw (tag_end-tag t s tag, tag_length) (omega arith), found)
