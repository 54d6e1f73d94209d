-- ===== src/Tests/Clause.antt =====
-- The tests on the text of a statement at concrete inputs.
use versaplex.Prelude.{◌≡◌, refl, true, some, ◌∷◌, ◌++◌, codes, Bytes}
use versaplex.Prelude.{is_space, starts_ignore_case, to_lower}
use versaplex.Parse.Token.{skip_spaces, identifier_quote}
use versaplex.Convert.Clause.{
  answer, overread, into_table_from, table_name, plain_name, head_is_space, table_for_update,
  insert_without_target, no_target, ends_or_space,
}
use versaplex.Convert.Clause.Laws.{doubled, into_table_from-doubled}

-- A name that ends the statement
reads_behind : into_table_from (codes "into t") ≡ overread
unfolding into_table_from table_name plain_name skip_spaces head_is_space starts_ignore_case
    is_space to_lower
reads_behind = refl

for_update : table_for_update (codes "  Update x") ≡ record { found = true; endpos = some 9 }
unfolding table_for_update skip_spaces starts_ignore_case ends_or_space is_space to_lower
for_update = refl

default_row :
    insert_without_target (codes " values ();") ≡ record { found = true; endpos = some 11 }
unfolding insert_without_target no_target skip_spaces starts_ignore_case ends_or_space head_is_space
    is_space to_lower
default_row = refl

-- "a ""b"
abbrev odd_name : Bytes
odd_name = codes "a \"b"

into_table_from-doubled_example :
    into_table_from (
      codes "into "
      ++ identifier_quote
        ∷ (doubled odd_name ++ identifier_quote ∷ b' ' ∷ (codes "from" ++ b' ' ∷ codes "t")))
    ≡ answer true
unfolding is_space
into_table_from-doubled_example = into_table_from-doubled odd_name b' ' (codes "t")
