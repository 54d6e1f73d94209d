-- ===== src/Parse/Loop/Indexed.antt =====
-- The loop of parse_statement never uses a field or a table before the first one.
use versaplex.Prelude.{
  ◌==◌, if◌then◌else◌, Bool, true, false, not, ◌&&◌, ◌||◌, ◌≡◌, refl, inl, inr, Bool-cases, Option,
  none, some, List, [], ◌∷◌, ◌++◌, Bytes, codes, arith,
}
use versaplex.Multibyte.Charset.{Charset}
use versaplex.Parse.State.{
  FieldInfo, TableInfo, Tok, Parsing, Stage, falls, continues, breaks, fatal, bad_index, and_then,
  is_word, unquoted, begins_with, is_zero, change_last,
}
use versaplex.Parse.Level.{key_words, levels, ends_from}
use versaplex.Parse.Select.{
  select_list, in_expression, eat_expression, distinct_word, field_token, first_of_field, field_of,
  new_field, rest_of_field, change_field,
}
use versaplex.Parse.From.{
  end_command, from_list, table_text, is_side, is_inner, new_table, join_word, known_table,
  rest_of_table, change_table, is_point,
}
use versaplex.Parse.Loop.{body}

abbrev pub has_entry {ℓ} : {A : Type ℓ} → List A → Bool
has_entry [] = false
has_entry (x ∷ l) = true

-- Inside a field there is a field, and inside a table a table.
unfoldable pub IsIndexed : Parsing → Type 0
IsIndexed s =
    ((not (s.in_field || s.in_expr || s.in_func) || has_entry s.fields) ≡ true)
    × ((not s.in_table || has_entry s.tables) ≡ true)

-- A part of the body is left in such a state, and not by a bad index.
unfoldable pub Keeps : Stage → Type 0
unfolding IsIndexed
Keeps (falls s) = IsIndexed s
Keeps (continues s) = IsIndexed s
Keeps (breaks s) = IsIndexed s
Keeps (fatal s) = IsIndexed s
Keeps bad_index = ⊥

either : (b : Bool) (x y : Stage) → Keeps x → Keeps y → Keeps (if b then x else y)
either true x y h k = h
either false x y h k = k

either_by :
    (b : Bool) (x y : Stage)
    → (b ≡ true → Keeps x)
    → (b ≡ false → Keeps y)
    → Keeps (if b then x else y)
either_by true x y f g = f refl
either_by false x y f g = g refl

and_then-Keeps :
    (x : Stage) (f : Parsing → Stage)
    → Keeps x
    → ((s : Parsing) → IsIndexed s → Keeps (f s))
    → Keeps (and_then x f)
unfolding Keeps and_then
and_then-Keeps (falls s) f h k = k s h
and_then-Keeps (continues s) f h k = h
and_then-Keeps (breaks s) f h k = h
and_then-Keeps (fatal s) f h k = h
and_then-Keeps bad_index f h k = h

key_words-Keeps : (s : Parsing) (t : Tok) → IsIndexed s → Keeps (key_words s t)
unfolding Keeps key_words
key_words-Keeps s t h =
    either (unquoted t && is_zero s.blevel) _ _
      (either s.in_select _ _
        (either (is_word t (codes "distinct")) _ _ h
          (either (is_word t (codes "into")) _ _ h (either (is_word t (codes "from")) _ _ h h)))
        (either (ends_from t) _ _
          (either (is_word t (codes "where") || is_word t (codes "order")) _ _ h h) h))
      h

levels-Keeps : (s : Parsing) (t : Tok) → IsIndexed s → Keeps (levels s t)
unfolding Keeps levels
levels-Keeps s t h = either (not (unquoted t)) _ _ h (
    either (is_word t (codes "select")) _ _ (either (is_zero s.blevel) _ _ h h)
      (either (begins_with t.token b'(') _ _ h (either (begins_with t.token b')') _ _ h h)))

eat_expression-IsIndexed :
    (s : Parsing) (t : Tok)
    → (s.in_expr || s.in_func) ≡ true
    → IsIndexed s
    → IsIndexed (eat_expression s t)
unfolding IsIndexed eat_expression
eat_expression-IsIndexed s t e h = (ground arith, ground arith)

in_expression-Keeps : (s : Parsing) (t : Tok) → IsIndexed s → Keeps (in_expression s t)
unfolding Keeps in_expression
in_expression-Keeps s t h = elim (Bool-cases (s.in_expr || s.in_func)) [
  | inl e ↦ rw e (eat_expression-IsIndexed s t e h)
  | inr e ↦ rw e h
]

distinct_word-Keeps : (s : Parsing) (t : Tok) → IsIndexed s → Keeps (distinct_word s t)
unfolding Keeps distinct_word
distinct_word-Keeps s t h =
    either (not s.in_distinct) _ _ h
      (either (unquoted t && is_word t (codes "on")) _ _ h (either s.in_on _ _ h h))

or_true : (a b : Bool) → b ≡ true → (a || b) ≡ true
or_true true b h = refl
or_true false b h = h

has_entry-append {ℓ} : {A : Type ℓ} (l : List A) (x : A) → has_entry (l ++ x ∷ []) ≡ true
has_entry-append [] x = refl
has_entry-append (y ∷ l) x = refl

new_field-IsIndexed :
    (s : Parsing) (t : Tok) (opens : Bool) → IsIndexed s → IsIndexed (new_field s t opens)
unfolding IsIndexed new_field
new_field-IsIndexed s t opens h = (or_true _ _ (has_entry-append s.fields (field_of t opens)), h.1)

first_of_field-Keeps :
    (s : Parsing) (t : Tok) (opens : Bool) → IsIndexed s → Keeps (first_of_field s t opens)
unfolding Keeps first_of_field
first_of_field-Keeps s t opens h =
    elim t.token
      as (λ (w : Bytes).
        Keeps (elim w [ [] ↦ continues s | c ∷ v ↦ continues (new_field s t opens) ])) [
          | [] ↦ h
          | c ∷ v ↦ new_field-IsIndexed s t opens h
        ]

abbrev Entries {ℓ} : {A : Type ℓ} → Option (List A) → Type 0
Entries none = ⊥
Entries (some m) = has_entry m ≡ true

-- A list with an entry has a last one.
extended-Entries {ℓ} :
    {A : Type ℓ} (x : A) (o : Option (List A))
    → Entries o
    → Entries (elim o as (λ _. Option (List A)) [ none ↦ none | some m ↦ some (x ∷ m) ])
extended-Entries x none k = k
extended-Entries x (some m) k = refl

change_last-Entries {ℓ} :
    {A : Type ℓ} (f : A → A) (l : List A) → has_entry l ≡ true → Entries (change_last f l)
unfolding change_last
change_last-Entries f [] h = cc
change_last-Entries f (x ∷ []) h = refl
change_last-Entries f (x ∷ y ∷ l) h =
    extended-Entries x (change_last f (y ∷ l)) (change_last-Entries f (y ∷ l) refl)

leave-Keeps {ℓ} :
    {A : Type ℓ} (o : Option (List A)) (leave : List A → Stage)
    → Entries o
    → ((m : List A) → has_entry m ≡ true → Keeps (leave m))
    → Keeps (elim o as (λ _. Stage) [ none ↦ bad_index | some m ↦ leave m ])
leave-Keeps none leave e k = elim e [ ]
leave-Keeps (some m) leave e k = k m e

change_field-Keeps :
    (s : Parsing) (f : FieldInfo → FieldInfo) (store : List FieldInfo → Parsing)
    (leave : Parsing → Stage)
    → has_entry s.fields ≡ true
    → ((fs : List FieldInfo) → has_entry fs ≡ true → Keeps (leave (store fs)))
    → Keeps (change_field s f store leave)
unfolding change_field
change_field-Keeps s f store leave h k =
    leave-Keeps (change_last f s.fields) (λ fs. leave (store fs)) (change_last-Entries f s.fields h)
      k

rest_of_field-Keeps :
    (s : Parsing) (t : Tok) (opens : Bool)
    → has_entry s.fields ≡ true
    → IsIndexed s
    → Keeps (rest_of_field s t opens)
unfolding Keeps rest_of_field
rest_of_field-Keeps s t opens e h =
    either s.in_dot _ _ (change_field-Keeps s _ _ continues e (λ fs k. (or_true _ _ k, h.1))) (
      either s.in_as _ _ (change_field-Keeps s _ _ continues e (λ fs k. (or_true _ _ k, h.1))) (
        either opens _ _ (change_field-Keeps s _ _ continues e (λ fs k. (or_true _ _ k, h.1))) (
          either (begins_with t.token b'.') _ _ h (
            either (is_word t (codes "as")) _ _ h
              (change_field-Keeps s _ _ falls e (λ fs k. (or_true _ _ k, h.1)))))))

field_known : (s : Parsing) → s.in_field ≡ true → IsIndexed s → has_entry s.fields ≡ true
unfolding IsIndexed
field_known s e h = ground arith

field_token-Keeps :
    (s : Parsing) (t : Tok) (opens : Bool) → IsIndexed s → Keeps (field_token s t opens)
unfolding field_token
field_token-Keeps s t opens h =
    either_by s.in_field _ _ (λ e. rest_of_field-Keeps s t opens (field_known s e h) h)
      (λ e. first_of_field-Keeps s t opens h)

select_list-Keeps :
    (at_base : Bool) (t : Tok) (s : Parsing) → IsIndexed s → Keeps (select_list at_base t s)
unfolding select_list Keeps
select_list-Keeps at_base t s h =
    either s.in_select _ _
      (and_then-Keeps (in_expression s t) _ (in_expression-Keeps s t h) (λ a ha.
        and_then-Keeps (distinct_word a t) _ (distinct_word-Keeps a t ha)
          (λ b hb. field_token-Keeps b t _ hb)))
      h

-- The tables.
new_table-Keeps : (cs : Charset) (s : Parsing) (t : Tok) → IsIndexed s → Keeps (new_table cs s t)
unfolding Keeps new_table
new_table-Keeps cs s t h =
    either (not t.dquoted && (begins_with t.token b'(' || begins_with t.token b')')) _ _ h
      (h.0, or_true _ _ (has_entry-append s.tables _))

join_word-Keeps : (s : Parsing) (t : Tok) → IsIndexed s → Keeps (join_word s t)
unfolding Keeps join_word
join_word-Keeps s t h = either (t.dquoted || s.in_dot) _ _ h (
    either (begins_with t.token b')') _ _ h (
      either (is_side t) _ _ (h.0, refl)
        (either (is_inner t) _ _ (h.0, refl)
          (either (is_word t (codes "JOIN")) _ _ (h.0, refl) h))))

change_table-Keeps :
    (s : Parsing) (f : TableInfo → TableInfo) (store : List TableInfo → Parsing)
    (leave : Parsing → Stage)
    → has_entry s.tables ≡ true
    → ((ts : List TableInfo) → has_entry ts ≡ true → Keeps (leave (store ts)))
    → Keeps (change_table s f store leave)
unfolding change_table
change_table-Keeps s f store leave h k =
    leave-Keeps (change_last f s.tables) (λ ts. leave (store ts)) (change_last-Entries f s.tables h)
      k

rest_of_table-Keeps :
    (cs : Charset) (s : Parsing) (t : Tok)
    → has_entry s.tables ≡ true
    → IsIndexed s
    → Keeps (rest_of_table cs s t)
unfolding Keeps rest_of_table
rest_of_table-Keeps cs s t e h =
    either s.in_dot _ _ (change_table-Keeps s _ _ continues e (λ ts k. (h.0, or_true _ _ k))) (
      either (is_point t.token) _ _ h (
        either (not t.dquoted && is_word t (codes "as")) _ _ h (
          either (not t.dquoted && is_word t (codes "ON")) _ _ (h.0, refl)
            (change_table-Keeps s _ _ falls e (λ ts k. (h.0, refl))))))

table_known : (s : Parsing) → s.in_table ≡ true → IsIndexed s → has_entry s.tables ≡ true
unfolding IsIndexed
table_known s e h = ground arith

known_table-Keeps :
    (cs : Charset) (t : Tok) (s : Parsing) → IsIndexed s → Keeps (known_table cs t s)
unfolding Keeps known_table
known_table-Keeps cs t s h =
    either_by s.in_table _ _ (λ e. rest_of_table-Keeps cs _ t (table_known s e h) h) (λ e. h)

table_text-Keeps :
    (cs : Charset) (t : Tok) (s : Parsing) (w : Bytes) → IsIndexed s → Keeps (table_text cs t s w)
unfolding Keeps table_text
table_text-Keeps cs t s [] h = h
table_text-Keeps cs t s (c ∷ w) h = either (c == b',') _ _ h (
    either (s.out_table && not s.in_table) _ _ (new_table-Keeps cs s t h) (
      either (not (is_zero s.blevel)) _ _ h (
        and_then-Keeps (join_word s t) _ (join_word-Keeps s t h)
          (λ a ha. known_table-Keeps cs t a ha))))

end_command-Keeps : (t : Tok) (s : Parsing) → IsIndexed s → Keeps (end_command t s)
unfolding Keeps end_command
end_command-Keeps t s h =
    either ((s.in_from || s.in_where) && begins_with t.token b';') _ _ (h.0, refl) h

from_list-Keeps : (cs : Charset) (t : Tok) (s : Parsing) → IsIndexed s → Keeps (from_list cs t s)
unfolding Keeps from_list
from_list-Keeps cs t s h = either s.in_from _ _ (table_text-Keeps cs t s t.token h) h

pub body-Keeps : (cs : Charset) (t : Tok) (s : Parsing) → IsIndexed s → Keeps (body cs t s)
unfolding body
body-Keeps cs t s h = and_then-Keeps (key_words s t) _ (key_words-Keeps s t h) (λ a ha.
    and_then-Keeps (levels a t) _ (levels-Keeps a t ha) (λ b hb.
      and_then-Keeps (select_list (is_zero s.blevel) t b) _ (select_list-Keeps _ t b hb) (λ c hc.
        and_then-Keeps (end_command t c) _ (end_command-Keeps t c hc)
          (λ d hd. from_list-Keeps cs t d hd))))
