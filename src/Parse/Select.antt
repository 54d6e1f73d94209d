-- ===== src/Parse/Select.antt =====
-- The part of the loop's body in parse_statement (vxodbc/parse.cc) for the list of a SELECT.
use versaplex.Prelude.{
  ◌==◌, if◌then◌else◌, Bool, true, false, not, ◌&&◌, ◌||◌, none, some, List, [], ◌∷◌, ◌++◌, Bytes,
  codes, length,
}
use versaplex.Prelude.Int.{at_least}
use versaplex.Parse.State.{
  FieldInfo, fi_constructor, Tok, Parsing, Stage, falls, continues, bad_index, and_then, is_word,
  unquoted, begins_with, is_zero, change_last,
}

-- An expression or a function is passed up to its comma, or its AS.
unfoldable pub eat_expression : Parsing → Tok → Parsing
eat_expression s t =
    if not (is_zero s.blevel)
    then s
    else if t.delim == b','
    then record s { in_func = false; in_expr = false; in_field = false }
    else if unquoted t && is_word t (codes "as")
    then record s { in_func = false; in_expr = false; in_as = true; in_field = true }
    else s

unfoldable pub in_expression : Parsing → Tok → Stage
unfolding eat_expression
in_expression s t = if s.in_expr || s.in_func then continues (eat_expression s t) else falls s

unfoldable pub distinct_word : Parsing → Tok → Stage
distinct_word s t =
    if not s.in_distinct
    then falls s
    else if unquoted t && is_word t (codes "on")
    then continues (record s { in_on = true })
    else if s.in_on
    then continues (record s { in_distinct = false; in_on = false })
    else falls (record s { in_distinct = false })

-- What the first token of a field says of it; `opens` says that it opens a bracket.
unfoldable pub field_of : Tok → (opens : Bool) → FieldInfo
field_of t opens =
    let fresh = record fi_constructor { dquote = t.dquoted } in
    if t.quoted
    then record fresh { quote = true; column_size = length t.token }
    else if t.number
    then record fresh { numeric = true }
    else if opens
    then record fresh { expr = true }
    else record fresh { column_name = some t.token }

unfoldable pub new_field : Parsing → Tok → (opens : Bool) → Parsing
unfolding field_of fi_constructor
new_field s t opens = record s {
  fields = s.fields ++ field_of t opens ∷ [];
  in_expr = s.in_expr || (opens && not t.quoted && not t.number);
  in_field = s.in_field || not (t.delim == b',');
}

unfoldable pub first_of_field : Parsing → Tok → (opens : Bool) → Stage
unfolding new_field
first_of_field s t opens = elim t.token [
  | [] ↦ continues s
  | c ∷ w ↦ continues (new_field s t opens)
]

-- The names move one place up at a point.
unfoldable pub qualify : Bytes → FieldInfo → FieldInfo
qualify name f = record f {
  schema_name = elim f.before_dot [ none ↦ f.schema_name | some q ↦ some q ];
  before_dot = f.column_name;
  column_name = some name;
}

unfoldable pub name_alias : Bytes → FieldInfo → FieldInfo
name_alias name f = record f { column_alias = some name }

unfoldable pub mark_function : FieldInfo → FieldInfo
mark_function f = record f { func = true }

unfoldable pub mark_expression : FieldInfo → FieldInfo
mark_expression f = record f { expr = true; column_name = none; column_size = 0 }

-- A change of the current field, and of the state with it.
unfoldable pub change_field :
    Parsing → (FieldInfo → FieldInfo) → (List FieldInfo → Parsing) → (Parsing → Stage) → Stage
change_field s f store leave = elim (change_last f s.fields) [
  | none ↦ bad_index
  | some fs ↦ leave (store fs)
]

unfoldable pub rest_of_field : Parsing → Tok → (opens : Bool) → Stage
unfolding change_field qualify name_alias mark_function mark_expression
rest_of_field s t opens =
    if s.in_dot
    then change_field s (qualify t.token)
        (λ fs. record s {
          fields = fs;
          in_field = s.in_field && not (t.delim == b',');
          in_dot = false;
        })
        continues
    else if s.in_as
    then change_field s (name_alias t.token)
        (λ fs. record s { fields = fs; in_as = false; in_field = false }) continues
    else if opens
    then change_field s mark_function
        (λ fs. record s { fields = fs; in_dot = false; in_func = true }) continues
    else if begins_with t.token b'.'
    then continues (record s { in_dot = true })
    else if is_word t (codes "as")
    then continues (record s { in_dot = false; in_as = true })
    else change_field s mark_expression
        (λ fs. record s { fields = fs; in_dot = false; in_expr = true }) falls

unfoldable pub field_token : Parsing → Tok → (opens : Bool) → Stage
unfolding first_of_field rest_of_field
field_token s t opens = if s.in_field then rest_of_field s t opens else first_of_field s t opens

-- `at_base` is `old_blevel == 0`.
unfoldable pub select_list : (at_base : Bool) → Tok → Parsing → Stage
unfolding and_then in_expression distinct_word field_token
select_list at_base t s =
    if s.in_select
    then and_then (in_expression s t) (λ s'.
      and_then (distinct_word s' t) (λ s''. field_token s'' t (at_base && at_least s''.blevel 1)))
    else falls s
