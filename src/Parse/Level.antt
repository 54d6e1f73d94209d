-- ===== src/Parse/Level.antt =====
-- The first parts of the loop's body in parse_statement (vxodbc/parse.cc): the key words outside of
-- brackets, and the levels of the brackets.
use versaplex.Prelude.{
  ℕ, ◌==◌, if◌then◌else◌, Bool, true, false, not, ◌&&◌, ◌||◌, Option, none, some, [], Bytes, codes,
  eq_ignore_case, starts_ignore_case,
}
use versaplex.Prelude.Int.{lt_ℤ, ℤ, pos, add_ℤ, pred_ℤ}
use versaplex.Parse.State.{
  Tok, Parsing, Stage, falls, continues, breaks, fatal, is_word, unquoted, begins_with, is_zero,
}

-- A position that is set once.
unfoldable pub set_pos : Option ℕ → (now : Bool) → ℕ → Option ℕ
set_pos none now offset = if now then some offset else none
set_pos (some p) now offset = some p

unfoldable pub select_word : Parsing → Tok → Stage
unfolding set_pos
select_word s t =
    if is_word t (codes "distinct")
    then continues (record s { in_distinct = true; updatable = false })
    else if is_word t (codes "into")
    then fatal (record s { in_select = false; makes_table = true })
    else if is_word t (codes "from")
    then continues (record s {
      in_select = false;
      in_from = true;
      from_pos = set_pos s.from_pos (starts_ignore_case t.text (codes "from")) t.offset;
    })
    else falls s

unfoldable pub ends_from : Tok → Bool
ends_from t =
    is_word t (codes "where")
    || is_word t (codes "union")
    || is_word t (codes "intersect")
    || is_word t (codes "except")
    || is_word t (codes "order")
    || is_word t (codes "group")
    || is_word t (codes "having")

unfoldable pub enter_where : Parsing → Tok → Stage
unfolding set_pos
enter_where s t =
    let inside = record s {
      in_from = false;
      in_where = true;
      where_pos = set_pos s.where_pos true t.offset;
    } in
    if is_word t (codes "where") || is_word t (codes "order")
    then continues inside
    else breaks (record inside { updatable = false })

unfoldable pub key_words : Parsing → Tok → Stage
unfolding select_word ends_from enter_where
key_words s t =
    if unquoted t && is_zero s.blevel
    then (if s.in_select then select_word s t else if ends_from t then enter_where s t else falls s)
    else falls s

unfoldable pub is_aggregate : Bytes → Bool
is_aggregate w =
    eq_ignore_case w (codes "count")
    || eq_ignore_case w (codes "sum")
    || eq_ignore_case w (codes "avg")
    || eq_ignore_case w (codes "max")
    || eq_ignore_case w (codes "min")
    || eq_ignore_case w (codes "variance")
    || eq_ignore_case w (codes "stddev")

unfoldable pub open_level : Parsing → Parsing
unfolding is_aggregate
open_level s = record s {
  blevel = add_ℤ s.blevel (pos 1);
  updatable = s.updatable && not (is_zero s.subqlevel && is_aggregate s.stoken);
}

unfoldable pub close_level : Parsing → Parsing
close_level s =
    let level = pred_ℤ s.blevel in
    record s { blevel = level; subqlevel = if lt_ℤ level s.subqlevel then pos 0 else s.subqlevel }

unfoldable pub enter_subselect : Parsing → Parsing
enter_subselect s = record s { subqlevel = if is_zero s.subqlevel then s.blevel else s.subqlevel }

-- The token is kept for the next bracket.
unfoldable pub keep_token : (old_blevel : ℤ) → Tok → Parsing → Parsing
keep_token old t s = record s {
  stoken = if not (lt_ℤ s.blevel old) && not (t.delim == b',') then t.token else [];
}

unfoldable pub levels : Parsing → Tok → Stage
unfolding open_level close_level enter_subselect keep_token begins_with
levels s t =
    if not (unquoted t)
    then falls s
    else if is_word t (codes "select")
    then (if is_zero s.blevel
        then continues (record s { stoken = []; in_select = true })
        else falls (keep_token s.blevel t (enter_subselect (record s { stoken = [] }))))
    else if begins_with t.token b'('
    then falls (keep_token s.blevel t (open_level s))
    else if begins_with t.token b')'
    then falls (keep_token s.blevel t (close_level s))
    else falls (keep_token s.blevel t s)
