-- ===== src/Parse/Loop/Columns.antt =====
-- The columns and the table of a plain SELECT, as the body of the loop reads them.
use versaplex.Prelude.{
  ℕ, ◌==◌, Bool, true, false, not, ◌&&◌, ◌||◌, ◌≡◌, refl, Option, some, List, [], ◌∷◌, ◌++◌, Bytes,
  codes, to_lower, eq_ignore_case, starts_ignore_case, none, arith,
}
use versaplex.Multibyte.Charset.{Charset}
use versaplex.Parse.State.{
  FieldInfo, fi_constructor, ti_constructor, TableInfo, Tok, Parsing, falls, continues, and_then,
  begins_with, initial,
}
use versaplex.Parse.Level.{key_words, levels, keep_token, select_word, ends_from, set_pos}
use versaplex.Parse.Select.{
  select_list, field_of, new_field, first_of_field, field_token, in_expression, distinct_word,
}
use versaplex.Parse.From.{
  end_command, from_list, lower_the_name, table_token, table_text, new_table, table_of,
}
use versaplex.Parse.Loop.{body}

-- No key word of the loop, and no bracket or semicolon.
abbrev pub is_name : Bytes → Bool
is_name [] = false
is_name (c ∷ w) =
    not (eq_ignore_case (c ∷ w) (codes "distinct"))
    && not (eq_ignore_case (c ∷ w) (codes "into"))
    && not (eq_ignore_case (c ∷ w) (codes "from"))
    && not (eq_ignore_case (c ∷ w) (codes "select"))
    && not (c == b'(')
    && not (c == b')')
    && not (c == b';')
    && not (c == b',')

-- A word as getNextToken returns it.
abbrev pub word_tok : Bytes → (delim offset : ℕ) → Bytes → Tok
word_tok w delim offset text = record {
  token = w;
  delim = delim;
  quoted = false;
  dquoted = false;
  number = false;
  offset = offset;
  text = text;
}

-- Behind `SELECT`, with the columns `fs` read.
abbrev pub listing : List FieldInfo → Parsing
listing fs = record (initial []) { in_select = true; fields = fs }

abbrev pub column : Bytes → FieldInfo
column w = record fi_constructor { column_name = some w }

-- In the last column of the list.
abbrev pub listed : List FieldInfo → Bytes → Parsing
listed fs w = record (listing fs) { in_field = true; stoken = w }

-- Behind `FROM`.
abbrev pub naming : List FieldInfo → Option ℕ → Parsing
naming fs p = record (listing fs) {
  in_select = false;
  in_from = true;
  in_field = true;
  stoken = [];
  from_pos = p;
}

abbrev pub table : Charset → Bytes → TableInfo
table cs t = record ti_constructor { table_name = some (lower_the_name cs t false) }

-- A table's name is none of the words that end the list of tables, either.
abbrev pub ends_list : Bytes → Bool
ends_list t =
    eq_ignore_case t (codes "where")
    || eq_ignore_case t (codes "union")
    || eq_ignore_case t (codes "intersect")
    || eq_ignore_case t (codes "except")
    || eq_ignore_case t (codes "order")
    || eq_ignore_case t (codes "group")
    || eq_ignore_case t (codes "having")

abbrev pub is_table_name : Bytes → Bool
is_table_name t = is_name t && not (ends_list t)

-- A key word compares as it does in lower case.
spelt_as : (a b c : Bytes) → eq_ignore_case a b ≡ true → eq_ignore_case a c ≡ eq_ignore_case b c
unfolding eq_ignore_case
spelt_as [] [] c h = refl
spelt_as [] (y ∷ b) c h = cc
spelt_as (x ∷ a) [] c h = cc
spelt_as (x ∷ a) (y ∷ b) [] h = refl
spelt_as (x ∷ a) (y ∷ b) (z ∷ c) h =
    let (same, rest) = both (to_lower x == to_lower y) (eq_ignore_case a b) h in
    ground (arith, same, spelt_as a b c rest)
  where
    both : (p q : Bool) → (p && q) ≡ true → (p ≡ true) × (q ≡ true)
    both p q h = ground arith

select_ends_nothing :
    (sel : Bytes) (offset : ℕ) (text : Bytes)
    → eq_ignore_case sel (codes "select") ≡ true
    → ends_from (word_tok sel b' ' offset text) ≡ false
unfolding ends_from eq_ignore_case
select_ends_nothing sel offset text h =
    let is = λ (word : Bytes). spelt_as sel (codes "select") word h in
    rw
      (
        is (codes "where"),
        is (codes "union"),
        is (codes "intersect"),
        is (codes "except"),
        is (codes "order"),
        is (codes "group"),
        is (codes "having"),
      )
      refl

select_key_words :
    (stoken sel : Bytes) (offset : ℕ) (text : Bytes)
    → eq_ignore_case sel (codes "select") ≡ true
    → key_words (initial stoken) (word_tok sel b' ' offset text) ≡ falls (initial stoken)
unfolding key_words initial
select_key_words stoken sel offset text h = rw (select_ends_nothing sel offset text h) refl

pub select_begins :
    (cs : Charset) (stoken sel : Bytes) (offset : ℕ) (text : Bytes)
    → eq_ignore_case sel (codes "select") ≡ true
    → body cs (word_tok sel b' ' offset text) (initial stoken) ≡ continues (listing [])
unfolding body levels initial and_then
select_begins cs stoken sel offset text h = rw (select_key_words stoken sel offset text h, h) refl

pub listing-column :
    (cs : Charset) (fs : List FieldInfo) (w : Bytes) (offset : ℕ) (text : Bytes)
    → is_name w ≡ true
    → body cs (word_tok w b',' offset text) (listing fs) ≡ continues (listing (fs ++ column w ∷ []))
unfolding body key_words levels select_list field_token first_of_field initial fi_constructor
    and_then new_field field_of in_expression distinct_word keep_token begins_with end_command
    from_list select_word
listing-column cs fs [] offset text h = cc
listing-column cs fs (c ∷ w) offset text h = ground arith

pub listing_last :
    (cs : Charset) (fs : List FieldInfo) (w : Bytes) (offset : ℕ) (text : Bytes)
    → is_name w ≡ true
    → body cs (word_tok w b' ' offset text) (listing fs)
      ≡ continues (listed (fs ++ column w ∷ []) w)
unfolding body key_words levels select_list field_token first_of_field initial fi_constructor
    and_then new_field field_of in_expression distinct_word keep_token begins_with end_command
    from_list select_word
listing_last cs fs [] offset text h = cc
listing_last cs fs (c ∷ w) offset text h = ground arith

pub listed_from :
    (cs : Charset) (fs : List FieldInfo) (w frm : Bytes) (offset : ℕ) (text : Bytes)
    → eq_ignore_case frm (codes "from") ≡ true
    → (p : Option ℕ) × (body cs (word_tok frm b' ' offset text) (listed fs w)
        ≡ continues (record (naming fs p) { stoken = w }))
unfolding body key_words initial and_then select_word eq_ignore_case
listed_from cs fs w frm offset text h =
    let is = λ (word : Bytes). spelt_as frm (codes "from") word h in
    (
      set_pos none (starts_ignore_case text (codes "from")) offset,
      rw (is (codes "distinct"), is (codes "into"), h) refl,
    )

module _ (fs : List FieldInfo) (p : Option ℕ) (w t : Bytes) (offset : ℕ) (text : Bytes) where
  abbrev behind_from : Parsing
  behind_from = record (naming fs p) { stoken = w }

  abbrev kept : Parsing
  kept = record (naming fs p) { stoken = t }

  naming_key_words :
      is_table_name t ≡ true → key_words behind_from (word_tok t 0 offset text) ≡ falls behind_from
  unfolding key_words initial ends_from
  naming_key_words h = ground arith

  naming_levels :
      is_table_name t ≡ true → levels behind_from (word_tok t 0 offset text) ≡ falls kept
  unfolding levels initial keep_token begins_with
  naming_levels h = level_of t h
    where
      level_of :
          (v : Bytes)
          → is_table_name v ≡ true
          → levels behind_from (word_tok v 0 offset text)
            ≡ falls (record (naming fs p) { stoken = v })
      level_of [] h = cc
      level_of (c ∷ v) h = ground arith

-- What the tests behind FROM say of a name.
name_tests :
    (c : ℕ) (t : Bytes)
    → is_name (c ∷ t) ≡ true
    → ((c == b'(') ≡ false)
      × ((c == b')') ≡ false)
      × ((c == b';') ≡ false)
      × ((c == b',') ≡ false)
      × (eq_ignore_case (c ∷ t) (codes "select") ≡ false)
name_tests c t h = (ground arith, ground arith, ground arith, ground arith, ground arith)

table_name_is_name : (t : Bytes) → is_table_name t ≡ true → is_name t ≡ true
table_name_is_name t h = and_true (is_name t) (not (ends_list t)) h
  where
    and_true : (a b : Bool) → (a && b) ≡ true → a ≡ true
    and_true true b h = refl
    and_true false b h = h

-- The statement ends behind the table.
pub naming-table :
    (cs : Charset) (fs : List FieldInfo) (p : Option ℕ) (w t : Bytes) (offset : ℕ) (text : Bytes)
    → is_table_name t ≡ true
    → body cs (word_tok t 0 offset text) (record (naming fs p) { stoken = w })
      ≡ continues (record (naming fs p) {
        stoken = t;
        tables = table cs t ∷ [];
        in_table = true;
        out_table = false;
      })
unfolding body select_list initial and_then begins_with end_command from_list table_token table_text
    new_table table_of
naming-table cs fs p w [] offset text h = cc
naming-table cs fs p w (c ∷ t) offset text h =
    let (lp, rp, semi, comma, sel) = name_tests c t (table_name_is_name (c ∷ t) h) in
    rw (naming_key_words fs p w (c ∷ t) offset text h, naming_levels fs p w (c ∷ t) offset text h)
      (rw (semi, comma, lp, rp, sel) refl)
