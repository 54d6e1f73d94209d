-- ===== src/Multibyte/Names.antt =====
-- The names of the character sets (vxodbc/multibyte.cc): `pg_CS_code` reads what `pg_CS_name`
-- writes, and does not read the case of letters.
use versaplex.Prelude.{ℕ, List, [], ◌∷◌, map, Bytes, to_lower, eq_ignore_case, ◌≡◌, refl, arith}
use versaplex.Multibyte.Charset.{
  Charset, sql_ascii, CsRow, cs_table, cs_alias, find_code, pg_cs_code, pg_cs_name,
}

-- The name of a character set leads back to it, and a name in no table is that of `other`.
pub pg_cs_code-pg_cs_name : (c : Charset) → pg_cs_code (pg_cs_name c) ≡ c
unfolding pg_cs_code pg_cs_name
pg_cs_code-pg_cs_name sql_ascii = refl
pg_cs_code-pg_cs_name _ = refl

to_lower_twice : (c : ℕ) → to_lower (to_lower c) ≡ to_lower c
unfolding to_lower
to_lower_twice c = ground arith

eq_ignore_case-map : (s t : Bytes) → eq_ignore_case (map to_lower s) t ≡ eq_ignore_case s t
unfolding eq_ignore_case
eq_ignore_case-map [] [] = refl
eq_ignore_case-map [] (b ∷ t) = refl
eq_ignore_case-map (a ∷ s) [] = refl
eq_ignore_case-map (a ∷ s) (b ∷ t) = simp (eq_ignore_case-map s t, to_lower_twice a)

find_code-map : (rs : List CsRow) (s : Bytes) → find_code rs (map to_lower s) ≡ find_code rs s
unfolding find_code
find_code-map [] s = refl
find_code-map (r ∷ rs) s = simp (find_code-map rs s, eq_ignore_case-map s r.name)

-- The case of the letters of a name makes no difference to the code.
pub pg_cs_code-map-to_lower : (s : Bytes) → pg_cs_code (map to_lower s) ≡ pg_cs_code s
unfolding pg_cs_code
pg_cs_code-map-to_lower s = rw (find_code-map cs_table s, find_code-map cs_alias s)
