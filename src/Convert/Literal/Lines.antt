-- ===== src/Convert/Literal/Lines.antt =====
-- `convert_special_chars` takes back the carriage returns that `convert_linefeeds` has put in
-- (vxodbc/convert.cc).
use versaplex.Prelude.{
  ℕ, ◌<◌, ◌==◌, true, false, [], ◌∷◌, ◌++◌, Option, none, some, Bytes, length, ◌≡◌, ◌≢◌, refl,
  arith, ap, Bool-cases, inl, inr,
}
use versaplex.Multibyte.Charset.{Charset}
use versaplex.Multibyte.Stat.{pg_cs_stat}
use versaplex.Convert.Linefeeds.{pg_linefeed, pg_carriage_return, convert_linefeeds, after_cr}
use versaplex.Convert.Linefeeds.Laws.{crlf_from, convert_linefeeds-crlf_from}
use versaplex.Convert.Literal.{Quoting, special_from, convert_special_chars}

abbrev pub binding : Charset → Quoting
binding cs = record { ccsc = cs; convlf = true; double_special = false; escape_in_literal = 0 }

abbrev pub NoReturn : Bytes → Type 0
NoReturn [] = Unit
NoReturn (c ∷ s) = (c ≢ pg_carriage_return) × NoReturn s

-- In an encoding of single bytes the state is always 0.
module _ (cs : Charset) (single : (st b : ℕ) → pg_cs_stat st b cs ≡ 0) where
  special_from-crlf_from :
      (prev : Option ℕ) (s : Bytes) (st : ℕ)
      → after_cr prev ≡ false
      → NoReturn s
      → special_from (binding cs) st (length (crlf_from prev s)) (crlf_from prev s) ≡ s
  unfolding special_from
  special_from-crlf_from prev [] st a h = refl
  special_from-crlf_from prev (c ∷ s) st a h =
      let here = single st c in
      let ih = special_from-crlf_from (some c) s in
      elim (Bool-cases (c == pg_linefeed)) [
        | inl e ↦
            let first = single st pg_carriage_return in
            let st1 = pg_cs_stat st pg_carriage_return cs in
            let second = single st1 c in
            rw e (rw a (ground (arith, first, second, ih (pg_cs_stat st1 c cs) (ground arith) h.1)))
        | inr e ↦ ground (arith, here, ih (pg_cs_stat st c cs) (ground arith) h.1)
      ]

-- In an encoding of single bytes a text without carriage returns comes back from the conversion of
-- its linefeeds, if the converted text fits.
pub convert_special_chars-convert_linefeeds :
    (cs : Charset) (s : Bytes) (max : ℕ)
    → ((st b : ℕ) → pg_cs_stat st b cs ≡ 0)
    → NoReturn s
    → length (crlf_from none s) < max
    → (w : Bytes) × ((convert_linefeeds s true max true).written ≡ w ++ 0 ∷ [])
      × (convert_special_chars (binding cs) w none ≡ s)
convert_special_chars-convert_linefeeds cs s max single h fits = (
  crlf_from none s,
  ap (λ l. l.written) (convert_linefeeds-crlf_from s max fits),
  unfold convert_special_chars in special_from-crlf_from cs single none s 0 refl h,
)
