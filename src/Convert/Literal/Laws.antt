-- ===== src/Convert/Literal/Laws.antt =====
-- What `convert_special_chars` writes (vxodbc/convert.cc), for well-formed texts in every
-- encoding but JOHAB.
use versaplex.Prelude.{
  ℕ, zero, suc, ◌+◌, ◌*◌, ◌≤◌, ◌<◌, ◌==◌, if◌then◌else◌, true, false, ◌||◌, List, [], ◌∷◌, ◌++◌,
  none, some, Bytes, length, flatten, map, ◌≡◌, refl, arith, ◌∙◌, ap, length-append,
}
use versaplex.Multibyte.Charset.{Charset, johab, same}
use versaplex.Multibyte.Stat.{pg_cs_stat}
use versaplex.Multibyte.Run.{RunsTo, Reading, single, multi, IsChar-Reading}
use versaplex.Multibyte.Laws.{IsText, nil, cons}
use versaplex.Multibyte.ClientEncoding.{literal_quote}
use versaplex.Convert.Literal.{Quoting, special_from, convert_special_chars}

-- A quotation mark or the escape character, as a character of its own, is doubled.
abbrev pub doubled : ℕ → Bytes → Bytes
doubled esc [] = []
doubled esc (c ∷ []) = if c == literal_quote || c == esc then c ∷ c ∷ [] else c ∷ []
doubled esc (c ∷ d ∷ s) = c ∷ d ∷ s

abbrev pub quoting : Charset → ℕ → Quoting
quoting cs esc = record {
  ccsc = cs;
  convlf = false;
  double_special = true;
  escape_in_literal = esc;
}

module _ (cs : Charset) (esc : ℕ) (ascii : esc < 0x80) (known : same cs johab ≡ false) where
  special_from-kept :
      (st max b : ℕ) (s : Bytes)
      → (pg_cs_stat st b cs ≡ 0 → 0x80 ≤ b)
      → special_from (quoting cs esc) st (suc max) (b ∷ s)
        ≡ b ∷ special_from (quoting cs esc) (pg_cs_stat st b cs) max s
  unfolding special_from
  special_from-kept st max b s h = ground arith

  special_from-RunsTo :
      (st max : ℕ) (c rest : Bytes)
      → RunsTo cs st c
      → (st' : ℕ) × (st' < 2)
        × (special_from (quoting cs esc) st (length c + max) (c ++ rest)
            ≡ c ++ special_from (quoting cs esc) st' max rest)
  special_from-RunsTo st max [] rest r = absurd r
  special_from-RunsTo st max (b ∷ []) rest r =
      let one : length (b ∷ []) + max ≡ suc max = omega arith in
      (pg_cs_stat st b cs, r.0, rw one (special_from-kept st max b rest r.1))
  special_from-RunsTo st max (b ∷ d ∷ s) rest r =
      let (st', lt, e) = special_from-RunsTo (pg_cs_stat st b cs) max (d ∷ s) rest r.1 in
      let more : length (b ∷ d ∷ s) + max ≡ suc (length (d ∷ s) + max) = omega arith in
      (
        st',
        lt,
        rw more (
            special_from-kept st (length (d ∷ s) + max) b (d ∷ s ++ rest)
              (λ z. absurd (omega (arith, z, r.0)))
            ∙ ap (◌∷◌ b) e),
      )

  special_from-Reading :
      {st : ℕ} {c : Bytes} (max : ℕ) (rest : Bytes)
      → Reading cs st c
      → (st' : ℕ) × (st' < 2)
        × (special_from (quoting cs esc) st (length c + max) (c ++ rest)
            ≡ doubled esc c ++ special_from (quoting cs esc) st' max rest)
  special_from-Reading {st} max rest (single {a} e) =
      let one : length (a ∷ []) + max ≡ suc max = omega arith in
      (0, omega arith, rw one (unfold special_from in ground (arith, e)))
  special_from-Reading {st} max rest (multi {a} {b} {s} r) =
      special_from-RunsTo st max (a ∷ b ∷ s) rest r

  special_from-IsText :
      {l : List Bytes} (st : ℕ)
      → st < 2
      → IsText cs l
      → special_from (quoting cs esc) st (length (flatten l)) (flatten l)
        ≡ flatten (map (doubled esc) l)
  unfolding flatten
  special_from-IsText st s nil = unfold special_from in refl
  special_from-IsText st s (cons {c} {l} h t) =
      let (st', lt, e) =
        special_from-Reading (length (flatten l)) (flatten l) (IsChar-Reading st known s h) in
      rw (length-append c (flatten l))
        (e ∙ ap (◌++◌ (doubled esc c)) (special_from-IsText st' lt t))

-- In every encoding but JOHAB, where special characters are doubled, linefeeds left alone and the
-- escape character is ASCII, every quotation mark and escape character of a well-formed text that
-- is a character of its own is doubled and nothing else is changed, also where such a byte stands
-- inside a longer character.
pub convert_special_chars-IsText :
    {cs : Charset} {l : List Bytes} (esc : ℕ)
    → esc < 0x80
    → same cs johab ≡ false
    → IsText cs l
    → convert_special_chars (quoting cs esc) (flatten l) none ≡ flatten (map (doubled esc) l)
unfolding convert_special_chars
convert_special_chars-IsText {cs} esc ascii known t =
    special_from-IsText cs esc ascii known 0 (omega arith) t

special_from-bound :
    (q : Quoting) (st max : ℕ) (s : Bytes)
    → (length (special_from q st max s) ≤ 2 * length s)
      × (length (special_from q st max s) ≤ 2 * max)
unfolding special_from
special_from-bound q st max [] = omega arith
special_from-bound q st zero (c ∷ s) = omega arith
special_from-bound q st (suc max) (c ∷ s) =
    ground (arith, special_from-bound q (pg_cs_stat st c q.ccsc) max s)

-- The text at most doubles, and at most `used` of its bytes are taken.
pub length-convert_special_chars :
    (q : Quoting) (s : Bytes) (used : ℕ)
    → (length (convert_special_chars q s none) ≤ 2 * length s)
      × (length (convert_special_chars q s (some used)) ≤ 2 * used)
unfolding convert_special_chars
length-convert_special_chars q s used =
    ((special_from-bound q 0 (length s) s).0, (special_from-bound q 0 used s).1)
