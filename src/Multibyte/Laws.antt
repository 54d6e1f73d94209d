-- ===== src/Multibyte/Laws.antt =====
-- The scans of vxodbc/multibyte.cc go by whole characters, in every encoding but JOHAB.
use versaplex.Prelude.{
  ℕ, ◌+◌, ◌≤◌, ◌<◌, ltb, ◌==◌, ◌&&◌, if◌then◌else◌, Bool, false, List, [], ◌∷◌, ◌++◌, Option, none,
  some, Bytes, length, flatten, ◌≡◌, refl, arith, ◌∙◌, ap,
}
use versaplex.Multibyte.Charset.{Charset, johab, gb18030, same}
use versaplex.Multibyte.Stat.{pg_cs_stat}
use versaplex.Multibyte.Chars.{IsChar, one, two, three, four}
use versaplex.Multibyte.Run.{
  RunsTo, Reading, single, multi, IsChar-Reading, one-stat, two-first, three-first, four-first,
}
use versaplex.Multibyte.Scan.{mbslen_from, pg_mbslen, mbschr_from, pg_mbschr, pg_mbsinc}

-- The characters of a text.
pub data IsText (cs : Charset) : List Bytes → Type 0 where
  nil : IsText cs []
  cons : {c : Bytes} {l : List Bytes} → IsChar cs c → IsText cs l → IsText cs (c ∷ l)

-- Between two characters the state is below 2.
mbslen_from-RunsTo :
    (cs : Charset) (st : ℕ) (c rest : Bytes) (len : ℕ)
    → RunsTo cs st c
    → (st' : ℕ) × (st' < 2)
      × (mbslen_from cs st (c ++ rest) len ≡ mbslen_from cs st' rest (len + 1))
unfolding mbslen_from
mbslen_from-RunsTo cs st [] rest len r = absurd r
mbslen_from-RunsTo cs st (b ∷ []) rest len r = (pg_cs_stat st b cs, r.0, ground arith)
mbslen_from-RunsTo cs st (b ∷ d ∷ s) rest len r =
    let (st', lt, e) = mbslen_from-RunsTo cs (pg_cs_stat st b cs) (d ∷ s) rest len r.1 in
    (st', lt, ground (arith, e))

mbslen_from-Reading :
    {cs : Charset} {st : ℕ} {c : Bytes} (rest : Bytes) (len : ℕ)
    → Reading cs st c
    → (st' : ℕ) × (st' < 2)
      × (mbslen_from cs st (c ++ rest) len ≡ mbslen_from cs st' rest (len + 1))
unfolding mbslen_from
mbslen_from-Reading rest len (single e) = (0, omega arith, ground arith)
mbslen_from-Reading {cs} {st} rest len (multi {a} {b} {s} r) =
    mbslen_from-RunsTo cs st (a ∷ b ∷ s) rest len r

mbslen_from-IsText :
    {cs : Charset} {l : List Bytes} (st len : ℕ)
    → same cs johab ≡ false
    → st < 2
    → IsText cs l
    → mbslen_from cs st (flatten l) len ≡ len + length l
unfolding mbslen_from flatten
mbslen_from-IsText st len known s nil = omega arith
mbslen_from-IsText {cs} st len known s (cons {c} {l} h t) =
    let (st', lt, e) = mbslen_from-Reading (flatten l) len (IsChar-Reading st known s h) in
    ground (arith, e, mbslen_from-IsText st' (len + 1) known lt t)

-- The length of a well-formed text is the number of its characters, in every encoding but
-- JOHAB.
pub pg_mbslen-IsText :
    {cs : Charset} {l : List Bytes}
    → same cs johab ≡ false
    → IsText cs l
    → pg_mbslen cs (flatten l) ≡ length l
unfolding pg_mbslen
pg_mbslen-IsText known t = omega (arith, mbslen_from-IsText 0 0 known (omega arith) t)

abbrev is_byte : Bytes → ℕ → Bool
is_byte [] ch = false
is_byte (b ∷ []) ch = b == ch
is_byte (b ∷ c ∷ s) ch = false

-- The offset of the first character that is the one byte `ch`.
abbrev pub char_offset : List Bytes → ℕ → ℕ → Option ℕ
char_offset [] ch i = none
char_offset (c ∷ l) ch i = if is_byte c ch then some i else char_offset l ch (i + length c)

module _ (cs : Charset) (ch : ℕ) (ascii : ch < 0x80) (known : same cs johab ≡ false) where
  -- Inside a character nothing is found.
  mbschr_from-inside :
      (st i b : ℕ) (s : Bytes)
      → 2 ≤ pg_cs_stat st b cs
      → mbschr_from cs st i (b ∷ s) ch ≡ mbschr_from cs (pg_cs_stat st b cs) (i + 1) s ch
  unfolding mbschr_from
  mbschr_from-inside st i b s h = ground arith

  mbschr_from-RunsTo :
      (st i : ℕ) (c rest : Bytes)
      → RunsTo cs st c
      → (st' : ℕ) × (st' < 2)
        × (mbschr_from cs st i (c ++ rest) ch ≡ mbschr_from cs st' (i + length c) rest ch)
  mbschr_from-RunsTo st i [] rest r = absurd r
  mbschr_from-RunsTo st i (b ∷ []) rest r =
      (pg_cs_stat st b cs, r.0, unfold mbschr_from in ground arith)
  mbschr_from-RunsTo st i (b ∷ d ∷ s) rest r =
      let (st', lt, e) = mbschr_from-RunsTo (pg_cs_stat st b cs) (i + 1) (d ∷ s) rest r.1 in
      let shift : i + 1 + length (d ∷ s) ≡ i + length (b ∷ d ∷ s) = omega arith in
      (
        st',
        lt,
        mbschr_from-inside st i b (d ∷ s ++ rest) r.0
            ∙ e
            ∙ ap (λ k. mbschr_from cs st' k rest ch) shift,
      )

  mbschr_from-Reading :
      {st : ℕ} {c : Bytes} (i : ℕ) (rest : Bytes)
      → Reading cs st c
      → (st' : ℕ) × (st' < 2)
        × (mbschr_from cs st i (c ++ rest) ch
            ≡ (if is_byte c ch then some i else mbschr_from cs st' (i + length c) rest ch))
  mbschr_from-Reading i rest (single e) = (0, omega arith, unfold mbschr_from in ground (arith, e))
  mbschr_from-Reading {st} i rest (multi {a} {b} {s} r) = mbschr_from-RunsTo st i (a ∷ b ∷ s) rest r

  mbschr_from-IsText :
      {l : List Bytes} (st i : ℕ)
      → st < 2
      → IsText cs l
      → mbschr_from cs st i (flatten l) ch ≡ char_offset l ch i
  unfolding mbschr_from flatten
  mbschr_from-IsText st i s nil = refl
  mbschr_from-IsText st i s (cons {c} {l} h t) =
      let (st', lt, e) = mbschr_from-Reading i (flatten l) (IsChar-Reading st known s h) in
      e ∙ rw (mbschr_from-IsText st' (i + length c) lt t)

-- In every encoding but JOHAB an ASCII character of a well-formed text is found where it first
-- stands as a character of its own, never inside a longer one.
pub pg_mbschr-IsText :
    {cs : Charset} {l : List Bytes} (ch : ℕ)
    → ch < 0x80
    → same cs johab ≡ false
    → IsText cs l
    → pg_mbschr cs (flatten l) ch ≡ char_offset l ch 0
unfolding pg_mbschr
pg_mbschr-IsText {cs} ch ascii known t = mbschr_from-IsText cs ch ascii known 0 0 (omega arith) t

-- In every encoding but JOHAB `pg_mbsinc` steps over one whole character, except that it goes only 2 bytes into a four-byte
-- character of GB18030.
pub pg_mbsinc-IsChar :
    {cs : Charset} {c : Bytes} (rest : Bytes)
    → same cs johab ≡ false
    → IsChar cs c
    → pg_mbsinc cs (c ++ rest) ≡ some (if same cs gb18030 && ltb 3 (length c) then 2 else length c)
unfolding pg_mbsinc
pg_mbsinc-IsChar {cs} rest known (one {a} p h) = ground (arith, one-stat cs 0 a (omega arith) p h)
pg_mbsinc-IsChar {cs} rest known (two {a} {b} h) = ground (arith, two-first cs a b known h)
pg_mbsinc-IsChar {cs} rest known (three {a} {b} {c} h) = ground (arith, three-first cs a b c h)
pg_mbsinc-IsChar {cs} rest known (four {a} {b} {c} {d} h) = ground (arith, four-first cs a b c d h)
