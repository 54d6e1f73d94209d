-- ===== src/Tests/Multibyte.antt =====
-- vxodbc/multibyte.cc at concrete inputs.
use versaplex.Prelude.{◌≡◌, refl, arith, List, [], ◌∷◌, Bytes, codes, flatten, some, none, is_space}
use versaplex.Multibyte.Charset.{sjis, same}
use versaplex.Multibyte.Scan.{pg_mbschr}
use versaplex.Multibyte.Chars.{one, two}
use versaplex.Multibyte.Laws.{IsText, nil, cons, pg_mbschr-IsText}
use versaplex.Multibyte.ClientEncoding.{check_client_encoding, done}
use versaplex.Multibyte.ClientEncoding.Laws.{AllBytes}

-- "表\" in Shift JIS: the second byte of the first character is a backslash.
abbrev pub kanji : List Bytes
kanji = (0x95 ∷ 0x5c ∷ []) ∷ (0x5c ∷ []) ∷ []

pub kanji-IsText : IsText sjis kanji
kanji-IsText = cons (two refl) (cons (one (omega arith) refl) nil)

pg_mbschr-IsText_example : pg_mbschr sjis (flatten kanji) 0x5c ≡ some 2
unfolding same
pg_mbschr-IsText_example = pg_mbschr-IsText 0x5c (omega arith) refl kanji-IsText

one_space : AllBytes is_space (b' ' ∷ [])
unfolding is_space
one_space = (refl, tt)

check_other : check_client_encoding (codes "select 1; x") ≡ done none
unfolding check_client_encoding
check_other = refl

check_first_of_two :
    check_client_encoding (codes "show x; SET client_encoding TO 'sjis' ; z")
    ≡ done (some (codes "sjis"))
unfolding check_client_encoding
check_first_of_two = refl
