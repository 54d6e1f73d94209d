-- ===== src/Multibyte/ClientEncoding.antt =====
-- `check_client_encoding` of vxodbc/multibyte.cc, which looks for a command
-- `set client_encoding to ...` in the connection settings. The scan moves over the bytes before
-- the terminator; a pointer that passes the terminator makes the next test of the loop read
-- outside the string, which is `overrun` here. The copy of the value is the value itself.
pub mod Laws
use versaplex.Prelude.{
  ℕ, zero, suc, ◌==◌, if◌then◌else◌, Bool, true, false, not, ◌&&◌, ◌||◌, List, [], ◌∷◌, Option,
  none, some, Bytes, codes, is_space, starts_ignore_case, length,
}

abbrev pub literal_quote : ℕ
literal_quote = 39

-- `value` is the slice of `sptr` and `len`, or `none` while `sptr` is NULL.
pub record Scanner : Type 0 where
  pub allowed_cmd : Bool
  pub in_quote : Bool
  pub step : ℕ
  pub value : Option Bytes

pub data Scanned : Type 0 where
  done : Option Bytes → Scanned
  overrun : Scanned

-- The bytes before the first one that ends a value.
unfoldable pub until : (ℕ → Bool) → Bytes → Bytes
until ends [] = []
until ends (c ∷ s) = let rest = until ends s in if ends c then [] else c ∷ rest

-- `skip` is by how much the loop's body moves `cptr`, whose byte is `c`.
record Moved : Type 0 where
  scanner : Scanner
  skip : ℕ

-- Cases 0 to 2: a keyword, or else a command that is passed over.
expect : Scanner → Bytes → Bytes → Moved
expect p word s =
    if starts_ignore_case s word
    then record { scanner = record p { step = suc p.step }; skip = length word }
    else record { scanner = record p { allowed_cmd = false }; skip = 0 }

-- Case 3: the value, quoted or up to the next space.
take_value : Scanner → ℕ → Bytes → Moved
take_value p c s =
    let quoted = until (λ b. b == literal_quote) s in
    let plain = until is_space (c ∷ s) in
    if c == literal_quote
    then record {
      scanner = record p { step = suc p.step; value = some quoted };
      skip = suc (length quoted);
    }
    else record {
      scanner = record p { step = suc p.step; value = some plain };
      skip = length plain;
    }

-- The switch on `step`.
at_step : ℕ → Scanner → ℕ → Bytes → Moved
at_step zero p c s = expect p (codes "set") (c ∷ s)
at_step (suc zero) p c s = expect p (codes "client_encoding") (c ∷ s)
at_step (suc (suc zero)) p c s = expect p (codes "to") (c ∷ s)
at_step (suc (suc (suc zero))) p c s = take_value p c s
at_step (suc (suc (suc (suc n)))) p c s = record { scanner = p; skip = 0 }

-- The body of the loop at the byte `c`, with `s` behind it.
body : Scanner → ℕ → Bytes → Moved
body p c s =
    if p.in_quote && c == literal_quote
    then record { scanner = record p { in_quote = false }; skip = 0 }
    else if c == b';'
    then record { scanner = record p { allowed_cmd = true; step = 0 }; skip = 0 }
    else if not p.allowed_cmd
    then record { scanner = p; skip = 0 }
    else if is_space c
    then record { scanner = p; skip = 0 }
    else at_step p.step p c s

-- The loop; `skip` bytes are passed before its next test.
unfoldable pub scan : Scanner → ℕ → Bytes → Scanned
unfolding body at_step take_value expect until starts_ignore_case is_space
scan p zero [] = done p.value
scan p (suc k) [] = overrun
scan p (suc k) (c ∷ s) = scan p k s
scan p zero (c ∷ s) = let m = body p c s in scan m.scanner m.skip s

abbrev pub start : Scanner
start = record { allowed_cmd = true; in_quote = false; step = 0; value = none }

unfoldable pub check_client_encoding : Bytes → Scanned
unfolding scan
check_client_encoding s = scan start 0 s
