-- ===== src/Convert/Literal.antt =====
-- `convert_special_chars` of vxodbc/convert.cc: the text of a literal, without its terminator. The
-- byte that `encoded_nextchar` returns is the one at `si[i]`, so the loop goes by the rest of the
-- text and the state `ccst` of the cursor.
pub mod Laws
pub mod Lines
use versaplex.Prelude.{
  ℕ, zero, suc, ◌==◌, if◌then◌else◌, Bool, true, false, not, ◌&&◌, ◌||◌, [], ◌∷◌, Option, none,
  some, Bytes, length,
}
use versaplex.Multibyte.Charset.{Charset}
use versaplex.Multibyte.Stat.{pg_cs_stat}
use versaplex.Multibyte.ClientEncoding.{literal_quote}
use versaplex.Convert.Linefeeds.{pg_linefeed, pg_carriage_return}

abbrev next_is_linefeed : Bytes → Bool
next_is_linefeed [] = false
next_is_linefeed (c ∷ s) = c == pg_linefeed

-- What the parameters and the flags FLGB_CONVERT_LF and FLGB_BUILDING_BIND_REQUEST set.
pub record Quoting : Type 0 where
  pub ccsc : Charset
  pub convlf : Bool
  pub double_special : Bool
  pub escape_in_literal : ℕ

unfoldable pub special_from : Quoting → ℕ → ℕ → Bytes → Bytes
special_from q ccst max [] = []
special_from q ccst zero (c ∷ s) = []
special_from q ccst (suc max) (c ∷ s) =
    let st = pg_cs_stat ccst c q.ccsc in
    let rest = special_from q st max s in
    if not (st == 0)
    then c ∷ rest
    else if q.convlf && c == pg_carriage_return && next_is_linefeed s
    then rest
    else if q.double_special && (c == literal_quote || c == q.escape_in_literal)
    then c ∷ c ∷ rest
    else c ∷ rest

-- `used` is none for SQL_NTS. The result's length is what the call returns.
unfoldable pub convert_special_chars : Quoting → Bytes → Option ℕ → Bytes
unfolding special_from
convert_special_chars q si none = special_from q 0 (length si) si
convert_special_chars q si (some used) = special_from q 0 used si
