-- ===== src/Convert/Money.antt =====
-- `convert_money` of vxodbc/convert.cc: an amount without its signs and separators. `sout` has
-- room for `soutmax` bytes.
use versaplex.Prelude.{
  ℕ, ◌+◌, ◌<◌, ltb, leb, ◌==◌, if◌then◌else◌, Bool, ◌||◌, [], ◌∷◌, ◌++◌, Option, none, some, Bytes,
  length, ◌≡◌, arith, length-append,
}
use mathlib.Core.List.{append_assoc, append-nil}

abbrev is_skipped : ℕ → Bool
is_skipped c = c == b'$' || c == b',' || c == b')'

-- The loop, with the bytes written so far; `none` is FALSE.
unfoldable pub convert_money_from : Bytes → ℕ → Bytes → Option Bytes
convert_money_from [] soutmax sout = some sout
convert_money_from (c ∷ s) soutmax sout =
    let skipped = convert_money_from s soutmax sout in
    let kept = convert_money_from s soutmax (sout ++ (if c == b'(' then b'-' else c) ∷ []) in
    if is_skipped c then skipped else if leb soutmax (length sout + 1) then none else kept

unfoldable pub convert_money : Bytes → ℕ → Option Bytes
unfolding convert_money_from
convert_money s soutmax = convert_money_from s soutmax []

-- The amount itself: no currency sign, no commas, an open parenthesis as a minus sign.
abbrev pub amount : Bytes → Bytes
amount [] = []
amount (c ∷ s) = if is_skipped c then amount s else (if c == b'(' then b'-' else c) ∷ amount s

convert_money_from-amount :
    (s : Bytes) (soutmax : ℕ) (sout : Bytes)
    → length sout < soutmax
    → convert_money_from s soutmax sout
      ≡ (if ltb (length sout + length (amount s)) soutmax then some (sout ++ amount s) else none)
unfolding convert_money_from
convert_money_from-amount [] soutmax sout h = rw append-nil (ground arith)
convert_money_from-amount (c ∷ s) soutmax sout h =
    let sign = if c == b'(' then b'-' else c in
    ground (
      arith,
      convert_money_from-amount s soutmax sout,
      convert_money_from-amount s soutmax (sout ++ sign ∷ []),
      length-append sout (sign ∷ []),
      append_assoc sout (sign ∷ []) (amount s),
    )

-- With a buffer of at least one byte the amount is written exactly when it fits with its
-- terminator, and otherwise the call fails.
pub convert_money-amount :
    (s : Bytes) (soutmax : ℕ)
    → 0 < soutmax
    → convert_money s soutmax ≡ (if ltb (length (amount s)) soutmax then some (amount s) else none)
unfolding convert_money
convert_money-amount s soutmax h = ground (arith, convert_money_from-amount s soutmax [] h)
