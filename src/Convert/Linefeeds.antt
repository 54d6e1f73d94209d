-- ===== src/Convert/Linefeeds.antt =====
-- `convert_linefeeds` of vxodbc/convert.cc. `dst` says whether there is a buffer; `written` are
-- the bytes written into it, the terminator among them, from its first byte on.
pub mod Count
pub mod Laws
use versaplex.Prelude.{
  ℕ, ◌+◌, ◌-◌, ltb, leb, ◌==◌, if◌then◌else◌, Bool, true, false, ◌&&◌, [], ◌∷◌, ◌++◌, Option, none,
  some, Bytes, length,
}

abbrev pub pg_linefeed : ℕ
pg_linefeed = 10

abbrev pub pg_carriage_return : ℕ
pg_carriage_return = 13

pub record Lines : Type 0 where
  pub written : Bytes
  pub out : ℕ
  pub changed : Bool

-- dst[out++] = c for each byte, or only the count
unfoldable pub put : Bool → Bytes → Lines → Lines
put dst cs l = record l {
  written = if dst then l.written ++ cs else l.written;
  out = l.out + length cs;
}

-- i > 0 && si[i - 1] == PG_CARRIAGE_RETURN
abbrev pub after_cr : Option ℕ → Bool
after_cr none = false
after_cr (some c) = c == pg_carriage_return

-- The body of the loop, with the byte before this one.
unfoldable pub linefeed_step : Bool → Bool → Option ℕ → ℕ → Lines → Lines
unfolding put
linefeed_step dst convlf prev c l =
    if convlf && c == pg_linefeed
    then (if after_cr prev
        then put dst (c ∷ []) l
        else put dst (pg_carriage_return ∷ pg_linefeed ∷ []) (record l { changed = true }))
    else put dst (c ∷ []) l

unfoldable pub linefeeds_from : Bool → Bool → ℕ → Option ℕ → Bytes → Lines → Lines
unfolding linefeed_step
linefeeds_from dst convlf max prev [] l = l
linefeeds_from dst convlf max prev (c ∷ s) l =
    let rest = linefeeds_from dst convlf max (some c) s (linefeed_step dst convlf prev c l) in
    if ltb l.out (max - 1) then rest else l

unfoldable pub convert_linefeeds : Bytes → Bool → ℕ → Bool → Lines
unfolding linefeeds_from
convert_linefeeds si dst max convlf =
    let max' = if max == 0 then 0xffffffff else max in
    let l =
      linefeeds_from dst convlf max' none si (record { written = []; out = 0; changed = false }) in
    if dst then record l { written = l.written ++ 0 ∷ [] } else l
