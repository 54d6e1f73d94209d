-- ===== src/Multibyte/Stat.antt =====
-- `pg_CS_stat` of vxodbc/multibyte.cc: the state of a byte in a multibyte character, from the
-- state before it. A state of at least 2 counts the bytes that are left of a character.
use versaplex.Prelude.{ℕ, ◌-◌, ltb, leb, ◌==◌, if◌then◌else◌, not, ◌&&◌, ◌||◌}
use versaplex.Multibyte.Charset.{
  Charset, euc_jp, euc_cn, euc_kr, euc_tw, johab, utf8, sjis, big5, gbk, uhc, gb18030,
}

stat_utf8 : ℕ → ℕ → ℕ
stat_utf8 st c =
    if ltb st 2 && leb 0x80 c
    then (if leb 0xfc c
        then 6
        else if leb 0xf8 c
        then 5
        else if leb 0xf0 c
        then 4
        else if leb 0xe0 c
        then 3
        else if leb 0xc0 c
        then 2
        else st)
    else if ltb 2 st && ltb 0x7f c
    then st - 1
    else 0

stat_sjis : ℕ → ℕ → ℕ
stat_sjis st c =
    if ltb st 2 && ltb 0x80 c && not (ltb 0x9f c && ltb c 0xe0) then 2 else if st == 2 then 1 else 0

-- The branches of Big5, GBK, UHC and the two-byte EUC sets, which differ in the bound.
stat_double : ℕ → ℕ → ℕ → ℕ
stat_double bound st c = if ltb st 2 && ltb bound c then 2 else if st == 2 then 1 else 0

stat_euc_jp : ℕ → ℕ → ℕ
stat_euc_jp st c =
    if ltb st 3 && c == 0x8f
    then 3
    else if not (st == 2) && (c == 0x8e || ltb 0xa0 c)
    then 2
    else if st == 2
    then 1
    else 0

stat_euc_tw : ℕ → ℕ → ℕ
stat_euc_tw st c =
    if ltb st 4 && c == 0x8e
    then 4
    else if st == 4 && ltb 0xa0 c
    then 3
    else if (st == 3 || ltb st 2) && ltb 0xa0 c
    then 2
    else if st == 2
    then 1
    else 0

stat_gb18030 : ℕ → ℕ → ℕ
stat_gb18030 st c =
    if ltb st 2 && ltb 0x80 c
    then 2
    else if st == 2
    then (if leb 0x30 c && leb c 0x39 then 3 else 1)
    else if st == 3
    then (if leb 0x30 c && leb c 0x39 then 1 else 3)
    else 0

-- The switch, at the state that the first test leaves.
stat_in : Charset → ℕ → ℕ → ℕ
stat_in utf8 st c = stat_utf8 st c
stat_in sjis st c = stat_sjis st c
stat_in big5 st c = stat_double 0xa0 st c
stat_in gbk st c = stat_double 0x7f st c
stat_in uhc st c = stat_double 0x7f st c
stat_in euc_jp st c = stat_euc_jp st c
stat_in euc_cn st c = stat_double 0xa0 st c
stat_in euc_kr st c = stat_double 0xa0 st c
stat_in johab st c = stat_double 0xa0 st c
stat_in euc_tw st c = stat_euc_tw st c
stat_in gb18030 st c = stat_gb18030 st c
stat_in _ st c = 0

unfoldable pub pg_cs_stat : ℕ → ℕ → Charset → ℕ
unfolding stat_utf8 stat_sjis stat_double stat_euc_jp stat_euc_tw stat_gb18030 stat_in
pg_cs_stat st c cs = stat_in cs (if c == 0 then 0 else st) c
