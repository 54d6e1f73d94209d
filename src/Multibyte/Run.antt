-- ===== src/Multibyte/Run.antt =====
-- The run of `pg_CS_stat` (vxodbc/multibyte.cc) over the bytes of one character.
use versaplex.Prelude.{
  ℕ, ◌≤◌, ◌<◌, ◌==◌, ◌&&◌, if◌then◌else◌, Bool, true, false, [], ◌∷◌, Bytes, within, ◌≡◌, arith,
}
use versaplex.Multibyte.Charset.{Charset, euc_jp, euc_tw, johab, utf8, gb18030, pg_mb_maxlen, same}
use versaplex.Multibyte.Stat.{pg_cs_stat}
use versaplex.Multibyte.Chars.{
  IsChar, one, two, three, four, high, cont, digit, one_byte, two_bytes, three_bytes, four_bytes,
}

-- The state machine is inside a character up to its last byte, and leaves state 0 there only
-- on a byte that is not ASCII.
abbrev pub RunsTo : Charset → ℕ → Bytes → Type 0
RunsTo cs st [] = ⊥
RunsTo cs st (b ∷ []) = (pg_cs_stat st b cs < 2) × (pg_cs_stat st b cs ≡ 0 → 0x80 ≤ b)
RunsTo cs st (b ∷ c ∷ s) = (2 ≤ pg_cs_stat st b cs) × RunsTo cs (pg_cs_stat st b cs) (c ∷ s)

pub one-stat :
    (cs : Charset) (st a : ℕ) → st < 2 → 1 ≤ a → one_byte cs a ≡ true → pg_cs_stat st a cs ≡ 0
unfolding pg_cs_stat
one-stat utf8 st a s p h = ground arith
one-stat _ st a s p h = ground arith

-- In JOHAB the state machine does not know all lead bytes.
two-RunsTo :
    (cs : Charset) (st a b : ℕ)
    → same cs johab ≡ false
    → st < 2
    → two_bytes cs a b ≡ true
    → RunsTo cs st (a ∷ b ∷ [])
unfolding pg_cs_stat same
two-RunsTo utf8 st a b known s h = ground arith
two-RunsTo johab st a b known s h = cc
two-RunsTo _ st a b known s h = ground arith

-- The states inside the longer characters.
utf8_lead :
    (st a : ℕ)
    → st < 2
    → (within 0xe0 0xef a ≡ true → pg_cs_stat st a utf8 ≡ 3)
      × (within 0xf0 0xf7 a ≡ true → pg_cs_stat st a utf8 ≡ 4)
unfolding pg_cs_stat
utf8_lead st a s = (λ h. ground arith, λ h. ground arith)

utf8_cont :
    (b : ℕ)
    → cont b ≡ true
    → (pg_cs_stat 4 b utf8 ≡ 3) × (pg_cs_stat 3 b utf8 ≡ 2) × (pg_cs_stat 2 b utf8 ≡ 0)
unfolding pg_cs_stat
utf8_cont b h = (ground arith, ground arith, ground arith)

euc_jp_run :
    (st a b : ℕ)
    → st < 2
    → high b ≡ true
    → (a == 0x8f ≡ true → pg_cs_stat st a euc_jp ≡ 3)
      × (pg_cs_stat 3 b euc_jp ≡ 2)
      × (pg_cs_stat 2 b euc_jp ≡ 1)
unfolding pg_cs_stat
euc_jp_run st a b s h = (λ e. ground arith, ground arith, ground arith)

euc_tw_run :
    (st a b : ℕ)
    → st < 2
    → high b ≡ true
    → (a == 0x8e ≡ true → pg_cs_stat st a euc_tw ≡ 4)
      × (pg_cs_stat 4 b euc_tw ≡ 3)
      × (pg_cs_stat 3 b euc_tw ≡ 2)
      × (pg_cs_stat 2 b euc_tw ≡ 1)
unfolding pg_cs_stat
euc_tw_run st a b s h = (λ e. ground arith, ground arith, ground arith, ground arith)

gb18030_run :
    (st a b : ℕ)
    → st < 2
    → within 0x81 0xfe a ≡ true
    → digit b ≡ true
    → (pg_cs_stat st a gb18030 ≡ 2)
      × (pg_cs_stat 2 b gb18030 ≡ 3)
      × (pg_cs_stat 3 a gb18030 ≡ 3)
      × (pg_cs_stat 3 b gb18030 ≡ 1)
unfolding pg_cs_stat
gb18030_run st a b s h k = (ground arith, ground arith, ground arith, ground arith)

&&-eq-true : (a b : Bool) → (a && b) ≡ true → (a ≡ true) × (b ≡ true)
&&-eq-true a b h = ground arith

three_utf8 :
    (st a b c : ℕ) → st < 2 → three_bytes utf8 a b c ≡ true → RunsTo utf8 st (a ∷ b ∷ c ∷ [])
three_utf8 st a b c s h =
    let (ha, t) = &&-eq-true (within 0xe0 0xef a) (cont b && cont c) h in
    let (hb, hc) = &&-eq-true (cont b) (cont c) t in
    rw ((utf8_lead st a s).0 ha, (utf8_cont b hb).1, (utf8_cont c hc).2)
      (omega arith, (omega arith, (omega arith, λ _. ground arith)))

three_euc_jp :
    (st a b c : ℕ) → st < 2 → three_bytes euc_jp a b c ≡ true → RunsTo euc_jp st (a ∷ b ∷ c ∷ [])
three_euc_jp st a b c s h =
    let (ha, t) = &&-eq-true (a == 0x8f) (high b && high c) h in
    let (hb, hc) = &&-eq-true (high b) (high c) t in
    rw ((euc_jp_run st a b s hb).0 ha, (euc_jp_run st a b s hb).1, (euc_jp_run st a c s hc).2)
      (omega arith, (omega arith, (omega arith, λ e. absurd (omega arith))))

three-RunsTo :
    (cs : Charset) (st a b c : ℕ)
    → st < 2
    → three_bytes cs a b c ≡ true
    → RunsTo cs st (a ∷ b ∷ c ∷ [])
three-RunsTo utf8 st a b c s h = three_utf8 st a b c s h
three-RunsTo euc_jp st a b c s h = three_euc_jp st a b c s h
three-RunsTo _ st a b c s h = cc

four_utf8 :
    (st a b c d : ℕ) → st < 2 → four_bytes utf8 a b c d ≡ true → RunsTo utf8 st (a ∷ b ∷ c ∷ d ∷ [])
four_utf8 st a b c d s h =
    let (ha, t) = &&-eq-true (within 0xf0 0xf7 a) (cont b && (cont c && cont d)) h in
    let (hb, u) = &&-eq-true (cont b) (cont c && cont d) t in
    let (hc, hd) = &&-eq-true (cont c) (cont d) u in
    rw ((utf8_lead st a s).1 ha, (utf8_cont b hb).0, (utf8_cont c hc).1, (utf8_cont d hd).2)
      (omega arith, (omega arith, (omega arith, (omega arith, λ _. ground arith))))

four_euc_tw :
    (st a b c d : ℕ)
    → st < 2
    → four_bytes euc_tw a b c d ≡ true
    → RunsTo euc_tw st (a ∷ b ∷ c ∷ d ∷ [])
four_euc_tw st a b c d s h =
    let (ha, t) = &&-eq-true (a == 0x8e) (high b && (high c && high d)) h in
    let (hb, u) = &&-eq-true (high b) (high c && high d) t in
    let (hc, hd) = &&-eq-true (high c) (high d) u in
    rw
      (
        (euc_tw_run st a b s hb).0 ha,
        (euc_tw_run st a b s hb).1,
        (euc_tw_run st a c s hc).2,
        (euc_tw_run st a d s hd).3,
      )
      (omega arith, (omega arith, (omega arith, (omega arith, λ e. absurd (omega arith)))))

four_gb18030 :
    (st a b c d : ℕ)
    → st < 2
    → four_bytes gb18030 a b c d ≡ true
    → RunsTo gb18030 st (a ∷ b ∷ c ∷ d ∷ [])
four_gb18030 st a b c d s h =
    let (ha, t) = &&-eq-true (within 0x81 0xfe a) (digit b && (within 0x81 0xfe c && digit d)) h in
    let (hb, u) = &&-eq-true (digit b) (within 0x81 0xfe c && digit d) t in
    let (hc, hd) = &&-eq-true (within 0x81 0xfe c) (digit d) u in
    rw
      (
        (gb18030_run st a b s ha hb).0,
        (gb18030_run st a b s ha hb).1,
        (gb18030_run st c b s hc hb).2,
        (gb18030_run st a d s ha hd).3,
      )
      (omega arith, (omega arith, (omega arith, (omega arith, λ e. absurd (omega arith)))))

four-RunsTo :
    (cs : Charset) (st a b c d : ℕ)
    → st < 2
    → four_bytes cs a b c d ≡ true
    → RunsTo cs st (a ∷ b ∷ c ∷ d ∷ [])
four-RunsTo utf8 st a b c d s h = four_utf8 st a b c d s h
four-RunsTo euc_tw st a b c d s h = four_euc_tw st a b c d s h
four-RunsTo gb18030 st a b c d s h = four_gb18030 st a b c d s h
four-RunsTo _ st a b c d s h = cc

-- How the state machine reads one character from a state between characters.
pub data Reading (cs : Charset) (st : ℕ) : Bytes → Type 0 where
  single : {a : ℕ} → pg_cs_stat st a cs ≡ 0 → Reading cs st (a ∷ [])
  multi : {a b : ℕ} {s : Bytes} → RunsTo cs st (a ∷ b ∷ s) → Reading cs st (a ∷ b ∷ s)

pub IsChar-Reading :
    {cs : Charset} {c : Bytes} (st : ℕ)
    → same cs johab ≡ false
    → st < 2
    → IsChar cs c
    → Reading cs st c
IsChar-Reading {cs} st known s (one {a} p h) = single (one-stat cs st a s p h)
IsChar-Reading {cs} st known s (two {a} {b} h) = multi (two-RunsTo cs st a b known s h)
IsChar-Reading {cs} st known s (three {a} {b} {c} h) = multi (three-RunsTo cs st a b c s h)
IsChar-Reading {cs} st known s (four {a} {b} {c} {d} h) = multi (four-RunsTo cs st a b c d s h)

-- From state 0 the lead byte of a longer character gives the length, but that of GB18030 gives 2.
pub two-first :
    (cs : Charset) (a b : ℕ)
    → same cs johab ≡ false
    → two_bytes cs a b ≡ true
    → pg_cs_stat 0 a cs ≡ 2
unfolding pg_cs_stat same
two-first utf8 a b known h = ground arith
two-first johab a b known h = cc
two-first _ a b known h = ground arith

pub three-first : (cs : Charset) (a b c : ℕ) → three_bytes cs a b c ≡ true → pg_cs_stat 0 a cs ≡ 3
unfolding pg_cs_stat
three-first utf8 a b c h = ground arith
three-first _ a b c h = ground arith

pub four-first :
    (cs : Charset) (a b c d : ℕ)
    → four_bytes cs a b c d ≡ true
    → pg_cs_stat 0 a cs ≡ (if same cs gb18030 then 2 else 4)
unfolding pg_cs_stat same
four-first utf8 a b c d h = ground arith
four-first _ a b c d h = ground arith

-- The state never exceeds the length that the driver allots to a character.
pub pg_cs_stat-le-pg_mb_maxlen :
    (cs : Charset) (st c : ℕ) → st ≤ pg_mb_maxlen cs → pg_cs_stat st c cs ≤ pg_mb_maxlen cs
unfolding pg_cs_stat pg_mb_maxlen
pg_cs_stat-le-pg_mb_maxlen utf8 st c h = ground arith
pg_cs_stat-le-pg_mb_maxlen _ st c h = ground arith
