-- ===== src/Convert/Field/Pieces.antt =====
-- The pieces of a value that SQLGetData hands out are the value.
use mathlib.Core.List.{append_assoc, append-nil}
use versaplex.Prelude.{
  ℕ, zero, suc, ◌+◌, ◌-◌, ◌≤◌, ◌<◌, ltb, ◌==◌, ◌≡◌, refl, sym, ap, ◌∙◌, inl, Bool, true, false,
  ◌||◌, List, [], ◌∷◌, ◌++◌, Option, none, some, Bytes, drop, length, arith, lt→ltb,
}
use versaplex.Prelude.Int.{pos, negsuc}
use versaplex.Bindings.{GetData}
use versaplex.Convert.Linefeeds.{Lines, put, linefeed_step, linefeeds_from, convert_linefeeds}
use versaplex.Convert.Linefeeds.Laws.{crlf_from, bare_from, convert_linefeeds-crlf_from, Lines-eq}
use versaplex.Convert.Linefeeds.Count.{convert_linefeeds_count}
use versaplex.Convert.Field.{
  TextType, char_text, Copied, copy_ok, copy_no_data, end_copy, later_piece, no_data, fault, copied,
  Measured, measure, measured_lines, convert_text, terminator, deliver, held_size, ttlbuf_size,
  from_ttlbuf, first_measured, first_piece, piece_at, copy_text,
}
use versaplex.Convert.Field.Deliver.{IsOver, deliver-last}
use versaplex.Convert.Field.Read.{
  then_read, read_pieces, AllSome, total_room, IsReading, then_read-Delivered, then_read-deliver,
  read_pieces-IsOver, read_pieces-IsReading,
}

-- The value as the application gets it, and whether it differs from the one of the server.
unfoldable pub shown : (lf_conv : Bool) → Bytes → Bytes
shown true v = crlf_from none v
shown false v = v

unfoldable pub changes : (lf_conv : Bool) → Bytes → Bool
changes true v = bare_from none v
changes false v = false

linefeeds_from_plain :
    (max : ℕ) (prev : Option ℕ) (s : Bytes) (l : Lines)
    → l.out + length s < max
    → linefeeds_from true false max prev s l
      ≡ record l { written = l.written ++ s; out = l.out + length s }
unfolding linefeeds_from linefeed_step put
linefeeds_from_plain max prev [] l h = Lines-eq (sym (append-nil l.written)) (omega arith) refl
linefeeds_from_plain max prev (c ∷ s) l h =
    let room : ltb l.out (max - 1) ≡ true = lt→ltb l.out (max - 1) (omega (arith, h)) in
    let step = record l { written = l.written ++ c ∷ []; out = l.out + 1 } in
    rw room (
      linefeeds_from_plain max (some c) s step (omega (arith, h))
      ∙ Lines-eq (append_assoc l.written (c ∷ []) s) (omega arith) refl)

-- What the conversion of line ends writes, and what it counts without a buffer.
convert_linefeeds-shown :
    (lf : Bool) (v : Bytes) (max : ℕ)
    → length (shown lf v) < max
    → convert_linefeeds v true max lf
      ≡ record { written = shown lf v ++ 0 ∷ []; out = length (shown lf v); changed = changes lf v }
unfolding shown changes convert_linefeeds
convert_linefeeds-shown true v max h = convert_linefeeds-crlf_from v max h
convert_linefeeds-shown false v max h =
    let some_room : (max == 0) ≡ false = ground arith in
    rw some_room (
      ap (λ (l : Lines). record l { written = l.written ++ 0 ∷ [] })
        (linefeeds_from_plain max none v (record { written = []; out = 0; changed = false })
            (omega (arith, h))
          ∙ Lines-eq refl (omega arith) refl))

unlimited :
    (lf : Bool) (v : Bytes) → convert_linefeeds v true 0 lf ≡ convert_linefeeds v true 0xffffffff lf
unfolding convert_linefeeds
unlimited lf v = refl

unchanged_from : (prev : Option ℕ) (s : Bytes) → bare_from prev s ≡ false → crlf_from prev s ≡ s
unchanged_from prev [] h = refl
unchanged_from prev (c ∷ s) h = ground (arith, unchanged_from (some c) s)

unchanged_shown : (lf : Bool) (v : Bytes) → changes lf v ≡ false → shown lf v ≡ v
unfolding shown changes
unchanged_shown true v h = unchanged_from none v h
unchanged_shown false v h = refl

measure-shown :
    (lf : Bool) (v : Bytes)
    → length (shown lf v) < 0xffffffff
    → measure char_text v lf
      ≡ some (record { len = length (shown lf v); is_changed = changes lf v })
unfolding measure measured_lines
measure-shown lf v h =
    let count = convert_linefeeds_count v 0 lf in
    let whole = unlimited lf v ∙ convert_linefeeds-shown lf v 0xffffffff h in
    let out = count.0 ∙ ap (λ (l : Lines). l.out) whole in
    let changed = count.1 ∙ ap (λ (l : Lines). l.changed) whole in
    λ i. some (record { len = out i; is_changed = changed i })

ttlbuf_size-room : (g : GetData) (need : ℕ) → need ≤ ttlbuf_size g need
unfolding ttlbuf_size
ttlbuf_size-room g need = ground arith

-- The state that the first piece is copied in, when the value goes through the buffer.
abbrev through_ttlbuf : GetData → (stored : Bytes) → (size len : ℕ) → GetData
through_ttlbuf g stored size len = record g {
  ttlbuf = some stored;
  ttlbuflen = size;
  ttlbufused = len;
  data_left = pos len;
}

abbrev through_ttlbuf-IsReading :
    (g : GetData) (t : Bytes) (size : ℕ)
    → length t < size
    → IsReading t (through_ttlbuf g (t ++ 0 ∷ []) size (length t))
through_ttlbuf-IsReading g t size room =
    let whole : length t - length t ≡ 0 = omega arith in
    record {
      buf = t ++ 0 ∷ [];
      tail = 0 ∷ [];
      is_held = refl;
      is_rest = ap (λ n. drop n (t ++ 0 ∷ [])) whole;
      is_left = refl;
      has_slack = room;
      is_inside = omega arith;
    }

convert_text-shown :
    (lf : Bool) (v : Bytes) (len size : ℕ)
    → length (shown lf v) < size
    → convert_text char_text v lf len size ≡ some (shown lf v ++ 0 ∷ [])
unfolding convert_text
convert_text-shown lf v len size room =
    ap (λ (l : Lines). some l.written) (convert_linefeeds-shown lf v size room)

-- The first call, which is followed by `sizes`; the third argument says whether the value goes
-- through the buffer of the statement.
first_measured-shown :
    (lf : Bool) (v : Bytes) (through : Bool) (g : GetData) (n : ℕ) (sizes : List ℕ)
    → (changes lf v || ltb (suc n) (length (shown lf v) + 1)) ≡ through
    → AllSome sizes
    → length (shown lf v) ≤ n + total_room sizes
    → then_read
        (first_measured char_text v lf
          (record { len = length (shown lf v); is_changed = changes lf v })
          g
          (suc n))
        (λ after. read_pieces char_text v lf after sizes)
      ≡ some (shown lf v)
unfolding first_measured from_ttlbuf terminator
first_measured-shown lf v true g n sizes through room fits =
    let t = shown lf v in
    let size = ttlbuf_size g (length t + 1) in
    let big : length t < size = omega (arith, ttlbuf_size-room g (length t + 1)) in
    let more = λ (after : GetData). read_pieces char_text v lf after sizes in
    rw through (
      ap (λ stored. then_read (from_ttlbuf char_text stored size (length t) g (suc n)) more)
        (convert_text-shown lf v (length t) size big)
      ∙ then_read-deliver t (through_ttlbuf g (t ++ 0 ∷ []) size (length t)) n more
          (total_room sizes) (length t + 1) (through_ttlbuf-IsReading g t size big) fits
          (omega arith) (λ after over. read_pieces-IsOver char_text v lf after sizes over room)
          (λ rest after reading less.
            read_pieces-IsReading v lf sizes rest after reading room less))
first_measured-shown lf v false g n sizes through room fits =
    let t = shown lf v in
    let same : t ≡ v = unchanged_shown lf v (ground arith) in
    let all : length t ≤ n = ground arith in
    let more = λ (after : GetData). read_pieces char_text v lf after sizes in
    let direct = record g {
      ttlbuf = none;
      ttlbuflen = held_size g.ttlbuf g.ttlbuflen;
      data_left = pos (length t);
    } in
    let d = deliver-last t [] (length t + 1) direct n all in
    rw through (
      ap
        (λ text.
          then_read (deliver char_text (some text) (length t) (length t + 1) direct (suc n)) more)
        (sym same ∙ sym (append-nil t))
      ∙ then_read-Delivered more [] d (read_pieces-IsOver char_text v lf _ sizes d.is_state room)
      ∙ ap some (append-nil t))

-- A text column that SQLGetData has not been asked for yet is read as SQL_C_CHAR by one call or
-- more, with buffers of any sizes from one byte on. Where the buffers, less a terminator in each, are together
-- as long as the value, the pieces one behind the other are the value, with its line ends
-- converted if the connection converts them; no call reads a byte that is not there. The converted
-- value is shorter than 2 ^ 32 - 1.
pub read_pieces-shown :
    (value : Bytes) (lf : Bool) (g : GetData) (sizes : List ℕ)
    → g.data_left ≡ negsuc 0
    → length (shown lf value) < 0xffffffff
    → AllSome sizes
    → 0 < length sizes
    → length (shown lf value) ≤ total_room sizes
    → read_pieces char_text value lf g sizes ≡ some (shown lf value)
unfolding read_pieces AllSome total_room copy_text piece_at first_piece
read_pieces-shown value lf g [] fresh short room some_call fits = absurd (omega (arith, some_call))
read_pieces-shown value lf g (zero ∷ sizes) fresh short room some_call fits =
    absurd (omega (arith, room.0))
read_pieces-shown value lf g (suc n ∷ sizes) fresh short room some_call fits =
    let more = λ (after : GetData). read_pieces char_text value lf after sizes in
    ap (λ left. then_read (piece_at char_text value left lf g (suc n)) more) fresh
    ∙ ap
        (λ (m : Option Measured).
          then_read
            (elim m [ none ↦ fault | some m ↦ first_measured char_text value lf m g (suc n) ]) more)
        (measure-shown lf value short)
    ∙ first_measured-shown lf value _ g n sizes refl room.1 (omega (arith, fits))

-- While something is left of a value, a call with a buffer of no bytes answers COPY_OK and the
-- length of what is left, and loses it: a next call with a buffer answers COPY_NO_DATA_FOUND and
-- stores neither data nor a length, and all the calls with a buffer that follow hand out nothing.
pub copy_text-no_data :
    (type : TextType) (value : Bytes) (lf : Bool) (g : GetData) (left n : ℕ) (sizes : List ℕ)
    → g.data_left ≡ pos (suc left)
    → AllSome sizes
    → (outcome : Copied) × (next : Copied) × (copy_text type value lf g 0 ≡ copied outcome)
      × (outcome.code ≡ copy_ok)
      × (outcome.length_or_ind ≡ some (suc left))
      × (copy_text type value lf outcome.pgdc (suc n) ≡ copied next)
      × (next.code ≡ copy_no_data)
      × (next.copied_data ≡ [])
      × (next.length_or_ind ≡ none)
      × (read_pieces type value lf outcome.pgdc sizes ≡ some [])
unfolding copy_text piece_at later_piece deliver end_copy no_data
copy_text-no_data type value lf g left n sizes h room = (
  _,
  _,
  ap (λ z. piece_at type value z lf g 0) h,
  refl,
  refl,
  refl,
  refl,
  refl,
  refl,
  read_pieces-IsOver type value lf _ sizes (unfold IsOver in inl refl) room,
)
