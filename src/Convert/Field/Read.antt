-- ===== src/Convert/Field/Read.antt =====
-- Reading a value by several calls, each with a buffer of its own.
use mathlib.Core.Option
use mathlib.Core.List.{append-nil}
use versaplex.Prelude.{
  ℕ, zero, suc, ◌+◌, ◌-◌, ◌≤◌, ◌<◌, ◌≡◌, refl, sym, ap, ◌∙◌, inl, inr, Bool, List, [], ◌∷◌, ◌++◌,
  Option, none, some, Bytes, drop, length, length-drop, take-append-drop, drop-append, drop-drop,
  dec_lt, arith,
}
use versaplex.Prelude.Int.{pos}
use versaplex.Bindings.{GetData}
use versaplex.Convert.Field.Deliver.{Delivered, IsOver, deliver-last, deliver-part}
use versaplex.Convert.Field.{
  TextType, char_text, Copying, copied, fault, deliver, later_piece, no_data, piece_at, copy_text,
}

-- The data of a call, with what is read by the calls after it.
unfoldable pub then_read : Copying → (GetData → Option Bytes) → Option Bytes
then_read fault more = none
then_read (copied c) more = Option.map (λ rest. c.copied_data ++ rest) (more c.pgdc)

-- The data of a call for each size of a buffer, one behind the other.
unfoldable pub read_pieces :
    TextType → Bytes → (lf_conv : Bool) → GetData → (sizes : List ℕ) → Option Bytes
read_pieces type value lf g [] = some []
read_pieces type value lf g (cb ∷ sizes) =
    then_read (copy_text type value lf g cb) (λ after. read_pieces type value lf after sizes)

unfoldable pub AllSome : List ℕ → Type 0
AllSome [] = Unit
AllSome (cb ∷ sizes) = (1 ≤ cb) × AllSome sizes

-- The bytes of a text that the buffers hold, each with a terminator.
unfoldable pub total_room : List ℕ → ℕ
total_room [] = 0
total_room (cb ∷ sizes) = (cb - 1) + total_room sizes

-- Between two calls: `t` is left of what the buffer of the statement holds.
pub record IsReading (t : Bytes) (g : GetData) : Type 0 where
  pub buf : Bytes
  pub tail : Bytes
  pub is_held : g.ttlbuf ≡ some buf
  pub is_rest : drop (g.ttlbufused - length t) buf ≡ t ++ tail
  pub is_left : g.data_left ≡ pos (length t)
  pub has_slack : g.ttlbufused < g.ttlbuflen
  pub is_inside : length t ≤ g.ttlbufused

IsReading-cut :
    (t : Bytes) (g : GetData) (room : ℕ)
    → IsReading t g
    → room ≤ length t
    → IsReading (drop room t) (record g { data_left = pos (length t - room) })
IsReading-cut t g room r h =
    let short = length-drop room t in
    let moved : g.ttlbufused - length (drop room t) ≡ (g.ttlbufused - length t) + room =
      omega (arith, short, h, r.is_inside) in
    record {
      buf = r.buf;
      tail = r.tail;
      is_held = r.is_held;
      is_rest =
          ap (λ n. drop n r.buf) moved
          ∙ sym (drop-drop room (g.ttlbufused - length t) r.buf)
          ∙ ap (drop room) r.is_rest
          ∙ drop-append room t r.tail h;
      is_left = ap pos (sym short);
      has_slack = r.has_slack;
      is_inside = omega (arith, short, h, r.is_inside);
    }

-- With nothing left the calls read nothing more.
pub read_pieces-IsOver :
    (type : TextType) (value : Bytes) (lf : Bool) (g : GetData) (sizes : List ℕ)
    → IsOver g
    → AllSome sizes
    → read_pieces type value lf g sizes ≡ some []
unfolding read_pieces AllSome IsOver then_read copy_text piece_at no_data
read_pieces-IsOver type value lf g [] over room = refl
read_pieces-IsOver type value lf g (zero ∷ sizes) over room = absurd (omega (arith, room.0))
read_pieces-IsOver type value lf g (suc cb ∷ sizes) (inl none_left) room = rw none_left (
    ap (Option.map (λ rest. [] ++ rest))
      (read_pieces-IsOver type value lf _ sizes (inr refl) room.1))
read_pieces-IsOver type value lf g (suc cb ∷ sizes) (inr behind) room = rw behind (
    ap (Option.map (λ rest. [] ++ rest))
      (read_pieces-IsOver type value lf _ sizes (inr refl) room.1))

-- The call after the first one goes on where the buffer of the statement was left.
copy_text-later :
    (value : Bytes) (lf : Bool) (c : ℕ) (t : Bytes) (g : GetData) (cb : ℕ) (r : IsReading (c ∷ t) g)
    → copy_text char_text value lf g cb
      ≡ deliver char_text
          (some ((c ∷ t) ++ r.tail))
          (length (c ∷ t))
          (length (c ∷ t) + (g.ttlbuflen - g.ttlbufused))
          g
          cb
unfolding copy_text piece_at later_piece
copy_text-later value lf c t g cb r =
    ap (λ n. piece_at char_text value n lf g cb) r.is_left
    ∙ ap
        (λ (held : Option Bytes).
          deliver char_text
            (elim held [ none ↦ none | some buf ↦ some (drop (g.ttlbufused - length (c ∷ t)) buf) ])
            (length (c ∷ t)) (length (c ∷ t) + (g.ttlbuflen - g.ttlbufused)) g cb)
        r.is_held
    ∙ ap
        (λ rest.
          deliver char_text (some rest) (length (c ∷ t))
            (length (c ∷ t) + (g.ttlbuflen - g.ttlbufused)) g cb)
        r.is_rest

-- One call and those behind it
pub then_read-Delivered :
    {r : Copying} {piece : Bytes} {state : GetData → Type 0} (more : GetData → Option Bytes)
    (rest : Bytes)
    → (d : Delivered r piece state) → more d.outcome.pgdc ≡ some rest
    → then_read r more ≡ some (piece ++ rest)
unfolding then_read
then_read-Delivered more rest d next =
    ap (λ r. then_read r more) d.is_copied
    ∙ ap (Option.map (λ rest. d.outcome.copied_data ++ rest)) next
    ∙ ap (λ p. some (p ++ rest)) d.is_piece

-- One call that goes on from `t`, when the calls behind it read what it leaves.
pub then_read-deliver :
    (t : Bytes) (g : GetData) (n : ℕ) (more : GetData → Option Bytes) (room need : ℕ)
    → (r : IsReading t g) → length t ≤ n + room
    → length t < need
    → ((after : GetData) → IsOver after → more after ≡ some [])
    → ((rest : Bytes) (after : GetData)
        → IsReading rest after
        → length rest ≤ room
        → more after ≡ some rest)
    → then_read (deliver char_text (some (t ++ r.tail)) (length t) need g (suc n)) more ≡ some t
then_read-deliver t g n more room need r fits short over goes_on = elim (dec_lt n (length t)) [
  | yes p ↦
      let d = deliver-part t r.tail need g n p short in
      let next =
        goes_on (drop n t) _ (IsReading-cut t g n r (omega arith))
          (omega (arith, length-drop n t, fits)) in
      then_read-Delivered more (drop n t) d (ap more d.is_state ∙ next)
      ∙ ap some (take-append-drop n t)
  | no p ↦
      let d = deliver-last t r.tail need g n (omega arith) in
      then_read-Delivered more [] d (over _ d.is_state) ∙ ap some (append-nil t)
]

-- What is left is read by buffers that have room for it.
pub read_pieces-IsReading :
    (value : Bytes) (lf : Bool) (sizes : List ℕ) (t : Bytes) (g : GetData)
    → IsReading t g
    → AllSome sizes
    → length t ≤ total_room sizes
    → read_pieces char_text value lf g sizes ≡ some t
unfolding read_pieces AllSome total_room IsOver
read_pieces-IsReading value lf sizes [] g r room fits =
    read_pieces-IsOver char_text value lf g sizes (inl r.is_left) room
read_pieces-IsReading value lf [] (c ∷ t) g r room fits = absurd (omega (arith, fits))
read_pieces-IsReading value lf (zero ∷ sizes) (c ∷ t) g r room fits = absurd (omega (arith, room.0))
read_pieces-IsReading value lf (suc n ∷ sizes) (c ∷ t) g r room fits =
    let more = λ (after : GetData). read_pieces char_text value lf after sizes in
    ap (λ x. then_read x more) (copy_text-later value lf c t g (suc n) r)
    ∙ then_read-deliver (c ∷ t) g n more (total_room sizes) _ r (omega (arith, fits))
        (omega (arith, r.has_slack))
        (λ after over. read_pieces-IsOver char_text value lf after sizes over room.1)
        (λ rest after reading less.
          read_pieces-IsReading value lf sizes rest after reading room.1 less)
