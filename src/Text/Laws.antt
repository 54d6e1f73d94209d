-- ===== src/Text/Laws.antt =====
-- What the string helpers of vxodbc/misc.cc leave.
use Prim.Native.Nat.{min}
use mathlib.Core.List.{append-nil}
use versaplex.Prelude.{
  ℕ, zero, suc, ◌+◌, ◌<◌, ltb, ◌==◌, if◌then◌else◌, true, false, [], ◌∷◌, ◌++◌, none, some, Bytes,
  length, take, get_or, replicate, ◌≡◌, refl, ap, ◌∙◌, arith, length-append, length-replicate,
  length-take,
}
use versaplex.Text.{
  Len, copy_loop, copy_bounded, strncpy_null, text_length, place, made, make_string, trimmed,
  underrun, trim_from, trim,
}

copy_loop-take : (s : Bytes) (n : ℕ) → copy_loop s n ≡ take n s
unfolding copy_loop
copy_loop-take [] zero = refl
copy_loop-take [] (suc n) = refl
copy_loop-take (c ∷ s) zero = refl
copy_loop-take (c ∷ s) (suc n) = ap (◌∷◌ c) (copy_loop-take s n)

copy_bounded-take : (s : Bytes) (n : ℕ) → copy_bounded s (n + 1) ≡ some (take n s)
unfolding copy_bounded
copy_bounded-take s n = let e : n + 1 ≡ suc n = omega arith in rw e (ap some (copy_loop-take s n))

-- A length that is valid gives a new string of that many bytes of the text, and into a buffer of
-- `suc size` bytes as many of them as leave room for the terminator.
pub make_string-take :
    (s : Bytes) (len : Len) (n size : ℕ)
    → text_length s len ≡ some n
    → (make_string (some s) len none ≡ made (take n s))
      × (make_string (some s) len (some (suc size)) ≡ made (take (min n size) s))
      × (length (take (min n size) s) < suc size)
unfolding make_string place strncpy_null
make_string-take s len n size e =
    let new = copy_bounded-take s n in
    let limit : (if ltb n (suc size) then n + 1 else suc size) ≡ min n size + 1 = ground arith in
    (
      rw e (rw new refl),
      rw e (rw limit (rw (copy_bounded-take s (min n size)) refl)),
      omega (arith, length-take (min n size) s),
    )

abbrev pub blanks : ℕ → Bytes
blanks n = replicate n b' '

length-blanks : (n : ℕ) → length (blanks n) ≡ n
length-blanks n = length-replicate {A = ℕ} n b' '

get_or-spaces : (n : ℕ) → get_or (blanks (suc n)) n 0 ≡ b' '
get_or-spaces zero = refl
get_or-spaces (suc n) = get_or-spaces n

take-spaces : (n : ℕ) → take n (blanks (suc n)) ≡ blanks n
take-spaces zero = refl
take-spaces (suc n) = ap (◌∷◌ b' ') (take-spaces n)

get_or-append_spaces : (t : Bytes) (n : ℕ) → get_or (t ++ blanks (suc n)) (length t + n) 0 ≡ b' '
get_or-append_spaces [] n = let e : 0 + n ≡ n = omega arith in rw e (get_or-spaces n)
get_or-append_spaces (c ∷ t) n =
    let e : length (c ∷ t) + n ≡ suc (length t + n) = omega arith in rw e (get_or-append_spaces t n)

take-append_spaces : (t : Bytes) (n : ℕ) → take (length t + n) (t ++ blanks (suc n)) ≡ t ++ blanks n
take-append_spaces [] n = let e : 0 + n ≡ n = omega arith in rw e (take-spaces n)
take-append_spaces (c ∷ t) n =
    let e : length (c ∷ t) + n ≡ suc (length t + n) = omega arith in
    rw e (ap (◌∷◌ c) (take-append_spaces t n))

trim_from_spaces :
    (n : ℕ) (t : Bytes) → trim_from (t ++ blanks n) (length t + n) ≡ trim_from t (length t)
unfolding trim_from
trim_from_spaces zero t =
    let e : length t + 0 ≡ length t = omega arith in rw e (rw (append-nil t) refl)
trim_from_spaces (suc n) t =
    let e : length t + suc n ≡ suc (length t + n) = omega arith in
    let blank : (get_or (t ++ blanks (suc n)) (length t + n) 0 == b' ') ≡ true =
      rw (get_or-append_spaces t n) refl in
    rw e (rw blank (rw (take-append_spaces t n) (trim_from_spaces n t)))

get_or-append_last : (t : Bytes) (c : ℕ) → get_or (t ++ c ∷ []) (length t) 0 ≡ c
get_or-append_last [] c = refl
get_or-append_last (d ∷ t) c = get_or-append_last t c

-- Blanks behind the last other byte are cut off; a text with no other byte, the empty text among
-- them, is read outside.
pub trim_lem :
    (t : Bytes) (c n : ℕ)
    → (c == b' ') ≡ false
    → (trim (t ++ c ∷ [] ++ blanks n) ≡ trimmed (t ++ c ∷ [])) × (trim (blanks n) ≡ underrun)
unfolding trim
trim_lem t c n h =
    let s = t ++ c ∷ [] in
    let last : length s ≡ suc (length t) = omega (arith, length-append t (c ∷ [])) in
    let kept : (get_or s (length t) 0 == b' ') ≡ false = rw (get_or-append_last t c) h in
    let cut = trim_from_spaces n s in
    let sized : length (s ++ blanks n) ≡ length s + n =
      length-append s (blanks n) ∙ ap (λ k. length s + k) (length-blanks n) in
    let stop : trim_from s (length s) ≡ trimmed s = rw last (unfold trim_from in rw kept refl) in
    let none_left = trim_from_spaces n [] in
    let blank : length (blanks n) ≡ 0 + n = omega (arith, length-blanks n) in
    (rw sized (cut ∙ stop), rw blank (none_left ∙ unfold trim_from in refl))
