-- ===== src/Multibyte/ClientEncoding/Laws.antt =====
-- What `check_client_encoding` (vxodbc/multibyte.cc) finds, and where it leaves the string.
use versaplex.Prelude.{
  ℕ, suc, ◌==◌, Bool, true, false, not, [], ◌∷◌, ◌++◌, none, some, Bytes, codes, is_space, length,
  ◌≡◌, ◌∙◌, ap, refl, arith,
}
use versaplex.Multibyte.ClientEncoding.{
  Moved, Scanner, body, at_step, take_value, done, overrun, until, scan, start,
  check_client_encoding, literal_quote,
}

-- Every byte of a text has a property.
abbrev pub AllBytes : (ℕ → Bool) → Bytes → Type 0
AllBytes p [] = Unit
AllBytes p (c ∷ s) = (p c ≡ true) × AllBytes p s

abbrev at : ℕ → Scanner
at n = record { allowed_cmd = true; in_quote = false; step = n; value = none }

scan-spaces :
    (n : ℕ) (w rest : Bytes) → AllBytes is_space w → scan (at n) 0 (w ++ rest) ≡ scan (at n) 0 rest
unfolding scan is_space
scan-spaces n [] rest h = refl
scan-spaces n (c ∷ w) rest h = ground (arith, scan-spaces n w rest h.1)

scan-set : (x : ℕ) (rest : Bytes) → scan (at 0) 0 (codes "set" ++ (x ∷ rest)) ≡ scan (at 1) 0 rest
unfolding scan
scan-set x rest = refl

scan-client_encoding :
    (x : ℕ) (rest : Bytes)
    → scan (at 1) 0 (codes "client_encoding" ++ (x ∷ rest)) ≡ scan (at 2) 0 rest
unfolding scan
scan-client_encoding x rest = refl

scan-to : (x : ℕ) (rest : Bytes) → scan (at 2) 0 (codes "to" ++ (x ∷ rest)) ≡ scan (at 3) 0 rest
unfolding scan
scan-to x rest = refl

-- The keywords, each with a space and further white space behind it.
abbrev pub set_encoding : Bytes → Bytes → Bytes → Bytes → Bytes
set_encoding w v u value =
    codes "set"
    ++ (b' '
        ∷ (w ++ (codes "client_encoding" ++ (b' ' ∷ (v ++ (codes "to" ++ (b' ' ∷ (u ++ value))))))))

scan-set_encoding :
    (w v u value : Bytes)
    → AllBytes is_space w
    → AllBytes is_space v
    → AllBytes is_space u
    → check_client_encoding (set_encoding w v u value) ≡ scan (at 3) 0 value
unfolding check_client_encoding
scan-set_encoding w v u value hw hv hu =
    let third = u ++ value in
    let second = codes "to" ++ (b' ' ∷ third) in
    let first = codes "client_encoding" ++ (b' ' ∷ (v ++ second)) in
    scan-set b' ' (w ++ first)
    ∙ scan-spaces 1 w first hw
    ∙ scan-client_encoding b' ' (v ++ second)
    ∙ scan-spaces 2 v second hv
    ∙ scan-to b' ' third
    ∙ scan-spaces 3 u value hu

abbrev pub not_quote : ℕ → Bool
not_quote c = not (c == literal_quote)

abbrev pub not_space : ℕ → Bool
not_space c = not (is_space c)

abbrev pub not_semicolon : ℕ → Bool
not_semicolon c = not (c == b';')

until-append :
    (ends : ℕ → Bool) (v : Bytes) (x : ℕ) (tail : Bytes)
    → AllBytes (λ c. not (ends c)) v
    → ends x ≡ true
    → until ends (v ++ x ∷ tail) ≡ v
unfolding until
until-append ends [] x tail h e = ground (arith, e)
until-append ends (c ∷ v) x tail h e = ground (arith, until-append ends v x tail h.1 e)

until_all : (ends : ℕ → Bool) (v : Bytes) → AllBytes (λ c. not (ends c)) v → until ends v ≡ v
unfolding until
until_all ends [] h = refl
until_all ends (c ∷ v) h = ground (arith, until_all ends v h.1)

scan_past :
    (p : Scanner) (v : Bytes) (x : ℕ) (tail : Bytes)
    → scan p (suc (length v)) (v ++ x ∷ tail) ≡ scan p 0 tail
unfolding scan
scan_past p [] x tail = refl
scan_past p (c ∷ v) x tail = scan_past p v x tail

scan_past_end : (p : Scanner) (v : Bytes) → scan p (suc (length v)) v ≡ overrun
unfolding scan
scan_past_end p [] = refl
scan_past_end p (c ∷ v) = scan_past_end p v

-- After the value nothing changes up to a semicolon.
scan_behind :
    (enc tail : Bytes)
    → AllBytes not_semicolon tail
    → scan (record start { step = 4; value = some enc }) 0 tail ≡ done (some enc)
unfolding scan
scan_behind enc [] h = refl
scan_behind enc (c ∷ tail) h = ground (arith, scan_behind enc tail h.1)

-- A first byte of a plain value.
abbrev pub IsFirst : ℕ → Type 0
IsFirst c = (not_quote c ≡ true) × (not_semicolon c ≡ true) × (not_space c ≡ true)

-- What the body does at a value that stops `n` bytes on.
abbrev found : Bytes → ℕ → Moved
found enc n = record { scanner = record start { step = 4; value = some enc }; skip = n }

body_quoted :
    (enc s : Bytes)
    → until (λ b. b == literal_quote) s ≡ enc
    → body (at 3) literal_quote s ≡ found enc (suc (length enc))
unfolding body at_step take_value is_space
body_quoted enc s h = rw h

body_plain :
    (c : ℕ) (enc s : Bytes)
    → IsFirst c
    → until is_space (c ∷ s) ≡ enc
    → body (at 3) c s ≡ found enc (length enc)
unfolding body at_step take_value
body_plain c enc s f h = ground (arith, h)

scan-found :
    (c : ℕ) (s enc : Bytes) (n : ℕ)
    → body (at 3) c s ≡ found enc n
    → scan (at 3) 0 (c ∷ s) ≡ scan (record start { step = 4; value = some enc }) n s
unfolding scan
scan-found c s enc n e = ap (λ m. scan m.scanner m.skip s) e

module _ (w v u : Bytes) (hw : AllBytes is_space w) (hv : AllBytes is_space v)
    (hu : AllBytes is_space u) where
  -- A quoted value is found, if no semicolon stands behind it.
  pub check_client_encoding_quoted :
      (enc tail : Bytes)
      → AllBytes not_quote enc
      → AllBytes not_semicolon tail
      → check_client_encoding (set_encoding w v u (literal_quote ∷ (enc ++ literal_quote ∷ tail)))
        ≡ done (some enc)
  check_client_encoding_quoted enc tail h t =
      let s = enc ++ literal_quote ∷ tail in
      let e = until-append (λ b. b == literal_quote) enc literal_quote tail h refl in
      scan-set_encoding w v u (literal_quote ∷ s) hw hv hu
      ∙ scan-found literal_quote s enc (suc (length enc)) (body_quoted enc s e)
      ∙ scan_past (record start { step = 4; value = some enc }) enc literal_quote tail
      ∙ scan_behind enc tail t

  -- A plain value goes up to the next white space, a semicolon included, if no semicolon stands
  -- behind that space.
  pub check_client_encoding_plain :
      (c : ℕ) (enc : Bytes) (x : ℕ) (tail : Bytes)
      → IsFirst c
      → AllBytes not_space enc
      → is_space x ≡ true
      → AllBytes not_semicolon tail
      → check_client_encoding (set_encoding w v u (c ∷ (enc ++ x ∷ tail))) ≡ done (some (c ∷ enc))
  check_client_encoding_plain c enc x tail f h e t =
      let s = enc ++ x ∷ tail in
      let value = c ∷ enc in
      let found_at = until-append is_space value x tail (f.2, h) e in
      scan-set_encoding w v u (c ∷ s) hw hv hu
      ∙ scan-found c s value (length value) (body_plain c value s f found_at)
      ∙ scan_past (record start { step = 4; value = some value }) enc x tail
      ∙ scan_behind value tail t

  -- A plain value at the end of the settings makes the scan pass the terminator.
  pub check_client_encoding_overrun :
      (c : ℕ) (enc : Bytes)
      → IsFirst c
      → AllBytes not_space enc
      → check_client_encoding (set_encoding w v u (c ∷ enc)) ≡ overrun
  check_client_encoding_overrun c enc f h =
      let value = c ∷ enc in
      let found_at = until_all is_space value (f.2, h) in
      scan-set_encoding w v u value hw hv hu
      ∙ scan-found c enc value (length value) (body_plain c value enc f found_at)
      ∙ scan_past_end (record start { step = 4; value = some value }) enc
