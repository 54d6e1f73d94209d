-- ===== src/Prelude/Chars.antt =====
-- C strings as the list of the bytes before the terminator, and the parts of <ctype.h> and
-- <string.h> that the driver uses, in the C locale.
use Prim.Native.Char.{code}
use Prim.Native.Nat.{ℕ, ◌+◌}
use Prim.Native.String.{String}
use mathlib.Core.Bool.{Bool, true, false, ◌&&◌, ◌||◌}
use mathlib.Core.List.{List, [], ◌∷◌}
use versaplex.Prelude.Tests.{leb, ◌==◌, if◌then◌else◌}

abbrev pub Bytes : Type 0
Bytes = List ℕ

-- The code points of an ASCII text.
abbrev pub codes : String → Bytes
codes String.[] = []
codes (String.◌∷◌ c s) = code c ∷ codes s

abbrev pub within : ℕ → ℕ → ℕ → Bool
within lo hi c = leb lo c && leb c hi

-- isspace: tab, newline, vertical tab, form feed, carriage return, blank
unfoldable pub is_space : ℕ → Bool
is_space c = within 9 13 c || c == b' '

unfoldable pub to_lower : ℕ → ℕ
to_lower c = if within b'A' b'Z' c then c + 32 else c

unfoldable pub is_alnum : ℕ → Bool
unfolding to_lower
is_alnum c = within b'0' b'9' c || within b'a' b'z' (to_lower c)

-- stricmp (a, b) == 0
unfoldable pub eq_ignore_case : Bytes → Bytes → Bool
unfolding to_lower
eq_ignore_case [] [] = true
eq_ignore_case (a ∷ s) (b ∷ t) = to_lower a == to_lower b && eq_ignore_case s t
eq_ignore_case [] (b ∷ t) = false
eq_ignore_case (a ∷ s) [] = false

-- strnicmp (s, word, strlen (word)) == 0
unfoldable pub starts_ignore_case : Bytes → Bytes → Bool
unfolding to_lower
starts_ignore_case s [] = true
starts_ignore_case [] (w ∷ ws) = false
starts_ignore_case (c ∷ s) (w ∷ ws) = to_lower c == to_lower w && starts_ignore_case s ws
