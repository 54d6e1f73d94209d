-- ===== src/Tests/Text.antt =====
-- vxodbc/misc.cc at concrete inputs.
use versaplex.Prelude.{◌≡◌, refl, codes}
use versaplex.Text.{remove_newlines}

joins_lines : remove_newlines (codes "a\r\nb") ≡ codes "a  b"
unfolding remove_newlines
joins_lines = refl
