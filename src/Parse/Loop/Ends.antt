-- ===== src/Parse/Loop/Ends.antt =====
-- The loop of parse_statement ends, and by a regular end.
use versaplex.Parse.Loop.{Parsed, ended, failed, bad_access, no_fuel}
use versaplex.Parse.Loop.Indexed.{IsIndexed}

-- The loop was left at its end, by `break` or by `goto cleanup`, with fields and tables in which the
-- current ones exist.
unfoldable pub Completes : Parsed → Type 0
Completes (ended s) = IsIndexed s
Completes (failed s) = IsIndexed s
Completes bad_access = ⊥
Completes no_fuel = ⊥
