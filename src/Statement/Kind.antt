-- ===== src/Statement/Kind.antt =====
-- vxodbc/statement.cc: statement_type, which reads the kind of a statement off its first word.
use mathlib.Core.Bool.{true≢false}
use versaplex.Prelude.{
  ℕ, if◌then◌else◌, Bool, true, false, ◌==◌, ◌||◌, List, [], ◌∷◌, ◌++◌, map, Bytes, codes, is_space,
  to_lower, starts_ignore_case, ◌≡◌, refl, sym, arith, Bool-cases, inl, inr,
}

pub data StmtType : Type 0 where
  stmt_other stmt_select stmt_insert stmt_update stmt_delete stmt_proccall stmt_set : StmtType
  stmt_reset stmt_create stmt_declare stmt_fetch stmt_move stmt_close stmt_prepare : StmtType
  stmt_execute stmt_deallocate stmt_drop stmt_start stmt_transaction stmt_lock stmt_alter : StmtType
  stmt_grant stmt_revoke stmt_copy stmt_analyze stmt_notify stmt_explain stmt_special : StmtType

abbrev pub statement_types : List (StmtType × Bytes)
statement_types =
    (stmt_select, codes "SELECT")
    ∷ (stmt_insert, codes "INSERT")
    ∷ (stmt_update, codes "UPDATE")
    ∷ (stmt_delete, codes "DELETE")
    ∷ (stmt_proccall, codes "{")
    ∷ (stmt_set, codes "SET")
    ∷ (stmt_reset, codes "RESET")
    ∷ (stmt_create, codes "CREATE")
    ∷ (stmt_declare, codes "DECLARE")
    ∷ (stmt_fetch, codes "FETCH")
    ∷ (stmt_move, codes "MOVE")
    ∷ (stmt_close, codes "CLOSE")
    ∷ (stmt_prepare, codes "PREPARE")
    ∷ (stmt_execute, codes "EXECUTE")
    ∷ (stmt_deallocate, codes "DEALLOCATE")
    ∷ (stmt_drop, codes "DROP")
    ∷ (stmt_start, codes "BEGIN")
    ∷ (stmt_start, codes "START")
    ∷ (stmt_transaction, codes "SAVEPOINT")
    ∷ (stmt_transaction, codes "RELEASE")
    ∷ (stmt_transaction, codes "COMMIT")
    ∷ (stmt_transaction, codes "END")
    ∷ (stmt_transaction, codes "ROLLBACK")
    ∷ (stmt_transaction, codes "ABORT")
    ∷ (stmt_lock, codes "LOCK")
    ∷ (stmt_alter, codes "ALTER")
    ∷ (stmt_grant, codes "GRANT")
    ∷ (stmt_revoke, codes "REVOKE")
    ∷ (stmt_copy, codes "COPY")
    ∷ (stmt_analyze, codes "ANALYZE")
    ∷ (stmt_notify, codes "NOTIFY")
    ∷ (stmt_explain, codes "EXPLAIN")
    ∷ (stmt_special, codes "VACUUM")
    ∷ (stmt_special, codes "REINDEX")
    ∷ (stmt_special, codes "CLUSTER")
    ∷ (stmt_special, codes "CHECKPOINT")
    ∷ []

abbrev pub is_leading : ℕ → Bool
is_leading c = is_space c || c == b'('

unfoldable pub without_leading : Bytes → Bytes
without_leading [] = []
without_leading (c ∷ s) = let rest = without_leading s in if is_leading c then rest else c ∷ s

unfoldable pub first_type : List (StmtType × Bytes) → Bytes → StmtType
first_type [] s = stmt_other
first_type ((t, word) ∷ table) s =
    let rest = first_type table s in if starts_ignore_case s word then t else rest

unfoldable pub statement_type : Bytes → StmtType
unfolding without_leading first_type
statement_type s = first_type statement_types (without_leading s)

unfoldable pub all_leading : Bytes → Bool
all_leading [] = true
all_leading (c ∷ s) = let rest = all_leading s in if is_leading c then rest else false

to_lower-to_lower : (c : ℕ) → to_lower (to_lower c) ≡ to_lower c
unfolding to_lower
to_lower-to_lower c = ground arith

is_leading-to_lower : (c : ℕ) → is_leading (to_lower c) ≡ is_leading c
unfolding to_lower is_space
is_leading-to_lower c = ground arith

starts_ignore_case-map :
    (s word : Bytes) → starts_ignore_case (map to_lower s) word ≡ starts_ignore_case s word
unfolding starts_ignore_case
starts_ignore_case-map [] [] = refl
starts_ignore_case-map [] (w ∷ word) = refl
starts_ignore_case-map (c ∷ s) [] = refl
starts_ignore_case-map (c ∷ s) (w ∷ word) =
    simp (starts_ignore_case-map s word, to_lower-to_lower c)

first_type-map :
    (table : List (StmtType × Bytes)) (s : Bytes)
    → first_type table (map to_lower s) ≡ first_type table s
unfolding first_type
first_type-map [] s = refl
first_type-map ((t, word) ∷ table) s = simp (first_type-map table s, starts_ignore_case-map s word)

without_leading-map :
    (s : Bytes) → without_leading (map to_lower s) ≡ map to_lower (without_leading s)
unfolding without_leading
without_leading-map [] = refl
without_leading-map (c ∷ s) = elim (Bool-cases (is_leading c)) [
  | inl t ↦ rw (is_leading-to_lower c) (rw t (without_leading-map s))
  | inr f ↦ rw (is_leading-to_lower c) (rw f refl)
]

without_leading-append :
    (lead s : Bytes) → all_leading lead ≡ true → without_leading (lead ++ s) ≡ without_leading s
unfolding without_leading all_leading
without_leading-append [] s h = refl
without_leading-append (c ∷ lead) s h = elim (Bool-cases (is_leading c)) [
  | inl t ↦ rw t (without_leading-append lead s (rw t at h))
  | inr f ↦ absurd (true≢false (sym (rw f at h)))
]

-- White space and opening parentheses before a statement, and the case of its letters, make no
-- difference to its type.
pub statement_type-map-to_lower :
    (lead s : Bytes)
    → all_leading lead ≡ true
    → statement_type (lead ++ map to_lower s) ≡ statement_type s
unfolding statement_type
statement_type-map-to_lower lead s h =
    rw (without_leading-append lead (map to_lower s) h)
      (rw (without_leading-map s) (first_type-map statement_types (without_leading s)))
