-- ===== src/Result/Cache/Cursor.antt =====
-- vxodbc/qresult.cc: `ncursors` of a connection counts the results with a cursor, and the text of a
-- result collects its messages in order.
use versaplex.Prelude.{
  ℕ, ◌+◌, if◌then◌else◌, false, [], ◌∷◌, ◌++◌, Option, none, some, Bytes, codes, ◌≡◌, refl, ap,
  arith, Bool-cases, inl, inr,
}
use mathlib.Core.List.{append_assoc}
use versaplex.Result.{QResult, has_cursor}
use versaplex.Result.Cache.{
  drop_cursor, qr_set_cursor, qr_close_result, qr_free_memory, qr_add_message, qr_add_notice,
  joined,
}

abbrev pub cursors : QResult → ℕ
cursors res = if has_cursor res then 1 else 0

-- Let the connection count `others` cursors and that of this result, if it has one. It counts them
-- so again after QR_set_cursor with a name or with none, and after QR_close_result, which leaves the
-- result with no cursor and no rows.
pub cursors-qr_set_cursor :
    (self : QResult) (others : ℕ) (name : Option Bytes)
    → ((qr_set_cursor self (some (others + cursors self)) name).1
        ≡ some (others + cursors (qr_set_cursor self (some (others + cursors self)) name).0))
      × ((qr_set_cursor self (some (others + cursors self)) name).0.cursor_name ≡ name)
      × ((qr_close_result self (some (others + cursors self))).1 ≡ some others)
      × (has_cursor (qr_close_result self (some (others + cursors self))).0 ≡ false)
unfolding qr_set_cursor drop_cursor qr_close_result qr_free_memory
cursors-qr_set_cursor self others none = elim (Bool-cases (has_cursor self)) [
  | inl t ↦ rw t (ap some (omega arith), refl, ap some (omega arith), refl)
  | inr f ↦ rw f (refl, refl, ap some (omega arith), refl)
]
cursors-qr_set_cursor self others (some name) = elim (Bool-cases (has_cursor self)) [
  | inl t ↦ rw t (ap some (omega arith), refl, ap some (omega arith), refl)
  | inr f ↦ rw f (ap some (omega arith), refl, ap some (omega arith), refl)
]

joined-joined :
    (m : Option Bytes) (a b : Bytes) (c d : ℕ)
    → joined (joined m (some (c ∷ a))) (some (d ∷ b))
      ≡ joined m (some ((c ∷ a) ++ (codes ";" ++ (d ∷ b))))
unfolding joined
joined-joined none a b c d = refl
joined-joined (some []) a b c d = refl
joined-joined (some (x ∷ m)) a b c d =
    ap (λ (t : Bytes). some (x ∷ t)) (append_assoc m (codes ";" ++ (c ∷ a)) (codes ";" ++ (d ∷ b)))

-- QR_add_message and QR_add_notice put a text behind what is there, with a `;` between, and leave a
-- text they are given twice as they would both texts in one.
pub qr_add_message-qr_add_message :
    (self : QResult) (a b : Bytes) (c d : ℕ)
    → ((qr_add_message (qr_add_message self (some (c ∷ a))) (some (d ∷ b))).message
        ≡ (qr_add_message self (some ((c ∷ a) ++ (codes ";" ++ (d ∷ b))))).message)
      × ((qr_add_notice (qr_add_notice self (some (c ∷ a))) (some (d ∷ b))).notice
          ≡ (qr_add_notice self (some ((c ∷ a) ++ (codes ";" ++ (d ∷ b))))).notice)
unfolding qr_add_message qr_add_notice
qr_add_message-qr_add_message self a b c d =
    (joined-joined self.message a b c d, joined-joined self.notice a b c d)
