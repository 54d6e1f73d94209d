-- ===== src/Convert/Field/Deliver.antt =====
-- What one call of `deliver` copies of a text, and what it leaves (vxodbc/convert.cc,
-- copy_and_convert_field).
use versaplex.Prelude.{
  ℕ, suc, ◌-◌, ◌≤◌, ◌<◌, ltb, leb, ◌≡◌, refl, ap, ◌∙◌, ◌⊎◌, inl, Bool, true, false, ◌++◌, some,
  Bytes, take, length, take-append, take-length, arith,
}
use versaplex.Prelude.Int.{pos, negsuc}
use versaplex.Bindings.{GetData}
use versaplex.Convert.Field.{char_text, Copied, Copying, copied, end_copy, deliver, copy_length}

-- A call that goes on from `ptr`: what it copies, and what it leaves of the value.
pub record Delivered (r : Copying) (piece : Bytes) (state : GetData → Type 0) : Type 0 where
  pub outcome : Copied
  pub is_copied : r ≡ copied outcome
  pub is_piece : outcome.copied_data ≡ piece
  pub is_state : state outcome.pgdc

-- Nothing is left: the next call finds no data.
unfoldable pub IsOver : GetData → Type 0
IsOver g = (g.data_left ≡ pos 0) ⊎ (g.data_left ≡ negsuc 1)

end_copy-IsOver :
    (truncated : Bool) (c : Copied) → c.pgdc.data_left ≡ pos 0 → IsOver (end_copy truncated c).pgdc
unfolding IsOver end_copy
end_copy-IsOver true c h = inl h
end_copy-IsOver false c h = inl refl

end_copy-copied_data :
    (truncated : Bool) (c : Copied) → (end_copy truncated c).copied_data ≡ c.copied_data
unfolding end_copy
end_copy-copied_data true c = refl
end_copy-copied_data false c = refl

-- The buffer has room for all that is left.
pub deliver-last :
    (t tail : Bytes) (needbuflen : ℕ) (g : GetData) (room : ℕ)
    → length t ≤ room
    → Delivered (deliver char_text (some (t ++ tail)) (length t) needbuflen g (suc room)) t IsOver
unfolding deliver copy_length
deliver-last t tail needbuflen g room h =
    let fits : leb (suc room) (length t) ≡ false = ground arith in
    let all : copy_length char_text (length t) (suc room) ≡ length t = rw fits refl in
    let nothing : length t - copy_length char_text (length t) (suc room) ≡ 0 = omega (arith, all) in
    record {
      outcome = _;
      is_copied = refl;
      is_piece =
          end_copy-copied_data (ltb (suc room) needbuflen) _
          ∙ ap (λ n. take n (t ++ tail)) all
          ∙ take-length t tail;
      is_state = end_copy-IsOver (ltb (suc room) needbuflen) _ (ap pos nothing);
    }

end_copy_cut :
    (truncated : Bool) (c : Copied) → truncated ≡ true → (end_copy truncated c).pgdc ≡ c.pgdc
unfolding end_copy
end_copy_cut true c h = refl
end_copy_cut false c h = absurd (ground arith)

-- The buffer has no room for all that is left and the terminator.
pub deliver-part :
    (t tail : Bytes) (needbuflen : ℕ) (g : GetData) (room : ℕ)
    → room < length t
    → length t < needbuflen
    → Delivered
        (deliver char_text (some (t ++ tail)) (length t) needbuflen g (suc room))
        (take room t)
        (λ after. after ≡ record g { data_left = pos (length t - room) })
unfolding deliver copy_length
deliver-part t tail needbuflen g room h need =
    let full : leb (suc room) (length t) ≡ true = ground arith in
    let part : copy_length char_text (length t) (suc room) ≡ room = rw full (omega arith) in
    let cut : ltb (suc room) needbuflen ≡ true = ground arith in
    record {
      outcome = _;
      is_copied = refl;
      is_piece =
          end_copy-copied_data (ltb (suc room) needbuflen) _
          ∙ ap (λ n. take n (t ++ tail)) part
          ∙ take-append room t tail (omega arith);
      is_state =
          end_copy_cut (ltb (suc room) needbuflen) _ cut
          ∙ ap (λ n. record g { data_left = pos (length t - n) }) part;
    }
