-- ===== src/Tests/Field.antt =====
-- The pieces of a column at concrete inputs.
use versaplex.Prelude.{◌≡◌, refl, arith, true, false, none, some, [], ◌∷◌, codes}
use versaplex.Prelude.Int.{pos, negsuc}
use versaplex.Bindings.{GetData}
use versaplex.Convert.Linefeeds.{convert_linefeeds, linefeeds_from, linefeed_step, put}
use versaplex.Convert.Field.{
  char_text, binary_text, copied, copy_ok, copy_no_data, copy_text, piece_at, first_piece,
  first_measured, measure, measured_lines, convert_text, ttlbuf_size, held_size, from_ttlbuf,
  terminator, deliver, copy_length, end_copy, later_piece, no_data, Copied,
}
use versaplex.Convert.Field.Read.{read_pieces, then_read, AllSome, total_room}
use versaplex.Convert.Field.Pieces.{shown, read_pieces-shown, copy_text-no_data}

abbrev unread : GetData
unread = record { ttlbuf = none; ttlbuflen = 0; ttlbufused = 0; data_left = negsuc 0 }

-- "ab" is left of "cab" and its terminator.
abbrev half_read : GetData
half_read = record {
  ttlbuf = some (codes "cab\0");
  ttlbuflen = 4;
  ttlbufused = 3;
  data_left = pos 2;
}

read_pieces-shown_example :
    read_pieces char_text (codes "x\ny") true unread (3 ∷ 1 ∷ 9 ∷ []) ≡ some (codes "x\r\ny")
unfolding shown AllSome total_room
read_pieces-shown_example =
    read_pieces-shown (codes "x\ny") true unread (3 ∷ 1 ∷ 9 ∷ []) refl (omega arith)
      (omega arith, (omega arith, (omega arith, tt))) (omega arith) (omega arith)

copy_text-no_data_example :
    (outcome : Copied) × (next : Copied) × (copy_text char_text (codes "cab") false half_read 0
      ≡ copied outcome)
    × (outcome.code ≡ copy_ok)
    × (outcome.length_or_ind ≡ some 2)
    × (copy_text char_text (codes "cab") false outcome.pgdc 8 ≡ copied next)
    × (next.code ≡ copy_no_data)
    × (next.copied_data ≡ [])
    × (next.length_or_ind ≡ none)
    × (read_pieces char_text (codes "cab") false outcome.pgdc (3 ∷ 9 ∷ []) ≡ some [])
unfolding AllSome
copy_text-no_data_example =
    copy_text-no_data char_text (codes "cab") false half_read 1 7 (3 ∷ 9 ∷ []) refl
      (omega arith, (omega arith, tt))

-- As SQL_C_BINARY the last byte of a text that does not fit is lost.
binary_last : read_pieces binary_text (codes "ab") false unread (1 ∷ 1 ∷ []) ≡ some (b'a' ∷ 0 ∷ [])
unfolding read_pieces then_read copy_text piece_at first_piece first_measured measure measured_lines
    convert_text ttlbuf_size held_size from_ttlbuf terminator deliver copy_length end_copy
    later_piece convert_linefeeds linefeeds_from linefeed_step put no_data
binary_last = refl
