-- ===== src/Tests/Types.antt =====
-- vxodbc/pgtypes.cc at concrete inputs.
use versaplex.Prelude.{refl, true, false, none, some, arith}
use versaplex.Prelude.Int.{pos}
use versaplex.Types.{pg_type_varchar, Settings}
use versaplex.Types.Sizes.{
  SizeSettings, ResultColumn, as_max, pgtype_column_size, get_char_column_size, result_char_size,
}
use versaplex.Types.Lengths.{pgtype_transfer_octet_length, bytes_per_char}
use versaplex.Types.Lengths.Laws.{FitsIn, pgtype_column_size-transfer}

abbrev wide_build : Settings
wide_build = record {
  unicode_support = true;
  allow_wchar = true;
  unicode_driver = true;
  odbc3 = true;
  ms_jet = false;
  int8_as = none;
  bytea_as_longvarbinary = false;
  text_as_longvarchar = false;
}

abbrev narrow_sizes : SizeSettings
narrow_sizes = record {
  settings = record wide_build { unicode_driver = false };
  true_is_minus1 = false;
  lf_conversion = false;
  max_bytes = 4;
  wclen = 2;
  server_has_multibyte = true;
}

abbrev shown_column : ResultColumn
shown_column = record {
  atttypmod = pos 100;
  display_size = pos 40;
  fieldsize = none;
  catalog_result = false;
}

pgtype_column_size-transfer_example :
    FitsIn
      (pos 100)
      (pgtype_transfer_octet_length narrow_sizes pg_type_varchar as_max (some shown_column))
unfolding pgtype_column_size get_char_column_size result_char_size
pgtype_column_size-transfer_example =
    pgtype_column_size-transfer narrow_sizes pg_type_varchar as_max (some shown_column) 100 refl
      (omega arith) (omega arith) (omega arith) (unfold bytes_per_char in omega arith) refl
