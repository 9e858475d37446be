-- ===== src/Convert/Tests.antt =====
-- Runs of to_string.go, and the round trip through the SQL decoder at a field.
use hggutils.Common.{ℕ, ◌≡◌, refl, true, [], ◌∷◌, arith}
use hggutils.Common.Int.{negsuc}
use hggutils.Common.Text.{Text, codes, text_beq, to_lower, split}
use hggutils.Common.Dict.{Dict, find}
use hggutils.Rpc.Message.{bad_number, Result, ok, err}
use hggutils.Sql.{int_kind, Field, int_value, int_bits, field_key, decode_field, tag_get}
use hggutils.Convert.{
  string, boolean, integer, pointer, digits, format_uint, format_int, to_string, to_upper,
  to_upper_string,
}
use hggutils.Convert.Decoding.{decode_field-to_string}

abbrev no_float : ℕ → Text
no_float f = []

abbrev bad_float : Text → Result ℕ
bad_float s = err bad_number

convert_run : Unit {0}
unfolding to_string format_int format_uint digits to_upper_string to_upper int_bits field_key
    tag_get split to_lower text_beq find
convert_run = tt

number_run : to_string no_float (integer (negsuc 119)) ≡ codes "-120"
unfolding convert_run
number_run = refl

-- One pointer is followed, and no more.
pointer_run : to_string no_float (pointer (boolean true)) ≡ codes "true"
unfolding convert_run
pointer_run = refl

pointers_run : to_string no_float (pointer (pointer (boolean true))) ≡ []
unfolding convert_run
pointers_run = refl

upper_run : to_upper_string no_float (string (codes "aZ1")) ≡ codes "AZ1"
unfolding convert_run
upper_run = refl

abbrev age : Field
age = record {
  name = codes "Age";
  tags = (codes "col", codes "years") ∷ [];
  kind = int_kind 8;
  can_set = true;
}

abbrev row : Dict Text Text
row = (codes "years", codes "-120") ∷ []

decode_field-to_string_example :
    decode_field bad_float (codes "col") row age (int_value 0) ≡ ok (int_value 136)
unfolding convert_run
decode_field-to_string_example =
    decode_field-to_string no_float bad_float (codes "col") row age (codes "years")
      (integer (negsuc 119)) (int_value 0) (int_value 136) refl refl refl (omega arith, refl)
