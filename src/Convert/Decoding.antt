-- ===== src/Convert/Decoding.antt =====
-- The text that ToString makes of a value, as a column of a row, is decoded to that value again
-- (to_string.go and sql_unmarshal.go).
use hggutils.Common.{
  ℕ, ◌%◌, ◌^◌, ◌≤◌, ◌≡◌, refl, ◌≢◌, inl, inr, Bool, true, false, [], some, Bool-cases, ◌==◌,
}
use hggutils.Common.Text.{Text, text_key, text_beq, text_beq_iff}
use hggutils.Common.Dict.{Dict, find}
use hggutils.Rpc.Message.{Result, ok}
use hggutils.Sql.{
  Kind, string_kind, int_kind, uint_kind, bool_kind, slice_kind, Field, FieldValue, text_value,
  int_value, uint_value, bool_value, bytes_value, parse_bool, int_bits, set_field, decode_field,
  field_key,
}
use hggutils.Convert.{Dynamic, string, boolean, integer, unsigned, to_string}
use hggutils.Convert.Digits.{
  IsInt64, parse_int-format_int, parse_uint-format_uint, format_int-ne-nil, format_uint-ne-nil,
}

-- The values that fields of a kind hold, as the decoder sees them: texts that are not empty, as
-- strings or bytes, Booleans, and integers of 64 bits, cut to the bits of the field.
abbrev pub Stores : Kind → Dynamic → FieldValue → Type 0
Stores string_kind (string s) v = (s ≢ []) × (v ≡ text_value s)
Stores (slice_kind true) (string s) v = (s ≢ []) × (v ≡ bytes_value s)
Stores bool_kind (boolean b) v = v ≡ bool_value b
Stores (int_kind w) (integer z) v = IsInt64 z × (v ≡ int_value (int_bits w z))
Stores (uint_kind w) (unsigned n) v =
    (n ≤ 18_446_744_073_709_551_615) × (v ≡ uint_value (n % 2 ^ w))
Stores _ _ v = ⊥

module _ (format_float : ℕ → Text) (parse_float : Text → Result ℕ) where
  bool_text-ne-nil : (b : Bool) → to_string format_float (boolean b) ≢ []
  unfolding to_string
  bool_text-ne-nil true h = cc
  bool_text-ne-nil false h = cc

  Stores-ne-nil :
      (k : Kind) (d : Dynamic) (v : FieldValue) → Stores k d v → to_string format_float d ≢ []
  unfolding to_string
  Stores-ne-nil string_kind (string s) v h = h.0
  Stores-ne-nil (slice_kind true) (string s) v h = h.0
  Stores-ne-nil bool_kind (boolean b) v h = bool_text-ne-nil b
  Stores-ne-nil (int_kind w) (integer z) v h = format_int-ne-nil z
  Stores-ne-nil (uint_kind w) (unsigned n) v h = format_uint-ne-nil n
  Stores-ne-nil _ _ v h = absurd h

  bool_read : (b : Bool) → parse_bool (to_string format_float (boolean b)) ≡ ok b
  unfolding to_string parse_bool text_beq
  bool_read true = refl
  bool_read false = refl

  Stores-set_field :
      (k : Kind) (d : Dynamic) (old v : FieldValue)
      → Stores k d v
      → set_field parse_float k (to_string format_float d) old ≡ ok v
  unfolding to_string set_field
  Stores-set_field string_kind (string s) old v h = rw h.1
  Stores-set_field (slice_kind true) (string s) old v h = rw h.1
  Stores-set_field bool_kind (boolean b) old v h = rw (bool_read b, h)
  Stores-set_field (int_kind w) (integer z) old v h = rw (parse_int-format_int z h.0, h.1)
  Stores-set_field (uint_kind w) (unsigned n) old v h = rw (parse_uint-format_uint n h.0, h.1)
  Stores-set_field _ _ old v h = absurd h

  -- Text round trip. If the column of a field, which may be set, holds the text that ToString makes of
  -- a value that the field's kind can store, the decoder stores that value: a text that is not empty
  -- for a string or bytes, a Boolean, or an integer of 64 bits, cut to the bits of the field.
  pub decode_field-to_string :
      (tag : Text) (m : Dict Text Text) (f : Field) (key : Text) (d : Dynamic) (old v : FieldValue)
      → field_key tag f ≡ some key
      → find key m ≡ some (to_string format_float d)
      → f.can_set ≡ true
      → Stores f.kind d v
      → decode_field parse_float tag m f old ≡ ok v
  unfolding decode_field
  decode_field-to_string tag m f key d old v k e set h =
      elim (Bool-cases (to_string format_float d == [])) [
        | inl empty ↦
            absurd
              (Stores-ne-nil f.kind d v h ((text_beq_iff (to_string format_float d) []).0 empty))
        | inr full ↦ rw (k, decode_field, e, set, full) (Stores-set_field f.kind d old v h)
      ]
