-- ===== src/Sql.antt =====
-- sql_unmarshal.go: rows of a query to maps and to the fields of structs. The rows are what package
-- database/sql delivers; the parsing of floats is an argument.
pub mod Rows
pub mod Decode
pub mod Fields
pub mod Marshal
pub mod Tests
use hggutils.Common.{
  ℕ, zero, suc, ◌+◌, ◌-◌, ◌*◌, ◌%◌, ◌^◌, Bool, true, false, not, ◌&&◌, ◌||◌, List, [], ◌∷◌, ◌++◌,
  map, Option, none, some, ◌==◌, eqb, leb, if◌then◌else◌, length, drop,
}
use hggutils.Common.Int.{ℤ, pos, negsuc}
use hggutils.Common.Text.{Text, codes, text_key, to_lower, split}
use hggutils.Common.Dict.{Dict, find, put}
use hggutils.Rpc.Message.{
  Fault, not_a_pointer, wrong_kind, no_access, bad_number, wrong_count, Result, ok, err,
}

-- A row, as Scan delivers it: the values that it has assigned, all of them unless it returns an error.
pub record Row : Type 0 where
  pub scanned : List Text
  pub scan_error : Option Fault

-- SQLDecoder: what database/sql says of the columns and delivers as rows, and the tag that names fields
pub record SqlDecoder : Type 0 where
  pub columns : Result (List Text)
  pub rows : List Row
  pub tag : Text

-- NewSQLDecoder
unfoldable pub new_sql_decoder : Result (List Text) → List Row → SqlDecoder
new_sql_decoder columns rows = record { columns = columns; rows = rows; tag = codes "col" }

-- SetSpecificTag
unfoldable pub set_specific_tag : Text → SqlDecoder → SqlDecoder
set_specific_tag tag decoder = record { columns = decoder.columns; rows = decoder.rows; tag = tag }

-- The slice of values after Scan: what it has not assigned is left from the row before.
unfoldable pub scan : Row → List Text → List Text
scan row values = row.scanned ++ drop (length row.scanned) values

-- The map of a row, under the names of the columns in lower case; a later column wins.
unfoldable pub add_entries : Dict Text Text → List Text → List Text → Dict Text Text
add_entries entry [] values = entry
add_entries entry (c ∷ columns) [] = entry
add_entries entry (c ∷ columns) (v ∷ values) = add_entries (put (to_lower c) v entry) columns values

-- The loop of ToMap, on the slice of values; an error of Scan is only printed.
unfoldable pub read_rows : List Text → List Text → List Row → List (Dict Text Text)
unfolding scan add_entries
read_rows columns values [] = []
read_rows columns values (row ∷ rows) =
    add_entries [] columns (scan row values) ∷ read_rows columns (scan row values) rows

pub empty_values : List Text → List Text
empty_values columns = map (λ c. []) columns

-- ToMap
unfoldable pub to_map : Result (List Text) → List Row → Result (List (Dict Text Text))
unfolding read_rows empty_values
to_map columns rows = elim columns [
  | err f ↦ err f
  | ok columns ↦ ok (read_rows columns (empty_values columns) rows)
]

-- reflect.Kind, with the bits of an integer, and whether a slice is one of bytes.
pub data Kind : Type 0 where
  string_kind float_kind bool_kind other_kind : Kind
  int_kind uint_kind : ℕ → Kind
  slice_kind : Bool → Kind

-- The value of a field; an integer by its bits.
pub data FieldValue : Type 0 where
  text_value bytes_value : Text → FieldValue
  float_value int_value uint_value other_value : ℕ → FieldValue
  bool_value : Bool → FieldValue

-- A field of a struct: its name, the keys and values of its tag, and its type.
pub record Field : Type 0 where
  pub name : Text
  pub tags : Dict Text Text
  pub kind : Kind
  pub can_set : Bool

-- The digits of a decimal number, behind those that `n` comes from.
unfoldable pub read_digits : ℕ → Text → Option ℕ
read_digits n [] = some n
read_digits n (c ∷ s) =
    let rest = read_digits (10 * n + (c - b'0')) s in
    if leb b'0' c && leb c b'9' then rest else none

unfoldable pub read_number : Text → Option ℕ
unfolding read_digits
read_number [] = none
read_number (c ∷ s) = read_digits 0 (c ∷ s)

-- strconv.ParseUint(s, 10, 64)
unfoldable pub parse_uint : Text → Result ℕ
unfolding read_number
parse_uint s = elim (read_number s) [
  | none ↦ err bad_number
  | some n ↦ if leb n 18_446_744_073_709_551_615 then ok n else err bad_number
]

unfoldable pub negative : ℕ → Result ℤ
negative zero = ok (pos 0)
negative (suc n) = if leb n 9_223_372_036_854_775_807 then ok (negsuc n) else err bad_number

abbrev pub signed : Bool → Option ℕ → Result ℤ
signed minus none = err bad_number
signed true (some n) = negative n
signed false (some n) = if leb n 9_223_372_036_854_775_807 then ok (pos n) else err bad_number

-- strconv.ParseInt(s, 10, 64)
unfoldable pub parse_int : Text → Result ℤ
unfolding read_number negative
parse_int [] = err bad_number
parse_int (c ∷ s) =
    if eqb c b'-'
    then signed true (read_number s)
    else if eqb c b'+'
    then signed false (read_number s)
    else signed false (read_number (c ∷ s))

includes : List Text → Text → Bool
includes [] s = false
includes (t ∷ ts) s = (t == s) || includes ts s

-- strconv.ParseBool
unfoldable pub parse_bool : Text → Result Bool
unfolding includes
parse_bool s =
    if includes (map codes ("1" ∷ "t" ∷ "T" ∷ "true" ∷ "TRUE" ∷ "True" ∷ [])) s
    then ok true
    else if includes (map codes ("0" ∷ "f" ∷ "F" ∷ "false" ∷ "FALSE" ∷ "False" ∷ [])) s
    then ok false
    else err bad_number

-- SetInt on w bits, which drops the bits above.
unfoldable pub int_bits : ℕ → ℤ → ℕ
int_bits w (pos n) = n % 2 ^ w
int_bits w (negsuc n) = 2 ^ w - 1 - n % 2 ^ w

-- Tag.Get: the empty text where the tag has no such key
unfoldable pub tag_get : Dict Text Text → Text → Text
tag_get tags key = elim (find key tags) [ none ↦ [] | some v ↦ v ]

-- The key of a field in the map of a row, for the tag of a decoder; a field with the tag "-" has none.
unfoldable pub field_key : Text → Field → Option Text
unfolding tag_get
field_key tag f =
    let own = tag_get f.tags tag in
    let tag = if own == [] then f.name else own in
    if (tag == []) || (tag == codes "-")
    then none
    else elim (split b',' (to_lower tag)) [ [] ↦ none | key ∷ _ ↦ some key ]

abbrev with_value : {A : Type 0} → Result A → (A → FieldValue) → Result FieldValue
with_value (err f) make = err f
with_value (ok a) make = ok (make a)

-- What UnMarshal is given: a pointer to a struct, by its fields and values, to a slice of structs or
-- of pointers to structs, by their fields, the zero values and what it holds (a nil pointer is none),
-- or anything else.
pub data Target : Type 0 where
  not_pointer other_pointer : Target
  struct : List Field → List FieldValue → Target
  slice : List Field → List FieldValue → List (List FieldValue) → Target
  pointers : List Field → List FieldValue → List (Option (List FieldValue)) → Target

module _ (parse_float : Text → Result ℕ) where
  -- The switch on the kind of a field.
  unfoldable pub set_field : Kind → Text → FieldValue → Result FieldValue
  unfolding parse_int parse_uint parse_bool int_bits
  set_field string_kind meta old = ok (text_value meta)
  set_field float_kind meta old = with_value (parse_float meta) float_value
  set_field (int_kind w) meta old = with_value (parse_int meta) (λ z. int_value (int_bits w z))
  set_field (uint_kind w) meta old = with_value (parse_uint meta) (λ n. uint_value (n % 2 ^ w))
  set_field bool_kind meta old = with_value (parse_bool meta) bool_value
  set_field (slice_kind true) meta old = ok (bytes_value meta)
  set_field (slice_kind false) meta old = ok old
  set_field other_kind meta old = err wrong_kind

  -- One round of the loop of mapSingle2interface: the field's new value.
  unfoldable pub decode_field : Text → Dict Text Text → Field → FieldValue → Result FieldValue
  unfolding field_key set_field
  decode_field tag m f old = elim (field_key tag f) [
    | none ↦ ok old
    | some key ↦ elim (find key m) [
      | none ↦ ok old
      | some meta ↦
          if not f.can_set
          then err no_access
          else if meta == []
          then ok old
          else set_field f.kind meta old
    ]
  ]

  -- mapSingle2interface: the values after it, and its error
  unfoldable pub map_single :
      Text → Dict Text Text → List Field → List FieldValue → List FieldValue × Option Fault
  unfolding decode_field
  map_single tag m [] olds = (olds, none)
  map_single tag m (f ∷ fs) [] = ([], none)
  map_single tag m (f ∷ fs) (old ∷ olds) =
      let rest = map_single tag m fs olds in
      elim (decode_field tag m f old) [ err e ↦ (old ∷ olds, some e) | ok v ↦ (v ∷ rest.0, rest.1) ]

  -- The loop of mapSlice2interface, over fresh elements
  unfoldable pub map_elements :
      Text
      → List Field
      → List FieldValue
      → List (Dict Text Text)
      → List (List FieldValue) × Option Fault
  unfolding map_single
  map_elements tag fields zeros [] = ([], none)
  map_elements tag fields zeros (m ∷ table) =
      let rest = map_elements tag fields zeros table in
      let one = map_single tag m fields zeros in
      elim one.1 [
        | some e ↦ (one.0 ∷ map (λ m. zeros) table, some e)
        | none ↦ (one.0 ∷ rest.0, rest.1)
      ]

  -- The same over pointers: each is set to a new struct before the row is decoded into that.
  unfoldable pub map_pointers :
      Text
      → List Field
      → List FieldValue
      → List (Dict Text Text)
      → List (Option (List FieldValue)) × Option Fault
  unfolding map_single
  map_pointers tag fields zeros [] = ([], none)
  map_pointers tag fields zeros (m ∷ table) =
      let rest = map_pointers tag fields zeros table in
      let one = map_single tag m fields zeros in
      elim one.1 [
        | some e ↦ (some one.0 ∷ map (λ m. none) table, some e)
        | none ↦ (some one.0 ∷ rest.0, rest.1)
      ]

  abbrev one_row :
      Text → List Field → List FieldValue → List (Dict Text Text) → Target × Option Fault
  one_row tag fields olds (m ∷ []) =
      let r = map_single tag m fields olds in (struct fields r.0, r.1)
  one_row tag fields olds table = (struct fields olds, some (wrong_count (length table)))

  -- mapSlice2interface: with no rows the slice is left as it is.
  abbrev all_rows :
      Text
      → List Field
      → List FieldValue
      → List (List FieldValue)
      → List (Dict Text Text)
      → Target × Option Fault
  all_rows tag fields zeros held [] = (slice fields zeros held, none)
  all_rows tag fields zeros held (m ∷ table) =
      let r = map_elements tag fields zeros (m ∷ table) in (slice fields zeros r.0, r.1)

  abbrev all_pointers :
      Text
      → List Field
      → List FieldValue
      → List (Option (List FieldValue))
      → List (Dict Text Text)
      → Target × Option Fault
  all_pointers tag fields zeros held [] = (pointers fields zeros held, none)
  all_pointers tag fields zeros held (m ∷ table) =
      let r = map_pointers tag fields zeros (m ∷ table) in (pointers fields zeros r.0, r.1)

  -- UnMarshal
  unfoldable pub un_marshal : SqlDecoder → Target → Target × Option Fault
  unfolding map_elements map_pointers to_map
  un_marshal decoder target = elim (to_map decoder.columns decoder.rows) [
    | err f ↦ (target, some f)
    | ok table ↦ elim target [
      | not_pointer ↦ (not_pointer, some not_a_pointer)
      | other_pointer ↦ (other_pointer, some wrong_kind)
      | struct fields olds ↦ one_row decoder.tag fields olds table
      | slice fields zeros held ↦ all_rows decoder.tag fields zeros held table
      | pointers fields zeros held ↦ all_pointers decoder.tag fields zeros held table
    ]
  ]
