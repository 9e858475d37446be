-- ===== src/Sql/Tests.antt =====
-- Runs of the SQL decoder of sql_unmarshal.go, and its theorems at them.
use hggutils.Common.{ℕ, ◌≡◌, refl, true, List, [], ◌∷◌, none, some, length, get_elem?}
use hggutils.Common.Int.{negsuc}
use hggutils.Common.Text.{Text, codes, text_key, text_beq, to_lower, split}
use hggutils.Common.Dict.{Dict, find, delete, put}
use hggutils.Rpc.Message.{plain, bad_number, Result, ok, err}
use hggutils.Sql.{
  Row, scan, add_entries, read_rows, empty_values, to_map, string_kind, int_kind, Field, FieldValue,
  text_value, int_value, read_digits, read_number, negative, parse_int, int_bits, field_key,
  set_field, decode_field, map_single, map_elements, map_pointers, slice, pointers, un_marshal,
  SqlDecoder, new_sql_decoder, set_specific_tag, tag_get,
}
use hggutils.Sql.Rows.{to_map-rows}

abbrev columns : List Text
columns = codes "Id" ∷ codes "Name" ∷ []

abbrev whole_row : Row
whole_row = record { scanned = codes "300" ∷ codes "ann" ∷ []; scan_error = none }

abbrev broken_row : Row
broken_row = record { scanned = codes "4" ∷ []; scan_error = some (plain (codes "null")) }

abbrev wrong_row : Row
wrong_row = record { scanned = codes "x" ∷ codes "bo" ∷ []; scan_error = none }

abbrev fields : List Field
fields =
    record { name = codes "Id"; tags = []; kind = int_kind 8; can_set = true }
    ∷ record {
      name = codes "N";
      tags = (codes "col", codes "name,omitempty") ∷ [];
      kind = string_kind;
      can_set = true;
    }
    ∷ []

abbrev zeros : List FieldValue
zeros = int_value 0 ∷ text_value [] ∷ []

abbrev no_float : Text → Result ℕ
no_float s = err bad_number

abbrev ann : Dict Text Text
ann = (codes "name", codes "ann") ∷ (codes "id", codes "300") ∷ []

abbrev decoder : SqlDecoder
decoder = new_sql_decoder (ok columns) (whole_row ∷ [])

sql_run : Unit {0}
unfolding to_map read_rows empty_values scan add_entries put delete find text_beq to_lower field_key
    split decode_field set_field parse_int read_number read_digits negative int_bits map_single
    map_elements map_pointers un_marshal tag_get new_sql_decoder set_specific_tag
sql_run = tt

table_run : to_map decoder.columns decoder.rows ≡ ok (ann ∷ [])
unfolding sql_run
table_run = refl

-- The number 300 does not fit into eight bits: 44 is stored, with no error.
narrow_run :
    map_single no_float (codes "col") ann fields zeros
    ≡ (int_value 44 ∷ text_value (codes "ann") ∷ [], none)
unfolding sql_run
narrow_run = refl

negative_run : parse_int (codes "-12") ≡ ok (negsuc 11)
unfolding sql_run
negative_run = refl

to_map-rows_example :
    (table : List (Dict Text Text)) × (entry : Dict Text Text) × (to_map
        (ok columns)
        (whole_row ∷ [])
      ≡ ok table)
    × (length table ≡ 1)
    × (get_elem? table 0 ≡ some entry)
    × (find (to_lower (codes "Name")) entry ≡ some (codes "ann"))
to_map-rows_example =
    to_map-rows columns (whole_row ∷ []) 0 1 whole_row (codes "Name") (codes "ann") (refl, tt) refl
      refl refl tt

-- Two pointers: the second row fails, and its struct has the fields that came before.
pointers_run :
    un_marshal no_float
      (new_sql_decoder (ok columns) (whole_row ∷ wrong_row ∷ []))
      (pointers fields zeros [])
    ≡ (
      pointers fields zeros (some (int_value 44 ∷ text_value (codes "ann") ∷ []) ∷ some zeros ∷ []),
      some bad_number,
    )
unfolding sql_run
pointers_run = refl

-- Under the tag "db" the name of the second field is "n", which is no column.
other_tag_run :
    un_marshal no_float (set_specific_tag (codes "db") decoder) (slice fields zeros [])
    ≡ (slice fields zeros ((int_value 44 ∷ text_value [] ∷ []) ∷ []), none)
unfolding sql_run
other_tag_run = refl
