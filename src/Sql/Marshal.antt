-- ===== src/Sql/Marshal.antt =====
-- UnMarshal into slices of structs and of pointers to structs (sql_unmarshal.go).
use hggutils.Common.{
  ℕ, ◌≡◌, ◌≢◌, refl, sym, ap, ◌∙◌, subst, ◌⊎◌, inl, inr, List, [], ◌∷◌, map, Option, none, some,
  Option-cases, List-cases,
}
use hggutils.Common.Text.{Text}
use hggutils.Common.Dict.{Dict}
use hggutils.Rpc.Message.{Fault, Result, ok}
use hggutils.Sql.{
  SqlDecoder, Field, FieldValue, map_single, map_elements, map_pointers, pointers, un_marshal,
  to_map, read_rows, empty_values,
}
use hggutils.Sql.Fields.{AllElements, map_elements-AllElements}

pointers_held :
    {fields : List Field} {zeros : List FieldValue} (a b : List (Option (List FieldValue)))
    → pointers fields zeros a ≡ pointers fields zeros b
    → a ≡ b
pointers_held a b h = cc

pair_of : {A : Type 0} (r : A × Option Fault) (f : Option Fault) → r.1 ≡ f → r ≡ (r.0, f)
pair_of r f p = rw p

-- The maps of the rows
abbrev pub table_of : SqlDecoder → List Text → List (Dict Text Text)
table_of decoder columns = read_rows columns (empty_values columns) decoder.rows

module _ (parse_float : Text → Result ℕ) where
  -- Decoding over pointers is decoding over structs: the same error, and with none the pointers are to
  -- the elements, in order.
  map_pointers-map_elements :
      (tag : Text) (fields : List Field) (zeros : List FieldValue) (table : List (Dict Text Text))
      → ((map_pointers parse_float tag fields zeros table).1
          ≡ (map_elements parse_float tag fields zeros table).1)
        × ((map_elements parse_float tag fields zeros table).1 ≡ none
            → (map_pointers parse_float tag fields zeros table).0
              ≡ map some (map_elements parse_float tag fields zeros table).0)
  unfolding map_pointers map_elements
  map_pointers-map_elements tag fields zeros [] = (refl, λ h. refl)
  map_pointers-map_elements tag fields zeros (m ∷ table) =
      let ih = map_pointers-map_elements tag fields zeros table in
      elim (Option-cases (map_single parse_float tag m fields zeros).1) [
        | inr (e, p) ↦ rw (p, map_pointers, map_elements) (refl, λ h. cc)
        | inl p ↦
            rw (p, map_pointers, map_elements)
              (ih.0, λ h. ap (λ r. some (map_single parse_float tag m fields zeros).0 ∷ r) (ih.1 h))
      ]

  module _ (decoder : SqlDecoder) (columns : List Text) (given : decoder.columns ≡ ok columns) where
    table : to_map decoder.columns decoder.rows ≡ ok (table_of decoder columns)
    unfolding to_map
    table = ap (λ c. to_map c decoder.rows) given

    table_cases :
        ((decoder.rows ≡ []) × (table_of decoder columns ≡ []))
        ⊎ ((decoder.rows ≢ [])
            × ((m : Dict Text Text) × (more : List (Dict Text Text)) × (table_of decoder columns
                  ≡ m ∷ more)))
    unfolding read_rows
    table_cases = elim (List-cases decoder.rows) [
      | inl e ↦ inl (e, ap (read_rows columns (empty_values columns)) e)
      | inr (row, rows, e) ↦
          inr ((λ q. cc), (_, _, ap (read_rows columns (empty_values columns)) e))
    ]

    -- UnMarshal into a slice of pointers to structs, for a query whose columns are known. With no error
    -- each row, in order, has a pointer that is not nil, to a new struct that the row is decoded
    -- into, and with no row at all, and only then, the slice still holds what it held.
    pub un_marshal-pointers :
        (fields : List Field) (zeros : List FieldValue)
        (held news : List (Option (List FieldValue)))
        → un_marshal parse_float decoder (pointers fields zeros held)
          ≡ (pointers fields zeros news, none)
        → ((decoder.rows ≡ []) × (news ≡ held))
          ⊎ ((decoder.rows ≢ [])
              × ((structs : List (List FieldValue)) × (news ≡ map some structs)
                  × AllElements parse_float decoder.tag fields zeros
                      (table_of decoder columns)
                      structs))
    unfolding un_marshal
    un_marshal-pointers fields zeros held news h = elim table_cases [
      | inl (r, e) ↦
          inl (r, sym (pointers_held _ _ (ap (λ r. r.0) (rw (table, un_marshal, e) at h))))
      | inr (r, (m, more, e)) ↦
          let here = rw (table, un_marshal, e) at h in
          let same = map_pointers-map_elements decoder.tag fields zeros (m ∷ more) in
          let fine = sym same.0 ∙ ap (λ r. r.1) here in
          let made = map_elements parse_float decoder.tag fields zeros (m ∷ more) in
          inr (
            r,
            (
              made.0,
              sym (pointers_held _ _ (ap (λ r. r.0) here)) ∙ same.1 fine,
              subst (λ t. AllElements parse_float decoder.tag fields zeros t made.0) (sym e)
                  (map_elements-AllElements parse_float decoder.tag fields zeros (m ∷ more) made.0
                    (pair_of made none fine)),
            ),
          )
    ]
