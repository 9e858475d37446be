-- ===== src/Sql/Fields.antt =====
-- What the struct's fields hold after mapSingle2interface (sql_unmarshal.go).
use hggutils.Common.{
  ℕ, ◌≡◌, refl, sym, ap, subst, ◌⊎◌, inl, inr, List, [], ◌∷◌, Option, none, some, Option-cases,
}
use hggutils.Common.Text.{Text}
use hggutils.Common.Dict.{Dict}
use hggutils.Rpc.Message.{Fault, Result, Result-cases}
use hggutils.Sql.Decode.{Sets, Fails, decode_field-ok, decode_field-err}
use hggutils.Sql.{Field, FieldValue, decode_field, map_single, map_elements}

module _ (parse_float : Text → Result ℕ) (tag : Text) where
  -- Each field has the value that it alone decodes to.
  abbrev pub AllDecoded : Dict Text Text → List Field → List FieldValue → List FieldValue → Type 0
  AllDecoded m [] olds news = news ≡ olds
  AllDecoded m (f ∷ fs) [] news = news ≡ []
  AllDecoded m (f ∷ fs) (old ∷ olds) [] = ⊥
  AllDecoded m (f ∷ fs) (old ∷ olds) (new ∷ news) =
      Sets parse_float tag m f old new × AllDecoded m fs olds news

  -- The struct up to the first field that fails: the fields before it are set, it and those behind
  -- are as they were.
  abbrev pub StopsAt :
      Dict Text Text → List Field → List FieldValue → List FieldValue → Fault → Type 0
  StopsAt m [] olds news e = ⊥
  StopsAt m (f ∷ fs) [] news e = ⊥
  StopsAt m (f ∷ fs) (old ∷ olds) [] e = ⊥
  StopsAt m (f ∷ fs) (old ∷ olds) (new ∷ news) e =
      (Fails parse_float tag m f old e × (new ≡ old) × (news ≡ olds))
      ⊎ (Sets parse_float tag m f old new × StopsAt m fs olds news e)

  abbrev IsOutcome :
      Dict Text Text → List Field → List FieldValue → List FieldValue × Option Fault → Type 0
  IsOutcome m fs olds (news, none) = AllDecoded m fs olds news
  IsOutcome m fs olds (news, some e) = StopsAt m fs olds news e

  add-IsOutcome :
      (m : Dict Text Text) (f : Field) (fs : List Field) (old new : FieldValue)
      (olds : List FieldValue) (r : List FieldValue × Option Fault)
      → Sets parse_float tag m f old new
      → IsOutcome m fs olds r
      → IsOutcome m (f ∷ fs) (old ∷ olds) (new ∷ r.0, r.1)
  add-IsOutcome m f fs old new olds (news, none) d h = (d, h)
  add-IsOutcome m f fs old new olds (news, some e) d h = inr (d, h)

  map_single-IsOutcome :
      (m : Dict Text Text) (fs : List Field) (olds : List FieldValue)
      → IsOutcome m fs olds (map_single parse_float tag m fs olds)
  unfolding map_single
  map_single-IsOutcome m [] olds = refl
  map_single-IsOutcome m (f ∷ fs) [] = refl
  map_single-IsOutcome m (f ∷ fs) (old ∷ olds) =
      elim (Result-cases (decode_field parse_float tag m f old)) [
        | inr (e, d) ↦
            rw (d, map_single) (inl ((decode_field-err parse_float tag m f old e).0 d, refl, refl))
        | inl (new, d) ↦
            rw (d, map_single)
              (add-IsOutcome m f fs old new olds (map_single parse_float tag m fs olds)
                ((decode_field-ok parse_float tag m f old new).0 d)
                (map_single-IsOutcome m fs olds))
      ]

  -- One element for each row, in order, decoded from the zero value of the struct.
  abbrev pub AllElements :
      List Field → List FieldValue → List (Dict Text Text) → List (List FieldValue) → Type 0
  AllElements fields zeros [] news = news ≡ []
  AllElements fields zeros (m ∷ table) [] = ⊥
  AllElements fields zeros (m ∷ table) (one ∷ news) =
      AllDecoded m fields zeros one × AllElements fields zeros table news

  pub map_elements-AllElements :
      (fields : List Field) (zeros : List FieldValue) (table : List (Dict Text Text))
      (news : List (List FieldValue))
      → map_elements parse_float tag fields zeros table ≡ (news, none)
      → AllElements fields zeros table news
  unfolding map_elements
  map_elements-AllElements fields zeros [] news h = sym (ap (λ r. r.0) h)
  map_elements-AllElements fields zeros (m ∷ table) news h =
      elim (Option-cases (map_single parse_float tag m fields zeros).1) [
        | inr (e, p) ↦ cc (rw (p, map_elements) at h)
        | inl p ↦
            let here = rw (p, map_elements) at h in
            let rest =
              map_elements-AllElements fields zeros table
                (map_elements parse_float tag fields zeros table).0
                (pair_of _ (ap (λ r. r.1) here)) in
            subst (AllElements fields zeros (m ∷ table)) (ap (λ r. r.0) here) (
              subst (IsOutcome m fields zeros) (pair_of _ p) (map_single-IsOutcome m fields zeros),
              rest,
            )
      ]
    where
      pair_of : {A : Type 0} (r : A × Option Fault) → r.1 ≡ none → r ≡ (r.0, none)
      pair_of r p = rw p
