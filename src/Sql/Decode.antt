-- ===== src/Sql/Decode.antt =====
-- What one round of the loop of mapSingle2interface does to a field (sql_unmarshal.go).
use hggutils.Common.{
  ℕ, ◌≡◌, ◌≢◌, ◌↔◌, refl, sym, ap, subst, ◌∙◌, inl, inr, true, false, [], none, some, ◌==◌,
  Option-cases, Bool-cases,
}
use hggutils.Common.Text.{Text, text_key, text_beq, text_beq_iff}
use hggutils.Common.Dict.{Dict, find}
use hggutils.Rpc.Message.{Fault, no_access, Result, ok, err, Result-cases}
use hggutils.Sql.{Field, FieldValue, field_key, set_field, decode_field}

module _ (parse_float : Text → Result ℕ) (tag : Text) (m : Dict Text Text) (f : Field)
    (old : FieldValue) where
  -- The field's key names a column of the row, which holds this text.
  abbrev pub Holds : Text → Type 0
  Holds meta = (key : Text) × (field_key tag f ≡ some key) × (find key m ≡ some meta)

  -- The value of the field afterwards: the one before it where the field has no key, the row no such
  -- column, or that an empty text, and else the value that the column's text has for the field's kind.
  pub data Sets : FieldValue → Type 0 where
    no_key : field_key tag f ≡ none → Sets old
    no_column : (key : Text) → field_key tag f ≡ some key → find key m ≡ none → Sets old
    left_empty : Holds [] → f.can_set ≡ true → Sets old
    stored :
        (meta : Text) (new : FieldValue)
        → Holds meta
        → f.can_set ≡ true
        → meta ≢ []
        → set_field parse_float f.kind meta old ≡ ok new
        → Sets new

  -- The error: a column for a field that may not be set, or a text that the field's kind does not take.
  pub data Fails : Fault → Type 0 where
    locked : (meta : Text) → Holds meta → f.can_set ≡ false → Fails no_access
    unread :
        (meta : Text) (e : Fault)
        → Holds meta
        → f.can_set ≡ true
        → meta ≢ []
        → set_field parse_float f.kind meta old ≡ err e
        → Fails e

  abbrev IsDone : Result FieldValue → Type 0
  IsDone (ok new) = Sets new
  IsDone (err e) = Fails e

  stored-IsDone :
      (meta : Text)
      → Holds meta
      → f.can_set ≡ true
      → meta ≢ []
      → IsDone (set_field parse_float f.kind meta old)
  stored-IsDone meta h s n = elim (Result-cases (set_field parse_float f.kind meta old)) [
    | inl (new, e) ↦ subst IsDone (sym e) (stored meta new h s n e)
    | inr (e, q) ↦ subst IsDone (sym q) (unread meta e h s n q)
  ]

  full : (meta : Text) → meta ≢ [] → (meta == []) ≡ false
  full meta n = elim (Bool-cases (meta == [])) [
    | inl e ↦ absurd (n ((text_beq_iff meta []).0 e))
    | inr e ↦ e
  ]

  -- A field that may be set, of a column that is not empty
  kept_value :
      (key meta : Text)
      → field_key tag f ≡ some key
      → find key m ≡ some meta
      → f.can_set ≡ true
      → meta ≢ []
      → decode_field parse_float tag m f old ≡ set_field parse_float f.kind meta old
  unfolding decode_field
  kept_value key meta k c s n = rw (k, c, s, full meta n, decode_field) refl

  Sets-decode_field : (new : FieldValue) → Sets new → decode_field parse_float tag m f old ≡ ok new
  unfolding decode_field text_beq
  Sets-decode_field _ (no_key k) = rw (k, decode_field)
  Sets-decode_field _ (no_column key k c) = rw (k, c, decode_field)
  Sets-decode_field _ (left_empty (key, k, c) s) = rw (k, c, s, decode_field) refl
  Sets-decode_field _ (stored meta new (key, k, c) s n e) = kept_value key meta k c s n ∙ e

  Fails-decode_field : (e : Fault) → Fails e → decode_field parse_float tag m f old ≡ err e
  unfolding decode_field
  Fails-decode_field _ (locked meta (key, k, c) s) = rw (k, c, s, decode_field)
  Fails-decode_field _ (unread meta e (key, k, c) s n q) = rw (k, c, s, full meta n, decode_field) q

  found-IsDone :
      (key meta : Text)
      → field_key tag f ≡ some key
      → find key m ≡ some meta
      → IsDone (decode_field parse_float tag m f old)
  found-IsDone key meta k c = elim (Bool-cases f.can_set) [
    | inr s ↦
        let fails = locked meta (key, k, c) s in
        subst IsDone (sym (Fails-decode_field no_access fails)) fails
    | inl s ↦ elim (Bool-cases (meta == [])) [
      | inl e ↦
          let sets = left_empty (key, k, c ∙ ap some ((text_beq_iff meta []).0 e)) s in
          subst IsDone (sym (Sets-decode_field old sets)) sets
      | inr e ↦
          let n : meta ≢ [] = λ q. cc ((text_beq_iff meta []).1 q) in
          subst IsDone (sym (kept_value key meta k c s n)) (stored-IsDone meta (key, k, c) s n)
    ]
  ]

  decode_field-IsDone : IsDone (decode_field parse_float tag m f old)
  unfolding decode_field
  decode_field-IsDone = elim (Option-cases (field_key tag f)) [
    | inl k ↦ rw (k, decode_field) (no_key k)
    | inr (key, k) ↦ elim (Option-cases (find key m)) [
      | inl c ↦ rw (k, c, decode_field) (no_column key k c)
      | inr (meta, c) ↦ found-IsDone key meta k c
    ]
  ]

  pub decode_field-ok :
      (new : FieldValue) → (decode_field parse_float tag m f old ≡ ok new) ↔ Sets new
  decode_field-ok new = (λ h. subst IsDone h decode_field-IsDone, Sets-decode_field new)

  pub decode_field-err : (e : Fault) → (decode_field parse_float tag m f old ≡ err e) ↔ Fails e
  decode_field-err e = (λ h. subst IsDone h decode_field-IsDone, Fails-decode_field e)
