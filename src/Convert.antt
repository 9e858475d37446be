-- ===== src/Convert.antt =====
-- to_string.go: the text of a value of any type. The text of a float is an argument.
pub mod Digits
pub mod Decoding
pub mod Tests
use hggutils.Common.{
  ℕ, zero, suc, ◌+◌, ◌-◌, ◌/◌, ◌%◌, Bool, true, false, ◌&&◌, List, [], ◌∷◌, ◌++◌, map, ltb, leb,
  if◌then◌else◌,
}
use hggutils.Common.Int.{ℤ, pos, negsuc}
use hggutils.Common.Text.{Text, codes, to_lower}

-- A value as reflection shows it, by its kind; `invalid` is nil.
pub data Dynamic : Type 0 where
  invalid other : Dynamic
  string : Text → Dynamic
  boolean : Bool → Dynamic
  integer : ℤ → Dynamic
  unsigned float : ℕ → Dynamic
  pointer : Dynamic → Dynamic

-- The decimal digits of a number, on fuel; more fuel than the number is enough.
unfoldable pub digits : ℕ → ℕ → Text
digits zero n = []
digits (suc fuel) n =
    let front = digits fuel (n / 10) in
    if ltb n 10 then (b'0' + n) ∷ [] else front ++ (b'0' + n % 10) ∷ []

-- strconv.FormatUint(n, 10)
unfoldable pub format_uint : ℕ → Text
unfolding digits
format_uint n = digits (suc n) n

-- strconv.FormatInt(z, 10)
unfoldable pub format_int : ℤ → Text
unfolding format_uint
format_int (pos n) = format_uint n
format_int (negsuc n) = b'-' ∷ format_uint (suc n)

-- if v.Kind() == reflect.Ptr { v = v.Elem() }
abbrev deref : Dynamic → Dynamic
deref (pointer v) = v
deref v = v

module _ (format_float : ℕ → Text) where
  abbrev text_of : Dynamic → Text
  text_of (string s) = s
  text_of (boolean b) = if b then codes "true" else codes "false"
  text_of (integer z) = format_int z
  text_of (unsigned n) = format_uint n
  text_of (float f) = format_float f
  text_of _ = []

  -- ToString
  unfoldable pub to_string : Dynamic → Text
  unfolding format_int format_uint
  to_string v = text_of (deref v)

  -- ToLowerString
  unfoldable pub to_lower_string : Dynamic → Text
  unfolding to_string
  to_lower_string v = to_lower (to_string v)

unfoldable pub to_upper_byte : ℕ → ℕ
to_upper_byte c = if leb b'a' c && leb c b'z' then c - 32 else c

-- strings.ToUpper
unfoldable pub to_upper : Text → Text
unfolding to_upper_byte
to_upper = map to_upper_byte

-- ToUpperString
unfoldable pub to_upper_string : (ℕ → Text) → Dynamic → Text
unfolding to_string to_upper
to_upper_string format_float v = to_upper (to_string format_float v)
