-- ===== src/Convert/Digits.antt =====
-- The digits that FormatInt writes are read back by ParseInt and ParseUint.
use hggutils.Common.{
  ℕ, zero, suc, ◌+◌, ◌-◌, ◌*◌, ◌/◌, ◌%◌, ◌≤◌, ◌<◌, ◌≡◌, refl, sym, ap, ◌∙◌, ◌≢◌, inl, inr, false,
  ◌&&◌, [], ◌∷◌, ◌++◌, some, arith, map_option, Bool-cases, leb, ltb, eqb,
}
use hggutils.Common.Int.{ℤ, pos, negsuc}
use hggutils.Common.Text.{Text}
use hggutils.Rpc.Message.{ok}
use hggutils.Sql.{read_digits, read_number, parse_uint, parse_int, negative, signed}
use hggutils.Convert.{digits, format_uint, format_int}

read_digits-snoc :
    (a d : ℕ) (s : Text)
    → d < 10
    → read_digits a (s ++ (b'0' + d) ∷ []) ≡ map_option (λ n. 10 * n + d) (read_digits a s)
unfolding read_digits
read_digits-snoc a d [] h = ground arith
read_digits-snoc a d (c ∷ s) h = elim (Bool-cases (leb b'0' c && leb c b'9')) [
  | inl e ↦ rw (e, read_digits) (read_digits-snoc (10 * a + (c - b'0')) d s h)
  | inr e ↦ rw (e, read_digits)
]

read_digits-digits : (fuel n : ℕ) → n < fuel → read_digits 0 (digits fuel n) ≡ some n
unfolding digits read_digits
read_digits-digits zero n h = absurd (omega arith)
read_digits-digits (suc fuel) n h = elim (Bool-cases (ltb n 10)) [
  | inl e ↦ rw (e, digits) (read_digits-snoc 0 n [] (ground arith) ∙ ap some (omega arith))
  | inr e ↦
      let big : 10 ≤ n = ground arith in
      let small : n / 10 < fuel = omega arith in
      let last : n % 10 < 10 = omega arith in
      rw (e, digits)
        (read_digits-snoc 0 (n % 10) (digits fuel (n / 10)) last
          ∙ ap (map_option (λ m. 10 * m + n % 10)) (read_digits-digits fuel (n / 10) small)
          ∙ ap some (omega arith))
]

first_digit :
    (fuel n : ℕ)
    → n < fuel
    → (c : ℕ) × (s : Text) × (digits fuel n ≡ c ∷ s) × (b'0' ≤ c) × (c ≤ b'9')
unfolding digits
first_digit zero n h = absurd (omega arith)
first_digit (suc fuel) n h = elim (Bool-cases (ltb n 10)) [
  | inl e ↦ rw (e, digits) (b'0' + n, [], refl, omega arith, ground arith)
  | inr e ↦
      let big : 10 ≤ n = ground arith in
      let (c, s, front, low, high) = first_digit fuel (n / 10) (omega arith) in
      rw (e, digits, front) (c, s ++ (b'0' + n % 10) ∷ [], refl, low, high)
]

read_number-format_uint : (n : ℕ) → read_number (format_uint n) ≡ some n
unfolding read_number format_uint
read_number-format_uint n =
    let (c, s, e, _, _) = first_digit (suc n) n (omega arith) in
    read_cons (digits (suc n) n) c s e ∙ read_digits-digits (suc n) n (omega arith)
  where
    read_cons : (t : Text) (c : ℕ) (s : Text) → t ≡ c ∷ s → read_number t ≡ read_digits 0 t
    read_cons t c s e = rw e

-- The bounds of int64.
abbrev pub IsInt64 : ℤ → Type 0
IsInt64 (pos n) = n ≤ 9_223_372_036_854_775_807
IsInt64 (negsuc n) = n ≤ 9_223_372_036_854_775_807

pub parse_uint-format_uint :
    (n : ℕ) → n ≤ 18_446_744_073_709_551_615 → parse_uint (format_uint n) ≡ ok n
unfolding parse_uint
parse_uint-format_uint n h = rw (read_number-format_uint n, parse_uint) (ground arith)

unsigned_int :
    (c : ℕ) (s : Text) → b'0' ≤ c → parse_int (c ∷ s) ≡ signed false (read_number (c ∷ s))
unfolding parse_int
unsigned_int c s h =
    let minus : eqb c b'-' ≡ false = ground arith in
    let plus : eqb c b'+' ≡ false = ground arith in rw (minus, plus)

format_uint-first :
    (n : ℕ) → (c : ℕ) × (s : Text) × (format_uint n ≡ c ∷ s) × (b'0' ≤ c) × (c ≤ b'9')
unfolding format_uint
format_uint-first n = first_digit (suc n) n (omega arith)

pub format_uint-ne-nil : (n : ℕ) → format_uint n ≢ []
format_uint-ne-nil n h = let (c, s, e, _, _) = format_uint-first n in cc

pub format_int-ne-nil : (z : ℤ) → format_int z ≢ []
unfolding format_int
format_int-ne-nil (pos n) h = format_uint-ne-nil n h
format_int-ne-nil (negsuc n) h = cc

parse_int-unsigned :
    (t : Text) (c : ℕ) (s : Text)
    → t ≡ c ∷ s
    → b'0' ≤ c
    → parse_int t ≡ signed false (read_number t)
parse_int-unsigned t c s e low =
    ap parse_int e ∙ unsigned_int c s low ∙ ap (λ t. signed false (read_number t)) (sym e)

pub parse_int-format_int : (z : ℤ) → IsInt64 z → parse_int (format_int z) ≡ ok z
unfolding format_int parse_int negative
parse_int-format_int (negsuc n) h = rw (read_number-format_uint (suc n)) (ground arith)
parse_int-format_int (pos n) h =
    let (c, s, e, low, _) = format_uint-first n in
    parse_int-unsigned (format_uint n) c s e low ∙ rw (read_number-format_uint n) (ground arith)
