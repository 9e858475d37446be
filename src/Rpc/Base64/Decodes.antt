-- ===== src/Rpc/Base64/Decodes.antt =====
-- What base64 decodes of what it encodes (jsonrpc/handler.go, jsonrpc/client.go).
use hggutils.Common.{
  ℕ, zero, suc, ◌+◌, ◌-◌, ◌*◌, ◌/◌, ◌%◌, ◌<◌, ◌≤◌, ◌≡◌, refl, ap, ◌∙◌, List, [], ◌∷◌, ◌++◌, some,
  arith, length, drop, replicate, eqb, All, false,
}
use hggutils.Common.Text.{Text, text_beq}
use hggutils.Rpc.Base64.{
  digit, sextet, encode_to_string, decode_groups, without_newlines, decoded_len, decode_into_slice,
}

abbrev pub IsByte : ℕ → Type 0
IsByte b = b < 256

sextet-digit : (n : ℕ) → n < 64 → sextet (digit n) ≡ some n
unfolding sextet digit
sextet-digit n h = ground arith

digit-no_padding : (n : ℕ) → n < 64 → eqb (digit n) b'=' ≡ false
unfolding digit
digit-no_padding n h = ground arith

digit_ge : (n : ℕ) → n < 64 → 14 ≤ digit n
unfolding digit
digit_ge n h = ground arith

without_newlines-cons :
    {c : ℕ} (s : Text) {t : Text}
    → 14 ≤ c
    → without_newlines s ≡ t
    → without_newlines (c ∷ s) ≡ c ∷ t
unfolding without_newlines
without_newlines-cons s h e = ground (arith, e)

without_newlines_nil : without_newlines [] ≡ []
unfolding without_newlines
without_newlines_nil = refl

without_newlines-encode :
    (bytes : List ℕ)
    → All IsByte bytes
    → without_newlines (encode_to_string bytes) ≡ encode_to_string bytes
unfolding encode_to_string
without_newlines-encode [] h = without_newlines_nil
without_newlines-encode (a ∷ []) (p, h) = without_newlines-cons _ (digit_ge (a / 4) (omega arith)) (
    without_newlines-cons _ (digit_ge (a % 4 * 16) (omega arith)) (
      without_newlines-cons _ (omega arith)
        (without_newlines-cons _ (omega arith) without_newlines_nil)))
without_newlines-encode (a ∷ b ∷ []) (p, (q, h)) =
    without_newlines-cons _ (digit_ge (a / 4) (omega arith)) (
      without_newlines-cons _ (digit_ge (a % 4 * 16 + b / 16) (omega arith)) (
        without_newlines-cons _ (digit_ge (b % 16 * 4) (omega arith))
          (without_newlines-cons _ (omega arith) without_newlines_nil)))
without_newlines-encode (a ∷ b ∷ c ∷ bytes) (p, (q, (r, h))) =
    without_newlines-cons _ (digit_ge (a / 4) (omega arith)) (
      without_newlines-cons _ (digit_ge (a % 4 * 16 + b / 16) (omega arith)) (
        without_newlines-cons _ (digit_ge (b % 16 * 4 + c / 64) (omega arith)) (
          without_newlines-cons _ (digit_ge (c % 64) (omega arith))
            (without_newlines-encode bytes h))))

first_byte : (a b : ℕ) → IsByte b → a / 4 * 4 + (a % 4 * 16 + b / 16) / 16 ≡ a
first_byte a b h = omega arith

second_byte :
    (a b c : ℕ)
    → IsByte b
    → IsByte c
    → (a % 4 * 16 + b / 16) % 16 * 16 + (b % 16 * 4 + c / 64) / 4 ≡ b
second_byte a b c h i = omega arith

last_byte : (b c : ℕ) → IsByte c → (b % 16 * 4 + c / 64) % 4 * 64 + c % 64 ≡ c
last_byte b c h = omega arith

two_places : (a b : ℕ) → IsByte b → (a % 4 * 16 + b / 16) % 16 * 16 + b % 16 * 4 / 4 ≡ b
two_places a b h = omega arith

pub decode_groups-encode :
    (bytes : List ℕ) → All IsByte bytes → decode_groups (encode_to_string bytes) ≡ some bytes
unfolding decode_groups text_beq encode_to_string
decode_groups-encode [] h = refl
decode_groups-encode (a ∷ []) (p, h) =
    rw (sextet-digit (a / 4) (omega arith), sextet-digit (a % 4 * 16) (omega arith))
      (ap (λ x. some (x ∷ [])) (omega arith))
decode_groups-encode (a ∷ b ∷ []) (p, (q, h)) =
    rw
      (
        digit-no_padding (b % 16 * 4) (omega arith),
        sextet-digit (a / 4) (omega arith),
        sextet-digit (a % 4 * 16 + b / 16) (omega arith),
        sextet-digit (b % 16 * 4) (omega arith),
      )
      (rw (first_byte a b q, two_places a b q) refl)
decode_groups-encode (a ∷ b ∷ c ∷ bytes) (p, (q, (r, h))) =
    rw
      (
        digit-no_padding (c % 64) (omega arith),
        sextet-digit (a / 4) (omega arith),
        sextet-digit (a % 4 * 16 + b / 16) (omega arith),
        sextet-digit (b % 16 * 4 + c / 64) (omega arith),
        sextet-digit (c % 64) (omega arith),
        decode_groups-encode bytes h,
      )
      (rw (first_byte a b q, second_byte a b c q r, last_byte b c r) refl)

drop-replicate : (n m : ℕ) → drop n (replicate {A = ℕ} m 0) ≡ replicate (m - n) 0
drop-replicate zero m = ap (λ k. replicate k 0) (omega arith)
drop-replicate (suc n) zero =
    let none_left : 0 ≡ 0 - suc n = omega arith in ap (λ k. replicate k 0) none_left
drop-replicate (suc n) (suc m) = drop-replicate n m ∙ ap (λ k. replicate k 0) (omega arith)

-- What is decoded into a slice of the length that DecodedLen says is what was encoded, and behind it
-- a zero for each character of the padding.
pub decode_into_slice-encode :
    (bytes : List ℕ)
    → All IsByte bytes
    → decode_into_slice (encode_to_string bytes)
      ≡ some (bytes ++ replicate (decoded_len (length (encode_to_string bytes)) - length bytes) 0)
unfolding decode_into_slice
decode_into_slice-encode bytes h =
    rw
      (
        without_newlines-encode bytes h,
        decode_groups-encode bytes h,
        decode_into_slice,
        drop-replicate (length bytes) (decoded_len (length (encode_to_string bytes))),
      )
      refl
