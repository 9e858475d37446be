-- ===== src/Rpc/Base64.antt =====
-- base64.StdEncoding, as getSpan (jsonrpc/handler.go) and handleRpcCall (jsonrpc/client.go) use it.
-- Bytes are numbers below 256.
pub mod Decodes
use hggutils.Common.{
  ℕ, suc, ◌+◌, ◌-◌, ◌*◌, ◌/◌, ◌%◌, Bool, true, false, not, ◌&&◌, ◌||◌, List, [], ◌∷◌, ◌++◌, Option,
  none, some, ◌==◌, eqb, leb, ltb, if◌then◌else◌, length, drop, replicate, is_some,
}
use hggutils.Common.Text.{Text, text_key}

-- The character of a number below 64.
unfoldable pub digit : ℕ → ℕ
digit n =
    if ltb n 26
    then n + 65
    else if ltb n 52
    then n + 71
    else if ltb n 62
    then n - 4
    else if eqb n 62
    then 43
    else 47

unfoldable pub sextet : ℕ → Option ℕ
sextet c =
    if leb b'A' c && leb c b'Z'
    then some (c - 65)
    else if leb b'a' c && leb c b'z'
    then some (c - 71)
    else if leb b'0' c && leb c b'9'
    then some (c + 4)
    else if eqb c b'+'
    then some 62
    else if eqb c b'/'
    then some 63
    else none

-- EncodeToString
unfoldable pub encode_to_string : List ℕ → Text
unfolding digit
encode_to_string [] = []
encode_to_string (a ∷ []) = digit (a / 4) ∷ digit (a % 4 * 16) ∷ b'=' ∷ b'=' ∷ []
encode_to_string (a ∷ b ∷ []) =
    digit (a / 4) ∷ digit (a % 4 * 16 + b / 16) ∷ digit (b % 16 * 4) ∷ b'=' ∷ []
encode_to_string (a ∷ b ∷ c ∷ bytes) =
    digit (a / 4)
    ∷ digit (a % 4 * 16 + b / 16)
    ∷ digit (b % 16 * 4 + c / 64)
    ∷ digit (c % 64)
    ∷ encode_to_string bytes

abbrev pub one_byte : Option ℕ → Option ℕ → Option (List ℕ)
one_byte (some x) (some y) = some ((x * 4 + y / 16) ∷ [])
one_byte _ _ = none

abbrev pub two_bytes : Option ℕ → Option ℕ → Option ℕ → Option (List ℕ)
two_bytes (some x) (some y) (some z) = some ((x * 4 + y / 16) ∷ (y % 16 * 16 + z / 4) ∷ [])
two_bytes _ _ _ = none

abbrev pub three_bytes :
    Option ℕ → Option ℕ → Option ℕ → Option ℕ → Option (List ℕ) → Option (List ℕ)
three_bytes (some x) (some y) (some z) (some w) (some rest) =
    some ((x * 4 + y / 16) ∷ (y % 16 * 16 + z / 4) ∷ (z % 4 * 64 + w) ∷ rest)
three_bytes _ _ _ _ _ = none

-- Groups of four characters, of which the last may end with one or two of the padding; the bits that
-- are left over in it are ignored.
unfoldable pub decode_groups : Text → Option (List ℕ)
unfolding sextet
decode_groups [] = some []
decode_groups (c ∷ d ∷ e ∷ f ∷ s) =
    let rest = decode_groups s in
    if eqb f b'=' && (s == [])
    then if eqb e b'='
      then one_byte (sextet c) (sextet d)
      else two_bytes (sextet c) (sextet d) (sextet e)
    else three_bytes (sextet c) (sextet d) (sextet e) (sextet f) rest
decode_groups (c ∷ []) = none
decode_groups (c ∷ d ∷ []) = none
decode_groups (c ∷ d ∷ e ∷ []) = none

-- The ends of lines are skipped wherever they stand.
unfoldable pub without_newlines : Text → Text
without_newlines [] = []
without_newlines (c ∷ s) =
    let rest = without_newlines s in if eqb c 10 || eqb c 13 then rest else c ∷ rest

-- DecodedLen
unfoldable pub decoded_len : ℕ → ℕ
decoded_len n = n / 4 * 3

-- A slice of zeros as long as DecodedLen says, after Decode has written into it.
unfoldable pub decode_into_slice : Text → Option (List ℕ)
unfolding decode_groups without_newlines decoded_len
decode_into_slice s = elim (decode_groups (without_newlines s)) [
  | none ↦ none
  | some bytes ↦ some (bytes ++ drop (length bytes) (replicate (decoded_len (length s)) 0))
]
