-- ===== src/Base64.antt =====
-- Base64 texts, src/shared/base64.c: `susshi_base64url_normalize` and `susshi_unbase64`. A string is the list of its bytes without the final NUL; an allocation does
-- not fail.
pub mod Padding
pub mod Normal
pub mod Decode
mod Tests
use susshi.Prelude.{
  ℕ, ◌+◌, ◌*◌, ◌-◌, ◌/◌, ◌%◌, Bool, true, false, not, ◌&&◌, ◌||◌, Option, none, some, List, [], ◌∷◌,
  ◌++◌, map, length, replicate, leb, ◌==◌, if◌then◌else◌,
}

-- The character `=`.
abbrev pub pad : ℕ
pad = 61

abbrev pub is_pad : ℕ → Bool
is_pad c = c == pad

-- The padding for a remainder of the length. A remainder of 1 is never valid.
unfoldable pub padding : ℕ → Option ℕ
padding r = if r == 0 then some 0 else if r == 2 then some 2 else if r == 3 then some 1 else none

-- The loop over all but the last two characters.
unfoldable pub pad_early : List ℕ → Bool
pad_early (a ∷ b ∷ c ∷ rest) = is_pad a || pad_early (b ∷ c ∷ rest)
pad_early _ = false

-- The last character but one is `=`, and the last one is not.
unfoldable pub half_padded : List ℕ → Bool
half_padded [] = false
half_padded (a ∷ []) = false
half_padded (a ∷ b ∷ []) = is_pad a && not (is_pad b)
half_padded (a ∷ b ∷ c ∷ rest) = half_padded (b ∷ c ∷ rest)

-- `-` becomes `+` and `_` becomes `/`.
unfoldable pub translate : ℕ → ℕ
translate c = if c == 45 then 43 else if c == 95 then 47 else c

abbrev pub normalize_with : Option ℕ → List ℕ → Option (List ℕ)
normalize_with none input = none
normalize_with (some n) input =
    if pad_early input
    then none
    else if n == 0 && half_padded input
    then none
    else some (map translate input ++ replicate n pad)

unfoldable pub base64url_normalize : List ℕ → Option (List ℕ)
unfolding padding
base64url_normalize input = normalize_with (padding (length input % 4)) input

-- How many of the last two characters are `=`.
unfoldable pub total_padding : List ℕ → ℕ
total_padding [] = 0
total_padding (a ∷ []) = if is_pad a then 1 else 0
total_padding (a ∷ b ∷ []) = (if is_pad b then 1 else 0) + (if is_pad a then 1 else 0)
total_padding (a ∷ b ∷ c ∷ rest) = total_padding (b ∷ c ∷ rest)

-- OpenSSL's `EVP_DecodeBlock`; `none` is a negative result.
pub record Evp : Type 0 where
  pub decode_block : List ℕ → Option (List ℕ)

abbrev decoded : Option (List ℕ) → ℕ → Option (List ℕ × ℕ)
decoded none n = none
decoded (some bytes) n = some (bytes, length bytes - n)

abbrev decode_normalized : Evp → Option (List ℕ) → Option (List ℕ × ℕ)
decode_normalized evp none = none
decode_normalized evp (some text) = decoded (evp.decode_block text) (total_padding text)

-- The buffer with the decoded length: the block decoder counts a byte too much for each `=`.
unfoldable pub unbase64 : Evp → List ℕ → Option (List ℕ × ℕ)
unfolding base64url_normalize total_padding
unbase64 evp input = decode_normalized evp (base64url_normalize input)
