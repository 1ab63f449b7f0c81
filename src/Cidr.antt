-- ===== src/Cidr.antt =====
-- Addresses and networks, src/shared/cidr.c. A string is the list of its bytes without the final
-- NUL; a 32-bit word of an address stands for its value in network order, so `htonl` is left out.
pub mod Match
pub mod Digits
pub mod Octets
pub mod Parse
pub mod Scanned
pub mod Bounds
mod Tests
use Prim.Native.Nat.{bit_xor}
use susshi.Prelude.{
  ℕ, zero, suc, ◌+◌, ◌*◌, ◌-◌, ◌/◌, ◌%◌, ◌^◌, Bool, true, false, not, ◌&&◌, Option, none, some,
  List, [], ◌∷◌, get_elem?, bit_and, ltb, leb, ◌==◌, if◌then◌else◌,
}
use susshi.Result.{Result, done, stop, crash, ◌>>=◌}

-- `strchr("0123456789", ch)`
abbrev pub digit : ℕ → Option ℕ
digit ch = if leb 48 ch && leb ch 57 then some (ch - 48) else none

-- The value after one more character: no leading zeros, and at most 128.
abbrev pub next_value : Option ℕ → ℕ → ℕ → Option ℕ
next_value none n val = none
next_value (some d) n val =
    if not (n == 0) && val == 0
    then none
    else if ltb 128 (val * 10 + d)
    then none
    else some (val * 10 + d)

-- The loop, with the number of digits that were read and their value.
unfoldable pub getbits_loop : List ℕ → ℕ → ℕ → Option ℕ
getbits_loop [] n val = if n == 0 then none else some val
getbits_loop (ch ∷ src) n val = elim (next_value (digit ch) n val) [
  | none ↦ none
  | some v ↦ getbits_loop src (n + 1) v
]

unfoldable pub getbits : List ℕ → Option ℕ
unfolding getbits_loop
getbits src = getbits_loop src 0 0

-- `0xFFFFFFFFu << (32 - bits)`: a shift by a negative number is undefined.
abbrev pub mask : ℕ → Result ℕ
mask bits = if ltb 32 bits then stop crash else done ((2 ^ 32 - 1) * 2 ^ (32 - bits) % 2 ^ 32)

abbrev pub masked : ℕ → ℕ → Result ℕ
masked address bits = if bits == 0 then done 0 else (do m ← mask bits; done (bit_and address m))

unfoldable pub cidr4_match : ℕ → ℕ → ℕ → Result Bool
cidr4_match address network bits = do ip_masked ← masked address bits; done (ip_masked == network)

-- `memcmp` of a number of whole words; past the end it is undefined.
unfoldable pub same_words : ℕ → List ℕ → List ℕ → Result Bool
same_words zero a n = done true
same_words (suc k) (x ∷ a) (y ∷ n) = do rest ← same_words k a n; done (x == y && rest)
same_words (suc k) _ _ = stop crash

abbrev pub in_bounds : Option ℕ → Result ℕ
in_bounds none = stop crash
in_bounds (some w) = done w

abbrev pub word_at : List ℕ → ℕ → Result ℕ
word_at a i = in_bounds (get_elem? a i)

-- The comparison in the word that the prefix ends in.
abbrev pub same_start : List ℕ → List ℕ → ℕ → ℕ → Result Bool
same_start a n bits_whole bits_incomplete = if bits_incomplete == 0 then done true else (do
  m ← mask bits_incomplete
  x ← word_at a bits_whole
  y ← word_at n bits_whole
  done (bit_and (bit_xor x y) m == 0))

abbrev pub start_if : Bool → Result Bool → Result Bool
start_if true start = start
start_if false start = done false

unfoldable pub cidr6_match : List ℕ → List ℕ → ℕ → Result Bool
unfolding same_words
cidr6_match address network bits = do
  whole ← same_words (bits / 32) address network
  start_if whole (same_start address network (bits / 32) (bits % 32))
