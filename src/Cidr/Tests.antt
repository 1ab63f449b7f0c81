-- ===== src/Cidr/Tests.antt =====
-- Networks and prefixes, on concrete ones.
use susshi.Prelude.{
  none, false, ℕ, zero, suc, ◌+◌, ◌*◌, ◌/◌, ◌%◌, ◌^◌, ◌<◌, ◌≤◌, ◌≡◌, ◌↔◌, refl, Bool, true, some,
  List, [], ◌∷◌, get_elem?, replicate, arith,
}
use susshi.Result.{done, stop, crash}
use susshi.Cidr.{same_words, same_start, cidr4_match, cidr6_match, getbits_loop, getbits}
use susshi.Cidr.Match.{
  prefix, host_part, Leading, SameStart, IsAddress, cidr4_match-prefix_iff, cidr6_match-prefix_iff,
}
use susshi.Cidr.Parse.{
  scan, scan_all, shift, copy_bytes, refused, parsed, inet_net_pton_ipv6, words, Resolver,
  match_cidr,
}
use susshi.Cidr.Digits.{decimal, getbits-decimal_iff}

-- 192.168.1.50 and 192.168.1.0
abbrev host : ℕ
host = 192 * 2 ^ 24 + 168 * 2 ^ 16 + 2 ^ 8 + 50

abbrev network : ℕ
network = 192 * 2 ^ 24 + 168 * 2 ^ 16 + 2 ^ 8

in_network : cidr4_match host network 24 ≡ done true
unfolding cidr4_match
in_network = refl

cidr4_match-prefix_iff_example :
    (cidr4_match host network 24 ≡ done true)
    ↔ ((prefix 24 host ≡ prefix 24 network) × (host_part 24 network ≡ 0))
cidr4_match-prefix_iff_example = cidr4_match-prefix_iff host network 24 (omega arith) (omega arith)

-- 2001:db8::1 and 2001:db8::
abbrev host6 : List ℕ
host6 = 536939960 ∷ 0 ∷ 0 ∷ 1 ∷ []

abbrev network6 : List ℕ
network6 = 536939960 ∷ 0 ∷ 0 ∷ 0 ∷ []

IsAddress-words : (w z : ℕ) → w < 2 ^ 32 → z < 2 ^ 32 → IsAddress (w ∷ 0 ∷ 0 ∷ z ∷ [])
IsAddress-words w z lw lz = record { four = refl; fits = by_index }
  where
    by_index : (i x : ℕ) → get_elem? (w ∷ 0 ∷ 0 ∷ z ∷ []) i ≡ some x → x < 2 ^ 32
    by_index zero x h = let e : w ≡ x = cc in rw (← e) lw
    by_index (suc zero) x h = let e : 0 ≡ x = cc in omega (arith, e)
    by_index (suc (suc zero)) x h = let e : 0 ≡ x = cc in omega (arith, e)
    by_index (suc (suc (suc zero))) x h = let e : z ≡ x = cc in rw (← e) lz
    by_index (suc (suc (suc (suc i)))) x h = cc

cidr6_match-prefix_iff_example :
    (b : Bool) × (cidr6_match host6 network6 40 ≡ done b)
    × ((b ≡ true)
        ↔ (Leading (40 / 32) host6 network6 × SameStart host6 network6 (40 / 32) (40 % 32)))
cidr6_match-prefix_iff_example =
    cidr6_match-prefix_iff host6 network6 40
      (IsAddress-words 536939960 1 (omega arith) (omega arith))
      (IsAddress-words 536939960 0 (omega arith) (omega arith)) (omega arith)

getbits_run : getbits (49 ∷ 50 ∷ 56 ∷ []) ≡ some 128
unfolding getbits getbits_loop
getbits_run = refl

getbits-decimal_iff_example :
    (getbits (49 ∷ 50 ∷ 56 ∷ []) ≡ some 128) ↔ ((49 ∷ 50 ∷ 56 ∷ [] ≡ decimal 128) × (128 ≤ 128))
getbits-decimal_iff_example = getbits-decimal_iff (49 ∷ 50 ∷ 56 ∷ []) 128

-- `2001:db8::/32`
abbrev network_text : List ℕ
network_text = 50 ∷ 48 ∷ 48 ∷ 49 ∷ 58 ∷ 100 ∷ 98 ∷ 56 ∷ 58 ∷ 58 ∷ 47 ∷ 51 ∷ 50 ∷ []

abbrev blank : List ℕ
blank = replicate 16 0

abbrev network_bytes : List ℕ
network_bytes = 32 ∷ 1 ∷ 13 ∷ 184 ∷ replicate 12 0

parse_run : inet_net_pton_ipv6 network_text blank 16 ≡ done (parsed 32 network_bytes)
unfolding inet_net_pton_ipv6 scan_all scan shift copy_bytes getbits getbits_loop
parse_run = refl

-- `::1:2:3/8`: more groups after the `::` than the prefix has room for.
abbrev crowded : List ℕ
crowded = 58 ∷ 58 ∷ 49 ∷ 58 ∷ 50 ∷ 58 ∷ 51 ∷ 47 ∷ 56 ∷ []

underflow : inet_net_pton_ipv6 crowded blank 16 ≡ stop crash
unfolding inet_net_pton_ipv6 scan_all scan shift copy_bytes getbits getbits_loop
underflow = refl

-- Nine groups are refused, but with a colon after the ninth the answer is the length 0.
abbrev eight_groups : List ℕ → List ℕ
eight_groups rest = 49 ∷ 58 ∷ 49 ∷ 58 ∷ 49 ∷ 58 ∷ 49 ∷ 58 ∷ 49 ∷ 58 ∷ 49 ∷ 58 ∷ 49 ∷ 58 ∷ 49 ∷ rest

nine_run : inet_net_pton_ipv6 (eight_groups (58 ∷ 49 ∷ [])) blank 16 ≡ done refused
unfolding inet_net_pton_ipv6 scan_all scan shift copy_bytes
nine_run = refl

ten_run :
    inet_net_pton_ipv6 (eight_groups (58 ∷ 49 ∷ 58 ∷ 49 ∷ [])) blank 16 ≡ done (parsed 0 blank)
unfolding inet_net_pton_ipv6 scan_all scan shift copy_bytes
ten_run = refl

-- `::1` is the only address that is known.
abbrev resolver : Resolver
resolver = record {
  pton4 = λ t. none;
  pton6 = λ t. some (0 ∷ 0 ∷ 0 ∷ 1 ∷ []);
  net_pton4 = λ t. none;
}

match_run : match_cidr resolver blank (58 ∷ 58 ∷ 49 ∷ []) network_text ≡ done false
unfolding match_cidr inet_net_pton_ipv6 words cidr6_match scan_all scan shift copy_bytes getbits
    getbits_loop same_words same_start
match_run = refl
