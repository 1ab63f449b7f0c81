-- ===== src/Cidr/Parse.antt =====
-- The parsing of networks, src/shared/cidr.c: `inet_net_pton_ipv6`, `susshi_match_cidr`.
use susshi.Prelude.{
  ℕ, zero, suc, ◌+◌, ◌*◌, ◌-◌, ◌/◌, ◌%◌, ◌^◌, Bool, true, false, not, ◌&&◌, Option, none, some,
  List, [], ◌∷◌, get_elem?, set, replicate, any, is_empty, ltb, leb, ◌==◌, if◌then◌else◌,
}
use susshi.Result.{Result, done, stop, crash, ◌>>=◌}
use susshi.Cidr.{getbits, cidr4_match, cidr6_match}
use susshi.Cidr.Octets.{V4, getv4}

-- The locals of the loop. `tp` and `colonp` are offsets in `tmp`; a `bits` of -1 is `none`.
pub record Scan : Type 0 where
  pub tmp : List ℕ
  pub tp : ℕ
  pub colonp : Option ℕ
  pub curtok : List ℕ
  pub saw_xdigit : Bool
  pub val : ℕ
  pub digits : ℕ
  pub bits : Option ℕ
  pub ipv4 : Bool

-- `goto enoent`, `return (0)`, `break` and `continue`.
pub data Next : Type 0 where
  enoent return_0 : Next
  breaks continues : Scan → Next

abbrev between : ℕ → ℕ → ℕ → Bool
between a b ch = leb a ch && leb ch b

abbrev pub xdigit : ℕ → Option ℕ
xdigit ch =
    if between 48 57 ch
    then some (ch - 48)
    else if between 97 102 ch
    then some (ch - 87)
    else if between 65 70 ch
    then some (ch - 55)
    else none

-- `*tp++ = (u_char) (val >> 8) & 0xff; *tp++ = (u_char) val & 0xff;`
abbrev pub put_group : Scan → Scan
put_group s = record s {
  tmp = set (set s.tmp s.tp (s.val / 2 ^ 8 % 2 ^ 8)) (s.tp + 1) (s.val % 2 ^ 8);
  tp = s.tp + 2;
}

abbrev pub next_group : Scan → Scan
next_group s = record (put_group s) { saw_xdigit = false; digits = 0; val = 0 }

abbrev pub at_double : Option ℕ → Scan → Next
at_double none s = continues (record s { colonp = some s.tp })
at_double (some c) s = enoent

abbrev pub at_colon : List ℕ → Scan → Next
at_colon src s =
    if not s.saw_xdigit
    then at_double s.colonp s
    else if is_empty src
    then enoent
    else if ltb 16 (s.tp + 2)
    then return_0
    else continues (next_group s)

unfoldable pub write_bytes : List ℕ → ℕ → List ℕ → List ℕ
write_bytes tmp i [] = tmp
write_bytes tmp i (b ∷ bytes) = write_bytes (set tmp i b) (i + 1) bytes

abbrev pub later : Option ℕ → Option ℕ → Option ℕ
later none old = old
later (some b) old = some b

abbrev pub at_dot : Option V4 → Scan → Next
at_dot none s = enoent
at_dot (some v) s = breaks (record s {
  tmp = write_bytes s.tmp s.tp v.octets;
  tp = s.tp + 4;
  saw_xdigit = false;
  bits = later v.bits s.bits;
  ipv4 = true;
})

abbrev pub at_slash : Option ℕ → Scan → Next
at_slash none s = enoent
at_slash (some b) s = breaks (record s { bits = some b })

abbrev pub at_other : ℕ → List ℕ → Scan → Next
at_other ch src s =
    if ch == 58
    then at_colon src (record s { curtok = src })
    else if ch == 46 && leb (s.tp + 4) 16
    then at_dot (getv4 s.curtok) s
    else if ch == 47
    then at_slash (getbits src) s
    else enoent

abbrev pub at_xdigit : Option ℕ → ℕ → List ℕ → Scan → Next
at_xdigit none ch src s = at_other ch src s
at_xdigit (some d) ch src s =
    if ltb 4 (s.digits + 1)
    then enoent
    else continues
        (record s { val = (s.val * 2 ^ 4 + d) % 2 ^ 32; digits = s.digits + 1; saw_xdigit = true })

unfoldable pub scan : List ℕ → Scan → Next
scan [] s = breaks s
scan (ch ∷ src) s = elim (at_xdigit (xdigit ch) ch src s) [
  | enoent ↦ enoent
  | return_0 ↦ return_0
  | breaks t ↦ breaks t
  | continues t ↦ scan src t
]

abbrev zeros : List ℕ
zeros = replicate 16 0

abbrev pub started : List ℕ → Scan
started src = record {
  tmp = zeros;
  tp = 0;
  colonp = none;
  curtok = src;
  saw_xdigit = false;
  val = 0;
  digits = 0;
  bits = none;
  ipv4 = false;
}

abbrev at_second : List ℕ → Next
at_second [] = enoent
at_second (ch ∷ src) =
    let rest = scan (ch ∷ src) (started (ch ∷ src)) in if ch == 58 then rest else enoent

-- Leading `::` requires some special handling: the first colon is skipped.
unfoldable pub scan_all : List ℕ → Next
unfolding scan
scan_all [] = breaks (started [])
scan_all (ch ∷ src) =
    let rest = scan (ch ∷ src) (started (ch ∷ src)) in if ch == 58 then at_second src else rest

-- What `inet_net_pton_ipv6` returns: -1, or a length and the destination.
pub data Parsed : Type 0 where
  refused : Parsed
  parsed : ℕ → List ℕ → Parsed

-- A write to `tmp`, which has 16 bytes; the offset is `top - below`.
abbrev move_to : ℕ → ℕ → ℕ → List ℕ → Result (List ℕ)
move_to top below value tmp =
    if ltb top below then stop crash else done (set tmp (top - below) value)

abbrev pub byte_at : Option ℕ → ℕ
byte_at none = 0
byte_at (some b) = b

-- The loop over `i = 1 .. n`: `endp[-i] = colonp[n - i]; colonp[n - i] = 0`.
unfoldable pub shift : ℕ → ℕ → ℕ → ℕ → List ℕ → Result (List ℕ)
shift zero i endp tp tmp = done tmp
shift (suc left) i endp tp tmp = do
  moved ← move_to endp i (byte_at (get_elem? tmp (tp - i))) tmp
  shift left (i + 1) endp tp (set moved (tp - i) 0)

abbrev pub last_group : Scan → Next
last_group s =
    if s.saw_xdigit then (if ltb 16 (s.tp + 2) then enoent else breaks (put_group s)) else breaks s

abbrev pub bits_of : Option ℕ → ℕ
bits_of none = 128
bits_of (some b) = b

abbrev pub words_of : Bool → ℕ → ℕ
words_of true bits = 8
words_of false bits = if ltb ((bits + 15) / 16) 2 then 2 else (bits + 15) / 16

-- `memcpy` of the bytes that the prefix needs over those of the destination; past the end of either
-- it is undefined.
unfoldable pub copy_bytes : ℕ → List ℕ → List ℕ → Result (List ℕ)
copy_bytes zero tmp dst = done dst
copy_bytes (suc k) (b ∷ tmp) (d ∷ dst) = do rest ← copy_bytes k tmp dst; done (b ∷ rest)
copy_bytes (suc k) _ _ = stop crash

abbrev pub fill_in : Option ℕ → ℕ → Scan → Result (Option (List ℕ))
fill_in none endp s = if s.tp == endp then done (some s.tmp) else done none
fill_in (some c) endp s =
    if s.tp == endp && not (s.tp - c == 0)
    then done none
    else (do tmp ← shift (s.tp - c) 1 endp s.tp s.tmp; done (some tmp))

-- `goto emsgsize` if the prefix needs more bytes than the destination is said to have.
abbrev pub copy_out : ℕ → ℕ → List ℕ → Option (List ℕ) → Result Parsed
copy_out bits size dst none = done refused
copy_out bits size dst (some tmp) =
    if ltb size ((bits + 7) / 8)
    then done refused
    else (do out ← copy_bytes ((bits + 7) / 8) tmp dst; done (parsed bits out))

-- The end of what the prefix needs of `tmp`.
abbrev pub end_of : Scan → ℕ
end_of s = 2 * words_of s.ipv4 (bits_of s.bits)

abbrev pub finish : ℕ → List ℕ → Next → Result Parsed
finish size dst enoent = done refused
finish size dst return_0 = done (parsed 0 dst)
finish size dst (continues s) = done refused
finish size dst (breaks s) = do
  tmp ← fill_in s.colonp (end_of s) s
  copy_out (bits_of s.bits) size dst tmp

abbrev pub after_loop : Next → Next
after_loop enoent = enoent
after_loop return_0 = return_0
after_loop (continues s) = enoent
after_loop (breaks s) = last_group s

-- `dst` is the destination before the call, and `size` what the caller says of its size.
unfoldable pub inet_net_pton_ipv6 : List ℕ → List ℕ → ℕ → Result Parsed
unfolding scan_all shift copy_bytes
inet_net_pton_ipv6 src dst size = finish size dst (after_loop (scan_all src))

-- The C library's `inet_pton` for both families, and `inet_net_pton` for IPv4.
pub record Resolver : Type 0 where
  pub pton4 : List ℕ → Option ℕ
  pub pton6 : List ℕ → Option (List ℕ)
  pub net_pton4 : List ℕ → Option (ℕ × ℕ)

-- Four words from 16 bytes.
unfoldable pub words : List ℕ → List ℕ
words (a ∷ b ∷ c ∷ d ∷ rest) = (a * 2 ^ 24 + b * 2 ^ 16 + c * 2 ^ 8 + d) ∷ words rest
words _ = []

abbrev pub has_colon : List ℕ → Bool
has_colon s = any (λ ch. ch == 58) s

abbrev match4 : Option ℕ → Option (ℕ × ℕ) → Result Bool
match4 (some ip) (some (net, bits)) = cidr4_match ip net (bits % 2 ^ 8)
match4 _ _ = done false

abbrev pub match_parsed : List ℕ → Parsed → Result Bool
match_parsed ip refused = done false
match_parsed ip (parsed bits net) = cidr6_match ip (words net) (bits % 2 ^ 8)

abbrev pub match6 : Option (List ℕ) → List ℕ → List ℕ → Result Bool
match6 none network dst = done false
match6 (some ip) network dst = do net ← inet_net_pton_ipv6 network dst 16; match_parsed ip net

-- `dst` is the memory of the network's address, which starts out uninitialised.
unfoldable pub match_cidr : Resolver → List ℕ → List ℕ → List ℕ → Result Bool
unfolding inet_net_pton_ipv6 words
match_cidr r dst ip_address network =
    if not (has_colon ip_address) && has_colon network
    then done false
    else if has_colon ip_address && not (has_colon network)
    then done false
    else if has_colon ip_address
    then match6 (r.pton6 ip_address) network dst
    else match4 (r.pton4 ip_address) (r.net_pton4 network)
