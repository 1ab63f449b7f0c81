-- ===== src/Cidr/Scanned.antt =====
-- What the loop of `inet_net_pton_ipv6` of src/shared/cidr.c keeps: the length of the prefix and
-- the size of `tmp`.
use susshi.Prelude.{
  ◌∙◌, set, length-set, ℕ, ◌+◌, ◌*◌, ◌||◌, ◌≤◌, ◌≡◌, refl, ltb, Bool, true, false, not, ◌&&◌,
  Option, none, some, List, [], ◌∷◌, ◌==◌, is_empty, length, leb, arith, if◌then◌else◌,
}
use susshi.Cidr.{getbits, digit}
use susshi.Cidr.Digits.{getbits-decimal_iff}
use susshi.Cidr.Octets.{V4, V4Scan, V4Next, returns, goes_on, v4_next, getv4_loop, getv4, with_bits}
use susshi.Cidr.Parse.{
  started, Scan, Next, enoent, return_0, breaks, continues, xdigit, at_double, at_colon, later,
  at_dot, at_slash, at_xdigit, scan, scan_all, after_loop, bits_of, put_group, next_group,
  write_bytes,
}

-- The length of a prefix that was read so far.
unfoldable pub AtMost128 : Option ℕ → Type 0
AtMost128 o = bits_of o ≤ 128

getbits-AtMost128 : (src : List ℕ) → AtMost128 (getbits src)
unfolding AtMost128
getbits-AtMost128 src = by_result (getbits src) refl
  where
    by_result : (o : Option ℕ) → getbits src ≡ o → bits_of o ≤ 128
    by_result none e = omega arith
    by_result (some b) e = ((getbits-decimal_iff src b).0 e).1

-- What the parser of IPv4 addresses gives, if it succeeds.
V4Small : Option V4 → Type 0
V4Small none = Unit
V4Small (some v) = AtMost128 v.bits

V4NextSmall : V4Next → Type 0
V4NextSmall (returns r) = V4Small r
V4NextSmall (goes_on s) = Unit

V4NextSmall-if :
    (b : Bool) (m n : V4Next) → V4NextSmall m → V4NextSmall n → V4NextSmall (if b then m else n)
V4NextSmall-if true m n sm sn = sm
V4NextSmall-if false m n sm sn = sn

with_bits-V4Small : (octets : List ℕ) (o : Option ℕ) → AtMost128 o → V4Small (with_bits octets o)
unfolding V4Small
with_bits-V4Small octets none small = tt
with_bits-V4Small octets (some b) small = small

v4_next-V4NextSmall :
    (o : Option ℕ) (ch : ℕ) (src : List ℕ) (s : V4Scan) → V4NextSmall (v4_next o ch src s)
unfolding V4NextSmall V4Small
v4_next-V4NextSmall (some d) ch src s =
    V4NextSmall-if (not (s.n == 0) && s.value == 0) _ _ tt
      (V4NextSmall-if (ltb 255 (s.value * 10 + d)) _ _ tt tt)
v4_next-V4NextSmall none ch src s = V4NextSmall-if (not (ch == 46 || ch == 47)) _ _ tt (
    V4NextSmall-if (ltb 3 s.count) _ _ tt (
      V4NextSmall-if (ch == 47) _ _ (with_bits-V4Small _ (getbits src) (getbits-AtMost128 src)) tt))

ended_v4 :
    (b c : Bool) (octets : List ℕ)
    → V4Small
        (if b then none else if c then none else some (record { octets = octets; bits = none }))
unfolding V4Small AtMost128
ended_v4 true c octets = tt
ended_v4 false true octets = tt
ended_v4 false false octets = omega arith

getv4_loop-V4Small : (src : List ℕ) (s : V4Scan) → V4Small (getv4_loop src s)
unfolding getv4_loop
getv4_loop-V4Small [] s = ended_v4 (s.n == 0) (ltb 3 s.count) _
getv4_loop-V4Small (ch ∷ src) s =
    by_next (v4_next (digit ch) ch src s) (v4_next-V4NextSmall (digit ch) ch src s)
      (λ t. getv4_loop-V4Small src t)
  where
    by_next :
        (n : V4Next)
        → V4NextSmall n
        → ((t : V4Scan) → V4Small (getv4_loop src t))
        → V4Small (elim n [ returns r ↦ r | goes_on t ↦ getv4_loop src t ])
    by_next (returns r) k ih = unfold V4NextSmall in k
    by_next (goes_on t) k ih = ih t

getv4-V4Small : (src : List ℕ) → V4Small (getv4 src)
unfolding getv4
getv4-V4Small src = getv4_loop-V4Small src _

-- The length of the prefix and the size of `tmp` while the loop runs.
pub record IsSmall (s : Scan) : Type 0 where
  pub short : AtMost128 s.bits
  pub sized : length s.tmp ≡ 16

unfoldable pub Small : Next → Type 0
Small (breaks s) = IsSmall s
Small (continues s) = IsSmall s
Small _ = Unit

Small-if : (b : Bool) (m n : Next) → Small m → Small n → Small (if b then m else n)
Small-if true m n sm sn = sm
Small-if false m n sm sn = sn

put-IsSmall : (s : Scan) → IsSmall s → IsSmall (put_group s)
put-IsSmall s k = record {
  short = k.short;
  sized = length-set (set s.tmp s.tp _) (s.tp + 1) _ ∙ length-set s.tmp s.tp _ ∙ k.sized;
}

grouped : (s : Scan) → IsSmall s → IsSmall (next_group s)
grouped s k = record { short = k.short; sized = (put-IsSmall s k).sized }

length-write_bytes :
    (tmp : List ℕ) (i : ℕ) (bytes : List ℕ) → length (write_bytes tmp i bytes) ≡ length tmp
unfolding write_bytes
length-write_bytes tmp i [] = refl
length-write_bytes tmp i (b ∷ bytes) =
    length-write_bytes (set tmp i b) (i + 1) bytes ∙ length-set tmp i b

at_colon-Small : (src : List ℕ) (s : Scan) → IsSmall s → Small (at_colon src s)
unfolding Small
at_colon-Small src s small =
    Small-if (not s.saw_xdigit) _ _ (by_colon s.colonp)
      (Small-if (is_empty src) _ _ tt (Small-if (ltb 16 (s.tp + 2)) _ _ tt (grouped s small)))
  where
    by_colon : (o : Option ℕ) → Small (at_double o s)
    by_colon none = record { short = small.short; sized = small.sized }
    by_colon (some c) = tt

at_dot-Small : (o : Option V4) (s : Scan) → V4Small o → IsSmall s → Small (at_dot o s)
unfolding Small V4Small
at_dot-Small none s v small = tt
at_dot-Small (some v) s small_v small = record {
  short = by_bits v.bits small_v;
  sized = length-write_bytes s.tmp s.tp v.octets ∙ small.sized;
}
  where
    by_bits : (o : Option ℕ) → AtMost128 o → AtMost128 (later o s.bits)
    by_bits none k = small.short
    by_bits (some b) k = k

at_slash-Small : (o : Option ℕ) (s : Scan) → AtMost128 o → IsSmall s → Small (at_slash o s)
unfolding Small
at_slash-Small none s b_small small = tt
at_slash-Small (some b) s b_small small = record { short = b_small; sized = small.sized }

at_xdigit-Small :
    (o : Option ℕ) (ch : ℕ) (src : List ℕ) (s : Scan) → IsSmall s → Small (at_xdigit o ch src s)
unfolding Small
at_xdigit-Small (some d) ch src s small =
    Small-if (ltb 4 (s.digits + 1)) _ _ tt (record { short = small.short; sized = small.sized })
at_xdigit-Small none ch src s small =
    Small-if (ch == 58) _ _
      (at_colon-Small src (record s { curtok = src })
        (record { short = small.short; sized = small.sized }))
      (Small-if (ch == 46 && leb (s.tp + 4) 16) _ _
        (at_dot-Small (getv4 s.curtok) s (getv4-V4Small s.curtok) small)
        (Small-if (ch == 47) _ _ (at_slash-Small (getbits src) s (getbits-AtMost128 src) small) tt))

scan-Small : (src : List ℕ) (s : Scan) → IsSmall s → Small (scan src s)
unfolding scan
scan-Small [] s small = unfold Small in small
scan-Small (ch ∷ src) s small =
    by_next (at_xdigit (xdigit ch) ch src s) (at_xdigit-Small (xdigit ch) ch src s small)
      (λ t k. scan-Small src t k)
  where
    by_next :
        (n : Next)
        → Small n
        → ((t : Scan) → IsSmall t → Small (scan src t))
        → Small (elim n [
          | enoent ↦ enoent
          | return_0 ↦ return_0
          | breaks t ↦ breaks t
          | continues t ↦ scan src t
        ])
    by_next enoent k ih = unfold Small in tt
    by_next return_0 k ih = unfold Small in tt
    by_next (breaks t) k ih = k
    by_next (continues t) k ih = ih t (unfold Small in k)

started-AtMost128 : (src : List ℕ) → AtMost128 (started src).bits
unfolding AtMost128
started-AtMost128 src = omega arith

started-IsSmall : (src : List ℕ) → IsSmall (started src)
started-IsSmall src = record { short = started-AtMost128 src; sized = refl }

Small-enoent : Small enoent
unfolding Small
Small-enoent = tt

pub scan_all-Small : (src : List ℕ) → Small (scan_all src)
unfolding scan_all
scan_all-Small [] = unfold Small in started-IsSmall []
scan_all-Small (ch ∷ []) =
    Small-if (ch == 58) _ _ Small-enoent
      (scan-Small (ch ∷ []) (started (ch ∷ [])) (started-IsSmall (ch ∷ [])))
scan_all-Small (ch ∷ c ∷ src) =
    Small-if (ch == 58) _ _
      (Small-if (c == 58) _ _ (scan-Small (c ∷ src) (started (c ∷ src)) (started-IsSmall (c ∷ src)))
        Small-enoent)
      (scan-Small (ch ∷ c ∷ src) (started (ch ∷ c ∷ src)) (started-IsSmall (ch ∷ c ∷ src)))

pub after_loop-Small : (n : Next) → Small n → Small (after_loop n)
unfolding Small
after_loop-Small enoent k = tt
after_loop-Small return_0 k = tt
after_loop-Small (continues s) k = tt
after_loop-Small (breaks s) k =
    Small-if s.saw_xdigit _ _ (Small-if (ltb 16 (s.tp + 2)) _ _ tt (put-IsSmall s k)) k
