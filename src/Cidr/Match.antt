-- ===== src/Cidr/Match.antt =====
-- What `cidr4_match` and `cidr6_match` of src/shared/cidr.c compare.
use Prim.Native.Nat.{bit_xor}
use susshi.Prelude.{
  ℕ, zero, suc, ◌+◌, ◌*◌, ◌-◌, ◌/◌, ◌%◌, ◌^◌, ◌≤◌, ◌<◌, ◌≡◌, ◌⊎◌, ◌↔◌, refl, sym, ◌∙◌, ap, Bool,
  true, false, ◌&&◌, some, List, [], ◌∷◌, get_elem?, length, bit_and, ltb, ◌==◌, ==_iff, arith,
}
use native.Mathlib.Nat.{div-add-mod', mul-div_cancel}
use susshi.Result.{done}
use susshi.Bits.{
  leading, bit_and-leading_div, xor_leading_div, shifted_ones, two_pow-add, two_pow-pos,
}
use susshi.Cidr.{
  mask, masked, cidr4_match, same_words, in_bounds, same_start, start_if, cidr6_match,
}

-- The first `bits` of 32 bits.
abbrev pub prefix : ℕ → ℕ → ℕ
prefix bits word = word / 2 ^ (32 - bits)

-- The bits after the prefix.
abbrev pub host_part : ℕ → ℕ → ℕ
host_part bits word = word % 2 ^ (32 - bits)

mask_lem : (bits : ℕ) → bits ≤ 32 → mask bits ≡ done (leading bits (32 - bits))
mask_lem bits le =
    let small : ltb 32 bits ≡ false = ground (arith, le) in
    rw small (ap done (shifted_ones bits (32 - bits) (omega arith)))

width : (bits a : ℕ) → bits ≤ 32 → a < 2 ^ 32 → a < 2 ^ bits * 2 ^ (32 - bits)
width bits a le lt =
    let e : bits + (32 - bits) ≡ 32 = omega arith in
    let all : 2 ^ bits * 2 ^ (32 - bits) ≡ 2 ^ 32 =
      two_pow-add bits (32 - bits) ∙ ap (λ t. 2 ^ t) e in
    omega (arith, all, lt)

-- The address with its host part set to zero.
masked_lem :
    (bits a : ℕ) → bits ≤ 32 → a < 2 ^ 32 → masked a bits ≡ done (prefix bits a * 2 ^ (32 - bits))
masked_lem zero a le lt = ap done (omega (arith, lt))
masked_lem (suc bits) a le lt =
    let kept = bit_and-leading_div (suc bits) (32 - suc bits) a (width (suc bits) a le lt) in
    let some_bits : (suc bits == 0) ≡ false = ground arith in
    rw (some_bits, mask_lem (suc bits) le) (ap done kept)

mul_mod : (q k : ℕ) → 0 < k → q * k % k ≡ 0
mul_mod q k pos =
    let whole : q * k + q * k % k ≡ q * k = rw (mul-div_cancel q pos) at (div-add-mod' (q * k) k) in
    omega (arith, whole)

done_iff : (b : Bool) → (done b ≡ done true) ↔ (b ≡ true)
done_iff b = ground arith

-- An IPv4 address matches a network exactly if both have the same first bits, as many as the
-- prefix has, and the network has no bit set after them.
pub cidr4_match-prefix_iff :
    (address network bits : ℕ)
    → address < 2 ^ 32
    → bits ≤ 32
    → (cidr4_match address network bits ≡ done true)
      ↔ ((prefix bits address ≡ prefix bits network) × (host_part bits network ≡ 0))
unfolding cidr4_match
cidr4_match-prefix_iff address network bits lt le =
    let q = prefix bits address in
    let k = 2 ^ (32 - bits) in
    let pos = two_pow-pos (32 - bits) in
    rw (masked_lem bits address le lt) (
      λ h.
          let e : q * k ≡ network =
            (==_iff (q * k) network).0 ((done_iff (q * k == network)).0 h) in
          rw (← e) (sym (mul-div_cancel q pos), mul_mod q k pos),
      λ (same, none_after). (done_iff (q * k == network)).1 (
          (==_iff (q * k) network).1
            (omega (arith, ap (λ t. t * k) same, none_after, div-add-mod' network k))),
    )

-- The words before the one in which the prefix ends.
abbrev pub Leading : ℕ → List ℕ → List ℕ → Type 0
Leading k a n = (i : ℕ) → i < k → get_elem? a i ≡ get_elem? n i

Leading-suc : (k x y : ℕ) (a n : List ℕ) → x ≡ y → Leading k a n → Leading (suc k) (x ∷ a) (y ∷ n)
Leading-suc k x y a n e l zero lt = ap some e
Leading-suc k x y a n e l (suc i) lt = l i (omega (arith, lt))

Leading-first :
    (k x y : ℕ) (a n : List ℕ) → Leading (suc k) (x ∷ a) (y ∷ n) → (x ≡ y) × Leading k a n
Leading-first k x y a n l =
    let e = l zero (omega arith) in (cc, λ i lt. l (suc i) (omega (arith, lt)))

both : (a b : Bool) → (a && b) ≡ true → (a ≡ true) × (b ≡ true)
both a b h = ground arith

-- `memcmp` within both arrays returns, and compares word by word.
same_words_lem :
    (k : ℕ) (a n : List ℕ)
    → k ≤ length a
    → k ≤ length n
    → (b : Bool) × (same_words k a n ≡ done b) × ((b ≡ true) ↔ Leading k a n)
unfolding same_words
same_words_lem zero a n la ln = (true, refl, (λ h i lt. absurd (omega (arith, lt)), λ h. refl))
same_words_lem (suc k) [] n la ln = absurd (omega (arith, la))
same_words_lem (suc k) (x ∷ a) [] la ln = absurd (omega (arith, ln))
same_words_lem (suc k) (x ∷ a) (y ∷ n) la ln =
    let (b, e, iff) = same_words_lem k a n (omega (arith, la)) (omega (arith, ln)) in
    (
      x == y && b,
      rw e,
      (
        λ h.
            let (same, rest) = both (x == y) b h in
            Leading-suc k x y a n ((==_iff x y).0 same) (iff.0 rest),
        λ l. let first = Leading-first k x y a n l in rw ((==_iff x y).1 first.0, iff.1 first.1),
      ),
    )

-- The words of an address.
pub record IsAddress (a : List ℕ) : Type 0 where
  pub four : length a ≡ 4
  pub fits : (i x : ℕ) → get_elem? a i ≡ some x → x < 2 ^ 32

get_elem?-some : (a : List ℕ) (i : ℕ) → i < length a → (x : ℕ) × (get_elem? a i ≡ some x)
get_elem?-some [] i lt = absurd (omega (arith, lt))
get_elem?-some (x ∷ a) zero lt = (x, refl)
get_elem?-some (x ∷ a) (suc i) lt = get_elem?-some a i (omega (arith, lt))

-- The words in which the prefix ends agree in their first bits.
pub record SameStart (a n : List ℕ) (i bits : ℕ) : Type 0 where
  pub agree :
      (x y : ℕ) → get_elem? a i ≡ some x → get_elem? n i ≡ some y → prefix bits x ≡ prefix bits y

same_start_lem :
    (a n : List ℕ) (i bits : ℕ)
    → IsAddress a
    → IsAddress n
    → bits < 32
    → (bits ≡ 0) ⊎ (i < 4)
    → (b : Bool) × (same_start a n i bits ≡ done b) × ((b ≡ true) ↔ SameStart a n i bits)
same_start_lem a n i zero ia ib lt w = (
  true,
  refl,
  (λ h. record { agree = λ x y ex ey. omega (arith, ia.fits i x ex, ib.fits i y ey) }, λ h. refl),
)
same_start_lem a n i (suc bits) ia ib lt w =
    let (x, ex) = get_elem?-some a i (ground (arith, w, ia.four)) in
    let (y, ey) = get_elem?-some n i (ground (arith, w, ib.four)) in
    let iff =
      xor_leading_div (suc bits) (32 - suc bits) x y
        (width (suc bits) x (omega (arith, lt)) (ia.fits i x ex))
        (width (suc bits) y (omega (arith, lt)) (ib.fits i y ey)) in
    let m = leading (suc bits) (32 - suc bits) in
    let some_bits : (suc bits == 0) ≡ false = ground arith in
    (
      bit_and (bit_xor x y) m == 0,
      rw (some_bits, mask_lem (suc bits) (omega (arith, lt)), ap in_bounds ex, ap in_bounds ey),
      (
        λ h. record {
          agree = λ u v eu ev.
              let eux : u ≡ x = cc (eu, ex) in
              let evy : v ≡ y = cc (ev, ey) in
              rw (eux, evy) (iff.0 ((==_iff (bit_and (bit_xor x y) m) 0).0 h));
        },
        λ s. (==_iff (bit_and (bit_xor x y) m) 0).1 (iff.1 (s.agree x y ex ey)),
      ),
    )

-- An IPv6 address of four words is compared with a network within the bounds of both, for every
-- prefix of at most 128 bits: they match exactly if the whole words of the prefix are the same and
-- the next words agree in the bits that are left of it.
pub cidr6_match-prefix_iff :
    (address network : List ℕ) (bits : ℕ)
    → IsAddress address
    → IsAddress network
    → bits ≤ 128
    → (b : Bool) × (cidr6_match address network bits ≡ done b)
      × ((b ≡ true) ↔ (
          Leading (bits / 32) address network × SameStart address network (bits / 32) (bits % 32)))
unfolding cidr6_match
cidr6_match-prefix_iff address network bits ia ib le =
    let whole = bits / 32 in
    let (b, e, words) =
      same_words_lem whole address network (omega (arith, le, ia.four))
        (omega (arith, le, ib.four)) in
    let (c, ec, start) =
      same_start_lem address network whole (bits % 32) ia ib (omega arith) (ground (arith, le)) in
    rw e (by_words b words c ec start)
  where
    by_words :
        (b : Bool)
        → (b ≡ true) ↔ Leading (bits / 32) address network
        → (c : Bool) → same_start address network (bits / 32) (bits % 32) ≡ done c
        → (c ≡ true) ↔ SameStart address network (bits / 32) (bits % 32)
        → (d : Bool) × (start_if b (same_start address network (bits / 32) (bits % 32)) ≡ done d)
          × ((d ≡ true) ↔ (
              Leading (bits / 32) address network
              × SameStart address network (bits / 32) (bits % 32)))
    by_words true words c ec start = (c, ec, (λ h. (words.0 refl, start.0 h), λ (l, s). start.1 s))
    by_words false words c ec start = (false, refl, (λ h. cc, λ (l, s). words.1 l))
