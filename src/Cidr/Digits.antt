-- ===== src/Cidr/Digits.antt =====
-- Which texts `getbits` of src/shared/cidr.c reads as the length of a prefix.
use susshi.Prelude.{
  ℕ, ◌+◌, ◌*◌, ◌/◌, ◌%◌, ◌≤◌, ◌<◌, ◌≡◌, ◌⊎◌, ◌↔◌, refl, ◌∙◌, ap, inl, inr, Bool, true, false,
  Option, none, some, List, [], ◌∷◌, ltb, ◌==◌, ltb→lt, arith, if◌then◌else◌,
}
use susshi.Cidr.{digit, next_value, getbits_loop, getbits}

-- The decimal digits of a number below 1000, without leading zeros.
abbrev pub decimal : ℕ → List ℕ
decimal v =
    if ltb v 10
    then (48 + v) ∷ []
    else if ltb v 100
    then (48 + v / 10) ∷ (48 + v % 10) ∷ []
    else (48 + v / 100) ∷ (48 + v / 10 % 10) ∷ (48 + v % 10) ∷ []

digit_lem : (d : ℕ) → d < 10 → digit (48 + d) ≡ some d
digit_lem d lt = ground (arith, lt)

digit-some : (c d : ℕ) → digit c ≡ some d → (c ≡ 48 + d) × (d < 10)
digit-some c d h = ground (arith, h)

-- A digit that the loop accepts.
next_lem :
    (d n val : ℕ)
    → (n ≡ 0) ⊎ (0 < val)
    → val * 10 + d ≤ 128
    → next_value (some d) n val ≡ some (val * 10 + d)
next_lem d n val first le = ground (arith, first, le)

next-some :
    (o : Option ℕ) (n val v : ℕ)
    → next_value o n val ≡ some v
    → (d : ℕ) × (o ≡ some d) × (((n ≡ 0) ⊎ (0 < val)) × (val * 10 + d ≤ 128) × (v ≡ val * 10 + d))
next-some none n val v h = cc
next-some (some d) n val v h = (d, refl, ground (arith, h))

step :
    (d n val : ℕ) (src : List ℕ)
    → d < 10
    → (n ≡ 0) ⊎ (0 < val)
    → val * 10 + d ≤ 128
    → getbits_loop ((48 + d) ∷ src) n val ≡ getbits_loop src (n + 1) (val * 10 + d)
unfolding getbits_loop
step d n val src lt first le =
    let e : next_value (digit (48 + d)) n val ≡ some (val * 10 + d) =
      ap (λ o. next_value o n val) (digit_lem d lt) ∙ next_lem d n val first le in
    ap (λ o. elim o [ none ↦ none | some v ↦ getbits_loop src (n + 1) v ]) e

-- What one step of a loop that succeeds did.
record Stepped (c n val : ℕ) (src : List ℕ) (v : ℕ) : Type 0 where
  d : ℕ
  is_digit : (c ≡ 48 + d) × (d < 10)
  first : (n ≡ 0) ⊎ (0 < val)
  fits : val * 10 + d ≤ 128
  goes_on : getbits_loop src (n + 1) (val * 10 + d) ≡ some v

stepped :
    (c n val : ℕ) (src : List ℕ) (v : ℕ)
    → getbits_loop (c ∷ src) n val ≡ some v
    → Stepped c n val src v
unfolding getbits_loop
stepped c n val src v h = by_next (next_value (digit c) n val) refl h
  where
    by_next :
        (o : Option ℕ)
        → next_value (digit c) n val ≡ o
        → elim o [ none ↦ none | some w ↦ getbits_loop src (n + 1) w ] ≡ some v
        → Stepped c n val src v
    by_next none e k = cc
    by_next (some w) e k =
        let (d, ed, (first, fits, same)) = next-some (digit c) n val w e in
        record {
          d = d;
          is_digit = digit-some c d ed;
          first = first;
          fits = fits;
          goes_on = rw same at k;
        }

-- The end of the text.
ended : (n val v : ℕ) → 0 < n → getbits_loop [] n val ≡ some v → v ≡ val
unfolding getbits_loop
ended n val v lt h = ground (arith, h)

ends : (n val : ℕ) → 0 < n → getbits_loop [] n val ≡ some val
unfolding getbits_loop
ends n val lt = let e : (n == 0) ≡ false = ground (arith, lt) in rw e

read_one : (a : ℕ) → a < 10 → getbits ((48 + a) ∷ []) ≡ some a
unfolding getbits
read_one a la =
    step a 0 0 [] la (inl refl) (omega (arith, la))
    ∙ ends (0 + 1) (0 * 10 + a) (omega arith)
    ∙ ap some (omega arith)

read_two :
    (a b : ℕ) → 0 < a → a < 10 → b < 10 → getbits ((48 + a) ∷ (48 + b) ∷ []) ≡ some (a * 10 + b)
unfolding getbits
read_two a b pa la lb =
    step a 0 0 ((48 + b) ∷ []) la (inl refl) (omega (arith, la))
    ∙ step b (0 + 1) (0 * 10 + a) [] lb (inr (omega (arith, pa))) (omega (arith, la, lb))
    ∙ ends (0 + 1 + 1) ((0 * 10 + a) * 10 + b) (omega arith)
    ∙ ap some (omega arith)

read_three :
    (a b c : ℕ)
    → 0 < a
    → b < 10
    → c < 10
    → a * 100 + b * 10 + c ≤ 128
    → getbits ((48 + a) ∷ (48 + b) ∷ (48 + c) ∷ []) ≡ some (a * 100 + b * 10 + c)
unfolding getbits
read_three a b c pa lb lc le =
    step a 0 0 ((48 + b) ∷ (48 + c) ∷ []) (omega (arith, le)) (inl refl) (omega (arith, le))
    ∙ step b (0 + 1) (0 * 10 + a) ((48 + c) ∷ []) lb (inr (omega (arith, pa))) (omega (arith, le))
    ∙ step c (0 + 1 + 1) ((0 * 10 + a) * 10 + b) [] lc (inr (omega (arith, pa))) (omega (arith, le))
    ∙ ends (0 + 1 + 1 + 1) (((0 * 10 + a) * 10 + b) * 10 + c) (omega arith)
    ∙ ap some (omega arith)

getbits-decimal : (v : ℕ) → v ≤ 128 → getbits (decimal v) ≡ some v
getbits-decimal v le = by_size (ltb v 10) (ltb v 100) refl refl
  where
    by_size :
        (small middle : Bool)
        → ltb v 10 ≡ small
        → ltb v 100 ≡ middle
        → getbits (
            if small
            then (48 + v) ∷ []
            else if middle
            then (48 + v / 10) ∷ (48 + v % 10) ∷ []
            else (48 + v / 100) ∷ (48 + v / 10 % 10) ∷ (48 + v % 10) ∷ [])
          ≡ some v
    by_size true m e f = read_one v (ltb→lt v 10 e)
    by_size false true e f =
        let ge : 10 ≤ v = ground (arith, e) in
        let lt : v < 100 = ltb→lt v 100 f in
        read_two (v / 10) (v % 10) (omega (arith, ge)) (omega (arith, lt)) (omega arith)
        ∙ ap some (omega arith)
    by_size false false e f =
        let ge : 100 ≤ v = ground (arith, f) in
        read_three (v / 100) (v / 10 % 10) (v % 10) (omega (arith, ge)) (omega arith) (omega arith)
          (omega (arith, le))
        ∙ ap some (omega arith)

decimal_two :
    (v a b : ℕ) → v ≡ a * 10 + b → 0 < a → a < 10 → b < 10 → (48 + a) ∷ (48 + b) ∷ [] ≡ decimal v
decimal_two v a b e pa la lb =
    let small : ltb v 10 ≡ false = ground (arith, e, pa) in
    let middle : ltb v 100 ≡ true = ground (arith, e, la, lb) in
    let tens : v / 10 ≡ a = omega (arith, e, lb) in
    let ones : v % 10 ≡ b = omega (arith, e, lb) in rw (small, middle, tens, ones)

decimal_three :
    (v a b c : ℕ)
    → v ≡ (a * 10 + b) * 10 + c
    → 0 < a
    → b < 10
    → c < 10
    → (48 + a) ∷ (48 + b) ∷ (48 + c) ∷ [] ≡ decimal v
decimal_three v a b c e pa lb lc =
    let small : ltb v 10 ≡ false = ground (arith, e, pa) in
    let middle : ltb v 100 ≡ false = ground (arith, e, pa) in
    let hundreds : v / 100 ≡ a = omega (arith, e, lb, lc) in
    let tens : v / 10 % 10 ≡ b = omega (arith, e, lb, lc) in
    let ones : v % 10 ≡ c = omega (arith, e, lc) in rw (small, middle, hundreds, tens, ones)

-- Three digits are all that can be read.
after_three :
    (s : List ℕ) (n val v : ℕ)
    → 0 < n
    → 100 ≤ val
    → getbits_loop s n val ≡ some v
    → (s ≡ []) × (v ≡ val)
after_three [] n val v pn ge h = (refl, ended n val v pn h)
after_three (c ∷ s) n val v pn ge h =
    let p = stepped c n val s v h in absurd (omega (arith, ge, p.fits))

after_two :
    (s : List ℕ) (n val a b v : ℕ)
    → 0 < n
    → val ≡ a * 10 + b
    → 0 < a
    → a < 10
    → b < 10
    → getbits_loop s n val ≡ some v
    → ((48 + a) ∷ (48 + b) ∷ s ≡ decimal v) × (v ≤ 128)
after_two [] n val a b v pn e pa la lb h =
    let same = ended n val v pn h in
    (decimal_two v a b (same ∙ e) pa la lb, omega (arith, same, e, la, lb))
after_two (c ∷ s) n val a b v pn e pa la lb h =
    let p = stepped c n val s v h in
    let (last, same) =
      after_three s (n + 1) (val * 10 + p.d) v (omega arith) (omega (arith, e, pa)) p.goes_on in
    let three = decimal_three v a b p.d (same ∙ omega (arith, e)) pa lb p.is_digit.1 in
    (rw (last, p.is_digit.0) three, omega (arith, same, p.fits))

after_one :
    (s : List ℕ) (n val a v : ℕ)
    → 0 < n
    → val ≡ a
    → a < 10
    → getbits_loop s n val ≡ some v
    → ((48 + a) ∷ s ≡ decimal v) × (v ≤ 128)
after_one [] n val a v pn e la h =
    let same = ended n val v pn h in
    let small : ltb v 10 ≡ true = ground (arith, same, e, la) in
    let va : v ≡ a = same ∙ e in (rw (small, va), omega (arith, va, la))
after_one (c ∷ s) n val a v pn e la h =
    let p = stepped c n val s v h in
    let positive : 0 < a = ground (arith, p.first, pn, e) in
    let r =
      after_two s (n + 1) (val * 10 + p.d) a p.d v (omega arith) (omega (arith, e)) positive la
        p.is_digit.1 p.goes_on in
    (rw (p.is_digit.0) (r.0), r.1)

decimal-getbits : (s : List ℕ) (v : ℕ) → getbits s ≡ some v → (s ≡ decimal v) × (v ≤ 128)
unfolding getbits
decimal-getbits [] v h = cc
decimal-getbits (c ∷ s) v h =
    let p = stepped c 0 0 s v h in
    let r =
      after_one s (0 + 1) (0 * 10 + p.d) p.d v (omega arith) (omega arith) p.is_digit.1 p.goes_on in
    (rw (p.is_digit.0) (r.0), r.1)

-- A text is read as the length of a prefix exactly if it is the decimal notation, without leading
-- zeros, of a number of at most 128, and then it is read as that number.
pub getbits-decimal_iff :
    (s : List ℕ) (v : ℕ) → (getbits s ≡ some v) ↔ ((s ≡ decimal v) × (v ≤ 128))
getbits-decimal_iff s v = (decimal-getbits s v, λ (e, le). rw e (getbits-decimal v le))
