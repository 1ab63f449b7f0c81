-- ===== src/Bits.antt =====
-- `&` and `^` with a mask of leading ones, on natural numbers.
mod Digits
use Prim.Native.Nat.{bit_xor, differ, min}
use native.Mathlib.Nat.{pow-suc, one-le-pow, div-lt_iff_lt-mul, mod-lt, div-add-mod'}
use susshi.Prelude.{
  ℕ, zero, suc, ◌+◌, ◌*◌, ◌-◌, ◌/◌, ◌%◌, ◌^◌, ◌<◌, ◌≡◌, ◌↔◌, refl, sym, ◌∙◌, ap, bit_and, arith,
}
use Digits.{bit_and_lowest, bit_xor_lowest}

-- `n` ones and then `k` zeros.
abbrev pub leading : ℕ → ℕ → ℕ
leading n k = (2 ^ n - 1) * 2 ^ k

shifted : (q k : ℕ) → q * 2 ^ suc k ≡ 2 * (q * 2 ^ k)
shifted q k = omega (arith, ap (λ (t : ℕ). q * t) (pow-suc 2 k))

bit_and-ones : (n a : ℕ) → a < 2 ^ n → bit_and a (2 ^ n - 1) ≡ a
bit_and-ones zero a lt = let e : a ≡ 0 = omega (arith, lt) in rw e
bit_and-ones (suc n) a lt = ground (
  arith,
  bit_and_lowest a (2 ^ suc n - 1),
  pow-suc 2 n,
  one-le-pow n 2,
  bit_and-ones n (a / 2) (omega (arith, pow-suc 2 n)),
)

-- The mask keeps the leading digits.
bit_and-leading :
    (n k q r : ℕ) → q < 2 ^ n → r < 2 ^ k → bit_and (q * 2 ^ k + r) (leading n k) ≡ q * 2 ^ k
bit_and-leading n zero q r lq lr =
    let e : q * 2 ^ 0 + r ≡ q = omega (arith, lr) in
    let m : leading n 0 ≡ 2 ^ n - 1 = omega arith in rw (e, m) (bit_and-ones n q lq ∙ omega arith)
bit_and-leading n (suc k) q r lq lr = ground (
  arith,
  bit_and_lowest (q * 2 ^ suc k + r) (leading n (suc k)),
  shifted q k,
  shifted (2 ^ n - 1) k,
  pow-suc 2 k,
  bit_and-leading n k q (r / 2) lq (omega (arith, pow-suc 2 k)),
)

differ_lem : (a b : ℕ) → a < 2 → b < 2 → (differ a b < 2) × ((differ a b ≡ 0) ↔ (a ≡ b))
differ_lem zero zero la lb = ground arith
differ_lem zero (suc zero) la lb = ground arith
differ_lem (suc zero) zero la lb = ground arith
differ_lem (suc zero) (suc zero) la lb = ground arith
differ_lem (suc (suc a)) b la lb = absurd (omega arith)
differ_lem a (suc (suc b)) la lb = absurd (omega arith)

-- Half of an exclusive or, and its lowest digit.
bit_xor_halves :
    (a b : ℕ)
    → (bit_xor a b / 2 ≡ bit_xor (a / 2) (b / 2)) × (bit_xor a b % 2 ≡ differ (a % 2) (b % 2))
bit_xor_halves a b =
    let (lt, same) = differ_lem (a % 2) (b % 2) (omega arith) (omega arith) in
    (omega (arith, bit_xor_lowest a b, lt), omega (arith, bit_xor_lowest a b, lt))

xor_ones : (n a b : ℕ) → a < 2 ^ n → b < 2 ^ n → (bit_and (bit_xor a b) (2 ^ n - 1) ≡ 0) ↔ (a ≡ b)
xor_ones zero a b la lb =
    let ea : a ≡ 0 = omega (arith, la) in
    let eb : b ≡ 0 = omega (arith, lb) in rw (ea, eb) (λ h. refl, λ h. refl)
xor_ones (suc n) a b la lb =
    let ih = xor_ones n (a / 2) (b / 2) (omega (arith, pow-suc 2 n)) (omega (arith, pow-suc 2 n)) in
    let (lt, same) = differ_lem (a % 2) (b % 2) (omega arith) (omega arith) in
    let (half, low) = bit_xor_halves a b in
    let x = bit_xor a b in
    let m = 2 ^ suc n - 1 in
    let mh : m / 2 ≡ 2 ^ n - 1 = omega (arith, pow-suc 2 n, one-le-pow n 2) in
    let ml : m % 2 ≡ 1 = omega (arith, pow-suc 2 n, one-le-pow n 2) in
    let step : bit_and x m ≡ bit_and (bit_xor (a / 2) (b / 2)) (2 ^ n - 1) * 2 + min (x % 2) 1 =
      rw (half, mh, ml) at (bit_and_lowest x m) in
    ground (arith, ih, lt, same, low, step)

-- Under the mask two numbers are equal exactly if their leading digits are.
pub xor_leading :
    (n k q u r v : ℕ)
    → q < 2 ^ n
    → u < 2 ^ n
    → r < 2 ^ k
    → v < 2 ^ k
    → (bit_and (bit_xor (q * 2 ^ k + r) (u * 2 ^ k + v)) (leading n k) ≡ 0) ↔ (q ≡ u)
xor_leading n zero q u r v lq lu lr lv =
    let eq : q * 2 ^ 0 + r ≡ q = omega (arith, lr) in
    let eu : u * 2 ^ 0 + v ≡ u = omega (arith, lv) in
    let m : leading n 0 ≡ 2 ^ n - 1 = omega arith in rw (eq, eu, m) (xor_ones n q u lq lu)
xor_leading n (suc k) q u r v lq lu lr lv =
    let two = pow-suc 2 k in
    let ih = xor_leading n k q u (r / 2) (v / 2) lq lu (omega (arith, two)) (omega (arith, two)) in
    let a = q * 2 ^ suc k + r in
    let b = u * 2 ^ suc k + v in
    let m = leading n (suc k) in
    let ah : a / 2 ≡ q * 2 ^ k + r / 2 = omega (arith, shifted q k) in
    let bh : b / 2 ≡ u * 2 ^ k + v / 2 = omega (arith, shifted u k) in
    let mh : m / 2 ≡ leading n k = omega (arith, shifted (2 ^ n - 1) k) in
    let ml : m % 2 ≡ 0 = omega (arith, shifted (2 ^ n - 1) k) in
    let step : bit_and (bit_xor a b) m
        ≡ bit_and (bit_xor (q * 2 ^ k + r / 2) (u * 2 ^ k + v / 2)) (leading n k) * 2
          + min (bit_xor a b % 2) 0 =
      rw ((bit_xor_halves a b).0, ah, bh, mh, ml) at (bit_and_lowest (bit_xor a b) m) in
    ground (arith, ih, step)

pub two_pow-pos : (k : ℕ) → 0 < 2 ^ k
two_pow-pos k = one-le-pow k 2 (omega arith)

pub two_pow-add : (n k : ℕ) → 2 ^ n * 2 ^ k ≡ 2 ^ (n + k)
two_pow-add n zero = let e : n + 0 ≡ n = omega arith in rw e (omega arith)
two_pow-add n (suc k) =
    let e : n + suc k ≡ suc (n + k) = omega arith in
    rw e (omega (arith, shifted (2 ^ n) k, pow-suc 2 (n + k), two_pow-add n k))

-- The same for numbers that are not split yet.
pub bit_and-leading_div :
    (n k a : ℕ) → a < 2 ^ n * 2 ^ k → bit_and a (leading n k) ≡ a / 2 ^ k * 2 ^ k
bit_and-leading_div n k a lt =
    let kept =
      bit_and-leading n k (a / 2 ^ k) (a % 2 ^ k) ((div-lt_iff_lt-mul (two_pow-pos k)).1 lt)
        (mod-lt a (two_pow-pos k)) in
    ap (λ t. bit_and t (leading n k)) (sym (div-add-mod' a (2 ^ k))) ∙ kept

pub xor_leading_div :
    (n k a b : ℕ)
    → a < 2 ^ n * 2 ^ k
    → b < 2 ^ n * 2 ^ k
    → (bit_and (bit_xor a b) (leading n k) ≡ 0) ↔ (a / 2 ^ k ≡ b / 2 ^ k)
xor_leading_div n k a b la lb =
    let one = two_pow-pos k in
    let split =
      xor_leading n k (a / 2 ^ k) (b / 2 ^ k) (a % 2 ^ k) (b % 2 ^ k) ((div-lt_iff_lt-mul one).1 la)
        ((div-lt_iff_lt-mul one).1 lb) (mod-lt a one) (mod-lt b one) in
    rw (div-add-mod' a (2 ^ k), div-add-mod' b (2 ^ k)) at split

one_less-mul : (a b : ℕ) → 0 < a → (a - 1) * b + b ≡ a * b
one_less-mul zero b lt = absurd (omega (arith, lt))
one_less-mul (suc a) b lt = let e : suc a - 1 ≡ a = omega arith in rw e (omega arith)

-- The shift of 32 ones.
pub shifted_ones : (n k : ℕ) → n + k ≡ 32 → (2 ^ 32 - 1) * 2 ^ k % 2 ^ 32 ≡ leading n k
shifted_ones n k e =
    let all : 2 ^ n * 2 ^ k ≡ 2 ^ 32 = two_pow-add n k ∙ ap (λ t. 2 ^ t) e in
    omega (arith, all, one_less-mul (2 ^ n) (2 ^ k) (two_pow-pos n), two_pow-pos k)
