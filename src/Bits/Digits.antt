-- ===== src/Bits/Digits.antt =====
-- The lowest digit of `&` and `^`, without the count of digits that their definition recurs on.
use Prim.Native.Nat.{min, differ, digits, bitwise, bit_and-bitwise, bit_xor, bit_xor-bitwise}
use susshi.Prelude.{ℕ, zero, suc, ◌+◌, ◌*◌, ◌/◌, ◌%◌, ◌≤◌, ◌≡◌, refl, bit_and, arith}

module _ (z : ℕ → ℕ) (f : ℕ → ℕ → ℕ) where
  -- Two counts that both cover the number give the same digits.
  covered : (a b x y : ℕ) → a ≤ x → a ≤ y → digits z f x a b ≡ digits z f y a b
  covered zero b zero zero lx ly = refl
  covered zero b zero (suc y) lx ly = refl
  covered zero b (suc x) zero lx ly = refl
  covered zero b (suc x) (suc y) lx ly = refl
  covered (suc a) b zero y lx ly = absurd (omega arith)
  covered (suc a) b (suc x) zero lx ly = absurd (omega arith)
  covered (suc a) b (suc x) (suc y) lx ly =
      let halves = covered (suc a / 2) (b / 2) x y (omega arith) (omega arith) in
      omega (arith, halves)

  lowest :
      (a b : ℕ)
      → bitwise z f (suc a) b ≡ bitwise z f (suc a / 2) (b / 2) * 2 + f (suc a % 2) (b % 2)
  lowest a b = let h = suc a / 2 in omega (arith, covered h (b / 2) a h (omega arith) (omega arith))

pub bit_and_lowest : (a b : ℕ) → bit_and a b ≡ bit_and (a / 2) (b / 2) * 2 + min (a % 2) (b % 2)
bit_and_lowest zero b = simp bit_and-bitwise (omega arith)
bit_and_lowest (suc a) b = simp bit_and-bitwise (lowest (λ d. 0) min a b)

pub bit_xor_lowest : (a b : ℕ) → bit_xor a b ≡ bit_xor (a / 2) (b / 2) * 2 + differ (a % 2) (b % 2)
bit_xor_lowest zero b = simp bit_xor-bitwise (omega arith)
bit_xor_lowest (suc a) b = simp bit_xor-bitwise (lowest (λ d. d) differ a b)
