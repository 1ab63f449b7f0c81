-- ===== src/Base64/Padding.antt =====
-- Padding and translation in the Base64 texts of src/shared/base64.c.
use susshi.Prelude.{
  ℕ, ◌+◌, ◌%◌, ◌<◌, ◌≡◌, refl, false, some, List, [], ◌∷◌, ◌++◌, map, length, replicate, any, arith,
  zero, suc,
}
use susshi.Base64.{pad, is_pad, padding, pad_early, half_padded, translate, total_padding}

pub length-map : (f : ℕ → ℕ) (l : List ℕ) → length (map f l) ≡ length l
length-map f [] = refl
length-map f (x ∷ l) = omega (arith, length-map f l)

pub translate-is_pad : (c : ℕ) → is_pad (translate c) ≡ is_pad c
unfolding translate
translate-is_pad c = ground arith

pub translate_twice : (c : ℕ) → translate (translate c) ≡ translate c
unfolding translate
translate_twice c = ground arith

pub map-translate_twice : (l : List ℕ) → map translate (map translate l) ≡ map translate l
map-translate_twice [] = refl
map-translate_twice (c ∷ l) = rw (translate_twice c, map-translate_twice l)

pub pad_early-map : (l : List ℕ) → pad_early (map translate l) ≡ pad_early l
unfolding pad_early
pad_early-map [] = refl
pad_early-map (a ∷ []) = refl
pad_early-map (a ∷ b ∷ []) = refl
pad_early-map (a ∷ b ∷ c ∷ l) = rw (translate-is_pad a, pad_early-map (b ∷ c ∷ l))

pub half_padded-map : (l : List ℕ) → half_padded (map translate l) ≡ half_padded l
unfolding half_padded
half_padded-map [] = refl
half_padded-map (a ∷ []) = refl
half_padded-map (a ∷ b ∷ []) = rw (translate-is_pad a, translate-is_pad b)
half_padded-map (a ∷ b ∷ c ∷ l) = half_padded-map (b ∷ c ∷ l)

pub padding-mod : (n p : ℕ) → padding (n % 4) ≡ some p → ((n + p) % 4 ≡ 0) × (p < 3)
unfolding padding
padding-mod n p h = grind arith

pub any-translate : (l : List ℕ) → any is_pad (map translate l) ≡ any is_pad l
any-translate [] = refl
any-translate (c ∷ l) = rw (translate-is_pad c, any-translate l)

pub tail_clean : (a : ℕ) (l : List ℕ) → any is_pad (a ∷ l) ≡ false → any is_pad l ≡ false
tail_clean a l h = ground (arith, h)

pub head_clean : (a : ℕ) (l : List ℕ) → any is_pad (a ∷ l) ≡ false → is_pad a ≡ false
head_clean a l h = ground (arith, h)

-- Padding after a text without `=` passes the first test.
pub pad_early-append :
    (l : List ℕ) (p : ℕ) → any is_pad l ≡ false → p < 3 → pad_early (l ++ replicate p pad) ≡ false
unfolding pad_early
pad_early-append [] zero clean lt = refl
pad_early-append [] (suc zero) clean lt = refl
pad_early-append [] (suc (suc zero)) clean lt = refl
pad_early-append [] (suc (suc (suc p))) clean lt = absurd (omega arith)
pad_early-append (a ∷ []) zero clean lt = refl
pad_early-append (a ∷ []) (suc zero) clean lt = refl
pad_early-append (a ∷ []) (suc (suc zero)) clean lt = rw (head_clean a [] clean)
pad_early-append (a ∷ []) (suc (suc (suc p))) clean lt = absurd (omega arith)
pad_early-append (a ∷ b ∷ []) zero clean lt = refl
pad_early-append (a ∷ b ∷ []) (suc p) clean lt =
    rw (head_clean a (b ∷ []) clean)
      (pad_early-append (b ∷ []) (suc p) (tail_clean a (b ∷ []) clean) lt)
pad_early-append (a ∷ b ∷ c ∷ l) p clean lt =
    rw (head_clean a (b ∷ c ∷ l) clean)
      (pad_early-append (b ∷ c ∷ l) p (tail_clean a (b ∷ c ∷ l) clean) lt)

pub half_padded-append :
    (l : List ℕ) (p : ℕ) → any is_pad l ≡ false → p < 3 → half_padded (l ++ replicate p pad) ≡ false
unfolding half_padded
half_padded-append [] zero clean lt = refl
half_padded-append [] (suc zero) clean lt = refl
half_padded-append [] (suc (suc zero)) clean lt = refl
half_padded-append [] (suc (suc (suc p))) clean lt = absurd (omega arith)
half_padded-append (a ∷ []) zero clean lt = refl
half_padded-append (a ∷ []) (suc zero) clean lt = rw (head_clean a [] clean)
half_padded-append (a ∷ []) (suc (suc zero)) clean lt = refl
half_padded-append (a ∷ []) (suc (suc (suc p))) clean lt = absurd (omega arith)
half_padded-append (a ∷ b ∷ []) zero clean lt = rw (head_clean a (b ∷ []) clean)
half_padded-append (a ∷ b ∷ []) (suc p) clean lt =
    half_padded-append (b ∷ []) (suc p) (tail_clean a (b ∷ []) clean) lt
half_padded-append (a ∷ b ∷ c ∷ l) p clean lt =
    half_padded-append (b ∷ c ∷ l) p (tail_clean a (b ∷ c ∷ l) clean) lt

-- The padding after a text without `=` is what is counted.
pub total_padding-append :
    (l : List ℕ) (p : ℕ) → any is_pad l ≡ false → p < 3 → total_padding (l ++ replicate p pad) ≡ p
unfolding total_padding
total_padding-append [] zero clean lt = refl
total_padding-append [] (suc zero) clean lt = refl
total_padding-append [] (suc (suc zero)) clean lt = refl
total_padding-append [] (suc (suc (suc p))) clean lt = absurd (omega arith)
total_padding-append (a ∷ []) zero clean lt = rw (head_clean a [] clean)
total_padding-append (a ∷ []) (suc zero) clean lt = rw (head_clean a [] clean)
total_padding-append (a ∷ []) (suc (suc zero)) clean lt = refl
total_padding-append (a ∷ []) (suc (suc (suc p))) clean lt = absurd (omega arith)
total_padding-append (a ∷ b ∷ []) zero clean lt =
    rw (head_clean a (b ∷ []) clean, head_clean b [] (tail_clean a (b ∷ []) clean))
total_padding-append (a ∷ b ∷ []) (suc p) clean lt =
    total_padding-append (b ∷ []) (suc p) (tail_clean a (b ∷ []) clean) lt
total_padding-append (a ∷ b ∷ c ∷ l) p clean lt =
    total_padding-append (b ∷ c ∷ l) p (tail_clean a (b ∷ c ∷ l) clean) lt

pub append_nil : (l : List ℕ) → l ++ [] ≡ l
append_nil [] = refl
append_nil (a ∷ l) = rw (append_nil l)
