-- ===== src/Base64/Normal.antt =====
-- What `susshi_base64url_normalize` of src/shared/base64.c returns.
use susshi.Prelude.{
  ℕ, ◌+◌, ◌%◌, ◌<◌, ◌≡◌, ◌≢◌, ◌⊎◌, ◌↔◌, refl, ap, inl, inr, ◌∙◌, Bool, true, false, ◌&&◌, ◌||◌,
  Option, none, some, List, [], ◌∷◌, ◌++◌, map, length, replicate, any, ◌==◌, arith, length-append,
  length-replicate, zero, suc, if◌then◌else◌,
}
use susshi.Base64.{
  pad, is_pad, padding, pad_early, half_padded, translate, normalize_with, base64url_normalize,
}
use susshi.Base64.Padding.{
  length-map, pad_early-map, half_padded-map, padding-mod, any-translate, pad_early-append,
  half_padded-append, append_nil,
}

-- A character of the URL-safe alphabet only.
abbrev pub is_url : ℕ → Bool
is_url c = c == 45 || c == 95

-- A character of the URL-safe alphabet and the one of the standard alphabet: `-` is `+`, `_` is
-- `/`, and every other character is itself.
pub record Letter (c d : ℕ) : Type 0 where
  pub minus : c ≡ 45 → d ≡ 43
  pub underscore : c ≡ 95 → d ≡ 47
  pub itself : c ≢ 45 → c ≢ 95 → d ≡ c

-- `t` is `input` letter by letter, followed by `n` times `=`.
abbrev pub Rewritten : ℕ → List ℕ → List ℕ → Type 0
Rewritten n [] t = t ≡ replicate n 61
Rewritten n (c ∷ input) [] = ⊥
Rewritten n (c ∷ input) (d ∷ t) = Letter c d × Rewritten n input t

translate-Letter : (c : ℕ) → Letter c (translate c)
unfolding translate
translate-Letter c = record {
  minus = λ e. ground (arith, e);
  underscore = λ e. ground (arith, e);
  itself = λ p q. ground (arith, p, q);
}

map-Rewritten :
    (input : List ℕ) (n : ℕ) → Rewritten n input (map translate input ++ replicate n pad)
map-Rewritten [] n = refl
map-Rewritten (c ∷ input) n = (translate-Letter c, map-Rewritten input n)

-- `t` is `input` in the standard alphabet, filled up to groups of four.
pub record IsNormal (input t : List ℕ) : Type 0 where
  pub count : ℕ
  pub at_most_two : count < 3
  pub rewritten : Rewritten count input t
  pub filled_up : t ≡ map translate input ++ replicate count pad
  pub in_fours : length t % 4 ≡ 0
  pub standard : any is_url t ≡ false

map-standard : (l : List ℕ) (n : ℕ) → any is_url (map translate l ++ replicate n pad) ≡ false
unfolding translate
map-standard [] zero = refl
map-standard [] (suc n) = map-standard [] n
map-standard (c ∷ l) n = ground (arith, map-standard l n)

pub length-normal :
    (l : List ℕ) (n : ℕ) → length (map translate l ++ replicate n pad) ≡ length l + n
length-normal l n = omega (
  arith,
  length-append (map translate l) (replicate n pad),
  length-map translate l,
  length-replicate n pad,
)

-- What an accepted input becomes.
normalize_with-done :
    (o : Option ℕ) (input t : List ℕ)
    → normalize_with o input ≡ some t
    → (n : ℕ) × (o ≡ some n)
      × (pad_early input ≡ false)
      × ((n == 0 && half_padded input) ≡ false)
      × (t ≡ map translate input ++ replicate n pad)
normalize_with-done none input t h = cc
normalize_with-done (some n) input t h =
    let (early, half, same) = by_tests (pad_early input) (n == 0 && half_padded input) h in
    (n, refl, early, half, same)
  where
    by_tests :
        (e q : Bool)
        → (if e then none else if q then none else some (map translate input ++ replicate n pad))
          ≡ some t
        → (e ≡ false) × (q ≡ false) × (t ≡ map translate input ++ replicate n pad)
    by_tests true q h = cc
    by_tests false true h = cc
    by_tests false false h = (refl, refl, cc)

-- A text that is accepted becomes the same text with `+` for `-` and `/` for `_`, and with at most
-- two `=` after it, so that its length is a multiple of four.
pub base64url_normalize-IsNormal :
    (input t : List ℕ) → base64url_normalize input ≡ some t → IsNormal input t
unfolding base64url_normalize
base64url_normalize-IsNormal input t h =
    let (n, e, early, half, same) = normalize_with-done (padding (length input % 4)) input t h in
    let fits = padding-mod (length input) n e in
    record {
      count = n;
      at_most_two = fits.1;
      rewritten = rw same (map-Rewritten input n);
      filled_up = same;
      in_fours = rw same (rw (length-normal input n) (fits.0));
      standard = rw same (map-standard input n);
    }

-- Text that passes both tests is accepted.
normalize_with_total :
    (input : List ℕ) (p : ℕ)
    → pad_early input ≡ false
    → half_padded input ≡ false
    → normalize_with (some p) input ≡ some (map translate input ++ replicate p pad)
normalize_with_total input p early half = rw (early, half) (ground arith)

pub normalize_clean :
    (input : List ℕ) (p : ℕ)
    → any is_pad input ≡ false
    → padding (length input % 4) ≡ some p
    → base64url_normalize input ≡ some (map translate input ++ replicate p pad)
unfolding base64url_normalize
normalize_clean input p clean e =
    let early : pad_early input ≡ false =
      rw append_nil at (pad_early-append input 0 clean (omega arith)) in
    let half : half_padded input ≡ false =
      rw append_nil at (half_padded-append input 0 clean (omega arith)) in
    ap (λ o. normalize_with o input) e ∙ normalize_with_total input p early half

pub padding_cases :
    (r : ℕ) → r < 4 → ((padding r ≡ none) × (r ≡ 1)) ⊎ ((p : ℕ) × (padding r ≡ some p) × (r ≢ 1))
unfolding padding
padding_cases zero lt = inr (0, refl, λ e. cc)
padding_cases (suc zero) lt = inl (refl, refl)
padding_cases (suc (suc zero)) lt = inr (2, refl, λ e. omega (arith, e))
padding_cases (suc (suc (suc zero))) lt = inr (1, refl, λ e. omega (arith, e))
padding_cases (suc (suc (suc (suc r)))) lt = absurd (omega arith)

-- A text without `=` is accepted exactly if its length does not leave a remainder of 1.
pub base64url_normalize-accepts_iff :
    (input : List ℕ)
    → any is_pad input ≡ false
    → (base64url_normalize input ≡ none) ↔ (length input % 4 ≡ 1)
unfolding base64url_normalize
base64url_normalize-accepts_iff input clean =
    elim (padding_cases (length input % 4) (omega arith)) [
      | inl (e, r) ↦ (λ h. r, λ one. ap (λ o. normalize_with o input) e)
      | inr (p, e, r) ↦ (λ h. cc (normalize_clean input p clean e), λ one. absurd (r one))
    ]

standard_fixed : (t : List ℕ) → any is_url t ≡ false → map translate t ≡ t
unfolding translate
standard_fixed [] h = refl
standard_fixed (c ∷ t) h = ground (arith, standard_fixed t (ground (arith, h)))

normalize_stable :
    (t : List ℕ)
    → length t % 4 ≡ 0
    → pad_early t ≡ false
    → half_padded t ≡ false
    → any is_url t ≡ false
    → base64url_normalize t ≡ some t
unfolding base64url_normalize
normalize_stable t fours early half std =
    ap (λ r. normalize_with (padding r) t) fours
    ∙ normalize_with_total t 0 early half
    ∙ ap some (append_nil (map translate t) ∙ standard_fixed t std)

-- Normalising twice is normalising once, if the text had no `=` or was in groups of four already.
pub base64url_normalize_twice :
    (input t : List ℕ)
    → base64url_normalize input ≡ some t
    → (any is_pad input ≡ false) ⊎ (length input % 4 ≡ 0)
    → base64url_normalize t ≡ some t
unfolding base64url_normalize
base64url_normalize_twice input t h (inl clean) =
    let normal = base64url_normalize-IsNormal input t h in
    let n = normal.count in
    let clean_map = any-translate input ∙ clean in
    normalize_stable t normal.in_fours
      (rw (normal.filled_up)
        (pad_early-append (map translate input) n clean_map normal.at_most_two))
      (rw (normal.filled_up)
        (half_padded-append (map translate input) n clean_map normal.at_most_two))
      normal.standard
base64url_normalize_twice input t h (inr fours) =
    let normal = base64url_normalize-IsNormal input t h in
    let k : normalize_with (padding 0) input ≡ some t = rw fours at h in
    let (n, e, early, half, same) = normalize_with-done (padding 0) input t k in
    by_padding n e early half same normal
  where
    by_padding :
        (n : ℕ)
        → some 0 ≡ some n
        → pad_early input ≡ false
        → (n == 0 && half_padded input) ≡ false
        → t ≡ map translate input ++ replicate n pad
        → IsNormal input t
        → base64url_normalize t ≡ some t
    by_padding zero e early half same normal =
        let plain : t ≡ map translate input = same ∙ append_nil (map translate input) in
        normalize_stable t normal.in_fours (rw plain (pad_early-map input ∙ early))
          (rw plain (half_padded-map input ∙ half)) normal.standard
    by_padding (suc n) e early half same normal = cc

-- A text whose `=` do not fill a group is accepted all the same: a character and one `=` becomes a
-- character and three, which the same function refuses.
pub base64url_normalize-three_pads :
    (a : ℕ)
    → (base64url_normalize (a ∷ pad ∷ []) ≡ some (translate a ∷ pad ∷ pad ∷ pad ∷ []))
      × (base64url_normalize (translate a ∷ pad ∷ pad ∷ pad ∷ []) ≡ none)
unfolding base64url_normalize pad_early half_padded translate
base64url_normalize-three_pads a = (refl, ground arith)
