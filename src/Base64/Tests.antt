-- ===== src/Base64/Tests.antt =====
-- Base64 texts, on concrete ones.
use susshi.Prelude.{
  ℕ, ◌≡◌, ◌↔◌, ◌%◌, ◌+◌, ◌*◌, ◌/◌, refl, inl, Option, none, some, List, [], ◌∷◌, length, arith,
}
use susshi.Base64.{
  pad, pad_early, half_padded, translate, base64url_normalize, total_padding, Evp, unbase64,
}
use susshi.Base64.Normal.{
  IsNormal, base64url_normalize-IsNormal, base64url_normalize-accepts_iff,
  base64url_normalize_twice,
}
use susshi.Base64.Decode.{unbase64-length}

-- `a-b` and `a+b=`.
abbrev url_text : List ℕ
url_text = 97 ∷ 45 ∷ 98 ∷ []

abbrev standard_text : List ℕ
standard_text = 97 ∷ 43 ∷ 98 ∷ pad ∷ []

normal_run : base64url_normalize url_text ≡ some standard_text
unfolding base64url_normalize pad_early half_padded translate
normal_run = refl

base64url_normalize-IsNormal_example : IsNormal url_text standard_text
base64url_normalize-IsNormal_example =
    base64url_normalize-IsNormal url_text standard_text normal_run

base64url_normalize-accepts_iff_example :
    (base64url_normalize url_text ≡ none) ↔ (length url_text % 4 ≡ 1)
base64url_normalize-accepts_iff_example = base64url_normalize-accepts_iff url_text refl

base64url_normalize_twice_example : base64url_normalize standard_text ≡ some standard_text
base64url_normalize_twice_example =
    base64url_normalize_twice url_text standard_text normal_run (inl refl)

-- A decoder that gives three zero bytes for each group.
abbrev zeros : List ℕ → Option (List ℕ)
zeros [] = some []
zeros (a ∷ b ∷ c ∷ d ∷ rest) = elim (zeros rest) [ none ↦ none | some l ↦ some (0 ∷ 0 ∷ 0 ∷ l) ]
zeros _ = none

abbrev test_evp : Evp
test_evp = record { decode_block = zeros }

with_group :
    (o : Option (List ℕ)) (bytes : List ℕ)
    → (elim o [ none ↦ none | some l ↦ some (0 ∷ 0 ∷ 0 ∷ l) ]) ≡ some bytes
    → (l : List ℕ) × (o ≡ some l) × (length bytes ≡ length l + 3)
with_group none bytes h = cc
with_group (some l) bytes h =
    let e : 0 ∷ 0 ∷ 0 ∷ l ≡ bytes = cc in (l, refl, rw (← e) (omega arith))

zeros-groups : (text bytes : List ℕ) → zeros text ≡ some bytes → length bytes * 4 ≡ length text * 3
zeros-groups [] bytes h = let e : [] ≡ bytes = cc in rw (← e)
zeros-groups (a ∷ b ∷ c ∷ d ∷ rest) bytes h =
    let (l, e, n) = with_group (zeros rest) bytes h in omega (arith, n, zeros-groups rest l e)
zeros-groups (a ∷ []) bytes h = cc
zeros-groups (a ∷ b ∷ []) bytes h = cc
zeros-groups (a ∷ b ∷ c ∷ []) bytes h = cc

unbase64_run : unbase64 test_evp url_text ≡ some (0 ∷ 0 ∷ 0 ∷ [], 2)
unfolding unbase64 base64url_normalize pad_early half_padded translate total_padding
unbase64_run = refl

unbase64-length_example : 2 ≡ length url_text * 3 / 4
unbase64-length_example =
    unbase64-length test_evp record { groups = λ text bytes _. zeros-groups text bytes } url_text
      (0 ∷ 0 ∷ 0 ∷ []) 2 refl refl unbase64_run
