-- ===== src/Base64/Decode.antt =====
-- The length of what `susshi_unbase64` of src/shared/base64.c decodes.
use susshi.Prelude.{
  zero, suc, refl, Bool, not, ◌&&◌, ◌||◌, ◌==◌, leb, [], ◌∷◌, Bool-cases, ℕ, ◌*◌, ◌-◌, ◌/◌, ◌%◌,
  ◌≡◌, inl, inr, ◌∙◌, false, Option, none, some, List, ◌++◌, map, length, replicate, any, arith,
}
use susshi.Base64.{
  pad, is_pad, translate, base64url_normalize, total_padding, Evp, decoded, unbase64,
}
use susshi.Base64.Padding.{padding-mod, any-translate, total_padding-append}
use susshi.Base64.Normal.{
  length-normal, normalize_clean, padding_cases, base64url_normalize-accepts_iff,
}

abbrev is_alnum : ℕ → Bool
is_alnum c = (leb 48 c && leb c 57) || (leb 65 c && leb c 90) || (leb 97 c && leb c 122)

-- No character of the standard alphabet, and not `=`.
abbrev pub is_foreign : ℕ → Bool
is_foreign c = not (is_alnum c || c == 43 || c == 47 || c == 61)

-- No character of either alphabet, and not `=`.
abbrev pub is_foreign_url : ℕ → Bool
is_foreign_url c = is_foreign c && not (c == 45 || c == 95)

translate-foreign : (c : ℕ) → is_foreign_url c ≡ false → is_foreign (translate c) ≡ false
unfolding translate
translate-foreign c h = ground (arith, h)

normal-foreign :
    (l : List ℕ) (n : ℕ)
    → any is_foreign_url l ≡ false
    → any is_foreign (map translate l ++ replicate n pad) ≡ false
normal-foreign [] zero h = refl
normal-foreign [] (suc n) h = normal-foreign [] n h
normal-foreign (c ∷ l) n h = elim (Bool-cases (is_foreign_url c)) [
  | inl bad ↦ cc (h, rw bad at h)
  | inr good ↦ rw (translate-foreign c good) (normal-foreign l n (rw good at h))
]

-- What the block decoder is documented to do: three bytes for each group of four characters of the
-- alphabet. White space around a text is trimmed, so nothing is said of texts with other characters.
pub record DecodesGroups (evp : Evp) : Type 0 where
  pub groups :
      (text bytes : List ℕ)
      → any is_foreign text ≡ false
      → evp.decode_block text ≡ some bytes
      → length bytes * 4 ≡ length text * 3

unbase64_parts :
    (evp : Evp) (text : List ℕ) (n : ℕ) (bytes : List ℕ)
    → decoded (evp.decode_block text) (total_padding text) ≡ some (bytes, n)
    → (evp.decode_block text ≡ some bytes) × (length bytes - total_padding text ≡ n)
unbase64_parts evp text n bytes h = by_result (evp.decode_block text) h
  where
    by_result :
        (o : Option (List ℕ))
        → decoded o (total_padding text) ≡ some (bytes, n)
        → (o ≡ some bytes) × (length bytes - total_padding text ≡ n)
    by_result none e = cc
    by_result (some b) e = (cc, cc)

-- The decoded length of a text that is accepted, has no `=` and only characters of one of the two
-- alphabets is three quarters of its length, rounded down.
pub unbase64-length :
    (evp : Evp)
    → DecodesGroups evp
    → (input bytes : List ℕ) (n : ℕ) → any is_pad input ≡ false
    → any is_foreign_url input ≡ false
    → unbase64 evp input ≡ some (bytes, n)
    → n ≡ length input * 3 / 4
unfolding unbase64
unbase64-length evp groups input bytes n clean letters h =
    elim (padding_cases (length input % 4) (omega arith)) [
      | inl (e, r) ↦
          let refused : base64url_normalize input ≡ none =
            (base64url_normalize-accepts_iff input clean).1 r in
          absurd (nothing_decoded (rw refused at h))
      | inr (p, e, r) ↦
          let fits = padding-mod (length input) p e in
          let text = map translate input ++ replicate p pad in
          let k : decoded (evp.decode_block text) (total_padding text) ≡ some (bytes, n) =
            rw (normalize_clean input p clean e) at h in
          let (d, counted) = unbase64_parts evp text n bytes k in
          let pads : total_padding text ≡ p =
            total_padding-append (map translate input) p (any-translate input ∙ clean) fits.1 in
          omega (
            arith,
            fits,
            counted,
            pads,
            groups.groups text bytes (normal-foreign input p letters) d,
            length-normal input p,
          )
    ]
  where
    nothing_decoded : ◌≡◌ {A = Option (List ℕ × ℕ)} none (some (bytes, n)) → ⊥
    nothing_decoded e = cc
