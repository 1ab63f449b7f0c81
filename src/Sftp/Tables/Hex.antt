-- ===== src/Sftp/Tables/Hex.antt =====
-- `data_to_hex` of src/susshid/inspect-sftp.c, by whose texts handles are told apart.
use susshi.Prelude.{
  ℕ, ◌/◌, ◌%◌, ◌≤◌, ◌<◌, ◌≡◌, ◌↔◌, refl, ap, true, [], ◌∷◌, length, take, arith, take_all,
}
use susshi.Gateway.{Bytes}
use susshi.Sftp.Tables.{same_text, hex_digit, hex_of, data_to_hex}

abbrev pub AreBytes : Bytes → Type 0
AreBytes [] = Unit {0}
AreBytes (a ∷ x) = (a < 256) × AreBytes x

same_text_iff : (x y : Bytes) → (same_text x y ≡ true) ↔ (x ≡ y)
unfolding same_text
same_text_iff [] [] = (λ h. refl, λ h. refl)
same_text_iff (a ∷ x) (b ∷ y) = (
  λ h. let e : a ≡ b = ground (arith) in let t : x ≡ y = (same_text_iff x y).0 (ground arith) in cc,
  λ h. ground (arith, (same_text_iff x y).1),
)
same_text_iff [] (b ∷ y) = (λ h. cc, λ h. cc)
same_text_iff (a ∷ x) [] = (λ h. cc, λ h. cc)

hex_digit_inj : (n m : ℕ) → n < 16 → m < 16 → hex_digit n ≡ hex_digit m → n ≡ m
hex_digit_inj n m ln lm h = ground arith

hex_of_inj : (x y : Bytes) → AreBytes x → AreBytes y → hex_of x ≡ hex_of y → x ≡ y
unfolding hex_of
hex_of_inj [] [] bx byy h = refl
hex_of_inj (a ∷ x) (b ∷ y) bx byy h =
    let high : a / 16 ≡ b / 16 =
      hex_digit_inj (a / 16) (b / 16) (omega (arith, bx.0)) (omega (arith, byy.0)) (cc) in
    let low : a % 16 ≡ b % 16 = hex_digit_inj (a % 16) (b % 16) (omega arith) (omega arith) (cc) in
    let e : a ≡ b = omega arith in let rest : x ≡ y = hex_of_inj x y bx.1 byy.1 (cc) in cc
hex_of_inj [] (b ∷ y) bx byy h = cc
hex_of_inj (a ∷ x) [] bx byy h = cc

-- Two handles of at most 255 bytes, each below 256, have the same text exactly if they are the same
-- handle.
pub data_to_hex_iff :
    (x y : Bytes)
    → AreBytes x
    → AreBytes y
    → length x ≤ 255
    → length y ≤ 255
    → (same_text (data_to_hex 514 x) (data_to_hex 514 y) ≡ true) ↔ (x ≡ y)
unfolding data_to_hex
data_to_hex_iff x y bx byy lx ly =
    let ex : take 255 x ≡ x = take_all 255 x lx in
    let ey : take 255 y ≡ y = take_all 255 y ly in
    (
      λ h. hex_of_inj x y bx byy (
          let t : hex_of (take 255 x) ≡ hex_of (take 255 y) =
            cc ((same_text_iff (data_to_hex 514 x) (data_to_hex 514 y)).0 h) in
          rw (ex, ey) at t),
      λ e. (same_text_iff _ _).1 (ap (data_to_hex 514) e),
    )
