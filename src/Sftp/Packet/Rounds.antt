-- ===== src/Sftp/Packet/Rounds.antt =====
-- The loops over extensions in `susshi_new_sftp_session` and `susshi_inspect_sftp_packet`
-- (src/susshid/inspect-sftp.c) end.
use susshi.Prelude.{
  ℕ, zero, suc, ◌≤◌, ◌<◌, ◌≡◌, refl, inl, inr, Bool, some, length, arith, Option-cases,
}
use susshi.Gateway.{Bytes}
use susshi.Sftp.Session.{Event, SftpCore}
use susshi.Sftp.Buffer.{Buffers}
use susshi.Sftp.Attributes.{both}
use susshi.Sftp.Library.{SftpLibrary}
use susshi.Sftp.Packet.{note_session, extension_loop}

-- A string that was read has taken bytes.
abbrev Shortens : SftpLibrary → Type 0
Shortens l = (x v rest : Bytes) → l.wire.get_string x ≡ some (v, rest) → length rest < length x

module _ (l : SftpLibrary) (b : Buffers) (shortens : Shortens l) where
  both-shortens :
      (x : Bytes) (p : Bytes × Bytes) (rest : Bytes)
      → both l.wire.get_string l.wire.get_string x ≡ some (p, rest)
      → length rest < length x
  both-shortens x p rest e = elim (Option-cases (l.wire.get_string x)) [
    | inl fails ↦ cc (rw (both, fails) at e)
    | inr ((v, y), first) ↦ elim (Option-cases (l.wire.get_string y)) [
      | inl fails ↦ cc (rw (both, first, fails) at e)
      | inr ((u, z), second) ↦
          let same : z ≡ rest = cc (rw (both, first, second) at e) in
          let one = shortens x v y first in
          let two = shortens y u z second in rw (← same) (omega (arith, one, two))
    ]
  ]

  -- As many rounds as there are bytes are enough, and more make no difference.
  pub extension_loop_enough :
      (f g : ℕ) (from_client : Bool) (make : Bytes → Bytes → Event) (x : Bytes) (s : SftpCore)
      → length x ≤ f
      → length x ≤ g
      → extension_loop l b f from_client make x s ≡ extension_loop l b g from_client make x s
  unfolding extension_loop
  extension_loop_enough zero zero from_client make x s lf lg = refl
  extension_loop_enough zero (suc g) from_client make x s lf lg =
      elim (Option-cases (both l.wire.get_string l.wire.get_string x)) [
        | inl fails ↦ rw (extension_loop, fails) refl
        | inr ((p, y), e) ↦ absurd (omega (arith, both-shortens x p y e))
      ]
  extension_loop_enough (suc f) zero from_client make x s lf lg =
      elim (Option-cases (both l.wire.get_string l.wire.get_string x)) [
        | inl fails ↦ rw (extension_loop, fails) refl
        | inr ((p, y), e) ↦ absurd (omega (arith, both-shortens x p y e))
      ]
  extension_loop_enough (suc f) (suc g) from_client make x s lf lg =
      elim (Option-cases (both l.wire.get_string l.wire.get_string x)) [
        | inl fails ↦ rw (extension_loop, fails) refl
        | inr ((p, y), e) ↦
            let less = both-shortens x p y e in
            rw (extension_loop, e)
              (extension_loop_enough f g from_client make y
                (note_session from_client (make p.0 p.1) s) (omega (arith, less))
                (omega (arith, less)))
      ]
