-- ===== src/Sftp/Message/Short.antt =====
-- Where `susshi_inspect_sftp_packet` (src/susshid/inspect-sftp.c) copies past the end of a packet.
use susshi.Prelude.{ℕ, ◌+◌, ◌-◌, ◌<◌, ◌≡◌, refl, ◌∙◌, Option, some, length, arith, ap}
use mathlib.Core.Path.{subst}
use susshi.Result.{Result, stop, crash}
use susshi.Gateway.{Bytes, Wire}
use susshi.Sftp.Buffer.{Buffers, min, IsLawful}
use susshi.Sftp.Message.{
  MessageState, incomplete, SftpMessage, fxp_write, kept_of, later_copy, receive,
}
use susshi.Sftp.Message.Turns.{IsValid, IsValidBy, at}
use susshi.Sftp.Message.Cases.{wanted, incomplete_past}
use susshi.Sftp.Message.Loop.{receive_stops}
use susshi.Sftp.Message.Append.{filled_own}

wanted_rest :
    (m : SftpMessage) (k : ℕ)
    → m.type ≡ fxp_write
    → length m.buffer < 272
    → wanted m k ≡ 272 - length m.buffer
unfolding min
wanted_rest m k e lt =
    let kept : kept_of m.type ≡ some 272 = rw e in
    ap (λ (o : Option ℕ). later_copy o k (length m.buffer)) kept ∙ ground arith

module _ {b : Buffers} {w : Wire} (law : IsLawful b w) {C : Type 0}
    (deliver : ℕ → Bytes → C → Result C) where
  -- A WRITE message is under way and fewer than 272 bytes of it are copied: then a packet that has
  -- not got the missing ones is read past its end, even if it brings all that the message still
  -- needs.
  pub receive-crash :
      (x : Bytes) (m : SftpMessage) (c : C)
      → IsValid m
      → m.state ≡ incomplete
      → m.type ≡ fxp_write
      → length m.buffer + length x < 272
      → receive w b deliver (at (length x) x m c) ≡ stop crash
  receive-crash x m c v e t few =
      let vm = subst (λ (st : MessageState). IsValidBy st m) e v in
      let past : length x < wanted m (min (m.length - m.received) (length x)) =
        rw (wanted_rest m (min (m.length - m.received) (length x)) t (omega arith)) (omega arith) in
      receive_stops law deliver (at (length x) x m c) crash
        (incomplete_past law deliver (length x) x m c e vm refl past) (v, filled_own m.state x m c)
