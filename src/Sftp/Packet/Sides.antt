-- ===== src/Sftp/Packet/Sides.antt =====
-- What a packet of one side does to the messages that are under way on both sides:
-- `susshi_inspect_sftp_packet` of src/susshid/inspect-sftp.c.
use susshi.Prelude.{
  ◌≡◌, refl, Bool, true, false, inl, inr, some, length, ◌==◌, Bool-cases, if◌then◌else◌,
}
use susshi.Result.{fatal, crash}
use susshi.Result.Ensures.{
  Ensures, Ensures-done, Ensures-stop, Ensures-if, Ensures-bind, Ensures-need,
}
use susshi.Gateway.{Bytes}
use susshi.Session.{Side, is_client}
use susshi.Sftp.Buffer.{Buffers, IsLawful}
use susshi.Sftp.Message.{Receiving, receive}
use susshi.Sftp.Message.Turns.{IsValid, at}
use susshi.Sftp.Message.Append.{filled_own}
use susshi.Sftp.Message.Loop.{receive-IsValid}
use susshi.Sftp.Session.{SftpCore, SftpSession}
use susshi.Sftp.Library.{SftpLibrary, fxp_version}
use susshi.Sftp.Packet.{
  extension_loop, read_first, message_of, deliver_from, put_back, go_on, greet_by, greet_target,
  inspect_sftp_packet,
}

-- Both messages that are under way are valid.
pub record IsSound (s : SftpSession) : Type 0 where
  pub from_client : IsValid s.sftp_client_message
  pub from_target : IsValid s.sftp_target_message

-- The messages of `t` are valid, and that of the other side is the one of `s`.
pub record Keeps (sender : Side) (s t : SftpSession) : Type 0 where
  pub sound : IsSound t
  pub linked : t.linked ≡ s.linked
  pub other :
      (if is_client sender then t.sftp_target_message else t.sftp_client_message)
      ≡ (if is_client sender then s.sftp_target_message else s.sftp_client_message)

module _ (l : SftpLibrary) (b : Buffers) (law : IsLawful b l.wire) (sender : Side) (s : SftpSession)
    (sound : IsSound s) where
  message_of-IsValid : IsValid (message_of l b sender s)
  message_of-IsValid = by_side (is_client sender)
    where
      by_side : (c : Bool) → IsValid (if c then s.sftp_client_message else s.sftp_target_message)
      by_side true = sound.from_client
      by_side false = sound.from_target

  put_back-Keeps :
      (r : Receiving SftpCore) → IsValid r.msg → Keeps sender s (put_back l b sender r s)
  put_back-Keeps r v = elim (Bool-cases (is_client sender)) [
    | inl e ↦ rw e (record {
      sound = record { from_client = v; from_target = sound.from_target };
      linked = refl;
      other = rw e refl;
    })
    | inr e ↦ rw e (record {
      sound = record { from_client = sound.from_client; from_target = v };
      linked = refl;
      other = rw e refl;
    })
  ]

  go_on-Keeps : (x : Bytes) → Ensures (Keeps sender s) (go_on l b sender (length x) x s)
  go_on-Keeps x =
      let m = message_of l b sender s in
      Ensures-bind (receive l.wire b (deliver_from l b sender) (at (length x) x m s.core)) _
        λ r ran. Ensures-done _ (
          put_back-Keeps r
            (receive-IsValid law (deliver_from l b sender) (at (length x) x m s.core) r
              (message_of-IsValid, filled_own m.state x m s.core) ran).0)

  greet_target-Keeps : (x : Bytes) → Ensures (Keeps sender s) (greet_target l b x s)
  unfolding extension_loop
  greet_target-Keeps x =
      Ensures-need (read_first l b x) (λ (p, y). greet_by l b p.0.1 p.1 y s)
        λ (p, y) e.
          Ensures-if (p.0.1 == fxp_version) _ _
            (λ _.
              Ensures-if s.linked _ _
                (λ _. Ensures-done _ (record {
                  sound = record {
                    from_client = sound.from_client;
                    from_target = sound.from_target;
                  };
                  linked = refl;
                  other = refl;
                }))
                λ _. Ensures-stop crash)
            λ _. Ensures-stop fatal

  -- In a session with valid messages under way on both sides, a packet of one side whose length is
  -- that of its data, if its inspection returns, leaves valid messages on both sides, and the one of
  -- the other side as it was: the two directions are reassembled independently.
  pub inspect_sftp_packet-Keeps :
      (x rest : Bytes)
      → l.wire.get_u32 x ≡ some (length rest, rest)
      → Ensures (Keeps sender s) (inspect_sftp_packet l b sender x s)
  unfolding inspect_sftp_packet
  inspect_sftp_packet-Keeps x rest e =
      Ensures-if (b.get_len x == 0) _ _
        (λ _. Ensures-done _ (record { sound = sound; linked = refl; other = refl }))
        λ _. rw e (
          Ensures-if (s.core.target_version == 0) (greet_target l b rest s)
            (go_on l b sender (length rest) rest s) (λ _. greet_target-Keeps rest)
            λ _. go_on-Keeps rest)
