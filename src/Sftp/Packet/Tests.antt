-- ===== src/Sftp/Packet/Tests.antt =====
-- A packet of a session, on concrete bytes.
use susshi.Prelude.{◌≡◌, refl, [], ◌∷◌, true, arith}
use susshi.Result.{done}
use susshi.Gateway.{Bytes}
use susshi.Session.{client}
use susshi.Sftp.Buffer.{min, copy_bytes}
use susshi.Sftp.Message.{idle_message, copy_some, copy_later, pass_some, turn, turns, receive}
use susshi.Sftp.Session.{SftpSession}
use susshi.Sftp.Packet.{inspect_sftp_packet}
use susshi.Sftp.Packet.Sides.{IsSound, Keeps, inspect_sftp_packet-Keeps}
use susshi.Sftp.Tests.{test_sftp_library, test_buffers, test_lawful, test_core}

-- Two bytes of a header have come from the target.
abbrev before : SftpSession
before = record {
  linked = true;
  core = test_core;
  sftp_client_message = idle_message;
  sftp_target_message = record idle_message { header = 0 ∷ 0 ∷ [] };
}

before-IsSound : IsSound before
before-IsSound = record {
  from_client = (omega arith, refl, refl);
  from_target = (omega arith, refl, refl);
}

-- Three bytes of a header.
abbrev three : Bytes
three = 0 ∷ 0 ∷ 0 ∷ 3 ∷ 0 ∷ 0 ∷ 1 ∷ []

abbrev after : SftpSession
after = record before { sftp_client_message = record idle_message { header = 0 ∷ 0 ∷ 1 ∷ [] } }

ran : inspect_sftp_packet test_sftp_library test_buffers client three before ≡ done after
unfolding inspect_sftp_packet receive turns turn min copy_bytes copy_some copy_later pass_some
ran = refl

inspect_sftp_packet-Keeps_example : Keeps client before after
inspect_sftp_packet-Keeps_example =
    (inspect_sftp_packet-Keeps test_sftp_library test_buffers test_lawful client before
        before-IsSound three (0 ∷ 0 ∷ 1 ∷ []) refl).at
      after ran
