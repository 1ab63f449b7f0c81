-- ===== src/Sftp/Message/Tests.antt =====
-- The reassembly of messages, on concrete packets.
use susshi.Prelude.{ℕ, ◌≡◌, refl, [], ◌∷◌, ◌++◌, List, some, arith}
use mathlib.Core.Path.{subst}
use susshi.Result.{Result, done, stop, crash}
use susshi.Gateway.{Bytes}
use susshi.Sftp.Buffer.{min, copy_bytes}
use susshi.Sftp.Message.{
  incomplete, SftpMessage, idle_message, Receiving, copy_some, copy_later, pass_some, turn, turns,
  receive,
}
use susshi.Sftp.Message.Turns.{IsValid, at}
use susshi.Sftp.Message.Loop.{receive_total}
use susshi.Sftp.Message.Joined.{IsSettled}
use susshi.Sftp.Message.Dated.{outcome}
use susshi.Sftp.Message.Append.{receive-append}
use susshi.Sftp.Message.Frames.{
  Frame, stream, deliver_all, receive-stream, receive_packets, AllSettled, receive_packets-stream,
}
use susshi.Sftp.Message.Short.{receive-crash}
use susshi.Sftp.Tests.{sftp_wire, test_buffers, test_lawful}

-- Keeps all messages.
abbrev keep : ℕ → Bytes → List Frame → Result (List Frame)
keep type x seen = done (seen ++ (type, x) ∷ [])

abbrev two_messages : List Frame
two_messages = (4, 9 ∷ 9 ∷ []) ∷ (103, 0 ∷ 0 ∷ 0 ∷ 7 ∷ 0 ∷ 0 ∷ 0 ∷ 2 ∷ 5 ∷ 6 ∷ []) ∷ []

abbrev whole : Bytes
whole = stream two_messages

-- Ends in the header of the second message.
abbrev packet_1 : Bytes
packet_1 = 0 ∷ 0 ∷ 0 ∷ 3 ∷ 4 ∷ 9 ∷ 9 ∷ 0 ∷ 0 ∷ []

abbrev packet_2 : Bytes
packet_2 = 0 ∷ 11 ∷ 103 ∷ 0 ∷ 0 ∷ 0 ∷ 7 ∷ 0 ∷ 0 ∷ 0 ∷ 2 ∷ 5 ∷ 6 ∷ []

idle_IsValid : IsValid idle_message
idle_IsValid = (omega arith, refl, refl)

abbrev after_1 : Receiving (List Frame)
after_1 = record {
  datalen = 4;
  left = [];
  msg = record idle_message { header = 0 ∷ 0 ∷ [] };
  core = (4, 9 ∷ 9 ∷ []) ∷ [];
}

run_1 : receive sftp_wire test_buffers keep (at 9 packet_1 idle_message []) ≡ done after_1
unfolding receive turns turn min copy_bytes copy_some copy_later pass_some
run_1 = refl

receive_total_example :
    (r : Result (Receiving (List Frame))) × (turns sftp_wire test_buffers keep 40
        (at 9 packet_1 idle_message [])
      ≡ some r)
    × (receive sftp_wire test_buffers keep (at 9 packet_1 idle_message []) ≡ r)
receive_total_example =
    receive_total test_lawful keep (at 9 packet_1 idle_message []) (idle_IsValid, tt)

receive-append_example :
    outcome (receive sftp_wire test_buffers keep (at 13 packet_2 after_1.msg after_1.core))
    ≡ outcome (receive sftp_wire test_buffers keep (at 22 (packet_1 ++ packet_2) idle_message []))
receive-append_example =
    receive-append test_lawful keep packet_1 packet_2 idle_message [] after_1 idle_IsValid run_1 tt

receive-stream_example :
    outcome (receive sftp_wire test_buffers keep (at 22 whole idle_message []))
    ≡ done (idle_message, (4, 9 ∷ 9 ∷ []) ∷ (103, 0 ∷ 0 ∷ 0 ∷ 7 ∷ 0 ∷ 0 ∷ 0 ∷ 2 ∷ []) ∷ [])
unfolding min
receive-stream_example =
    receive-stream test_lawful keep two_messages 22 [] (omega arith, (omega arith, tt))

abbrev seen : List Frame
seen = (4, 9 ∷ 9 ∷ []) ∷ (103, 0 ∷ 0 ∷ 0 ∷ 7 ∷ 0 ∷ 0 ∷ 0 ∷ 2 ∷ []) ∷ []

abbrev after_2 : Receiving (List Frame)
after_2 = record { datalen = 8; left = []; msg = idle_message; core = seen }

run_2 : receive sftp_wire test_buffers keep (at 13 packet_2 after_1.msg after_1.core) ≡ done after_2
unfolding receive turns turn min copy_bytes copy_some copy_later pass_some
run_2 = refl

both_run :
    receive_packets sftp_wire test_buffers keep (packet_1 ∷ packet_2 ∷ []) idle_message []
    ≡ done (idle_message, seen)
unfolding receive_packets
both_run = rw (run_1, run_2) refl

all_settled : AllSettled sftp_wire test_buffers keep (packet_1 ∷ packet_2 ∷ []) idle_message []
unfolding AllSettled
all_settled r ran =
    let same : after_1 ≡ r = cc run_1 in
    subst
      (λ (r : Receiving (List Frame)).
        IsSettled r.msg × AllSettled sftp_wire test_buffers keep (packet_2 ∷ []) r.msg r.core)
      same (tt, last)
  where
    last : AllSettled sftp_wire test_buffers keep (packet_2 ∷ []) after_1.msg after_1.core
    last r ran =
        let same : after_2 ≡ r = cc run_2 in
        subst (λ (r : Receiving (List Frame)). IsSettled r.msg × Unit {0}) same (tt, tt)

receive_packets-stream_example :
    (deliver_all keep two_messages [] ≡ done seen) × (idle_message ≡ idle_message)
receive_packets-stream_example =
    receive_packets-stream test_lawful keep two_messages packet_1 (packet_2 ∷ []) idle_message []
      seen (omega arith, (omega arith, tt)) refl all_settled both_run

-- A WRITE of which 4 bytes have come, of 10.
abbrev short_write : SftpMessage
short_write = record {
  state = incomplete;
  type = 6;
  length = 10;
  received = 4;
  id = 0;
  header = [];
  buffer = 0 ∷ 0 ∷ 0 ∷ 7 ∷ [];
}

receive-crash_example :
    receive sftp_wire test_buffers keep (at 6 (1 ∷ 2 ∷ 3 ∷ 4 ∷ 5 ∷ 6 ∷ []) short_write [])
    ≡ stop crash
receive-crash_example =
    receive-crash test_lawful keep (1 ∷ 2 ∷ 3 ∷ 4 ∷ 5 ∷ 6 ∷ []) short_write []
      (omega arith, omega arith, omega arith) refl refl (omega arith)
