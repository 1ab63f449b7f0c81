-- ===== src/Sftp/Message.antt =====
-- The reassembly of SFTP messages from the data of a channel: the second half of
-- `susshi_inspect_sftp_packet` of src/susshid/inspect-sftp.c, over `SftpMessage` of
-- include/susshid/inspect-sftp.h. The inspection of a complete message is the parameter `deliver`.
pub mod Turns
pub mod Cases
pub mod Progress
pub mod Loop
pub mod Joined
pub mod Dated
pub mod Cuts
pub mod Append
pub mod Frames
pub mod Short
mod Tests
use susshi.Prelude.{
  ℕ, zero, suc, ◌+◌, ◌*◌, ◌<◌, ◌≡◌, Bool, true, false, Option, none, some, [], ◌++◌, length, ltb,
  ◌==◌, if◌then◌else◌,
}
use susshi.Result.{Result, done, stop, crash, fatal, need, ◌>>=◌}
use susshi.Gateway.{Bytes, Wire}
use susshi.Sftp.Buffer.{Buffers, add32, sub32, min, copy_bytes}

pub data MessageState : Type 0 where
  init new incomplete complete : MessageState

pub record SftpMessage : Type 0 where
  pub state : MessageState
  pub type : ℕ
  pub length : ℕ
  pub received : ℕ
  pub id : ℕ
  pub header : Bytes
  pub buffer : Bytes

-- A message that has not begun.
abbrev pub idle_message : SftpMessage
idle_message = record {
  state = init;
  type = 0;
  length = 0;
  received = 0;
  id = 0;
  header = [];
  buffer = [];
}

-- The types of messages of the drafts of draft-ietf-secsh-filexfer whose data is not kept in full.
abbrev pub fxp_write : ℕ
fxp_write = 6

abbrev pub fxp_data : ℕ
fxp_data = 103

-- How much of a message of a type is kept; `none` is all.
abbrev pub kept_of : ℕ → Option ℕ
kept_of type = if type == fxp_write then some 272 else if type == fxp_data then some 8 else none

-- What the first packet of a message copies, and a later one, given how much it has of the message.
abbrev pub first_copy : Option ℕ → ℕ → ℕ
first_copy none taken = taken
first_copy (some kept) taken = min taken kept

abbrev pub later_copy : Option ℕ → ℕ → ℕ → ℕ
later_copy none taken so_far = taken
later_copy (some kept) taken so_far = min (sub32 kept so_far) kept

-- A copy that is made only if it is not empty.
unfoldable pub copy_some : Buffers → ℕ → Bytes → Bytes → Result Bytes
copy_some b n to from = if ltb 0 n then copy_bytes b n to from else done to

unfoldable pub copy_later : Buffers → ℕ → ℕ → Bytes → Bytes → Result Bytes
unfolding copy_some
copy_later b type n to from =
    if type == fxp_write then copy_some b n to from else copy_bytes b n to from

unfoldable pub pass_some : Buffers → Bytes → ℕ → Bytes
pass_some b x n = if ltb 0 n then b.pass_bytes x n else x

-- The variables of the function: `datalen`, what is left of `buffer_copy`, the message, and the
-- rest of the session.
pub record Receiving (C : Type 0) : Type 0 where
  pub datalen : ℕ
  pub left : Bytes
  pub msg : SftpMessage
  pub core : C

-- `goto state_changed`, or the end of the function.
pub data Turn (C : Type 0) : Type 0 where
  again : Receiving C → Turn C
  ended : Receiving C → Turn C

abbrev pub turn_if : {C : Type 0} → Bool → Receiving C → Receiving C → Turn C
turn_if true s t = again s
turn_if false s t = ended t

abbrev pub follow :
    {C : Type 0}
    → (Receiving C → Option (Result (Receiving C)))
    → Result (Turn C)
    → Option (Result (Receiving C))
follow next (stop e) = some (stop e)
follow next (done (again s)) = next s
follow next (done (ended s)) = some (done s)

abbrev pub returned : {C : Type 0} → Option (Result (Receiving C)) → Result (Receiving C)
returned none = stop crash
returned (some r) = r

-- Four turns for each byte are enough.
abbrev pub fuel_for : {C : Type 0} → Receiving C → ℕ
fuel_for s = 4 * length s.left + 4

module _ (w : Wire) (b : Buffers) {C : Type 0} (deliver : ℕ → Bytes → C → Result C) where
  abbrev pub turn_init : Receiving C → Result (Turn C)
  turn_init s = do
    let taken = min (b.get_len s.left) (sub32 5 (b.get_len s.msg.header))
    header ← copy_some b taken s.msg.header s.left
    let left = pass_some b s.left taken
    done (
        turn_if (b.get_len header == 5)
          (record s { left = left; msg = record s.msg { header = header; state = new } })
          (record s { left = left; msg = record s.msg { header = header } }))

  abbrev pub turn_new : Receiving C → Result (Turn C)
  turn_new s = do
    (announced, rest) ← need (w.get_u32 s.msg.header)
    (type, rest) ← need (w.get_u8 rest)
    let size = sub32 announced 1
    let taken = min (b.get_len s.left) size
    let received = add32 s.msg.received taken
    buffer ← copy_bytes b (first_copy (kept_of type) taken) s.msg.buffer s.left
    let m = record s.msg {
      header = rest;
      type = type;
      length = size;
      received = received;
      buffer = buffer;
    }
    let t = record s { datalen = sub32 s.datalen 5; left = b.pass_bytes s.left taken }
    done (
        turn_if (size == received) (record t { msg = record m { state = complete } })
          (record t { msg = record m { state = incomplete } }))

  abbrev pub turn_incomplete : Receiving C → Result (Turn C)
  turn_incomplete s = do
    let so_far = if ltb s.msg.length s.msg.received then s.msg.length else s.msg.received
    let taken = min (sub32 s.msg.length so_far) s.datalen
    let received = add32 so_far taken
    let copied = later_copy (kept_of s.msg.type) taken (b.get_len s.msg.buffer)
    buffer ← copy_later b s.msg.type copied s.msg.buffer s.left
    let m = record s.msg { received = received; buffer = buffer }
    let t = record s { left = b.pass_bytes s.left taken }
    done (
        turn_if (received == s.msg.length) (record t { msg = record m { state = complete } })
          (record t { msg = m }))

  abbrev pub turn_complete : Receiving C → Result (Turn C)
  turn_complete s = do
    core ← deliver s.msg.type s.msg.buffer s.core
    let t = record s { msg = idle_message; core = core }
    done (turn_if (ltb 0 (b.get_len s.left)) t t)

  abbrev pub turn_by : MessageState → Receiving C → Result (Turn C)
  turn_by init = turn_init
  turn_by new = turn_new
  turn_by incomplete = turn_incomplete
  turn_by complete = turn_complete

  unfoldable pub turn : Receiving C → Result (Turn C)
  turn s = turn_by s.msg.state s

  -- The turns from `state_changed` on; `none` means that the fuel ran out.
  unfoldable pub turns : ℕ → Receiving C → Option (Result (Receiving C))
  turns zero s = none
  turns (suc fuel) s = follow (turns fuel) (turn s)

  unfoldable pub receive : Receiving C → Result (Receiving C)
  receive s = returned (turns (fuel_for s) s)
