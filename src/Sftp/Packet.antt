-- ===== src/Sftp/Packet.antt =====
-- The data of a channel as the inspection of file transfers gets it: `susshi_new_sftp_session` and
-- `susshi_inspect_sftp_packet` of src/susshid/inspect-sftp.c.
pub mod Rounds
pub mod Sides
mod Tests
use susshi.Prelude.{
  ℕ, zero, suc, Bool, true, false, Option, none, some, [], ◌∷◌, length, ltb, ◌==◌, if◌then◌else◌,
}
use susshi.Result.{Result, done, stop, fatal, crash, need, ◌>>=◌}
use susshi.Gateway.{Bytes}
use susshi.Session.{Side, is_client}
use susshi.Sftp.Buffer.{Buffers}
use susshi.Sftp.Message.{SftpMessage, idle_message, Receiving, receive}
use susshi.Sftp.Session.{
  client_version, server_version, client_extension, server_extension, Event, SftpCore, SftpSession,
}
use susshi.Sftp.Attributes.{both}
use susshi.Sftp.Library.{SftpLibrary, fxp_init, fxp_version}
use susshi.Sftp.Request.{inspect_sftp_request}
use susshi.Sftp.Response.{inspect_sftp_response}

-- `xcalloc` leaves every field at zero. The counters of bytes and the log are not the session's.
abbrev pub fresh_session : SftpCore → SftpSession
fresh_session s = record {
  linked = false;
  core = record s { client_version = 0; target_version = 0; sftp_requests = []; sftp_handles = [] };
  sftp_client_message = idle_message;
  sftp_target_message = idle_message;
}

abbrev pub note_session : Bool → Event → SftpCore → SftpCore
note_session from_client e s = record s {
  log = record { id = none; from_client = from_client; event = e } ∷ s.log;
}

module _ (l : SftpLibrary) (b : Buffers) where
  -- The pairs of a name and its data, up to the first read that fails. Each takes bytes, so as many
  -- rounds as there are bytes are enough.
  unfoldable pub extension_loop : ℕ → Bool → (Bytes → Bytes → Event) → Bytes → SftpCore → SftpCore
  extension_loop zero from_client make x s = s
  extension_loop (suc fuel) from_client make x s =
      elim (both l.wire.get_string l.wire.get_string x) [
        | none ↦ s
        | some (p, x) ↦
            extension_loop fuel from_client make x (note_session from_client (make p.0 p.1) s)
      ]

  abbrev pub read_first : Bytes → Option (((ℕ × ℕ) × ℕ) × Bytes)
  read_first = both (both l.wire.get_u32 l.wire.get_u8) l.wire.get_u32

  -- The first data of the client.
  abbrev pub greet_client : ℕ → ℕ → Bytes → SftpCore → Result SftpSession
  greet_client type version x s =
      let fresh = fresh_session s in
      let t =
        note_session true (client_version version)
          (record (fresh.core) { client_version = version }) in
      if type == fxp_init
      then done (record fresh {
        linked = true;
        core = extension_loop (length x) true client_extension x t;
      })
      else stop fatal

  unfoldable pub new_sftp_session : Bytes → SftpCore → Result SftpSession
  unfolding extension_loop
  new_sftp_session x s = if b.get_len x == 0 then done (fresh_session s) else do
    (n, x) ← need (l.wire.get_u32 x)
    (p, x) ← need (read_first x)
    greet_client p.0.1 p.1 x s

  -- The first data after that, which is taken for the target's.
  abbrev pub greeted : ℕ → Bytes → SftpCore → SftpCore
  greeted version x s =
      let t = note_session false (server_version version) (record s {
        target_version = version;
        client_version = if ltb version s.client_version then version else s.client_version;
      }) in
      extension_loop (length x) false server_extension x t

  -- The channel is read for the log, also where no channel is set.
  abbrev pub greet_by : ℕ → ℕ → Bytes → SftpSession → Result SftpSession
  greet_by type version x s =
      if type == fxp_version
      then if s.linked then done (record s { core = greeted version x s.core }) else stop crash
      else stop fatal

  abbrev pub greet_target : Bytes → SftpSession → Result SftpSession
  greet_target x s = do (p, x) ← need (read_first x); greet_by p.0.1 p.1 x s

  abbrev pub message_of : Side → SftpSession → SftpMessage
  message_of sender s = if is_client sender then s.sftp_client_message else s.sftp_target_message

  abbrev pub deliver_from : Side → ℕ → Bytes → SftpCore → Result SftpCore
  deliver_from sender = if is_client sender then inspect_sftp_request l else inspect_sftp_response l

  abbrev pub put_back : Side → Receiving SftpCore → SftpSession → SftpSession
  put_back sender r s =
      if is_client sender
      then record s { core = r.core; sftp_client_message = r.msg }
      else record s { core = r.core; sftp_target_message = r.msg }

  abbrev pub go_on : Side → ℕ → Bytes → SftpSession → Result SftpSession
  go_on sender datalen x s = do
    r ←
        receive l.wire b (deliver_from sender)
          (record { datalen = datalen; left = x; msg = message_of sender s; core = s.core })
    done (put_back sender r s)

  unfoldable pub inspect_sftp_packet : Side → Bytes → SftpSession → Result SftpSession
  unfolding extension_loop
  inspect_sftp_packet sender x s = if b.get_len x == 0 then done s else do
    (datalen, x) ← need (l.wire.get_u32 x)
    if s.core.target_version == 0 then greet_target x s else go_on sender datalen x s
