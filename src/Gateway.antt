-- ===== src/Gateway.antt =====
-- What packet inspection uses and does not implement: the packet buffers of libssh, the libraries
-- behind the tests on commands, the configuration (include/susshid/susshi-cfg.h), the constants of
-- the session (include/susshid/session.h), and the inspectors of channel data in other files of
-- src/susshid.
use susshi.Prelude.{ℕ, String, Bool, Option, List}
use susshi.Result.{Result}
use susshi.Session.{Side, Session, Sent}
use susshi.Acl.{Context}

-- The bytes of a buffer from its read position on.
abbrev pub Bytes : Type 0
Bytes = List ℕ

-- `ssh_buffer_unpack` with the formats `b`, `d`, `s` and `S`; `none` is any other result than
-- `SSH_OK`. `sends` tells whether `ssh_buffer_pack` and `ssh_packet_send` accept a packet.
pub record Wire : Type 0 where
  pub get_u8 : Bytes → Option (ℕ × Bytes)
  pub get_u32 : Bytes → Option (ℕ × Bytes)
  pub get_cstring : Bytes → Option (String × Bytes)
  pub get_string : Bytes → Option (Bytes × Bytes)
  pub sends : Sent → Bool
  pub rekeying : Side → Bool

-- The parts of an `scp` command line that the pattern of `susshi_inspect_channel_request_exec`
-- captures: the path before `scp`, the options and the path after them.
pub record ScpCommand : Type 0 where
  pub path1 : String
  pub options : String
  pub path2 : String

-- `scp_pattern` and `filepath_pattern` are `pcre2_match` with the two constant patterns,
-- `length_of` is `blength`, `option_in` is `strstr` on the options, `dirname` is the C library's.
-- `command` is the C string at the start of an `ssh_string`.
pub record Library : Type 0 where
  pub scp_pattern : String → Option ScpCommand
  pub filepath_pattern : String → Bool
  pub length_of : String → ℕ
  pub option_in : String → String → Bool
  pub dirname : String → String
  pub command : Bytes → String

pub record Config : Type 0 where
  pub send_shell_env : Bool
  pub num_session_log_encryption_keys : ℕ
  pub logfile_exec_max_size : ℕ
  pub exec_log_stop_pattern : List String
  pub susshi_user : String
  pub susshi_uniqid : String
  pub client_ip : String
  pub client_port : ℕ
  pub target_ip : String
  pub target_port : ℕ
  pub max_session_secs : ℕ
  pub max_session_idle_secs : ℕ
  pub now : ℕ

-- Columns, rows and both sizes in pixels, with the terminal's name.
pub record TermSize : Type 0 where
  pub tx : ℕ
  pub ty : ℕ
  pub txp : ℕ
  pub typ : ℕ
  pub terminal : Option String

-- Handlers of inspect-scp.c, inspect-sftp.c, inspect-tcp.c, inspect-x11.c, inspect-ossh-agent.c,
-- inspect-unixsock.c, log.c and hostkeys-update.c, given the slot of the channel.
pub record Inspectors : Type 0 where
  pub scp_data : ℕ → Side → Bytes → Session → Result Session
  pub new_sftp_session : ℕ → Bytes → Session → Result Session
  pub sftp_packet : ℕ → Side → Bytes → Session → Result Session
  pub pfwd_data : ℕ → Side → Bytes → Session → Result (Bool × Session)
  pub x11_data : ℕ → Side → Bytes → Session → Result Session
  pub agent_data : ℕ → Side → Bytes → Session → Result Session
  pub socketfwd_data : ℕ → Side → Bytes → Session → Result Session
  pub log_target_output : ℕ → Bytes → Session → Result Session
  pub log_client_input : ℕ → Bytes → Session → Result Session
  pub log_timing : ℕ → Option TermSize → Session → Result Session
  pub prove_hostkeys : Bytes → Session → Result Session

pub record Gateway : Type 0 where
  pub wire : Wire
  pub library : Library
  pub acl : Context
  pub cfg : Config
  pub inspect : Inspectors
