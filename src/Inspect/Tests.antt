-- ===== src/Inspect/Tests.antt =====
-- A gateway with small concrete libraries, and the packets and sessions of the tests.
use susshi.Prelude.{
  refl, ℕ, ◌+◌, ◌*◌, ◌^◌, String, true, false, Option, none, some, [], ◌∷◌, ◌==◌, str_eq,
  if◌then◌else◌,
}
use susshi.Result.{Result, done, stop}
use susshi.Result.Ensures.{Ensures-done}
use susshi.Session.{idle, Channel, Report, Session, no_channel}
use susshi.Acl.{Context, Unpacked, failed, present, boolean, array, text as rule}
use susshi.Gateway.{Bytes, Wire, Library, Config, Inspectors, Gateway}
use susshi.Channels.Table.{fresh_channel}
use susshi.Inspect.Reply.{Reply}
use susshi.Inspect.Follows.{IsQuiet, Lawful}

-- A name is one byte on this wire.
abbrev name_of : ℕ → Option String
name_of b =
    if b == 0
    then some "session"
    else if b == 1
    then some "no-more-sessions@openssh.com"
    else if b == 2
    then some "direct-tcpip"
    else if b == 3
    then some "db"
    else if b == 4
    then some "shell"
    else if b == 5
    then some "exec"
    else if b == 6
    then some "x11-req"
    else if b == 7
    then some "hostkeys-00@openssh.com"
    else none

abbrev read_name : Bytes → Option (String × Bytes)
read_name [] = none
read_name (b ∷ rest) = elim (name_of b) [ none ↦ none | some n ↦ some (n, rest) ]

abbrev read_u8 : Bytes → Option (ℕ × Bytes)
read_u8 [] = none
read_u8 (b ∷ rest) = some (b, rest)

abbrev read_u32 : Bytes → Option (ℕ × Bytes)
read_u32 (a ∷ b ∷ c ∷ d ∷ rest) = some (a * 2 ^ 24 + b * 2 ^ 16 + c * 2 ^ 8 + d, rest)
read_u32 _ = none

abbrev pub test_wire : Wire
test_wire = record {
  get_u8 = read_u8;
  get_u32 = read_u32;
  get_cstring = read_name;
  get_string = λ b. some (b, []);
  sends = λ p. true;
  rekeying = λ d. false;
}

abbrev test_library : Library
test_library = record {
  scp_pattern = λ cmd. none;
  filepath_pattern = λ path. true;
  length_of = λ t. 1;
  option_in = λ options o. true;
  dirname = λ path. path;
  command = λ b. "uptime";
}

abbrev granted : String → Unpacked
granted key =
    if str_eq key "SSHInteractive"
    then present (boolean true)
    else if str_eq key "SSHLocalForwards"
    then present (array (rule "db|5432" ∷ []))
    else failed

abbrev test_acl : Context
test_acl = record {
  unpack = granted;
  bastion = false;
  normalize = λ host. host;
  split = λ r. if str_eq r "db|5432" then "db" ∷ "5432" ∷ [] else r ∷ [];
  search = λ pattern value. none;
  decimal = λ port. if port == 5432 then "5432" else "0";
}

abbrev test_config : Config
test_config = record {
  send_shell_env = false;
  num_session_log_encryption_keys = 0;
  logfile_exec_max_size = 4096;
  exec_log_stop_pattern = [];
  susshi_user = "alice";
  susshi_uniqid = "1";
  client_ip = "192.0.2.1";
  client_port = 40000;
  target_ip = "192.0.2.2";
  target_port = 22;
  max_session_secs = no_channel;
  max_session_idle_secs = no_channel;
  now = 0;
}

-- Inspectors that log nothing.
abbrev test_inspectors : Inspectors
test_inspectors = record {
  scp_data = λ cid d b s. done s;
  new_sftp_session = λ cid b s. done s;
  sftp_packet = λ cid d b s. done s;
  pfwd_data = λ cid d b s. done (true, s);
  x11_data = λ cid d b s. done s;
  agent_data = λ cid d b s. done s;
  socketfwd_data = λ cid d b s. done s;
  log_target_output = λ cid b s. done s;
  log_client_input = λ cid b s. done s;
  log_timing = λ cid t s. done s;
  prove_hostkeys = λ b s. done s;
}

abbrev pub test_gateway : Gateway
test_gateway = record {
  wire = test_wire;
  library = test_library;
  acl = test_acl;
  cfg = test_config;
  inspect = test_inspectors;
}

same : (s : Session) → IsQuiet s s
same s = record {
  same_flag = refl;
  same_id = refl;
  same_size = refl;
  same_bytes = record { client_in = refl; client_out = refl; target_in = refl; target_out = refl };
}

pub test_gateway-Lawful : Lawful test_gateway.inspect
test_gateway-Lawful = record {
  scp = λ cid d b s. Ensures-done s (same s);
  new_sftp = λ cid b s. Ensures-done s (same s);
  sftp = λ cid d b s. Ensures-done s (same s);
  pfwd = λ cid d b s. Ensures-done (true, s) (same s);
  x11 = λ cid d b s. Ensures-done s (same s);
  agent = λ cid d b s. Ensures-done s (same s);
  socket = λ cid d b s. Ensures-done s (same s);
  target = λ cid b s. Ensures-done s (same s);
  client = λ cid b s. Ensures-done s (same s);
  timing = λ cid t s. Ensures-done s (same s);
  hostkeys = λ b s. Ensures-done s (same s);
}

abbrev no_report : Report
no_report = record {
  update_last_io_time = true;
  client_in_bytes = 0;
  client_out_bytes = 0;
  target_in_bytes = 0;
  target_out_bytes = 0;
  channels_opened = 0;
  channels_rejected = 0;
  channels_failed = 0;
  channels_closed = 0;
  local_forwards_accepted = 0;
  local_forwards_rejected = 0;
  remote_forwards_accepted = 0;
  remote_forwards_rejected = 0;
  remote_forwards_canceled = 0;
  tunnel_interfaces_rejected = 0;
  interactive_sessions_accepted = 0;
  interactive_sessions_rejected = 0;
  command_execs_accepted = 0;
  command_execs_rejected = 0;
  unkown_subsystems_accepted = 0;
  x11_sessions_accepted = 0;
  x11_sessions_rejected = 0;
  agent_forwards_accepted = 0;
  agent_forwards_rejected = 0;
  sftp_sessions = 0;
  sftp_bytes_read = 0;
  sftp_bytes_written = 0;
  scp_bytes_read = 0;
  scp_bytes_written = 0;
  scp_sessions = 0;
}

-- A session without channels.
abbrev pub new_session : Session
new_session = record {
  channels = [];
  uniq_channel_id = 0;
  no_more_sessions = false;
  logging_mask = 0;
  send_shell_env = false;
  send_shell_env_channel = no_channel;
  global_req_remote_port_listen_port_0 = false;
  num_remote_tcp_requests_pending = 0;
  paa_target_replay_phase = false;
  global_req_state = idle;
  client_closed = false;
  target_closed = false;
  interactive = false;
  report = no_report;
  sent = [];
}

-- A channel that the client opened as 7 and the target confirmed as 9.
abbrev pub open_channel : Channel
open_channel = record fresh_channel {
  ctype = some "session";
  requestor_ch = 7;
  provider_ch = 9;
  state = 91;
}

abbrev pub one_channel : Session
one_channel = record new_session { channels = none ∷ some open_channel ∷ []; uniq_channel_id = 1 }

abbrev pub reply_of : Result Reply → Reply
reply_of (done r) = r
reply_of (stop e) = record { forward = false; buffer = []; session = new_session }

-- OPEN of a session numbered 7, with a window and a packet size.
abbrev pub open_session : Bytes
open_session = 0 ∷ 0 ∷ 0 ∷ 0 ∷ 7 ∷ 0 ∷ 0 ∷ 1 ∷ 0 ∷ 0 ∷ 0 ∷ 1 ∷ 0 ∷ []

-- NO MORE SESSIONS, without a wish for a reply.
abbrev pub no_more : Bytes
no_more = 1 ∷ 0 ∷ []

-- A REQUEST for an X11 display on channel 9, with a wish for a reply.
abbrev pub want_x11 : Bytes
want_x11 = 0 ∷ 0 ∷ 0 ∷ 9 ∷ 6 ∷ 1 ∷ []

-- CLOSE of channel 9.
abbrev pub close_9 : Bytes
close_9 = 0 ∷ 0 ∷ 0 ∷ 9 ∷ []
