-- ===== src/Session.antt =====
-- The state that packet inspection reads and writes: `SusshiChannel` of
-- include/susshid/inspect-channel.h, and the fields that it uses of `susshi_session`
-- (include/susshid/session.h) and `susshi_report` (include/susshid/report.h).
-- `channels_alloc` is the length of `channels`. File handles and file names are left out.
use susshi.Prelude.{ℕ, ◌^◌, ◌-◌, String, Bool, true, false, Option, List, ◌==◌}

-- `Side` of include/shared/misc.h, with the values of the enumeration.
pub data Side : Type 0 where
  client target gateway proxy both nodir : Side

unfoldable pub side_value : Side → ℕ
side_value client = 0
side_value target = 1
side_value gateway = 2
side_value proxy = 3
side_value both = 4
side_value nodir = 255

unfoldable pub same_side : Side → Side → Bool
unfolding side_value
same_side a b = side_value a == side_value b

abbrev pub is_client : Side → Bool
is_client client = true
is_client _ = false

abbrev pub is_target : Side → Bool
is_target target = true
is_target _ = false

unfoldable pub the_other_side : Side → Side
the_other_side client = target
the_other_side _ = client

pub data ChannelResponse : Type 0 where
  ok fail reject unknown : ChannelResponse

-- `nolog` is `NONE`.
pub data ChannelLogging : Type 0 where
  nolog sess text exec exec_text sftp scp tcpip x11 agent socket_fwd : ChannelLogging

pub data ChannelScpMode : Type 0 where
  scp_unknown scp_source scp_sink : ChannelScpMode

-- `global_req_state` of the session with the target.
pub data ReqState : Type 0 where
  idle pending accepted denied : ReqState

-- What is kept of `SusshiLog`.
pub record Log : Type 0 where
  pub filetype : Option String
  pub ucid : ℕ
  pub enc_requested : Bool
  pub filesize : ℕ

-- `(uint32_t) -1`
abbrev pub no_channel : ℕ
no_channel = 2 ^ 32 - 1

pub record Channel : Type 0 where
  pub cid : ℕ
  pub requestor : Side
  pub ctype : Option String
  pub requestor_ch : ℕ
  pub provider_ch : ℕ
  pub gateway_requestor_ch : ℕ
  pub gateway_provider_ch : ℕ
  pub state : ℕ
  pub requestor_send : ℕ
  pub provider_send : ℕ
  pub client_forward_in_addr : ℕ
  pub client_forward_port : ℕ
  pub target_forward_in_addr : ℕ
  pub target_forward_port : ℕ
  pub logging : ChannelLogging
  pub log_target_output : Log
  pub log_client_input : Log
  pub log_timing : Log
  pub log_protocol : Log
  pub scp_requestor_mode : ChannelScpMode
  pub scp_dir_name : Option String
  pub has_sftp_session : Bool
  pub proxied_channel : Bool

pub record Report : Type 0 where
  pub update_last_io_time : Bool
  pub client_in_bytes : ℕ
  pub client_out_bytes : ℕ
  pub target_in_bytes : ℕ
  pub target_out_bytes : ℕ
  pub channels_opened : ℕ
  pub channels_rejected : ℕ
  pub channels_failed : ℕ
  pub channels_closed : ℕ
  pub local_forwards_accepted : ℕ
  pub local_forwards_rejected : ℕ
  pub remote_forwards_accepted : ℕ
  pub remote_forwards_rejected : ℕ
  pub remote_forwards_canceled : ℕ
  pub tunnel_interfaces_rejected : ℕ
  pub interactive_sessions_accepted : ℕ
  pub interactive_sessions_rejected : ℕ
  pub command_execs_accepted : ℕ
  pub command_execs_rejected : ℕ
  pub unkown_subsystems_accepted : ℕ
  pub x11_sessions_accepted : ℕ
  pub x11_sessions_rejected : ℕ
  pub agent_forwards_accepted : ℕ
  pub agent_forwards_rejected : ℕ
  pub sftp_sessions : ℕ
  pub sftp_bytes_read : ℕ
  pub sftp_bytes_written : ℕ
  pub scp_sessions : ℕ
  pub scp_bytes_read : ℕ
  pub scp_bytes_written : ℕ

-- The value of an environment variable, before it is formatted as text. Times are in seconds.
pub data EnvValue : Type 0 where
  plain : String → EnvValue
  connection : String → ℕ → String → ℕ → EnvValue
  seconds : ℕ → EnvValue

-- The packets that inspection itself writes, with the side that they go to.
pub data Sent : Type 0 where
  request_failure : Side → Sent
  open_failure : Side → ℕ → ℕ → String → Sent
  channel_failure : Side → ℕ → Sent
  env_request : ℕ → String → EnvValue → Sent

-- `sent` holds the newest packet first.
pub record Session : Type 0 where
  pub channels : List (Option Channel)
  pub uniq_channel_id : ℕ
  pub no_more_sessions : Bool
  pub logging_mask : ℕ
  pub send_shell_env : Bool
  pub send_shell_env_channel : ℕ
  pub global_req_remote_port_listen_port_0 : Bool
  pub num_remote_tcp_requests_pending : ℕ
  pub paa_target_replay_phase : Bool
  pub global_req_state : ReqState
  pub client_closed : Bool
  pub target_closed : Bool
  pub interactive : Bool
  pub report : Report
  pub sent : List Sent
