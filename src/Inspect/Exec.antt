-- ===== src/Inspect/Exec.antt =====
-- `susshi_inspect_channel_request_exec` and `susshi_inspect_channel_request_subsystem` of
-- src/susshid/inspect-channel.c, and `is_valid_scp_filepath` of src/susshid/inspect-scp.c.
pub mod Goes
pub mod Policy
use susshi.Prelude.{
  ℕ, ◌+◌, String, Bool, true, false, ◌&&◌, ◌||◌, Option, none, some, any, ltb, str_eq,
  if◌then◌else◌,
}
use susshi.Result.{Result, done, stop, disconnected, ◌>>=◌}
use susshi.Session.{
  ChannelResponse, ok, fail, reject, ChannelLogging, text, exec, exec_text, scp, sftp,
  ChannelScpMode, scp_unknown, scp_source, scp_sink, Channel, Session,
}
use susshi.Acl.{AclState, allow, deny, found, acl_bool, acl_regex, acl_string}
use susshi.Gateway.{Gateway, ScpCommand}
use susshi.Channels.Table.{update_channel}
use susshi.Inspect.Reply.{tally}

-- The response, the kind of logging and the session that the helpers leave.
pub record Answer : Type 0 where
  pub response : ChannelResponse
  pub logtype : ChannelLogging
  pub session : Session

abbrev pub answer : ChannelResponse → ChannelLogging → Session → Answer
answer response logtype s = record { response = response; logtype = logtype; session = s }

abbrev exec_accepted : Session → Session
exec_accepted s = tally (λ r. record r { command_execs_accepted = r.command_execs_accepted + 1 }) s

abbrev exec_rejected : Session → Session
exec_rejected s = tally (λ r. record r { command_execs_rejected = r.command_execs_rejected + 1 }) s

abbrev pub is_allow : AclState → Bool
is_allow allow = true
is_allow deny = false

module _ (g : Gateway) where
  pub is_valid_scp_filepath : String → Bool
  is_valid_scp_filepath path = ltb 0 (g.library.length_of path) && g.library.filepath_pattern path

  -- `-f` is looked for first.
  pub scp_mode : String → ChannelScpMode
  scp_mode options =
      if g.library.option_in options "-f"
      then scp_sink
      else if g.library.option_in options "-t"
      then scp_source
      else scp_unknown

  abbrev set_scp_mode : ChannelScpMode → Channel → Channel
  set_scp_mode mode c = record c { scp_requestor_mode = mode }

  -- The second path has the last word.
  abbrev set_scp_dir : ScpCommand → Channel → Channel
  set_scp_dir cmd c = record c {
    scp_dir_name =
        if is_valid_scp_filepath cmd.path2
        then some (g.library.dirname cmd.path2)
        else if is_valid_scp_filepath cmd.path1
        then some cmd.path1
        else c.scp_dir_name;
  }

  scp_by_acl : AclState → ℕ → ScpCommand → Session → Result Answer
  unfolding is_valid_scp_filepath
  scp_by_acl allow cid cmd s = do
    s1 ← update_channel cid (set_scp_dir cmd) s
    done (answer ok scp (tally (λ r. record r { scp_sessions = r.scp_sessions + 1 }) s1))
  scp_by_acl deny cid cmd s = done (answer reject scp s)

  scp_by_mode : ChannelScpMode → ℕ → ScpCommand → Session → Result Answer
  unfolding scp_by_acl
  scp_by_mode scp_unknown cid cmd s = done (answer reject scp (exec_rejected s))
  scp_by_mode mode cid cmd s = scp_by_acl (acl_bool g.acl "SSHSecureCopy" true) cid cmd s

  -- A command that looks like `scp` with a path that is in order.
  pub exec_scp : ℕ → ScpCommand → Session → Result Answer
  unfolding scp_mode scp_by_mode
  exec_scp cid cmd s = do
    s1 ← update_channel cid (set_scp_mode (scp_mode cmd.options)) s
    scp_by_mode (scp_mode cmd.options) cid cmd s1

  -- Some stop pattern of the configuration matches the command.
  pub stops_logging : String → Bool
  stops_logging cmd = any (λ p. found (g.acl.search p cmd)) g.cfg.exec_log_stop_pattern

  -- After a request for a terminal the kind of logging is `text` already, and stays.
  abbrev pub exec_logtype : ChannelLogging → String → ChannelLogging
  exec_logtype text cmd = text
  exec_logtype _ cmd = if stops_logging cmd then exec else exec_text

  abbrev pub run_if : Bool → ChannelLogging → String → Session → Answer
  run_if b logtype cmd s =
      if b
      then answer ok (exec_logtype logtype cmd) (exec_accepted s)
      else answer reject logtype (exec_rejected s)

  -- `||` asks the second rule only if the first one denies.
  abbrev pub by_either : AclState → ChannelLogging → String → Session → Result Answer
  by_either allow logtype cmd s = done (run_if true logtype cmd s)
  by_either deny logtype cmd s = do
    st ← acl_regex g.acl "SSHCommandExecs" cmd
    done (run_if (is_allow st) logtype cmd s)

  pub exec_command : ChannelLogging → String → Session → Result Answer
  unfolding stops_logging
  exec_command logtype cmd s = by_either (acl_bool g.acl "SSHInteractive" true) logtype cmd s

  -- `if (*logtype != SCP)` after the test for `scp`: a channel that is logged as `scp` already is
  -- answered with the initial `FAIL`.
  abbrev not_scp : ChannelLogging → String → Session → Result Answer
  not_scp scp cmd s = done (answer fail scp s)
  not_scp logtype cmd s = exec_command logtype cmd s

  abbrev too_long : String → Bool
  too_long path = ltb 4096 (g.library.length_of path)

  exec_by_pattern : Option ScpCommand → ℕ → ChannelLogging → String → Session → Result Answer
  unfolding exec_scp exec_command is_valid_scp_filepath
  exec_by_pattern none cid logtype cmd s = not_scp logtype cmd s
  exec_by_pattern (some c) cid logtype cmd s =
      if too_long c.path1 || too_long c.path2
      then stop disconnected
      else if is_valid_scp_filepath c.path1 || is_valid_scp_filepath c.path2
      then exec_scp cid c s
      else not_scp logtype cmd s

  pub request_exec : ℕ → ChannelLogging → String → Session → Result Answer
  unfolding exec_by_pattern
  request_exec cid logtype cmd s = exec_by_pattern (g.library.scp_pattern cmd) cid logtype cmd s

  abbrev pub subsystem_if : Bool → ChannelLogging → Session → Answer
  subsystem_if b logtype s =
      if b
      then answer ok text (
          tally (λ r. record r { unkown_subsystems_accepted = r.unkown_subsystems_accepted + 1 }) s)
      else answer reject logtype s

  pub request_subsystem : ChannelLogging → String → Session → Result Answer
  request_subsystem logtype cmd s =
      if str_eq cmd "sftp"
      then done (
          if is_allow (acl_bool g.acl "SSHSecureFileTransfer" true)
          then answer ok sftp (tally (λ r. record r { sftp_sessions = r.sftp_sessions + 1 }) s)
          else answer reject logtype s)
      else (do
        st ← acl_string g.acl "SSHSessionSubsystems" cmd
        done (subsystem_if (is_allow st) logtype s))
