-- ===== src/Inspect/ChannelRequest.antt =====
-- `susshi_inspect_channel_request` and `susshi_channel_set_logging` of
-- src/susshid/inspect-channel.c.
pub mod Goes
pub mod Policy
pub mod Outcome
mod Tests
use susshi.Prelude.{
  ℕ, ◌+◌, ◌-◌, ◌^◌, String, Bool, true, false, not, ◌&&◌, ◌||◌, Option, none, some, is_empty,
  has_flag, ltb, ◌==◌, str_eq, starts_with, if◌then◌else◌,
}
use susshi.Result.{Result, done, stop, fatal, need, ◌>>=◌}
use susshi.Session.{
  Side, ChannelResponse, ok, reject, ChannelLogging, nolog, sess, text, exec, exec_text, sftp, scp,
  tcpip, x11, agent, socket_fwd, Log, Channel, Session, channel_failure,
}
use susshi.Acl.{AclState, allow, deny, acl_bool}
use susshi.Gateway.{Bytes, Gateway, TermSize}
use susshi.Channels.Table.{channel_at, update_channel}
use susshi.Inspect.Reply.{Reply, reply, session_of, transmit, tally, rewrite_if_proxied}
use susshi.Inspect.Data.{by_peer_first, trail_target, trail_client}
use susshi.Inspect.Exec.{Answer, answer, request_exec, request_subsystem}

-- The locals after the chain of tests: what the helpers for `exec` and `subsystem` answer too,
-- with the size and the name of the terminal where the request has them.
pub record Asked : Type 0 where
  pub answered : Answer
  pub size : Option TermSize
  pub term : Option String

abbrev pub asked : Answer → Asked
asked a = record { answered = a; size = none; term = none }

abbrev log_named : String → Log → Log
log_named filetype l = record l { filetype = some filetype }

module _ (g : Gateway) where
  abbrev encrypting : Bool
  encrypting = ltb 0 g.cfg.num_session_log_encryption_keys

  abbrev protocol_log : String → Channel → Channel
  protocol_log filetype c = record c { log_protocol = log_named filetype c.log_protocol }

  abbrev encrypted_log : String → Channel → Channel
  encrypted_log filetype c = record c {
    log_protocol = record c.log_protocol { filetype = some filetype; enc_requested = encrypting };
  }

  abbrev terminal_logs : Channel → Channel
  terminal_logs c = record c {
    log_target_output = log_named "session" c.log_target_output;
    log_client_input = log_named "client" c.log_client_input;
    log_timing = log_named "time" c.log_timing;
  }

  -- The timing file starts with the size, if the client's or the target's trail is logged.
  abbrev log_start : ℕ → Option TermSize → Session → Result Session
  log_start cid size s =
      if has_flag s.logging_mask (trail_client + trail_target)
      then g.inspect.log_timing cid size s
      else done s

  abbrev set_terminal_logging : ℕ → Option TermSize → Session → Result Session
  set_terminal_logging cid size s = do
    s1 ← update_channel cid terminal_logs s
    log_start cid size s1

  pub channel_set_logging : ℕ → ChannelLogging → Option TermSize → Session → Result Session
  channel_set_logging cid agent size s = update_channel cid (protocol_log "agent") s
  channel_set_logging cid text size s = set_terminal_logging cid size s
  channel_set_logging cid exec_text size s = set_terminal_logging cid size s
  channel_set_logging cid scp size s = update_channel cid (encrypted_log "scp") s
  channel_set_logging cid sftp size s = update_channel cid (encrypted_log "sftp") s
  channel_set_logging cid x11 size s = update_channel cid (protocol_log "x11.pcap") s
  channel_set_logging cid _ size s = update_channel cid (protocol_log "unknown") s

  abbrev request_shell : AclState → ChannelLogging → Session → Answer
  request_shell allow logtype s = answer ok text (
      tally (λ r. record r { interactive_sessions_accepted = r.interactive_sessions_accepted + 1 })
        (record s { interactive = true }))
  request_shell deny logtype s = answer reject logtype (
      tally (λ r. record r { interactive_sessions_rejected = r.interactive_sessions_rejected + 1 })
        s)

  abbrev request_x11 : AclState → ChannelLogging → Session → Answer
  request_x11 allow logtype s =
      answer ok x11
        (tally (λ r. record r { x11_sessions_accepted = r.x11_sessions_accepted + 1 }) s)
  request_x11 deny logtype s =
      answer reject logtype
        (tally (λ r. record r { x11_sessions_rejected = r.x11_sessions_rejected + 1 }) s)

  abbrev request_agent : AclState → ChannelLogging → Session → Answer
  request_agent allow logtype s =
      answer ok agent
        (tally (λ r. record r { agent_forwards_accepted = r.agent_forwards_accepted + 1 }) s)
  request_agent deny logtype s =
      answer reject logtype
        (tally (λ r. record r { agent_forwards_rejected = r.agent_forwards_rejected + 1 }) s)

  pub ask_exec : ℕ → ChannelLogging → Bytes → Session → Result Asked
  ask_exec cid logtype rest s = do
    (datastr, r) ← need (g.wire.get_string rest)
    a ← request_exec g cid logtype (g.library.command datastr) s
    done (asked a)

  pub ask_subsystem : ChannelLogging → Bytes → Session → Result Asked
  ask_subsystem logtype rest s = do
    (datastr, r) ← need (g.wire.get_string rest)
    a ← request_subsystem g logtype (g.library.command datastr) s
    done (asked a)

  pub ask_exit_status : ChannelLogging → Bytes → Session → Result Asked
  ask_exit_status logtype rest s = do
    (exit_status, r) ← need (g.wire.get_u32 rest)
    done (asked (answer ok logtype s))

  pub ask_exit_signal : ChannelLogging → Bytes → Session → Result Asked
  ask_exit_signal logtype rest s = do
    (sig_name, r1) ← need (g.wire.get_cstring rest)
    (core_dumped, r2) ← need (g.wire.get_u8 r1)
    (err_msg, r3) ← need (g.wire.get_cstring r2)
    done (asked (answer ok logtype s))

  abbrev read_size : Option String → ChannelLogging → Bytes → Session → Result Asked
  read_size term logtype rest s = do
    (tx, r1) ← need (g.wire.get_u32 rest)
    (ty, r2) ← need (g.wire.get_u32 r1)
    (txp, r3) ← need (g.wire.get_u32 r2)
    (typ, r4) ← need (g.wire.get_u32 r3)
    done (record {
      answered = answer ok logtype s;
      size = some (record { tx = tx; ty = ty; txp = txp; typ = typ; terminal = none });
      term = term;
    })

  pub ask_pty : Bytes → Session → Result Asked
  ask_pty rest s = do (term, r) ← need (g.wire.get_cstring rest); read_size (some term) text r s

  pub ask_env : ChannelLogging → Bytes → Session → Result Asked
  ask_env logtype rest s = do
    (envname, r1) ← need (g.wire.get_cstring rest)
    (envvalue, r2) ← need (g.wire.get_cstring r1)
    done (asked (answer ok logtype s))

  pub ask : ℕ → String → ChannelLogging → Bytes → Session → Result Asked
  unfolding ask_exec ask_subsystem ask_exit_status ask_exit_signal ask_pty ask_env
  ask cid rname logtype rest s =
      if str_eq rname "shell"
      then done (asked (request_shell (acl_bool g.acl "SSHInteractive" true) logtype s))
      else if str_eq rname "exec"
      then ask_exec cid logtype rest s
      else if str_eq rname "subsystem"
      then ask_subsystem logtype rest s
      else if str_eq rname "x11-req"
      then done (asked (request_x11 (acl_bool g.acl "SSHX11Forward" true) logtype s))
      else if starts_with rname "auth-agent-req"
      then done (asked (request_agent (acl_bool g.acl "SSHAgentForward" true) logtype s))
      else if str_eq rname "exit-status"
      then ask_exit_status logtype rest s
      else if str_eq rname "exit-signal"
      then ask_exit_signal logtype rest s
      else if str_eq rname "pty-req"
      then ask_pty rest s
      else if str_eq rname "window-change"
      then read_size none logtype rest s
      else if str_eq rname "env"
      then ask_env logtype rest s
      else if str_eq rname "keepalive@openssh.com" || str_eq rname "keep-alive@bitvise.com"
      then done (asked (answer ok logtype s))
      else if str_eq rname "winadj@putty.projects.tartarus.org"
      then done (asked (answer ok logtype s))
      else if str_eq rname "signal" || str_eq rname "xon-xoff" || str_eq rname "eow@openssh.com"
      then done (asked (answer ok logtype s))
      else done (asked (answer reject nolog s))

  -- The size is passed on only if it was read and the client's trail is logged; a width of
  -- `UINT32_MAX` counts as none. The terminal's name is appended to it.
  abbrev header : Option TermSize → Option String → ℕ → Option TermSize
  header none term mask = none
  header (some size) term mask =
      if not (size.tx == 2 ^ 32 - 1) && has_flag mask trail_client
      then some (record size { terminal = term })
      else none

  pub request_accepted : ℕ → Side → Bytes → Asked → Result Reply
  unfolding channel_set_logging
  request_accepted cid sender buffer a = do
    s1 ← update_channel cid (λ c. record c { logging = a.answered.logtype }) a.answered.session
    s2 ← channel_set_logging cid a.answered.logtype (header a.size a.term s1.logging_mask) s1
    c ← channel_at cid s2
    buffer' ← rewrite_if_proxied sender buffer c
    reply true buffer' s2

  abbrev failure_if : Bool → Side → ℕ → Session → Result Session
  failure_if wanted sender ch s =
      if wanted then transmit g (channel_failure (session_of sender) ch) s else done s

  -- A failure goes out only if a reply is wanted. It always carries `requestor_ch`.
  pub request_refused : ℕ → Side → Bool → Bytes → Session → Result Reply
  request_refused cid sender want_reply buffer s = do
    c ← channel_at cid s
    s1 ← failure_if want_reply sender c.requestor_ch (record s { send_shell_env = false })
    reply false buffer s1

  pub conclude_request : ChannelResponse → ℕ → Side → Bool → Bytes → Asked → Result Reply
  unfolding request_accepted request_refused
  conclude_request ok cid sender want_reply buffer a = request_accepted cid sender buffer a
  conclude_request _ cid sender want_reply buffer a =
      request_refused cid sender want_reply buffer a.answered.session

  -- The first request on a channel ends the phase in which replies are held back.
  abbrev end_replay : Session → Session
  end_replay s = record s { paa_target_replay_phase = false }

  pub on_request : Option ℕ → Side → String → ℕ → Bytes → Bytes → Session → Result Reply
  on_request none sender rname want_reply rest buffer s = stop fatal
  on_request (some cid) sender rname want_reply rest buffer s = do
    c ← channel_at cid s
    a ← ask cid rname c.logging rest (end_replay s)
    conclude_request a.answered.response cid sender (want_reply == 1) buffer a

  pub channel_request : Side → Bytes → Session → Result Reply
  unfolding on_request
  channel_request sender buffer s = if is_empty buffer then reply false buffer s else do
    (recipient_channel, r1) ← need (g.wire.get_u32 buffer)
    (rname, r2) ← need (g.wire.get_cstring r1)
    (want_reply, r3) ← need (g.wire.get_u8 r2)
    on_request (by_peer_first g sender recipient_channel s) sender rname want_reply r3 buffer s
