-- ===== src/Inspect/Open.antt =====
-- `susshi_inspect_channel_open` of src/susshid/inspect-channel.c.
pub mod Policy
pub mod Outcome
pub mod Goes
mod Tests
use susshi.Prelude.{
  ℕ, ◌+◌, ◌*◌, ◌-◌, ◌^◌, String, Bool, true, false, not, ◌&&◌, Option, none, some, is_empty, ltb,
  ◌==◌, str_eq, starts_with, if◌then◌else◌,
}
use susshi.Result.{Result, done, stop, crash, need, ◌>>=◌}
use susshi.Session.{
  Side, client, is_client, ChannelResponse, ok, fail, reject, unknown, ChannelLogging, nolog, sess,
  tcpip, x11, agent, socket_fwd, Log, Channel, Session, open_failure, no_channel,
}
use susshi.Acl.{AclState, allow, deny, acl_socket, acl_bool}
use susshi.Gateway.{Bytes, Gateway}
use susshi.Channels.Table.{fresh_channel, alloc_new_channel, update_channel}
use susshi.Inspect.Reply.{Reply, reply, session_of, transmit, tally}

-- The locals of the handler after the chain of tests on the channel's type. `srcport` and
-- `dstport` are read only where they were written.
pub record Judged : Type 0 where
  pub resp : ChannelResponse
  pub logtype : ChannelLogging
  pub crtxt : Option String
  pub srcport : ℕ
  pub dstport : ℕ
  pub session : Session

abbrev pub accept : ChannelLogging → Session → Judged
accept logtype s = record {
  resp = ok;
  logtype = logtype;
  crtxt = none;
  srcport = 0;
  dstport = 0;
  session = s;
}

abbrev pub refuse : ChannelResponse → Option String → Session → Judged
refuse resp crtxt s = record {
  resp = resp;
  logtype = nolog;
  crtxt = crtxt;
  srcport = 0;
  dstport = 0;
  session = s;
}

abbrev pub local_accepted : Session → Session
local_accepted s =
    tally (λ r. record r { local_forwards_accepted = r.local_forwards_accepted + 1 }) s

abbrev pub local_rejected : Session → Session
local_rejected s =
    tally (λ r. record r { local_forwards_rejected = r.local_forwards_rejected + 1 }) s

abbrev direct_tcpip : AclState → ℕ → ℕ → Session → Judged
direct_tcpip allow srcport dstport s = record (accept tcpip (local_accepted s)) {
  srcport = srcport;
  dstport = dstport;
}
direct_tcpip deny srcport dstport s =
    refuse reject (some "Port forwarding denied by ACL.") (local_rejected s)

abbrev forwarded_tcpip : AclState → ℕ → ℕ → Session → Judged
forwarded_tcpip allow srcport dstport s = record (accept tcpip s) {
  srcport = srcport;
  dstport = dstport;
}
forwarded_tcpip deny srcport dstport s =
    refuse reject (some "Remote port forwarding denied by ACL.") s

-- No text is set for a refused agent channel.
abbrev auth_agent : AclState → Session → Judged
auth_agent allow s =
    accept agent
      (tally (λ r. record r { agent_forwards_accepted = r.agent_forwards_accepted + 1 }) s)
auth_agent deny s =
    refuse reject none
      (tally (λ r. record r { agent_forwards_rejected = r.agent_forwards_rejected + 1 }) s)

abbrev streamlocal : AclState → String → Session → Judged
streamlocal allow crtxt s = accept socket_fwd (local_accepted s)
streamlocal deny crtxt s = refuse reject (some crtxt) (local_rejected s)

module _ (g : Gateway) where
  -- A session channel from the client. The environment is prepared even if it is refused.
  abbrev prepare_env : Session → Session
  prepare_env s =
      if g.cfg.send_shell_env
      then record s { send_shell_env = true; send_shell_env_channel = no_channel }
      else s

  pub judge_session : Side → Session → Judged
  judge_session sender s =
      if is_client sender
      then (if s.no_more_sessions
          then refuse reject (some "I can break rules, too. No more sessions allowed.")
              (prepare_env s)
          else accept sess (prepare_env s))
      else refuse reject (some "Target requested 'session' - looks like a corrupt server.") s

  pub judge_tcpip : (AclState → ℕ → ℕ → Session → Judged) → String → Bytes → Session → Result Judged
  judge_tcpip judge key rest s = do
    (dstaddr, r1) ← need (g.wire.get_cstring rest)
    (dstport, r2) ← need (g.wire.get_u32 r1)
    (srcaddr, r3) ← need (g.wire.get_cstring r2)
    (srcport, r4) ← need (g.wire.get_u32 r3)
    st ← acl_socket g.acl key dstaddr dstport
    done (judge st srcport dstport s)

  pub judge_x11 : Bytes → Session → Result Judged
  judge_x11 rest s = do
    (srcaddr, r1) ← need (g.wire.get_cstring rest)
    (srcport, r2) ← need (g.wire.get_u32 r1)
    done (accept x11 s)

  pub judge_streamlocal : String → Bytes → Session → Result Judged
  judge_streamlocal crtxt rest s = do
    (spath, r1) ← need (g.wire.get_cstring rest)
    done (streamlocal (acl_bool g.acl "SSHSocketForward" true) crtxt s)

  pub judge_open : Side → String → Bytes → Session → Result Judged
  unfolding judge_session judge_tcpip judge_x11 judge_streamlocal
  judge_open sender ctype rest s =
      if str_eq ctype "session"
      then done (judge_session sender s)
      else if str_eq ctype "direct-tcpip"
      then judge_tcpip direct_tcpip "SSHLocalForwards" rest s
      else if str_eq ctype "forwarded-tcpip"
      then judge_tcpip forwarded_tcpip "SSHRemoteForwards" rest s
      else if str_eq ctype "x11"
      then judge_x11 rest s
      else if str_eq ctype "tun@openssh.com"
      then done (
          refuse reject (some "Hey dude, using a tunnel interface will break the rules.") (
            tally (λ r. record r { tunnel_interfaces_rejected = r.tunnel_interfaces_rejected + 1 })
              s))
      else if starts_with ctype "auth-agent"
      then done (auth_agent (acl_bool g.acl "SSHAgentForward" true) s)
      else if str_eq ctype "direct-streamlocal@openssh.com"
      then judge_streamlocal "Local Unix domain socket forwarding denied by ACL." rest s
      else if str_eq ctype "forwarded-streamlocal@openssh.com"
      then judge_streamlocal "Remote Unix domain socket forwarding denied by ACL." rest s
      else done (refuse unknown (some "Unknown channel type.") s)

  abbrev encrypting : Bool
  encrypting = ltb 0 g.cfg.num_session_log_encryption_keys

  abbrev open_log : Session → Log → Log
  open_log s l = record l { ucid = s.uniq_channel_id; enc_requested = encrypting }

  abbrev client_addr : ℕ
  client_addr = 127 * 2 ^ 24 + 2 ^ 16 + 2 ^ 8 + 1

  abbrev target_addr : ℕ
  target_addr = 127 * 2 ^ 24 + 2 * 2 ^ 16 + 2 * 2 ^ 8 + 2

  abbrev forward_log : String → ℕ → ℕ → Channel → Channel
  forward_log filetype client_port target_port c = record c {
    log_protocol = record c.log_protocol { filetype = some filetype; enc_requested = encrypting };
    client_forward_in_addr = client_addr;
    client_forward_port = client_port;
    target_forward_in_addr = target_addr;
    target_forward_port = target_port;
  }

  abbrev by_logtype : ChannelLogging → ℕ → ℕ → Channel → Channel
  by_logtype tcpip srcport dstport c = forward_log "portfwd.pcap" srcport dstport c
  by_logtype x11 srcport dstport c = forward_log "x11.pcap" no_channel 6000 c
  by_logtype socket_fwd srcport dstport c = forward_log "socket.pcap" no_channel no_channel c
  by_logtype _ srcport dstport c = c

  -- The channel that an accepted request puts into slot `cid`; 90 is `SSH2_MSG_CHANNEL_OPEN`.
  pub opened : Side → String → ℕ → ℕ → Judged → Channel → Channel
  opened sender ctype sender_ch cid j c = by_logtype j.logtype j.srcport j.dstport (record c {
    cid = cid;
    requestor = sender;
    ctype = some ctype;
    requestor_ch = sender_ch;
    provider_ch = no_channel;
    logging = j.logtype;
    state = 90;
    proxied_channel = false;
    log_target_output = open_log j.session c.log_target_output;
    log_client_input = open_log j.session c.log_client_input;
    log_timing = open_log j.session c.log_timing;
    log_protocol = record c.log_protocol { ucid = j.session.uniq_channel_id };
  })

  -- A `long` that counts up; past its maximum the sum is undefined.
  abbrev pub next_id : ℕ → Result ℕ
  next_id n = if ltb n (2 ^ 63 - 1) then done (n + 1) else stop crash

  pub open_accepted : Side → String → ℕ → Bytes → Judged → Result Reply
  unfolding opened
  open_accepted sender ctype sender_ch buffer j = do
    (cid, s1) ← alloc_new_channel j.session
    s2 ← update_channel cid (opened sender ctype sender_ch cid j) s1
    id ← next_id s2.uniq_channel_id
    reply true buffer (
        tally (λ r. record r { channels_opened = r.channels_opened + 1 })
          (record s2 { uniq_channel_id = id }))

  -- `SSH2_OPEN_UNKNOWN_CHANNEL_TYPE` is 3 and `SSH2_OPEN_ADMINISTRATIVELY_PROHIBITED` 1.
  abbrev pub reason_code : ChannelResponse → ℕ
  reason_code unknown = 3
  reason_code _ = 1

  -- The format `s` of `ssh_buffer_pack` reads the text, which must not be NULL.
  abbrev pub packed_text : Option String → Result String
  packed_text none = stop crash
  packed_text (some crtxt) = done crtxt

  pub open_refused : Side → ℕ → Bytes → Judged → Result Reply
  open_refused sender sender_ch buffer j = do
    crtxt ← packed_text j.crtxt
    s1 ←
        transmit g (open_failure (session_of sender) sender_ch (reason_code j.resp) crtxt) j.session
    reply false buffer (tally (λ r. record r { channels_rejected = r.channels_rejected + 1 }) s1)

  pub conclude_open : Side → String → ℕ → Bytes → Judged → ChannelResponse → Result Reply
  unfolding open_accepted open_refused
  conclude_open sender ctype sender_ch buffer j ok = open_accepted sender ctype sender_ch buffer j
  conclude_open sender ctype sender_ch buffer j _ = open_refused sender sender_ch buffer j

  pub channel_open : Side → Bytes → Session → Result Reply
  channel_open sender buffer s = if is_empty buffer then reply false buffer s else do
    (ctype, r1) ← need (g.wire.get_cstring buffer)
    (sender_ch, r2) ← need (g.wire.get_u32 r1)
    (max_window, r3) ← need (g.wire.get_u32 r2)
    (max_packet, r4) ← need (g.wire.get_u32 r3)
    j ← judge_open sender ctype r4 s
    conclude_open sender ctype sender_ch buffer j j.resp
