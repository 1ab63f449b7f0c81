-- ===== src/Inspect/Data.antt =====
-- `susshi_inspect_channel_data` and `susshi_inspect_channel_close` of
-- src/susshid/inspect-channel.c, and `susshi_free_sftp_session` of src/susshid/inspect-sftp.c.
pub mod Goes
pub mod Named
pub mod Closing
mod Tests
use susshi.Prelude.{
  ℕ, ◌+◌, ◌%◌, ◌^◌, Bool, true, false, ◌&&◌, Option, none, some, is_empty, length, has_flag, ltb,
  ◌==◌, if◌then◌else◌,
}
use susshi.Result.{Result, done, stop, fatal, need, ◌>>=◌}
use susshi.Session.{
  Side, client, is_client, is_target, same_side, the_other_side, ChannelLogging, nolog, sess, text,
  exec, exec_text, sftp, scp, tcpip, x11, agent, socket_fwd, Channel, Session, no_channel,
}
use susshi.Gateway.{Bytes, Gateway}
use susshi.Channels.Table.{find_channel, channel_at, update_channel, free_channel}
use susshi.Inspect.Reply.{Reply, reply, tally, rewrite_if_proxied}

abbrev pub trail_target : ℕ
trail_target = 2

abbrev pub trail_client : ℕ
trail_client = 4

abbrev pub filetransfer : ℕ
filetransfer = 8

abbrev pub portforward : ℕ
portforward = 16

abbrev pub x11_flag : ℕ
x11_flag = 32

abbrev pub agent_flag : ℕ
agent_flag = 64

abbrev pub socket_flag : ℕ
socket_flag = 128

-- A lookup that is tried the other way round if it fails.
abbrev pub or_else : Option ℕ → Option ℕ → Option ℕ
or_else none other = other
or_else (some i) other = some i

abbrev is_sftp : ChannelLogging → Bool
is_sftp sftp = true
is_sftp _ = false

module _ (g : Gateway) where
  abbrev kept : Result Session → Result (Bool × Session)
  kept m = do s ← m; done (true, s)

  abbrev logged : Bool → Result Session → Session → Result (Bool × Session)
  logged wanted action s = if wanted then kept action else done (true, s)

  inspect_sftp : ℕ → Side → Bytes → Channel → Session → Result Session
  inspect_sftp cid sender rest c s =
      if c.has_sftp_session
      then g.inspect.sftp_packet cid sender rest s
      else if is_client sender
      then g.inspect.new_sftp_session cid rest s
      else stop fatal

  abbrev log_target : ℕ → Side → Bytes → Session → Result Session
  log_target cid sender bytes s =
      if is_target sender && has_flag s.logging_mask trail_target
      then g.inspect.log_target_output cid bytes s
      else done s

  abbrev log_client : ℕ → Side → Bytes → Session → Result Session
  log_client cid sender bytes s =
      if is_client sender && has_flag s.logging_mask trail_client
      then g.inspect.log_client_input cid bytes s
      else done s

  inspect_text : ℕ → Side → Bytes → Session → Result Session
  inspect_text cid sender rest s = do
    (bytes, r) ← need (g.wire.get_string rest)
    s1 ← log_target cid sender bytes s
    log_client cid sender bytes s1

  -- Logging of a command stops at the size limit. A packet has one sender, so one of the two parts
  -- is idle.
  inspect_exec_text : ℕ → Side → Bytes → Channel → Session → Result Session
  inspect_exec_text cid sender rest c s =
      if is_target sender
        && has_flag s.logging_mask trail_target
        && ltb c.log_target_output.filesize g.cfg.logfile_exec_max_size
      then (do (bytes, r) ← need (g.wire.get_string rest); g.inspect.log_target_output cid bytes s)
      else if is_client sender
          && has_flag s.logging_mask trail_client
          && ltb c.log_client_input.filesize g.cfg.logfile_exec_max_size
      then (do (bytes, r) ← need (g.wire.get_string rest); g.inspect.log_client_input cid bytes s)
      else done s

  -- The switch on the kind of logging. The default case only dumps the packet for debugging.
  pub inspect_data : ChannelLogging → ℕ → Side → Bytes → Channel → Session → Result (Bool × Session)
  unfolding inspect_sftp inspect_text inspect_exec_text
  inspect_data scp cid sender rest c s =
      logged (has_flag s.logging_mask filetransfer) (g.inspect.scp_data cid sender rest s) s
  inspect_data sftp cid sender rest c s =
      logged (has_flag s.logging_mask filetransfer) (inspect_sftp cid sender rest c s) s
  inspect_data text cid sender rest c s = kept (inspect_text cid sender rest s)
  inspect_data exec_text cid sender rest c s = kept (inspect_exec_text cid sender rest c s)
  inspect_data exec cid sender rest c s = done (true, s)
  inspect_data tcpip cid sender rest c s =
      if has_flag s.logging_mask portforward
      then g.inspect.pfwd_data cid sender rest s
      else done (true, s)
  inspect_data x11 cid sender rest c s =
      logged (has_flag s.logging_mask x11_flag) (g.inspect.x11_data cid sender rest s) s
  inspect_data agent cid sender rest c s =
      logged (has_flag s.logging_mask agent_flag) (g.inspect.agent_data cid sender rest s) s
  inspect_data socket_fwd cid sender rest c s =
      logged (has_flag s.logging_mask socket_flag) (g.inspect.socketfwd_data cid sender rest s) s
  inspect_data nolog cid sender rest c s = done (true, s)
  inspect_data sess cid sender rest c s = done (true, s)

  -- The counters are `unsigned long`, and `len` is that of the whole packet.
  abbrev pub counted : Side → ℕ → Channel → Channel
  counted sender len c =
      if same_side sender c.requestor
      then record c { requestor_send = (c.requestor_send + len) % 2 ^ 64 }
      else record c { provider_send = (c.provider_send + len) % 2 ^ 64 }

  pub on_data : Option ℕ → Side → Bytes → Bytes → Session → Result Reply
  on_data none sender rest buffer s = reply false buffer s
  on_data (some cid) sender rest buffer s = do
    c ← channel_at cid s
    (copy, s1) ← inspect_data c.logging cid sender rest c s
    s2 ← update_channel cid (counted sender (length buffer)) s1
    c2 ← channel_at cid s2
    buffer' ← rewrite_if_proxied sender buffer c2
    reply copy buffer' s2

  abbrev pub by_peer_first : Side → ℕ → Session → Option ℕ
  by_peer_first sender recipient_channel s =
      or_else (find_channel sender no_channel recipient_channel s)
        (find_channel (the_other_side sender) recipient_channel no_channel s)

  abbrev pub by_opener_first : Side → ℕ → Session → Option ℕ
  by_opener_first sender recipient_channel s =
      or_else (find_channel (the_other_side sender) recipient_channel no_channel s)
        (find_channel sender no_channel recipient_channel s)

  -- 95 is `SSH2_MSG_CHANNEL_EXTENDED_DATA`, which has one number more.
  abbrev skip_exttype : ℕ → Bytes → Result Bytes
  skip_exttype type rest =
      if type == 95 then (do (exttype, r) ← need (g.wire.get_u32 rest); done r) else done rest

  pub channel_data : Side → ℕ → Bytes → Session → Result Reply
  unfolding on_data
  channel_data sender type buffer s = if is_empty buffer then reply false buffer s else do
    (recipient_channel, r1) ← need (g.wire.get_u32 buffer)
    r2 ← skip_exttype type r1
    on_data (by_peer_first sender recipient_channel s) sender r2 buffer s

  -- `susshi_free_sftp_session` puts a new, zeroed session in place and frees nothing.
  unfoldable pub free_sftp_session : ℕ → Session → Result Session
  free_sftp_session cid s = update_channel cid (λ c. record c { has_sftp_session = true }) s

  -- 97 is `SSH2_MSG_CHANNEL_CLOSE`.
  abbrev finish_close : ℕ → Channel → Session → Result Session
  finish_close cid c s =
      if c.state == 97
      then (do
        s1 ← free_channel cid s
        done (tally (λ r. record r { channels_closed = r.channels_closed + 1 }) s1))
      else update_channel cid (λ d. record d { state = 97 }) s

  pub on_close : Option ℕ → Side → Bytes → Session → Result Reply
  on_close none sender buffer s = reply true buffer s
  on_close (some cid) sender buffer s = do
    c ← channel_at cid s
    s1 ← if is_sftp c.logging then free_sftp_session cid s else done s
    buffer' ← rewrite_if_proxied sender buffer c
    s2 ← finish_close cid c s1
    reply true buffer' s2

  pub channel_close : Side → Bytes → Session → Result Reply
  unfolding on_close
  channel_close sender buffer s = if is_empty buffer then reply false buffer s else do
    (recipient_channel, r1) ← need (g.wire.get_u32 buffer)
    on_close (by_opener_first sender recipient_channel s) sender buffer s
