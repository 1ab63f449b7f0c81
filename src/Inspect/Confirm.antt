-- ===== src/Inspect/Confirm.antt =====
-- `susshi_send_shell_env`, `susshi_inspect_channel_open_confirm` and
-- `susshi_inspect_channel_open_failure` of src/susshid/inspect-channel.c.
pub mod Goes
use susshi.Prelude.{
  ℕ, ◌+◌, ◌-◌, ◌^◌, String, Bool, true, false, Option, none, some, is_empty, ltb, if◌then◌else◌,
}
use susshi.Result.{Result, done, stop, crash, need, ◌>>=◌}
use susshi.Session.{
  Side, the_other_side, Channel, Session, EnvValue, plain, connection, seconds, env_request,
  accepted, denied, no_channel,
}
use susshi.Gateway.{Bytes, Gateway}
use susshi.Channels.Table.{find_channel, channel_at, update_channel, free_channel}
use susshi.Inspect.Reply.{Reply, reply, transmit, tally, rewrite_if_proxied}

module _ (g : Gateway) where
  abbrev send_env : String → EnvValue → Session → Result Session
  send_env name value s = transmit g (env_request s.send_shell_env_channel name value) s

  -- The two limits are sent only if they are set.
  abbrev send_limit : ℕ → String → ℕ → Session → Result Session
  send_limit limit name value s =
      if ltb limit (2 ^ 32 - 1) then send_env name (seconds value) s else done s

  unfoldable pub send_shell_env : Session → Result Session
  send_shell_env s =
      if s.send_shell_env
      then (do
        s1 ← send_env "SUSSHI_USER" (plain g.cfg.susshi_user) s
        s2 ←
            send_env "SUSSHI_SSH_CONNECTION"
              (connection g.cfg.client_ip g.cfg.client_port g.cfg.target_ip g.cfg.target_port) s1
        s3 ← send_env "SUSSHI_SESSION_ID" (plain g.cfg.susshi_uniqid) s2
        s4 ←
            send_limit g.cfg.max_session_secs "SUSSHI_MAX_SESSION"
              (g.cfg.now + g.cfg.max_session_secs) s3
        s5 ← send_limit g.cfg.max_session_idle_secs "SUSSHI_MAX_IDLE" g.cfg.max_session_idle_secs s4
        done (record s5 { send_shell_env = false; send_shell_env_channel = no_channel }))
      else done s

  -- 91 is `SSH2_MSG_CHANNEL_OPEN_CONFIRMATION`.
  abbrev pub confirmed : ℕ → Channel → Channel
  confirmed provider_ch c = record c {
    provider_ch = provider_ch;
    state = 91;
    requestor_send = 0;
    provider_send = 0;
  }

  -- On a proxied channel the second rewrite is given `buffer + 4`, which steps over four buffer
  -- structures and not over four bytes: what it writes to is undefined.
  abbrev rewrite_confirmation : Channel → Result (Unit {0})
  rewrite_confirmation c = if c.proxied_channel then stop crash else done tt

  abbrev env_on : ℕ → Session → Result Session
  env_on provider_ch s =
      if s.send_shell_env
      then send_shell_env (record s { send_shell_env_channel = provider_ch })
      else done s

  pub confirm : Option ℕ → Bytes → Bytes → Session → Result Reply
  confirm none rest buffer s = reply false buffer (record s { global_req_state = accepted })
  confirm (some cid) rest buffer s = do
    c ← channel_at cid s
    (provider_ch, r1) ← need (g.wire.get_u32 rest)
    (init_win, r2) ← need (g.wire.get_u32 r1)
    (max_win, r3) ← need (g.wire.get_u32 r2)
    s1 ← update_channel cid (confirmed provider_ch) s
    _ ← rewrite_confirmation c
    s2 ← env_on provider_ch s1
    reply true buffer (record s2 { global_req_state = accepted })

  pub channel_open_confirm : Side → Bytes → Session → Result Reply
  unfolding confirm
  channel_open_confirm sender buffer s = if is_empty buffer then reply false buffer s else do
    (recipient_channel, rest) ← need (g.wire.get_u32 buffer)
    confirm (find_channel (the_other_side sender) recipient_channel no_channel s) rest buffer s

  pub open_failed : Option ℕ → Side → Bytes → Session → Result Reply
  open_failed none sender buffer s = reply false buffer (record s { global_req_state = denied })
  open_failed (some cid) sender buffer s = do
    c ← channel_at cid s
    buffer' ← rewrite_if_proxied sender buffer c
    s1 ← free_channel cid (
        tally (λ r. record r { channels_failed = r.channels_failed + 1 })
          (record s { send_shell_env = false }))
    reply true buffer' (record s1 { global_req_state = denied })

  pub channel_open_failure : Side → Bytes → Session → Result Reply
  unfolding open_failed
  channel_open_failure sender buffer s = if is_empty buffer then reply false buffer s else do
    (recipient_channel, r1) ← need (g.wire.get_u32 buffer)
    (reasonc, r2) ← need (g.wire.get_u32 r1)
    (reasons, r3) ← need (g.wire.get_cstring r2)
    (langtag, r4) ← need (g.wire.get_cstring r3)
    open_failed (find_channel (the_other_side sender) recipient_channel no_channel s) sender buffer
        s
