-- ===== src/Inspect/Data/Goes.antt =====
-- The relation `Follows` for channel data and for closing a channel.
use susshi.Prelude.{
  ℕ, refl, Bool, ◌&&◌, Option, none, some, is_empty, length, has_flag, ltb, ◌==◌, if◌then◌else◌,
}
use susshi.Result.{Result, done, fatal}
use susshi.Result.Ensures.{
  Ensures, Ensures-done, Ensures-stop, Ensures-if, Ensures-bind, Ensures-need, Ensures-weaken,
}
use susshi.Session.{
  Side, is_client, is_target, ChannelLogging, nolog, sess, text, exec, exec_text, sftp, scp, tcpip,
  x11, agent, socket_fwd, Channel, Session,
}
use susshi.Gateway.{Bytes, Gateway}
use susshi.Channels.Table.{channel_at, update_channel, free_channel}
use susshi.Inspect.Reply.{rewrite_if_proxied}
use susshi.Inspect.Data.{
  trail_target, trail_client, filetransfer, portforward, x11_flag, agent_flag, socket_flag, kept,
  logged, inspect_sftp, log_target, log_client, inspect_text, inspect_exec_text, inspect_data,
  counted, on_data, by_peer_first, by_opener_first, skip_exttype, channel_data, free_sftp_session,
  is_sftp, finish_close, on_close, channel_close,
}
use susshi.Inspect.Follows.{
  Follows, Follows-refl, Follows-trans, Goes, GoesOn, Lawful, quiet, IsQuiet-Follows, unchanged,
  update_channel-GoesOn, free_channel-GoesOn, then-Goes, then-GoesOn,
}

-- An inspection that also says whether to forward.
abbrev Inspects : Session → Result (Bool × Session) → Type 0
Inspects s m = Ensures (λ p. Follows s p.1) m

module _ (g : Gateway) (lawful : Lawful g.inspect) where
  kept-Inspects : {s : Session} (m : Result Session) → GoesOn s m → Inspects s (kept g m)
  kept-Inspects m go = Ensures-bind m _ λ u e. Ensures-done _ (go.at u e)

  logged-Inspects :
      (wanted : Bool) (m : Result Session) (s : Session)
      → GoesOn s m
      → Inspects s (logged g wanted m s)
  logged-Inspects wanted m s go =
      Ensures-if wanted _ _ (λ _. kept-Inspects m go) (λ _. Ensures-done _ (Follows-refl s))

  inspect_sftp-GoesOn :
      (cid : ℕ) (sender : Side) (rest : Bytes) (c : Channel) (s : Session)
      → GoesOn s (inspect_sftp g cid sender rest c s)
  unfolding inspect_sftp
  inspect_sftp-GoesOn cid sender rest c s =
      Ensures-if c.has_sftp_session _ _ (λ _. quiet (lawful.sftp cid sender rest s))
        (λ _.
          Ensures-if (is_client sender) _ _ (λ _. quiet (lawful.new_sftp cid rest s))
            (λ _. Ensures-stop fatal))

  log_target-GoesOn :
      (cid : ℕ) (sender : Side) (b : Bytes) (s : Session) → GoesOn s (log_target g cid sender b s)
  log_target-GoesOn cid sender b s =
      Ensures-if (is_target sender && has_flag s.logging_mask trail_target) _ _
        (λ _. quiet (lawful.target cid b s)) (λ _. Ensures-done s (Follows-refl s))

  log_client-GoesOn :
      (cid : ℕ) (sender : Side) (b : Bytes) (s : Session) → GoesOn s (log_client g cid sender b s)
  log_client-GoesOn cid sender b s =
      Ensures-if (is_client sender && has_flag s.logging_mask trail_client) _ _
        (λ _. quiet (lawful.client cid b s)) (λ _. Ensures-done s (Follows-refl s))

  inspect_text-GoesOn :
      (cid : ℕ) (sender : Side) (rest : Bytes) (s : Session)
      → GoesOn s (inspect_text g cid sender rest s)
  unfolding inspect_text
  inspect_text-GoesOn cid sender rest s = Ensures-need (g.wire.get_string rest) _ λ (b, r) e.
      Ensures-bind (log_target g cid sender b s) (log_client g cid sender b) λ u e1. record {
        at = λ t e2.
            Follows-trans ((log_target-GoesOn cid sender b s).at u e1)
              ((log_client-GoesOn cid sender b u).at t e2);
      }

  inspect_exec_text-GoesOn :
      (cid : ℕ) (sender : Side) (rest : Bytes) (c : Channel) (s : Session)
      → GoesOn s (inspect_exec_text g cid sender rest c s)
  unfolding inspect_exec_text
  inspect_exec_text-GoesOn cid sender rest c s =
      Ensures-if
        (is_target sender
          && has_flag s.logging_mask trail_target
          && ltb c.log_target_output.filesize g.cfg.logfile_exec_max_size)
        _ _ (λ _. Ensures-need (g.wire.get_string rest) _ λ (b, r) e. quiet (lawful.target cid b s))
        (λ _.
          Ensures-if
            (is_client sender
              && has_flag s.logging_mask trail_client
              && ltb c.log_client_input.filesize g.cfg.logfile_exec_max_size)
            _ _
            (λ _. Ensures-need (g.wire.get_string rest) _ λ (b, r) e. quiet (lawful.client cid b s))
            (λ _. Ensures-done s (Follows-refl s)))

  inspect_data-Inspects :
      (l : ChannelLogging) (cid : ℕ) (sender : Side) (rest : Bytes) (c : Channel) (s : Session)
      → Inspects s (inspect_data g l cid sender rest c s)
  unfolding inspect_data
  inspect_data-Inspects scp cid sender rest c s =
      logged-Inspects (has_flag s.logging_mask filetransfer) _ s
        (quiet (lawful.scp cid sender rest s))
  inspect_data-Inspects sftp cid sender rest c s =
      logged-Inspects (has_flag s.logging_mask filetransfer) _ s
        (inspect_sftp-GoesOn cid sender rest c s)
  inspect_data-Inspects text cid sender rest c s =
      kept-Inspects _ (inspect_text-GoesOn cid sender rest s)
  inspect_data-Inspects exec_text cid sender rest c s =
      kept-Inspects _ (inspect_exec_text-GoesOn cid sender rest c s)
  inspect_data-Inspects exec cid sender rest c s = Ensures-done _ (Follows-refl s)
  inspect_data-Inspects tcpip cid sender rest c s =
      Ensures-if (has_flag s.logging_mask portforward) _ _
        (λ _. Ensures-weaken _ (λ p. IsQuiet-Follows) (lawful.pfwd cid sender rest s))
        (λ _. Ensures-done _ (Follows-refl s))
  inspect_data-Inspects x11 cid sender rest c s =
      logged-Inspects (has_flag s.logging_mask x11_flag) _ s (quiet (lawful.x11 cid sender rest s))
  inspect_data-Inspects agent cid sender rest c s =
      logged-Inspects (has_flag s.logging_mask agent_flag) _ s
        (quiet (lawful.agent cid sender rest s))
  inspect_data-Inspects socket_fwd cid sender rest c s =
      logged-Inspects (has_flag s.logging_mask socket_flag) _ s
        (quiet (lawful.socket cid sender rest s))
  inspect_data-Inspects nolog cid sender rest c s = Ensures-done _ (Follows-refl s)
  inspect_data-Inspects sess cid sender rest c s = Ensures-done _ (Follows-refl s)

  on_data-Goes :
      (found : Option ℕ) (sender : Side) (rest buffer : Bytes) (s : Session)
      → Goes s (on_data g found sender rest buffer s)
  unfolding on_data
  on_data-Goes none sender rest buffer s = Ensures-done _ (Follows-refl s)
  on_data-Goes (some cid) sender rest buffer s = Ensures-bind (channel_at cid s) _ λ c e.
      Ensures-bind (inspect_data g c.logging cid sender rest c s) _ λ (copy, s1) e1.
        then-Goes (update_channel cid (counted g sender (length buffer)) s1) _
          ((inspect_data-Inspects c.logging cid sender rest c s).at (copy, s1) e1)
          (update_channel-GoesOn cid (counted g sender (length buffer)) s1)
          λ s2 f2.
            Ensures-bind (channel_at cid s2) _ λ c2 e2.
              Ensures-bind (rewrite_if_proxied sender buffer c2) _ λ b e3. Ensures-done _ f2

  pub channel_data-Goes :
      (sender : Side) (type : ℕ) (buffer : Bytes) (s : Session)
      → Goes s (channel_data g sender type buffer s)
  unfolding channel_data
  channel_data-Goes sender type buffer s =
      Ensures-if (is_empty buffer) _ _ (λ _. Ensures-done _ (Follows-refl s))
        λ _. Ensures-need (g.wire.get_u32 buffer) _ λ (ch, r1) e1.
          Ensures-bind (skip_exttype g type r1) _
            λ r2 e2. on_data-Goes (by_peer_first g sender ch s) sender r2 buffer s

  close_sftp-GoesOn :
      (b : Bool) (cid : ℕ) (s : Session)
      → GoesOn s (if b then free_sftp_session g cid s else done s)
  unfolding free_sftp_session
  close_sftp-GoesOn b cid s =
      Ensures-if b _ _ (λ _. update_channel-GoesOn cid _ s) (λ _. Ensures-done s (Follows-refl s))

  finish_close-GoesOn : (cid : ℕ) (c : Channel) (s : Session) → GoesOn s (finish_close g cid c s)
  finish_close-GoesOn cid c s =
      Ensures-if (c.state == 97) _ _
        (λ _. then-GoesOn (free_channel cid s) _ (Follows-refl s) (free_channel-GoesOn cid s) λ u f.
          Ensures-done _ (Follows-trans f (unchanged _ _ refl refl refl refl refl refl refl)))
        λ _. update_channel-GoesOn cid _ s

  on_close-Goes :
      (found : Option ℕ) (sender : Side) (buffer : Bytes) (s : Session)
      → Goes s (on_close g found sender buffer s)
  unfolding on_close
  on_close-Goes none sender buffer s = Ensures-done _ (Follows-refl s)
  on_close-Goes (some cid) sender buffer s = Ensures-bind (channel_at cid s) _ λ c e.
      then-Goes _ _ (Follows-refl s) (close_sftp-GoesOn (is_sftp c.logging) cid s) λ s1 f1.
        Ensures-bind (rewrite_if_proxied sender buffer c) _ λ b e1.
          then-Goes (finish_close g cid c s1) _ f1 (finish_close-GoesOn cid c s1)
            λ s2 f2. Ensures-done _ f2

  pub channel_close-Goes :
      (sender : Side) (buffer : Bytes) (s : Session) → Goes s (channel_close g sender buffer s)
  unfolding channel_close
  channel_close-Goes sender buffer s =
      Ensures-if (is_empty buffer) _ _ (λ _. Ensures-done _ (Follows-refl s))
        λ _.
          Ensures-need (g.wire.get_u32 buffer) _
            λ (ch, r1) e1. on_close-Goes (by_opener_first g sender ch s) sender buffer s
