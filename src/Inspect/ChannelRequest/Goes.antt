-- ===== src/Inspect/ChannelRequest/Goes.antt =====
-- The relation `Follows` for channel requests.
use susshi.Prelude.{
  ℕ, ◌+◌, String, refl, Bool, true, false, ◌||◌, Option, none, some, is_empty, has_flag, ◌==◌,
  str_eq, starts_with,
}
use susshi.Result.{Result, fatal}
use susshi.Result.Ensures.{
  Ensures, Ensures-done, Ensures-stop, Ensures-if, Ensures-bind, Ensures-need,
}
use susshi.Session.{
  Side, ChannelResponse, ok, ChannelLogging, text, exec_text, Session, channel_failure,
}
use susshi.Acl.{AclState, allow, deny, acl_bool}
use susshi.Gateway.{Bytes, Gateway, TermSize}
use susshi.Channels.Table.{channel_at, update_channel}
use susshi.Inspect.Reply.{session_of, rewrite_if_proxied}
use susshi.Inspect.Data.{by_peer_first, trail_target, trail_client}
use susshi.Inspect.Exec.{request_exec, request_subsystem}
use susshi.Inspect.Exec.Goes.{request_exec-Answers, request_subsystem-Answers}
use susshi.Inspect.ChannelRequest.{
  Asked, log_start, terminal_logs, set_terminal_logging, channel_set_logging, request_shell,
  request_x11, request_agent, ask_exec, ask_subsystem, ask_exit_status, ask_exit_signal, read_size,
  ask_pty, ask_env, ask, header, request_accepted, failure_if, request_refused, conclude_request,
  end_replay, on_request, channel_request,
}
use susshi.Inspect.Follows.{
  Follows, Follows-refl, Follows-trans, Goes, GoesOn, Lawful, quiet, unchanged,
  update_channel-GoesOn, transmit-GoesOn, then-Goes,
}

abbrev Asks : Session → Result Asked → Type 0
Asks s m = Ensures (λ a. Follows s a.answered.session) m

module _ (g : Gateway) (lawful : Lawful g.inspect) where
  log_start-GoesOn :
      (cid : ℕ) (size : Option TermSize) (s : Session) → GoesOn s (log_start g cid size s)
  log_start-GoesOn cid size s =
      Ensures-if (has_flag s.logging_mask (trail_client + trail_target)) _ _
        (λ _. quiet (lawful.timing cid size s)) (λ _. Ensures-done s (Follows-refl s))

  set_terminal_logging-GoesOn :
      (cid : ℕ) (size : Option TermSize) (s : Session)
      → GoesOn s (set_terminal_logging g cid size s)
  set_terminal_logging-GoesOn cid size s =
      Ensures-bind (update_channel cid (terminal_logs g) s) (log_start g cid size) λ s1 e. record {
        at = λ t h.
            Follows-trans ((update_channel-GoesOn cid (terminal_logs g) s).at s1 e)
              ((log_start-GoesOn cid size s1).at t h);
      }

  channel_set_logging-GoesOn :
      (cid : ℕ) (l : ChannelLogging) (size : Option TermSize) (s : Session)
      → GoesOn s (channel_set_logging g cid l size s)
  unfolding channel_set_logging
  channel_set_logging-GoesOn cid text size s = set_terminal_logging-GoesOn cid size s
  channel_set_logging-GoesOn cid exec_text size s = set_terminal_logging-GoesOn cid size s
  channel_set_logging-GoesOn cid _ size s = update_channel-GoesOn cid _ s

  by_state :
      (st : AclState) (l : ChannelLogging) (s : Session)
      → Follows s (request_shell g st l s).session
        × Follows s (request_x11 g st l s).session
        × Follows s (request_agent g st l s).session
  by_state allow l s = (
    unchanged s _ refl refl refl refl refl refl refl,
    unchanged s _ refl refl refl refl refl refl refl,
    unchanged s _ refl refl refl refl refl refl refl,
  )
  by_state deny l s = (
    unchanged s _ refl refl refl refl refl refl refl,
    unchanged s _ refl refl refl refl refl refl refl,
    unchanged s _ refl refl refl refl refl refl refl,
  )

  ask_exec-Asks :
      (cid : ℕ) (l : ChannelLogging) (rest : Bytes) (s : Session) → Asks s (ask_exec g cid l rest s)
  unfolding ask_exec
  ask_exec-Asks cid l rest s = Ensures-need (g.wire.get_string rest) _ λ (str, r) e.
      Ensures-bind (request_exec g cid l (g.library.command str) s) _
        λ a e1. Ensures-done _ ((request_exec-Answers g cid l (g.library.command str) s).at a e1)

  ask_subsystem-Asks :
      (l : ChannelLogging) (rest : Bytes) (s : Session) → Asks s (ask_subsystem g l rest s)
  unfolding ask_subsystem
  ask_subsystem-Asks l rest s = Ensures-need (g.wire.get_string rest) _ λ (str, r) e.
      Ensures-bind (request_subsystem g l (g.library.command str) s) _
        λ a e1. Ensures-done _ ((request_subsystem-Answers g l (g.library.command str) s).at a e1)

  read_size-Asks :
      (term : Option String) (l : ChannelLogging) (rest : Bytes) (s : Session)
      → Asks s (read_size g term l rest s)
  read_size-Asks term l rest s = Ensures-need (g.wire.get_u32 rest) _ λ (tx, r1) e1.
      Ensures-need (g.wire.get_u32 r1) _ λ (ty, r2) e2.
        Ensures-need (g.wire.get_u32 r2) _ λ (txp, r3) e3.
          Ensures-need (g.wire.get_u32 r3) _ λ (typ, r4) e4. Ensures-done _ (Follows-refl s)

  -- Requests that are read and always accepted.
  reads-Asks :
      (l : ChannelLogging) (rest : Bytes) (s : Session)
      → Asks s (ask_exit_status g l rest s)
        × Asks s (ask_exit_signal g l rest s)
        × Asks s (ask_pty g rest s)
        × Asks s (ask_env g l rest s)
  unfolding ask_exit_status ask_exit_signal ask_pty ask_env
  reads-Asks l rest s = (
    Ensures-need (g.wire.get_u32 rest) _ (λ p e. Ensures-done _ (Follows-refl s)),
    Ensures-need (g.wire.get_cstring rest) _ (λ (name, r1) e1.
        Ensures-need (g.wire.get_u8 r1) _ (λ (core, r2) e2.
          Ensures-need (g.wire.get_cstring r2) _ (λ p e. Ensures-done _ (Follows-refl s)))),
    Ensures-need (g.wire.get_cstring rest) _ (λ (term, r) e. read_size-Asks (some term) text r s),
    Ensures-need (g.wire.get_cstring rest) _ (λ (name, r1) e1.
        Ensures-need (g.wire.get_cstring r1) _ (λ p e. Ensures-done _ (Follows-refl s))),
  )

  ask-Asks :
      (cid : ℕ) (rname : String) (l : ChannelLogging) (rest : Bytes) (s : Session)
      → Asks s (ask g cid rname l rest s)
  unfolding ask
  ask-Asks cid rname l rest s =
      Ensures-if (str_eq rname "shell") _ _
        (λ _. Ensures-done _ (by_state (acl_bool g.acl "SSHInteractive" true) l s).0)
        λ _.
          Ensures-if (str_eq rname "exec") _ _ (λ _. ask_exec-Asks cid l rest s)
            λ _.
              Ensures-if (str_eq rname "subsystem") _ _ (λ _. ask_subsystem-Asks l rest s)
                λ _.
                  Ensures-if (str_eq rname "x11-req") _ _
                    (λ _. Ensures-done _ (by_state (acl_bool g.acl "SSHX11Forward" true) l s).1)
                    λ _.
                      Ensures-if (starts_with rname "auth-agent-req") _ _
                        (λ _.
                          Ensures-done _ (by_state (acl_bool g.acl "SSHAgentForward" true) l s).2)
                        λ _.
                          Ensures-if (str_eq rname "exit-status") _ _ (λ _. (reads-Asks l rest s).0)
                            λ _.
                              Ensures-if (str_eq rname "exit-signal") _ _
                                (λ _. (reads-Asks l rest s).1)
                                λ _.
                                  Ensures-if (str_eq rname "pty-req") _ _
                                    (λ _. (reads-Asks l rest s).2)
                                    λ _.
                                      Ensures-if (str_eq rname "window-change") _ _
                                        (λ _. read_size-Asks none l rest s)
                                        λ _.
                                          Ensures-if (str_eq rname "env") _ _
                                            (λ _. (reads-Asks l rest s).3)
                                            λ _.
                                              Ensures-if
                                                (str_eq rname "keepalive@openssh.com"
                                                  || str_eq rname "keep-alive@bitvise.com")
                                                _ _ (λ _. Ensures-done _ (Follows-refl s))
                                                λ _.
                                                  Ensures-if
                                                    (str_eq rname
                                                      "winadj@putty.projects.tartarus.org")
                                                    _ _ (λ _. Ensures-done _ (Follows-refl s))
                                                    λ _.
                                                      Ensures-if
                                                        (str_eq rname "signal"
                                                          || str_eq rname "xon-xoff"
                                                          || str_eq rname "eow@openssh.com")
                                                        _ _ (λ _. Ensures-done _ (Follows-refl s))
                                                        λ _. Ensures-done _ (Follows-refl s)

  request_accepted-Goes :
      (cid : ℕ) (sender : Side) (buffer : Bytes) (a : Asked)
      → Goes a.answered.session (request_accepted g cid sender buffer a)
  unfolding request_accepted
  request_accepted-Goes cid sender buffer a =
      let s = a.answered.session in
      then-Goes _ _ (Follows-refl s)
        (update_channel-GoesOn cid (λ c. record c { logging = a.answered.logtype }) s)
        λ s1 f1.
          then-Goes _ _ f1
            (channel_set_logging-GoesOn cid a.answered.logtype
              (header g a.size a.term s1.logging_mask) s1)
            λ s2 f2.
              Ensures-bind (channel_at cid s2) _
                λ c e. Ensures-bind (rewrite_if_proxied sender buffer c) _ λ b e1. Ensures-done _ f2

  failure_if-GoesOn :
      (b : Bool) (sender : Side) (ch : ℕ) (s : Session) → GoesOn s (failure_if g b sender ch s)
  failure_if-GoesOn b sender ch s =
      Ensures-if b _ _ (λ _. transmit-GoesOn g (channel_failure (session_of sender) ch) s)
        (λ _. Ensures-done s (Follows-refl s))

  request_refused-Goes :
      (cid : ℕ) (sender : Side) (b : Bool) (buffer : Bytes) (s : Session)
      → Goes s (request_refused g cid sender b buffer s)
  unfolding request_refused
  request_refused-Goes cid sender b buffer s =
      let t = record s { send_shell_env = false } in
      Ensures-bind (channel_at cid s) _ λ c e.
        then-Goes (failure_if g b sender c.requestor_ch t) _
          (unchanged s t refl refl refl refl refl refl refl)
          (failure_if-GoesOn b sender c.requestor_ch t) λ s1 f1. Ensures-done _ f1

  conclude_request-Goes :
      (r : ChannelResponse) (cid : ℕ) (sender : Side) (b : Bool) (buffer : Bytes) (a : Asked)
      → Goes a.answered.session (conclude_request g r cid sender b buffer a)
  unfolding conclude_request
  conclude_request-Goes ok cid sender b buffer a = request_accepted-Goes cid sender buffer a
  conclude_request-Goes _ cid sender b buffer a =
      request_refused-Goes cid sender b buffer a.answered.session

  on_request-Goes :
      (found : Option ℕ) (sender : Side) (rname : String) (want : ℕ) (rest buffer : Bytes)
      (s : Session)
      → Goes s (on_request g found sender rname want rest buffer s)
  unfolding on_request
  on_request-Goes none sender rname want rest buffer s = Ensures-stop fatal
  on_request-Goes (some cid) sender rname want rest buffer s =
      Ensures-bind (channel_at cid s) _ λ c e.
        Ensures-bind (ask g cid rname c.logging rest (end_replay g s)) _ λ a e1. record {
          at = λ r h.
              Follows-trans
                (Follows-trans (unchanged s (end_replay g s) refl refl refl refl refl refl refl)
                  ((ask-Asks cid rname c.logging rest (end_replay g s)).at a e1))
                ((conclude_request-Goes a.answered.response cid sender (want == 1) buffer a).at r
                  h);
        }

  pub channel_request-Goes :
      (sender : Side) (buffer : Bytes) (s : Session) → Goes s (channel_request g sender buffer s)
  unfolding channel_request
  channel_request-Goes sender buffer s =
      Ensures-if (is_empty buffer) _ _ (λ _. Ensures-done _ (Follows-refl s))
        λ _. Ensures-need (g.wire.get_u32 buffer) _ λ (ch, r1) e1.
          Ensures-need (g.wire.get_cstring r1) _ λ (rname, r2) e2.
            Ensures-need (g.wire.get_u8 r2) _ λ (want, r3) e3.
              on_request-Goes (by_peer_first g sender ch s) sender rname want r3 buffer s
