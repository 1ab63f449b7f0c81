-- ===== src/Inspect/ChannelRequest/Policy.antt =====
-- Which CHANNEL REQUEST messages the rules of a session grant.
use susshi.Prelude.{
  ℕ, String, ◌≡◌, refl, Bool, true, ◌||◌, Option, none, some, str_eq, eq_iff, starts_with, arith,
}
use susshi.Result.Ensures.{Ensures, Ensures-done, Ensures-if, Ensures-bind, Ensures-need}
use susshi.Session.{ok, ChannelLogging, Session}
use susshi.Acl.{AclState, allow, deny, acl_bool}
use susshi.Gateway.{Bytes, Gateway}
use susshi.Inspect.Exec.{request_exec, request_subsystem}
use susshi.Inspect.Exec.Policy.{CanRun, CanUse, request_exec-CanRun, request_subsystem-CanUse}
use susshi.Inspect.ChannelRequest.{
  Asked, asked, request_shell, request_x11, request_agent, ask_exec, ask_subsystem, ask_exit_status,
  ask_exit_signal, read_size, ask_pty, ask_env, ask,
}

-- The requests that no rule restricts.
abbrev pub is_harmless : String → Bool
is_harmless rname =
    str_eq rname "exit-status"
    || str_eq rname "exit-signal"
    || str_eq rname "pty-req"
    || str_eq rname "window-change"
    || str_eq rname "env"
    || (str_eq rname "keepalive@openssh.com" || str_eq rname "keep-alive@bitvise.com")
    || str_eq rname "winadj@putty.projects.tartarus.org"
    || (str_eq rname "signal" || str_eq rname "xon-xoff" || str_eq rname "eow@openssh.com")

-- What a request asks for, and the rule that allows it.
pub data Granted (g : Gateway) (rest : Bytes) (rname : String) : Type 0 where
  shell : rname ≡ "shell" → acl_bool g.acl "SSHInteractive" true ≡ allow → Granted g rest rname
  command :
      (datastr after : Bytes)
      → rname ≡ "exec"
      → g.wire.get_string rest ≡ some (datastr, after)
      → CanRun g (g.library.command datastr)
      → Granted g rest rname
  subsystem :
      (datastr after : Bytes)
      → rname ≡ "subsystem"
      → g.wire.get_string rest ≡ some (datastr, after)
      → CanUse g (g.library.command datastr)
      → Granted g rest rname
  x11_display :
      rname ≡ "x11-req" → acl_bool g.acl "SSHX11Forward" true ≡ allow → Granted g rest rname
  agent_forwarding :
      starts_with rname "auth-agent-req" ≡ true
      → acl_bool g.acl "SSHAgentForward" true ≡ allow
      → Granted g rest rname
  harmless : is_harmless rname ≡ true → Granted g rest rname

module _ (g : Gateway) (rest : Bytes) (rname : String) (l : ChannelLogging) (s : Session) where
  -- What holds of the locals after the chain of tests.
  abbrev Sound : Asked → Type 0
  Sound a = (a.answered.session.sent ≡ s.sent) × (a.answered.response ≡ ok → Granted g rest rname)

  shell-Sound :
      rname ≡ "shell"
      → (st : AclState) → acl_bool g.acl "SSHInteractive" true ≡ st
      → Sound (asked (request_shell g st l s))
  shell-Sound e allow a = (refl, λ h. shell e a)
  shell-Sound e deny a = (refl, λ h. cc)

  x11-Sound :
      rname ≡ "x11-req"
      → (st : AclState) → acl_bool g.acl "SSHX11Forward" true ≡ st
      → Sound (asked (request_x11 g st l s))
  x11-Sound e allow a = (refl, λ h. x11_display e a)
  x11-Sound e deny a = (refl, λ h. cc)

  agent-Sound :
      starts_with rname "auth-agent-req" ≡ true
      → (st : AclState) → acl_bool g.acl "SSHAgentForward" true ≡ st
      → Sound (asked (request_agent g st l s))
  agent-Sound e allow a = (refl, λ h. agent_forwarding e a)
  agent-Sound e deny a = (refl, λ h. cc)

  exec-Sound : (cid : ℕ) → rname ≡ "exec" → Ensures Sound (ask_exec g cid l rest s)
  unfolding ask_exec
  exec-Sound cid e = Ensures-need (g.wire.get_string rest) _ λ (datastr, r) e1.
      Ensures-bind (request_exec g cid l (g.library.command datastr) s) _ λ a ea.
        let (same, can) = (request_exec-CanRun g cid l (g.library.command datastr) s).at a ea in
        Ensures-done _ (same, λ h. command datastr r e e1 (can h))

  subsystem-Sound : rname ≡ "subsystem" → Ensures Sound (ask_subsystem g l rest s)
  unfolding ask_subsystem
  subsystem-Sound e = Ensures-need (g.wire.get_string rest) _ λ (datastr, r) e1.
      Ensures-bind (request_subsystem g l (g.library.command datastr) s) _ λ a ea.
        let (same, can) = (request_subsystem-CanUse g l (g.library.command datastr) s).at a ea in
        Ensures-done _ (same, λ h. subsystem datastr r e e1 (can h))

  read_size-Sound :
      (term : Option String) (m : ChannelLogging) (r : Bytes)
      → is_harmless rname ≡ true
      → Ensures Sound (read_size g term m r s)
  read_size-Sound term m r e = Ensures-need (g.wire.get_u32 r) _ λ (tx, r1) e1.
      Ensures-need (g.wire.get_u32 r1) _ λ (ty, r2) e2.
        Ensures-need (g.wire.get_u32 r2) _ λ (txp, r3) e3.
          Ensures-need (g.wire.get_u32 r3) _ λ (typ, r4) e4. Ensures-done _ (refl, λ h. harmless e)

  pub ask-Sound : (cid : ℕ) → Ensures Sound (ask g cid rname l rest s)
  unfolding ask ask_exit_status ask_exit_signal ask_pty ask_env
  ask-Sound cid =
      Ensures-if (str_eq rname "shell") _ _
        (λ e.
          Ensures-done _
            (shell-Sound ((eq_iff rname "shell").0 e) (acl_bool g.acl "SSHInteractive" true) refl))
        λ _.
          Ensures-if (str_eq rname "exec") _ _ (λ e. exec-Sound cid ((eq_iff rname "exec").0 e))
            λ _.
              Ensures-if (str_eq rname "subsystem") _ _
                (λ e. subsystem-Sound ((eq_iff rname "subsystem").0 e))
                λ _.
                  Ensures-if (str_eq rname "x11-req") _ _
                    (λ e. Ensures-done _ (
                      x11-Sound ((eq_iff rname "x11-req").0 e) (acl_bool g.acl "SSHX11Forward" true)
                        refl))
                    λ _.
                      Ensures-if (starts_with rname "auth-agent-req") _ _
                        (λ e.
                          Ensures-done _
                            (agent-Sound e (acl_bool g.acl "SSHAgentForward" true) refl))
                        λ _.
                          Ensures-if (str_eq rname "exit-status") _ _
                            (λ e.
                              Ensures-need (g.wire.get_u32 rest) _
                                λ p _. Ensures-done _ (refl, λ h. harmless (rw e)))
                            λ _.
                              Ensures-if (str_eq rname "exit-signal") _ _
                                (λ e. Ensures-need (g.wire.get_cstring rest) _ λ (a, r1) _.
                                  Ensures-need (g.wire.get_u8 r1) _ λ (b, r2) _.
                                    Ensures-need (g.wire.get_cstring r2) _ λ (c, r3) _.
                                      Ensures-done _ (refl, λ h. harmless (ground arith)))
                                λ _.
                                  Ensures-if (str_eq rname "pty-req") _ _
                                    (λ e.
                                      Ensures-need (g.wire.get_cstring rest) _ λ (term, r) _.
                                        read_size-Sound (some term) _ r (ground arith))
                                    λ _.
                                      Ensures-if (str_eq rname "window-change") _ _
                                        (λ e. read_size-Sound none l rest (ground arith))
                                        λ _.
                                          Ensures-if (str_eq rname "env") _ _
                                            (λ e.
                                              Ensures-need (g.wire.get_cstring rest) _ λ (a, r1) _.
                                                Ensures-need (g.wire.get_cstring r1) _ λ (b, r2) _.
                                                  Ensures-done _
                                                    (refl, λ h. harmless (ground arith)))
                                            λ _.
                                              Ensures-if
                                                (str_eq rname "keepalive@openssh.com"
                                                  || str_eq rname "keep-alive@bitvise.com")
                                                _ _
                                                (λ e.
                                                  Ensures-done _
                                                    (refl, λ h. harmless (ground arith)))
                                                λ _.
                                                  Ensures-if
                                                    (str_eq rname
                                                      "winadj@putty.projects.tartarus.org")
                                                    _ _
                                                    (λ e.
                                                      Ensures-done _
                                                        (refl, λ h. harmless (ground arith)))
                                                    λ _.
                                                      Ensures-if
                                                        (str_eq rname "signal"
                                                          || str_eq rname "xon-xoff"
                                                          || str_eq rname "eow@openssh.com")
                                                        _ _
                                                        (λ e.
                                                          Ensures-done _
                                                            (refl, λ h. harmless (ground arith)))
                                                        λ _. Ensures-done _ (refl, λ h. cc)
