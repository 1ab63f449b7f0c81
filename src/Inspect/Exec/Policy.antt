-- ===== src/Inspect/Exec/Policy.antt =====
-- Which commands and subsystems the rules of a session let a client run.
use susshi.Prelude.{
  ℕ, ◌+◌, String, ◌≡◌, ◌≢◌, refl, ◌∙◌, true, false, ◌||◌, Option, none, some, str_eq, eq_iff,
  if◌then◌else◌,
}
use susshi.Result.{done, disconnected}
use susshi.Result.Ensures.{Ensures, Ensures-done, Ensures-stop, Ensures-if, Ensures-bind}
use susshi.Session.{
  ok, reject, ChannelLogging, scp, sftp, ChannelScpMode, scp_unknown, scp_source, scp_sink, Channel,
  Session,
}
use susshi.Acl.{AclState, allow, deny, acl_bool, acl_regex, acl_string}
use susshi.Gateway.{Gateway, ScpCommand}
use susshi.Channels.Table.{update_channel, channel_at}
use susshi.Inspect.Reply.{tally}
use susshi.Inspect.Exec.{
  Answer, is_allow, is_valid_scp_filepath, scp_mode, set_scp_mode, set_scp_dir, scp_by_acl,
  scp_by_mode, run_if, by_either, subsystem_if, answer, exec_scp, exec_command, not_scp, too_long,
  exec_by_pattern, request_exec, request_subsystem,
}

-- A command is run as a command if interactive sessions are allowed or a rule matches it, and as a
-- copy if it is an `scp` command with a path in order and a direction, and copies are allowed.
pub data CanRun (g : Gateway) (cmd : String) : Type 0 where
  interactive : acl_bool g.acl "SSHInteractive" true ≡ allow → CanRun g cmd
  matching : acl_regex g.acl "SSHCommandExecs" cmd ≡ done allow → CanRun g cmd
  copy :
      (c : ScpCommand)
      → g.library.scp_pattern cmd ≡ some c
      → (is_valid_scp_filepath g c.path1 || is_valid_scp_filepath g c.path2) ≡ true
      → scp_mode g c.options ≢ scp_unknown
      → acl_bool g.acl "SSHSecureCopy" true ≡ allow
      → CanRun g cmd

pub data CanUse (g : Gateway) (name : String) : Type 0 where
  file_transfer :
      name ≡ "sftp" → acl_bool g.acl "SSHSecureFileTransfer" true ≡ allow → CanUse g name
  listed : name ≢ "sftp" → acl_string g.acl "SSHSessionSubsystems" name ≡ done allow → CanUse g name

is_allow_lem : (st : AclState) → is_allow st ≡ true → st ≡ allow
is_allow_lem allow h = refl
is_allow_lem deny h = cc

pub update_channel-sent :
    (i : ℕ) (f : Channel → Channel) (s t : Session)
    → update_channel i f s ≡ done t
    → t.sent ≡ s.sent
unfolding update_channel
update_channel-sent i f s t h =
    (Ensures-bind {P = λ u. u.sent ≡ s.sent} (channel_at i s) _ λ c e. Ensures-done _ refl).at t h

module _ (g : Gateway) where
  -- What holds of an answer: nothing was sent, and what is accepted can be run.
  abbrev Sound : String → Session → Answer → Type 0
  Sound cmd s a = (a.session.sent ≡ s.sent) × (a.response ≡ ok → CanRun g cmd)

  exec_command-Sound :
      (l : ChannelLogging) (cmd : String) (s : Session)
      → Ensures (Sound cmd s) (exec_command g l cmd s)
  unfolding exec_command
  exec_command-Sound l cmd s = by_rules (acl_bool g.acl "SSHInteractive" true) refl
    where
      by_match :
          (m : AclState)
          → acl_regex g.acl "SSHCommandExecs" cmd ≡ done m
          → Sound cmd s (run_if g (is_allow m) l cmd s)
      by_match allow em = (refl, λ h. matching em)
      by_match deny em = (refl, λ h. cc)

      by_rules :
          (i : AclState)
          → acl_bool g.acl "SSHInteractive" true ≡ i
          → Ensures (Sound cmd s) (by_either g i l cmd s)
      by_rules allow ei = Ensures-done _ (refl, λ h. interactive ei)
      by_rules deny ei =
          Ensures-bind (acl_regex g.acl "SSHCommandExecs" cmd) _
            λ m em. Ensures-done _ (by_match m em)

  not_scp-Sound :
      (l : ChannelLogging) (cmd : String) (s : Session) → Ensures (Sound cmd s) (not_scp g l cmd s)
  not_scp-Sound scp cmd s = Ensures-done _ (refl, λ h. cc)
  not_scp-Sound l cmd s = exec_command-Sound l cmd s

  exec_scp-Sound :
      (cid : ℕ) (cmd : String) (c : ScpCommand) (s : Session)
      → g.library.scp_pattern cmd ≡ some c
      → (is_valid_scp_filepath g c.path1 || is_valid_scp_filepath g c.path2) ≡ true
      → Ensures (Sound cmd s) (exec_scp g cid c s)
  unfolding exec_scp scp_by_acl scp_by_mode
  exec_scp-Sound cid cmd c s p v =
      Ensures-bind (update_channel cid (set_scp_mode g (scp_mode g c.options)) s) _ λ s1 e.
        by_mode s1 (update_channel-sent cid (set_scp_mode g (scp_mode g c.options)) s s1 e)
          (scp_mode g c.options) refl (acl_bool g.acl "SSHSecureCopy" true) refl
    where
      by_acl :
          (s1 : Session)
          → s1.sent ≡ s.sent
          → scp_mode g c.options ≢ scp_unknown
          → (st : AclState) → acl_bool g.acl "SSHSecureCopy" true ≡ st
          → Ensures (Sound cmd s) (scp_by_acl g st cid c s1)
      by_acl s1 same known allow a =
          Ensures-bind (update_channel cid (set_scp_dir g c) s1) _ λ s2 e.
            Ensures-done _
              (update_channel-sent cid (set_scp_dir g c) s1 s2 e ∙ same, λ h. copy c p v known a)
      by_acl s1 same known deny a = Ensures-done _ (same, λ h. cc)

      by_mode :
          (s1 : Session)
          → s1.sent ≡ s.sent
          → (m : ChannelScpMode) → scp_mode g c.options ≡ m
          → (st : AclState) → acl_bool g.acl "SSHSecureCopy" true ≡ st
          → Ensures (Sound cmd s) (scp_by_mode g m cid c s1)
      by_mode s1 same scp_unknown m st a = Ensures-done _ (same, λ h. cc)
      by_mode s1 same scp_source m st a = rw a (by_acl s1 same (λ u. cc (m, u)) st a)
      by_mode s1 same scp_sink m st a = rw a (by_acl s1 same (λ u. cc (m, u)) st a)

  -- A command is accepted only if the rules let the client run it.
  pub request_exec-CanRun :
      (cid : ℕ) (l : ChannelLogging) (cmd : String) (s : Session)
      → Ensures
          (λ a. (a.session.sent ≡ s.sent) × (a.response ≡ ok → CanRun g cmd))
          (request_exec g cid l cmd s)
  unfolding request_exec exec_by_pattern
  request_exec-CanRun cid l cmd s = by_pattern (g.library.scp_pattern cmd) refl
    where
      by_pattern :
          (o : Option ScpCommand)
          → g.library.scp_pattern cmd ≡ o
          → Ensures (Sound cmd s) (exec_by_pattern g o cid l cmd s)
      by_pattern none p = not_scp-Sound l cmd s
      by_pattern (some c) p =
          Ensures-if (too_long g c.path1 || too_long g c.path2) _ _ (λ _. Ensures-stop disconnected)
            (λ _.
              Ensures-if (is_valid_scp_filepath g c.path1 || is_valid_scp_filepath g c.path2) _ _
                (λ v. exec_scp-Sound cid cmd c s p v) (λ _. not_scp-Sound l cmd s))

  abbrev Uses : String → Session → Answer → Type 0
  Uses name s a = (a.session.sent ≡ s.sent) × (a.response ≡ ok → CanUse g name)

  pub request_subsystem-CanUse :
      (l : ChannelLogging) (name : String) (s : Session)
      → Ensures
          (λ a. (a.session.sent ≡ s.sent) × (a.response ≡ ok → CanUse g name))
          (request_subsystem g l name s)
  unfolding request_subsystem
  request_subsystem-CanUse l name s =
      Ensures-if (str_eq name "sftp") _ _
        (λ e. Ensures-done _ (by_transfer e (acl_bool g.acl "SSHSecureFileTransfer" true) refl))
        (λ e.
          Ensures-bind (acl_string g.acl "SSHSessionSubsystems" name) _
            λ m em. Ensures-done _ (by_list e m em))
    where
      by_transfer :
          str_eq name "sftp" ≡ true
          → (f : AclState) → acl_bool g.acl "SSHSecureFileTransfer" true ≡ f
          → Uses name s (
              if is_allow f
              then answer ok sftp (tally (λ r. record r { sftp_sessions = r.sftp_sessions + 1 }) s)
              else answer reject l s)
      by_transfer e allow ef = (refl, λ h. file_transfer ((eq_iff name "sftp").0 e) ef)
      by_transfer e deny ef = (refl, λ h. cc)

      by_list :
          str_eq name "sftp" ≡ false
          → (m : AclState) → acl_string g.acl "SSHSessionSubsystems" name ≡ done m
          → Uses name s (subsystem_if g (is_allow m) l s)
      by_list e allow em = (refl, λ h. listed (λ same. cc (e, (eq_iff name "sftp").1 same)) em)
      by_list e deny em = (refl, λ h. cc)
