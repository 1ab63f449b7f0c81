-- ===== src/Inspect/Exec/Goes.antt =====
-- The relation `Follows` for the requests to run a command or a subsystem.
use susshi.Prelude.{
  ℕ, String, refl, Bool, true, false, ◌||◌, Option, none, some, str_eq, if◌then◌else◌,
}
use susshi.Result.{Result, disconnected}
use susshi.Result.Ensures.{Ensures, Ensures-done, Ensures-stop, Ensures-if, Ensures-bind}
use susshi.Session.{ChannelLogging, scp, ChannelScpMode, scp_unknown, Session}
use susshi.Acl.{AclState, allow, deny, acl_bool, acl_regex, acl_string}
use susshi.Gateway.{Gateway, ScpCommand}
use susshi.Channels.Table.{update_channel}
use susshi.Inspect.Exec.{
  Answer, is_allow, is_valid_scp_filepath, scp_mode, set_scp_mode, set_scp_dir, scp_by_acl,
  scp_by_mode, by_either, exec_scp, exec_command, not_scp, too_long, exec_by_pattern, request_exec,
  request_subsystem,
}
use susshi.Inspect.Follows.{Follows, Follows-refl, Follows-trans, unchanged, update_channel-GoesOn}

abbrev pub Answers : Session → Result Answer → Type 0
Answers s m = Ensures (λ a. Follows s a.session) m

module _ (g : Gateway) where
  scp_by_acl-Answers :
      (st : AclState) (cid : ℕ) (cmd : ScpCommand) (s : Session)
      → Answers s (scp_by_acl g st cid cmd s)
  unfolding scp_by_acl
  scp_by_acl-Answers allow cid cmd s =
      Ensures-bind (update_channel cid (set_scp_dir g cmd) s) _ λ s1 e. Ensures-done _ (
        Follows-trans ((update_channel-GoesOn cid (set_scp_dir g cmd) s).at s1 e)
          (unchanged _ _ refl refl refl refl refl refl refl))
  scp_by_acl-Answers deny cid cmd s = Ensures-done _ (Follows-refl s)

  scp_by_mode-Answers :
      (mode : ChannelScpMode) (cid : ℕ) (cmd : ScpCommand) (s : Session)
      → Answers s (scp_by_mode g mode cid cmd s)
  unfolding scp_by_mode
  scp_by_mode-Answers scp_unknown cid cmd s =
      Ensures-done _ (unchanged s _ refl refl refl refl refl refl refl)
  scp_by_mode-Answers _ cid cmd s =
      scp_by_acl-Answers (acl_bool g.acl "SSHSecureCopy" true) cid cmd s

  exec_scp-Answers : (cid : ℕ) (cmd : ScpCommand) (s : Session) → Answers s (exec_scp g cid cmd s)
  unfolding exec_scp
  exec_scp-Answers cid cmd s =
      let mode = scp_mode g cmd.options in
      Ensures-bind (update_channel cid (set_scp_mode g mode) s) _ λ s1 e. record {
        at = λ a h.
            Follows-trans ((update_channel-GoesOn cid (set_scp_mode g mode) s).at s1 e)
              ((scp_by_mode-Answers mode cid cmd s1).at a h);
      }

  answered_if :
      {s : Session} (b : Bool) (x y : Answer)
      → Follows s x.session
      → Follows s y.session
      → Follows s (if b then x else y).session
  answered_if true x y fx fy = fx
  answered_if false x y fx fy = fy

  exec_command-Answers :
      (l : ChannelLogging) (cmd : String) (s : Session) → Answers s (exec_command g l cmd s)
  unfolding exec_command
  exec_command-Answers l cmd s = by_rule (acl_bool g.acl "SSHInteractive" true)
    where
      by_rule : (st : AclState) → Answers s (by_either g st l cmd s)
      by_rule allow = Ensures-done _ (unchanged s _ refl refl refl refl refl refl refl)
      by_rule deny = Ensures-bind (acl_regex g.acl "SSHCommandExecs" cmd) _ λ st e. Ensures-done _ (
          answered_if (is_allow st) _ _ (unchanged s _ refl refl refl refl refl refl refl)
            (unchanged s _ refl refl refl refl refl refl refl))

  not_scp-Answers :
      (l : ChannelLogging) (cmd : String) (s : Session) → Answers s (not_scp g l cmd s)
  not_scp-Answers scp cmd s = Ensures-done _ (Follows-refl s)
  not_scp-Answers l cmd s = exec_command-Answers l cmd s

  exec_by_pattern-Answers :
      (p : Option ScpCommand) (cid : ℕ) (l : ChannelLogging) (cmd : String) (s : Session)
      → Answers s (exec_by_pattern g p cid l cmd s)
  unfolding exec_by_pattern
  exec_by_pattern-Answers none cid l cmd s = not_scp-Answers l cmd s
  exec_by_pattern-Answers (some c) cid l cmd s =
      Ensures-if (too_long g c.path1 || too_long g c.path2) _ _ (λ _. Ensures-stop disconnected)
        (λ _.
          Ensures-if (is_valid_scp_filepath g c.path1 || is_valid_scp_filepath g c.path2) _ _
            (λ _. exec_scp-Answers cid c s) (λ _. not_scp-Answers l cmd s))

  pub request_exec-Answers :
      (cid : ℕ) (l : ChannelLogging) (cmd : String) (s : Session)
      → Answers s (request_exec g cid l cmd s)
  unfolding request_exec
  request_exec-Answers cid l cmd s = exec_by_pattern-Answers (g.library.scp_pattern cmd) cid l cmd s

  pub request_subsystem-Answers :
      (l : ChannelLogging) (cmd : String) (s : Session) → Answers s (request_subsystem g l cmd s)
  unfolding request_subsystem
  request_subsystem-Answers l cmd s =
      Ensures-if (str_eq cmd "sftp") _ _
        (λ _. Ensures-done _ (
          answered_if (is_allow (acl_bool g.acl "SSHSecureFileTransfer" true)) _ _
            (unchanged s _ refl refl refl refl refl refl refl) (Follows-refl s)))
        (λ _. Ensures-bind (acl_string g.acl "SSHSessionSubsystems" cmd) _ λ st e. Ensures-done _ (
          answered_if (is_allow st) _ _ (unchanged s _ refl refl refl refl refl refl refl)
            (Follows-refl s)))
