-- ===== src/Inspect/Open/Policy.antt =====
-- Which channels the gateway lets a peer open.
use susshi.Prelude.{
  ℕ, String, ◌≡◌, refl, ap, inl, inr, true, false, some, str_eq, eq_iff, starts_with, Bool-cases,
  arith,
}
use susshi.Result.{done}
use susshi.Result.Ensures.{Ensures, Ensures-done, Ensures-if, Ensures-bind, Ensures-need}
use susshi.Session.{Side, is_client, Session, ok}
use susshi.Acl.{AclState, allow, deny, acl_socket, acl_bool}
use susshi.Gateway.{Bytes, Gateway}
use susshi.Inspect.Open.{
  Judged, direct_tcpip, forwarded_tcpip, auth_agent, streamlocal, judge_session, judge_tcpip,
  judge_x11, judge_streamlocal, judge_open,
}

-- The bytes start with the given address and port.
pub record LeadsWith (g : Gateway) (rest : Bytes) (addr : String) (port : ℕ) : Type 0 where
  pub after_addr : Bytes
  pub after_port : Bytes
  pub reads_addr : g.wire.get_cstring rest ≡ some (addr, after_addr)
  pub reads_port : g.wire.get_u32 after_addr ≡ some (port, after_port)

-- What opening a channel leaves alone until the verdict is carried out.
pub record IsUntouched (s s' : Session) : Type 0 where
  pub channels : s'.channels ≡ s.channels
  pub sent : s'.sent ≡ s.sent
  pub uniq_channel_id : s'.uniq_channel_id ≡ s.uniq_channel_id
  pub no_more_sessions : s'.no_more_sessions ≡ s.no_more_sessions
  pub client_in : s'.report.client_in_bytes ≡ s.report.client_in_bytes
  pub client_out : s'.report.client_out_bytes ≡ s.report.client_out_bytes
  pub target_in : s'.report.target_in_bytes ≡ s.report.target_in_bytes
  pub target_out : s'.report.target_out_bytes ≡ s.report.target_out_bytes

-- What the packet says and the session's rules allow, one constructor for each kind of channel.
pub data Permitted (g : Gateway) (sender : Side) (rest : Bytes) (s : Session)
    : String → Type 0 where
  session :
      {ctype : String}
      → ctype ≡ "session"
      → is_client sender ≡ true
      → s.no_more_sessions ≡ false
      → Permitted g sender rest s ctype
  local_forward :
      {ctype : String} (dstaddr : String) (dstport : ℕ)
      → ctype ≡ "direct-tcpip"
      → LeadsWith g rest dstaddr dstport
      → acl_socket g.acl "SSHLocalForwards" dstaddr dstport ≡ done allow
      → Permitted g sender rest s ctype
  remote_forward :
      {ctype : String} (dstaddr : String) (dstport : ℕ)
      → ctype ≡ "forwarded-tcpip"
      → LeadsWith g rest dstaddr dstport
      → acl_socket g.acl "SSHRemoteForwards" dstaddr dstport ≡ done allow
      → Permitted g sender rest s ctype
  x11_display : {ctype : String} → ctype ≡ "x11" → Permitted g sender rest s ctype
  agent :
      {ctype : String}
      → starts_with ctype "auth-agent" ≡ true
      → acl_bool g.acl "SSHAgentForward" true ≡ allow
      → Permitted g sender rest s ctype
  local_socket :
      {ctype : String}
      → ctype ≡ "direct-streamlocal@openssh.com"
      → acl_bool g.acl "SSHSocketForward" true ≡ allow
      → Permitted g sender rest s ctype
  remote_socket :
      {ctype : String}
      → ctype ≡ "forwarded-streamlocal@openssh.com"
      → acl_bool g.acl "SSHSocketForward" true ≡ allow
      → Permitted g sender rest s ctype

module _ (g : Gateway) (sender : Side) (ctype : String) (rest : Bytes) (s : Session) where
  -- What holds of a verdict: nothing was carried out yet, and only what is permitted is accepted.
  abbrev pub IsSound : Judged → Type 0
  IsSound j = IsUntouched s j.session × (j.resp ≡ ok → Permitted g sender rest s ctype)

  session-IsSound : ctype ≡ "session" → IsSound (judge_session g sender s)
  unfolding judge_session
  session-IsSound e = (ground arith, λ h. session e (ground arith) (ground arith))

  -- Both directions of TCP forwarding, for a table of verdicts that is sound for each answer.
  tcpip-IsSound :
      (judge : AclState → ℕ → ℕ → Session → Judged) (key : String)
      → ((st : AclState) (dstaddr : String) (srcport dstport : ℕ)
          → LeadsWith g rest dstaddr dstport
          → acl_socket g.acl key dstaddr dstport ≡ done st
          → IsSound (judge st srcport dstport s))
      → Ensures IsSound (judge_tcpip g judge key rest s)
  unfolding judge_tcpip
  tcpip-IsSound judge key sound = Ensures-need (g.wire.get_cstring rest) _ λ (addr, r1) e1.
      Ensures-need (g.wire.get_u32 r1) _ λ (port, r2) e2.
        Ensures-need (g.wire.get_cstring r2) _ λ (src, r3) e3.
          Ensures-need (g.wire.get_u32 r3) _ λ (srcport, r4) e4.
            let lead : LeadsWith g rest addr port = record {
              after_addr = r1;
              after_port = r2;
              reads_addr = e1;
              reads_port = e2;
            } in
            Ensures-bind (acl_socket g.acl key addr port) _
              λ st a. Ensures-done _ (sound st addr srcport port lead a)

  direct_tcpip-IsSound :
      ctype ≡ "direct-tcpip"
      → (st : AclState) (dstaddr : String) (srcport dstport : ℕ) → LeadsWith g rest dstaddr dstport
      → acl_socket g.acl "SSHLocalForwards" dstaddr dstport ≡ done st
      → IsSound (direct_tcpip st srcport dstport s)
  direct_tcpip-IsSound e allow addr src port lead a =
      (ground arith, λ h. local_forward addr port e lead a)
  direct_tcpip-IsSound e deny addr src port lead a = (ground arith, λ h. cc)

  forwarded_tcpip-IsSound :
      ctype ≡ "forwarded-tcpip"
      → (st : AclState) (dstaddr : String) (srcport dstport : ℕ) → LeadsWith g rest dstaddr dstport
      → acl_socket g.acl "SSHRemoteForwards" dstaddr dstport ≡ done st
      → IsSound (forwarded_tcpip st srcport dstport s)
  forwarded_tcpip-IsSound e allow addr src port lead a =
      (ground arith, λ h. remote_forward addr port e lead a)
  forwarded_tcpip-IsSound e deny addr src port lead a = (ground arith, λ h. cc)

  x11-IsSound : ctype ≡ "x11" → Ensures IsSound (judge_x11 g rest s)
  unfolding judge_x11
  x11-IsSound e = Ensures-need (g.wire.get_cstring rest) _ λ (addr, r1) e1.
      Ensures-need (g.wire.get_u32 r1) _ λ p e2. Ensures-done _ (ground arith, λ h. x11_display e)

  agent-IsSound :
      (st : AclState)
      → starts_with ctype "auth-agent" ≡ true
      → acl_bool g.acl "SSHAgentForward" true ≡ st
      → IsSound (auth_agent st s)
  agent-IsSound allow e a = (ground arith, λ h. agent e a)
  agent-IsSound deny e a = (ground arith, λ h. cc)

  streamlocal-IsSound :
      (crtxt : String)
      → (acl_bool g.acl "SSHSocketForward" true ≡ allow → Permitted g sender rest s ctype)
      → Ensures IsSound (judge_streamlocal g crtxt rest s)
  unfolding judge_streamlocal
  streamlocal-IsSound crtxt p =
      Ensures-need (g.wire.get_cstring rest) _
        λ (path, r) e. Ensures-done _ (by_state (acl_bool g.acl "SSHSocketForward" true) p)
    where
      by_state :
          (st : AclState)
          → (st ≡ allow → Permitted g sender rest s ctype)
          → IsSound (streamlocal st crtxt s)
      by_state allow q = (ground arith, λ h. q refl)
      by_state deny q = (ground arith, λ h. cc)

  pub judge_open-IsSound : Ensures IsSound (judge_open g sender ctype rest s)
  unfolding judge_open
  judge_open-IsSound =
      Ensures-if (str_eq ctype "session") _ _
        (λ e. Ensures-done _ (session-IsSound ((eq_iff ctype "session").0 e)))
        λ _.
          Ensures-if (str_eq ctype "direct-tcpip") _ _
            (λ e.
              tcpip-IsSound direct_tcpip "SSHLocalForwards"
                (direct_tcpip-IsSound ((eq_iff ctype "direct-tcpip").0 e)))
            λ _.
              Ensures-if (str_eq ctype "forwarded-tcpip") _ _
                (λ e.
                  tcpip-IsSound forwarded_tcpip "SSHRemoteForwards"
                    (forwarded_tcpip-IsSound ((eq_iff ctype "forwarded-tcpip").0 e)))
                λ _.
                  Ensures-if (str_eq ctype "x11") _ _ (λ e. x11-IsSound ((eq_iff ctype "x11").0 e))
                    λ _.
                      Ensures-if (str_eq ctype "tun@openssh.com") _ _
                        (λ e. Ensures-done _ (ground arith, λ h. cc))
                        λ _.
                          Ensures-if (starts_with ctype "auth-agent") _ _
                            (λ e.
                              Ensures-done _
                                (agent-IsSound (acl_bool g.acl "SSHAgentForward" true) e refl))
                            λ _.
                              Ensures-if (str_eq ctype "direct-streamlocal@openssh.com") _ _
                                (λ e. streamlocal-IsSound _ (
                                  local_socket
                                    ((eq_iff ctype "direct-streamlocal@openssh.com").0 e)))
                                λ _.
                                  Ensures-if (str_eq ctype "forwarded-streamlocal@openssh.com") _ _
                                    (λ e. streamlocal-IsSound _ (
                                      remote_socket
                                        ((eq_iff ctype "forwarded-streamlocal@openssh.com").0 e)))
                                    λ _. Ensures-done _ (ground arith, λ h. cc)

not_agent :
    (ctype name : String)
    → starts_with ctype "auth-agent" ≡ true
    → starts_with name "auth-agent" ≡ false
    → str_eq ctype name ≡ false
not_agent ctype name is_agent other = elim (Bool-cases (str_eq ctype name)) [
  | inl same ↦
      let e = (eq_iff ctype name).0 same in cc (other, ap (λ t. starts_with t "auth-agent") e)
  | inr differs ↦ differs
]

module _ (g : Gateway) (sender : Side) (rest : Bytes) (s : Session) where
  abbrev IsOk : Judged → Type 0
  IsOk j = j.resp ≡ ok

  tcpip-IsOk :
      (judge : AclState → ℕ → ℕ → Session → Judged) (key dstaddr : String) (dstport : ℕ)
      → LeadsWith g rest dstaddr dstport
      → acl_socket g.acl key dstaddr dstport ≡ done allow
      → ((srcport : ℕ) → IsOk (judge allow srcport dstport s))
      → Ensures IsOk (judge_tcpip g judge key rest s)
  unfolding judge_tcpip
  tcpip-IsOk judge key dstaddr dstport lead granted good =
      rw (lead.reads_addr, lead.reads_port, granted)
        (Ensures-need (g.wire.get_cstring lead.after_port) _ λ (src, r3) e3.
          Ensures-need (g.wire.get_u32 r3) _ λ (srcport, r4) e4. Ensures-done _ (good srcport))

  streamlocal-IsOk :
      (crtxt : String)
      → acl_bool g.acl "SSHSocketForward" true ≡ allow
      → Ensures IsOk (judge_streamlocal g crtxt rest s)
  unfolding judge_streamlocal
  streamlocal-IsOk crtxt a =
      rw a (Ensures-need (g.wire.get_cstring rest) _ λ p e. Ensures-done _ refl)

  -- What is permitted is accepted.
  pub judge_open_complete :
      (ctype : String)
      → Permitted g sender rest s ctype
      → Ensures IsOk (judge_open g sender ctype rest s)
  unfolding judge_open judge_session judge_x11
  judge_open_complete ctype (session e c n) = rw (e, c, n) (Ensures-done _ refl)
  judge_open_complete ctype (local_forward addr port e lead a) =
      rw e (tcpip-IsOk direct_tcpip "SSHLocalForwards" addr port lead a (λ src. refl))
  judge_open_complete ctype (remote_forward addr port e lead a) =
      rw e (tcpip-IsOk forwarded_tcpip "SSHRemoteForwards" addr port lead a (λ src. refl))
  judge_open_complete ctype (x11_display e) = rw e (
      Ensures-need (g.wire.get_cstring rest) _
        λ (addr, r1) e1. Ensures-need (g.wire.get_u32 r1) _ λ p e2. Ensures-done _ refl)
  judge_open_complete ctype (agent e a) =
      rw
        (
          not_agent ctype "session" e refl,
          not_agent ctype "direct-tcpip" e refl,
          not_agent ctype "forwarded-tcpip" e refl,
          not_agent ctype "x11" e refl,
          not_agent ctype "tun@openssh.com" e refl,
          e,
          a,
        )
        (Ensures-done _ refl)
  judge_open_complete ctype (local_socket e a) = rw e (streamlocal-IsOk _ a)
  judge_open_complete ctype (remote_socket e a) = rw e (streamlocal-IsOk _ a)
