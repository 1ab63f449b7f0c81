-- ===== src/Inspect/Global/Rules.antt =====
-- What the rules of a session grant of the global requests that `susshi_inspect_global_request` of
-- src/susshid/inspect-channel.c handles.
use susshi.Prelude.{
  ℕ, String, ◌≡◌, refl, sym, ◌∙◌, ap, Bool, true, false, ◌||◌, str_eq, eq_iff, arith,
}
use susshi.Result.{done}
use susshi.Session.{Side, is_client}
use susshi.Acl.{allow, acl_socket, acl_bool}
use susshi.Gateway.{Bytes, Gateway}
use susshi.Inspect.Open.Policy.{LeadsWith}

-- The requests that no rule restricts.
abbrev pub is_free : String → Bool
is_free rname =
    str_eq rname "no-more-sessions@openssh.com"
    || str_eq rname "simple@putty.projects.tartarus.org"
    || str_eq rname "cancel-tcpip-forward"
    || (str_eq rname "keepalive@openssh.com" || str_eq rname "keep-alive@bitvise.com")
    || str_eq rname "cancel-streamlocal-forward@openssh.com"

-- What a request asks for, and the rule that allows it.
pub data Granted (g : Gateway) (rest : Bytes) (rname : String) : Type 0 where
  free : is_free rname ≡ true → Granted g rest rname
  remote_forward :
      (addr : String) (port : ℕ)
      → rname ≡ "tcpip-forward"
      → LeadsWith g rest addr port
      → acl_socket g.acl "SSHRemoteForwards" addr port ≡ done allow
      → Granted g rest rname
  remote_socket :
      rname ≡ "streamlocal-forward@openssh.com"
      → acl_bool g.acl "SSHSocketForward" true ≡ allow
      → Granted g rest rname

pub apart : (a b : String) → str_eq a b ≡ false → a ≡ b → ⊥
apart a b differ h = cc (differ, (eq_iff a b).1 h)

module _ (sender : Side) (rname : String) where
  -- It is not the client's request for a proof of host keys.
  abbrev pub Unproved : Type 0
  Unproved = rname ≡ "hostkeys-prove-00@openssh.com" → is_client sender ≡ false

  pub differs :
      (name : String)
      → str_eq name "hostkeys-prove-00@openssh.com" ≡ false
      → rname ≡ name
      → Unproved
  differs name no_name e p =
      absurd (cc (no_name, (eq_iff name "hostkeys-prove-00@openssh.com").1 (sym e ∙ p)))

  pub no_proof : str_eq rname "hostkeys-prove-00@openssh.com" ≡ false → Unproved
  no_proof other p = absurd (cc (other, (eq_iff rname "hostkeys-prove-00@openssh.com").1 p))

  pub passes :
      (name : String)
      → str_eq name "hostkeys-prove-00@openssh.com" ≡ false
      → str_eq rname name ≡ true
      → Unproved
  passes name no_name e = differs name no_name ((eq_iff rname name).0 e)

  pub keepalives :
      (str_eq rname "keepalive@openssh.com" || str_eq rname "keep-alive@bitvise.com") ≡ true
      → Unproved
  keepalives e = by_name (str_eq rname "keepalive@openssh.com") refl e
    where
      by_name :
          (b : Bool)
          → str_eq rname "keepalive@openssh.com" ≡ b
          → (b || str_eq rname "keep-alive@bitvise.com") ≡ true
          → Unproved
      by_name true h _ = passes "keepalive@openssh.com" refl h
      by_name false _ h = passes "keep-alive@bitvise.com" refl h

module _ (g : Gateway) (rest : Bytes) (rname : String) where
  -- A request of a given name that no rule grants.
  pub shut :
      (name : String)
      → rname ≡ name
      → is_free name ≡ false
      → (name ≡ "tcpip-forward"
          → (addr : String) (port : ℕ) → LeadsWith g rest addr port
          → acl_socket g.acl "SSHRemoteForwards" addr port ≡ done allow
          → ⊥)
      → (name ≡ "streamlocal-forward@openssh.com"
          → acl_bool g.acl "SSHSocketForward" true ≡ allow
          → ⊥)
      → ¬ Granted g rest rname
  shut name e no_free no_forward no_socket (free h) =
      let same : is_free name ≡ true = sym (ap is_free e) ∙ h in cc (no_free, same)
  shut name e no_free no_forward no_socket (remote_forward addr port e1 lead a) =
      no_forward (sym e ∙ e1) addr port lead a
  shut name e no_free no_forward no_socket (remote_socket e1 a) = no_socket (sym e ∙ e1) a

  -- A request that has a name which no rule mentions.
  pub unruled :
      (name : String)
      → rname ≡ name
      → is_free name ≡ false
      → str_eq name "tcpip-forward" ≡ false
      → str_eq name "streamlocal-forward@openssh.com" ≡ false
      → ¬ Granted g rest rname
  unruled name e no_free no_forward no_socket =
      shut name e no_free (λ h addr port lead a. apart name "tcpip-forward" no_forward h)
        (λ h a. apart name "streamlocal-forward@openssh.com" no_socket h)

  -- A request with a name that no test of the handler knows.
  pub unknown_name :
      str_eq rname "no-more-sessions@openssh.com" ≡ false
      → str_eq rname "simple@putty.projects.tartarus.org" ≡ false
      → str_eq rname "tcpip-forward" ≡ false
      → str_eq rname "cancel-tcpip-forward" ≡ false
      → (str_eq rname "keepalive@openssh.com" || str_eq rname "keep-alive@bitvise.com") ≡ false
      → str_eq rname "streamlocal-forward@openssh.com" ≡ false
      → str_eq rname "cancel-streamlocal-forward@openssh.com" ≡ false
      → ¬ Granted g rest rname
  unknown_name m0 m1 m2 m3 m4 m6 m7 (free h) = ground (arith, h, m0, m1, m3, m4, m7)
  unknown_name m0 m1 m2 m3 m4 m6 m7 (remote_forward addr port e lead a) =
      cc (m2, (eq_iff rname "tcpip-forward").1 e)
  unknown_name m0 m1 m2 m3 m4 m6 m7 (remote_socket e a) =
      cc (m6, (eq_iff rname "streamlocal-forward@openssh.com").1 e)
