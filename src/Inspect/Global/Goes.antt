-- ===== src/Inspect/Global/Goes.antt =====
-- The relation `Follows` for global requests.
use susshi.Prelude.{inr, ℕ, String, refl, Bool, true, is_empty, str_eq, ◌==◌, ◌&&◌, ◌||◌, not}
use susshi.Result.{Result}
use susshi.Result.Ensures.{Ensures, Ensures-done, Ensures-if, Ensures-bind, Ensures-need}
use susshi.Session.{Side, is_client, ok, Session, request_failure}
use susshi.Acl.{AclState, allow, deny, acl_socket, acl_bool}
use susshi.Gateway.{Bytes, Gateway}
use susshi.Inspect.Reply.{session_of, transmit}
use susshi.Inspect.Global.{
  Verdict, respond, handled, tcpip_forward, cancel_tcpip_forward, streamlocal_forward,
  cancel_streamlocal_forward, prove_hostkeys, judge_global, conclude_global, global_request,
  request_success, judge_forward, judge_stream,
}
use susshi.Inspect.Follows.{
  Follows, Follows-refl, Follows-trans, Follows-if, Goes, Lawful, quiet, unchanged, transmit-GoesOn,
  then-Goes,
}

abbrev session_in : Verdict → Session
session_in (respond r s) = s
session_in (handled s) = s

abbrev Judges : Session → Result Verdict → Type 0
Judges s m = Ensures (λ v. Follows s (session_in v)) m

module _ (g : Gateway) (lawful : Lawful g.inspect) where
  judge_forward-Follows :
      (st : AclState) (want : Bool) (port : ℕ) (s : Session)
      → Follows s (session_in (judge_forward g st want port s))
  judge_forward-Follows allow want port s =
      Follows-trans
        (Follows-if (port == 0 && want) (record s { global_req_remote_port_listen_port_0 = true }) s
          (unchanged s _ refl refl refl refl refl refl refl) (Follows-refl s))
        (unchanged _ _ refl refl refl refl refl refl refl)
  judge_forward-Follows deny want port s = unchanged s _ refl refl refl refl refl refl refl

  judge_stream-Follows :
      (st : AclState) (s : Session) → Follows s (session_in (judge_stream g st s))
  judge_stream-Follows allow s = unchanged s _ refl refl refl refl refl refl refl
  judge_stream-Follows deny s = unchanged s _ refl refl refl refl refl refl refl

  tcpip_forward-Judges :
      (want : Bool) (rest : Bytes) (s : Session) → Judges s (tcpip_forward g want rest s)
  unfolding tcpip_forward
  tcpip_forward-Judges want rest s = Ensures-need (g.wire.get_cstring rest) _ λ (addr, r1) e1.
      Ensures-need (g.wire.get_u32 r1) _ λ (port, r2) e2.
        Ensures-bind (acl_socket g.acl "SSHRemoteForwards" addr port) _
          λ st a. Ensures-done _ (judge_forward-Follows st want port s)

  cancel_tcpip_forward-Judges :
      (rest : Bytes) (s : Session) → Judges s (cancel_tcpip_forward g rest s)
  unfolding cancel_tcpip_forward
  cancel_tcpip_forward-Judges rest s = Ensures-need (g.wire.get_cstring rest) _ λ (addr, r1) e1.
      Ensures-need (g.wire.get_u32 r1) _
        λ p e2. Ensures-done _ (unchanged s _ refl refl refl refl refl refl refl)

  streamlocal_forward-Judges :
      (rest : Bytes) (s : Session) → Judges s (streamlocal_forward g rest s)
  unfolding streamlocal_forward
  streamlocal_forward-Judges rest s =
      Ensures-need (g.wire.get_cstring rest) _
        λ p e. Ensures-done _ (judge_stream-Follows (acl_bool g.acl "SSHSocketForward" true) s)

  cancel_streamlocal_forward-Judges :
      (rest : Bytes) (s : Session) → Judges s (cancel_streamlocal_forward g rest s)
  unfolding cancel_streamlocal_forward
  cancel_streamlocal_forward-Judges rest s =
      Ensures-need (g.wire.get_cstring rest) _ λ p e. Ensures-done _ (Follows-refl s)

  prove_hostkeys-Judges :
      (sender : Side) (rest : Bytes) (s : Session) → Judges s (prove_hostkeys g sender rest s)
  unfolding prove_hostkeys
  prove_hostkeys-Judges sender rest s =
      Ensures-if (is_client sender) _ _
        (λ _.
          Ensures-bind (g.inspect.prove_hostkeys rest s) _
            λ t e. Ensures-done _ ((quiet (lawful.hostkeys rest s)).at t e))
        λ _. Ensures-done _ (Follows-refl s)

  closes : (s : Session) → Follows s (record s { no_more_sessions = true })
  closes s = record {
    sessions_stay_closed = inr refl;
    ids_grow = (Follows-refl s).ids_grow;
    in_tens = (Follows-refl s).in_tens;
    same_bytes = (Follows-refl s).same_bytes;
  }

  judge_global-Judges :
      (sender : Side) (rname : String) (want : Bool) (rest : Bytes) (s : Session)
      → Judges s (judge_global g sender rname want rest s)
  unfolding judge_global
  judge_global-Judges sender rname want rest s =
      Ensures-if (str_eq rname "no-more-sessions@openssh.com") _ _ (λ _. Ensures-done _ (closes s))
        λ _.
          Ensures-if (str_eq rname "simple@putty.projects.tartarus.org") _ _
            (λ _. Ensures-done _ (closes s))
            λ _.
              Ensures-if (str_eq rname "tcpip-forward") _ _ (λ _. tcpip_forward-Judges want rest s)
                λ _.
                  Ensures-if (str_eq rname "cancel-tcpip-forward") _ _
                    (λ _. cancel_tcpip_forward-Judges rest s)
                    λ _.
                      Ensures-if
                        (str_eq rname "keepalive@openssh.com"
                          || str_eq rname "keep-alive@bitvise.com")
                        _ _ (λ _. Ensures-done _ (unchanged s _ refl refl refl refl refl refl refl))
                        λ _.
                          Ensures-if (str_eq rname "hostkeys-00@openssh.com") _ _
                            (λ _. Ensures-done _ (Follows-refl s))
                            λ _.
                              Ensures-if (str_eq rname "hostkeys-prove-00@openssh.com") _ _
                                (λ _. prove_hostkeys-Judges sender rest s)
                                λ _.
                                  Ensures-if (str_eq rname "streamlocal-forward@openssh.com") _ _
                                    (λ _. streamlocal_forward-Judges rest s)
                                    λ _.
                                      Ensures-if
                                        (str_eq rname "cancel-streamlocal-forward@openssh.com") _ _
                                        (λ _. cancel_streamlocal_forward-Judges rest s)
                                        λ _. Ensures-done _ (Follows-refl s)

  conclude_global-Goes :
      (sender : Side) (buffer : Bytes) (v : Verdict)
      → Goes (session_in v) (conclude_global g sender buffer v)
  unfolding conclude_global
  conclude_global-Goes sender buffer (handled s) = Ensures-done _ (Follows-refl s)
  conclude_global-Goes sender buffer (respond ok s) =
      Ensures-done _ (unchanged s _ refl refl refl refl refl refl refl)
  conclude_global-Goes sender buffer (respond _ s) =
      then-Goes (transmit g (request_failure (session_of sender)) s) _ (Follows-refl s)
        (transmit-GoesOn g (request_failure (session_of sender)) s) λ u f. Ensures-done _ f

  pub global_request-Goes :
      (sender : Side) (buffer : Bytes) (s : Session) → Goes s (global_request g sender buffer s)
  unfolding global_request
  global_request-Goes sender buffer s =
      Ensures-if (is_empty buffer) _ _ (λ _. Ensures-done _ (Follows-refl s))
        λ _. Ensures-need (g.wire.get_cstring buffer) _ λ (rname, r1) e1.
          Ensures-need (g.wire.get_u8 r1) _ λ (want, r2) e2.
            Ensures-bind (judge_global g sender rname (not (want == 0)) r2 s) _ λ v e. record {
              at = λ r h.
                  Follows-trans ((judge_global-Judges sender rname (not (want == 0)) r2 s).at v e)
                    ((conclude_global-Goes sender buffer v).at r h);
            }

pub request_success-Goes :
    (sender : Side) (buffer : Bytes) (s : Session) → Goes s (request_success sender buffer s)
unfolding request_success
request_success-Goes sender buffer s =
    Ensures-if s.global_req_remote_port_listen_port_0 _ _
      (λ _.
        Ensures-if (is_empty buffer) _ _ (λ _. Ensures-done _ (Follows-refl s))
          λ _. Ensures-done _ (unchanged s _ refl refl refl refl refl refl refl))
      λ _. Ensures-done _ (unchanged s _ refl refl refl refl refl refl refl)
