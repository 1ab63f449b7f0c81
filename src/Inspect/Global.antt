-- ===== src/Inspect/Global.antt =====
-- `susshi_inspect_global_request` and `susshi_inspect_request_success` of
-- src/susshid/inspect-channel.c.
pub mod Goes
pub mod Closes
pub mod Rules
pub mod Policy
mod Tests
use susshi.Prelude.{
  ℕ, ◌+◌, ◌-◌, ◌%◌, ◌^◌, String, Bool, true, false, not, ◌&&◌, ◌||◌, is_empty, ltb, ◌==◌, str_eq,
  if◌then◌else◌,
}
use susshi.Result.{Result, done, need, ◌>>=◌}
use susshi.Session.{
  Side, is_client, ChannelResponse, ok, fail, reject, pending, Session, request_failure,
}
use susshi.Acl.{AclState, allow, deny, acl_socket, acl_bool}
use susshi.Gateway.{Bytes, Gateway}
use susshi.Inspect.Reply.{Reply, reply, session_of, transmit, tally}

-- What the chain of tests on the request's name leads to; `handled` is the early `return false`
-- after the gateway proved its host keys to the client.
pub data Verdict : Type 0 where
  respond : ChannelResponse → Session → Verdict
  handled : Session → Verdict

module _ (g : Gateway) where
  abbrev forward_accepted : Bool → ℕ → Session → Session
  forward_accepted want_reply port s =
      let s' =
        if port == 0 && want_reply
        then record s { global_req_remote_port_listen_port_0 = true }
        else s in
      tally (λ r. record r { remote_forwards_accepted = r.remote_forwards_accepted + 1 }) s'

  abbrev forward_rejected : Session → Session
  forward_rejected s =
      tally (λ r. record r { remote_forwards_rejected = r.remote_forwards_rejected + 1 }) s

  abbrev judge_forward : AclState → Bool → ℕ → Session → Verdict
  judge_forward allow want_reply port s = respond ok (forward_accepted want_reply port s)
  judge_forward deny want_reply port s = respond reject (forward_rejected s)

  abbrev judge_stream : AclState → Session → Verdict
  judge_stream allow s =
      respond ok
        (tally (λ r. record r { remote_forwards_accepted = r.remote_forwards_accepted + 1 }) s)
  judge_stream deny s = respond reject (forward_rejected s)

  pub tcpip_forward : Bool → Bytes → Session → Result Verdict
  tcpip_forward want_reply rest s = do
    (addr, r1) ← need (g.wire.get_cstring rest)
    (port, r2) ← need (g.wire.get_u32 r1)
    st ← acl_socket g.acl "SSHRemoteForwards" addr port
    done (judge_forward st want_reply port s)

  pub cancel_tcpip_forward : Bytes → Session → Result Verdict
  cancel_tcpip_forward rest s = do
    (addr, r1) ← need (g.wire.get_cstring rest)
    (port, r2) ← need (g.wire.get_u32 r1)
    done (
        respond ok
          (tally (λ r. record r { remote_forwards_canceled = r.remote_forwards_canceled + 1 }) s))

  pub streamlocal_forward : Bytes → Session → Result Verdict
  streamlocal_forward rest s = do
    (spath, r1) ← need (g.wire.get_cstring rest)
    done (judge_stream (acl_bool g.acl "SSHSocketForward" true) s)

  pub cancel_streamlocal_forward : Bytes → Session → Result Verdict
  cancel_streamlocal_forward rest s = do
    (spath, r1) ← need (g.wire.get_cstring rest)
    done (respond ok s)

  pub prove_hostkeys : Side → Bytes → Session → Result Verdict
  prove_hostkeys sender rest s =
      if is_client sender
      then (do s' ← g.inspect.prove_hostkeys rest s; done (handled s'))
      else done (respond reject s)

  unfoldable pub judge_global : Side → String → Bool → Bytes → Session → Result Verdict
  unfolding tcpip_forward cancel_tcpip_forward streamlocal_forward cancel_streamlocal_forward
      prove_hostkeys
  judge_global sender rname want_reply rest s =
      if str_eq rname "no-more-sessions@openssh.com"
      then done (respond ok (record s { no_more_sessions = true }))
      else if str_eq rname "simple@putty.projects.tartarus.org"
      then done (respond ok (record s { no_more_sessions = true }))
      else if str_eq rname "tcpip-forward"
      then tcpip_forward want_reply rest s
      else if str_eq rname "cancel-tcpip-forward"
      then cancel_tcpip_forward rest s
      else if str_eq rname "keepalive@openssh.com" || str_eq rname "keep-alive@bitvise.com"
      then done (respond ok (tally (λ r. record r { update_last_io_time = false }) s))
      else if str_eq rname "hostkeys-00@openssh.com"
      then done (respond reject s)
      else if str_eq rname "hostkeys-prove-00@openssh.com"
      then prove_hostkeys sender rest s
      else if str_eq rname "streamlocal-forward@openssh.com"
      then streamlocal_forward rest s
      else if str_eq rname "cancel-streamlocal-forward@openssh.com"
      then cancel_streamlocal_forward rest s
      else done (respond fail s)

  unfoldable pub conclude_global : Side → Bytes → Verdict → Result Reply
  conclude_global sender buffer (handled s) = reply false buffer s
  conclude_global sender buffer (respond ok s) =
      reply true buffer (record s { global_req_state = pending })
  conclude_global sender buffer (respond resp s) = do
    s' ← transmit g (request_failure (session_of sender)) s
    reply false buffer s'

  unfoldable pub global_request : Side → Bytes → Session → Result Reply
  global_request sender buffer s = if is_empty buffer then reply false buffer s else do
    (rname, r1) ← need (g.wire.get_cstring buffer)
    (want_reply, r2) ← need (g.wire.get_u8 r1)
    verdict ← judge_global sender rname (not (want_reply == 0)) r2 s
    conclude_global sender buffer verdict

-- `num_remote_tcp_requests_pending` is unsigned: 0 wraps around.
abbrev after_success : Session → Session
after_success s =
    let n = (s.num_remote_tcp_requests_pending + (2 ^ 32 - 1)) % 2 ^ 32 in
    record s {
      num_remote_tcp_requests_pending = n;
      global_req_state = if ltb 0 n then pending else s.global_req_state;
    }

unfoldable pub request_success : Side → Bytes → Session → Result Reply
request_success sender buffer s =
    if s.global_req_remote_port_listen_port_0
    then (if is_empty buffer
        then reply false buffer s
        else reply true buffer
            (after_success (record s { global_req_remote_port_listen_port_0 = false })))
    else reply true buffer (after_success s)
