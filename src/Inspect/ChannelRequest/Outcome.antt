-- ===== src/Inspect/ChannelRequest/Outcome.antt =====
-- What a CHANNEL REQUEST message leads to.
use susshi.Prelude.{
  ℕ, String, ◌≡◌, refl, ap, Bool, true, false, Option, none, some, ◌∷◌, is_empty, ◌==◌,
  if◌then◌else◌,
}
use susshi.Result.{fatal}
use susshi.Result.Ensures.{
  Ensures, Ensures-done, Ensures-stop, Ensures-if, Ensures-bind, Ensures-need, Ensures-weaken,
}
use susshi.Session.{Side, ChannelResponse, ok, Session, channel_failure}
use susshi.Gateway.{Bytes, Gateway}
use susshi.Channels.Table.{channel_at, update_channel}
use susshi.Inspect.Reply.{Reply, session_of, transmit, transmit-eq_done, rewrite_if_proxied}
use susshi.Inspect.Data.{by_peer_first}
use susshi.Inspect.ChannelRequest.{
  Asked, ask, header, channel_set_logging, request_accepted, request_refused, conclude_request,
  end_replay, on_request, channel_request,
}
use susshi.Inspect.ChannelRequest.Policy.{Granted, ask-Sound}

-- The fields in front of the data of the request's type.
pub record Header (g : Gateway) (buffer : Bytes) (rname : String) (want_reply : ℕ) (rest : Bytes)
    : Type 0 where
  pub recipient_channel : ℕ
  pub r1 : Bytes
  pub r2 : Bytes
  pub reads_channel : g.wire.get_u32 buffer ≡ some (recipient_channel, r1)
  pub reads_rname : g.wire.get_cstring r1 ≡ some (rname, r2)
  pub reads_want_reply : g.wire.get_u8 r2 ≡ some (want_reply, rest)

-- How the handler can return.
pub data Outcome (g : Gateway) (sender : Side) (buffer : Bytes) (s : Session) (r : Reply)
    : Type 0 where
  empty : is_empty buffer ≡ true → r.forward ≡ false → r.session ≡ s → Outcome g sender buffer s r
  passed_on :
      (rname : String) (want_reply : ℕ) (rest : Bytes)
      → Header g buffer rname want_reply rest
      → Granted g rest rname
      → r.forward ≡ true
      → Outcome g sender buffer s r
  refused :
      (rname : String) (want_reply : ℕ) (rest : Bytes) (ch : ℕ)
      → Header g buffer rname want_reply rest
      → r.forward ≡ false
      → r.session.send_shell_env ≡ false
      → r.session.sent
        ≡ (if want_reply == 1 then channel_failure (session_of sender) ch ∷ s.sent else s.sent)
      → Outcome g sender buffer s r

-- The answer to a refused request.
abbrev Answered : Side → Bool → Session → Reply → Type 0
Answered sender wanted s r =
    (r.forward ≡ false)
    × (r.session.send_shell_env ≡ false)
    × (ch : ℕ) × (r.session.sent
        ≡ (if wanted then channel_failure (session_of sender) ch ∷ s.sent else s.sent))

module _ (g : Gateway) (sender : Side) (buffer : Bytes) where
  accepted-forwards :
      (cid : ℕ) (a : Asked)
      → Ensures (λ r. r.forward ≡ true) (request_accepted g cid sender buffer a)
  unfolding request_accepted
  accepted-forwards cid a =
      let s = a.answered.session in
      Ensures-bind (update_channel cid (λ c. record c { logging = a.answered.logtype }) s) _ λ s1 _.
        Ensures-bind
          (channel_set_logging g cid a.answered.logtype (header g a.size a.term s1.logging_mask) s1)
          _
          λ s2 _.
            Ensures-bind (channel_at cid s2) _
              λ c _. Ensures-bind (rewrite_if_proxied sender buffer c) _ λ b _. Ensures-done _ refl

  refused-answers :
      (cid : ℕ) (wanted : Bool) (s : Session)
      → Ensures (Answered sender wanted s) (request_refused g cid sender wanted buffer s)
  unfolding request_refused
  refused-answers cid true s = Ensures-bind (channel_at cid s) _ λ c _.
      let packet = channel_failure (session_of sender) c.requestor_ch in
      let s0 = record s { send_shell_env = false } in
      Ensures-bind (transmit g packet s0) _ λ s1 e.
        let same = transmit-eq_done g packet s0 s1 e in
        Ensures-done _ (
          refl,
          ap (λ (t : Session). t.send_shell_env) same,
          c.requestor_ch,
          ap (λ (t : Session). t.sent) same,
        )
  refused-answers cid false s =
      Ensures-bind (channel_at cid s) _ λ c _. Ensures-done _ (refl, refl, c.requestor_ch, refl)

  conclude-Outcome :
      (s : Session) (cid : ℕ) (rname : String) (want_reply : ℕ) (rest : Bytes) (a : Asked)
      → Header g buffer rname want_reply rest
      → a.answered.session.sent ≡ s.sent
      → (resp : ChannelResponse) → (resp ≡ ok → Granted g rest rname)
      → Ensures
          (Outcome g sender buffer s)
          (conclude_request g resp cid sender (want_reply == 1) buffer a)
  unfolding conclude_request
  conclude-Outcome s cid rname want_reply rest a head same ok granted =
      Ensures-weaken (request_accepted g cid sender buffer a)
        (λ r f. passed_on rname want_reply rest head (granted refl) f) (accepted-forwards cid a)
  conclude-Outcome s cid rname want_reply rest a head same _ granted =
      Ensures-weaken (request_refused g cid sender (want_reply == 1) buffer a.answered.session)
        (λ r (f, env, ch, told). refused rname want_reply rest ch head f env (rw (← same) told))
        (refused-answers cid (want_reply == 1) a.answered.session)

  on_request-Outcome :
      (s : Session) (o : Option ℕ) (rname : String) (want_reply : ℕ) (rest : Bytes)
      → Header g buffer rname want_reply rest
      → Ensures (Outcome g sender buffer s) (on_request g o sender rname want_reply rest buffer s)
  unfolding on_request
  on_request-Outcome s none rname want_reply rest head = Ensures-stop fatal
  on_request-Outcome s (some cid) rname want_reply rest head =
      Ensures-bind (channel_at cid s) _ λ c _.
        Ensures-bind (ask g cid rname c.logging rest (end_replay g s)) _ λ a ea.
          let (same, granted) = (ask-Sound g rest rname c.logging (end_replay g s) cid).at a ea in
          conclude-Outcome s cid rname want_reply rest a head same a.answered.response granted

-- A CHANNEL REQUEST that the gateway handles is forwarded only if the rules of the session grant
-- what it asks for. A request that is not forwarded is answered by one CHANNEL FAILURE if its
-- `want_reply` is 1, by nothing otherwise, and the environment of the shell is not sent any more.
pub channel_request-Outcome :
    (g : Gateway) (sender : Side) (buffer : Bytes) (s : Session)
    → Ensures (Outcome g sender buffer s) (channel_request g sender buffer s)
unfolding channel_request
channel_request-Outcome g sender buffer s =
    Ensures-if (is_empty buffer) _ _ (λ e. Ensures-done _ (empty e refl refl))
      λ _. Ensures-need (g.wire.get_u32 buffer) _ λ (recipient_channel, r1) e1.
        Ensures-need (g.wire.get_cstring r1) _ λ (rname, r2) e2.
          Ensures-need (g.wire.get_u8 r2) _ λ (want_reply, r3) e3.
            on_request-Outcome g sender buffer s (by_peer_first g sender recipient_channel s) rname
              want_reply r3
              record {
                recipient_channel = recipient_channel;
                r1 = r1;
                r2 = r2;
                reads_channel = e1;
                reads_rname = e2;
                reads_want_reply = e3;
              }
