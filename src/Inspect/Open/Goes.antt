-- ===== src/Inspect/Open/Goes.antt =====
-- The relation `Follows` for the opening of channels.
use susshi.Prelude.{◌≡◌, ℕ, String, refl, is_empty, arith}
use susshi.Result.{done}
use susshi.Result.Ensures.{Ensures-done, Ensures-if, Ensures-bind, Ensures-need}
use susshi.Session.{Side, ChannelResponse, ok, Session, open_failure}
use susshi.Gateway.{Bytes, Gateway}
use susshi.Channels.Table.{alloc_new_channel, update_channel}
use susshi.Inspect.Reply.{session_of, transmit}
use susshi.Inspect.Open.{
  Judged, opened, next_id, packed_text, reason_code, judge_open, open_accepted, open_refused,
  conclude_open, channel_open,
}
use susshi.Inspect.Open.Policy.{IsUntouched, judge_open-IsSound}
use susshi.Inspect.Follows.{
  Follows, Follows-refl, Follows-trans, Goes, unchanged, transmit-GoesOn, update_channel-GoesOn,
  alloc_new_channel-Follows, then-Goes,
}

untouched-Follows : (s t : Session) → IsUntouched s t → Follows s t
untouched-Follows s t u =
    unchanged s t u.no_more_sessions u.uniq_channel_id (rw (u.channels)) u.client_in u.client_out
      u.target_in u.target_out

-- The next channel gets a new number.
numbered :
    (g : Gateway) (s : Session) (id : ℕ)
    → next_id g s.uniq_channel_id ≡ done id
    → Follows s (record s { uniq_channel_id = id })
numbered g s id h = record {
  sessions_stay_closed = (Follows-refl s).sessions_stay_closed;
  ids_grow = ground (arith, h);
  in_tens = (0, omega arith);
  same_bytes = (Follows-refl s).same_bytes;
}

module _ (g : Gateway) (sender : Side) (ctype : String) (sender_ch : ℕ) (buffer : Bytes) where
  open_accepted-Goes :
      (j : Judged) → Goes j.session (open_accepted g sender ctype sender_ch buffer j)
  unfolding open_accepted
  open_accepted-Goes j = Ensures-bind (alloc_new_channel j.session) _ λ (cid, s1) e.
      then-Goes (update_channel cid (opened g sender ctype sender_ch cid j) s1) _
        (alloc_new_channel-Follows j.session s1 cid e)
        (update_channel-GoesOn cid (opened g sender ctype sender_ch cid j) s1)
        λ u f. Ensures-bind (next_id g u.uniq_channel_id) _ λ id ei. Ensures-done _ (
          Follows-trans f
            (Follows-trans (numbered g u id ei) (unchanged _ _ refl refl refl refl refl refl refl)))

  open_refused-Goes : (j : Judged) → Goes j.session (open_refused g sender sender_ch buffer j)
  unfolding open_refused
  open_refused-Goes j = Ensures-bind (packed_text g j.crtxt) _ λ crtxt et.
      let packet = open_failure (session_of sender) sender_ch (reason_code g j.resp) crtxt in
      then-Goes (transmit g packet j.session) _ (Follows-refl j.session)
        (transmit-GoesOn g packet j.session)
        λ u f. Ensures-done _ (Follows-trans f (unchanged _ _ refl refl refl refl refl refl refl))

  conclude_open-Goes :
      (j : Judged) (resp : ChannelResponse)
      → Goes j.session (conclude_open g sender ctype sender_ch buffer j resp)
  unfolding conclude_open
  conclude_open-Goes j ok = open_accepted-Goes j
  conclude_open-Goes j _ = open_refused-Goes j

pub channel_open-Goes :
    (g : Gateway) (sender : Side) (buffer : Bytes) (s : Session)
    → Goes s (channel_open g sender buffer s)
unfolding channel_open
channel_open-Goes g sender buffer s =
    Ensures-if (is_empty buffer) _ _ (λ _. Ensures-done _ (Follows-refl s))
      λ _. Ensures-need (g.wire.get_cstring buffer) _ λ (ctype, r1) e1.
        Ensures-need (g.wire.get_u32 r1) _ λ (sender_ch, r2) e2.
          Ensures-need (g.wire.get_u32 r2) _ λ (window, r3) e3.
            Ensures-need (g.wire.get_u32 r3) _ λ (packet, rest) e4.
              Ensures-bind (judge_open g sender ctype rest s) _ λ j e. record {
                at = λ r h.
                    Follows-trans
                      (untouched-Follows s j.session
                        ((judge_open-IsSound g sender ctype rest s).at j e).0)
                      ((conclude_open-Goes g sender ctype sender_ch buffer j j.resp).at r h);
              }
