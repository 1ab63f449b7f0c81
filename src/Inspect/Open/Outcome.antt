-- ===== src/Inspect/Open/Outcome.antt =====
-- What a CHANNEL OPEN message leads to.
use susshi.Prelude.{
  ℕ, ◌+◌, String, ◌≡◌, ◌≢◌, refl, ◌∙◌, ap, ◌↔◌, true, false, some, ◌∷◌, is_empty, get_elem?,
  get_elem?-set_self, get_elem?-set_ne, get_elem?-lt, arith,
}
use susshi.Result.{done}
use susshi.Result.Ensures.{
  Ensures, Ensures-done, Ensures-if, Ensures-bind, Ensures-need, Ensures-weaken,
}
use susshi.Session.{Side, ChannelResponse, ok, Channel, Session, no_channel, open_failure}
use susshi.Gateway.{Bytes, Gateway}
use susshi.Channels.Table.{fresh_channel, alloc_new_channel}
use susshi.Channels.Alloc.{alloc_new_channel-IsAdded, update_channel_lem}
use susshi.Inspect.Reply.{Reply, session_of, transmit, transmit-eq_done}
use susshi.Inspect.Open.{
  Judged, opened, next_id, packed_text, open_accepted, open_refused, reason_code, judge_open,
  conclude_open, channel_open,
}
use susshi.Inspect.Open.Policy.{IsUntouched, Permitted, judge_open-IsSound, judge_open_complete}

-- The fields in front of the data of the channel's type.
pub record Header (g : Gateway) (buffer : Bytes) (ctype : String) (sender_ch : ℕ) (rest : Bytes)
    : Type 0 where
  pub window : ℕ
  pub packet : ℕ
  pub r1 : Bytes
  pub r2 : Bytes
  pub r3 : Bytes
  pub reads_ctype : g.wire.get_cstring buffer ≡ some (ctype, r1)
  pub reads_sender_ch : g.wire.get_u32 r1 ≡ some (sender_ch, r2)
  pub reads_window : g.wire.get_u32 r2 ≡ some (window, r3)
  pub reads_packet : g.wire.get_u32 r3 ≡ some (packet, rest)

-- `t` is `s` with one more channel, opened by `sender`, that no peer has confirmed.
pub record IsOpened (sender : Side) (ctype : String) (sender_ch : ℕ) (s t : Session) : Type 0 where
  pub slot : ℕ
  pub channel : Channel
  pub placed : get_elem? t.channels slot ≡ some (some channel)
  pub was_free : (c : Channel) → get_elem? s.channels slot ≢ some (some c)
  pub kept :
      (j : ℕ) (c : Channel)
      → get_elem? s.channels j ≡ some (some c)
      → get_elem? t.channels j ≡ some (some c)
  pub by_sender : channel.requestor ≡ sender
  pub has_type : channel.ctype ≡ some ctype
  pub has_number : channel.requestor_ch ≡ sender_ch
  pub unconfirmed : channel.provider_ch ≡ no_channel
  pub direct : channel.proxied_channel ≡ false
  pub logged_as : channel.log_protocol.ucid ≡ s.uniq_channel_id
  pub next_id : t.uniq_channel_id ≡ s.uniq_channel_id + 1
  pub nothing_sent : t.sent ≡ s.sent

-- `t` is `s` after a refusal: one failure message went back to the sender.
pub record IsRefused (sender : Side) (sender_ch : ℕ) (s t : Session) : Type 0 where
  pub code : ℕ
  pub message : String
  pub told : t.sent ≡ open_failure (session_of sender) sender_ch code message ∷ s.sent
  pub same_channels : t.channels ≡ s.channels
  pub same_id : t.uniq_channel_id ≡ s.uniq_channel_id

-- How the handler can return.
pub data Outcome (g : Gateway) (sender : Side) (buffer : Bytes) (s : Session) (r : Reply)
    : Type 0 where
  empty : is_empty buffer ≡ true → r.forward ≡ false → r.session ≡ s → Outcome g sender buffer s r
  opened_channel :
      (ctype : String) (sender_ch : ℕ) (rest : Bytes)
      → Header g buffer ctype sender_ch rest
      → Permitted g sender rest s ctype
      → r.forward ≡ true
      → IsOpened sender ctype sender_ch s r.session
      → Outcome g sender buffer s r
  refused :
      (ctype : String) (sender_ch : ℕ) (rest : Bytes)
      → Header g buffer ctype sender_ch rest
      → ¬ Permitted g sender rest s ctype
      → r.forward ≡ false
      → IsRefused sender sender_ch s r.session
      → Outcome g sender buffer s r

module _ (g : Gateway) (sender : Side) (ctype : String) (sender_ch : ℕ) (buffer : Bytes) where
  abbrev Accepted : Judged → Reply → Type 0
  Accepted j r = (r.forward ≡ true) × IsOpened sender ctype sender_ch j.session r.session

  abbrev filled : Judged → ℕ → Channel
  filled j cid = opened g sender ctype sender_ch cid j fresh_channel

  filled-fields :
      (j : Judged) (cid : ℕ)
      → ((filled j cid).requestor ≡ sender)
        × ((filled j cid).ctype ≡ some ctype)
        × ((filled j cid).requestor_ch ≡ sender_ch)
        × ((filled j cid).provider_ch ≡ no_channel)
        × ((filled j cid).proxied_channel ≡ false)
        × ((filled j cid).log_protocol.ucid ≡ j.session.uniq_channel_id)
  unfolding opened
  filled-fields j cid = ground arith

  next_id_lem : (n m : ℕ) → next_id g n ≡ done m → m ≡ n + 1
  next_id_lem n m h = ground arith

  open_accepted-opens :
      (j : Judged) → Ensures (Accepted j) (open_accepted g sender ctype sender_ch buffer j)
  unfolding open_accepted
  open_accepted-opens j = Ensures-bind (alloc_new_channel j.session) _ λ (cid, s1) e.
      let (added, same) = alloc_new_channel-IsAdded j.session s1 cid e in
      let c = filled j cid in
      let fields = filled-fields j cid in
      let in_range = get_elem?-lt s1.channels cid (some fresh_channel) added.fresh in
      rw
        (update_channel_lem s1 cid (opened g sender ctype sender_ch cid j) fresh_channel
          added.fresh)
        (Ensures-bind (next_id g s1.uniq_channel_id) _ λ id ei. Ensures-done _ (
          refl,
          record {
            slot = cid;
            channel = c;
            placed = get_elem?-set_self s1.channels cid (some c) in_range;
            was_free = added.was_free;
            kept = λ k d used.
                rw
                  (get_elem?-set_ne s1.channels cid k (some c)
                    (λ ek. added.was_free d (rw ek used)))
                  (added.kept k d used);
            by_sender = fields.0;
            has_type = fields.1;
            has_number = fields.2;
            unconfirmed = fields.3;
            direct = fields.4;
            logged_as = fields.5;
            next_id =
                next_id_lem s1.uniq_channel_id id ei
                ∙ ap (λ (t : Session). t.uniq_channel_id + 1) same;
            nothing_sent = ap (λ (t : Session). t.sent) same;
          },
        ))

  abbrev Refused : Judged → Reply → Type 0
  Refused j r = (r.forward ≡ false) × IsRefused sender sender_ch j.session r.session

  open_refused-refuses :
      (j : Judged) → Ensures (Refused j) (open_refused g sender sender_ch buffer j)
  unfolding open_refused
  open_refused-refuses j = Ensures-bind (packed_text g j.crtxt) _ λ crtxt et.
      let packet = open_failure (session_of sender) sender_ch (reason_code g j.resp) crtxt in
      Ensures-bind (transmit g packet j.session) _ λ s1 e.
        let same = transmit-eq_done g packet j.session s1 e in
        Ensures-done _ (
          refl,
          record {
            code = reason_code g j.resp;
            message = crtxt;
            told = ap (λ (t : Session). t.sent) same;
            same_channels = ap (λ (t : Session). t.channels) same;
            same_id = ap (λ (t : Session). t.uniq_channel_id) same;
          },
        )

  conclude_open-Outcome :
      (s : Session) (rest : Bytes) (j : Judged)
      → Header g buffer ctype sender_ch rest
      → IsUntouched s j.session
      → (resp : ChannelResponse) → ((resp ≡ ok) ↔ Permitted g sender rest s ctype)
      → Ensures (Outcome g sender buffer s) (conclude_open g sender ctype sender_ch buffer j resp)
  unfolding conclude_open
  conclude_open-Outcome s rest j head same ok p =
      Ensures-weaken (open_accepted g sender ctype sender_ch buffer j)
        (λ r a. opened_channel ctype sender_ch rest head (p.0 refl) a.0 (from_untouched a.1))
        (open_accepted-opens j)
    where
      from_untouched :
          {t : Session}
          → IsOpened sender ctype sender_ch j.session t
          → IsOpened sender ctype sender_ch s t
      from_untouched o = record {
        slot = o.slot;
        channel = o.channel;
        placed = o.placed;
        was_free = λ c used. o.was_free c (rw (same.channels) used);
        kept = λ k c used. o.kept k c (rw (same.channels) used);
        by_sender = o.by_sender;
        has_type = o.has_type;
        has_number = o.has_number;
        unconfirmed = o.unconfirmed;
        direct = o.direct;
        logged_as = o.logged_as ∙ same.uniq_channel_id;
        next_id = o.next_id ∙ ap (λ (n : ℕ). n + 1) same.uniq_channel_id;
        nothing_sent = o.nothing_sent ∙ same.sent;
      }
  conclude_open-Outcome s rest j head same _ p =
      Ensures-weaken (open_refused g sender sender_ch buffer j)
        (λ r a.
          refused ctype sender_ch rest head (λ permitted. cc (p.1 permitted)) a.0
            (from_untouched a.1))
        (open_refused-refuses j)
    where
      from_untouched :
          {t : Session} → IsRefused sender sender_ch j.session t → IsRefused sender sender_ch s t
      from_untouched o = record {
        code = o.code;
        message = o.message;
        told = rw (← same.sent) (o.told);
        same_channels = o.same_channels ∙ same.channels;
        same_id = o.same_id ∙ same.uniq_channel_id;
      }

pub channel_open-Outcome :
    (g : Gateway) (sender : Side) (buffer : Bytes) (s : Session)
    → Ensures (Outcome g sender buffer s) (channel_open g sender buffer s)
unfolding channel_open
channel_open-Outcome g sender buffer s =
    Ensures-if (is_empty buffer) _ _ (λ e. Ensures-done _ (empty e refl refl))
      λ _. Ensures-need (g.wire.get_cstring buffer) _ λ (ctype, r1) e1.
        Ensures-need (g.wire.get_u32 r1) _ λ (sender_ch, r2) e2.
          Ensures-need (g.wire.get_u32 r2) _ λ (window, r3) e3.
            Ensures-need (g.wire.get_u32 r3) _ λ (packet, rest) e4.
              Ensures-bind (judge_open g sender ctype rest s) _ λ j e.
                let sound = (judge_open-IsSound g sender ctype rest s).at j e in
                let head : Header g buffer ctype sender_ch rest = record {
                  window = window;
                  packet = packet;
                  r1 = r1;
                  r2 = r2;
                  r3 = r3;
                  reads_ctype = e1;
                  reads_sender_ch = e2;
                  reads_window = e3;
                  reads_packet = e4;
                } in
                conclude_open-Outcome g sender ctype sender_ch buffer s rest j head sound.0 j.resp (
                  sound.1,
                  λ permitted. (judge_open_complete g sender rest s ctype permitted).at j e,
                )
