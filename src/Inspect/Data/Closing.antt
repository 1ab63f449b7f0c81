-- ===== src/Inspect/Data/Closing.antt =====
-- How a channel is closed, and what `susshi_inspect_channel_data` counts and rewrites.
use susshi.Prelude.{
  ℕ, ◌+◌, ◌≡◌, ◌≢◌, ◌⊎◌, inl, inr, ==_iff, refl, ◌∙◌, ap, Bool, true, false, Option, none, some,
  is_empty, get_elem?, get_elem?-set_self, get_elem?-set_ne, get_elem?-lt, ◌==◌, if◌then◌else◌,
}
use susshi.Result.{done, ◌>>=◌}
use susshi.Result.Ensures.{Ensures, Ensures-done, Ensures-if, Ensures-bind, Ensures-need}
use susshi.Session.{Side, the_other_side, no_channel, Channel, Report, Session}
use susshi.Gateway.{Bytes, Gateway}
use susshi.Channels.Table.{deref, channel_at, update_channel, free_channel}
use susshi.Channels.Alloc.{update_channel_lem, free_channel-IsRemoved}
use susshi.Inspect.Reply.{Reply, rewrite_if_proxied}
use susshi.Inspect.Data.{
  is_sftp, free_sftp_session, finish_close, on_close, by_opener_first, channel_close,
}
use susshi.Inspect.Data.Named.{Nobody, IsNamed, by_opener_first-IsNamed, by_opener_first-Nobody}

-- What was read stands in the slot.
channel_at_lem :
    (i : ℕ) (s : Session) (c : Channel)
    → channel_at i s ≡ done c
    → get_elem? s.channels i ≡ some (some c)
unfolding channel_at
channel_at_lem i s c h = by_slot (get_elem? s.channels i) h
  where
    by_slot : (o : Option (Option Channel)) → deref o ≡ done c → o ≡ some (some c)
    by_slot none e = cc
    by_slot (some none) e = cc
    by_slot (some (some d)) e = cc

-- `t` is `s` with other contents in slot `i`, and nothing is counted.
pub record ChangesSlot (i : ℕ) (o : Option Channel) (s t : Session) : Type 0 where
  pub now : get_elem? t.channels i ≡ some o
  pub others : (j : ℕ) → i ≢ j → get_elem? t.channels j ≡ get_elem? s.channels j
  pub same_report : t.report ≡ s.report
  pub same_id : t.uniq_channel_id ≡ s.uniq_channel_id

ChangesSlot-trans :
    {i : ℕ} {o p : Option Channel} {s t u : Session}
    → ChangesSlot i o s t
    → ChangesSlot i p t u
    → ChangesSlot i p s u
ChangesSlot-trans a b = record {
  now = b.now;
  others = λ j ne. b.others j ne ∙ a.others j ne;
  same_report = b.same_report ∙ a.same_report;
  same_id = b.same_id ∙ a.same_id;
}

update_channel-ChangesSlot :
    (s : Session) (i : ℕ) (f : Channel → Channel) (c : Channel)
    → get_elem? s.channels i ≡ some (some c)
    → Ensures (ChangesSlot i (some (f c)) s) (update_channel i f s)
update_channel-ChangesSlot s i f c used = rw (update_channel_lem s i f c used) (
    Ensures-done _ record {
      now = get_elem?-set_self s.channels i (some (f c)) (get_elem?-lt s.channels i (some c) used);
      others = λ j ne. get_elem?-set_ne s.channels i j (some (f c)) ne;
      same_report = refl;
      same_id = refl;
    })

free_channel-ChangesSlot :
    (s : Session) (i : ℕ) (c : Channel)
    → get_elem? s.channels i ≡ some (some c)
    → Ensures (ChangesSlot i none s) (free_channel i s)
free_channel-ChangesSlot s i c used =
    let (t, e, removed, same) = free_channel-IsRemoved s i c used in
    rw e (
      Ensures-done t record {
        now = removed.gone;
        others = removed.others;
        same_report = ap (λ (u : Session). u.report) same;
        same_id = ap (λ (u : Session). u.uniq_channel_id) same;
      })

-- The channel that a first CLOSE leaves: its state is the number of the message. The code that
-- means to free the session of an SFTP channel leaves it with one.
abbrev pub closing : Channel → Channel
closing c = record c {
  state = 97;
  has_sftp_session = if is_sftp c.logging then true else c.has_sftp_session;
}

-- How the handler can return.
pub data Closing (g : Gateway) (sender : Side) (buffer : Bytes) (s : Session) (r : Reply)
    : Type 0 where
  empty : is_empty buffer ≡ true → r.forward ≡ false → r.session ≡ s → Closing g sender buffer s r
  not_found :
      (recipient_channel : ℕ) (rest : Bytes)
      → g.wire.get_u32 buffer ≡ some (recipient_channel, rest)
      → Nobody (the_other_side sender) recipient_channel no_channel s
      → Nobody sender no_channel recipient_channel s
      → r ≡ record { forward = true; buffer = buffer; session = s }
      → Closing g sender buffer s r
  first :
      (recipient_channel : ℕ) (rest : Bytes) (i : ℕ) (c : Channel)
      → g.wire.get_u32 buffer ≡ some (recipient_channel, rest)
      → IsNamed sender recipient_channel s i c
      → get_elem? s.channels i ≡ some (some c)
      → c.state ≢ 97
      → r.forward ≡ true
      → ChangesSlot i (some (closing c)) s r.session
      → Closing g sender buffer s r
  second :
      (recipient_channel : ℕ) (rest : Bytes) (i : ℕ) (c : Channel) (t : Session)
      → g.wire.get_u32 buffer ≡ some (recipient_channel, rest)
      → IsNamed sender recipient_channel s i c
      → get_elem? s.channels i ≡ some (some c)
      → c.state ≡ 97
      → r.forward ≡ true
      → ChangesSlot i none s t
      → r.session
        ≡ record t { report = record s.report { channels_closed = s.report.channels_closed + 1 } }
      → Closing g sender buffer s r

module _ (g : Gateway) (sender : Side) (buffer : Bytes) (s : Session) (i : ℕ) (c : Channel) where
  abbrev with_session : Channel
  with_session = record c {
    has_sftp_session = if is_sftp c.logging then true else c.has_sftp_session;
  }

  -- What happens to the session of an SFTP channel.
  sftp-ChangesSlot :
      get_elem? s.channels i ≡ some (some c)
      → Ensures
          (ChangesSlot i (some with_session) s)
          (if is_sftp c.logging then free_sftp_session g i s else done s)
  unfolding free_sftp_session
  sftp-ChangesSlot used = by_kind (is_sftp c.logging)
    where
      by_kind :
          (b : Bool)
          → Ensures
              (ChangesSlot i
                (some (record c { has_sftp_session = if b then true else c.has_sftp_session }))
                s)
              (if b then free_sftp_session g i s else done s)
      by_kind true =
          update_channel-ChangesSlot s i (λ d. record d { has_sftp_session = true }) c used
      by_kind false =
          Ensures-done s
            record { now = used; others = λ j ne. refl; same_report = refl; same_id = refl }

  -- What the second half of the handler leads to.
  abbrev Finished : Session → Type 0
  Finished u =
      ((c.state ≢ 97) × ChangesSlot i (some (closing c)) s u)
      ⊎ ((c.state ≡ 97)
          × (t : Session) × ChangesSlot i none s t
          × (u ≡ record t {
            report = record s.report { channels_closed = s.report.channels_closed + 1 };
          }))

  finish_close-Finished :
      (t : Session)
      → ChangesSlot i (some with_session) s t
      → Ensures Finished (finish_close g i c t)
  finish_close-Finished t step =
      Ensures-if (c.state == 97) _ _
        (λ e. Ensures-bind (free_channel i t) _ λ u eu.
          let freed =
            ChangesSlot-trans step ((free_channel-ChangesSlot t i with_session step.now).at u eu) in
          Ensures-done _ (
            inr (
              (==_iff c.state 97).0 e,
              u,
              freed,
              ap
                  (λ (r : Report). record u {
                    report = record r { channels_closed = r.channels_closed + 1 };
                  })
                  freed.same_report,
            )))
        (λ e.
          let marked =
            update_channel-ChangesSlot t i (λ d. record d { state = 97 }) with_session step.now in
          record {
            at = λ u eu.
                inl (λ h. cc (e, (==_iff c.state 97).1 h), ChangesSlot-trans step (marked.at u eu));
          })

  closes :
      (ch : ℕ) (rest : Bytes)
      → g.wire.get_u32 buffer ≡ some (ch, rest)
      → IsNamed sender ch s i c
      → get_elem? s.channels i ≡ some (some c)
      → (t : Session) (b : Bytes) → ChangesSlot i (some with_session) s t
      → Ensures
          (Closing g sender buffer s)
          (finish_close g i c t >>= λ u. done (record { forward = true; buffer = b; session = u }))
  closes ch rest reads meant used t b step =
      Ensures-bind (finish_close g i c t) _
        λ u e. Ensures-done _ (by_state u ((finish_close-Finished t step).at u e))
    where
      by_state :
          (u : Session)
          → Finished u
          → Closing g sender buffer s (record { forward = true; buffer = b; session = u })
      by_state u (inl (ne, marked)) = first ch rest i c reads meant used ne refl marked
      by_state u (inr (eq, v, freed, same)) =
          second ch rest i c v reads meant used eq refl freed same

-- A CLOSE message that the gateway handles is forwarded, unless it is empty. It is about the first
-- channel that the other side opened with the message's number or else the first one that the
-- sender opened and that got this number from its peer; if there is none, nothing changes. The first
-- message for a channel marks it as closing, the second one frees its slot and counts it as closed;
-- no other channel changes.
pub channel_close-Closing :
    (g : Gateway) (sender : Side) (buffer : Bytes) (s : Session)
    → Ensures (Closing g sender buffer s) (channel_close g sender buffer s)
unfolding channel_close on_close
channel_close-Closing g sender buffer s =
    Ensures-if (is_empty buffer) _ _ (λ e. Ensures-done _ (empty e refl refl))
      λ _.
        Ensures-need (g.wire.get_u32 buffer) _
          λ (ch, rest) e1. by_lookup ch rest e1 (by_opener_first g sender ch s) refl
  where
    by_lookup :
        (ch : ℕ) (rest : Bytes)
        → g.wire.get_u32 buffer ≡ some (ch, rest)
        → (o : Option ℕ) → by_opener_first g sender ch s ≡ o
        → Ensures (Closing g sender buffer s) (on_close g o sender buffer s)
    by_lookup ch rest e none found =
        let (no_opener, no_peer) = by_opener_first-Nobody g sender ch s found in
        Ensures-done _ (not_found ch rest e no_opener no_peer refl)
    by_lookup ch rest e (some i) found = Ensures-bind (channel_at i s) _ λ c ec.
        let used = channel_at_lem i s c ec in
        Ensures-bind (if is_sftp c.logging then free_sftp_session g i s else done s) _ λ t et.
          Ensures-bind (rewrite_if_proxied sender buffer c) _ λ b eb.
            closes g sender buffer s i c ch rest e
              (by_opener_first-IsNamed g sender ch s i c found used) used t b
              ((sftp-ChangesSlot g sender buffer s i c used).at t et)
