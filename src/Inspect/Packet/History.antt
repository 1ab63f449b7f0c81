-- ===== src/Inspect/Packet/History.antt =====
-- Sequences of packets through `susshi_inspect_packet` of src/susshid/inspect-packet.c.
use susshi.Prelude.{
  ℕ, ◌≤◌, String, ◌≡◌, ◌⊎◌, refl, ◌∙◌, ap, true, false, Option, some, is_empty, length, str_eq,
  eq_iff, starts_with, arith,
}
use susshi.Result.{done}
use susshi.Result.Ensures.{Ensures, Ensures-done, Ensures-bind, Ensures-weaken}
use susshi.Session.{Side, Session}
use susshi.Gateway.{Bytes, Gateway}
use susshi.Inspect.Reply.{Reply}
use susshi.Slots.Laws.{InTens, InTens-trans}
use susshi.Inspect.Follows.{Follows-refl, Lawful}
use susshi.Inspect.Global.{global_request}
use susshi.Inspect.Global.Closes.{closes_sessions, global_request-closes}
use susshi.Inspect.Open.{channel_open}
use susshi.Inspect.Open.Policy.{
  Permitted, session, local_forward, remote_forward, x11_display, agent, local_socket,
  remote_socket,
}
use susshi.Inspect.Open.Outcome.{Outcome, empty, opened_channel, refused, channel_open-Outcome}
use susshi.Inspect.Packet.{count_in, count_forwarded, dispatch, inspect_packet}
use susshi.Inspect.Packet.Dispatch.{dispatch-Goes}

-- What no packet undoes.
pub record Lasts (s t : Session) : Type 0 where
  pub sessions_stay_closed : (s.no_more_sessions ≡ false) ⊎ (t.no_more_sessions ≡ true)
  pub ids_grow : s.uniq_channel_id ≤ t.uniq_channel_id
  pub in_tens : InTens (length s.channels) (length t.channels)

-- The packets that the gateway handled one after the other.
pub data Run (g : Gateway) (s : Session) : Session → Type 0 where
  started : {t : Session} → t ≡ s → Run g s t
  handled :
      {t u : Session} (sender : Side) (type : ℕ) (buffer : Bytes) (r : Reply)
      → Run g s t
      → inspect_packet g sender type buffer t ≡ done r
      → u ≡ r.session
      → Run g s u

Lasts-refl : (s : Session) → Lasts s s
Lasts-refl s = record {
  sessions_stay_closed = (Follows-refl s).sessions_stay_closed;
  ids_grow = omega arith;
  in_tens = (0, omega arith);
}

Lasts-trans : {s t u : Session} → Lasts s t → Lasts t u → Lasts s u
Lasts-trans {s} {t} {u} f h = record {
  sessions_stay_closed = ground (arith, f.sessions_stay_closed, h.sessions_stay_closed);
  ids_grow = omega (arith, f.ids_grow, h.ids_grow);
  in_tens =
      InTens-trans (length s.channels) (length t.channels) (length u.channels) f.in_tens h.in_tens;
}

-- A string is not two different literals.
differs : {s a b : String} → s ≡ a → s ≡ b → str_eq a b ≡ false → ⊥
differs {b = b} ea eb h = cc (h, (eq_iff b b).1 refl, ea, eb)

count_in-fields :
    (sender : Side) (n : ℕ) (s : Session)
    → ((count_in sender n s).no_more_sessions ≡ s.no_more_sessions)
      × ((count_in sender n s).uniq_channel_id ≡ s.uniq_channel_id)
      × ((count_in sender n s).channels ≡ s.channels)
count_in-fields sender n s = ground arith

count_forwarded-fields :
    (sender : Side) (n : ℕ) (r : Reply)
    → ((count_forwarded sender n r).session.no_more_sessions ≡ r.session.no_more_sessions)
      × ((count_forwarded sender n r).session.uniq_channel_id ≡ r.session.uniq_channel_id)
      × ((count_forwarded sender n r).session.channels ≡ r.session.channels)
      × ((count_forwarded sender n r).forward ≡ r.forward)
count_forwarded-fields sender n r = ground arith

pub inspect_packet-Lasts :
    (g : Gateway)
    → Lawful g.inspect
    → (sender : Side) (type : ℕ) (buffer : Bytes) (s : Session)
    → Ensures (λ r. Lasts s r.session) (inspect_packet g sender type buffer s)
unfolding inspect_packet
inspect_packet-Lasts g lawful sender type buffer s =
    let s1 = count_in sender (length buffer) s in
    Ensures-bind (dispatch g sender type buffer s1) _ λ r e.
      let f = (dispatch-Goes g lawful sender type buffer s1).at r e in
      let before = count_in-fields sender (length buffer) s in
      let after = count_forwarded-fields sender (length buffer) r in
      Ensures-done _ record {
        sessions_stay_closed = ground (arith, f.sessions_stay_closed, before.0, after.0);
        ids_grow = omega (arith, f.ids_grow, before.1, after.1);
        in_tens = rw (after.2, ← before.2) (f.in_tens);
      }

-- Whatever packets follow, in any order and from either side: new sessions stay refused once they
-- are, the numbers of logged channels only grow, and the table of channels keeps its length or grows
-- by a multiple of ten.
pub Run-Lasts : (g : Gateway) → Lawful g.inspect → (s t : Session) → Run g s t → Lasts s t
Run-Lasts g lawful s t (started e) = rw e (Lasts-refl s)
Run-Lasts g lawful s u (handled {t} sender type buffer r run e eu) = rw eu (
    Lasts-trans (Run-Lasts g lawful s t run)
      ((inspect_packet-Lasts g lawful sender type buffer t).at r e))

is_session :
    (g : Gateway) (sender : Side) (rest : Bytes) (s : Session) (ctype : String)
    → s.no_more_sessions ≡ true
    → ctype ≡ "session"
    → ¬ Permitted g sender rest s ctype
is_session g sender rest s ctype closed e (session e1 c n) = cc
is_session g sender rest s ctype closed e (local_forward a p e1 l h) = differs e e1 refl
is_session g sender rest s ctype closed e (remote_forward a p e1 l h) = differs e e1 refl
is_session g sender rest s ctype closed e (x11_display e1) = differs e e1 refl
is_session g sender rest s ctype closed e (agent e1 h) =
    cc (e1, ap (λ t. starts_with t "auth-agent") e)
is_session g sender rest s ctype closed e (local_socket e1 h) = differs e e1 refl
is_session g sender rest s ctype closed e (remote_socket e1 h) = differs e e1 refl

-- The name that was read is the one that the packet starts with.
same_name :
    {o : Option (String × Bytes)} {a b : String} {x y : Bytes}
    → o ≡ some (a, x)
    → o ≡ some (b, y)
    → b ≡ a
same_name h k = cc

-- The message is refused, and the channels stay as they are.
channel_open-refuses_session :
    (g : Gateway) (sender : Side) (buffer : Bytes) (s : Session) (rest : Bytes)
    → s.no_more_sessions ≡ true
    → g.wire.get_cstring buffer ≡ some ("session", rest)
    → Ensures
        (λ r. (r.forward ≡ false) × (r.session.channels ≡ s.channels))
        (channel_open g sender buffer s)
channel_open-refuses_session g sender buffer s rest closed reads =
    Ensures-weaken (channel_open g sender buffer s) by_outcome
      (channel_open-Outcome g sender buffer s)
  where
    by_outcome :
        (r : Reply)
        → Outcome g sender buffer s r
        → (r.forward ≡ false) × (r.session.channels ≡ s.channels)
    by_outcome r (empty e f same) = (f, ap (λ (t : Session). t.channels) same)
    by_outcome r (opened_channel ctype ch left head p f o) =
        absurd (is_session g sender left s ctype closed (same_name reads head.reads_ctype) p)
    by_outcome r (refused ctype ch left head denied f o) = (f, o.same_channels)

-- The flag is set after the packet was counted too.
closing-closes :
    (g : Gateway) (sender : Side) (buffer : Bytes) (s : Session) (name : String) (rest : Bytes)
    → is_empty buffer ≡ false
    → g.wire.get_cstring buffer ≡ some (name, rest)
    → closes_sessions name ≡ true
    → Ensures (λ r. r.session.no_more_sessions ≡ true) (inspect_packet g sender 80 buffer s)
unfolding inspect_packet dispatch
closing-closes g sender buffer s name rest filled reads closes =
    let n = length buffer in
    Ensures-bind (global_request g sender buffer (count_in sender n s)) _ λ r e.
      let closed =
        (global_request-closes g sender buffer (count_in sender n s) name rest filled reads
            closes).at
          r e in
      Ensures-done _ ((count_forwarded-fields sender n r).0 ∙ closed.1)

-- Once a peer has said that no more sessions follow, no CHANNEL OPEN message of type "session" is
-- forwarded and none adds a channel, whatever packets come between the two, from either side.
pub no_session_after_closing :
    (g : Gateway)
    → Lawful g.inspect
    → (closer opener : Side) (closing opening : Bytes) (name : String) (rest left : Bytes)
    → (s t : Session) (r : Reply) → is_empty closing ≡ false
    → g.wire.get_cstring closing ≡ some (name, rest)
    → closes_sessions name ≡ true
    → inspect_packet g closer 80 closing s ≡ done r
    → Run g r.session t
    → g.wire.get_cstring opening ≡ some ("session", left)
    → Ensures
        (λ u. (u.forward ≡ false) × (u.session.channels ≡ t.channels))
        (inspect_packet g opener 90 opening t)
unfolding inspect_packet dispatch
no_session_after_closing g lawful closer opener closing opening name rest left s t r filled reads
      closes e run opens =
    let closed : r.session.no_more_sessions ≡ true =
      (closing-closes g closer closing s name rest filled reads closes).at r e in
    let lasting : t.no_more_sessions ≡ true =
      ground (arith, (Run-Lasts g lawful r.session t run).sessions_stay_closed, closed) in
    let n = length opening in
    let before = count_in-fields opener n t in
    Ensures-bind (channel_open g opener opening (count_in opener n t)) _ λ u eu.
      let (f, same) =
        (channel_open-refuses_session g opener opening (count_in opener n t) left
            (before.0 ∙ lasting) opens).at
          u eu in
      let after = count_forwarded-fields opener n u in
      Ensures-done _ (after.3 ∙ f, after.2 ∙ same ∙ before.2)
