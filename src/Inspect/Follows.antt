-- ===== src/Inspect/Follows.antt =====
-- What no handler of src/susshid/inspect-channel.c undoes or touches, as a relation between the
-- session before and after. `susshi_inspect_packet` alone counts the bytes of packets.
use susshi.Prelude.{
  ℕ, ◌≤◌, ◌≡◌, ◌⊎◌, refl, Bool, true, false, Option, some, length, set, arith, length-set, inl, inr,
  if◌then◌else◌,
}
use susshi.Result.{Result, done, ◌>>=◌}
use susshi.Result.Ensures.{Ensures, Ensures-done, Ensures-if, Ensures-bind, Ensures-weaken}
use susshi.Session.{Side, Channel, Report, Sent, Session}
use susshi.Gateway.{Bytes, Gateway, Inspectors, TermSize}
use susshi.Channels.Table.{alloc_new_channel, free_channel, update_channel, channel_at}
use susshi.Slots.{release}
use susshi.Slots.Laws.{InTens, InTens-same, InTens-trans, length-release}
use susshi.Channels.Alloc.{alloc_new_channel-IsAdded}
use susshi.Inspect.Reply.{Reply, transmit, transmit-eq_done}

pub record SameBytes (a b : Report) : Type 0 where
  pub client_in : b.client_in_bytes ≡ a.client_in_bytes
  pub client_out : b.client_out_bytes ≡ a.client_out_bytes
  pub target_in : b.target_in_bytes ≡ a.target_in_bytes
  pub target_out : b.target_out_bytes ≡ a.target_out_bytes

pub record Follows (s t : Session) : Type 0 where
  pub sessions_stay_closed : (s.no_more_sessions ≡ false) ⊎ (t.no_more_sessions ≡ true)
  pub ids_grow : s.uniq_channel_id ≤ t.uniq_channel_id
  pub in_tens : InTens (length s.channels) (length t.channels)
  pub same_bytes : SameBytes s.report t.report

pub Follows-refl : (s : Session) → Follows s s
Follows-refl s = record {
  sessions_stay_closed = by_flag s.no_more_sessions;
  ids_grow = omega arith;
  in_tens = (0, omega arith);
  same_bytes = omega arith;
}
  where
    by_flag : (b : Bool) → (b ≡ false) ⊎ (b ≡ true)
    by_flag true = inr refl
    by_flag false = inl refl

pub Follows-trans : {s t u : Session} → Follows s t → Follows t u → Follows s u
Follows-trans {s} {t} {u} f h = record {
  sessions_stay_closed = ground (arith, f.sessions_stay_closed, h.sessions_stay_closed);
  ids_grow = omega (arith, f.ids_grow, h.ids_grow);
  in_tens =
      InTens-trans (length s.channels) (length t.channels) (length u.channels) f.in_tens h.in_tens;
  same_bytes = omega (arith, f.same_bytes, h.same_bytes);
}

-- The handlers' results, and those of the actions that they call.
abbrev pub Goes : Session → Result Reply → Type 0
Goes s m = Ensures (λ r. Follows s r.session) m

abbrev pub GoesOn : Session → Result Session → Type 0
GoesOn s m = Ensures (Follows s) m

-- The size of the table, the numbers and flags of the session that handlers alone write, and the
-- counters of packets are the same.
pub record IsQuiet (s t : Session) : Type 0 where
  pub same_flag : t.no_more_sessions ≡ s.no_more_sessions
  pub same_id : t.uniq_channel_id ≡ s.uniq_channel_id
  pub same_size : length t.channels ≡ length s.channels
  pub same_bytes : SameBytes s.report t.report

abbrev pub Quietly : Session → Result Session → Type 0
Quietly s m = Ensures (IsQuiet s) m

-- What is asked of the inspectors that other files implement: they leave the table's size, the
-- numbering of channels, the refusal of sessions and the counters of packets alone.
pub record Lawful (i : Inspectors) : Type 0 where
  pub scp : (cid : ℕ) (d : Side) (b : Bytes) (s : Session) → Quietly s (i.scp_data cid d b s)
  pub new_sftp : (cid : ℕ) (b : Bytes) (s : Session) → Quietly s (i.new_sftp_session cid b s)
  pub sftp : (cid : ℕ) (d : Side) (b : Bytes) (s : Session) → Quietly s (i.sftp_packet cid d b s)
  pub pfwd :
      (cid : ℕ) (d : Side) (b : Bytes) (s : Session)
      → Ensures (λ p. IsQuiet s p.1) (i.pfwd_data cid d b s)
  pub x11 : (cid : ℕ) (d : Side) (b : Bytes) (s : Session) → Quietly s (i.x11_data cid d b s)
  pub agent : (cid : ℕ) (d : Side) (b : Bytes) (s : Session) → Quietly s (i.agent_data cid d b s)
  pub socket :
      (cid : ℕ) (d : Side) (b : Bytes) (s : Session) → Quietly s (i.socketfwd_data cid d b s)
  pub target : (cid : ℕ) (b : Bytes) (s : Session) → Quietly s (i.log_target_output cid b s)
  pub client : (cid : ℕ) (b : Bytes) (s : Session) → Quietly s (i.log_client_input cid b s)
  pub timing : (cid : ℕ) (t : Option TermSize) (s : Session) → Quietly s (i.log_timing cid t s)
  pub hostkeys : (b : Bytes) (s : Session) → Quietly s (i.prove_hostkeys b s)

module _ {s : Session} where
  -- One action after another.
  pub then-Goes :
      {t : Session} (m : Result Session) (f : Session → Result Reply)
      → Follows s t
      → GoesOn t m
      → ((u : Session) → Follows s u → Goes s (f u))
      → Goes s (m >>= f)
  then-Goes m f st go k = Ensures-bind m f (λ u e. k u (Follows-trans st (go.at u e)))

  pub then-GoesOn :
      {t : Session} (m : Result Session) (f : Session → Result Session)
      → Follows s t
      → GoesOn t m
      → ((u : Session) → Follows s u → GoesOn s (f u))
      → GoesOn s (m >>= f)
  then-GoesOn m f st go k = Ensures-bind m f (λ u e. k u (Follows-trans st (go.at u e)))

pub goes_if :
    {s : Session} (b : Bool) (m n : Result Session)
    → GoesOn s m
    → GoesOn s n
    → GoesOn s (if b then m else n)
goes_if b m n t e = Ensures-if b m n (λ _. t) (λ _. e)

-- The fields that the relation reads are the same.
pub unchanged :
    (s t : Session)
    → t.no_more_sessions ≡ s.no_more_sessions
    → t.uniq_channel_id ≡ s.uniq_channel_id
    → length t.channels ≡ length s.channels
    → t.report.client_in_bytes ≡ s.report.client_in_bytes
    → t.report.client_out_bytes ≡ s.report.client_out_bytes
    → t.report.target_in_bytes ≡ s.report.target_in_bytes
    → t.report.target_out_bytes ≡ s.report.target_out_bytes
    → Follows s t
unchanged s t e1 e2 e3 e4 e5 e6 e7 = record {
  sessions_stay_closed = rw e1 ((Follows-refl s).sessions_stay_closed);
  ids_grow = omega arith;
  in_tens = InTens-same (length s.channels) (length t.channels) e3;
  same_bytes = record { client_in = e4; client_out = e5; target_in = e6; target_out = e7 };
}

pub IsQuiet-Follows : {s t : Session} → IsQuiet s t → Follows s t
IsQuiet-Follows {s} {t} q =
    unchanged s t q.same_flag q.same_id q.same_size q.same_bytes.client_in q.same_bytes.client_out
      q.same_bytes.target_in q.same_bytes.target_out

pub quiet : {s : Session} {m : Result Session} → Quietly s m → GoesOn s m
quiet {m = m} q = Ensures-weaken m (λ t. IsQuiet-Follows) q

pub update_channel-GoesOn :
    (i : ℕ) (f : Channel → Channel) (s : Session) → GoesOn s (update_channel i f s)
unfolding update_channel
update_channel-GoesOn i f s = Ensures-bind (channel_at i s) _ λ c e. Ensures-done _ (
    unchanged s (record s { channels = set s.channels i (some (f c)) }) refl refl (rw length-set)
      refl refl refl refl)

pub transmit-GoesOn : (g : Gateway) (p : Sent) (s : Session) → GoesOn s (transmit g p s)
transmit-GoesOn g p s = record {
  at = λ t e. rw (transmit-eq_done g p s t e) (unchanged s _ refl refl refl refl refl refl refl);
}

pub free_channel-GoesOn : (i : ℕ) (s : Session) → GoesOn s (free_channel i s)
unfolding free_channel
free_channel-GoesOn i s = Ensures-bind (release i s.channels) _ λ slots e. Ensures-done _ (
    unchanged s (record s { channels = slots }) refl refl (rw (length-release s.channels i slots e))
      refl refl refl refl)

pub alloc_new_channel-Follows :
    (s t : Session) (i : ℕ) → alloc_new_channel s ≡ done (i, t) → Follows s t
alloc_new_channel-Follows s t i e =
    let (added, same) = alloc_new_channel-IsAdded s t i e in
    rw same record {
      sessions_stay_closed = (Follows-refl s).sessions_stay_closed;
      ids_grow = (Follows-refl s).ids_grow;
      in_tens = added.in_tens;
      same_bytes = (Follows-refl s).same_bytes;
    }

pub Follows-if :
    {s : Session} (b : Bool) (t u : Session)
    → Follows s t
    → Follows s u
    → Follows s (if b then t else u)
Follows-if true t u ft fu = ft
Follows-if false t u ft fu = fu

-- A change of the report that leaves the counters of bytes alone.
pub tally-Follows :
    (s : Session) (f : Report → Report)
    → SameBytes s.report (f s.report)
    → Follows s (record s { report = f s.report })
tally-Follows s f b = record {
  sessions_stay_closed = (Follows-refl s).sessions_stay_closed;
  ids_grow = omega arith;
  in_tens = (0, omega arith);
  same_bytes = b;
}
