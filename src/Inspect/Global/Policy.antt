-- ===== src/Inspect/Global/Policy.antt =====
-- Which GLOBAL REQUEST messages the gateway passes on, and what it does with the others.
use susshi.Prelude.{ℕ, String, ◌≡◌, ◌≢◌, true, false, some, ◌∷◌, is_empty}
use susshi.Result.Ensures.{Ensures}
use susshi.Session.{Side, is_client, ok, pending, Session, request_failure}
use susshi.Gateway.{Bytes, Gateway}
use susshi.Inspect.Reply.{Reply, session_of}
use susshi.Inspect.Global.{Verdict, respond, handled}
use susshi.Inspect.Global.Rules.{Granted, Unproved}

module _ (g : Gateway) (sender : Side) (rest : Bytes) (rname : String) (s : Session) where
  -- What holds of a verdict.
  abbrev Sound : Verdict → Type 0
  Sound (respond resp t) =
      (t.sent ≡ s.sent)
      × (resp ≡ ok → Granted g rest rname)
      × Unproved sender rname
      × (resp ≢ ok → ¬ Granted g rest rname)
  Sound (handled t) = (rname ≡ "hostkeys-prove-00@openssh.com") × (is_client sender ≡ true)

-- The fields in front of the data of the request's type.
pub record Header (g : Gateway) (buffer : Bytes) (rname : String) (rest : Bytes) : Type 0 where
  pub want_reply : ℕ
  pub r1 : Bytes
  pub reads_rname : g.wire.get_cstring buffer ≡ some (rname, r1)
  pub reads_want_reply : g.wire.get_u8 r1 ≡ some (want_reply, rest)

-- How the handler can return.
pub data Outcome (g : Gateway) (sender : Side) (buffer : Bytes) (s : Session) (r : Reply)
    : Type 0 where
  empty : is_empty buffer ≡ true → r.forward ≡ false → r.session ≡ s → Outcome g sender buffer s r
  passed_on :
      (rname : String) (rest : Bytes)
      → Header g buffer rname rest
      → Granted g rest rname
      → r.forward ≡ true
      → r.session.sent ≡ s.sent
      → r.session.global_req_state ≡ pending
      → Outcome g sender buffer s r
  hostkeys_proved :
      (rname : String) (rest : Bytes)
      → Header g buffer rname rest
      → rname ≡ "hostkeys-prove-00@openssh.com"
      → is_client sender ≡ true
      → r.forward ≡ false
      → Outcome g sender buffer s r
  refused :
      (rname : String) (rest : Bytes)
      → Header g buffer rname rest
      → ¬ Granted g rest rname
      → (rname ≡ "hostkeys-prove-00@openssh.com" → is_client sender ≡ false)
      → r.forward ≡ false
      → r.session.sent ≡ request_failure (session_of sender) ∷ s.sent
      → Outcome g sender buffer s r
