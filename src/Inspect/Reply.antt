-- ===== src/Inspect/Reply.antt =====
-- What the handlers of src/susshid/inspect-channel.c share: their result, the packets that the
-- gateway sends itself, and the rewriting of channel numbers on proxied channels.
pub mod Rewrite
mod Tests
use susshi.Prelude.{
  ℕ, ◌+◌, ◌*◌, ◌/◌, ◌%◌, ◌^◌, ◌≡◌, Bool, arith, Option, none, some, List, [], ◌∷◌, if◌then◌else◌,
}
use susshi.Result.{Result, done, stop, fatal, crash}
use susshi.Session.{Side, client, target, is_client, Channel, Report, Sent, Session}
use susshi.Gateway.{Bytes, Gateway}

-- `forward` is what a handler returns (its caller copies the packet to the other side if true),
-- `buffer` the packet as the handler leaves it.
pub record Reply : Type 0 where
  pub forward : Bool
  pub buffer : Bytes
  pub session : Session

abbrev pub reply : Bool → Bytes → Session → Result Reply
reply forward buffer session =
    done (record { forward = forward; buffer = buffer; session = session })

-- `(sender == CLIENT) ? client_session : target_session`
abbrev pub session_of : Side → Side
session_of sender = if is_client sender then client else target

unfoldable pub transmit : Gateway → Sent → Session → Result Session
transmit g packet s =
    if g.wire.sends packet then done (record s { sent = packet ∷ s.sent }) else stop fatal

-- A packet that the gateway writes is added to those sent, and nothing else changes.
pub transmit-eq_done :
    (g : Gateway) (p : Sent) (s s' : Session)
    → transmit g p s ≡ done s'
    → s' ≡ record s { sent = p ∷ s.sent }
unfolding transmit
transmit-eq_done g p s s' h = ground arith

abbrev pub tally : (Report → Report) → Session → Session
tally f s = record s { report = f s.report }

-- The byte swap of `htonl` on a little-endian host.
unfoldable pub htonl : ℕ → ℕ
htonl v =
    v % 2 ^ 8 * 2 ^ 24
    + v / 2 ^ 8 % 2 ^ 8 * 2 ^ 16
    + v / 2 ^ 16 % 2 ^ 8 * 2 ^ 8
    + v / 2 ^ 24 % 2 ^ 8

-- The least significant byte comes first. There is no check of the buffer's length.
unfoldable pub buffer_put_u32 : Bytes → ℕ → Result Bytes
buffer_put_u32 (a ∷ b ∷ c ∷ d ∷ rest) v =
    done (v % 2 ^ 8 ∷ v / 2 ^ 8 % 2 ^ 8 ∷ v / 2 ^ 16 % 2 ^ 8 ∷ v / 2 ^ 24 % 2 ^ 8 ∷ rest)
buffer_put_u32 _ v = stop crash

unfoldable pub rewrite_recipientch : Side → Bytes → Channel → Result Bytes
rewrite_recipientch sender buffer c =
    buffer_put_u32 buffer (htonl (if is_client sender then c.provider_ch else c.requestor_ch))

unfoldable pub rewrite_if_proxied : Side → Bytes → Channel → Result Bytes
rewrite_if_proxied sender buffer c =
    if c.proxied_channel then rewrite_recipientch sender buffer c else done buffer
