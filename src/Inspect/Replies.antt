-- ===== src/Inspect/Replies.antt =====
-- The handlers of src/susshid/inspect-channel.c and inspect-packet.c that only look a channel up
-- or pass a message on: success, failure, window adjustment, end of file, debug, disconnect and
-- unimplemented messages.
pub mod Goes
use susshi.Prelude.{ℕ, Bool, true, false, not, Option, none, some, is_empty, if◌then◌else◌}
use susshi.Result.{Result, done, stop, fatal, disconnected, need, ◌>>=◌}
use susshi.Session.{Side, is_client, the_other_side, Session, no_channel}
use susshi.Gateway.{Bytes, Gateway}
use susshi.Channels.Table.{find_channel, channel_at}
use susshi.Inspect.Reply.{Reply, reply, session_of, rewrite_if_proxied}
use susshi.Inspect.Data.{by_peer_first, by_opener_first}

module _ (g : Gateway) where
  abbrev pass_on : ℕ → Side → Bytes → Session → Result Reply
  pass_on cid sender buffer s = do
    c ← channel_at cid s
    buffer' ← rewrite_if_proxied sender buffer c
    reply true buffer' s

  -- While the gateway replays a session to the target, the target's replies are held back.
  pub on_reply : Option ℕ → Side → Bytes → Session → Result Reply
  on_reply none sender buffer s = stop fatal
  on_reply (some cid) sender buffer s =
      if s.paa_target_replay_phase then reply false buffer s else pass_on cid sender buffer s

  pub channel_success : Side → Bytes → Session → Result Reply
  unfolding on_reply
  channel_success sender buffer s = if is_empty buffer then reply false buffer s else do
    (recipient_channel, r) ← need (g.wire.get_u32 buffer)
    on_reply (find_channel (the_other_side sender) recipient_channel no_channel s) sender buffer s

  pub channel_failure : Side → Bytes → Session → Result Reply
  unfolding on_reply
  channel_failure sender buffer s = if is_empty buffer then reply false buffer s else do
    (recipient_channel, r) ← need (g.wire.get_u32 buffer)
    on_reply (by_opener_first g sender recipient_channel s) sender buffer s

  abbrev adjust : Option ℕ → Side → Bytes → Session → Result Reply
  adjust none sender buffer s = stop fatal
  adjust (some cid) sender buffer s = pass_on cid sender buffer s

  pub channel_window_adjust : Side → Bytes → Session → Result Reply
  channel_window_adjust sender buffer s = if is_empty buffer then reply false buffer s else do
    (recipient_channel, r1) ← need (g.wire.get_u32 buffer)
    (radd, r2) ← need (g.wire.get_u32 r1)
    adjust (by_peer_first g sender recipient_channel s) sender buffer s

  abbrev end_of_file : Option ℕ → Side → Bytes → Session → Result Reply
  end_of_file none sender buffer s = reply true buffer s
  end_of_file (some cid) sender buffer s = pass_on cid sender buffer s

  pub channel_eof : Side → Bytes → Session → Result Reply
  channel_eof sender buffer s = if is_empty buffer then reply false buffer s else do
    (recipient_channel, r) ← need (g.wire.get_u32 buffer)
    end_of_file (by_peer_first g sender recipient_channel s) sender buffer s

  pub debug_message : Side → Bytes → Session → Result Reply
  debug_message sender buffer s = if is_empty buffer then reply false buffer s else do
    (displ, r1) ← need (g.wire.get_u8 buffer)
    (msg, r2) ← need (g.wire.get_cstring r1)
    (lang, r3) ← need (g.wire.get_cstring r2)
    reply true buffer s

  -- A target that disconnects ends the process: the client is told and the session closed.
  pub disconnect : Side → Bytes → Session → Result Reply
  disconnect sender buffer s = if is_empty buffer then reply false buffer s else do
    (reasonc, r1) ← need (g.wire.get_u32 buffer)
    (msg, r2) ← need (g.wire.get_cstring r1)
    if is_client sender
        then reply true buffer (record s { client_closed = true })
        else stop disconnected

  -- In a key exchange after authentication the message is not forwarded.
  pub unimplemented_message : Side → Bytes → Session → Result Reply
  unimplemented_message sender buffer s = if is_empty buffer then reply false buffer s else do
    (seq, r) ← need (g.wire.get_u32 buffer)
    reply (not (g.wire.rekeying (session_of sender))) buffer s
