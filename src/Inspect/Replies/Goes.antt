-- ===== src/Inspect/Replies/Goes.antt =====
-- The relation `Follows` for the messages that are only passed on.
use susshi.Prelude.{ℕ, refl, false, Option, none, some, is_empty, if◌then◌else◌}
use susshi.Result.{Result, fatal, disconnected}
use susshi.Result.Ensures.{Ensures-done, Ensures-stop, Ensures-if, Ensures-bind, Ensures-need}
use susshi.Session.{Side, is_client, the_other_side, Session, no_channel}
use susshi.Gateway.{Bytes, Gateway}
use susshi.Channels.Table.{find_channel, channel_at}
use susshi.Inspect.Reply.{Reply, reply, rewrite_if_proxied}
use susshi.Inspect.Data.{by_peer_first, by_opener_first}
use susshi.Inspect.Replies.{
  pass_on, on_reply, channel_success, channel_failure, adjust, channel_window_adjust, end_of_file,
  channel_eof, debug_message, disconnect, unimplemented_message,
}
use susshi.Inspect.Follows.{Follows-refl, Goes, unchanged}

module _ (g : Gateway) where
  pass_on-Goes :
      (cid : ℕ) (sender : Side) (buffer : Bytes) (s : Session)
      → Goes s (pass_on g cid sender buffer s)
  pass_on-Goes cid sender buffer s = Ensures-bind (channel_at cid s) _ λ c e.
      Ensures-bind (rewrite_if_proxied sender buffer c) _ λ b e1. Ensures-done _ (Follows-refl s)

  on_reply-Goes :
      (found : Option ℕ) (sender : Side) (buffer : Bytes) (s : Session)
      → Goes s (on_reply g found sender buffer s)
  unfolding on_reply
  on_reply-Goes none sender buffer s = Ensures-stop fatal
  on_reply-Goes (some cid) sender buffer s =
      Ensures-if s.paa_target_replay_phase _ _ (λ _. Ensures-done _ (Follows-refl s))
        (λ _. pass_on-Goes cid sender buffer s)

  adjust-Goes :
      (found : Option ℕ) (sender : Side) (buffer : Bytes) (s : Session)
      → Goes s (adjust g found sender buffer s)
  adjust-Goes none sender buffer s = Ensures-stop fatal
  adjust-Goes (some cid) sender buffer s = pass_on-Goes cid sender buffer s

  end_of_file-Goes :
      (found : Option ℕ) (sender : Side) (buffer : Bytes) (s : Session)
      → Goes s (end_of_file g found sender buffer s)
  end_of_file-Goes none sender buffer s = Ensures-done _ (Follows-refl s)
  end_of_file-Goes (some cid) sender buffer s = pass_on-Goes cid sender buffer s

  module _ (sender : Side) (buffer : Bytes) (s : Session) where
    -- An empty packet is dropped by every handler.
    or_empty :
        (m : Result Reply) → Goes s m → Goes s (if is_empty buffer then reply false buffer s else m)
    or_empty m go =
        Ensures-if (is_empty buffer) _ _ (λ _. Ensures-done _ (Follows-refl s)) (λ _. go)

    pub channel_success-Goes : Goes s (channel_success g sender buffer s)
    unfolding channel_success
    channel_success-Goes = or_empty _ (
        Ensures-need (g.wire.get_u32 buffer) _ (λ (ch, r) e.
          on_reply-Goes (find_channel (the_other_side sender) ch no_channel s) sender buffer s))

    pub channel_failure-Goes : Goes s (channel_failure g sender buffer s)
    unfolding channel_failure
    channel_failure-Goes = or_empty _ (
        Ensures-need (g.wire.get_u32 buffer) _
          (λ (ch, r) e. on_reply-Goes (by_opener_first g sender ch s) sender buffer s))

    pub channel_window_adjust-Goes : Goes s (channel_window_adjust g sender buffer s)
    unfolding channel_window_adjust
    channel_window_adjust-Goes = or_empty _ (
        Ensures-need (g.wire.get_u32 buffer) _ (λ (ch, r1) e.
          Ensures-need (g.wire.get_u32 r1) _
            (λ p e1. adjust-Goes (by_peer_first g sender ch s) sender buffer s)))

    pub channel_eof-Goes : Goes s (channel_eof g sender buffer s)
    unfolding channel_eof
    channel_eof-Goes = or_empty _ (
        Ensures-need (g.wire.get_u32 buffer) _
          (λ (ch, r) e. end_of_file-Goes (by_peer_first g sender ch s) sender buffer s))

    pub debug_message-Goes : Goes s (debug_message g sender buffer s)
    unfolding debug_message
    debug_message-Goes = or_empty _ (
        Ensures-need (g.wire.get_u8 buffer) _ (λ (displ, r1) e.
          Ensures-need (g.wire.get_cstring r1) _ (λ (msg, r2) e1.
            Ensures-need (g.wire.get_cstring r2) _ (λ p e2. Ensures-done _ (Follows-refl s)))))

    pub disconnect-Goes : Goes s (disconnect g sender buffer s)
    unfolding disconnect
    disconnect-Goes = or_empty _ (
        Ensures-need (g.wire.get_u32 buffer) _ (λ (reasonc, r1) e.
          Ensures-need (g.wire.get_cstring r1) _ (λ p e1.
            Ensures-if (is_client sender) _ _
              (λ _. Ensures-done _ (unchanged s _ refl refl refl refl refl refl refl))
              (λ _. Ensures-stop disconnected))))

    pub unimplemented_message-Goes : Goes s (unimplemented_message g sender buffer s)
    unfolding unimplemented_message
    unimplemented_message-Goes =
        or_empty _ (Ensures-need (g.wire.get_u32 buffer) _ (λ p e. Ensures-done _ (Follows-refl s)))
