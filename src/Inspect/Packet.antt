-- ===== src/Inspect/Packet.antt =====
-- `susshi_inspect_packet` of src/susshid/inspect-packet.c. The numbers of the messages are those of
-- RFC 4250, which libssh defines.
mod Dispatch
pub mod Accounting
pub mod History
mod Tests
use susshi.Prelude.{
  ℕ, ◌+◌, ◌%◌, ◌^◌, Bool, true, false, ◌&&◌, ◌||◌, List, length, leb, ◌==◌, if◌then◌else◌,
}
use susshi.Result.{Result, done, stop, ◌>>=◌}
use susshi.Session.{Side, is_client, Report, Session}
use susshi.Gateway.{Bytes, Gateway}
use susshi.Inspect.Reply.{Reply, reply, tally}
use susshi.Inspect.Global.{global_request, request_success}
use susshi.Inspect.Open.{channel_open}
use susshi.Inspect.Confirm.{channel_open_confirm, channel_open_failure}
use susshi.Inspect.Data.{channel_data, channel_close}
use susshi.Inspect.ChannelRequest.{channel_request}
use susshi.Inspect.Replies.{
  channel_success, channel_failure, channel_window_adjust, channel_eof, debug_message, disconnect,
  unimplemented_message,
}

-- RANGE1 is 1 to 6 and RANGE2 50 to 100.
pub in_susshi_range : ℕ → Bool
in_susshi_range type = leb 1 type && leb type 6 || leb 50 type && leb type 100

abbrev outside_ranges : ℕ → Bool
outside_ranges type = (leb type 1 || leb 6 type) && (leb type 50 || leb 100 type)

-- The default case of the switch: three branches, the last two of which forward.
pub inspect_default : ℕ → Bool
unfolding in_susshi_range
inspect_default type =
    if in_susshi_range type then false else if outside_ranges type then true else true

-- A response to a keepalive does not count as activity.
abbrev request_failure : Bytes → Session → Result Reply
request_failure buffer s =
    reply true buffer (tally (λ r. record r { update_last_io_time = false }) s)

abbrev pub count_in : Side → ℕ → Session → Session
count_in sender n s =
    if is_client sender
    then tally (λ r. record r { client_in_bytes = (r.client_in_bytes + n) % 2 ^ 64 }) s
    else tally (λ r. record r { target_in_bytes = (r.target_in_bytes + n) % 2 ^ 64 }) s

abbrev pub count_out : Side → ℕ → Session → Session
count_out sender n s =
    if is_client sender
    then tally (λ r. record r { target_out_bytes = (r.target_out_bytes + n) % 2 ^ 64 }) s
    else tally (λ r. record r { client_out_bytes = (r.client_out_bytes + n) % 2 ^ 64 }) s

abbrev pub count_forwarded : Side → ℕ → Reply → Reply
count_forwarded sender n r =
    if r.forward then record r { session = count_out sender n r.session } else r

module _ (g : Gateway) where
  -- The switch on the type of the message.
  unfoldable pub dispatch : Side → ℕ → Bytes → Session → Result Reply
  unfolding inspect_default
  dispatch sender type buffer s =
      if type == 94 || type == 95
      then channel_data g sender type buffer s
      else if type == 80
      then global_request g sender buffer s
      else if type == 90
      then channel_open g sender buffer s
      else if type == 91
      then channel_open_confirm g sender buffer s
      else if type == 92
      then channel_open_failure g sender buffer s
      else if type == 97
      then channel_close g sender buffer s
      else if type == 98
      then channel_request g sender buffer s
      else if type == 99
      then channel_success g sender buffer s
      else if type == 100
      then channel_failure g sender buffer s
      else if type == 81
      then request_success sender buffer s
      else if type == 82
      then request_failure buffer s
      else if type == 93
      then channel_window_adjust g sender buffer s
      else if type == 96
      then channel_eof g sender buffer s
      else if type == 2
      then reply true buffer s
      else if type == 3
      then unimplemented_message g sender buffer s
      else if type == 4
      then debug_message g sender buffer s
      else if type == 1
      then disconnect g sender buffer s
      else reply (inspect_default type) buffer s

  unfoldable pub inspect_packet : Side → ℕ → Bytes → Session → Result Reply
  inspect_packet sender type buffer s = do
    r ← dispatch sender type buffer (count_in sender (length buffer) s)
    done (count_forwarded sender (length buffer) r)
