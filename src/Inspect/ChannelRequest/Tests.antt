-- ===== src/Inspect/ChannelRequest/Tests.antt =====
-- Channel requests, on concrete packets.
use susshi.Prelude.{◌≡◌, refl, [], ◌∷◌}
use susshi.Result.{done}
use susshi.Session.{client, same_side, channel_failure}
use susshi.Acl.{acl_bool}
use susshi.Channels.Table.{find_channel, find_slot, channel_matches, channel_at}
use susshi.Inspect.Reply.{Reply, transmit}
use susshi.Inspect.Tests.{test_gateway, one_channel, want_x11, reply_of}
use susshi.Inspect.ChannelRequest.{
  ask, request_refused, conclude_request, on_request, channel_request,
}
use susshi.Inspect.ChannelRequest.Outcome.{Outcome, channel_request-Outcome}

abbrev refused_x11 : Reply
refused_x11 = reply_of (channel_request test_gateway client want_x11 one_channel)

refused_run : channel_request test_gateway client want_x11 one_channel ≡ done refused_x11
unfolding channel_request on_request ask request_refused conclude_request find_channel find_slot
    channel_matches channel_at acl_bool transmit same_side
refused_run = refl

is_told : refused_x11.session.sent ≡ channel_failure client 7 ∷ []
unfolding channel_request on_request ask request_refused conclude_request find_channel find_slot
    channel_matches channel_at acl_bool transmit same_side
is_told = refl

channel_request-Outcome_example : Outcome test_gateway client want_x11 one_channel refused_x11
channel_request-Outcome_example =
    (channel_request-Outcome test_gateway client want_x11 one_channel).at refused_x11 refused_run
