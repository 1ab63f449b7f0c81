-- ===== src/Inspect/Data/Tests.antt =====
-- The closing of a channel, on concrete packets.
use susshi.Prelude.{◌≡◌, refl, some, none, get_elem?}
use susshi.Result.{done}
use susshi.Session.{client, same_side, the_other_side}
use susshi.Channels.Table.{
  find_channel, find_slot, channel_matches, channel_at, update_channel, free_channel,
}
use susshi.Inspect.Reply.{Reply, rewrite_if_proxied}
use susshi.Inspect.Tests.{test_gateway, one_channel, open_channel, close_9, reply_of}
use susshi.Inspect.Data.{on_close, channel_close}
use susshi.Inspect.Data.Closing.{Closing, closing, channel_close-Closing}

abbrev once : Reply
once = reply_of (channel_close test_gateway client close_9 one_channel)

abbrev twice : Reply
twice = reply_of (channel_close test_gateway client close_9 once.session)

first_run : channel_close test_gateway client close_9 one_channel ≡ done once
unfolding channel_close on_close find_channel find_slot channel_matches channel_at update_channel
    free_channel rewrite_if_proxied same_side the_other_side
first_run = refl

second_run :
    (get_elem? once.session.channels 1 ≡ some (some (closing open_channel)))
    × (get_elem? twice.session.channels 1 ≡ some none)
unfolding channel_close on_close find_channel find_slot channel_matches channel_at update_channel
    free_channel rewrite_if_proxied same_side the_other_side
second_run = (refl, refl)

channel_close-Closing_example : Closing test_gateway client close_9 one_channel once
channel_close-Closing_example =
    (channel_close-Closing test_gateway client close_9 one_channel).at once first_run
