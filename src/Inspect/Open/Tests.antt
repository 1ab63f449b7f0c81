-- ===== src/Inspect/Open/Tests.antt =====
-- The opening of channels, on concrete packets.
use susshi.Prelude.{◌≡◌, refl, true}
use susshi.Session.{client}
use susshi.Slots.{alloc, free_slot}
use susshi.Channels.Table.{alloc_new_channel, update_channel, channel_at}
use susshi.Inspect.Reply.{Reply}
use susshi.Inspect.Tests.{test_gateway, new_session, open_session, reply_of}
use susshi.Inspect.Open.{
  judge_session, judge_open, opened, open_accepted, conclude_open, channel_open,
}
use susshi.Inspect.Open.Outcome.{Outcome}

abbrev opened_session : Reply
opened_session = reply_of (channel_open test_gateway client open_session new_session)

open_forward : opened_session.forward ≡ true
unfolding channel_open judge_open judge_session conclude_open open_accepted opened alloc_new_channel
    alloc free_slot update_channel channel_at
open_forward = refl
