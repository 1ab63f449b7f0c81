-- ===== src/Inspect/Global/Tests.antt =====
-- Global requests, on concrete packets.
use susshi.Prelude.{◌≡◌, refl, true}
use susshi.Session.{client}
use susshi.Inspect.Reply.{Reply}
use susshi.Inspect.Tests.{test_gateway, new_session, no_more, reply_of}
use susshi.Inspect.Global.{judge_global, conclude_global, global_request}

abbrev closed_session : Reply
closed_session = reply_of (global_request test_gateway client no_more new_session)

is_closed : closed_session.session.no_more_sessions ≡ true
unfolding global_request judge_global conclude_global
is_closed = refl
