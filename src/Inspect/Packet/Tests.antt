-- ===== src/Inspect/Packet/Tests.antt =====
-- Packets through the gateway, one after the other.
use susshi.Prelude.{◌≡◌, refl, false, [], ◌∷◌, length}
use susshi.Result.{done}
use susshi.Result.Ensures.{Ensures}
use susshi.Session.{client, target, is_client}
use susshi.Inspect.Reply.{Reply}
use susshi.Inspect.Global.{judge_global, conclude_global, global_request}
use susshi.Inspect.Tests.{
  test_gateway, test_gateway-Lawful, new_session, no_more, open_session, reply_of,
}
use susshi.Inspect.Packet.{dispatch, inspect_packet}
use susshi.Inspect.Packet.Accounting.{IsCounted, inspect_packet-IsCounted}
use susshi.Inspect.Packet.History.{
  Run, Lasts, started, handled, Run-Lasts, no_session_after_closing,
}

-- 2 is an IGNORE message: it is forwarded.
abbrev ignored : Reply
ignored = reply_of (inspect_packet test_gateway client 2 no_more new_session)

ignored_run : inspect_packet test_gateway client 2 no_more new_session ≡ done ignored
unfolding inspect_packet dispatch
ignored_run = refl

inspect_packet-IsCounted_example :
    IsCounted
      (is_client client)
      ignored.forward
      (length no_more)
      new_session.report
      ignored.session.report
inspect_packet-IsCounted_example =
    (inspect_packet-IsCounted test_gateway test_gateway-Lawful client 2 no_more new_session).at
      ignored ignored_run

one_packet : Run test_gateway new_session ignored.session
one_packet = handled client 2 no_more ignored (started refl) ignored_run refl

Run-Lasts_example : Lasts new_session ignored.session
Run-Lasts_example =
    Run-Lasts test_gateway test_gateway-Lawful new_session ignored.session one_packet

abbrev announced : Reply
announced = reply_of (inspect_packet test_gateway client 80 no_more new_session)

announced_run : inspect_packet test_gateway client 80 no_more new_session ≡ done announced
unfolding inspect_packet dispatch global_request judge_global conclude_global
announced_run = refl

abbrev later : Reply
later = reply_of (inspect_packet test_gateway target 2 no_more announced.session)

later_run : inspect_packet test_gateway target 2 no_more announced.session ≡ done later
unfolding inspect_packet dispatch global_request judge_global conclude_global
later_run = refl

some_packets : Run test_gateway announced.session later.session
some_packets = handled target 2 no_more later (started refl) later_run refl

no_session_after_closing_example :
    Ensures
      (λ u. (u.forward ≡ false) × (u.session.channels ≡ later.session.channels))
      (inspect_packet test_gateway client 90 open_session later.session)
no_session_after_closing_example =
    no_session_after_closing test_gateway test_gateway-Lawful client client no_more open_session
      "no-more-sessions@openssh.com" (0 ∷ []) (0 ∷ 0 ∷ 0 ∷ 7 ∷ 0 ∷ 0 ∷ 1 ∷ 0 ∷ 0 ∷ 0 ∷ 1 ∷ 0 ∷ [])
      new_session later.session announced refl refl refl announced_run some_packets refl
