-- ===== src/Inspect/Packet/Dispatch.antt =====
-- The relation `Follows` for the switch of `susshi_inspect_packet`.
use susshi.Prelude.{ℕ, refl, ◌||◌, ◌==◌}
use susshi.Result.Ensures.{Ensures-done, Ensures-if}
use susshi.Session.{Side, Session}
use susshi.Gateway.{Bytes, Gateway}
use susshi.Inspect.Follows.{Follows-refl, Goes, Lawful, unchanged}
use susshi.Inspect.Global.Goes.{global_request-Goes, request_success-Goes}
use susshi.Inspect.Open.Goes.{channel_open-Goes}
use susshi.Inspect.Confirm.Goes.{channel_open_confirm-Goes, channel_open_failure-Goes}
use susshi.Inspect.Data.Goes.{channel_data-Goes, channel_close-Goes}
use susshi.Inspect.ChannelRequest.Goes.{channel_request-Goes}
use susshi.Inspect.Replies.Goes.{
  channel_success-Goes, channel_failure-Goes, channel_window_adjust-Goes, channel_eof-Goes,
  debug_message-Goes, disconnect-Goes, unimplemented_message-Goes,
}
use susshi.Inspect.Packet.{dispatch}

pub dispatch-Goes :
    (g : Gateway)
    → Lawful g.inspect
    → (sender : Side) (type : ℕ) (buffer : Bytes) (s : Session)
    → Goes s (dispatch g sender type buffer s)
unfolding dispatch
dispatch-Goes g lawful sender type buffer s =
    Ensures-if (type == 94 || type == 95) _ _ (λ _. channel_data-Goes g lawful sender type buffer s)
      λ _.
        Ensures-if (type == 80) _ _ (λ _. global_request-Goes g lawful sender buffer s)
          λ _.
            Ensures-if (type == 90) _ _ (λ _. channel_open-Goes g sender buffer s)
              λ _.
                Ensures-if (type == 91) _ _ (λ _. channel_open_confirm-Goes g sender buffer s)
                  λ _.
                    Ensures-if (type == 92) _ _ (λ _. channel_open_failure-Goes g sender buffer s)
                      λ _.
                        Ensures-if (type == 97) _ _
                          (λ _. channel_close-Goes g lawful sender buffer s)
                          λ _.
                            Ensures-if (type == 98) _ _
                              (λ _. channel_request-Goes g lawful sender buffer s)
                              λ _.
                                Ensures-if (type == 99) _ _
                                  (λ _. channel_success-Goes g sender buffer s)
                                  λ _.
                                    Ensures-if (type == 100) _ _
                                      (λ _. channel_failure-Goes g sender buffer s)
                                      λ _.
                                        Ensures-if (type == 81) _ _
                                          (λ _. request_success-Goes sender buffer s)
                                          λ _.
                                            Ensures-if (type == 82) _ _
                                              (λ _.
                                                Ensures-done _ (
                                                  unchanged s _ refl refl refl refl refl refl refl))
                                              λ _.
                                                Ensures-if (type == 93) _ _
                                                  (λ _.
                                                    channel_window_adjust-Goes g sender buffer s)
                                                  λ _.
                                                    Ensures-if (type == 96) _ _
                                                      (λ _. channel_eof-Goes g sender buffer s)
                                                      λ _.
                                                        Ensures-if (type == 2) _ _
                                                          (λ _. Ensures-done _ (Follows-refl s))
                                                          λ _.
                                                            Ensures-if (type == 3) _ _
                                                            (λ _.
                                                            unimplemented_message-Goes g sender
                                                            buffer s)
                                                            λ _.
                                                            Ensures-if (type == 4) _ _
                                                            (λ _.
                                                            debug_message-Goes g sender buffer s)
                                                            λ _.
                                                            Ensures-if (type == 1) _ _
                                                            (λ _. disconnect-Goes g sender buffer s)
                                                            λ _. Ensures-done _ (Follows-refl s)
