-- ===== src/Inspect/Confirm/Goes.antt =====
-- The relation `Follows` for the confirmation and the failure of an opening.
use susshi.Prelude.{ℕ, ◌+◌, ◌-◌, ◌^◌, String, refl, Option, none, some, is_empty, ltb}
use susshi.Result.{done}
use susshi.Result.Ensures.{Ensures-done, Ensures-if, Ensures-bind, Ensures-need}
use susshi.Session.{Side, the_other_side, Session, EnvValue, env_request, no_channel}
use susshi.Gateway.{Bytes, Gateway}
use susshi.Channels.Table.{find_channel, channel_at, update_channel, free_channel}
use susshi.Inspect.Reply.{rewrite_if_proxied}
use susshi.Inspect.Confirm.{
  send_env, send_limit, send_shell_env, confirmed, env_on, rewrite_confirmation, confirm,
  channel_open_confirm, open_failed, channel_open_failure,
}
use susshi.Inspect.Follows.{
  Follows-refl, Follows-trans, Goes, GoesOn, unchanged, transmit-GoesOn, update_channel-GoesOn,
  free_channel-GoesOn, then-Goes, then-GoesOn,
}

module _ (g : Gateway) where
  send_env-GoesOn :
      (name : String) (value : EnvValue) (s : Session) → GoesOn s (send_env g name value s)
  send_env-GoesOn name value s =
      transmit-GoesOn g (env_request s.send_shell_env_channel name value) s

  send_limit-GoesOn :
      (limit : ℕ) (name : String) (value : ℕ) (s : Session)
      → GoesOn s (send_limit g limit name value s)
  send_limit-GoesOn limit name value s =
      Ensures-if (ltb limit (2 ^ 32 - 1)) _ _ (λ _. send_env-GoesOn name _ s)
        (λ _. Ensures-done s (Follows-refl s))

  pub send_shell_env-GoesOn : (s : Session) → GoesOn s (send_shell_env g s)
  unfolding send_shell_env
  send_shell_env-GoesOn s =
      let session = g.cfg.max_session_secs in
      let idle = g.cfg.max_session_idle_secs in
      Ensures-if s.send_shell_env _ _
        (λ _. then-GoesOn _ _ (Follows-refl s) (send_env-GoesOn _ _ s) λ s1 f1.
          then-GoesOn _ _ f1 (send_env-GoesOn _ _ s1) λ s2 f2.
            then-GoesOn _ _ f2 (send_env-GoesOn _ _ s2) λ s3 f3.
              then-GoesOn (send_limit g session "SUSSHI_MAX_SESSION" (g.cfg.now + session) s3) _ f3
                (send_limit-GoesOn session "SUSSHI_MAX_SESSION" (g.cfg.now + session) s3)
                λ s4 f4.
                  then-GoesOn (send_limit g idle "SUSSHI_MAX_IDLE" idle s4) _ f4
                    (send_limit-GoesOn idle "SUSSHI_MAX_IDLE" idle s4)
                    λ s5 f5.
                      Ensures-done _
                        (Follows-trans f5 (unchanged _ _ refl refl refl refl refl refl refl)))
        λ _. Ensures-done s (Follows-refl s)

  env_on-GoesOn : (ch : ℕ) (s : Session) → GoesOn s (env_on g ch s)
  env_on-GoesOn ch s =
      let t = record s { send_shell_env_channel = ch } in
      Ensures-if s.send_shell_env (send_shell_env g t) (done s)
        (λ _. record {
          at = λ u e.
              Follows-trans (unchanged s t refl refl refl refl refl refl refl)
                ((send_shell_env-GoesOn t).at u e);
        })
        (λ _. Ensures-done s (Follows-refl s))

  confirm-Goes :
      (found : Option ℕ) (rest buffer : Bytes) (s : Session)
      → Goes s (confirm g found rest buffer s)
  unfolding confirm
  confirm-Goes none rest buffer s =
      Ensures-done _ (unchanged s _ refl refl refl refl refl refl refl)
  confirm-Goes (some cid) rest buffer s = Ensures-bind (channel_at cid s) _ λ c e.
      Ensures-need (g.wire.get_u32 rest) _ λ (provider_ch, r1) e1.
        Ensures-need (g.wire.get_u32 r1) _ λ (init_win, r2) e2.
          Ensures-need (g.wire.get_u32 r2) _ λ (max_win, r3) e3.
            then-Goes (update_channel cid (confirmed g provider_ch) s) _ (Follows-refl s)
              (update_channel-GoesOn cid (confirmed g provider_ch) s)
              λ s1 f1. Ensures-bind (rewrite_confirmation g c) _ λ u e4.
                then-Goes (env_on g provider_ch s1) _ f1 (env_on-GoesOn provider_ch s1) λ s2 f2.
                  Ensures-done _
                    (Follows-trans f2 (unchanged _ _ refl refl refl refl refl refl refl))

  pub channel_open_confirm-Goes :
      (sender : Side) (buffer : Bytes) (s : Session)
      → Goes s (channel_open_confirm g sender buffer s)
  unfolding channel_open_confirm
  channel_open_confirm-Goes sender buffer s =
      Ensures-if (is_empty buffer) _ _ (λ _. Ensures-done _ (Follows-refl s))
        λ _. Ensures-need (g.wire.get_u32 buffer) _ λ (ch, rest) e.
          confirm-Goes (find_channel (the_other_side sender) ch no_channel s) rest buffer s

  open_failed-Goes :
      (found : Option ℕ) (sender : Side) (buffer : Bytes) (s : Session)
      → Goes s (open_failed g found sender buffer s)
  unfolding open_failed
  open_failed-Goes none sender buffer s =
      Ensures-done _ (unchanged s _ refl refl refl refl refl refl refl)
  open_failed-Goes (some cid) sender buffer s = Ensures-bind (channel_at cid s) _ λ c e.
      Ensures-bind (rewrite_if_proxied sender buffer c) _ λ b e1.
        then-Goes (free_channel cid _) _ (unchanged s _ refl refl refl refl refl refl refl)
          (free_channel-GoesOn cid _)
          λ s1 f1.
            Ensures-done _ (Follows-trans f1 (unchanged _ _ refl refl refl refl refl refl refl))

  pub channel_open_failure-Goes :
      (sender : Side) (buffer : Bytes) (s : Session)
      → Goes s (channel_open_failure g sender buffer s)
  unfolding channel_open_failure
  channel_open_failure-Goes sender buffer s =
      Ensures-if (is_empty buffer) _ _ (λ _. Ensures-done _ (Follows-refl s))
        λ _. Ensures-need (g.wire.get_u32 buffer) _ λ (ch, r1) e1.
          Ensures-need (g.wire.get_u32 r1) _ λ (reasonc, r2) e2.
            Ensures-need (g.wire.get_cstring r2) _ λ (reasons, r3) e3.
              Ensures-need (g.wire.get_cstring r3) _ λ (langtag, r4) e4.
                open_failed-Goes (find_channel (the_other_side sender) ch no_channel s) sender
                  buffer s
