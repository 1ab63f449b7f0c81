-- ===== src/Inspect/Reply/Tests.antt =====
-- The rewriting of packets, on a concrete one.
use susshi.Prelude.{◌≡◌, refl, true, [], ◌∷◌, arith}
use susshi.Result.{done}
use susshi.Session.{client, Channel}
use susshi.Gateway.{Bytes}
use susshi.Channels.Table.{fresh_channel}
use susshi.Inspect.Reply.{rewrite_if_proxied, rewrite_recipientch, buffer_put_u32, htonl}
use susshi.Inspect.Reply.Rewrite.{StartsWithNumber, rewrite_if_proxied-number}

abbrev proxied : Channel
proxied = record fresh_channel { provider_ch = 258; proxied_channel = true }

rewritten :
    rewrite_if_proxied client (0 ∷ 0 ∷ 0 ∷ 5 ∷ 42 ∷ []) proxied ≡ done (0 ∷ 0 ∷ 1 ∷ 2 ∷ 42 ∷ [])
unfolding rewrite_if_proxied rewrite_recipientch buffer_put_u32 htonl
rewritten = refl

rewrite_if_proxied-number_example :
    (bytes : Bytes) × (rewrite_if_proxied client (0 ∷ 0 ∷ 0 ∷ 5 ∷ 42 ∷ []) proxied ≡ done bytes)
    × StartsWithNumber 258 (42 ∷ []) bytes
rewrite_if_proxied-number_example =
    rewrite_if_proxied-number client 0 0 0 5 (42 ∷ []) proxied (omega arith)
