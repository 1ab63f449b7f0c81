-- ===== src/Inspect/Reply/Rewrite.antt =====
-- The rewriting of the recipient's number in packets on proxied channels.
use susshi.Prelude.{
  ℕ, ◌+◌, ◌*◌, ◌/◌, ◌%◌, ◌^◌, ◌<◌, ◌≡◌, refl, Bool, true, false, ◌∷◌, arith, if◌then◌else◌,
}
use susshi.Result.{done}
use susshi.Session.{Side, is_client, Channel}
use susshi.Gateway.{Bytes}
use susshi.Inspect.Reply.{htonl, buffer_put_u32, rewrite_recipientch, rewrite_if_proxied}

-- The number that four bytes in network order stand for.
abbrev pub big_endian : ℕ → ℕ → ℕ → ℕ → ℕ
big_endian a b c d = a * 2 ^ 24 + b * 2 ^ 16 + c * 2 ^ 8 + d

-- The number by which the side that does not send names the channel.
abbrev pub recipient_number : Side → Channel → ℕ
recipient_number sender c = if is_client sender then c.provider_ch else c.requestor_ch

htonl_bytes :
    (v : ℕ)
    → v < 2 ^ 32
    → big_endian
        (htonl v % 2 ^ 8)
        (htonl v / 2 ^ 8 % 2 ^ 8)
        (htonl v / 2 ^ 16 % 2 ^ 8)
        (htonl v / 2 ^ 24 % 2 ^ 8)
      ≡ v
unfolding htonl
htonl_bytes v lt = omega arith

-- `bytes` starts with the number `v` in network order, and `rest` follows.
pub record StartsWithNumber (v : ℕ) (rest bytes : Bytes) : Type 0 where
  pub a : ℕ
  pub b : ℕ
  pub c : ℕ
  pub d : ℕ
  pub starts : bytes ≡ a ∷ b ∷ c ∷ d ∷ rest
  pub number : big_endian a b c d ≡ v
  pub bytes_lt : (a < 2 ^ 8) × (b < 2 ^ 8) × (c < 2 ^ 8) × (d < 2 ^ 8)

-- On a proxied channel the first four bytes of the packet become the number of the channel on the
-- other side, in network order, and the rest of the packet stays as it is; on any other channel
-- nothing changes. The number fits in 32 bits.
pub rewrite_if_proxied-number :
    (sender : Side) (w x y z : ℕ) (rest : Bytes) (ch : Channel)
    → recipient_number sender ch < 2 ^ 32
    → (bytes : Bytes) × (rewrite_if_proxied sender (w ∷ x ∷ y ∷ z ∷ rest) ch ≡ done bytes)
      × (if ch.proxied_channel
          then StartsWithNumber (recipient_number sender ch) rest bytes
          else (bytes ≡ w ∷ x ∷ y ∷ z ∷ rest))
unfolding rewrite_if_proxied rewrite_recipientch buffer_put_u32
rewrite_if_proxied-number sender w x y z rest ch lt = by_kind ch.proxied_channel
  where
    v : ℕ
    v = htonl (recipient_number sender ch)

    written : Bytes
    written = v % 2 ^ 8 ∷ v / 2 ^ 8 % 2 ^ 8 ∷ v / 2 ^ 16 % 2 ^ 8 ∷ v / 2 ^ 24 % 2 ^ 8 ∷ rest

    starts_with_number : StartsWithNumber (recipient_number sender ch) rest written
    starts_with_number = record {
      a = v % 2 ^ 8;
      b = v / 2 ^ 8 % 2 ^ 8;
      c = v / 2 ^ 16 % 2 ^ 8;
      d = v / 2 ^ 24 % 2 ^ 8;
      starts = refl;
      number = htonl_bytes (recipient_number sender ch) lt;
      bytes_lt = omega arith;
    }

    by_kind :
        (p : Bool)
        → (bytes : Bytes) × ((if p
              then rewrite_recipientch sender (w ∷ x ∷ y ∷ z ∷ rest) ch
              else done (w ∷ x ∷ y ∷ z ∷ rest))
            ≡ done bytes)
          × (if p
              then StartsWithNumber (recipient_number sender ch) rest bytes
              else (bytes ≡ w ∷ x ∷ y ∷ z ∷ rest))
    by_kind true = (written, refl, starts_with_number)
    by_kind false = (w ∷ x ∷ y ∷ z ∷ rest, refl, refl)
