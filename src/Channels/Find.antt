-- ===== src/Channels/Find.antt =====
-- What `susshi_find_channel` of src/susshid/inspect-channel.c finds.
use susshi.Prelude.{
  ℕ, ◌<◌, ◌≡◌, ◌≢◌, ◌⊎◌, ◌↔◌, inl, inr, true, none, some, get_elem?, arith, Option-cases,
  if◌then◌else◌,
}
use susshi.Result.{done}
use susshi.Session.{Side, Channel, Session, same_side, no_channel}
use susshi.Channels.Table.{channel_matches, find_channel, channel_at}
use susshi.Channels.Slots.{find_slot-IsHit, find_slot-first, find_slot-none}

-- The numbers by which the side that opened the channel, and its peer, name the channel.
abbrev pub opener_number : Channel → ℕ
opener_number c = if c.proxied_channel then c.gateway_requestor_ch else c.requestor_ch

abbrev pub peer_number : Channel → ℕ
peer_number c = if c.proxied_channel then c.gateway_provider_ch else c.provider_ch

-- `sender` opened the channel, and a number that is given is the channel's. `(uint32_t) -1` gives
-- no number.
abbrev pub Addresses : Side → ℕ → ℕ → Channel → Type 0
Addresses sender sender_ch recipient_ch c =
    (c.requestor ≡ sender)
    × (((sender_ch ≢ no_channel) × (opener_number c ≡ sender_ch))
        ⊎ ((recipient_ch ≢ no_channel) × (peer_number c ≡ recipient_ch)))

same_side_iff : (a b : Side) → (same_side a b ≡ true) ↔ (a ≡ b)
unfolding same_side
same_side_iff a b = ground arith

channel_matches_iff :
    (sender : Side) (sender_ch recipient_ch : ℕ) (c : Channel)
    → (channel_matches sender sender_ch recipient_ch c ≡ true)
      ↔ Addresses sender sender_ch recipient_ch c
unfolding channel_matches
channel_matches_iff sender sender_ch recipient_ch c =
    ground (arith, same_side_iff c.requestor sender)

module _ (sender : Side) (sender_ch recipient_ch : ℕ) (s : Session) where
  -- Slot `i` holds a channel that the arguments address, and no slot before it does.
  pub record IsFirst (i : ℕ) (c : Channel) : Type 0 where
    pub is_used : get_elem? s.channels i ≡ some (some c)
    pub addressed : Addresses sender sender_ch recipient_ch c
    pub earlier :
        (j : ℕ) (d : Channel)
        → j < i
        → get_elem? s.channels j ≡ some (some d)
        → ¬ Addresses sender sender_ch recipient_ch d

  find_channel-IsFirst :
      (i : ℕ) → find_channel sender sender_ch recipient_ch s ≡ some i → (c : Channel) × IsFirst i c
  unfolding find_channel
  find_channel-IsFirst i h =
      let (c, hit) = find_slot-IsHit sender sender_ch recipient_ch s.channels i h in
      (
        c,
        record {
          is_used = hit.is_used;
          addressed = (channel_matches_iff sender sender_ch recipient_ch c).0 hit.matches;
          earlier = λ j d lt used a. cc (
            find_slot-first sender sender_ch recipient_ch s.channels i j d h lt used,
            (channel_matches_iff sender sender_ch recipient_ch d).1 a,
          );
        },
      )

  find_channel-none :
      find_channel sender sender_ch recipient_ch s ≡ none
      → (j : ℕ) (d : Channel) → get_elem? s.channels j ≡ some (some d)
      → ¬ Addresses sender sender_ch recipient_ch d
  unfolding find_channel
  find_channel-none h j d used a = cc (
    find_slot-none sender sender_ch recipient_ch s.channels j d h used,
    (channel_matches_iff sender sender_ch recipient_ch d).1 a,
  )

-- The lookup is exact: either it gives the first slot in use whose channel was opened by the given
-- side and has one of the given numbers, the gateway's numbers if the channel is proxied, or it
-- gives none and no slot holds such a channel.
pub find_channel_exact :
    (sender : Side) (sender_ch recipient_ch : ℕ) (s : Session)
    → ((i : ℕ) × (c : Channel) × (find_channel sender sender_ch recipient_ch s ≡ some i)
        × IsFirst sender sender_ch recipient_ch s i c)
      ⊎ ((find_channel sender sender_ch recipient_ch s ≡ none)
          × ((j : ℕ) (d : Channel)
              → get_elem? s.channels j ≡ some (some d)
              → ¬ Addresses sender sender_ch recipient_ch d))
find_channel_exact sender sender_ch recipient_ch s =
    elim (Option-cases (find_channel sender sender_ch recipient_ch s)) [
      | inl e ↦ inr (e, find_channel-none sender sender_ch recipient_ch s e)
      | inr (i, e) ↦
          let (c, first) = find_channel-IsFirst sender sender_ch recipient_ch s i e in
          inl (i, c, e, first)
    ]

-- A channel that the lookup gives can be read.
pub channel_at-find_channel :
    (sender : Side) (sender_ch recipient_ch : ℕ) (s : Session) (i : ℕ)
    → find_channel sender sender_ch recipient_ch s ≡ some i
    → (c : Channel) × (channel_at i s ≡ done c) × (get_elem? s.channels i ≡ some (some c))
unfolding channel_at
channel_at-find_channel sender sender_ch recipient_ch s i h =
    let (c, first) = find_channel-IsFirst sender sender_ch recipient_ch s i h in
    (c, rw (first.is_used), first.is_used)
