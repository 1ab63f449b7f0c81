-- ===== src/Channels/Alloc.antt =====
-- What `susshi_alloc_new_channel` and `susshi_free_channel` of src/susshid/inspect-channel.c do to
-- the table of channels.
use susshi.Prelude.{◌↔◌, ℕ, ◌<◌, ◌≡◌, refl, inl, inr, none, some, length, get_elem?, set, arith}
use susshi.Result.{done, stop, fatal, crash}
use susshi.Session.{Channel, Session}
use susshi.Channels.Table.{
  fresh_channel, num_open_channels, alloc_new_channel, update_channel, free_channel,
}
use susshi.Slots.{alloc}
use susshi.Slots.Removal.{IsRemoved}
use susshi.Slots.Laws.{
  IsAdded, alloc-IsAdded, alloc_total, alloc_full, release-IsRemoved, release_past,
}

alloc_split :
    (s s' : Session) (i : ℕ)
    → alloc_new_channel s ≡ done (i, s')
    → (alloc fresh_channel s.channels ≡ done (i, s'.channels))
      × (s' ≡ record s { channels = s'.channels })
unfolding alloc_new_channel
alloc_split s s' i h = ground arith

-- An allocation that returns puts a zeroed channel into a slot that was not in use, leaves every
-- channel in use where it is and as it is, raises the number of open channels by one, keeps the
-- length of the table or adds a multiple of ten to it, and changes nothing else of the session.
pub alloc_new_channel-IsAdded :
    (s s' : Session) (i : ℕ)
    → alloc_new_channel s ≡ done (i, s')
    → IsAdded fresh_channel s.channels s'.channels i × (s' ≡ record s { channels = s'.channels })
alloc_new_channel-IsAdded s s' i h =
    let (placed, same) = alloc_split s s' i h in
    (alloc-IsAdded fresh_channel s.channels s'.channels i placed, same)

-- The table has more than 10000 slots, and all are in use.
abbrev pub IsExhausted : Session → Type 0
IsExhausted s = (num_open_channels s ≡ length s.channels) × (10000 < length s.channels)

-- An allocation ends the process exactly when the table has more than 10000 slots and all are in
-- use; in all other cases it returns.
pub alloc_new_channel_total :
    (s : Session)
    → ((alloc_new_channel s ≡ stop fatal) ↔ IsExhausted s)
      × (¬ IsExhausted s → (i : ℕ) × (s' : Session) × (alloc_new_channel s ≡ done (i, s')))
unfolding alloc_new_channel num_open_channels
alloc_new_channel_total s = elim (alloc_total fresh_channel s.channels) [
  | inl (all_used, big, e) ↦
      ((λ h. (all_used, big), λ x. rw e), λ room. absurd (room (all_used, big)))
  | inr (i, m, e) ↦ (
    (λ h. cc (e, h), λ (all_used, big). rw (alloc_full fresh_channel s.channels all_used big)),
    λ room. (i, record s { channels = m }, rw e),
  )
]

-- Freeing a channel in use empties its slot and no other, lowers the number of open channels by
-- one, and changes nothing else of the session.
pub free_channel-IsRemoved :
    (s : Session) (i : ℕ) (c : Channel)
    → get_elem? s.channels i ≡ some (some c)
    → (s' : Session) × (free_channel i s ≡ done s')
      × IsRemoved s.channels s'.channels i
      × (s' ≡ record s { channels = s'.channels })
unfolding free_channel
free_channel-IsRemoved s i c used =
    let (freed, removed) = release-IsRemoved s.channels i c used in
    (record s { channels = set s.channels i none }, rw freed, removed, refl)

-- The guard `id <= channels_alloc` of `susshi_free_channel` lets the index just past the end
-- through to the read of the slot.
pub free_channel-past_end : (s : Session) → free_channel (length s.channels) s ≡ stop crash
unfolding free_channel
free_channel-past_end s = rw (release_past s.channels)

-- An update of a channel in use rewrites its slot and nothing else.
pub update_channel_lem :
    (s : Session) (i : ℕ) (f : Channel → Channel) (c : Channel)
    → get_elem? s.channels i ≡ some (some c)
    → update_channel i f s ≡ done (record s { channels = set s.channels i (some (f c)) })
unfolding update_channel
update_channel_lem s i f c used = rw used
