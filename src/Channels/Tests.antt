-- ===== src/Channels/Tests.antt =====
-- The table of channels, on a concrete session.
use susshi.Prelude.{◌↔◌, ℕ, ◌≡◌, ◌⊎◌, refl, none, some, [], ◌∷◌, get_elem?}
use susshi.Result.{done, stop, fatal}
use susshi.Session.{client, same_side, Channel, Session, no_channel}
use susshi.Channels.Table.{
  fresh_channel, alloc_new_channel, free_channel, channel_matches, find_slot, find_channel,
}
use susshi.Slots.{free_slot, alloc}
use susshi.Slots.Removal.{IsRemoved}
use susshi.Slots.Laws.{IsAdded}
use susshi.Channels.Alloc.{
  IsExhausted, alloc_new_channel-IsAdded, alloc_new_channel_total, free_channel-IsRemoved,
}
use susshi.Channels.Find.{Addresses, IsFirst, find_channel_exact}
use susshi.Inspect.Tests.{one_channel, open_channel}

abbrev two_channels : Session
two_channels = record one_channel { channels = some fresh_channel ∷ some open_channel ∷ [] }

alloc_run : alloc_new_channel one_channel ≡ done (0, two_channels)
unfolding alloc_new_channel alloc free_slot
alloc_run = refl

alloc_new_channel-IsAdded_example :
    IsAdded fresh_channel one_channel.channels two_channels.channels 0
    × (two_channels ≡ record one_channel { channels = two_channels.channels })
alloc_new_channel-IsAdded_example = alloc_new_channel-IsAdded one_channel two_channels 0 alloc_run

alloc_new_channel_total_example :
    ((alloc_new_channel one_channel ≡ stop fatal) ↔ IsExhausted one_channel)
    × (¬ IsExhausted one_channel
        → (i : ℕ) × (s' : Session) × (alloc_new_channel one_channel ≡ done (i, s')))
alloc_new_channel_total_example = alloc_new_channel_total one_channel

free_channel-IsRemoved_example :
    (s' : Session) × (free_channel 1 one_channel ≡ done s')
    × IsRemoved one_channel.channels s'.channels 1
    × (s' ≡ record one_channel { channels = s'.channels })
free_channel-IsRemoved_example = free_channel-IsRemoved one_channel 1 open_channel refl

-- The target names the channel 7, which is the client's number.
found : find_channel client 7 no_channel one_channel ≡ some 1
unfolding find_channel find_slot channel_matches same_side
found = refl

find_channel_exact_example :
    ((i : ℕ) × (c : Channel) × (find_channel client 7 no_channel one_channel ≡ some i)
      × IsFirst client 7 no_channel one_channel i c)
    ⊎ ((find_channel client 7 no_channel one_channel ≡ none)
        × ((j : ℕ) (d : Channel)
            → get_elem? one_channel.channels j ≡ some (some d)
            → ¬ Addresses client 7 no_channel d))
find_channel_exact_example = find_channel_exact client 7 no_channel one_channel
