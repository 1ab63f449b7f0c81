-- ===== src/Channels/Table.antt =====
-- The table of channels: `susshi_num_open_channels`, `susshi_alloc_new_channel`,
-- `susshi_free_channel` and `susshi_find_channel` of src/susshid/inspect-channel.c.
use susshi.Prelude.{
  ℕ, suc, Bool, false, not, ◌&&◌, ◌||◌, Option, none, some, List, [], ◌∷◌, get_elem?, set, ◌==◌,
  if◌then◌else◌,
}
use susshi.Slots.{num_open, alloc, release}
use susshi.Result.{Result, done, stop, crash, ◌>>=◌}
use susshi.Session.{Side, client, same_side, nolog, scp_unknown, Log, Channel, Session, no_channel}

-- `xcalloc` and `memset` leave every field at zero.
abbrev pub fresh_log : Log
fresh_log = record { filetype = none; ucid = 0; enc_requested = false; filesize = 0 }

abbrev pub fresh_channel : Channel
fresh_channel = record {
  cid = 0;
  requestor = client;
  ctype = none;
  requestor_ch = 0;
  provider_ch = 0;
  gateway_requestor_ch = 0;
  gateway_provider_ch = 0;
  state = 0;
  requestor_send = 0;
  provider_send = 0;
  client_forward_in_addr = 0;
  client_forward_port = 0;
  target_forward_in_addr = 0;
  target_forward_port = 0;
  logging = nolog;
  log_target_output = fresh_log;
  log_client_input = fresh_log;
  log_timing = fresh_log;
  log_protocol = fresh_log;
  scp_requestor_mode = scp_unknown;
  scp_dir_name = none;
  has_sftp_session = false;
  proxied_channel = false;
}

unfoldable pub num_open_channels : Session → ℕ
unfolding num_open
num_open_channels s = num_open s.channels

unfoldable pub alloc_new_channel : Session → Result (ℕ × Session)
unfolding alloc
alloc_new_channel s = do
  (i, slots) ← alloc fresh_channel s.channels
  done (i, record s { channels = slots })

-- The log files that are closed on the way are not modelled.
unfoldable pub free_channel : ℕ → Session → Result Session
unfolding release
free_channel id s = do slots ← release id s.channels; done (record s { channels = slots })

-- `susshi_session.channels[cid]`, where the code uses the channel that it finds there.
abbrev pub deref : Option (Option Channel) → Result Channel
deref (some (some c)) = done c
deref _ = stop crash

unfoldable pub channel_at : ℕ → Session → Result Channel
channel_at cid s = deref (get_elem? s.channels cid)

unfoldable pub update_channel : ℕ → (Channel → Channel) → Session → Result Session
unfolding channel_at
update_channel cid f s = do
  c ← channel_at cid s
  done (record s { channels = set s.channels cid (some (f c)) })

abbrev pub is_known : ℕ → ℕ → Bool
is_known wanted ch = not (wanted == no_channel) && ch == wanted

unfoldable pub channel_matches : Side → ℕ → ℕ → Channel → Bool
channel_matches sender sender_ch recipient_ch c =
    same_side c.requestor sender
    && (if c.proxied_channel
        then is_known sender_ch c.gateway_requestor_ch
          || is_known recipient_ch c.gateway_provider_ch
        else is_known sender_ch c.requestor_ch || is_known recipient_ch c.provider_ch)

abbrev pub slot_matches : Side → ℕ → ℕ → Option Channel → Bool
slot_matches sender sender_ch recipient_ch none = false
slot_matches sender sender_ch recipient_ch (some c) =
    channel_matches sender sender_ch recipient_ch c

-- `none` is -1.
unfoldable pub find_slot : Side → ℕ → ℕ → List (Option Channel) → Option ℕ
find_slot sender sender_ch recipient_ch [] = none
find_slot sender sender_ch recipient_ch (slot ∷ slots) =
    let rest = find_slot sender sender_ch recipient_ch slots in
    if slot_matches sender sender_ch recipient_ch slot
    then some 0
    else elim rest [ none ↦ none | some i ↦ some (suc i) ]

unfoldable pub find_channel : Side → ℕ → ℕ → Session → Option ℕ
unfolding find_slot
find_channel sender sender_ch recipient_ch s = find_slot sender sender_ch recipient_ch s.channels
