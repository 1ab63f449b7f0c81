-- ===== src/Lib.antt =====
-- A model of the suSSHi gateway: of what it does with the SSH packets of a user's session.
--
-- The gateway (susshid) sits between a client and a target. Its session loop gives each packet that
-- one side sends to `susshi_inspect_packet` (src/susshid/inspect-packet.c), which counts its bytes,
-- calls the handler for its type (src/susshid/inspect-channel.c), and copies the packet to the
-- other side if the handler returns true. The handlers keep a table of channels and ask the rules
-- of the session (src/susshid/chef.c) whether a channel, a forwarding, a command or a subsystem is
-- allowed.
--
-- The files:
--   Prelude, Prelude/Lists, Prelude/Slices, Prelude/Tests: what all files share.
--   Result: how a handler ends: it returns, the process ends (`fatal`, a disconnection), or its
--     behaviour is undefined. Result/Ensures: what holds of a result whenever there is one.
--   Session: the state, from include/susshid/inspect-channel.h, session.h and report.h and
--     include/shared/misc.h. The global variables `susshi_session` and `susshi_report` are one
--     record that each function takes and returns.
--   Acl: the four `susshi_chef_authz_acl_*` of src/susshid/chef.c. `unpack` is what `json_unpack`
--     does for a key of the session's context. Acl/Laws: what they answer.
--   Base64: `susshi_base64url_normalize` and `susshi_unbase64` of src/shared/base64.c; a string is
--     the list of its bytes. Base64/Padding, Normal, Decode: what they return.
--   Cidr: `cidr4_match`, `cidr6_match` and `getbits` of src/shared/cidr.c; words stand for their
--     values in network order. Cidr/Octets: `getv4`. Cidr/Parse:
--     `inet_net_pton_ipv6` and `susshi_match_cidr`.
--     Cidr/Match, Digits, Bounds: what they compare, read and return. Scanned: what the parser's
--     loop keeps. Bits: lemmas on `&` and `^` with a mask.
--   Gateway: interfaces to what packet inspection uses: libssh's packet buffers (`Wire`), regular
--     expressions and the C library (`Library`), the configuration, and the inspectors of channel
--     data that other files implement (`Inspectors`).
--   Slots: tables that grow in tens, as those of channels, of file transfer requests and of handles.
--     Slots/Removal, Slots/Laws: what their operations do.
--   Channels/Table: `susshi_num_open_channels`, `susshi_alloc_new_channel`, `susshi_free_channel`
--     and `susshi_find_channel`. Channels/Slots, Alloc, Find: lemmas on the list of slots, what
--     allocation and freeing do, and what the lookup finds.
--   Inspect/Reply: the result of a handler, the packets that the gateway writes itself (`transmit`
--     is `ssh_buffer_pack` and `ssh_packet_send`), and the rewriting of numbers on proxied
--     channels, with Inspect/Reply/Rewrite.
--   Inspect/Global: `susshi_inspect_global_request`, `susshi_inspect_request_success`.
--   Inspect/Open: `susshi_inspect_channel_open`.
--   Inspect/Confirm: `susshi_inspect_channel_open_confirm`, `susshi_inspect_channel_open_failure`,
--     `susshi_send_shell_env`.
--   Inspect/Data: `susshi_inspect_channel_data`, `susshi_inspect_channel_close`, and
--     `susshi_free_sftp_session` of src/susshid/inspect-sftp.c.
--   Inspect/Exec: `susshi_inspect_channel_request_exec`, `susshi_inspect_channel_request_subsystem`
--     and `is_valid_scp_filepath` of src/susshid/inspect-scp.c.
--   Inspect/ChannelRequest: `susshi_inspect_channel_request`, `susshi_channel_set_logging`.
--   Inspect/Replies: `susshi_inspect_channel_success`, `susshi_inspect_channel_failure`,
--     `susshi_inspect_channel_window_adjust`, `susshi_inspect_channel_eof`,
--     `susshi_inspect_debug_message`, `susshi_inspect_disconnect`,
--     `susshi_inspect_unimplemented_message`.
--   Inspect/Packet: `susshi_inspect_packet`.
--   Sftp/Buffer, Message: the reassembly of messages in `susshi_inspect_sftp_packet` of
--     src/susshid/inspect-sftp.c, over libssh's buffers (`Buffers`, with what is documented of them
--     in `IsLawful`). Message/Turns and Cases: one turn of its loop; Progress and Loop: the loop;
--     Joined, Dated, Cuts and Append: data in two packets and in one; Frames: streams of messages;
--     Short: packets that are read past their end.
--   Sftp/Session, Tables: the state, from include/susshid/inspect-sftp.h, and the tables of requests
--     and handles; `data_to_hex`, with Tables/Hex.
--   Sftp/Attributes: `susshi_sftp_data_file_attr` and the functions for texts of access lists and
--     flags. A text is the list of its parts, and its length decides whether a write stays in its
--     buffer. Attributes/Bounds: whether it does.
--   Sftp/Library, Cases, Request, Response: `inspect_sftp_request` and `inspect_sftp_response`, and
--     `strtonum` of src/shared/misc.c. Request/Rules, Kept, Stays and Response/Rests: what the cases
--     leave alone; Request/Outcome, Response/Outcome, Response/Pairing: what they do to the tables.
--   Sftp/Packet: `susshi_new_sftp_session` and `susshi_inspect_sftp_packet` as a whole.
--     Packet/Rounds: the loops over extensions; Packet/Sides: both sides of a session.
--   Scp: `susshi_inspect_scp_data` of src/susshid/inspect-scp.c. Scp/Content, Copied: the content of
--     files, and the copy of one.
-- Child modules Rules, Policy, Outcome, Named and Closing are about what a handler does with a
-- message; child modules Goes hold lemmas on the relation of Inspect/Follows between the session
-- before and after a handler. Inspect/Packet/Accounting and Inspect/Packet/History are about one
-- packet and about sequences of packets. The modules Tests hold concrete runs.
--
-- How the code is translated: a handler is a function from the sender, the packet's bytes and the
-- session to a result; its early returns are the branches, `goto decode_error` is `need`, and a
-- chain of `strcmp` is a chain of tests. A pointer to a channel is the channel's slot, so each read
-- through it reads the table, and an empty slot is undefined behaviour. Numbers are natural
-- numbers; the counters of bytes and `num_remote_tcp_requests_pending` wrap around as in C, the
-- counters of events do not. Loops run over lists or up to a count that was read, so no fuel is
-- needed, but for two: the state machine for messages of file transfers has four turns for each
-- byte of the packet and four more, and the loop over the extensions that a side announces has a
-- round for each byte. Sftp/Message/Loop and Sftp/Packet/Rounds show that this is enough.
--
-- Not modelled: log texts, the process title, file handles, the memory of strings, the time of the
-- last activity, and the programs that do not inspect packets. The inspectors of channel data that
-- the handlers call are parameters, also those that Sftp and Scp model on states of their own; where
-- a theorem needs it, `Lawful` asks of them that they leave the table's length, the channel numbers
-- given out, the flag for no more sessions and the four counters of packets' bytes alone, as the
-- inspectors of the source do. `json_unpack` leaves its result unwritten for an absent key; the read
-- of it is undefined behaviour here, as is that of a text that is NULL and the overflow of a `long`.
pub mod Prelude
pub mod Result
pub mod Session
pub mod Acl
pub mod Base64
pub mod Bits
pub mod Cidr
pub mod Gateway
pub mod Slots
pub mod Channels
pub mod Inspect
pub mod Sftp
pub mod Scp
