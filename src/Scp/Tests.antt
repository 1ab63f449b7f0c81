-- ===== src/Scp/Tests.antt =====
-- The copy of a file, on concrete packets.
use susshi.Prelude.{◌≡◌, refl, true, false, [], ◌∷◌, none, some, arith}
use susshi.Result.{done}
use susshi.Gateway.{Bytes}
use susshi.Session.{client, scp_source, same_side}
use susshi.Sftp.Tests.{sftp_wire}
use susshi.Scp.{ScpEntry, ScpLibrary, ScpState, from_source}
use susshi.Scp.Content.{inspect_packets, Carries, no_packet, packet}
use susshi.Scp.Copied.{IsCopied, file-IsCopied}

-- Every entry is of a file "f" of 5 bytes.
abbrev entry : ScpEntry
entry = record { fmode = 48 ∷ []; negative = false; flength = 5; fname = 102 ∷ [] }

abbrev test_scp : ScpLibrary
test_scp = record {
  wire = sftp_wire;
  scan_entry = λ x. some entry;
  scan_times = λ x. none;
  scan_text = λ x. none;
  line_of = λ x. none;
  blength = λ d. 0;
  bformata = λ d x. d;
  last_slash = λ d. none;
  btrunc = λ d n. d;
}

abbrev idle_scp : ScpState
idle_scp = record {
  requestor = client;
  scp_requestor_mode = scp_source;
  scp_read_ahead = 0;
  scp_dir_name = none;
  dir_begins = 0;
  dir_ends = 0;
  scp_files_maycount = false;
  scp_files_read = 0;
  scp_files_written = 0;
  scp_bytes_read = 0;
  scp_bytes_written = 0;
  log = [];
}

-- Two bytes that look like a message, and one more.
abbrev part_1 : Bytes
part_1 = 0 ∷ 0 ∷ 0 ∷ 2 ∷ 69 ∷ 10 ∷ []

abbrev part_2 : Bytes
part_2 = 0 ∷ 0 ∷ 0 ∷ 1 ∷ 9 ∷ []

carried : Carries test_scp (part_1 ∷ part_2 ∷ []) 3
carried =
    packet part_1 (69 ∷ 10 ∷ []) [] (part_2 ∷ []) 1 refl
      (packet part_2 (9 ∷ []) [] [] 0 refl no_packet)

is_source : from_source client idle_scp ≡ true
unfolding from_source same_side
is_source = refl

abbrev announcement : Bytes
announcement = 0 ∷ 0 ∷ 0 ∷ 3 ∷ 67 ∷ 48 ∷ 10 ∷ []

file-IsCopied_example :
    (t : ScpState) × (inspect_packets test_scp client (announcement ∷ part_1 ∷ part_2 ∷ []) idle_scp
      ≡ done t)
    × IsCopied client entry 3 idle_scp t
file-IsCopied_example =
    file-IsCopied test_scp client announcement (48 ∷ 10 ∷ []) [] entry part_1 (part_2 ∷ []) 3
      idle_scp is_source refl refl refl refl (omega arith) carried (omega arith)
