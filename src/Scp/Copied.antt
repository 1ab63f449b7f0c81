-- ===== src/Scp/Copied.antt =====
-- The copy of one file in src/susshid/inspect-scp.c: its announcement and its content.
use susshi.Prelude.{
  ℕ, ◌+◌, ◌-◌, ◌≤◌, ◌<◌, ◌≡◌, refl, true, false, List, ◌∷◌, arith, some, if◌then◌else◌,
}
use susshi.Result.{done}
use susshi.Gateway.{Bytes}
use susshi.Session.{Side, is_client}
use susshi.Sftp.Library.{add64}
use susshi.Scp.{
  ScpEntry, ScpLibrary, copy_file, ScpState, command, from_source, report_file, readmsg,
  from_source_side,
}
use susshi.Scp.Content.{inspect_packets, Carries, lowered, inspected, inspect_packets_counted}

-- A file of entry `e` has been announced and counted for the side that sends it, and `k` bytes of
-- it have come.
pub record IsCopied (sender : Side) (e : ScpEntry) (k : ℕ) (s t : ScpState) : Type 0 where
  pub log : t.log ≡ copy_file s.scp_dir_name e ∷ s.log
  pub still_awaited : t.scp_read_ahead ≡ e.flength - k
  pub files_written :
      t.scp_files_written
      ≡ (if is_client sender then s.scp_files_written + 1 else s.scp_files_written)
  pub files_read :
      t.scp_files_read ≡ (if is_client sender then s.scp_files_read else s.scp_files_read + 1)
  pub written :
      t.scp_bytes_written
      ≡ (if is_client sender then add64 s.scp_bytes_written e.flength else s.scp_bytes_written)
  pub read :
      t.scp_bytes_read
      ≡ (if is_client sender then s.scp_bytes_read else add64 s.scp_bytes_read e.flength)

abbrev announced : ScpEntry → ScpState → ScpState
announced e s = record s {
  log = copy_file s.scp_dir_name e ∷ s.log;
  scp_read_ahead = e.flength;
  scp_files_maycount = true;
}

module _ (l : ScpLibrary) where
  announced-IsCopied :
      (sender : Side) (e : ScpEntry) (k : ℕ) (s : ScpState)
      → IsCopied sender e k s (lowered k (report_file sender (announced e s)))
  unfolding report_file
  announced-IsCopied sender e k s = record {
    log = ground arith;
    still_awaited = ground arith;
    files_written = ground arith;
    files_read = ground arith;
    written = ground arith;
    read = ground arith;
  }

  announces :
      (line : Bytes) (e : ScpEntry) (sender : Side) (s : ScpState)
      → l.scan_entry line ≡ some e
      → e.negative ≡ false
      → s.scp_read_ahead ≡ 0
      → from_source_side l sender (67 ∷ line) s ≡ announced e s
  unfolding from_source_side readmsg command
  announces line e sender s scanned positive idle = rw (idle, scanned, positive) refl

  announced_source :
      (sender : Side) (e : ScpEntry) (s : ScpState)
      → from_source sender s ≡ true
      → from_source sender (announced e s) ≡ true
  unfolding from_source
  announced_source sender e s h = h

  -- The source announces a file whose length is positive, and sends no more bytes than this length
  -- in one or more packets, however they are cut: then the copy is logged once, one file is counted
  -- with its full length for the sender's side, and the rest of it is awaited.
  pub file-IsCopied :
      (sender : Side) (c line rest : Bytes) (e : ScpEntry) (x : Bytes) (xs : List Bytes) (k : ℕ)
      (s : ScpState)
      → from_source sender s ≡ true
      → s.scp_read_ahead ≡ 0
      → l.wire.get_string c ≡ some (67 ∷ line, rest)
      → l.scan_entry line ≡ some e
      → e.negative ≡ false
      → 0 < e.flength
      → Carries l (x ∷ xs) k
      → k ≤ e.flength
      → (t : ScpState) × (inspect_packets l sender (c ∷ x ∷ xs) s ≡ done t)
        × IsCopied sender e k s t
  unfolding inspect_packets
  file-IsCopied sender c line rest e x xs k s source idle got scanned positive some_bytes carried
        le =
      (
        lowered k (report_file sender (announced e s)),
        rw
            (
              inspected l sender c (67 ∷ line) rest s got source,
              announces line e sender s scanned positive idle,
            )
            (inspect_packets_counted l sender x xs k (announced e s) carried
              (announced_source sender e s source) some_bytes le),
        announced-IsCopied sender e k s,
      )
