-- ===== src/Scp.antt =====
-- Inspection of secure copy: `susshi_inspect_scp_data` of src/susshid/inspect-scp.c.
pub mod Content
pub mod Copied
mod Tests
use susshi.Prelude.{
  ℕ, zero, suc, ◌+◌, ◌-◌, Bool, true, false, ◌&&◌, ◌||◌, Option, none, some, List, [], ◌∷◌, ◌++◌,
  is_empty, length, drop, ltb, ◌==◌, if◌then◌else◌,
}
use susshi.Result.{Result, done, stop, crash, need, ◌>>=◌}
use susshi.Gateway.{Bytes, Wire}
use susshi.Session.{Side, is_client, same_side, ChannelScpMode, scp_unknown, scp_source, scp_sink}
use susshi.Sftp.Library.{add64}

-- The mode, the length and the name of a file or a directory. `negative` is the sign of the length.
pub record ScpEntry : Type 0 where
  pub fmode : Bytes
  pub negative : Bool
  pub flength : ℕ
  pub fname : Bytes

-- The C library: `sscanf` of an entry, of two times, and of a text up to the end of the line, and
-- `strchr` of the end of a line with the text before it. bstrlib: `blength`, `bformata`, and
-- `bstrrchr` of a slash with `btrunc`, for strings that may be NULL.
pub record ScpLibrary : Type 0 where
  pub wire : Wire
  pub scan_entry : Bytes → Option ScpEntry
  pub scan_times : Bytes → Option (ℕ × ℕ)
  pub scan_text : Bytes → Option Bytes
  pub line_of : Bytes → Option Bytes
  pub blength : Option Bytes → ℕ
  pub bformata : Option Bytes → Bytes → Option Bytes
  pub last_slash : Option Bytes → Option ℕ
  pub btrunc : Option Bytes → ℕ → Option Bytes

-- What is logged, before it is formatted.
pub data ScpEvent : Type 0 where
  copy_file : Option Bytes → ScpEntry → ScpEvent
  copy_directory : Option Bytes → ScpEntry → ScpEvent
  end_of_directory : ScpEvent
  next_times : ℕ → ℕ → ScpEvent
  source_message : ℕ → Bytes → ScpEvent
  sink_message : ℕ → Option Bytes → ScpEvent

-- The fields of the channel and of the report. The length that is read ahead is only looked at
-- where it is positive, so 0 stands for negative ones; `dir_ends` and `dir_begins` are what
-- `scp_dir_depth` is lowered and raised by.
pub record ScpState : Type 0 where
  pub requestor : Side
  pub scp_requestor_mode : ChannelScpMode
  pub scp_read_ahead : ℕ
  pub scp_dir_name : Option Bytes
  pub dir_begins : ℕ
  pub dir_ends : ℕ
  pub scp_files_maycount : Bool
  pub scp_files_read : ℕ
  pub scp_files_written : ℕ
  pub scp_bytes_read : ℕ
  pub scp_bytes_written : ℕ
  pub log : List ScpEvent

abbrev pub log_scp : ScpEvent → ScpState → ScpState
log_scp e s = record s { log = e ∷ s.log }

-- Whether the sender is the source of the files.
abbrev pub not_sink : ChannelScpMode → Bool
not_sink scp_sink = false
not_sink scp_source = true
not_sink scp_unknown = true

abbrev pub is_sink : ChannelScpMode → Bool
is_sink scp_sink = true
is_sink scp_source = false
is_sink scp_unknown = false

unfoldable pub from_source : Side → ScpState → Bool
from_source sender s =
    if same_side sender s.requestor
    then not_sink s.scp_requestor_mode
    else is_sink s.scp_requestor_mode

-- The file of which data comes is counted once.
unfoldable pub report_file : Side → ScpState → ScpState
report_file sender s =
    if s.scp_files_maycount
    then if is_client sender
      then record s {
        scp_files_maycount = false;
        scp_files_written = s.scp_files_written + 1;
        scp_bytes_written = add64 s.scp_bytes_written s.scp_read_ahead;
      }
      else record s {
        scp_files_maycount = false;
        scp_files_read = s.scp_files_read + 1;
        scp_bytes_read = add64 s.scp_bytes_read s.scp_read_ahead;
      }
    else s

-- How many of the bytes after a command are passed over, with the new state; `none` is all.
abbrev pub Step : Type 0
Step = Option ℕ × ScpState

module _ (l : ScpLibrary) where
  abbrev pub ahead : ScpEntry → ℕ
  ahead e = if e.negative then 0 else e.flength

  abbrev pub on_file : Option ScpEntry → ScpState → Step
  on_file none s = (some 0, s)
  on_file (some e) s = (
    none,
    record (log_scp (copy_file s.scp_dir_name e) s) {
      scp_read_ahead = ahead e;
      scp_files_maycount = true;
    },
  )

  abbrev pub path_in : Option Bytes → Bytes → Bytes
  path_in dir name = if ltb 0 (l.blength dir) then 47 ∷ name else name

  abbrev pub in_directory : Option ScpEntry → ScpState → ScpState
  in_directory none s = s
  in_directory (some e) s =
      let dir = l.bformata s.scp_dir_name (path_in s.scp_dir_name e.fname) in
      log_scp (copy_directory dir e) (record s { scp_dir_name = dir })

  abbrev pub deeper : ScpState → ScpState
  deeper s = record s { dir_begins = s.dir_begins + 1 }

  abbrev pub parent_at : Option ℕ → Option Bytes → Option Bytes
  parent_at none dir = dir
  parent_at (some i) dir = if ltb 0 i then l.btrunc dir i else dir

  abbrev pub on_times : Option (ℕ × ℕ) → ScpState → ScpState
  on_times none s = s
  on_times (some t) s = log_scp (next_times t.0 t.1) s

  abbrev pub on_text : ℕ → Option Bytes → ScpState → Step
  on_text cmd none s = (some 0, s)
  on_text cmd (some text) s = (some (length text + 1), log_scp (source_message cmd text) s)

  -- A command that is no letter of the protocol is read as a `char`, which is signed.
  unfoldable pub command : ℕ → Bytes → ScpState → Step
  command cmd rest s =
      if cmd == 67
      then on_file (l.scan_entry rest) s
      else if cmd == 68
      then (none, deeper (in_directory (l.scan_entry rest) s))
      else if cmd == 69
      then (
        none,
        log_scp end_of_directory (record s {
          dir_ends = s.dir_ends + 1;
          scp_dir_name = parent_at (l.last_slash s.scp_dir_name) s.scp_dir_name;
        }),
      )
      else if cmd == 84
      then (none, on_times (l.scan_times rest) s)
      else if ltb 0 cmd && ltb cmd 128
      then on_text cmd (l.scan_text rest) s
      else (some 0, s)

  abbrev pub after_command : (ℕ → ScpState → ScpState) → Step → ScpState
  after_command go (none, s) = s
  after_command go (some n, s) = go n s

  -- The loop over the data; the number tells how many bytes are still to be passed over.
  unfoldable pub readmsg : Bytes → ℕ → ScpState → ScpState
  unfolding command
  readmsg [] n s = s
  readmsg (cmd ∷ rest) zero s = after_command (readmsg rest) (command cmd rest s)
  readmsg (cmd ∷ rest) (suc n) s = readmsg rest n s

  -- Data while bytes of a file are awaited: the number of these comes with one byte more.
  abbrev pub content : Bytes → ScpState → ScpState
  content x s =
      if ltb (s.scp_read_ahead + 1) (length x)
      then readmsg (drop s.scp_read_ahead x) 0 (record s { scp_read_ahead = 0 })
      else record s { scp_read_ahead = s.scp_read_ahead - length x }

  unfoldable pub from_source_side : Side → Bytes → ScpState → ScpState
  unfolding readmsg report_file
  from_source_side sender x s =
      if ltb 0 s.scp_read_ahead then content x (report_file sender s) else readmsg x 0 s

  abbrev pub text_of : Bytes → Option Bytes
  text_of rest = if is_empty rest then none else l.line_of rest

  -- A warning or an error ends the copy of the file.
  abbrev pub sink_reply : ℕ → Bytes → ScpState → ScpState
  sink_reply reply rest s =
      if ltb 0 reply && ltb reply 3
      then record (log_scp (sink_message reply (text_of rest)) s) {
        scp_read_ahead = 0;
        scp_files_maycount = false;
      }
      else s

  abbrev pub from_sink_side : Bytes → ScpState → Result ScpState
  from_sink_side [] s = stop crash
  from_sink_side (reply ∷ rest) s = done (sink_reply reply rest s)

  unfoldable pub inspect_scp_data : Side → Bytes → ScpState → Result ScpState
  unfolding from_source from_source_side
  inspect_scp_data sender x s = do
    (text, x) ← need (l.wire.get_string x)
    if from_source sender s then done (from_source_side sender text s) else from_sink_side text s
