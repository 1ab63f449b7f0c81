-- ===== src/Sftp/Tables.antt =====
-- The tables of requests and of handles: `susshi_alloc_new_sftprequest`,
-- `susshi_free_sftprequest`, `susshi_find_sftprequest`, `susshi_alloc_new_sftphandle`,
-- `susshi_free_sftphandle`, `susshi_find_sftphandle` and `data_to_hex` of
-- src/susshid/inspect-sftp.c.
pub mod Hex
mod Tests
use susshi.Prelude.{
  ℕ, zero, suc, ◌+◌, ◌-◌, ◌/◌, ◌%◌, Bool, true, false, ◌&&◌, Option, none, some, List, [], ◌∷◌,
  length, get_elem?, set, take, ltb, ◌==◌, if◌then◌else◌,
}
use susshi.Result.{Result, done, stop, crash, ◌>>=◌}
use susshi.Gateway.{Bytes}
use susshi.Slots.{alloc, release, find_slot_by}
use susshi.Sftp.Session.{SftpRequest, SftpHandle, SftpCore}

-- `xcalloc` and `memset` leave every field at zero.
abbrev pub fresh_request : SftpRequest
fresh_request = record {
  id = 0;
  type = 0;
  sftp_target_type = 0;
  flags = 0;
  desired_access = 0;
  attributes = none;
  hid = 0;
  path = none;
}

abbrev pub fresh_handle : SftpHandle
fresh_handle = record { request_id = 0; handle = []; path = none; filesize = 0; request_type = 0 }

-- `strcmp` on texts of hexadecimal digits.
unfoldable pub same_text : Bytes → Bytes → Bool
same_text [] [] = true
same_text (a ∷ x) (b ∷ y) = a == b && same_text x y
same_text [] (b ∷ y) = false
same_text (a ∷ x) [] = false

abbrev pub has_id : ℕ → SftpRequest → Bool
has_id id r = r.id == id

abbrev pub has_handle : Bytes → SftpHandle → Bool
has_handle handle h = same_text h.handle handle

unfoldable pub alloc_new_sftprequest : SftpCore → Result (ℕ × SftpCore)
unfolding alloc
alloc_new_sftprequest s = do
  (i, slots) ← alloc fresh_request s.sftp_requests
  done (i, record s { sftp_requests = slots })

unfoldable pub free_sftprequest : ℕ → SftpCore → Result SftpCore
unfolding release
free_sftprequest rid s = do
  slots ← release rid s.sftp_requests
  done (record s { sftp_requests = slots })

unfoldable pub find_sftprequest : ℕ → SftpCore → Option ℕ
unfolding find_slot_by
find_sftprequest id s = find_slot_by (has_id id) s.sftp_requests

unfoldable pub alloc_new_sftphandle : SftpCore → Result (ℕ × SftpCore)
unfolding alloc
alloc_new_sftphandle s = do
  (i, slots) ← alloc fresh_handle s.sftp_handles
  done (i, record s { sftp_handles = slots })

unfoldable pub free_sftphandle : ℕ → SftpCore → Result SftpCore
unfolding release
free_sftphandle hid s = do
  slots ← release hid s.sftp_handles
  done (record s { sftp_handles = slots })

unfoldable pub find_sftphandle : Bytes → SftpCore → Option ℕ
unfolding find_slot_by same_text
find_sftphandle handle s = find_slot_by (has_handle handle) s.sftp_handles

-- A read of a slot through its pointer.
abbrev pub used : {A : Type 0} → Option (Option A) → Result A
used (some (some a)) = done a
used _ = stop crash

unfoldable pub request_at : ℕ → SftpCore → Result SftpRequest
request_at rid s = used (get_elem? s.sftp_requests rid)

unfoldable pub handle_at : ℕ → SftpCore → Result SftpHandle
handle_at hid s = used (get_elem? s.sftp_handles hid)

unfoldable pub set_request : ℕ → SftpRequest → SftpCore → SftpCore
set_request rid r s = record s { sftp_requests = set s.sftp_requests rid (some r) }

unfoldable pub set_handle : ℕ → SftpHandle → SftpCore → SftpCore
set_handle hid h s = record s { sftp_handles = set s.sftp_handles hid (some h) }

-- `%02x` of a byte, as its two digits.
abbrev pub hex_digit : ℕ → ℕ
hex_digit n = if ltb n 10 then 48 + n else 87 + n

unfoldable pub hex_of : Bytes → Bytes
hex_of [] = []
hex_of (a ∷ x) = hex_digit (a / 16) ∷ hex_digit (a % 16) ∷ hex_of x

-- The text that a buffer of `buflen` bytes holds in the end: the loop runs while the digits of a
-- byte and the final NUL fit behind the `0x`.
unfoldable pub data_to_hex : ℕ → Bytes → Bytes
unfolding hex_of
data_to_hex buflen x =
    if ltb buflen 3
    then take (buflen - 1) (48 ∷ 120 ∷ [])
    else 48 ∷ 120 ∷ hex_of (take ((buflen - 3) / 2) x)
