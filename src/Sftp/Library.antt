-- ===== src/Sftp/Library.antt =====
-- What the inspection of file transfers uses: libssh, the C library, and `strtonum` of
-- src/shared/misc.c over the C library's `strtoll`. The types of messages, by the drafts of
-- draft-ietf-secsh-filexfer and include/susshid/inspect-sftp.h.
use susshi.Prelude.{
  ℕ, ◌+◌, ◌%◌, ◌^◌, String, Bool, true, false, not, ◌&&◌, ◌||◌, Option, none, some, ◌∷◌, ltb,
  if◌then◌else◌,
}
use susshi.Result.{Result, done, ◌>>=◌}
use susshi.Gateway.{Bytes, Wire}
use susshi.Sftp.Session.{Event, underrun, SftpHandle, SftpCore}
use susshi.Sftp.Tables.{data_to_hex, find_sftphandle, handle_at}
use susshi.Sftp.Attributes.{Text}

-- What `strtoll` tells of a text: whether it read a number, whether up to the end of the text, the
-- number's sign and size, and whether it was out of range.
pub record Number : Type 0 where
  pub begins : Bool
  pub ends : Bool
  pub negative : Bool
  pub size : ℕ
  pub overflows : Bool

-- `get_char` is `ssh_string_get_char`, read as a C string; `openssh_target` is whether
-- `ssh_get_openssh_version` knows the target's version.
pub record SftpLibrary : Type 0 where
  pub wire : Wire
  pub text : Text
  pub get_char : Bytes → String
  pub strtoll : String → Number
  pub openssh_target : Bool

-- `none` is an error; the bounds here are not negative.
unfoldable pub strtonum : Number → ℕ → ℕ → Option ℕ
strtonum n minval maxval =
    if ltb maxval minval
    then none
    else if not n.begins || not n.ends
    then none
    else if (n.negative && ltb 0 n.size) || ltb n.size minval
    then none
    else if n.overflows || ltb maxval n.size
    then none
    else some n.size

abbrev pub fxp_init : ℕ
fxp_init = 1

abbrev pub fxp_version : ℕ
fxp_version = 2

abbrev pub fxp_open : ℕ
fxp_open = 3

abbrev pub fxp_close : ℕ
fxp_close = 4

abbrev pub fxp_read : ℕ
fxp_read = 5

abbrev pub fxp_lstat : ℕ
fxp_lstat = 7

abbrev pub fxp_fstat : ℕ
fxp_fstat = 8

abbrev pub fxp_setstat : ℕ
fxp_setstat = 9

abbrev pub fxp_fsetstat : ℕ
fxp_fsetstat = 10

abbrev pub fxp_opendir : ℕ
fxp_opendir = 11

abbrev pub fxp_readdir : ℕ
fxp_readdir = 12

abbrev pub fxp_remove : ℕ
fxp_remove = 13

abbrev pub fxp_mkdir : ℕ
fxp_mkdir = 14

abbrev pub fxp_rmdir : ℕ
fxp_rmdir = 15

abbrev pub fxp_realpath : ℕ
fxp_realpath = 16

abbrev pub fxp_stat : ℕ
fxp_stat = 17

abbrev pub fxp_rename : ℕ
fxp_rename = 18

abbrev pub fxp_readlink : ℕ
fxp_readlink = 19

abbrev pub fxp_symlink : ℕ
fxp_symlink = 20

abbrev pub fxp_link : ℕ
fxp_link = 21

abbrev pub fxp_block : ℕ
fxp_block = 22

abbrev pub fxp_unblock : ℕ
fxp_unblock = 23

abbrev pub fxp_extended : ℕ
fxp_extended = 200

-- `log_sftp`, which always logs here, since this inspection is done only where file transfers are
-- logged. A message of the client, and one of the target.
unfoldable pub note : ℕ → Event → SftpCore → SftpCore
note id e s = record s { log = record { id = some id; from_client = true; event = e } ∷ s.log }

unfoldable pub note_target : ℕ → Event → SftpCore → SftpCore
note_target id e s = record s {
  log = record { id = some id; from_client = false; event = e } ∷ s.log;
}

abbrev pub add64 : ℕ → ℕ → ℕ
add64 a b = (a + b) % 2 ^ 64

-- `goto buffer_underrun` if a read fails.
abbrev pub reading :
    {A : Type 0} → Option A → ℕ → SftpCore → (A → Result SftpCore) → Result SftpCore
reading none id s k = done (note id underrun s)
reading (some a) id s k = k a

-- The handle that a text of bytes names, if it is known.
abbrev pub on_found :
    Option ℕ → SftpCore → (ℕ → SftpHandle → Result SftpCore) → Result SftpCore → Result SftpCore
on_found none s k otherwise = otherwise
on_found (some hid) s k otherwise = do h ← handle_at hid s; k hid h

unfoldable pub on_handle :
    Bytes → SftpCore → (ℕ → SftpHandle → Result SftpCore) → Result SftpCore → Result SftpCore
on_handle handle s = on_found (find_sftphandle (data_to_hex 514 handle) s) s
