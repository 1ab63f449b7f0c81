-- ===== src/Sftp/Request.antt =====
-- `inspect_sftp_request` of src/susshid/inspect-sftp.c, with its case for extensions.
pub mod Rules
pub mod Kept
pub mod Stays
pub mod Outcome
pub mod Tests
use susshi.Prelude.{
  ℕ, String, Bool, true, false, not, Option, none, some, is_empty, ltb, ◌==◌, ◌||◌, str_eq, ◌^◌,
  ◌-◌, if◌then◌else◌,
}
use susshi.Result.{Result, done, stop, crash, ◌>>=◌}
use susshi.Gateway.{Bytes}
use susshi.Sftp.Message.{fxp_write}
use susshi.Sftp.Session.{
  canonicalize, open_directory, remove_file, remove_directory, resolve_link, rename,
  request_attributes, hardlink, rename_into, extension, statvfs, fstatvfs, fsync, expand_path,
  charset, renegotiated, translation, text_seek, bad_message, Event, SftpRequest, SftpHandle,
  SftpCore,
}
use susshi.Sftp.Tables.{fresh_request, alloc_new_sftprequest, set_request}
use susshi.Sftp.Attributes.{both}
use susshi.Sftp.Library.{
  SftpLibrary, strtonum, fxp_open, fxp_close, fxp_read, fxp_lstat, fxp_fstat, fxp_setstat,
  fxp_fsetstat, fxp_opendir, fxp_readdir, fxp_remove, fxp_mkdir, fxp_rmdir, fxp_realpath, fxp_stat,
  fxp_rename, fxp_readlink, fxp_symlink, fxp_link, fxp_block, fxp_unblock, fxp_extended, note,
  reading, on_handle,
}
use susshi.Sftp.Cases.{
  path_only, path_kept, two_paths, request_readdir, request_open, request_read, request_write,
  request_close, request_mkdir, request_symlink, request_fstat, request_setstat, request_fsetstat,
  request_link, request_block, request_unblock,
}

module _ (l : SftpLibrary) (rid : ℕ) (r : SftpRequest) (x : Bytes) (s : SftpCore) where
  abbrev pub at_least_3 : ℕ → ℕ
  at_least_3 v = if ltb v 3 then 3 else v

  abbrev pub version_of : Option ℕ → ℕ
  version_of none = 3
  version_of (some v) = at_least_3 v

  -- The read of the version is not checked, and `strtonum` reads through the pointer.
  abbrev pub version_select : Result SftpCore
  version_select = elim (l.wire.get_string x) [
    | none ↦ stop crash
    | some (v, x) ↦
        let version = version_of (strtonum (l.strtoll (l.get_char v)) 0 (2 ^ 31 - 1)) in
        done (record (note r.id (renegotiated v version) s) {
          client_version = version;
          target_version = version;
        })
  ]

  abbrev pub handle_only : (Option Bytes → Event) → Result SftpCore
  handle_only make =
      reading (l.wire.get_string x) r.id s
        λ p. on_handle p.0 s (λ hid h. done (note r.id (make h.path) s)) (done s)

  abbrev pub request_translation : Result SftpCore
  request_translation =
      reading (l.wire.get_u8 x) r.id s λ p. done (note r.id (translation (not (p.0 == 0))) s)

  abbrev pub request_seek : Result SftpCore
  request_seek =
      reading (both l.wire.get_string l.text.get_u64 x) r.id s
        λ p. on_handle p.0.0 s (λ hid h. done (note r.id (text_seek h.path p.0.1) s)) (done s)

  unfoldable pub by_extension : String → Result SftpCore
  by_extension name =
      if str_eq name "version-select"
      then version_select
      else if str_eq name "posix-rename@openssh.com"
      then two_paths l rid r x s rename_into
      else if str_eq name "statvfs@openssh.com"
      then path_only l rid r x s statvfs
      else if str_eq name "fstatvfs@openssh.com"
      then handle_only fstatvfs
      else if str_eq name "hardlink@openssh.com"
      then two_paths l rid r x s hardlink
      else if str_eq name "fsync@openssh.com"
      then handle_only fsync
      else if str_eq name "expand-path@openssh.com"
      then path_only l rid r x s expand_path
      else if str_eq name "filename-charset"
      then path_only l rid r x s charset
      else if str_eq name "filename-translation-control"
      then request_translation
      else if str_eq name "text-seek"
      then request_seek
      else done s

module _ (l : SftpLibrary) (rid : ℕ) (r : SftpRequest) (x : Bytes) (s : SftpCore) where
  unfoldable pub request_extended : Result SftpCore
  unfolding by_extension
  request_extended =
      reading (l.wire.get_string x) r.id s
        λ p. by_extension l rid r p.1 (note r.id (extension p.0) s) (l.get_char p.0)

  -- The switch on the type of the request.
  unfoldable pub by_request : ℕ → Result SftpCore
  unfolding request_extended
  by_request type =
      if type == fxp_realpath
      then path_kept l rid r x s canonicalize
      else if type == fxp_opendir
      then path_kept l rid r x s open_directory
      else if type == fxp_readdir
      then request_readdir l rid r x s
      else if type == fxp_open
      then request_open l rid r x s
      else if type == fxp_read
      then request_read l rid r x s
      else if type == fxp_write
      then request_write l rid r x s
      else if type == fxp_close
      then request_close l rid r x s
      else if type == fxp_remove
      then path_only l rid r x s remove_file
      else if type == fxp_mkdir
      then request_mkdir l rid r x s
      else if type == fxp_rmdir
      then path_only l rid r x s remove_directory
      else if type == fxp_rename
      then two_paths l rid r x s rename
      else if type == fxp_readlink
      then path_only l rid r x s resolve_link
      else if type == fxp_symlink
      then request_symlink l rid r x s
      else if type == fxp_stat || type == fxp_lstat
      then path_only l rid r x s request_attributes
      else if type == fxp_fstat
      then request_fstat l rid r x s
      else if type == fxp_setstat
      then request_setstat l rid r x s
      else if type == fxp_fsetstat
      then request_fsetstat l rid r x s
      else if type == fxp_extended
      then request_extended
      else if type == fxp_link
      then request_link l rid r x s
      else if type == fxp_block
      then request_block l rid r x s
      else if type == fxp_unblock
      then request_unblock l rid r x s
      else done s

module _ (l : SftpLibrary) where
  -- The new request, in its slot.
  abbrev pub begin_request : ℕ → ℕ → Bytes → SftpCore → Result SftpCore
  begin_request type id x s = do
    (rid, s) ← alloc_new_sftprequest s
    let r = record fresh_request { id = id; type = type }
    by_request l rid r x (set_request rid r s) type

  unfoldable pub inspect_sftp_request : ℕ → Bytes → SftpCore → Result SftpCore
  unfolding by_request
  inspect_sftp_request type x s = if is_empty x then done s else elim (l.wire.get_u32 x) [
    | none ↦ done (note 0 bad_message s)
    | some (id, x) ↦ begin_request type id x s
  ]
