-- ===== src/Sftp/Cases.antt =====
-- The cases of `inspect_sftp_request` of src/susshid/inspect-sftp.c, all but the extensions.
use susshi.Prelude.{ℕ, Option, none, some, is_empty, ltb, ◌==◌, if◌then◌else◌}
use susshi.Result.{Result, done, stop, crash, ◌>>=◌}
use susshi.Gateway.{Bytes}
use susshi.Sftp.Message.{fxp_write}
use susshi.Sftp.Session.{
  read_directory, unknown_handle, open_file, read_file, write_file, close_file, bytes_written,
  make_directory, set_attributes, set_handle_attributes, link, symlink, request_handle_attributes,
  lock_range, Event, SftpRequest, SftpHandle, SftpCore,
}
use susshi.Sftp.Tables.{set_request, set_handle, free_sftphandle}
use susshi.Sftp.Attributes.{both, pflags_string, flags_string, file_attr}
use susshi.Sftp.Library.{SftpLibrary, note, add64, reading, on_handle}

module _ (l : SftpLibrary) (rid : ℕ) (r : SftpRequest) (x : Bytes) (s : SftpCore) where
  -- A request that names a path, which is only logged.
  abbrev pub path_only : (Bytes → Event) → Result SftpCore
  path_only make = reading (l.wire.get_string x) r.id s λ p. done (note r.id (make p.0) s)

  -- A request that names a path, which is kept.
  abbrev pub path_kept : (Bytes → Event) → Result SftpCore
  path_kept make =
      reading (l.wire.get_string x) r.id s
        λ p. done (note r.id (make p.0) (set_request rid (record r { path = some p.0 }) s))

  abbrev pub two_paths : (Bytes → Bytes → Event) → Result SftpCore
  two_paths make =
      reading (both l.wire.get_string l.wire.get_string x) r.id s
        λ p. done (note r.id (make p.0.0 p.0.1) s)

  abbrev pub request_readdir : Result SftpCore
  request_readdir = reading (l.wire.get_string x) r.id s λ p.
      on_handle p.0 s (λ hid h. done (note r.id (read_directory h.path) s))
        (done (note r.id unknown_handle s))

  -- The access that is asked for and the flags are read into each other's field.
  abbrev pub open_new : Result SftpCore
  open_new = reading (both (both l.wire.get_string l.wire.get_u32) l.wire.get_u32 x) r.id s λ p. do
    let opened = record r { path = some p.0.0.0; flags = p.0.0.1; desired_access = p.0.1 }
    (attrs, x) ← file_attr l.wire l.text s.client_version p.1
    done (
        note r.id (open_file p.0.0.0 (flags_string opened.flags) (some opened.desired_access) attrs)
          (set_request rid (record opened { attributes = attrs }) s))

  abbrev pub open_old : Result SftpCore
  open_old = reading (both l.wire.get_string l.wire.get_u32 x) r.id s λ p. do
    let opened = record r { path = some p.0.0; flags = p.0.1 }
    (attrs, x) ← file_attr l.wire l.text s.client_version p.1
    done (
        note r.id (open_file p.0.0 (pflags_string opened.flags) none attrs)
          (set_request rid (record opened { attributes = attrs }) s))

  abbrev pub request_open : Result SftpCore
  request_open = if ltb 4 s.client_version then open_new else open_old

  -- The handle keeps which request used it last, and the request keeps the handle.
  abbrev pub link_handle : ℕ → SftpHandle → SftpCore
  link_handle hid h =
      set_request rid (record r { hid = hid })
        (set_handle hid (record h { request_type = r.type; request_id = r.id }) s)

  abbrev pub request_read : Result SftpCore
  request_read = reading (both (both l.wire.get_string l.text.get_u64) l.wire.get_u32 x) r.id s λ p.
      on_handle p.0.0.0 s
        (λ hid h. done (note r.id (read_file h.path p.0.1 p.0.0.1) (link_handle hid h))) (done s)

  abbrev pub written : ℕ → SftpCore → SftpCore
  written n s = record s { sftp_bytes_written = add64 s.sftp_bytes_written n }

  abbrev pub request_write : Result SftpCore
  request_write =
      reading (both (both l.wire.get_string l.text.get_u64) l.wire.get_u32 x) r.id s λ p.
        on_handle p.0.0.0 s
          (λ hid h. done (
            written p.0.1 (
              note r.id (write_file h.path p.0.1 p.0.0.1)
                (link_handle hid (record h { filesize = add64 h.filesize p.0.1 })))))
          (done s)

  -- The size is logged for a handle that was last written to.
  abbrev pub close_events : SftpHandle → SftpCore
  close_events h =
      let closed = note r.id (close_file h.path) s in
      if ltb 0 h.filesize
      then if h.request_type == fxp_write
        then note r.id (bytes_written h.filesize h.path) closed
        else closed
      else closed

  abbrev pub request_close : Result SftpCore
  request_close =
      if is_empty x
      then done s
      else reading (l.wire.get_string x) r.id s
          λ p. on_handle p.0 s (λ hid h. free_sftphandle hid (close_events h)) (done s)

  abbrev pub request_mkdir : Result SftpCore
  request_mkdir = reading (l.wire.get_string x) r.id s λ p. do
    (attrs, x) ← file_attr l.wire l.text s.client_version p.1
    done (note r.id (make_directory p.0 attrs) s)

  -- OpenSSH has the two paths the other way round.
  abbrev pub request_symlink : Result SftpCore
  request_symlink =
      if l.openssh_target then two_paths (λ target path. link path target) else two_paths link

  abbrev pub request_fstat : Result SftpCore
  request_fstat =
      reading (l.wire.get_string x) r.id s λ p.
        on_handle p.0 s (λ hid h. done (note r.id (request_handle_attributes h.path) s)) (done s)

  abbrev pub request_setstat : Result SftpCore
  request_setstat = reading (l.wire.get_string x) r.id s λ p. do
    (attrs, x) ← file_attr l.wire l.text s.client_version p.1
    done (note r.id (set_attributes p.0 attrs) s)

  abbrev pub request_fsetstat : Result SftpCore
  request_fsetstat = reading (l.wire.get_string x) r.id s λ p. do
    (attrs, x) ← file_attr l.wire l.text s.client_version p.1
    on_handle p.0 s (λ hid h. done (note r.id (set_handle_attributes h.path attrs) s)) (done s)

  abbrev pub request_link : Result SftpCore
  request_link =
      reading (both (both l.wire.get_string l.wire.get_string) l.wire.get_u8 x) r.id s λ p.
        done (note r.id (if p.0.1 == 1 then symlink p.0.0.0 p.0.0.1 else link p.0.0.0 p.0.0.1) s)

  abbrev pub read_range : Option ((((Bytes × ℕ) × ℕ) × ℕ) × Bytes)
  read_range = both (both (both l.wire.get_string l.text.get_u64) l.text.get_u64) l.wire.get_u32 x

  abbrev pub request_block : Result SftpCore
  request_block = reading read_range r.id s λ p.
      on_handle p.0.0.0.0 s
        (λ hid h. done (note r.id (lock_range h.path p.0.0.0.1 p.0.0.1 p.0.1) s)) (done s)

  -- The call of `ssh_buffer_unpack` has no argument for the mask, so reading it is undefined.
  abbrev pub request_unblock : Result SftpCore
  request_unblock = reading read_range r.id s λ p. stop crash
