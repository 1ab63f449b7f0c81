-- ===== src/Sftp/Request/Kept.antt =====
-- What the cases of `inspect_sftp_request` (src/susshid/inspect-sftp.c) leave alone, all but the
-- extensions.
use susshi.Prelude.{ℕ, ◌≡◌, arith, refl, inl, inr, Option, some, is_empty, ltb}
use susshi.Result.{done, crash, ◌>>=◌}
use susshi.Result.Ensures.{Ensures-stop, Ensures-if, Ensures-bind}
use susshi.Gateway.{Bytes}
use susshi.Slots.{release}
use susshi.Sftp.Message.{fxp_write}
use susshi.Sftp.Session.{Attrs, Event, SftpRequest, SftpHandle, SftpCore}
use susshi.Sftp.Tables.{set_request, set_handle, free_sftphandle}
use susshi.Sftp.Attributes.{file_attr}
use susshi.Sftp.Library.{SftpLibrary, note, reading}
use susshi.Sftp.Cases.{
  path_only, path_kept, two_paths, request_readdir, request_open, request_read, request_write,
  request_close, request_symlink, request_fsetstat, request_link, request_block, request_unblock,
  close_events,
}
use susshi.Sftp.Request.{handle_only}
use susshi.Sftp.Request.Rules.{
  Keeps, same_table, own_slot, Keeps-reading, Keeps-on_handle, unchanged, noted,
}

module _ (l : SftpLibrary) (rid : ℕ) (r : SftpRequest) (x : Bytes) (s : SftpCore) where
  pub path_only-Keeps : (make : Bytes → Event) → Keeps rid r s (path_only l rid r x s make)
  path_only-Keeps make = Keeps-reading rid r s (l.wire.get_string x) _ λ p. noted rid r s (make p.0)

  pub handle_only-Keeps :
      (make : Option Bytes → Event) → Keeps rid r s (handle_only l rid r x s make)
  handle_only-Keeps make = Keeps-reading rid r s (l.wire.get_string x) _ λ p.
      Keeps-on_handle rid r s p.0 _ _ (λ hid h. noted rid r s (make h.path)) (unchanged rid r s)

  pub path_kept-Keeps : (make : Bytes → Event) → Keeps rid r s (path_kept l rid r x s make)
  unfolding note set_request
  path_kept-Keeps make =
      Keeps-reading rid r s (l.wire.get_string x) _
        λ p. own_slot rid r s _ (record r { path = some p.0 }) refl refl refl refl (inr refl)

  pub freed :
      (hid : ℕ) (t : SftpCore)
      → t.sftp_requests ≡ s.sftp_requests
      → t.sftp_bytes_read ≡ s.sftp_bytes_read
      → t.sftp_bytes_written ≡ s.sftp_bytes_written
      → Keeps rid r s (free_sftphandle hid t)
  unfolding free_sftphandle
  freed hid t e e' e'' =
      Ensures-bind (release hid t.sftp_handles) _ λ slots f. same_table rid r s _ e e' e''

  pub close_events-same :
      (h : SftpHandle)
      → ((close_events l rid r x s h).sftp_requests ≡ s.sftp_requests)
        × ((close_events l rid r x s h).sftp_bytes_read ≡ s.sftp_bytes_read)
        × ((close_events l rid r x s h).sftp_bytes_written ≡ s.sftp_bytes_written)
  unfolding note
  close_events-same h = (ground arith, ground arith, ground arith)

  pub request_close-Keeps : Keeps rid r s (request_close l rid r x s)
  request_close-Keeps =
      Ensures-if (is_empty x) _ _ (λ _. unchanged rid r s)
        λ _. Keeps-reading rid r s (l.wire.get_string x) _ λ p.
          Keeps-on_handle rid r s p.0 _ _
            (λ hid h.
              let e = close_events-same h in freed hid (close_events l rid r x s h) e.0 e.1 e.2)
            (unchanged rid r s)

  pub request_write-Keeps : r.type ≡ fxp_write → Keeps rid r s (request_write l rid r x s)
  unfolding note set_request set_handle
  request_write-Keeps w = Keeps-reading rid r s _ _ λ p.
      Keeps-on_handle rid r s p.0.0.0 _ _
        (λ hid h. own_slot rid r s _ (record r { hid = hid }) refl refl refl refl (inl w))
        (unchanged rid r s)

  pub request_read-Keeps : Keeps rid r s (request_read l rid r x s)
  unfolding note set_request set_handle
  request_read-Keeps = Keeps-reading rid r s _ _ λ p.
      Keeps-on_handle rid r s p.0.0.0 _ _
        (λ hid h. own_slot rid r s _ (record r { hid = hid }) refl refl refl refl (inr refl))
        (unchanged rid r s)

  pub two_paths-Keeps : (make : Bytes → Bytes → Event) → Keeps rid r s (two_paths l rid r x s make)
  two_paths-Keeps make = Keeps-reading rid r s _ _ λ p. noted rid r s (make p.0.0 p.0.1)

  pub request_open-Keeps : Keeps rid r s (request_open l rid r x s)
  unfolding note set_request
  request_open-Keeps =
      Ensures-if (ltb 4 s.client_version) _ _
        (λ _. Keeps-reading rid r s _ _ λ p.
          Ensures-bind (file_attr l.wire l.text s.client_version p.1) _
            λ a e. own_slot rid r s _ _ refl refl refl refl (inr refl))
        λ _. Keeps-reading rid r s _ _ λ p.
          Ensures-bind (file_attr l.wire l.text s.client_version p.1) _
            λ a e. own_slot rid r s _ _ refl refl refl refl (inr refl)

  pub request_readdir-Keeps : Keeps rid r s (request_readdir l rid r x s)
  request_readdir-Keeps =
      Keeps-reading rid r s _ _
        λ p. Keeps-on_handle rid r s p.0 _ _ (λ hid h. noted rid r s _) (noted rid r s _)

  -- A path with attributes, which are only logged.
  pub with_attrs :
      (make : Bytes → Attrs → Event)
      → Keeps rid r s (
          reading (l.wire.get_string x) r.id s (λ p. do
            (attrs, x) ← file_attr l.wire l.text s.client_version p.1
            done (note r.id (make p.0 attrs) s)))
  with_attrs make = Keeps-reading rid r s (l.wire.get_string x) _ λ p.
      Ensures-bind (file_attr l.wire l.text s.client_version p.1) _
        λ a e. noted rid r s (make p.0 a.0)

  pub request_fsetstat-Keeps : Keeps rid r s (request_fsetstat l rid r x s)
  request_fsetstat-Keeps = Keeps-reading rid r s (l.wire.get_string x) _ λ p.
      Ensures-bind (file_attr l.wire l.text s.client_version p.1) _
        λ a e. Keeps-on_handle rid r s p.0 _ _ (λ hid h. noted rid r s _) (unchanged rid r s)

  pub request_symlink-Keeps : Keeps rid r s (request_symlink l rid r x s)
  request_symlink-Keeps =
      Ensures-if l.openssh_target _ _ (λ _. two_paths-Keeps _) (λ _. two_paths-Keeps _)

  pub request_link-Keeps : Keeps rid r s (request_link l rid r x s)
  request_link-Keeps = Keeps-reading rid r s _ _ λ p. noted rid r s _

  pub request_block-Keeps : Keeps rid r s (request_block l rid r x s)
  request_block-Keeps =
      Keeps-reading rid r s _ _
        λ p. Keeps-on_handle rid r s p.0.0.0.0 _ _ (λ hid h. noted rid r s _) (unchanged rid r s)

  pub request_unblock-Keeps : Keeps rid r s (request_unblock l rid r x s)
  request_unblock-Keeps = Keeps-reading rid r s _ _ λ p. Ensures-stop crash
