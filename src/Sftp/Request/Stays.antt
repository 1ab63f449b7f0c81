-- ===== src/Sftp/Request/Stays.antt =====
-- What `inspect_sftp_request` (src/susshid/inspect-sftp.c) and its extensions leave alone.
use susshi.Prelude.{ℕ, ◌^◌, ◌-◌, String, arith, refl, Option, none, some, ◌||◌, ◌==◌, str_eq}
use susshi.Result.{done, stop, crash}
use susshi.Result.Ensures.{Ensures-stop, Ensures-if, Ensures-weaken}
use susshi.Gateway.{Bytes}
use susshi.Sftp.Message.{fxp_write}
use susshi.Sftp.Session.{
  canonicalize, open_directory, remove_file, remove_directory, resolve_link, rename,
  request_attributes, request_handle_attributes, make_directory, set_attributes, hardlink,
  rename_into, extension, statvfs, fstatvfs, fsync, expand_path, charset, renegotiated, SftpRequest,
  SftpCore,
}
use susshi.Sftp.Library.{
  SftpLibrary, strtonum, fxp_open, fxp_close, fxp_read, fxp_lstat, fxp_fstat, fxp_setstat,
  fxp_fsetstat, fxp_opendir, fxp_readdir, fxp_remove, fxp_mkdir, fxp_rmdir, fxp_realpath, fxp_stat,
  fxp_rename, fxp_readlink, fxp_symlink, fxp_link, fxp_block, fxp_unblock, fxp_extended, note,
}
use susshi.Sftp.Request.{
  version_of, version_select, request_translation, request_seek, by_extension, request_extended,
  by_request,
}
use susshi.Sftp.Request.Rules.{Keeps, same_table, Keeps-reading, Keeps-on_handle, unchanged, noted}
use susshi.Sftp.Request.Kept.{
  path_only-Keeps, handle_only-Keeps, path_kept-Keeps, request_close-Keeps, request_write-Keeps,
  request_read-Keeps, two_paths-Keeps, request_open-Keeps, request_readdir-Keeps, with_attrs,
  request_fsetstat-Keeps, request_symlink-Keeps, request_link-Keeps, request_block-Keeps,
  request_unblock-Keeps,
}

module _ (l : SftpLibrary) (rid : ℕ) (r : SftpRequest) (x : Bytes) (s : SftpCore) where
  request_seek-Keeps : Keeps rid r s (request_seek l rid r x s)
  request_seek-Keeps =
      Keeps-reading rid r s _ _
        λ p. Keeps-on_handle rid r s p.0.0 _ _ (λ hid h. noted rid r s _) (unchanged rid r s)

  request_translation-Keeps : Keeps rid r s (request_translation l rid r x s)
  request_translation-Keeps = Keeps-reading rid r s _ _ λ p. noted rid r s _

  version_select-Keeps : Keeps rid r s (version_select l rid r x s)
  unfolding note
  version_select-Keeps = by_read (l.wire.get_string x)
    where
      by_read :
          (o : Option (Bytes × Bytes))
          → Keeps rid r s (elim o [
            | none ↦ stop crash
            | some (v, x) ↦
                let version =
                  version_of l rid r x s (strtonum (l.strtoll (l.get_char v)) 0 (2 ^ 31 - 1)) in
                done (record (note r.id (renegotiated v version) s) {
                  client_version = version;
                  target_version = version;
                })
          ])
      by_read none = Ensures-stop crash
      by_read (some (v, x)) = same_table rid r s _ refl refl refl

  by_extension-Keeps : (name : String) → Keeps rid r s (by_extension l rid r x s name)
  unfolding by_extension
  by_extension-Keeps name =
      Ensures-if (str_eq name "version-select") _ _ (λ _. version_select-Keeps)
        λ _.
          Ensures-if (str_eq name "posix-rename@openssh.com") _ _
            (λ _. two_paths-Keeps l rid r x s rename_into)
            λ _.
              Ensures-if (str_eq name "statvfs@openssh.com") _ _
                (λ _. path_only-Keeps l rid r x s statvfs)
                λ _.
                  Ensures-if (str_eq name "fstatvfs@openssh.com") _ _
                    (λ _. handle_only-Keeps l rid r x s fstatvfs)
                    λ _.
                      Ensures-if (str_eq name "hardlink@openssh.com") _ _
                        (λ _. two_paths-Keeps l rid r x s hardlink)
                        λ _.
                          Ensures-if (str_eq name "fsync@openssh.com") _ _
                            (λ _. handle_only-Keeps l rid r x s fsync)
                            λ _.
                              Ensures-if (str_eq name "expand-path@openssh.com") _ _
                                (λ _. path_only-Keeps l rid r x s expand_path)
                                λ _.
                                  Ensures-if (str_eq name "filename-charset") _ _
                                    (λ _. path_only-Keeps l rid r x s charset)
                                    λ _.
                                      Ensures-if (str_eq name "filename-translation-control") _ _
                                        (λ _. request_translation-Keeps)
                                        λ _.
                                          Ensures-if (str_eq name "text-seek") _ _
                                            (λ _. request_seek-Keeps) λ _. unchanged rid r s

module _ (l : SftpLibrary) (rid : ℕ) (r : SftpRequest) (x : Bytes) (s : SftpCore) where
  request_extended-Keeps : Keeps rid r s (request_extended l rid r x s)
  unfolding request_extended note
  request_extended-Keeps = Keeps-reading rid r s (l.wire.get_string x) _ λ p.
      Ensures-weaken _ (λ t k. record { requests = k.requests; read = k.read; written = k.written })
        (by_extension-Keeps l rid r p.1 (note r.id (extension p.0) s) (l.get_char p.0))

  -- The request of slot `rid` keeps its number and type, no other slot changes, no bytes are read,
  -- and none are written but by a WRITE.
  pub by_request-Keeps : Keeps rid r s (by_request l rid r x s r.type)
  unfolding by_request
  by_request-Keeps =
      Ensures-if (r.type == fxp_realpath) _ _ (λ _. path_kept-Keeps l rid r x s canonicalize)
        λ _.
          Ensures-if (r.type == fxp_opendir) _ _ (λ _. path_kept-Keeps l rid r x s open_directory)
            λ _.
              Ensures-if (r.type == fxp_readdir) _ _ (λ _. request_readdir-Keeps l rid r x s)
                λ _.
                  Ensures-if (r.type == fxp_open) _ _ (λ _. request_open-Keeps l rid r x s)
                    λ _.
                      Ensures-if (r.type == fxp_read) _ _ (λ _. request_read-Keeps l rid r x s)
                        λ _.
                          Ensures-if (r.type == fxp_write) _ _
                            (λ e. request_write-Keeps l rid r x s (ground arith))
                            λ _.
                              Ensures-if (r.type == fxp_close) _ _
                                (λ _. request_close-Keeps l rid r x s)
                                λ _.
                                  Ensures-if (r.type == fxp_remove) _ _
                                    (λ _. path_only-Keeps l rid r x s remove_file)
                                    λ _.
                                      Ensures-if (r.type == fxp_mkdir) _ _
                                        (λ _. with_attrs l rid r x s make_directory)
                                        λ _.
                                          Ensures-if (r.type == fxp_rmdir) _ _
                                            (λ _. path_only-Keeps l rid r x s remove_directory)
                                            λ _.
                                              Ensures-if (r.type == fxp_rename) _ _
                                                (λ _. two_paths-Keeps l rid r x s rename)
                                                λ _.
                                                  Ensures-if (r.type == fxp_readlink) _ _
                                                    (λ _. path_only-Keeps l rid r x s resolve_link)
                                                    λ _.
                                                      Ensures-if (r.type == fxp_symlink) _ _
                                                        (λ _. request_symlink-Keeps l rid r x s)
                                                        λ _.
                                                          Ensures-if
                                                            (r.type == fxp_stat
                                                            || r.type == fxp_lstat)
                                                            _ _
                                                            (λ _.
                                                            path_only-Keeps l rid r x s
                                                            request_attributes)
                                                            λ _.
                                                            Ensures-if (r.type == fxp_fstat) _ _
                                                            (λ _.
                                                            handle_only-Keeps l rid r x s
                                                            request_handle_attributes)
                                                            λ _.
                                                            Ensures-if (r.type == fxp_setstat) _ _
                                                            (λ _.
                                                            with_attrs l rid r x s set_attributes)
                                                            λ _.
                                                            Ensures-if (r.type == fxp_fsetstat) _ _
                                                            (λ _.
                                                            request_fsetstat-Keeps l rid r x s)
                                                            λ _.
                                                            Ensures-if (r.type == fxp_extended) _ _
                                                            (λ _. request_extended-Keeps)
                                                            λ _.
                                                            Ensures-if (r.type == fxp_link) _ _
                                                            (λ _. request_link-Keeps l rid r x s)
                                                            λ _.
                                                            Ensures-if (r.type == fxp_block) _ _
                                                            (λ _. request_block-Keeps l rid r x s)
                                                            λ _.
                                                            Ensures-if (r.type == fxp_unblock) _ _
                                                            (λ _. request_unblock-Keeps l rid r x s)
                                                            λ _. unchanged rid r s
