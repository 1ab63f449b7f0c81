-- ===== src/Sftp/Response/Rests.antt =====
-- What the cases of `inspect_sftp_response` (src/susshid/inspect-sftp.c) leave alone.
use susshi.Prelude.{
  ℕ, zero, suc, ◌≡◌, refl, ◌∙◌, Bool, true, false, ◌||◌, Option, none, some, get_elem?, ltb, ◌==◌,
  if◌then◌else◌,
}
use susshi.Result.{Result, done, crash}
use susshi.Result.Ensures.{
  Ensures, Ensures-done, Ensures-stop, Ensures-if, Ensures-bind, Ensures-weaken,
}
use susshi.Gateway.{Bytes}
use susshi.Slots.{alloc, release}
use susshi.Sftp.Message.{fxp_write}
use susshi.Sftp.Session.{
  SftpRequest, SftpHandle, SftpCore, Event, Attrs, received_attributes, failed, name_entry,
  successful,
}
use susshi.Sftp.Tables.{fresh_handle, free_sftphandle, alloc_new_sftphandle, handle_at, set_handle}
use susshi.Sftp.Attributes.{file_attr}
use susshi.Sftp.Library.{SftpLibrary, fxp_read, note_target}
use susshi.Sftp.Response.{
  Answered, answered, short, answering, ok_event, eof_event, status_name, failed_event, end_read_of,
  read_name, kept_answer, one_name, names_loop, end_read, response_status, single_name,
  response_name, new_handle, handle_for, response_handle, response_attrs,
}

-- From `s` to `t` the table of requests and the bytes written are the same.
pub record Rests (s t : SftpCore) : Type 0 where
  pub requests : t.sftp_requests ≡ s.sftp_requests
  pub written : t.sftp_bytes_written ≡ s.sftp_bytes_written
  pub read : t.sftp_bytes_read ≡ s.sftp_bytes_read

abbrev pub core_of : Answered → SftpCore
core_of (answered s) = s
core_of (short s) = s

pub rests : (s : SftpCore) → Rests s s
rests s = record { requests = refl; written = refl; read = refl }

pub noted : (s : SftpCore) (id : ℕ) (e : Event) → Rests s (note_target id e s)
unfolding note_target
noted s id e = record { requests = refl; written = refl; read = refl }

then-Rests : {s t u : SftpCore} → Rests s t → Rests t u → Rests s u
then-Rests a b = record {
  requests = b.requests ∙ a.requests;
  written = b.written ∙ a.written;
  read = b.read ∙ a.read;
}

abbrev pub Keeps : SftpCore → Result Answered → Type 0
Keeps s = Ensures (λ a. Rests s (core_of a))

module _ (s : SftpCore) where
  pub ends : (t : SftpCore) → Rests s t → Keeps s (done (answered t))
  ends t k = Ensures-done (answered t) k

  Keeps-answering :
      {A : Type 0} (o : Option A) (k : A → Result Answered)
      → ((a : A) → Keeps s (k a))
      → Keeps s (answering o s k)
  Keeps-answering none k h = Ensures-done (short s) (rests s)
  Keeps-answering (some a) k h = h a

  Keeps-kept : (m : Result SftpCore) → Ensures (Rests s) m → Keeps s (kept_answer m)
  Keeps-kept m h = Ensures-bind m _ λ t e. ends t (h.at t e)

  Rests-if : (c : Bool) (t u : SftpCore) → Rests s t → Rests s u → Rests s (if c then t else u)
  Rests-if true t u a b = a
  Rests-if false t u a b = b

module _ (l : SftpLibrary) where
  pub freed : (s t : SftpCore) (hid : ℕ) → Rests s t → Ensures (Rests s) (free_sftphandle hid t)
  unfolding free_sftphandle
  freed s t hid k = Ensures-bind (release hid t.sftp_handles) _ λ slots e.
      Ensures-done _ (record { requests = k.requests; written = k.written; read = k.read })

  module _ (r : SftpRequest) (x : Bytes) (s : SftpCore) where
    end_read_of-Rests : (o : Option (Option SftpHandle)) → Ensures (Rests s) (end_read_of l r x s o)
    end_read_of-Rests none = Ensures-stop crash
    end_read_of-Rests (some none) = Ensures-done s (rests s)
    end_read_of-Rests (some (some h)) =
        Ensures-if (ltb 0 h.filesize) _ _ (λ _. freed s _ r.hid (noted s r.id _))
          λ _. Ensures-done s (rests s)

    failed_event-Keeps : (code : ℕ) (y : Bytes) → Keeps s (failed_event l r x s code y)
    failed_event-Keeps code y = Keeps-answering s (l.wire.get_string y) _ λ p.
        Ensures-bind (status_name l r x s code) _
          λ name e. ends s _ (noted s r.id (failed name p.0))

  end_read-Keeps :
      (r : SftpRequest) (x : Bytes) (s : SftpCore) (a : Answered)
      → Rests s (core_of a)
      → Keeps s (end_read l r x s a)
  end_read-Keeps r x s (short t) k = Ensures-done (short t) k
  end_read-Keeps r x s (answered t) k =
      Ensures-if (r.type == fxp_read) _ _
        (λ _. Keeps-kept s _ (
          Ensures-weaken _ (λ u k'. then-Rests k k')
            (end_read_of-Rests r x t (get_elem? t.sftp_handles r.hid))))
        λ _. ends s t k

  module _ (r : SftpRequest) (x : Bytes) (s : SftpCore) where
    ok_event-Rests : Rests s (ok_event l r x s)
    ok_event-Rests =
        Rests-if s (r.type == fxp_read || r.type == fxp_write) s _ (rests s)
          (noted s r.id successful)

    status_event :
        (code : ℕ) (y : Bytes)
        → Keeps s (
            if code == 0
            then done (answered (ok_event l r x s))
            else if code == 1
            then done (answered (eof_event l r x s))
            else failed_event l r x s code y)
    status_event code y =
        Ensures-if (code == 0) _ _ (λ _. ends s _ ok_event-Rests)
          λ _.
            Ensures-if (code == 1) _ _ (λ _. ends s _ (noted s r.id _))
              λ _. failed_event-Keeps r x s code y

    pub response_status-Keeps : Keeps s (response_status l r x s)
    response_status-Keeps =
        Keeps-answering s (l.wire.get_u32 x) _
          λ p. Ensures-bind _ _ λ a e. end_read-Keeps r x s a ((status_event p.0 p.1).at a e)

    one_name-Rests : (path : Bytes) (attrs : Attrs) → Rests s (one_name l r path attrs s)
    one_name-Rests path none = noted s r.id _
    one_name-Rests path (some attrs) = then-Rests (noted s r.id _) (noted _ r.id _)

    single_name-Keeps : (y : Bytes) → Keeps s (single_name l r x s y)
    single_name-Keeps y = Keeps-answering s (read_name l r y s y) _ λ p.
        Ensures-bind (file_attr l.wire l.text s.target_version p.1) _
          λ a e. ends s _ (one_name-Rests p.0 a.0)

  names_loop-Keeps :
      (count : ℕ) (r : SftpRequest) (x : Bytes) (s : SftpCore) → Keeps s (names_loop l count r x s)
  unfolding names_loop
  names_loop-Keeps zero r x s = ends s s (rests s)
  names_loop-Keeps (suc count) r x s = Keeps-answering s (read_name l r x s x) _ λ p.
      Ensures-bind (file_attr l.wire l.text s.target_version p.1) _ λ a e.
        Ensures-weaken _ (λ b k. then-Rests (noted s r.id (name_entry p.0 a.0)) k)
          (names_loop-Keeps count r a.1 (note_target r.id (name_entry p.0 a.0) s))

  module _ (r : SftpRequest) (x : Bytes) (s : SftpCore) where
    pub response_name-Keeps : Keeps s (response_name l r x s)
    response_name-Keeps = Keeps-answering s (l.wire.get_u32 x) _ λ p.
        Ensures-if (p.0 == 1) _ _ (λ _. single_name-Keeps r x s p.1)
          λ _. names_loop-Keeps p.0 r p.1 s

    new_slot-Rests : Ensures (λ a. Rests s a.1) (alloc_new_sftphandle s)
    unfolding alloc_new_sftphandle
    new_slot-Rests =
        Ensures-bind (alloc fresh_handle s.sftp_handles) _
          λ a e. Ensures-done _ (record { requests = refl; written = refl; read = refl })

    new_handle-Rests : (path handle : Bytes) → Ensures (Rests s) (new_handle l r x s path handle)
    unfolding set_handle note_target
    new_handle-Rests path handle = Ensures-bind (alloc_new_sftphandle s) _ λ a e.
        Ensures-bind (handle_at a.0 a.1) _ λ h e'.
          let k = new_slot-Rests.at a e in
          Ensures-done _ (record { requests = k.requests; written = k.written; read = k.read })

    handle_for-Rests :
        (path : Option Bytes) (handle : Bytes) → Ensures (Rests s) (handle_for l r x s path handle)
    handle_for-Rests none handle = Ensures-done _ (noted s r.id _)
    handle_for-Rests (some path) handle = new_handle-Rests path handle

    pub response_handle-Keeps : Keeps s (response_handle l r x s)
    response_handle-Keeps =
        Keeps-answering s (l.wire.get_string x) _ λ p. Keeps-kept s _ (handle_for-Rests r.path p.0)

    pub response_attrs-Keeps : Keeps s (response_attrs l r x s)
    response_attrs-Keeps =
        Ensures-bind (file_attr l.wire l.text s.target_version x) _
          λ a e. ends s _ (noted s r.id (received_attributes a.0))
