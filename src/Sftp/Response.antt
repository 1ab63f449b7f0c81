-- ===== src/Sftp/Response.antt =====
-- `inspect_sftp_response` of src/susshid/inspect-sftp.c.
pub mod Rests
pub mod Outcome
pub mod Pairing
mod Tests
use susshi.Prelude.{
  ℕ, zero, suc, ◌+◌, String, Bool, true, false, not, ◌&&◌, Option, none, some, get_elem?, is_empty,
  ltb, ◌==◌, ◌||◌, if◌then◌else◌,
}
use susshi.Result.{Result, done, stop, crash, ◌>>=◌}
use susshi.Gateway.{Bytes}
use susshi.Sftp.Message.{fxp_write, fxp_data}
use susshi.Sftp.Session.{
  successful, end_of_file, end_of_listing, end_of_either, failed, result, name_entry, bytes_read,
  received_handle, handle_without_path, received_attributes, unsupported, extended_reply, underrun,
  bad_message, Attrs, Event, SftpRequest, SftpHandle, SftpCore,
}
use susshi.Sftp.Tables.{
  alloc_new_sftphandle, free_sftphandle, free_sftprequest, find_sftprequest, request_at, handle_at,
  set_request, set_handle, data_to_hex,
}
use susshi.Sftp.Attributes.{both, file_attr}
use susshi.Sftp.Library.{SftpLibrary, fxp_read, fxp_readdir, note, note_target, add64}

abbrev pub fxp_status : ℕ
fxp_status = 101

abbrev pub fxp_handle : ℕ
fxp_handle = 102

abbrev pub fxp_name : ℕ
fxp_name = 104

abbrev pub fxp_attrs : ℕ
fxp_attrs = 105

abbrev pub fxp_extended_reply : ℕ
fxp_extended_reply = 201

-- `SSH_FX_OP_UNSUPPORTED`, a status code that stands among the types of messages.
abbrev pub fx_op_unsupported : ℕ
fx_op_unsupported = 8

-- How a case ends: `break`, after which the request is freed, or `goto buffer_underrun`.
pub data Answered : Type 0 where
  answered : SftpCore → Answered
  short : SftpCore → Answered

abbrev pub answering : {A : Type 0} → Option A → SftpCore → (A → Result Answered) → Result Answered
answering none s k = done (short s)
answering (some a) s k = k a

module _ (l : SftpLibrary) (r : SftpRequest) (x : Bytes) (s : SftpCore) where
  abbrev pub ok_event : SftpCore
  ok_event = if r.type == fxp_read || r.type == fxp_write then s else note_target r.id successful s

  abbrev pub eof_event : SftpCore
  eof_event =
      note_target r.id
        (if r.type == fxp_read
          then end_of_file
          else if r.type == fxp_readdir
          then end_of_listing
          else end_of_either)
        s

  -- The name of a status is read from an array of 32 pointers, where `sizeof` counts 256 bytes.
  abbrev pub status_name : ℕ → Result (Option ℕ)
  status_name code =
      if ltb code 256 then if ltb code 32 then done (some code) else stop crash else done none

  abbrev pub failed_event : ℕ → Bytes → Result Answered
  failed_event code x =
      answering (l.wire.get_string x) s
        λ p. do name ← status_name code; done (answered (note_target r.id (failed name p.0) s))

  -- `sftp_handles[hid]`, which may be NULL, but must not be out of bounds.
  abbrev pub end_read_of : Option (Option SftpHandle) → Result SftpCore
  end_read_of none = stop crash
  end_read_of (some none) = done s
  end_read_of (some (some h)) =
      if ltb 0 h.filesize
      then free_sftphandle r.hid (note_target r.id (bytes_read h.filesize h.path) s)
      else done s

  -- The entries of a list of names.
  abbrev pub read_name : Bytes → Option (Bytes × Bytes)
  read_name x =
      if ltb 3 s.target_version
      then l.wire.get_string x
      else elim (both l.wire.get_string l.wire.get_string x) [
        | none ↦ none
        | some (names, x) ↦ some (names.0, x)
      ]

abbrev pub kept_answer : Result SftpCore → Result Answered
kept_answer m = do s ← m; done (answered s)

module _ (l : SftpLibrary) where
  abbrev pub one_name : SftpRequest → Bytes → Attrs → SftpCore → SftpCore
  one_name r path none s = note_target r.id (result path none) s
  one_name r path (some attrs) s =
      note_target r.id (result path (some attrs)) (note_target r.id (result path none) s)

  unfoldable pub names_loop : ℕ → SftpRequest → Bytes → SftpCore → Result Answered
  names_loop zero r x s = done (answered s)
  names_loop (suc count) r x s = answering (read_name l r x s x) s λ p. do
    (attrs, x) ← file_attr l.wire l.text s.target_version p.1
    names_loop count r x (note_target r.id (name_entry p.0 attrs) s)

  module _ (r : SftpRequest) (x : Bytes) (s : SftpCore) where
    abbrev pub end_read : Answered → Result Answered
    end_read (short s) = done (short s)
    end_read (answered s) =
        if r.type == fxp_read
        then kept_answer (end_read_of l r x s (get_elem? s.sftp_handles r.hid))
        else done (answered s)

    abbrev pub response_status : Result Answered
    response_status = answering (l.wire.get_u32 x) s λ p. do
      a ←
          if p.0 == 0
          then done (answered (ok_event l r x s))
          else if p.0 == 1
          then done (answered (eof_event l r x s))
          else failed_event l r x s p.0 p.1
      end_read a

    abbrev pub single_name : Bytes → Result Answered
    single_name x = answering (read_name l r x s x) s λ p. do
      (attrs, x) ← file_attr l.wire l.text s.target_version p.1
      done (answered (one_name r p.0 attrs s))

    abbrev pub response_name : Result Answered
    response_name =
        answering (l.wire.get_u32 x) s
          λ p. if p.0 == 1 then single_name p.1 else names_loop p.0 r p.1 s

    -- The new handle keeps the path of the request that it answers.
    abbrev pub new_handle : Bytes → Bytes → Result SftpCore
    new_handle path handle = do
      (hid, s) ← alloc_new_sftphandle s
      h ← handle_at hid s
      let text = data_to_hex 514 handle
      let known = record h { request_id = r.id; path = some path; handle = text }
      done (note_target r.id (received_handle path text) (set_handle hid known s))

    abbrev pub handle_for : Option Bytes → Bytes → Result SftpCore
    handle_for none handle = done (note_target r.id handle_without_path s)
    handle_for (some path) handle = new_handle path handle

    abbrev pub response_handle : Result Answered
    response_handle = answering (l.wire.get_string x) s λ p. kept_answer (handle_for r.path p.0)

    abbrev pub response_attrs : Result Answered
    response_attrs = do
      (attrs, x) ← file_attr l.wire l.text s.target_version x
      done (answered (note_target r.id (received_attributes attrs) s))

    -- The bytes are counted for the handle of the request.
    abbrev pub response_data : Result Answered
    response_data = answering (l.wire.get_u32 x) s λ p. do
      h ← handle_at r.hid s
      let s = set_handle r.hid (record h { filesize = add64 h.filesize p.0 }) s
      done (answered (record s { sftp_bytes_read = add64 s.sftp_bytes_read p.0 }))

    unfoldable pub by_response : ℕ → Result Answered
    unfolding names_loop
    by_response type =
        if type == fxp_status
        then response_status
        else if type == fxp_name
        then response_name
        else if type == fxp_handle
        then response_handle
        else if type == fxp_attrs
        then response_attrs
        else if type == fxp_data
        then response_data
        else if type == fx_op_unsupported
        then done (answered (note_target r.id unsupported s))
        else if type == fxp_extended_reply
        then done (answered (note_target r.id extended_reply s))
        else done (answered s)

  -- The request is freed, unless the message was too short.
  abbrev pub finish_answer : ℕ → ℕ → Answered → Result SftpCore
  finish_answer rid id (answered s) = free_sftprequest rid s
  finish_answer rid id (short s) = done (note id underrun s)

  abbrev pub answer : ℕ → ℕ → SftpRequest → Bytes → SftpCore → Result SftpCore
  answer rid type r x s =
      if ltb 0 r.type && ltb 0 type
      then by_response r x s type >>= finish_answer rid r.id
      else done s

  abbrev pub to_request : Option ℕ → ℕ → Bytes → SftpCore → Result SftpCore
  to_request none type x s = done s
  to_request (some rid) type x s = do
    r ← request_at rid s
    let r = record r { sftp_target_type = type }
    answer rid type r x (set_request rid r s)

  unfoldable pub inspect_sftp_response : ℕ → Bytes → SftpCore → Result SftpCore
  unfolding by_response
  inspect_sftp_response type x s = if is_empty x then done s else elim (l.wire.get_u32 x) [
    | none ↦ done (note 0 bad_message s)
    | some (id, x) ↦ to_request (find_sftprequest id s) type x s
  ]
