-- ===== src/Sftp/Session.antt =====
-- The state of the inspection of file transfers: `SftpSession`, `SftpRequest` and `SftpHandle` of
-- include/susshid/inspect-sftp.h, the counters of bytes of include/susshid/report.h, and what is
-- written to the log of file transfers.
use susshi.Prelude.{ℕ, String, Bool, Option, List}
use susshi.Gateway.{Bytes}
use susshi.Sftp.Message.{SftpMessage}

-- Which time an attribute tells, and a part of the attributes of a file, before it is formatted.
pub data TimeKind : Type 0 where
  atime createtime mtime ctime : TimeKind

pub record Ace : Type 0 where
  pub type : ℕ
  pub flag : ℕ
  pub mask : ℕ
  pub who : Option Bytes

pub data Attr : Type 0 where
  file_type : String → Attr
  size alloc_size perm link_count nseconds : ℕ → Attr
  owner_group extended : Bytes → Bytes → Attr
  uid_gid times attrib_bits : ℕ → ℕ → Attr
  time : TimeKind → ℕ → Attr
  acl : Option (List Ace) → Attr
  text_hint : String → Attr
  mime_type untranslated_name : Bytes → Attr

-- The formatted text of attributes, or NULL.
abbrev pub Attrs : Type 0
Attrs = Option (List Attr)

-- What the function `log_sftp` is called with, before it is formatted.
pub data Event : Type 0 where
  client_version server_version : ℕ → Event
  client_extension server_extension : Bytes → Bytes → Event
  canonicalize open_directory : Bytes → Event
  read_directory close_file request_handle_attributes fstatvfs fsync : Option Bytes → Event
  unknown_handle : Event
  open_file : Bytes → List String → Option ℕ → Attrs → Event
  read_file write_file : Option Bytes → ℕ → ℕ → Event
  remove_file remove_directory resolve_link : Bytes → Event
  bytes_written bytes_read : ℕ → Option Bytes → Event
  make_directory set_attributes : Bytes → Attrs → Event
  set_handle_attributes : Option Bytes → Attrs → Event
  rename link symlink hardlink rename_into : Bytes → Bytes → Event
  request_attributes extension statvfs expand_path charset : Bytes → Event
  renegotiated : Bytes → ℕ → Event
  translation : Bool → Event
  text_seek : Option Bytes → ℕ → Event
  lock_range : Option Bytes → ℕ → ℕ → ℕ → Event
  underrun bad_message successful end_of_file end_of_listing end_of_either : Event
  failed : Option ℕ → Bytes → Event
  result name_entry : Bytes → Attrs → Event
  received_handle : Bytes → Bytes → Event
  handle_without_path : Event
  received_attributes : Attrs → Event
  unsupported extended_reply : Event

-- The path of a handle is the one of the request that it answers, which may be missing.
-- `id` is 0 where the code passes 0, and `none` where it passes -1.
pub record Entry : Type 0 where
  pub id : Option ℕ
  pub from_client : Bool
  pub event : Event

-- `path`, `attributes` and `data` are pointers; nothing writes `data`.
pub record SftpRequest : Type 0 where
  pub id : ℕ
  pub type : ℕ
  pub sftp_target_type : ℕ
  pub flags : ℕ
  pub desired_access : ℕ
  pub attributes : Attrs
  pub hid : ℕ
  pub path : Option Bytes

pub record SftpHandle : Type 0 where
  pub request_id : ℕ
  pub handle : Bytes
  pub path : Option Bytes
  pub filesize : ℕ
  pub request_type : ℕ

-- What the inspection of a message works on; `log` holds the newest entry first.
pub record SftpCore : Type 0 where
  pub client_version : ℕ
  pub target_version : ℕ
  pub sftp_requests : List (Option SftpRequest)
  pub sftp_handles : List (Option SftpHandle)
  pub sftp_bytes_read : ℕ
  pub sftp_bytes_written : ℕ
  pub log : List Entry

-- `linked` tells whether `susshi_channel` is set.
pub record SftpSession : Type 0 where
  pub linked : Bool
  pub core : SftpCore
  pub sftp_client_message : SftpMessage
  pub sftp_target_message : SftpMessage
