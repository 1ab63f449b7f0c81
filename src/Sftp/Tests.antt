-- ===== src/Sftp/Tests.antt =====
-- Small concrete libraries and data for the tests of the inspection of file transfers.
use susshi.Prelude.{
  ℕ, ◌+◌, ◌*◌, ◌^◌, Bool, true, false, Option, none, some, [], ◌∷◌, ◌++◌, length, take, drop, ltb,
  refl, if◌then◌else◌, arith,
}
use susshi.Gateway.{Bytes, Wire}
use susshi.Inspect.Tests.{test_wire}
use susshi.Sftp.Buffer.{Buffers, IsLawful}
use susshi.Sftp.Session.{Attr, owner_group, extended, SftpRequest, SftpCore}
use susshi.Sftp.Attributes.{Text, both}
use susshi.Sftp.Attributes.Bounds.{IsNarrow}
use susshi.Sftp.Library.{SftpLibrary}

-- A length and as many bytes.
abbrev string_after : Option (ℕ × Bytes) → Option (Bytes × Bytes)
string_after none = none
string_after (some (n, x)) = if ltb (length x) n then none else some (take n x, drop n x)

abbrev pub sftp_wire : Wire
sftp_wire = record test_wire { get_string = λ x. string_after (test_wire.get_u32 x) }

abbrev pub test_buffers : Buffers
test_buffers = record {
  get_len = length;
  add_data = λ to from n. to ++ take n from;
  pass_bytes = λ x n. drop n x;
}

abbrev pub test_lawful : IsLawful test_buffers sftp_wire
test_lawful = record {
  get_len_lem = λ x. refl;
  add_data_lem = λ to from n h. refl;
  pass_bytes_lem = λ x n h. refl;
  get_u8_lem = λ x rest. refl;
  get_u32_lem = λ p q r s rest. refl;
}

abbrev number_of : Option ((ℕ × ℕ) × Bytes) → Option (ℕ × Bytes)
number_of none = none
number_of (some (p, x)) = some (p.0 * 2 ^ 32 + p.1, x)

-- 18 characters for the names of the fields; all other parts are short.
abbrev width_of : Bool → Attr → ℕ
width_of first (owner_group owner group) = length owner + length group + 18
width_of first (extended name value) = length name + length value + 18
width_of first _ = 40

abbrev pub test_text : Text
test_text = record {
  get_u64 = λ x. number_of (both test_wire.get_u32 test_wire.get_u32 x);
  width = width_of;
  acl_head_width = λ flags count. 30;
  ace_width = λ first a. 50;
  stale_ace = record { type = 0; flag = 0; mask = 0; who = none };
  string_buffer = λ x. x;
}

abbrev pub test_narrow : IsNarrow test_text
test_narrow = record {
  size_lem = λ first n. omega arith;
  alloc_size_lem = λ first n. omega arith;
  uid_gid_lem = λ first n m. omega arith;
  perm_lem = λ first n. omega arith;
  times_lem = λ first n m. omega arith;
}

abbrev pub test_sftp_library : SftpLibrary
test_sftp_library = record {
  wire = sftp_wire;
  text = test_text;
  get_char = λ x. "text-seek";
  strtoll =
      λ t. record { begins = true; ends = true; negative = false; size = 6; overflows = false };
  openssh_target = true;
}

-- A request that is open, in the second slot of a table.
abbrev pub open_request : SftpRequest
open_request = record {
  id = 7;
  type = 5;
  sftp_target_type = 0;
  flags = 0;
  desired_access = 0;
  attributes = none;
  hid = 0;
  path = none;
}

abbrev pub test_core : SftpCore
test_core = record {
  client_version = 3;
  target_version = 3;
  sftp_requests = none ∷ some open_request ∷ [];
  sftp_handles = none ∷ [];
  sftp_bytes_read = 0;
  sftp_bytes_written = 0;
  log = [];
}

-- The string "/a", and a request 9 for it.
abbrev pub slash_a : Bytes
slash_a = 0 ∷ 0 ∷ 0 ∷ 2 ∷ 47 ∷ 97 ∷ []

abbrev pub request_9 : Bytes
request_9 = 0 ∷ 0 ∷ 0 ∷ 9 ∷ slash_a
