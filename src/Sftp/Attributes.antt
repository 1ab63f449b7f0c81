-- ===== src/Sftp/Attributes.antt =====
-- The attributes of files in messages: `susshi_sftp_data_file_attr`, `susshi_sftp_acl_string`,
-- `susshi_sftp_pflags_string` and `susshi_sftp_flags_string` of src/susshid/inspect-sftp.c. The
-- text is kept as the list of its parts; its length decides whether the writes stay in the buffer.
pub mod Bounds
mod Tests
use susshi.Prelude.{
  ℕ, zero, suc, ◌+◌, String, Bool, true, false, not, ◌&&◌, Option, none, some, List, [], ◌∷◌, ◌++◌,
  length, ltb, leb, ◌==◌, has_flag, bit_and, if◌then◌else◌,
}
use susshi.Result.{Result, done, stop, crash, ◌>>=◌}
use susshi.Gateway.{Bytes, Wire}
use susshi.Sftp.Session.{
  TimeKind, atime, createtime, mtime, ctime, Ace, Attr, file_type, size, alloc_size, perm,
  link_count, nseconds, owner_group, extended, uid_gid, times, attrib_bits, time, acl, text_hint,
  mime_type, untranslated_name, Attrs,
}

-- libssh and the C library: `ssh_buffer_unpack` with the format `q`; the number of characters that
-- `snprintf` writes for a part of a text, given whether the text before it is empty, for the head
-- of a list of access rules and for such a rule; what the variables for a rule hold after
-- `ssh_buffer_unpack` has failed; and a new buffer with `ssh_buffer_add_ssh_string` of a string.
pub record Text : Type 0 where
  pub get_u64 : Bytes → Option (ℕ × Bytes)
  pub width : Bool → Attr → ℕ
  pub acl_head_width : ℕ → ℕ → ℕ
  pub ace_width : Bool → Ace → ℕ
  pub stale_ace : Ace
  pub string_buffer : Bytes → Bytes

-- `msgbuf`, `o` and the buffer. `live` is false after `goto decode_error`.
pub record Scan : Type 0 where
  pub rest : Bytes
  pub o : ℕ
  pub attrs : List Attr
  pub live : Bool

-- `o += snprintf(&msgbuf[o], SSIZE - o, ...)`: with `o` beyond the buffer, the room that is left
-- wraps around.
abbrev pub print_at : ℕ → ℕ → ℕ → Result ℕ
print_at ssize width o = if ltb ssize o then stop crash else done (o + width)

abbrev pub ssize : ℕ
ssize = 2048

abbrev pub acl_ssize : ℕ
acl_ssize = 1024

-- The flags of libssh/sftp.h and of include/susshid/inspect-sftp.h.
abbrev pub attr_size : ℕ
attr_size = 1

abbrev pub attr_uidgid : ℕ
attr_uidgid = 2

abbrev pub attr_permissions : ℕ
attr_permissions = 4

abbrev pub attr_acmodtime : ℕ
attr_acmodtime = 8

abbrev pub attr_createtime : ℕ
attr_createtime = 0x10

abbrev pub attr_modifytime : ℕ
attr_modifytime = 0x20

abbrev pub attr_acl : ℕ
attr_acl = 0x40

abbrev pub attr_ownergroup : ℕ
attr_ownergroup = 0x80

abbrev pub attr_subsecond_times : ℕ
attr_subsecond_times = 0x100

abbrev pub attr_bits : ℕ
attr_bits = 0x200

abbrev pub attr_allocation_size : ℕ
attr_allocation_size = 0x400

abbrev pub attr_text_hint : ℕ
attr_text_hint = 0x800

abbrev pub attr_mime_type : ℕ
attr_mime_type = 0x1000

abbrev pub attr_link_count : ℕ
attr_link_count = 0x2000

abbrev pub attr_untranslated_name : ℕ
attr_untranslated_name = 0x4000

abbrev pub attr_ctime : ℕ
attr_ctime = 0x8000

abbrev pub attr_extended : ℕ
attr_extended = 0x80000000

-- The first name whose value is the given one.
abbrev pub name_of : List (ℕ × String) → ℕ → String
name_of [] n = "Unknown"
name_of ((m, name) ∷ names) n = if n == m then name else name_of names n

abbrev pub type_names : List (ℕ × String)
type_names =
    (1, "File")
    ∷ (2, "Directory")
    ∷ (3, "Symlink")
    ∷ (4, "Special")
    ∷ (6, "Socket")
    ∷ (7, "Char Device")
    ∷ (8, "Block Device")
    ∷ (9, "FIFO")
    ∷ []

abbrev pub hint_names : List (ℕ × String)
hint_names = (0, "Text") ∷ (1, "Guess Text") ∷ (2, "Binary") ∷ (3, "Guess Binary") ∷ []

-- The names of the flags that are set, in order.
abbrev pub names_set : List (ℕ × String) → ℕ → List String
names_set [] flags = []
names_set ((mask, name) ∷ names) flags =
    let rest = names_set names flags in if has_flag flags mask then name ∷ rest else rest

-- `num_flags` is 6, so the last name is never reached.
unfoldable pub pflags_string : ℕ → List String
pflags_string = names_set (
    (1, "read")
    ∷ (2, "write")
    ∷ (4, "append")
    ∷ (8, "create")
    ∷ (16, "truncate")
    ∷ (32, "fail on exist")
    ∷ [])

abbrev pub dispositions : List (ℕ × String)
dispositions =
    (0, "create new")
    ∷ (1, "create truncate")
    ∷ (2, "open existing")
    ∷ (3, "open or create")
    ∷ (4, "truncate existing")
    ∷ []

-- Here too `num_flags` is 6, of thirteen names.
unfoldable pub flags_string : ℕ → List String
flags_string flags =
    name_of dispositions (bit_and flags 7)
    ∷ names_set
        ((8, "append")
          ∷ (0x10, "append atomic")
          ∷ (0x20, "text mode")
          ∷ (0x40, "block read")
          ∷ (0x80, "block write")
          ∷ (0x100, "block delete")
          ∷ [])
        flags

-- Two reads in one call of `ssh_buffer_unpack`.
abbrev pub both :
    {A B : Type 0}
    → (Bytes → Option (A × Bytes))
    → (Bytes → Option (B × Bytes))
    → Bytes
    → Option ((A × B) × Bytes)
both get get' x = elim (get x) [
  | none ↦ none
  | some (a, x) ↦ elim (get' x) [ none ↦ none | some (b, x) ↦ some ((a, b), x) ]
]

module _ (w : Wire) (t : Text) where
  -- One rule of the list, with the buffer after it.
  abbrev pub read_ace : Bytes → Option (Ace × Bytes)
  read_ace x = elim (w.get_u32 x) [
    | none ↦ none
    | some (type, x) ↦ elim (w.get_u32 x) [
      | none ↦ none
      | some (flag, x) ↦ elim (w.get_u32 x) [
        | none ↦ none
        | some (mask, x) ↦ elim (w.get_string x) [
          | none ↦ none
          | some (who, x) ↦
              some (record { type = type; flag = flag; mask = mask; who = some who }, x)
        ]
      ]
    ]
  ]

  -- The result of reading a rule is not checked.
  abbrev pub ace_or_stale : Option (Ace × Bytes) → Bytes → Ace × Bytes
  ace_or_stale (some r) x = r
  ace_or_stale none x = (t.stale_ace, x)

  unfoldable pub aces : ℕ → Bool → Bytes → ℕ → Result (List Ace)
  aces zero first x o = done []
  aces (suc count) first x o =
      let r = ace_or_stale (read_ace x) x in
      let rest = λ (o' : ℕ). aces count false r.1 o' in
      do o' ← print_at acl_ssize (t.ace_width first r.0) o; others ← rest o'; done (r.0 ∷ others)

  abbrev pub acl_of : Bytes → Result (Option (List Ace))
  acl_of x = elim (w.get_u32 x) [
    | none ↦ done none
    | some (acl_flags, x) ↦ elim (w.get_u32 x) [
      | none ↦ done none
      | some (ace_count, x) ↦ do
        o ← print_at acl_ssize (t.acl_head_width acl_flags ace_count) 0
        all ← aces ace_count true x o
        done (some all)
    ]
  ]

  unfoldable pub acl_string : Bytes → Result (Option (List Ace))
  unfolding aces
  acl_string x = acl_of (t.string_buffer x)

  -- A part of the text.
  unfoldable pub put : Attr → Bytes → Scan → Result Scan
  put a x s = do
    o ← print_at ssize (t.width (s.o == 0) a) s.o
    done (record s { rest = x; o = o; attrs = s.attrs ++ a ∷ [] })

  -- `goto decode_error` if a read fails.
  abbrev pub taking :
      {A : Type 0} → Option (A × Bytes) → (A → Bytes → Result Scan) → Scan → Result Scan
  taking none k s = done (record s { live = false })
  taking (some (a, x)) k s = k a x

  abbrev pub section : Bool → (Scan → Result Scan) → Scan → Result Scan
  section wanted f s = if s.live && wanted then f s else done s

  abbrev pub number : (Bytes → Option (ℕ × Bytes)) → (ℕ → Attr) → Scan → Result Scan
  number get make s = taking (get s.rest) (λ n x. put (make n) x s) s

  abbrev pub two_numbers : (ℕ → ℕ → Attr) → Scan → Result Scan
  two_numbers make s = taking (both w.get_u32 w.get_u32 s.rest) (λ p x. put (make p.0 p.1) x s) s

  abbrev pub string : (Bytes → Attr) → Scan → Result Scan
  string make s = taking (w.get_string s.rest) (λ v x. put (make v) x s) s

  abbrev pub two_strings : (Bytes → Bytes → Attr) → Scan → Result Scan
  two_strings make s =
      taking (both w.get_string w.get_string s.rest) (λ p x. put (make p.0 p.1) x s) s

  -- A time, with its nanoseconds if there are any.
  unfoldable pub stamp : TimeKind → ℕ → Scan → Result Scan
  unfolding put
  stamp kind flags s = do
    s ← number t.get_u64 (time kind) s
    section (has_flag flags attr_subsecond_times) (number w.get_u32 nseconds) s

  unfoldable pub access_list : Scan → Result Scan
  unfolding put acl_string
  access_list s = taking (w.get_string s.rest) (λ list x. do a ← acl_string list; put (acl a) x s) s

  unfoldable pub extensions_loop : ℕ → Scan → Result Scan
  unfolding put
  extensions_loop zero s = done s
  extensions_loop (suc count) s = do
    s ← section true (two_strings extended) s
    extensions_loop count s

  unfoldable pub extensions : Scan → Result Scan
  unfolding extensions_loop
  extensions s =
      taking (w.get_u32 s.rest) (λ count x. extensions_loop count (record s { rest = x })) s

  -- Versions up to 3.
  unfoldable pub old_attrs : ℕ → Scan → Result Scan
  unfolding put
  old_attrs flags s = do
    s ← section (has_flag flags attr_uidgid) (two_numbers uid_gid) s
    s ← section (has_flag flags attr_permissions) (number w.get_u32 perm) s
    section (has_flag flags attr_acmodtime) (two_numbers times) s

  -- Later versions.
  unfoldable pub new_attrs : ℕ → Scan → Result Scan
  unfolding put stamp access_list
  new_attrs flags s = do
    s ← section (has_flag flags attr_ownergroup) (two_strings owner_group) s
    s ← section (has_flag flags attr_permissions) (number w.get_u32 perm) s
    s ← section (has_flag flags attr_acmodtime) (stamp atime flags) s
    s ← section (has_flag flags attr_createtime) (stamp createtime flags) s
    s ← section (has_flag flags attr_modifytime) (stamp mtime flags) s
    s ← section (has_flag flags attr_ctime) (stamp ctime flags) s
    s ← section (has_flag flags attr_acl) access_list s
    s ← section (has_flag flags attr_bits) (two_numbers attrib_bits) s
    s ←
        section (has_flag flags attr_text_hint)
          (number w.get_u8 (λ n. text_hint (name_of hint_names n))) s
    s ← section (has_flag flags attr_mime_type) (string mime_type) s
    s ← section (has_flag flags attr_link_count) (number w.get_u32 link_count) s
    section (has_flag flags attr_untranslated_name) (string untranslated_name) s

  unfoldable pub scan_attrs : ℕ → ℕ → Scan → Result Scan
  unfolding put old_attrs new_attrs extensions
  scan_attrs version flags s = do
    s ← section (ltb 3 version) (number w.get_u8 (λ n. file_type (name_of type_names n))) s
    s ← section (has_flag flags attr_size) (number t.get_u64 size) s
    s ← section (has_flag flags attr_allocation_size) (number t.get_u64 alloc_size) s
    s ← if ltb 3 version then new_attrs flags s else old_attrs flags s
    section (has_flag flags attr_extended) extensions s

  -- NULL for an empty text.
  abbrev pub text_of : List Attr → Attrs
  text_of [] = none
  text_of (a ∷ attrs) = some (a ∷ attrs)

  abbrev pub attrs_from : ℕ → Bytes → Option (ℕ × Bytes) → Result (Attrs × Bytes)
  attrs_from version x none = done (none, x)
  attrs_from version x (some (flags, rest)) = do
    s ← scan_attrs version flags (record { rest = rest; o = 0; attrs = []; live = true })
    done (text_of s.attrs, s.rest)

  -- The text with the buffer after the attributes.
  unfoldable pub file_attr : ℕ → Bytes → Result (Attrs × Bytes)
  unfolding scan_attrs
  file_attr version x = attrs_from version x (w.get_u32 x)
