-- ===== src/Sftp/Attributes/Bounds.antt =====
-- Whether the text of attributes stays in its buffer: `susshi_sftp_data_file_attr` of
-- src/susshid/inspect-sftp.c.
use susshi.Prelude.{
  ℕ, ◌+◌, ◌≤◌, ◌<◌, ◌≡◌, refl, Bool, true, false, ◌&&◌, Option, none, some, ltb, ◌==◌, has_flag,
  if◌then◌else◌, arith, [], ◌∷◌, ◌++◌,
}
use susshi.Result.{Result, done, stop, crash, ◌>>=◌}
use susshi.Gateway.{Bytes, Wire}
use susshi.Sftp.Session.{
  Attr, Attrs, size, alloc_size, uid_gid, perm, times, owner_group, file_type,
}
use susshi.Sftp.Attributes.{
  Text, Scan, ssize, both, name_of, type_names, put, taking, section, number, two_numbers,
  old_attrs, new_attrs, scan_attrs, extensions, text_of, file_attr, attr_size, attr_permissions,
  attr_allocation_size, attr_extended, attr_ownergroup,
}

-- `snprintf` writes at most 100 characters for a part that has only numbers.
pub record IsNarrow (t : Text) : Type 0 where
  pub size_lem : (first : Bool) (n : ℕ) → t.width first (size n) ≤ 100
  pub alloc_size_lem : (first : Bool) (n : ℕ) → t.width first (alloc_size n) ≤ 100
  pub uid_gid_lem : (first : Bool) (n m : ℕ) → t.width first (uid_gid n m) ≤ 100
  pub perm_lem : (first : Bool) (n : ℕ) → t.width first (perm n) ≤ 100
  pub times_lem : (first : Bool) (n m : ℕ) → t.width first (times n m) ≤ 100

-- A step that returns, with a text of at most `n` characters.
record Within (n : ℕ) (m : Result Scan) : Type 0 where
  pub scan : Scan
  pub returns : m ≡ done scan
  pub short : scan.o ≤ n

Within-bind :
    (n k : ℕ) (m : Result Scan) (f : Scan → Result Scan)
    → Within n m
    → ((s : Scan) → s.o ≤ n → Within k (f s))
    → Within k (m >>= f)
Within-bind n k m f a h =
    let c = h a.scan a.short in
    record { scan = c.scan; returns = rw a.returns c.returns; short = c.short }

Within-done : (n : ℕ) (s : Scan) → s.o ≤ n → Within n (done s)
Within-done n s h = record { scan = s; returns = refl; short = h }

Within-if :
    (n : ℕ) (c : Bool) (m m' : Result Scan)
    → Within n m
    → Within n m'
    → Within n (if c then m else m')
Within-if n true m m' a a' = a
Within-if n false m m' a a' = a'

module _ (w : Wire) (t : Text) where
  Within-put :
      (n : ℕ) (a : Attr) (x : Bytes) (s : Scan)
      → s.o ≤ n
      → n ≤ ssize
      → t.width (s.o == 0) a ≤ 100
      → Within (n + 100) (put w t a x s)
  unfolding put
  Within-put n a x s h le narrow =
      let room : ltb ssize s.o ≡ false = ground arith in
      record {
        scan = record s { rest = x; o = s.o + t.width (s.o == 0) a; attrs = s.attrs ++ a ∷ [] };
        returns = rw room;
        short = omega arith;
      }

  Within-taking :
      {A : Type 0} (n : ℕ) (o : Option (A × Bytes)) (k : A → Bytes → Result Scan) (s : Scan)
      → s.o ≤ n
      → ((a : A) (x : Bytes) → Within (n + 100) (k a x))
      → Within (n + 100) (taking w t o k s)
  Within-taking n none k s h f = Within-done (n + 100) _ (omega arith)
  Within-taking n (some (a, x)) k s h f = f a x

  Within-section :
      (n : ℕ) (wanted : Bool) (f : Scan → Result Scan) (s : Scan)
      → s.o ≤ n
      → Within (n + 100) (f s)
      → Within (n + 100) (section w t wanted f s)
  Within-section n wanted f s h a =
      Within-if (n + 100) (s.live && wanted) _ _ a (Within-done (n + 100) s (omega arith))

  Within-skip :
      (n : ℕ) (wanted : Bool) (f : Scan → Result Scan) (s : Scan)
      → s.o ≤ n
      → wanted ≡ false
      → Within n (section w t wanted f s)
  Within-skip n wanted f s h e =
      let skipped : (s.live && wanted) ≡ false = and_false s.live wanted e in
      rw skipped (Within-done n s h)
    where
      and_false : (a c : Bool) → c ≡ false → (a && c) ≡ false
      and_false true c e = e
      and_false false c e = refl

  Within-number :
      (n : ℕ) (wanted : Bool) (get : Bytes → Option (ℕ × Bytes)) (make : ℕ → Attr) (s : Scan)
      → s.o ≤ n
      → n ≤ ssize
      → ((first : Bool) (k : ℕ) → t.width first (make k) ≤ 100)
      → Within (n + 100) (section w t wanted (number w t get make) s)
  Within-number n wanted get make s h le narrow =
      Within-section n wanted (number w t get make) s h (
        Within-taking n (get s.rest) _ s h
          λ k x. Within-put n (make k) x s h le (narrow (s.o == 0) k))

  Within-two_numbers :
      (n : ℕ) (wanted : Bool) (make : ℕ → ℕ → Attr) (s : Scan)
      → s.o ≤ n
      → n ≤ ssize
      → ((first : Bool) (k m : ℕ) → t.width first (make k m) ≤ 100)
      → Within (n + 100) (section w t wanted (two_numbers w t make) s)
  Within-two_numbers n wanted make s h le narrow =
      Within-section n wanted (two_numbers w t make) s h (
        Within-taking n (both w.get_u32 w.get_u32 s.rest) _ s h
          λ p x. Within-put n (make p.0 p.1) x s h le (narrow (s.o == 0) p.0 p.1))

  module _ (narrow : IsNarrow t) where
    old_attrs-Within : (flags : ℕ) (s : Scan) → s.o ≤ 200 → Within 500 (old_attrs w t flags s)
    unfolding old_attrs
    old_attrs-Within flags s h =
        Within-bind 300 500 _ _
          (Within-two_numbers 200 _ uid_gid s h (omega arith) narrow.uid_gid_lem)
          λ s h.
            Within-bind 400 500 _ _
              (Within-number 300 _ w.get_u32 perm s h (omega arith) narrow.perm_lem)
              λ s h. Within-two_numbers 400 _ times s h (omega arith) narrow.times_lem

    rest_of :
        (version flags : ℕ) (s : Scan)
        → ltb 3 version ≡ false
        → s.o ≤ 200
        → Within 500 (if ltb 3 version then new_attrs w t flags s else old_attrs w t flags s)
    rest_of version flags s early h = rw early (old_attrs-Within flags s h)

    scan_attrs-Within :
        (version flags : ℕ) (s : Scan)
        → version ≤ 3
        → has_flag flags attr_extended ≡ false
        → s.o ≡ 0
        → Within 500 (scan_attrs w t version flags s)
    unfolding scan_attrs
    scan_attrs-Within version flags s old plain h =
        let early : ltb 3 version ≡ false = ground arith in
        Within-bind 0 500 _ _
          (Within-skip 0 (ltb 3 version)
            (number w t w.get_u8 (λ n. file_type (name_of type_names n))) s (omega arith) early)
          λ s h.
            Within-bind 100 500 _ _
              (Within-number 0 (has_flag flags attr_size) t.get_u64 size s h (omega arith)
                narrow.size_lem)
              λ s h.
                Within-bind 200 500 _ _
                  (Within-number 100 (has_flag flags attr_allocation_size) t.get_u64 alloc_size s h
                    (omega arith) narrow.alloc_size_lem)
                  λ s h.
                    Within-bind 500 500 _ _ (rest_of version flags s early h) λ s h.
                      Within-skip 500 (has_flag flags attr_extended) (extensions w t) s h plain

    -- In versions up to 3, attributes whose flags announce no extensions are read without a write past
    -- the text's buffer, whatever bytes the peer sends, if `snprintf` writes at most 100 characters for
    -- a part of numbers.
    pub file_attr-returns :
        (version flags : ℕ) (x rest : Bytes)
        → version ≤ 3
        → w.get_u32 x ≡ some (flags, rest)
        → has_flag flags attr_extended ≡ false
        → (r : Attrs × Bytes) × (file_attr w t version x ≡ done r)
    unfolding file_attr
    file_attr-returns version flags x rest old e plain =
        let s : Scan = record { rest = rest; o = 0; attrs = []; live = true } in
        let a = scan_attrs-Within version flags s old plain refl in
        ((text_of w t a.scan.attrs, a.scan.rest), rw (e, a.returns))

  -- A later version, and a name of an owner and a group that is too long for the text: the
  -- permissions that follow are written past its buffer.
  pub file_attr-crash :
      (version type mode : ℕ) (x y z rest rest' : Bytes) (owner group : Bytes)
      → 3 < version
      → w.get_u32 x ≡ some (attr_ownergroup + attr_permissions, y)
      → w.get_u8 y ≡ some (type, z)
      → both w.get_string w.get_string z ≡ some ((owner, group), rest)
      → w.get_u32 rest ≡ some (mode, rest')
      → ssize < t.width false (owner_group owner group)
      → 0 < t.width true (file_type (name_of type_names type))
      → t.width true (file_type (name_of type_names type)) ≤ ssize
      → file_attr w t version x ≡ stop crash
  unfolding file_attr scan_attrs new_attrs put
  file_attr-crash version type mode x y z rest rest' owner group late e1 e2 e3 e4 wide some_type
        fits =
      let later : ltb 3 version ≡ true = ground arith in
      let k : ℕ = 0 + t.width true (file_type (name_of type_names type)) in
      let room : ltb ssize k ≡ false = ground arith in
      let not_first : (k == 0) ≡ false = ground arith in
      let past : ltb ssize (k + t.width false (owner_group owner group)) ≡ true = ground arith in
      rw (e1, later, e2, e3, room, not_first, e4, past)
