-- ===== src/Sftp/Message/Joined.antt =====
-- What `susshi_inspect_sftp_packet` (src/susshid/inspect-sftp.c) copies of a message that comes in
-- two packets.
use susshi.Prelude.{
  ℕ, ◌+◌, ◌-◌, ◌≤◌, ◌≡◌, Option, none, some, [], ◌++◌, length, take, arith, length-take,
  take-append_of_le, take-append_of_ge, take_all,
}
use mathlib.Core.List.{append-nil, append_assoc}
use susshi.Gateway.{Bytes}
use susshi.Sftp.Buffer.{sub32, min}
use susshi.Sftp.Message.{MessageState, incomplete, SftpMessage, kept_of, first_copy, later_copy}
use susshi.Sftp.Message.Turns.{min_left, min_right}

-- All that is kept of a type of messages has been copied.
abbrev pub IsFull : Option ℕ → Bytes → Type 0
IsFull none y = Unit {0}
IsFull (some kept) y = length y ≡ kept

abbrev IsSettledBy : MessageState → SftpMessage → Type 0
IsSettledBy incomplete m = IsFull (kept_of m.type) m.buffer
IsSettledBy _ m = Unit {0}

-- A packet does not end within the bytes that are kept of a message that is not kept in full.
abbrev pub IsSettled : SftpMessage → Type 0
IsSettled m = IsSettledBy m.state m

-- A copy of `first` bytes of a packet, and of the rest of what is kept from the next packet, is a
-- copy of `whole` bytes of the two together.
pub record Joined (kept : Option ℕ) (y x z : Bytes) (j first whole : ℕ) : Type 0 where
  pub fits : later_copy kept j (length (y ++ take first x)) ≤ length z
  pub fits_whole : whole ≤ length x + length z
  pub same :
      (y ++ take first x) ++ take (later_copy kept j (length (y ++ take first x))) z
      ≡ y ++ take whole (x ++ z)

Joined-all : (y x z : Bytes) (j : ℕ) → j ≤ length z → Joined none y x z j (length x) (length x + j)
Joined-all y x z j le = record {
  fits = le;
  fits_whole = omega arith;
  same =
      let e : (length x + j) - length x ≡ j = omega arith in
      rw
        (take_all (length x) x (omega arith), take-append_of_ge (length x + j) x z (omega arith), e)
        (append_assoc y x (take j z));
}

Joined-full :
    (k : ℕ) (y x z : Bytes) (j first : ℕ)
    → first ≤ length x
    → length (y ++ take first x) ≡ k
    → Joined (some k) y x z j first first
Joined-full k y x z j first h full =
    let nothing : min (sub32 k (length (y ++ take first x))) k ≡ 0 =
      let zero_left : sub32 k k ≡ 0 = omega arith in
      rw (full, zero_left) (min_left 0 k (omega arith)) in
    record {
      fits = rw nothing (omega arith);
      fits_whole = omega arith;
      same = rw (nothing, take-append_of_le first x z h, append-nil);
    }

pub Joined-later :
    (kept : Option ℕ) (y x z : Bytes) (j : ℕ)
    → later_copy kept (length x) (length y) ≤ length x
    → IsFull kept (y ++ take (later_copy kept (length x) (length y)) x)
    → j ≤ length z
    → Joined kept y x z j
        (later_copy kept (length x) (length y))
        (later_copy kept (length x + j) (length y))
Joined-later none y x z j h f le = Joined-all y x z j le
Joined-later (some k) y x z j h f le = Joined-full k y x z j (min (sub32 k (length y)) k) h f

min_le : (n m : ℕ) → min n m ≤ n
unfolding min
min_le n m = ground arith

pub Joined-first :
    (kept : Option ℕ) (x z : Bytes) (j : ℕ)
    → IsFull kept (take (first_copy kept (length x)) x)
    → j ≤ length z
    → Joined kept [] x z j (first_copy kept (length x)) (first_copy kept (length x + j))
Joined-first none x z j f le = Joined-all [] x z j le
Joined-first (some k) x z j f le =
    let taken : min (length x) k ≤ length x = min_le (length x) k in
    let e : min (length x) k ≡ k = omega (arith, length-take (min (length x) k) x taken, f) in
    let e' : min (length x + j) k ≡ k = min_right (length x + j) k (omega arith) in
    rw (e, e') (Joined-full k [] x z j k (omega arith) (rw e at f))
