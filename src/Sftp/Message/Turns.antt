-- ===== src/Sftp/Message/Turns.antt =====
-- The turns of `susshi_inspect_sftp_packet` (src/susshid/inspect-sftp.c) in terms of lists, on
-- messages that are valid.
use susshi.Prelude.{
  ℕ, suc, ◌+◌, ◌-◌, ◌≤◌, ◌<◌, ◌≡◌, refl, true, false, Option, none, some, [], ◌++◌, ◌^◌, length,
  take, drop, ltb, ◌==◌, arith, zero, inl, inr, Bool-cases,
}
use mathlib.Core.List.{append-nil}
use susshi.Result.{Result, done, stop, crash, ◌>>=◌}
use susshi.Gateway.{Bytes, Wire}
use susshi.Sftp.Buffer.{Buffers, add32, sub32, min, IsLawful, copy_bytes_lem, copy_bytes_past}
use susshi.Sftp.Message.{
  MessageState, init, new, incomplete, complete, SftpMessage, idle_message, fxp_write, kept_of,
  first_copy, later_copy, copy_some, copy_later, pass_some, Receiving, turn_if, turn_init, turn_new,
  turn_incomplete, turn_complete,
}

-- What is copied of a message does not exceed what is kept of its type.
abbrev pub IsWithin : Option ℕ → Bytes → Type 0
IsWithin none x = Unit {0}
IsWithin (some kept) x = length x ≤ kept

abbrev pub IsValidBy : MessageState → SftpMessage → Type 0
IsValidBy init m = (length m.header < 5) × (m.received ≡ 0) × (m.buffer ≡ [])
IsValidBy new m = (length m.header ≡ 5) × (m.received ≡ 0) × (m.buffer ≡ [])
IsValidBy incomplete m =
    (m.received < m.length) × (m.length < 2 ^ 32) × IsWithin (kept_of m.type) m.buffer
IsValidBy complete m = Unit {0}

abbrev pub IsValid : SftpMessage → Type 0
IsValid m = IsValidBy m.state m

abbrev pub at : {C : Type 0} → ℕ → Bytes → SftpMessage → C → Receiving C
at d x m c = record { datalen = d; left = x; msg = m; core = c }

pub min_left : (n m : ℕ) → n ≤ m → min n m ≡ n
unfolding min
min_left n m h = ground arith

pub min_right : (n m : ℕ) → m ≤ n → min n m ≡ m
unfolding min
min_right n m h = ground arith

min-le-left : (n m k : ℕ) → min n m ≡ k → k ≤ n
unfolding min
min-le-left n m k h = ground arith

pub first_copy_le :
    (kept : Option ℕ) (k : ℕ) (x : Bytes) → k ≤ length x → first_copy kept k ≤ length x
unfolding min
first_copy_le none k x h = h
first_copy_le (some n) k x h = ground arith

-- The bytes that are left of five.
pub sub32-five : (n : ℕ) → n < 5 → sub32 5 n ≡ 5 - n
sub32-five n h = omega arith

module _ {b : Buffers} {w : Wire} (law : IsLawful b w) where
  copy_some_lem :
      (n : ℕ) (to from : Bytes) → n ≤ length from → copy_some b n to from ≡ done (to ++ take n from)
  unfolding copy_some
  copy_some_lem zero to from h = rw append-nil
  copy_some_lem (suc n) to from h =
      let e : ltb 0 (suc n) ≡ true = ground arith in rw e (copy_bytes_lem law (suc n) to from h)

  copy_later_lem :
      (type n : ℕ) (to from : Bytes)
      → n ≤ length from
      → copy_later b type n to from ≡ done (to ++ take n from)
  unfolding copy_later
  copy_later_lem type n to from h = elim (Bool-cases (type == fxp_write)) [
    | inl e ↦ rw e (copy_some_lem n to from h)
    | inr e ↦ rw e (copy_bytes_lem law n to from h)
  ]

  copy_later_past :
      (type n : ℕ) (to from : Bytes) → length from < n → copy_later b type n to from ≡ stop crash
  unfolding copy_later
  copy_later_past type n to from h =
      let e : ltb 0 n ≡ true = ground arith in
      elim (Bool-cases (type == fxp_write)) [
        | inl is_write ↦ rw (is_write, e) (copy_bytes_past law n to from h)
        | inr other ↦ rw other (copy_bytes_past law n to from h)
      ]

  pass_some_lem : (x : Bytes) (n : ℕ) → n ≤ length x → pass_some b x n ≡ drop n x
  unfolding pass_some
  pass_some_lem x zero h = refl
  pass_some_lem x (suc n) h =
      let e : ltb 0 (suc n) ≡ true = ground arith in rw e (law.pass_bytes_lem x (suc n) h)

  module _ {C : Type 0} (deliver : ℕ → Bytes → C → Result C) (d : ℕ) (x : Bytes) (m : SftpMessage)
      (c : C) where
    pub turn_init_lem :
        (n : ℕ)
        → min (length x) (sub32 5 (length m.header)) ≡ n
        → n ≤ length x
        → turn_init w b deliver (at d x m c)
          ≡ done (
              turn_if
                (length (m.header ++ take n x) == 5)
                (at d (drop n x) (record m { header = m.header ++ take n x; state = new }) c)
                (at d (drop n x) (record m { header = m.header ++ take n x }) c))
    turn_init_lem n e h = rw (
      law.get_len_lem,
      law.get_len_lem,
      e,
      copy_some_lem n m.header x h,
      pass_some_lem x n h,
      law.get_len_lem,
    )

    pub turn_new_lem :
        (n t k : ℕ) (rest rest' : Bytes)
        → w.get_u32 m.header ≡ some (n, rest)
        → w.get_u8 rest ≡ some (t, rest')
        → min (length x) (sub32 n 1) ≡ k
        → k ≤ length x
        → turn_new w b deliver (at d x m c)
          ≡ done (
              turn_if
                (sub32 n 1 == add32 m.received k)
                (at
                  (sub32 d 5)
                  (drop k x)
                  (record m {
                    state = complete;
                    header = rest';
                    type = t;
                    length = sub32 n 1;
                    received = add32 m.received k;
                    buffer = m.buffer ++ take (first_copy (kept_of t) k) x;
                  })
                  c)
                (at
                  (sub32 d 5)
                  (drop k x)
                  (record m {
                    state = incomplete;
                    header = rest';
                    type = t;
                    length = sub32 n 1;
                    received = add32 m.received k;
                    buffer = m.buffer ++ take (first_copy (kept_of t) k) x;
                  })
                  c))
    turn_new_lem n t k rest rest' e32 e8 e h = rw (
      e32,
      e8,
      law.get_len_lem,
      e,
      copy_bytes_lem law (first_copy (kept_of t) k) m.buffer x (first_copy_le (kept_of t) k x h),
      law.pass_bytes_lem x k h,
    )

    pub turn_incomplete_lem :
        (k : ℕ)
        → m.received < m.length
        → m.length < 2 ^ 32
        → min (m.length - m.received) d ≡ k
        → k ≤ length x
        → later_copy (kept_of m.type) k (length m.buffer) ≤ length x
        → turn_incomplete w b deliver (at d x m c)
          ≡ done (
              turn_if
                (m.received + k == m.length)
                (at d
                  (drop k x)
                  (record m {
                    state = complete;
                    received = m.received + k;
                    buffer = m.buffer ++ take (later_copy (kept_of m.type) k (length m.buffer)) x;
                  })
                  c)
                (at d
                  (drop k x)
                  (record m {
                    received = m.received + k;
                    buffer = m.buffer ++ take (later_copy (kept_of m.type) k (length m.buffer)) x;
                  })
                  c))
    turn_incomplete_lem k lt small e h h' =
        let e1 : ltb m.length m.received ≡ false = ground arith in
        let e2 : sub32 m.length m.received ≡ m.length - m.received = omega arith in
        let e3 : add32 m.received k ≡ m.received + k =
          omega (arith, min-le-left (m.length - m.received) d k e) in
        rw (
          e1,
          e2,
          e,
          e3,
          law.get_len_lem,
          copy_later_lem m.type (later_copy (kept_of m.type) k (length m.buffer)) m.buffer x h',
          law.pass_bytes_lem x k h,
        )

    pub turn_complete_lem : turn_complete w b deliver (at d x m c) ≡ (
        deliver m.type m.buffer c >>= λ c'.
        done (turn_if (ltb 0 (length x)) (at d x idle_message c') (at d x idle_message c')))
    turn_complete_lem = rw law.get_len_lem

    -- Past the end of the packet a copy is undefined.
    pub turn_incomplete_past :
        m.received < m.length
        → m.length < 2 ^ 32
        → length x < later_copy (kept_of m.type) (min (m.length - m.received) d) (length m.buffer)
        → turn_incomplete w b deliver (at d x m c) ≡ stop crash
    turn_incomplete_past lt small past =
        let e1 : ltb m.length m.received ≡ false = ground arith in
        let e2 : sub32 m.length m.received ≡ m.length - m.received = omega arith in
        rw (e1, e2, law.get_len_lem, copy_later_past m.type _ m.buffer x past)
