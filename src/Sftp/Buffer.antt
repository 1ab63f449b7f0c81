-- ===== src/Sftp/Buffer.antt =====
-- The buffers of libssh that src/susshid/inspect-sftp.c reads from and copies into. libssh is a
-- parameter: `ssh_buffer_get_len`, `ssh_buffer_add_data` from the read position of another buffer,
-- and `ssh_buffer_pass_bytes`. A buffer is the list of its bytes from the read position on, so a
-- new or reset buffer is empty.
use susshi.Prelude.{
  ℕ, ◌+◌, ◌-◌, ◌*◌, ◌%◌, ◌^◌, ◌≤◌, ◌<◌, ◌≡◌, true, false, some, ◌∷◌, ◌++◌, length, take, drop, ltb,
  arith, if◌then◌else◌,
}
use susshi.Result.{Result, done, stop, crash}
use susshi.Gateway.{Bytes, Wire}

pub record Buffers : Type 0 where
  pub get_len : Bytes → ℕ
  pub add_data : Bytes → Bytes → ℕ → Bytes
  pub pass_bytes : Bytes → ℕ → Bytes

-- `uint32_t` sums and differences.
abbrev pub add32 : ℕ → ℕ → ℕ
add32 a b = (a + b) % 2 ^ 32

abbrev pub sub32 : ℕ → ℕ → ℕ
sub32 a b = (a + 2 ^ 32 - b) % 2 ^ 32

-- The macro `MIN`.
unfoldable pub min : ℕ → ℕ → ℕ
min a b = if ltb a b then a else b

-- `ssh_buffer_add_data(to, ssh_buffer_get(from), n)`. Beyond the bytes of `from` it reads out of
-- bounds.
unfoldable pub copy_bytes : Buffers → ℕ → Bytes → Bytes → Result Bytes
copy_bytes b n to from = if ltb (b.get_len from) n then stop crash else done (b.add_data to from n)

-- A number in network order.
abbrev pub network32 : ℕ → ℕ → ℕ → ℕ → ℕ
network32 a b c d = a * 2 ^ 24 + b * 2 ^ 16 + c * 2 ^ 8 + d

-- What is documented of libssh, as far as the bytes asked for are there.
pub record IsLawful (b : Buffers) (w : Wire) : Type 0 where
  pub get_len_lem : (x : Bytes) → b.get_len x ≡ length x
  pub add_data_lem :
      (to from : Bytes) (n : ℕ) → n ≤ length from → b.add_data to from n ≡ to ++ take n from
  pub pass_bytes_lem : (x : Bytes) (n : ℕ) → n ≤ length x → b.pass_bytes x n ≡ drop n x
  pub get_u8_lem : (x : ℕ) (rest : Bytes) → w.get_u8 (x ∷ rest) ≡ some (x, rest)
  pub get_u32_lem :
      (p q r s : ℕ) (rest : Bytes)
      → w.get_u32 (p ∷ q ∷ r ∷ s ∷ rest) ≡ some (network32 p q r s, rest)

module _ {b : Buffers} {w : Wire} (law : IsLawful b w) where
  pub copy_bytes_lem :
      (n : ℕ) (to from : Bytes)
      → n ≤ length from
      → copy_bytes b n to from ≡ done (to ++ take n from)
  unfolding copy_bytes
  copy_bytes_lem n to from h =
      let e : ltb (length from) n ≡ false = ground arith in
      rw (law.get_len_lem from, e, law.add_data_lem to from n h)

  pub copy_bytes_past :
      (n : ℕ) (to from : Bytes) → length from < n → copy_bytes b n to from ≡ stop crash
  unfolding copy_bytes
  copy_bytes_past n to from h =
      let e : ltb (length from) n ≡ true = ground arith in rw (law.get_len_lem from, e)
