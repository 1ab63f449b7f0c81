-- ===== src/Sftp/Attributes/Tests.antt =====
-- The attributes of a file, on concrete bytes.
use susshi.Prelude.{◌≡◌, refl, [], ◌∷◌, ◌++◌, replicate, arith}
use susshi.Result.{done, stop, crash}
use susshi.Gateway.{Bytes}
use susshi.Sftp.Session.{Attrs}
use susshi.Sftp.Attributes.{file_attr}
use susshi.Sftp.Attributes.Bounds.{file_attr-returns, file_attr-crash}
use susshi.Sftp.Tests.{sftp_wire, test_text, test_narrow}

-- The permissions 0644, and a byte after them.
abbrev only_perm : Bytes
only_perm = 0 ∷ 0 ∷ 0 ∷ 4 ∷ 0 ∷ 0 ∷ 1 ∷ 164 ∷ 77 ∷ []

file_attr-returns_example :
    (r : Attrs × Bytes) × (file_attr sftp_wire test_text 3 only_perm ≡ done r)
file_attr-returns_example =
    file_attr-returns sftp_wire test_text test_narrow 3 4 only_perm (0 ∷ 0 ∷ 1 ∷ 164 ∷ 77 ∷ [])
      (omega arith) refl refl

-- An owner of 2048 bytes.
abbrev long_name : Bytes
long_name = replicate 2048 97

abbrev perm_after : Bytes
perm_after = 0 ∷ 0 ∷ 1 ∷ 164 ∷ []

abbrev names : Bytes
names = 0 ∷ 0 ∷ 8 ∷ 0 ∷ (long_name ++ 0 ∷ 0 ∷ 0 ∷ 1 ∷ 98 ∷ perm_after)

abbrev wide : Bytes
wide = 0 ∷ 0 ∷ 0 ∷ 132 ∷ 1 ∷ names

file_attr-crash_example : file_attr sftp_wire test_text 4 wide ≡ stop crash
file_attr-crash_example =
    file_attr-crash sftp_wire test_text 4 1 420 wide (1 ∷ names) names perm_after [] long_name
      (98 ∷ []) (omega arith) refl refl refl refl (omega arith) (omega arith) (omega arith)
