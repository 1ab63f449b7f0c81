-- ===== src/Sftp/Tables/Tests.antt =====
-- The texts of handles, on concrete handles.
use susshi.Prelude.{◌≡◌, ◌↔◌, true, [], ◌∷◌, arith}
use susshi.Gateway.{Bytes}
use susshi.Sftp.Tables.{same_text, data_to_hex}
use susshi.Sftp.Tables.Hex.{data_to_hex_iff}

abbrev first_handle : Bytes
first_handle = 0 ∷ 171 ∷ []

abbrev second_handle : Bytes
second_handle = 0 ∷ 186 ∷ []

data_to_hex_iff_example :
    (same_text (data_to_hex 514 first_handle) (data_to_hex 514 second_handle) ≡ true)
    ↔ (first_handle ≡ second_handle)
data_to_hex_iff_example =
    data_to_hex_iff first_handle second_handle (omega arith, (omega arith, tt))
      (omega arith, (omega arith, tt)) (omega arith) (omega arith)
