-- ===== src/Sftp/Request/Tests.antt =====
-- Requests of the client, on concrete messages.
use susshi.Prelude.{◌≡◌, refl, true, [], ◌∷◌, some}
use susshi.Result.{done}
use susshi.Slots.{alloc}
use susshi.Sftp.Session.{SftpCore, canonicalize}
use susshi.Sftp.Tables.{fresh_request, alloc_new_sftprequest, set_request}
use susshi.Sftp.Library.{note}
use susshi.Sftp.Request.{by_request, inspect_sftp_request}
use susshi.Sftp.Request.Outcome.{IsTaken, inspect_sftp_request-IsTaken}
use susshi.Sftp.Tests.{test_sftp_library, test_core, open_request, slash_a, request_9}

-- A REALPATH of "/a".
abbrev pub asked : SftpCore
asked = record test_core {
  sftp_requests =
      some (record fresh_request { id = 9; type = 16; path = some (47 ∷ 97 ∷ []) })
      ∷ some open_request
      ∷ [];
  log = record { id = some 9; from_client = true; event = canonicalize (47 ∷ 97 ∷ []) } ∷ [];
}

pub run_16 : inspect_sftp_request test_sftp_library 16 request_9 test_core ≡ done asked
unfolding inspect_sftp_request by_request alloc_new_sftprequest alloc set_request note
run_16 = refl

inspect_sftp_request-IsTaken_example : IsTaken 16 9 test_core asked
inspect_sftp_request-IsTaken_example =
    (inspect_sftp_request-IsTaken test_sftp_library 16 9 request_9 slash_a test_core refl refl).at
      asked run_16
