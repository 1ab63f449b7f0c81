-- ===== src/Sftp/Response/Tests.antt =====
-- Answers of the target, on concrete messages.
use susshi.Prelude.{ℕ, zero, suc, true, false, ◌≡◌, refl, [], ◌∷◌, none, some, arith}
use susshi.Result.{done}
use susshi.Gateway.{Bytes}
use susshi.Slots.{release, find_slot_by}
use susshi.Sftp.Session.{SftpCore, canonicalize, successful}
use susshi.Sftp.Tables.{set_request, request_at, find_sftprequest, free_sftprequest}
use susshi.Sftp.Library.{note_target}
use susshi.Sftp.Response.{by_response, inspect_sftp_response}
use susshi.Sftp.Response.Outcome.{
  IsAnswered, inspect_sftp_response-IsAnswered, inspect_sftp_response-unknown,
}
use susshi.Sftp.Response.Pairing.{IsUnused, IsBack, request_answered}
use susshi.Sftp.Request.Tests.{asked, run_16}
use susshi.Sftp.Tests.{test_sftp_library, test_core, open_request, slash_a, request_9}

-- The status "successful" for a request.
abbrev answer_to : ℕ → Bytes
answer_to id = 0 ∷ 0 ∷ 0 ∷ id ∷ 0 ∷ 0 ∷ 0 ∷ 0 ∷ []

abbrev status_ok : Bytes
status_ok = 0 ∷ 0 ∷ 0 ∷ 0 ∷ []

-- The answer to the READ that is open, which is not logged.
abbrev answered_7 : SftpCore
answered_7 = record test_core { sftp_requests = none ∷ none ∷ [] }

found_7 : find_sftprequest 7 test_core ≡ some 1
unfolding find_sftprequest find_slot_by
found_7 = refl

run_7 : inspect_sftp_response test_sftp_library 101 (answer_to 7) test_core ≡ done answered_7
unfolding inspect_sftp_response by_response find_sftprequest find_slot_by request_at set_request
    free_sftprequest release
run_7 = refl

inspect_sftp_response-IsAnswered_example : IsAnswered 101 1 open_request test_core answered_7
inspect_sftp_response-IsAnswered_example =
    (inspect_sftp_response-IsAnswered test_sftp_library 101 7 1 (answer_to 7) status_ok open_request
        test_core refl refl found_7 refl).at
      answered_7 run_7

not_found_9 : find_sftprequest 9 test_core ≡ none
unfolding find_sftprequest find_slot_by
not_found_9 = refl

inspect_sftp_response-unknown_example :
    inspect_sftp_response test_sftp_library 101 (answer_to 9) test_core ≡ done test_core
inspect_sftp_response-unknown_example =
    inspect_sftp_response-unknown test_sftp_library 101 9 (answer_to 9) status_ok test_core refl
      not_found_9

-- The REALPATH that is open there is answered.
abbrev answered_9 : SftpCore
answered_9 = record test_core {
  log =
      record { id = some 9; from_client = false; event = successful }
      ∷ record { id = some 9; from_client = true; event = canonicalize (47 ∷ 97 ∷ []) }
      ∷ [];
}

run_answer : inspect_sftp_response test_sftp_library 101 (answer_to 9) asked ≡ done answered_9
unfolding inspect_sftp_response by_response find_sftprequest find_slot_by request_at set_request
    free_sftprequest release note_target
run_answer = refl

IsUnused-9 : IsUnused 9 test_core
IsUnused-9 zero q e h = absurd (cc e)
IsUnused-9 (suc zero) q e h =
    let same : open_request ≡ q = cc e in let seven : 7 ≡ q.id = cc same in absurd (omega arith)
IsUnused-9 (suc (suc j)) q e h = absurd (cc e)

request_answered_example : IsBack 16 101 9 test_core answered_9
request_answered_example =
    request_answered test_sftp_library 16 101 9 request_9 slash_a (answer_to 9) status_ok test_core
      asked answered_9 refl refl refl refl IsUnused-9 run_16 run_answer
