-- ===== src/Sftp/Response/Pairing.antt =====
-- A request and its answer together: `inspect_sftp_request` and `inspect_sftp_response` of
-- src/susshid/inspect-sftp.c.
use susshi.Prelude.{
  ℕ, ◌+◌, ◌≡◌, ◌≢◌, ◌⊎◌, ◌∙◌, sym, inl, inr, false, some, get_elem?, is_empty, ◌==◌, arith,
  get_elem?-set_ne, ==_iff,
}
use mathlib.Core.Path.{subst}
use susshi.Result.{done}
use susshi.Gateway.{Bytes}
use susshi.Slots.{num_open}
use susshi.Slots.Removal.{num_open-update}
use susshi.Slots.Laws.{find_slot_by_unique}
use susshi.Sftp.Session.{SftpRequest, SftpCore}
use susshi.Sftp.Tables.{has_id, find_sftprequest}
use susshi.Sftp.Library.{SftpLibrary}
use susshi.Sftp.Request.{inspect_sftp_request}
use susshi.Sftp.Response.{inspect_sftp_response}
use susshi.Sftp.Request.Outcome.{IsTaken, inspect_sftp_request-IsTaken}
use susshi.Sftp.Response.Outcome.{IsLeftOpen, inspect_sftp_response-IsAnswered}

-- No open request has the number.
abbrev pub IsUnused : ℕ → SftpCore → Type 0
IsUnused id s = (j : ℕ) (q : SftpRequest) → get_elem? s.sftp_requests j ≡ some (some q) → q.id ≢ id

-- The requests that are open in `s` are open in `u`, and no other is, unless the answer left its
-- request open.
pub record IsBack (type type' id : ℕ) (s u : SftpCore) : Type 0 where
  pub others :
      (j : ℕ) (q : SftpRequest)
      → get_elem? s.sftp_requests j ≡ some (some q)
      → get_elem? u.sftp_requests j ≡ some (some q)
  pub as_many :
      (num_open u.sftp_requests ≡ num_open s.sftp_requests)
      ⊎ ((num_open u.sftp_requests ≡ num_open s.sftp_requests + 1) × IsLeftOpen type type' id u)

module _ (l : SftpLibrary) where
  found_again :
      (type id : ℕ) (s t : SftpCore) (k : IsTaken type id s t)
      → IsUnused id s
      → find_sftprequest id t ≡ some k.rid
  unfolding find_sftprequest
  found_again type id s t k unused =
      find_slot_by_unique (has_id id) t.sftp_requests k.rid k.request k.is_there
        ((==_iff k.request.id id).1 k.same_id)
        (λ j q there ne. other j q (unused j q (k.no_more j q there (λ e. ne (sym e)))))
    where
      other : (j : ℕ) (q : SftpRequest) → q.id ≢ id → (q.id == id) ≡ false
      other j q ne = ground arith

  left_open :
      {type id : ℕ} {s t : SftpCore} (type' : ℕ) (u : SftpCore) (k : IsTaken type id s t)
      → IsLeftOpen k.request.type type' k.request.id u
      → IsLeftOpen type type' id u
  left_open {id = id} type' u k why =
      subst (λ n. IsLeftOpen n type' id u) k.same_type
        (subst (λ n. IsLeftOpen k.request.type type' n u) k.same_id why)

  -- A request whose number no open request has, followed by the answer with this number: if both
  -- are inspected, every request that was open before is open and as it was, and there are as many
  -- open requests as before. There is one more only where one of both has type 0 or the newest entry
  -- of the log says that the answer is too short.
  pub request_answered :
      (type type' id : ℕ) (x rest y rest' : Bytes) (s t u : SftpCore)
      → is_empty x ≡ false
      → l.wire.get_u32 x ≡ some (id, rest)
      → is_empty y ≡ false
      → l.wire.get_u32 y ≡ some (id, rest')
      → IsUnused id s
      → inspect_sftp_request l type x s ≡ done t
      → inspect_sftp_response l type' y t ≡ done u
      → IsBack type type' id s u
  request_answered type type' id x rest y rest' s t u bx ex by ey unused first second =
      let k = (inspect_sftp_request-IsTaken l type id x rest s bx ex).at t first in
      let a =
        (inspect_sftp_response-IsAnswered l type' id k.rid y rest' k.request t by ey
            (found_again type id s t k unused) k.is_there).at
          u second in
      elim a.table [
        | inl gone ↦ record {
          others = λ j q h. gone.others j (λ e. k.was_free q (rw e h)) ∙ k.others j q h;
          as_many = inl (omega (arith, gone.one_less, k.one_more));
        }
        | inr (stays, why) ↦ record {
          others = λ j q h. rw stays (
              get_elem?-set_ne t.sftp_requests k.rid j _ (λ e. k.was_free q (rw e h))
              ∙ k.others j q h);
          as_many = inr (
            rw stays (num_open-update t.sftp_requests k.rid k.request _ k.is_there ∙ k.one_more),
            left_open type' u k why,
          );
        }
      ]
