-- ===== src/Sftp/Response/Outcome.antt =====
-- What a message of the target does to the table of requests: `inspect_sftp_response` of
-- src/susshid/inspect-sftp.c.
use susshi.Prelude.{
  ◌∷◌, ℕ, ◌≡◌, ◌⊎◌, refl, sym, ◌∙◌, inl, inr, true, false, ◌&&◌, Option, none, some, List,
  get_elem?, set, get_elem?-set_self, get_elem?-lt, is_empty, ltb, ◌==◌, arith, Bool-cases,
}
use mathlib.Core.Path.{subst}
use susshi.Result.{Result, done, ◌>>=◌}
use susshi.Result.Ensures.{Ensures, Ensures-done, Ensures-if, Ensures-bind, Ensures-weaken}
use susshi.Gateway.{Bytes}
use susshi.Slots.{release}
use susshi.Slots.Removal.{IsRemoved}
use susshi.Slots.Laws.{release-IsRemoved}
use susshi.Sftp.Message.{fxp_data}
use susshi.Sftp.Session.{SftpRequest, SftpCore, unsupported, extended_reply, underrun, Entry}
use susshi.Sftp.Tables.{
  find_sftprequest, request_at, set_request, free_sftprequest, handle_at, set_handle,
}
use susshi.Sftp.Library.{SftpLibrary, add64, note}
use susshi.Sftp.Request.Outcome.{set-set}
use susshi.Sftp.Response.{
  Answered, answered, short, answering, fxp_status, fxp_handle, fxp_name, fxp_attrs,
  fxp_extended_reply, fx_op_unsupported, response_data, by_response, finish_answer,
  inspect_sftp_response,
}
use susshi.Sftp.Response.Rests.{
  core_of, rests, noted, Keeps, ends, response_status-Keeps, response_name-Keeps,
  response_handle-Keeps, response_attrs-Keeps,
}

-- Only DATA counts bytes as read.
pub record RestsBy (type : ℕ) (s t : SftpCore) : Type 0 where
  pub requests : t.sftp_requests ≡ s.sftp_requests
  pub written : t.sftp_bytes_written ≡ s.sftp_bytes_written
  pub read : (type ≡ fxp_data) ⊎ (t.sftp_bytes_read ≡ s.sftp_bytes_read)

module _ (l : SftpLibrary) (r : SftpRequest) (x : Bytes) (s : SftpCore) where
  abbrev KeepsBy : ℕ → Result Answered → Type 0
  KeepsBy type = Ensures (λ a. RestsBy type s (core_of a))

  by_rests : (type : ℕ) (m : Result Answered) → Keeps s m → KeepsBy type m
  by_rests type m =
      Ensures-weaken m
        λ a k. record { requests = k.requests; written = k.written; read = inr k.read }

  response_data-Keeps : KeepsBy fxp_data (response_data l r x s)
  unfolding set_handle
  response_data-Keeps = by_read (l.wire.get_u32 x)
    where
      by_read :
          (o : Option (ℕ × Bytes))
          → KeepsBy fxp_data (
              answering o s (λ p. do
                h ← handle_at r.hid s
                let s = set_handle r.hid (record h { filesize = add64 h.filesize p.0 }) s
                done (answered (record s { sftp_bytes_read = add64 s.sftp_bytes_read p.0 }))))
      by_read none = Ensures-done _ (record { requests = refl; written = refl; read = inr refl })
      by_read (some p) =
          Ensures-bind (handle_at r.hid s) _
            λ h e. Ensures-done _ (record { requests = refl; written = refl; read = inl refl })

  by_response-Keeps : (type : ℕ) → KeepsBy type (by_response l r x s type)
  unfolding by_response
  by_response-Keeps type =
      Ensures-if (type == fxp_status) _ _ (λ _. by_rests type _ (response_status-Keeps l r x s))
        λ _.
          Ensures-if (type == fxp_name) _ _ (λ _. by_rests type _ (response_name-Keeps l r x s))
            λ _.
              Ensures-if (type == fxp_handle) _ _
                (λ _. by_rests type _ (response_handle-Keeps l r x s))
                λ _.
                  Ensures-if (type == fxp_attrs) _ _
                    (λ _. by_rests type _ (response_attrs-Keeps l r x s))
                    λ _.
                      Ensures-if (type == fxp_data) _ _
                        (λ e.
                          let same : fxp_data ≡ type = ground arith in
                          subst (λ (type : ℕ). KeepsBy type (response_data l r x s)) same
                            response_data-Keeps)
                        λ _.
                          Ensures-if (type == fx_op_unsupported) _ _
                            (λ _. by_rests type _ (ends s _ (noted s r.id unsupported)))
                            λ _.
                              Ensures-if (type == fxp_extended_reply) _ _
                                (λ _. by_rests type _ (ends s _ (noted s r.id extended_reply)))
                                λ _. by_rests type _ (ends s s (rests s))

-- The newest entry of the log says that a message of a request was too short.
abbrev pub IsUnderrun : ℕ → SftpCore → Type 0
IsUnderrun id t =
    (older : List Entry) × (t.log
      ≡ record { id = some id; from_client = true; event = underrun } ∷ older)

-- Why a request stays open after its answer: it or the answer has type 0, or the answer was too
-- short.
abbrev pub IsLeftOpen : ℕ → ℕ → ℕ → SftpCore → Type 0
IsLeftOpen type type' id t = (type ≡ 0) ⊎ (type' ≡ 0) ⊎ IsUnderrun id t

-- The request `r` of slot `rid` has been answered by a message of a type: it is gone, or it stays
-- with the type of the answer, for one of the reasons above.
pub record IsAnswered (type rid : ℕ) (r : SftpRequest) (s t : SftpCore) : Type 0 where
  pub table :
      IsRemoved s.sftp_requests t.sftp_requests rid
      ⊎ ((t.sftp_requests ≡ set s.sftp_requests rid (some (record r { sftp_target_type = type })))
          × IsLeftOpen r.type type r.id t)
  pub written : t.sftp_bytes_written ≡ s.sftp_bytes_written
  pub read : (type ≡ fxp_data) ⊎ (t.sftp_bytes_read ≡ s.sftp_bytes_read)

module _ (l : SftpLibrary) where
  finish-IsAnswered :
      (type rid : ℕ) (r : SftpRequest) (s : SftpCore) (a : Answered)
      → get_elem? s.sftp_requests rid ≡ some (some r)
      → RestsBy type (set_request rid (record r { sftp_target_type = type }) s) (core_of a)
      → Ensures (IsAnswered type rid r s) (finish_answer l rid r.id a)
  unfolding note set_request free_sftprequest
  finish-IsAnswered type rid r s (short t) used k = Ensures-done _ (record {
    table = inr (k.requests, inr (inr (t.log, refl)));
    written = k.written;
    read = k.read;
  })
  finish-IsAnswered type rid r s (answered t) used k =
      let q = record r { sftp_target_type = type } in
      let m = set s.sftp_requests rid (some q) in
      let there =
        get_elem?-set_self s.sftp_requests rid (some q) (get_elem?-lt _ rid (some r) used) in
      let freed = (release-IsRemoved m rid q there).0 in
      Ensures-bind (release rid t.sftp_requests) _ λ slots e.
        let same : set s.sftp_requests rid none ≡ slots =
          sym (set-set s.sftp_requests rid (some q) none) ∙ cc (e, freed, k.requests) in
        Ensures-done _ (record {
          table = inl (
              subst (λ (m : List (Option SftpRequest)). IsRemoved s.sftp_requests m rid) same
                (release-IsRemoved s.sftp_requests rid r used).1);
          written = k.written;
          read = k.read;
        })

  -- A message of the target whose number is that of an open request, if its inspection returns,
  -- takes this request out of the table; it leaves it there, with the type of the answer, only where
  -- one of both has type 0 or the newest entry of the log says that the message is too short. All
  -- other requests stay as they are. No bytes are counted as written, and none as
  -- read but for DATA.
  pub inspect_sftp_response-IsAnswered :
      (type id rid : ℕ) (x rest : Bytes) (r : SftpRequest) (s : SftpCore)
      → is_empty x ≡ false
      → l.wire.get_u32 x ≡ some (id, rest)
      → find_sftprequest id s ≡ some rid
      → get_elem? s.sftp_requests rid ≡ some (some r)
      → Ensures (IsAnswered type rid r s) (inspect_sftp_response l type x s)
  unfolding inspect_sftp_response request_at set_request
  inspect_sftp_response-IsAnswered type id rid x rest r s some_bytes e found used =
      rw (some_bytes, e, found, used)
        (Ensures-if (ltb 0 r.type && ltb 0 type) _ _
          (λ _.
            let q = record r { sftp_target_type = type } in
            Ensures-bind (by_response l q rest (set_request rid q s) type) _ λ a ran.
              finish-IsAnswered type rid r s a used
                ((by_response-Keeps l q rest (set_request rid q s) type).at a ran))
          λ untyped. Ensures-done _ (record {
            table = inr (refl, ground (arith, untyped));
            written = refl;
            read = inr refl;
          }))

  -- A message of the target that no open request has the number of changes nothing.
  pub inspect_sftp_response-unknown :
      (type id : ℕ) (x rest : Bytes) (s : SftpCore)
      → l.wire.get_u32 x ≡ some (id, rest)
      → find_sftprequest id s ≡ none
      → inspect_sftp_response l type x s ≡ done s
  unfolding inspect_sftp_response
  inspect_sftp_response-unknown type id x rest s e unknown = elim (Bool-cases (is_empty x)) [
    | inl no_bytes ↦ rw no_bytes
    | inr some_bytes ↦ rw (some_bytes, e, unknown)
  ]
