-- ===== src/Sftp/Request/Outcome.antt =====
-- What a message of the client does to the table of requests: `inspect_sftp_request` of
-- src/susshid/inspect-sftp.c.
use susshi.Prelude.{
  ℕ, zero, suc, ◌+◌, ◌≡◌, ◌≢◌, ◌⊎◌, refl, sym, ◌∙◌, inl, inr, false, Option, some, List, [], ◌∷◌,
  get_elem?, set, is_empty, arith, ap, get_elem?-set_self, get_elem?-set_ne, get_elem?-lt,
}
use susshi.Result.{done}
use susshi.Result.Ensures.{Ensures, Ensures-bind, Ensures-weaken}
use susshi.Gateway.{Bytes}
use susshi.Slots.{num_open, alloc}
use susshi.Slots.Removal.{num_open-update}
use susshi.Slots.Laws.{IsAdded, alloc-IsAdded}
use susshi.Sftp.Message.{fxp_write}
use susshi.Sftp.Session.{SftpRequest, SftpCore}
use susshi.Sftp.Tables.{fresh_request, alloc_new_sftprequest, set_request}
use susshi.Sftp.Library.{SftpLibrary}
use susshi.Sftp.Request.{inspect_sftp_request}
use susshi.Sftp.Request.Rules.{Stays}
use susshi.Sftp.Request.Stays.{by_request-Keeps}

-- The request `id` of a type is in a slot of `t` that was free in `s`.
pub record IsTaken (type id : ℕ) (s t : SftpCore) : Type 0 where
  pub rid : ℕ
  pub request : SftpRequest
  pub is_there : get_elem? t.sftp_requests rid ≡ some (some request)
  pub same_id : request.id ≡ id
  pub same_type : request.type ≡ type
  pub was_free : (q : SftpRequest) → get_elem? s.sftp_requests rid ≢ some (some q)
  pub others :
      (j : ℕ) (q : SftpRequest)
      → get_elem? s.sftp_requests j ≡ some (some q)
      → get_elem? t.sftp_requests j ≡ some (some q)
  pub no_more :
      (j : ℕ) (q : SftpRequest)
      → get_elem? t.sftp_requests j ≡ some (some q)
      → rid ≢ j
      → get_elem? s.sftp_requests j ≡ some (some q)
  pub one_more : num_open t.sftp_requests ≡ num_open s.sftp_requests + 1
  pub read : t.sftp_bytes_read ≡ s.sftp_bytes_read
  pub written : (type ≡ fxp_write) ⊎ (t.sftp_bytes_written ≡ s.sftp_bytes_written)

pub set-set : {A : Type 0} (l : List A) (i : ℕ) (a b : A) → set (set l i a) i b ≡ set l i b
set-set [] i a b = refl
set-set (x ∷ l) zero a b = refl
set-set (x ∷ l) (suc i) a b = ap (λ t. x ∷ t) (set-set l i a b)

written_to :
    (type id rid : ℕ) (s t : SftpCore) (m : List (Option SftpRequest)) (q : SftpRequest)
    → IsAdded fresh_request s.sftp_requests m rid
    → t.sftp_requests ≡ set m rid (some q)
    → q.id ≡ id
    → q.type ≡ type
    → t.sftp_bytes_read ≡ s.sftp_bytes_read
    → (type ≡ fxp_write) ⊎ (t.sftp_bytes_written ≡ s.sftp_bytes_written)
    → IsTaken type id s t
written_to type id rid s t m q added e i ty read written = record {
  rid = rid;
  request = q;
  is_there =
      rw e
        (get_elem?-set_self m rid (some q) (get_elem?-lt m rid (some fresh_request) added.fresh));
  same_id = i;
  same_type = ty;
  was_free = added.was_free;
  others = λ j p h.
      rw e (
        get_elem?-set_ne m rid j (some q) (λ same. added.was_free p (rw same h))
        ∙ added.kept j p h);
  no_more =
      λ j p h ne. added.no_more j p (sym (get_elem?-set_ne m rid j (some q) ne) ∙ rw e at h) ne;
  one_more = rw e (num_open-update m rid fresh_request q added.fresh ∙ added.one_more);
  read = read;
  written = written;
}

module _ (l : SftpLibrary) where
  begun_by :
      (type id rid : ℕ) (s s1 t : SftpCore)
      → alloc_new_sftprequest s ≡ done (rid, s1)
      → Stays rid
          (record fresh_request { id = id; type = type })
          (set_request rid (record fresh_request { id = id; type = type }) s1)
          t
      → IsTaken type id s t
  unfolding alloc_new_sftprequest set_request
  begun_by type id rid s s1 t e k =
      let r = record fresh_request { id = id; type = type } in
      let placed : alloc fresh_request s.sftp_requests ≡ done (rid, s1.sftp_requests) =
        ground arith in
      let same : s1 ≡ record s { sftp_requests = s1.sftp_requests } = ground arith in
      let added = alloc-IsAdded fresh_request s.sftp_requests s1.sftp_requests rid placed in
      let read : t.sftp_bytes_read ≡ s.sftp_bytes_read =
        k.read ∙ ap SftpCore.sftp_bytes_read same in
      let w : (type ≡ fxp_write) ⊎ (t.sftp_bytes_written ≡ s.sftp_bytes_written) = elim k.written [
        | inl write ↦ inl write
        | inr kept ↦ inr (kept ∙ ap SftpCore.sftp_bytes_written same)
      ] in
      elim k.requests [
        | inl e1 ↦ written_to type id rid s t s1.sftp_requests r added e1 refl refl read w
        | inr (q, e1, i, ty) ↦
            written_to type id rid s t s1.sftp_requests q added
              (e1 ∙ set-set s1.sftp_requests rid (some r) (some q)) i ty read w
      ]

  -- A message of the client that holds the number of a request, if its inspection returns, puts
  -- the request with this number and its type into a free slot; all other open requests stay as
  -- they are. No bytes are counted as read, and none as written but for a WRITE.
  pub inspect_sftp_request-IsTaken :
      (type id : ℕ) (x rest : Bytes) (s : SftpCore)
      → is_empty x ≡ false
      → l.wire.get_u32 x ≡ some (id, rest)
      → Ensures (IsTaken type id s) (inspect_sftp_request l type x s)
  unfolding inspect_sftp_request
  inspect_sftp_request-IsTaken type id x rest s some_bytes e =
      rw (some_bytes, e)
        (Ensures-bind (alloc_new_sftprequest s) _ λ a placed.
          let r = record fresh_request { id = id; type = type } in
          Ensures-weaken _ (λ t k. begun_by type id a.0 s a.1 t placed k)
            (by_request-Keeps l a.0 r rest (set_request a.0 r a.1)))
