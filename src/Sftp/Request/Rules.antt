-- ===== src/Sftp/Request/Rules.antt =====
-- What a part of `inspect_sftp_request` (src/susshid/inspect-sftp.c) may change, and how its parts
-- keep to it.
use susshi.Prelude.{ℕ, ◌≡◌, ◌⊎◌, refl, inl, inr, Option, none, some, set}
use susshi.Result.{Result, done}
use susshi.Result.Ensures.{Ensures, Ensures-done, Ensures-bind}
use susshi.Gateway.{Bytes}
use susshi.Sftp.Message.{fxp_write}
use susshi.Sftp.Session.{Event, SftpRequest, SftpHandle, SftpCore}
use susshi.Sftp.Tables.{find_sftphandle, handle_at, data_to_hex}
use susshi.Sftp.Library.{note, reading, on_found, on_handle}

-- From `s` to `t` the table of requests is the same but for the request of slot `rid`, which keeps
-- its number and type; no bytes were read, and bytes were written only by a WRITE.
pub record Stays (rid : ℕ) (r : SftpRequest) (s t : SftpCore) : Type 0 where
  pub requests :
      (t.sftp_requests ≡ s.sftp_requests)
      ⊎ ((q : SftpRequest) × (t.sftp_requests ≡ set s.sftp_requests rid (some q))
          × (q.id ≡ r.id)
          × (q.type ≡ r.type))
  pub read : t.sftp_bytes_read ≡ s.sftp_bytes_read
  pub written : (r.type ≡ fxp_write) ⊎ (t.sftp_bytes_written ≡ s.sftp_bytes_written)

abbrev pub Keeps : ℕ → SftpRequest → SftpCore → Result SftpCore → Type 0
Keeps rid r s = Ensures (Stays rid r s)

module _ (rid : ℕ) (r : SftpRequest) (s : SftpCore) where
  -- Nothing of the table, or only the request itself, was written.
  pub same_table :
      (t : SftpCore)
      → t.sftp_requests ≡ s.sftp_requests
      → t.sftp_bytes_read ≡ s.sftp_bytes_read
      → t.sftp_bytes_written ≡ s.sftp_bytes_written
      → Keeps rid r s (done t)
  same_table t e e' e'' = Ensures-done t (record { requests = inl e; read = e'; written = inr e'' })

  pub own_slot :
      (t : SftpCore) (q : SftpRequest)
      → t.sftp_requests ≡ set s.sftp_requests rid (some q)
      → q.id ≡ r.id
      → q.type ≡ r.type
      → t.sftp_bytes_read ≡ s.sftp_bytes_read
      → (r.type ≡ fxp_write) ⊎ (t.sftp_bytes_written ≡ s.sftp_bytes_written)
      → Keeps rid r s (done t)
  own_slot t q e i ty e' w =
      Ensures-done t (record { requests = inr (q, e, i, ty); read = e'; written = w })

  pub Keeps-reading :
      {A : Type 0} (o : Option A) (k : A → Result SftpCore)
      → ((a : A) → Keeps rid r s (k a))
      → Keeps rid r s (reading o r.id s k)
  unfolding note
  Keeps-reading none k h = same_table _ refl refl refl
  Keeps-reading (some a) k h = h a

  pub Keeps-on_handle :
      (handle : Bytes) (k : ℕ → SftpHandle → Result SftpCore) (otherwise : Result SftpCore)
      → ((hid : ℕ) (h : SftpHandle) → Keeps rid r s (k hid h))
      → Keeps rid r s otherwise
      → Keeps rid r s (on_handle handle s k otherwise)
  unfolding on_handle
  Keeps-on_handle handle k otherwise h h' = by_slot (find_sftphandle (data_to_hex 514 handle) s)
    where
      by_slot : (o : Option ℕ) → Keeps rid r s (on_found o s k otherwise)
      by_slot none = h'
      by_slot (some hid) = Ensures-bind (handle_at hid s) _ λ a e. h hid a

  pub unchanged : Keeps rid r s (done s)
  unchanged = same_table s refl refl refl

  pub noted : (e : Event) → Keeps rid r s (done (note r.id e s))
  unfolding note
  noted e = same_table _ refl refl refl
