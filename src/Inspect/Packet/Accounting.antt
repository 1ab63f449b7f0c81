-- ===== src/Inspect/Packet/Accounting.antt =====
-- The counting of bytes in `susshi_inspect_packet`, and the packets that no handler is for.
use susshi.Prelude.{ℕ, ◌+◌, ◌%◌, ◌^◌, ◌≡◌, ap, Bool, true, false, length, if◌then◌else◌}
use susshi.Result.Ensures.{Ensures, Ensures-done, Ensures-bind}
use susshi.Session.{Side, client, target, gateway, proxy, both, nodir, is_client, Report, Session}
use susshi.Gateway.{Bytes, Gateway}
use susshi.Inspect.Follows.{SameBytes, Lawful}
use susshi.Inspect.Packet.{count_in, count_out, count_forwarded, dispatch, inspect_packet}
use susshi.Inspect.Packet.Dispatch.{dispatch-Goes}

-- `uint64_t` addition.
abbrev pub add64 : ℕ → ℕ → ℕ
add64 a b = (a + b) % 2 ^ 64

-- The counters after a packet of `n` bytes from the client or from the other side.
pub record IsCounted (from_client forwarded : Bool) (n : ℕ) (a b : Report) : Type 0 where
  pub client_in :
      b.client_in_bytes ≡ (if from_client then add64 a.client_in_bytes n else a.client_in_bytes)
  pub target_in :
      b.target_in_bytes ≡ (if from_client then a.target_in_bytes else add64 a.target_in_bytes n)
  pub target_out : b.target_out_bytes ≡ (
      if from_client
      then (if forwarded then add64 a.target_out_bytes n else a.target_out_bytes)
      else a.target_out_bytes)
  pub client_out : b.client_out_bytes ≡ (
      if from_client
      then a.client_out_bytes
      else (if forwarded then add64 a.client_out_bytes n else a.client_out_bytes))

module _ (n : ℕ) (s t : Session) where
  -- What is counted on the way out, added to what was counted on the way in.
  counted_client :
      (b : Bool)
      → SameBytes (count_in client n s).report t.report
      → IsCounted true b n s.report (if b then count_out client n t else t).report
  counted_client true same = record {
    client_in = same.client_in;
    target_in = same.target_in;
    target_out = ap (λ x. add64 x n) same.target_out;
    client_out = same.client_out;
  }
  counted_client false same = record {
    client_in = same.client_in;
    target_in = same.target_in;
    target_out = same.target_out;
    client_out = same.client_out;
  }

  counted_target :
      (b : Bool)
      → SameBytes (count_in target n s).report t.report
      → IsCounted false b n s.report (if b then count_out target n t else t).report
  counted_target true same = record {
    client_in = same.client_in;
    target_in = same.target_in;
    target_out = same.target_out;
    client_out = ap (λ x. add64 x n) same.client_out;
  }
  counted_target false same = record {
    client_in = same.client_in;
    target_in = same.target_in;
    target_out = same.target_out;
    client_out = same.client_out;
  }

  counted :
      (sender : Side) (b : Bool)
      → SameBytes (count_in sender n s).report t.report
      → IsCounted (is_client sender) b n s.report (if b then count_out sender n t else t).report
  counted client = counted_client
  counted target = counted_target
  counted gateway = counted_target
  counted proxy = counted_target
  counted both = counted_target
  counted nodir = counted_target

counted_forwarded :
    (sender : Side) (n : ℕ) (s : Session) (b : Bool) (bytes : Bytes) (t : Session)
    → SameBytes (count_in sender n s).report t.report
    → (let r = count_forwarded sender n (record { forward = b; buffer = bytes; session = t }) in
        IsCounted (is_client sender) r.forward n s.report r.session.report)
counted_forwarded sender n s true bytes t same = counted n s t sender true same
counted_forwarded sender n s false bytes t same = counted n s t sender false same

-- Every packet that is handled is counted with its whole length: as received from its sender, and,
-- exactly if it is forwarded, as sent to the other side. No other of the four counters of
-- packets' bytes moves. The inspectors of channel data are assumed to leave these counters alone.
pub inspect_packet-IsCounted :
    (g : Gateway)
    → Lawful g.inspect
    → (sender : Side) (type : ℕ) (buffer : Bytes) (s : Session)
    → Ensures
        (λ r. IsCounted (is_client sender) r.forward (length buffer) s.report r.session.report)
        (inspect_packet g sender type buffer s)
unfolding inspect_packet
inspect_packet-IsCounted g lawful sender type buffer s =
    let n = length buffer in
    Ensures-bind (dispatch g sender type buffer (count_in sender n s)) _ λ r e. Ensures-done _ (
      counted_forwarded sender n s r.forward r.buffer r.session
        (((dispatch-Goes g lawful sender type buffer (count_in sender n s)).at r e).same_bytes))
