-- ===== src/Sftp/Message/Frames.antt =====
-- What `susshi_inspect_sftp_packet` (src/susshid/inspect-sftp.c) is for: the messages of a stream,
-- each a length, a type and its data, are inspected one by one.
use susshi.Prelude.{
  ℕ, ◌+◌, ◌-◌, ◌/◌, ◌%◌, ◌^◌, ◌≤◌, ◌<◌, ◌≡◌, refl, sym, ◌∙◌, ap, inl, inr, List, [], ◌∷◌, ◌++◌,
  length, take, drop, ltb, arith, Bool-cases, length-append, take-append_of_le, drop-append_of_ge,
}
use mathlib.Core.List.{append-nil}
use susshi.Result.{Result, Result-cases, done, stop, ◌>>=◌, >>=-eq-done}
use susshi.Gateway.{Bytes, Wire}
use susshi.Sftp.Buffer.{Buffers, sub32, network32, IsLawful}
use susshi.Sftp.Message.{
  new, complete, SftpMessage, idle_message, kept_of, first_copy, Receiving, receive,
}
use susshi.Sftp.Message.Turns.{IsValid, at, first_copy_le}
use susshi.Sftp.Message.Cases.{
  Header, begun, init_short, init_full, new_full, complete_stops, complete_more, complete_last,
}
use susshi.Sftp.Message.Progress.{IsReady, nothing_left}
use susshi.Sftp.Message.Loop.{receive_again, receive-ended, receive_stops, receive-IsValid}
use susshi.Sftp.Message.Joined.{IsSettled}
use susshi.Sftp.Message.Dated.{outcome}
use susshi.Sftp.Message.Append.{filled_own, receive-append}

-- A type and the data.
abbrev pub Frame : Type 0
Frame = ℕ × Bytes

-- The length in network order counts the type.
abbrev encode : Frame → Bytes
encode (t, payload) =
    let n = length payload + 1 in
    (n / 2 ^ 24 % 256) ∷ (n / 2 ^ 16 % 256) ∷ (n / 2 ^ 8 % 256) ∷ (n % 256) ∷ t ∷ payload

abbrev pub stream : List Frame → Bytes
stream [] = []
stream (f ∷ fs) = encode f ++ stream fs

abbrev FitsAll : List Frame → Type 0
FitsAll [] = Unit {0}
FitsAll (f ∷ fs) = (length f.1 + 1 < 2 ^ 32) × FitsAll fs

-- What is kept of the data.
abbrev pub kept : Frame → Bytes
kept (t, payload) = take (first_copy (kept_of t) (length payload)) payload

module _ {C : Type 0} (deliver : ℕ → Bytes → C → Result C) where
  -- The abstract inspection: message by message.
  abbrev pub deliver_all : List Frame → C → Result C
  deliver_all [] c = done c
  deliver_all (f ∷ fs) c = deliver f.0 (kept f) c >>= deliver_all fs

network32-octets :
    (n : ℕ)
    → n < 2 ^ 32
    → network32 (n / 2 ^ 24 % 256) (n / 2 ^ 16 % 256) (n / 2 ^ 8 % 256) (n % 256) ≡ n
network32-octets n h = omega arith

module _ {b : Buffers} {w : Wire} (law : IsLawful b w) {C : Type 0}
    (deliver : ℕ → Bytes → C → Result C) where
  idle-IsReady : (d : ℕ) (x : Bytes) (c : C) → IsReady (at d x idle_message c)
  idle-IsReady d x c = ((omega arith, refl, refl), tt)

  -- One message at the front of a packet.
  first_frame :
      (d : ℕ) (f : Frame) (rest : Bytes) (c : C)
      → length f.1 + 1 < 2 ^ 32
      → (e : ℕ) × (m : SftpMessage) × (receive w b deliver (at d (encode f ++ rest) idle_message c)
          ≡ receive w b deliver (at e rest m c))
        × (m.state ≡ complete)
        × (m.type ≡ f.0)
        × (m.buffer ≡ kept f)
        × IsReady (at e rest m c)
  first_frame d (t, payload) rest c fits =
      let n : ℕ = length payload + 1 in
      let x = encode (t, payload) ++ rest in
      let m1 = record idle_message {
        header = (n / 2 ^ 24 % 256) ∷ (n / 2 ^ 16 % 256) ∷ (n / 2 ^ 8 % 256) ∷ (n % 256) ∷ t ∷ [];
        state = new;
      } in
      let h : Header w m1.header = record {
        size = network32 (n / 2 ^ 24 % 256) (n / 2 ^ 16 % 256) (n / 2 ^ 8 % 256) (n % 256);
        type = t;
        rest = t ∷ [];
        rest' = [];
        reads_size = law.get_u32_lem _ _ _ _ (t ∷ []);
        reads_type = law.get_u8_lem t [];
      } in
      let size : sub32 h.size 1 ≡ length payload = omega (arith, network32-octets n fits) in
      let le : first_copy (kept_of t) (length payload) ≤ length payload =
        first_copy_le (kept_of t) (length payload) payload (omega arith) in
      let none_of : length payload - length payload ≡ 0 = omega arith in
      let body = payload ++ rest in
      let r1 =
        receive_again law deliver (at d x idle_message c) (at d body m1 c)
          (init_full law deliver d x idle_message c refl (omega arith) (omega arith))
          (idle-IsReady d x c) in
      let m2 = begun h m1 complete (sub32 h.size 1) body in
      let r2 =
        receive_again law deliver (at d body m1 c)
          (at (sub32 d 5) (drop (sub32 h.size 1) body) m2 c)
          (new_full law deliver d body m1 c h refl (refl, refl, refl)
            (rw size (omega (arith, length-append payload rest))))
          r1.1 in
      let left : drop (sub32 h.size 1) body ≡ rest =
        rw (size, drop-append_of_ge (length payload) payload rest (omega arith), none_of) in
      (
        sub32 d 5,
        m2,
        r1.0 ∙ r2.0 ∙ rw left,
        refl,
        refl,
        rw (size, take-append_of_le (first_copy (kept_of t) (length payload)) payload rest le),
        (tt, tt),
      )

  receive_next :
      (d : ℕ) (x : Bytes) (m : SftpMessage) (c c' : C)
      → m.state ≡ complete
      → deliver m.type m.buffer c ≡ done c'
      → IsReady (at d x m c)
      → outcome (receive w b deliver (at d x m c))
        ≡ outcome (receive w b deliver (at d x idle_message c'))
  receive_next d x m c c' e delivered v = elim (Bool-cases (ltb 0 (length x))) [
    | inl more ↦
        ap outcome
          (receive_again law deliver (at d x m c) (at d x idle_message c')
            (complete_more law deliver d x m c e c' delivered more) v).0
    | inr last ↦
        let empty : x ≡ [] = nothing_left x last in
        rw (
          (receive-ended law deliver (at d x m c) (at d x idle_message c')
              (complete_last law deliver d x m c e c' delivered last) v).0,
          empty,
          (receive-ended law deliver (at d [] idle_message c') (at d [] idle_message c')
              (init_short law deliver d [] idle_message c' refl (omega arith))
              (idle-IsReady d [] c')).0,
        )
  ]

  -- A packet that holds whole messages has them inspected one by one, in order, each with its type
  -- and with what is kept of its data, and leaves no message under way; it stops where the
  -- inspection of one of them stops. The lengths are those of 32-bit numbers.
  pub receive-stream :
      (fs : List Frame) (d : ℕ) (c : C)
      → FitsAll fs
      → outcome (receive w b deliver (at d (stream fs) idle_message c))
        ≡ (deliver_all deliver fs c >>= λ c'. done (idle_message, c'))
  receive-stream [] d c fits =
      ap outcome
        (receive-ended law deliver (at d [] idle_message c) (at d [] idle_message c)
          (init_short law deliver d [] idle_message c refl (omega arith)) (idle-IsReady d [] c)).0
  receive-stream (f ∷ fs) d c fits =
      let (e, m, same, complete_m, t, kept_m, v) = first_frame d f (stream fs) c fits.0 in
      elim (Result-cases (deliver f.0 (kept f) c)) [
        | inl (why, stopped) ↦
            ap outcome (
              same
              ∙ receive_stops law deliver (at e (stream fs) m c) why
                  (complete_stops law deliver e (stream fs) m c complete_m why
                    (rw (t, kept_m) stopped))
                  v)
            ∙ rw stopped
        | inr (c', delivered) ↦
            ap outcome same
            ∙ receive_next e (stream fs) m c c' complete_m (rw (t, kept_m) delivered) v
            ∙ rw delivered (receive-stream fs e c' fits.1)
      ]

-- The packets of one direction, one after the other; `susshi_inspect_data` gives each with the length
-- of its data.
module _ (w : Wire) (b : Buffers) {C : Type 0} (deliver : ℕ → Bytes → C → Result C) where
  unfoldable pub receive_packets : List Bytes → SftpMessage → C → Result (SftpMessage × C)
  receive_packets [] m c = done (m, c)
  receive_packets (x ∷ xs) m c = do
    r ← receive w b deliver (at (length x) x m c)
    receive_packets xs r.msg r.core

  -- No packet ends within the bytes that are kept of a message of which not all is kept.
  unfoldable pub AllSettled : List Bytes → SftpMessage → C → Type 0
  AllSettled [] m c = Unit {0}
  AllSettled (x ∷ xs) m c =
      (r : Receiving C)
      → receive w b deliver (at (length x) x m c) ≡ done r
      → IsSettled r.msg × AllSettled xs r.msg r.core

abbrev concat : List Bytes → Bytes
concat [] = []
concat (x ∷ xs) = x ++ concat xs

outcome_is : {C : Type 0} (r : Result (Receiving C)) → outcome r ≡ (r >>= λ s. done (s.msg, s.core))
outcome_is (done s) = refl
outcome_is (stop e) = refl

ends_alike :
    {C : Type 0} (r : Result C) (k : SftpMessage) (c : C)
    → ◌>>=◌ {B = SftpMessage × C} r (λ c'. done (idle_message, c')) ≡ done (k, c)
    → (r ≡ done c) × (k ≡ idle_message)
ends_alike (done c') k c h = (cc, cc)
ends_alike (stop e) k c h = cc

module _ {b : Buffers} {w : Wire} (law : IsLawful b w) {C : Type 0}
    (deliver : ℕ → Bytes → C → Result C) where
  at_once :
      (x : Bytes) (xs : List Bytes) (m k : SftpMessage) (c c' : C)
      → IsValid m
      → AllSettled w b deliver (x ∷ xs) m c
      → receive_packets w b deliver (x ∷ xs) m c ≡ done (k, c')
      → outcome (receive w b deliver (at (length (concat (x ∷ xs))) (concat (x ∷ xs)) m c))
        ≡ done (k, c')
  unfolding receive_packets AllSettled
  at_once x [] m k c c' v s ran =
      rw append-nil (outcome_is (receive w b deliver (at (length x) x m c)) ∙ ran)
  at_once x (y ∷ ys) m k c c' v s ran =
      let (r, first, others) = >>=-eq-done (receive w b deliver (at (length x) x m c)) _ ran in
      let next =
        at_once y ys r.msg k r.core c'
          (receive-IsValid law deliver (at (length x) x m c) r (v, filled_own m.state x m c)
            first).0
          (s r first).1 others in
      sym (receive-append law deliver x (concat (y ∷ ys)) m c r v first (s r first).0) ∙ next

  -- However a stream of messages is cut into packets: if they are all handled to the end, then its
  -- messages were inspected one by one, in order, each with its type and with what is kept of its
  -- data, and no message is left under way. The condition is that no packet ends within the bytes that
  -- are kept of a message of which not all is kept.
  pub receive_packets-stream :
      (fs : List Frame) (x : Bytes) (xs : List Bytes) (k : SftpMessage) (c c' : C)
      → FitsAll fs
      → concat (x ∷ xs) ≡ stream fs
      → AllSettled w b deliver (x ∷ xs) idle_message c
      → receive_packets w b deliver (x ∷ xs) idle_message c ≡ done (k, c')
      → (deliver_all deliver fs c ≡ done c') × (k ≡ idle_message)
  receive_packets-stream fs x xs k c c' fits same s ran =
      let whole = at_once x xs idle_message k c c' (omega arith, refl, refl) s ran in
      let spec = receive-stream law deliver fs (length (concat (x ∷ xs))) c fits in
      ends_alike (deliver_all deliver fs c) k c' (sym spec ∙ rw (← same) whole)
