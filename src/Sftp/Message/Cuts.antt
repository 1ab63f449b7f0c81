-- ===== src/Sftp/Message/Cuts.antt =====
-- Where a packet ends within a message, `susshi_inspect_sftp_packet` (src/susshid/inspect-sftp.c)
-- does with the next packet what it does with one packet of both.
use susshi.Prelude.{
  ℕ, suc, ◌+◌, ◌-◌, ◌≤◌, ◌<◌, ◌≡◌, refl, ◌∙◌, ap, inl, inr, false, [], ◌++◌, length, take, drop,
  ltb, arith, Bool-cases, length-append, ltb→lt, take-append_of_ge, drop-append_of_ge,
}
use mathlib.Core.List.{append_assoc}
use susshi.Result.{Result, done}
use susshi.Gateway.{Bytes, Wire}
use susshi.Sftp.Buffer.{Buffers, sub32, IsLawful}
use susshi.Sftp.Message.{
  init, new, incomplete, complete, SftpMessage, idle_message, kept_of, first_copy, Receiving, again,
  ended, turn, receive,
}
use susshi.Sftp.Message.Turns.{IsValidBy, at}
use susshi.Sftp.Message.Cases.{begun, continued, wanted}
use susshi.Sftp.Message.Progress.{IsReady, measure, nothing_left}
use susshi.Sftp.Message.Cases.{
  Header, init_short, init_full, new_short, new_full, incomplete_short, incomplete_full,
  complete_more, complete_last,
}
use susshi.Sftp.Message.Loop.{receive_again, receive-ended}
use susshi.Sftp.Message.Joined.{IsFull, Joined-first, Joined-later}
use susshi.Sftp.Message.Dated.{outcome, dated}

module _ {b : Buffers} {w : Wire} (law : IsLawful b w) {C : Type 0}
    (deliver : ℕ → Bytes → C → Result C) where
  -- Two states whose turns end, or go on, with the same message and the same bytes.
  meet_ended :
      (s s' : Receiving C) (e e' : ℕ) (z : Bytes) (k : SftpMessage) (c : C)
      → IsReady s
      → IsReady s'
      → turn w b deliver s ≡ done (ended (at e z k c))
      → turn w b deliver s' ≡ done (ended (at e' z k c))
      → outcome (receive w b deliver s) ≡ outcome (receive w b deliver s')
  meet_ended s s' e e' z k c v v' p q =
      let r = receive-ended law deliver s (at e z k c) p v in
      let r' = receive-ended law deliver s' (at e' z k c) q v' in rw (r.0, r'.0)

  meet_again :
      (s s' : Receiving C) (e e' : ℕ) (z : Bytes) (k : SftpMessage) (c : C)
      → IsReady s
      → IsReady s'
      → turn w b deliver s ≡ done (again (at e z k c))
      → turn w b deliver s' ≡ done (again (at e' z k c))
      → outcome (receive w b deliver s) ≡ outcome (receive w b deliver s')
  meet_again s s' e e' z k c v v' p q =
      let r = receive_again law deliver s (at e z k c) p v in
      let r' = receive_again law deliver s' (at e' z k c) q v' in
      rw (r.0, r'.0)
        (dated law deliver (suc (measure (at e z k c))) e e' z k c (omega arith) r.1 r'.1)

  module _ (d2 : ℕ) (x y : Bytes) (m : SftpMessage) (c : C)
      (v2 : IsReady (at d2 (x ++ y) m c)) where
    pub cut_init :
        m.state ≡ init
        → IsValidBy init m
        → length m.header + length x < 5
        → IsReady (at (length y) y (record m { header = m.header ++ x }) c)
        → outcome (receive w b deliver (at (length y) y (record m { header = m.header ++ x }) c))
          ≡ outcome (receive w b deliver (at d2 (x ++ y) m c))
    cut_init e vm few v1 =
        let m1 = record m { header = m.header ++ x } in
        let hx : length (m.header ++ x) ≡ length m.header + length x = length-append m.header x in
        let xy : length (x ++ y) ≡ length x + length y = length-append x y in
        elim (Bool-cases (ltb (length m.header + length x + length y) 5)) [
          | inl few2 ↦
              let lt2 = ltb→lt _ _ few2 in
              meet_ended _ _ (length y) d2 [] (record m { header = (m.header ++ x) ++ y }) c v1 v2
                (init_short law deliver (length y) y m1 c e (omega arith))
                (init_short law deliver d2 (x ++ y) m c e (omega arith)
                  ∙ rw (append_assoc m.header x y))
          | inr enough2 ↦
              let ge : 5 ≤ length m.header + length x + length y = ground arith in
              let k : 5 - length m.header - length x ≡ 5 - length (m.header ++ x) = omega arith in
              let le : length x ≤ 5 - length m.header = omega arith in
              meet_again _ _ (length y) d2 (drop (5 - length (m.header ++ x)) y)
                (record m {
                  header = (m.header ++ x) ++ take (5 - length (m.header ++ x)) y;
                  state = new;
                })
                c v1 v2 (init_full law deliver (length y) y m1 c e (omega arith) (omega arith))
                (init_full law deliver d2 (x ++ y) m c e vm.0 (omega arith)
                  ∙ rw (
                    drop-append_of_ge (5 - length m.header) x y le,
                    take-append_of_ge (5 - length m.header) x y le,
                    k,
                    append_assoc m.header x (take (5 - length (m.header ++ x)) y),
                  ))
        ]

    pub cut_new :
        (h : Header w m.header)
        → m.state ≡ new
        → IsValidBy new m
        → length x < sub32 h.size 1
        → IsFull (kept_of h.type) (take (first_copy (kept_of h.type) (length x)) x)
        → IsReady (at (length y) y (begun h m incomplete (length x) x) c)
        → outcome (receive w b deliver (at (length y) y (begun h m incomplete (length x) x) c))
          ≡ outcome (receive w b deliver (at d2 (x ++ y) m c))
    cut_new h e vm few full v1 =
        let m1 = begun h m incomplete (length x) x in
        let xy : length (x ++ y) ≡ length x + length y = length-append x y in
        elim (Bool-cases (ltb (length x + length y) (sub32 h.size 1))) [
          | inl few2 ↦
              let lt2 = ltb→lt _ _ few2 in
              let j = Joined-first (kept_of h.type) x y (length y) full (omega arith) in
              meet_ended _ _ (length y) (sub32 d2 5) [] (continued m1 (length y) y) c v1 v2
                (incomplete_short law deliver (length y) y m1 c refl v1.0 refl (omega arith) j.fits)
                (new_short law deliver d2 (x ++ y) m c h e vm (omega arith) ∙ rw (xy, j.same))
          | inr enough2 ↦
              let ge : sub32 h.size 1 ≤ length x + length y = ground arith in
              let more = sub32 h.size 1 - length x in
              let j = Joined-first (kept_of h.type) x y more full (omega arith) in
              let total : length x + more ≡ sub32 h.size 1 = omega arith in
              meet_again _ _ (length y) (sub32 d2 5) (drop more y)
                (record (continued m1 more y) { state = complete }) c v1 v2
                (incomplete_full law deliver (length y) y m1 c refl v1.0 refl (omega arith) j.fits)
                (new_full law deliver d2 (x ++ y) m c h e vm (omega arith)
                  ∙ rw (
                    drop-append_of_ge (sub32 h.size 1) x y (omega arith),
                    total,
                    rw total at (j.same),
                  ))
        ]

    pub cut_incomplete :
        m.state ≡ incomplete
        → IsValidBy incomplete m
        → d2 ≡ length (x ++ y)
        → wanted m (length x) ≤ length x
        → length x < m.length - m.received
        → IsFull (kept_of m.type) (continued m (length x) x).buffer
        → IsReady (at (length y) y (record (continued m (length x) x) { state = incomplete }) c)
        → outcome (
            receive w b deliver
              (at (length y) y (record (continued m (length x) x) { state = incomplete }) c))
          ≡ outcome (receive w b deliver (at d2 (x ++ y) m c))
    cut_incomplete e vm filled fits few full v1 =
        let m1 = record (continued m (length x) x) { state = incomplete } in
        let more = m.length - m.received in
        let xy : length (x ++ y) ≡ length x + length y = length-append x y in
        elim (Bool-cases (ltb (length x + length y) more)) [
          | inl few2 ↦
              let lt2 = ltb→lt _ _ few2 in
              let ass : m.received + (length x + length y) ≡ (m.received + length x) + length y =
                omega arith in
              let j =
                Joined-later (kept_of m.type) m.buffer x y (length y) fits full (omega arith) in
              meet_ended _ _ (length y) d2 []
                (record (continued m1 (length y) y) { state = incomplete }) c v1 v2
                (incomplete_short law deliver (length y) y m1 c refl v1.0 refl (omega arith) j.fits)
                (incomplete_short law deliver d2 (x ++ y) m c e vm filled (omega arith)
                    (rw xy j.fits_whole)
                  ∙ rw (xy, ass, j.same))
          | inr enough2 ↦
              let ge : more ≤ length x + length y = ground arith in
              let more2 = m.length - (m.received + length x) in
              let j = Joined-later (kept_of m.type) m.buffer x y more2 fits full (omega arith) in
              let total : length x + more2 ≡ more = omega arith in
              let rest : more - length x ≡ more2 = omega arith in
              let got : m.received + more ≡ (m.received + length x) + more2 = omega arith in
              meet_again _ _ (length y) d2 (drop more2 y)
                (record (continued m1 more2 y) { state = complete }) c v1 v2
                (incomplete_full law deliver (length y) y m1 c refl v1.0 refl (omega arith) j.fits)
                (incomplete_full law deliver d2 (x ++ y) m c e vm filled (omega arith)
                    (rw xy (rw total at (j.fits_whole)))
                  ∙ rw (drop-append_of_ge more x y (omega arith), rest, got, rw total at (j.same)))
        ]

    pub cut_complete :
        (c' : C)
        → m.state ≡ complete
        → deliver m.type m.buffer c ≡ done c'
        → ltb 0 (length x) ≡ false
        → IsReady (at (length y) y idle_message c')
        → outcome (receive w b deliver (at (length y) y idle_message c'))
          ≡ outcome (receive w b deliver (at d2 (x ++ y) m c))
    cut_complete c' e delivered last v1 =
        let xy : length (x ++ y) ≡ length y = ground (arith, length-append x y) in
        elim (Bool-cases (ltb 0 (length y))) [
          | inl more ↦
              let s =
                receive_again law deliver (at d2 (x ++ y) m c) (at d2 (x ++ y) idle_message c')
                  (complete_more law deliver d2 (x ++ y) m c e c' delivered (rw xy more)) v2 in
              let same : x ++ y ≡ y = ap (λ t. t ++ y) (nothing_left x last) in
              rw (s.0, same)
                (dated law deliver (suc (measure (at (length y) y idle_message c'))) (length y) d2 y
                  idle_message c' (omega arith) v1 v1)
          | inr none_more ↦
              let same : x ++ y ≡ [] = nothing_left (x ++ y) (rw xy none_more) in
              let empty : y ≡ [] = nothing_left y none_more in
              meet_ended _ _ (length y) d2 [] idle_message c' v1 v2
                (init_short law deliver (length y) y idle_message c' refl (ground arith) ∙ rw empty)
                (complete_last law deliver d2 (x ++ y) m c e c' delivered (rw xy none_more)
                  ∙ rw same)
        ]
