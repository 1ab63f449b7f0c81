-- ===== src/Sftp/Message/Append.antt =====
-- `susshi_inspect_sftp_packet` (src/susshid/inspect-sftp.c) does not depend on how the packets cut
-- the stream of messages.
use susshi.Prelude.{
  ℕ, zero, suc, ◌+◌, ◌-◌, ◌≤◌, ◌<◌, ◌≡◌, refl, sym, ◌∙◌, inl, inr, true, [], ◌++◌, length, take,
  drop, ltb, arith, Bool-cases, length-append, ltb→lt, take-append_of_le, drop-append_of_le,
}
use mathlib.Core.Path.{subst}
use susshi.Result.{Result, Result-cases, done, stop, crash}
use susshi.Gateway.{Bytes, Wire}
use susshi.Sftp.Buffer.{Buffers, sub32, min, IsLawful}
use susshi.Sftp.Message.{
  MessageState, init, new, incomplete, complete, SftpMessage, idle_message, kept_of, first_copy,
  Receiving, again, ended, turn, receive,
}
use susshi.Sftp.Message.Turns.{IsValidBy, IsValid, at, min_left, min_right, first_copy_le}
use susshi.Sftp.Message.Cases.{begun, continued, wanted}
use susshi.Sftp.Message.Progress.{IsReady, IsFilledBy, measure}
use susshi.Sftp.Message.Cases.{
  Header-of, init_short, init_full, new_short, new_full, incomplete_short, incomplete_full,
  incomplete_past, complete_stops, complete_more, complete_last,
}
use susshi.Sftp.Message.Loop.{receive_again, receive-ended, receive_stops}
use susshi.Sftp.Message.Joined.{IsSettled}
use susshi.Sftp.Message.Cuts.{cut_init, cut_new, cut_incomplete, cut_complete}
use susshi.Sftp.Message.Dated.{outcome}

pub filled_own :
    {C : Type 0} (st : MessageState) (y : Bytes) (m : SftpMessage) (c : C)
    → IsFilledBy st (at (length y) y m c)
filled_own init y m c = tt
filled_own new y m c = tt
filled_own incomplete y m c = refl
filled_own complete y m c = tt

module _ {b : Buffers} {w : Wire} (law : IsLawful b w) {C : Type 0}
    (deliver : ℕ → Bytes → C → Result C) where
  -- The packets `x` and `y`, one after the other, do what the packet `x ++ y` does.
  abbrev Joins : ℕ → ℕ → Bytes → Bytes → SftpMessage → C → Receiving C → Type 0
  Joins d d2 x y m c r =
      receive w b deliver (at d x m c) ≡ done r
      → IsSettled r.msg
      → outcome (receive w b deliver (at (length y) y r.msg r.core))
        ≡ outcome (receive w b deliver (at d2 (x ++ y) m c))

  abbrev Below : ℕ → Type 0
  Below n =
      (d d2 : ℕ) (x y : Bytes) (m : SftpMessage) (c : C) (r : Receiving C)
      → measure (at d x m c) < n
      → IsReady (at d x m c)
      → IsReady (at d2 (x ++ y) m c)
      → Joins d d2 x y m c r

  module _ (n d d2 : ℕ) (x y : Bytes) (m : SftpMessage) (c : C) (r : Receiving C) (below : Below n)
      (lt : measure (at d x m c) < suc n) (v : IsReady (at d x m c))
      (v2 : IsReady (at d2 (x ++ y) m c)) where
    go_on :
        (e e2 : ℕ) (z : Bytes) (k : SftpMessage) (c' : C)
        → turn w b deliver (at d x m c) ≡ done (again (at e z k c'))
        → turn w b deliver (at d2 (x ++ y) m c) ≡ done (again (at e2 (z ++ y) k c'))
        → Joins d d2 x y m c r
    go_on e e2 z k c' p q ran settled =
        let s = receive_again law deliver (at d x m c) (at e z k c') p v in
        let s2 = receive_again law deliver (at d2 (x ++ y) m c) (at e2 (z ++ y) k c') q v2 in
        rw s2.0 (below e e2 z y k c' r (omega (arith, s.2, lt)) s.1 s2.1 (sym s.0 ∙ ran) settled)

    -- The first packet ended in `t`.
    cut :
        (t : Receiving C)
        → turn w b deliver (at d x m c) ≡ done (ended t)
        → (IsReady (at (length y) y t.msg t.core)
            → IsSettled t.msg
            → outcome (receive w b deliver (at (length y) y t.msg t.core))
              ≡ outcome (receive w b deliver (at d2 (x ++ y) m c)))
        → Joins d d2 x y m c r
    cut t p k ran settled =
        let s = receive-ended law deliver (at d x m c) t p v in
        let same : t ≡ r = cc (s.0, ran) in
        subst
          (λ (t : Receiving C).
            outcome (receive w b deliver (at (length y) y t.msg t.core))
            ≡ outcome (receive w b deliver (at d2 (x ++ y) m c)))
          same
          (k (s.1, filled_own t.msg.state y t.msg t.core)
            (subst (λ (t : Receiving C). IsSettled t.msg) (sym same) settled))

    crashes : turn w b deliver (at d x m c) ≡ stop crash → Joins d d2 x y m c r
    crashes p ran settled = cc (receive_stops law deliver (at d x m c) crash p v, ran)

    join_init : m.state ≡ init → IsValidBy init m → Joins d d2 x y m c r
    join_init e vm = elim (Bool-cases (ltb (length m.header + length x) 5)) [
      | inl few ↦
          cut (at d [] (record m { header = m.header ++ x }) c)
            (init_short law deliver d x m c e (ltb→lt _ _ few))
            λ v1 s1. cut_init law deliver d2 x y m c v2 e vm (ltb→lt _ _ few) v1
      | inr enough ↦
          let ge : 5 ≤ length m.header + length x = ground arith in
          let le : 5 - length m.header ≤ length x = omega arith in
          go_on d d2 (drop (5 - length m.header) x)
            (record m { header = m.header ++ take (5 - length m.header) x; state = new }) c
            (init_full law deliver d x m c e vm.0 ge)
            (init_full law deliver d2 (x ++ y) m c e vm.0 (omega (arith, length-append x y))
              ∙ rw (drop-append_of_le _ x y le, take-append_of_le _ x y le))
    ]

    join_new : m.state ≡ new → IsValidBy new m → Joins d d2 x y m c r
    join_new e vm =
        let h = Header-of law m.header vm.0 in
        elim (Bool-cases (ltb (length x) (sub32 h.size 1))) [
          | inl few ↦
              cut (at (sub32 d 5) [] (begun h m incomplete (length x) x) c)
                (new_short law deliver d x m c h e vm (ltb→lt _ _ few))
                λ v1 s1. cut_new law deliver d2 x y m c v2 h e vm (ltb→lt _ _ few) s1 v1
          | inr enough ↦
              let ge : sub32 h.size 1 ≤ length x = ground arith in
              let le : first_copy (kept_of h.type) (sub32 h.size 1) ≤ length x =
                first_copy_le (kept_of h.type) (sub32 h.size 1) x ge in
              go_on (sub32 d 5) (sub32 d2 5) (drop (sub32 h.size 1) x)
                (begun h m complete (sub32 h.size 1) x) c (new_full law deliver d x m c h e vm ge)
                (new_full law deliver d2 (x ++ y) m c h e vm (omega (arith, length-append x y))
                  ∙ rw (drop-append_of_le _ x y ge, take-append_of_le _ x y le))
        ]

    join_incomplete :
        m.state ≡ incomplete
        → IsValidBy incomplete m
        → d ≡ length x
        → d2 ≡ length (x ++ y)
        → Joins d d2 x y m c r
    join_incomplete e vm filled filled2 =
        let more = m.length - m.received in
        elim (Bool-cases (ltb (length x) more)) [
          | inl few ↦
              let lt = ltb→lt _ _ few in
              let all : min more d ≡ length x = min_right more d (omega arith) ∙ filled in
              elim (Bool-cases (ltb (length x) (wanted m (length x)))) [
                | inl past ↦
                    crashes
                      (incomplete_past law deliver d x m c e vm filled (rw all (ltb→lt _ _ past)))
                | inr fits ↦
                    let le : wanted m (length x) ≤ length x = ground arith in
                    cut (at d [] (record (continued m (length x) x) { state = incomplete }) c)
                      (incomplete_short law deliver d x m c e vm filled lt le)
                      λ v1 s1. cut_incomplete law deliver d2 x y m c v2 e vm filled2 le lt s1 v1
              ]
          | inr enough ↦
              let ge : more ≤ length x = ground arith in
              let all : min more d ≡ more = min_left more d (omega arith) in
              elim (Bool-cases (ltb (length x) (wanted m more))) [
                | inl past ↦
                    crashes
                      (incomplete_past law deliver d x m c e vm filled (rw all (ltb→lt _ _ past)))
                | inr fits ↦
                    let le : wanted m more ≤ length x = ground arith in
                    go_on d d2 (drop more x) (record (continued m more x) { state = complete }) c
                      (incomplete_full law deliver d x m c e vm filled ge le)
                      (incomplete_full law deliver d2 (x ++ y) m c e vm filled2
                          (omega (arith, length-append x y)) (omega (arith, length-append x y))
                        ∙ rw (drop-append_of_le _ x y ge, take-append_of_le _ x y le))
              ]
        ]

    join_complete : m.state ≡ complete → Joins d d2 x y m c r
    join_complete e = elim (Result-cases (deliver m.type m.buffer c)) [
      | inl (why, stopped) ↦ λ ran s. cc (
        receive_stops law deliver (at d x m c) why
            (complete_stops law deliver d x m c e why stopped) v,
        ran,
      )
      | inr (c', delivered) ↦ elim (Bool-cases (ltb 0 (length x))) [
        | inl more ↦
            let all : ltb 0 (length (x ++ y)) ≡ true = ground (arith, length-append x y) in
            go_on d d2 x idle_message c' (complete_more law deliver d x m c e c' delivered more)
              (complete_more law deliver d2 (x ++ y) m c e c' delivered all)
        | inr last ↦
            cut (at d x idle_message c') (complete_last law deliver d x m c e c' delivered last)
              λ v1 s1. cut_complete law deliver d2 x y m c v2 c' e delivered last v1
      ]
    ]

    join_by :
        (st : MessageState)
        → m.state ≡ st
        → IsValidBy st m
        → IsFilledBy st (at d x m c)
        → IsFilledBy st (at d2 (x ++ y) m c)
        → Joins d d2 x y m c r
    join_by init e vm f f2 = join_init e vm
    join_by new e vm f f2 = join_new e vm
    join_by incomplete e vm f f2 = join_incomplete e vm f f2
    join_by complete e vm f f2 = join_complete e

  joins : (n : ℕ) → Below n
  joins zero d d2 x y m c r lt v v2 = absurd (omega arith)
  joins (suc n) d d2 x y m c r lt v v2 =
      join_by n d d2 x y m c r (joins n) lt v v2 m.state refl v.0 v.1 v2.1

  -- Data that comes in two packets is received as in one packet of both: the same messages are
  -- inspected in the same order, the same message stays under way, and what stops the inspection
  -- of the second packet stops that of the one packet. The state before the first packet is valid,
  -- each packet is filled by its data, and the first packet is handled to its end and does not end
  -- within the bytes that are kept of a message of which not all is kept.
  pub receive-append :
      (x y : Bytes) (m : SftpMessage) (c : C) (r : Receiving C)
      → IsValid m
      → receive w b deliver (at (length x) x m c) ≡ done r
      → IsSettled r.msg
      → outcome (receive w b deliver (at (length y) y r.msg r.core))
        ≡ outcome (receive w b deliver (at (length (x ++ y)) (x ++ y) m c))
  receive-append x y m c r v ran settled =
      joins (suc (measure (at (length x) x m c))) (length x) (length (x ++ y)) x y m c r
        (omega arith) (v, filled_own m.state x m c) (v, filled_own m.state (x ++ y) m c) ran settled
