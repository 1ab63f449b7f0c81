-- ===== src/Sftp/Message/Dated.antt =====
-- The announced length of the data counts for `susshi_inspect_sftp_packet`
-- (src/susshid/inspect-sftp.c) only where it goes on with a message.
use susshi.Prelude.{
  ℕ, zero, suc, ◌+◌, ◌≤◌, ◌<◌, ◌≡◌, refl, sym, ◌∙◌, ap, inl, inr, length, ltb, arith, Bool-cases,
  ltb→lt,
}
use susshi.Result.{Result, Result-cases, done, stop}
use susshi.Gateway.{Bytes, Wire}
use susshi.Sftp.Buffer.{Buffers, sub32, IsLawful}
use susshi.Sftp.Message.{
  MessageState, init, new, incomplete, complete, SftpMessage, Receiving, again, ended, turn,
  receive,
}
use susshi.Sftp.Message.Turns.{IsValidBy, at}
use susshi.Sftp.Message.Progress.{IsReady, IsFilledBy, measure}
use susshi.Sftp.Message.Cases.{
  Header-of, init_short, init_full, new_short, new_full, complete_stops, complete_more,
  complete_last,
}
use susshi.Sftp.Message.Loop.{receive_again, receive-ended, receive_stops}

-- What the caller sees of the end of the function.
abbrev pub outcome : {C : Type 0} → Result (Receiving C) → Result (SftpMessage × C)
outcome (done s) = done (s.msg, s.core)
outcome (stop e) = stop e

module _ {b : Buffers} {w : Wire} (law : IsLawful b w) {C : Type 0}
    (deliver : ℕ → Bytes → C → Result C) where
  abbrev Below : ℕ → Type 0
  Below n =
      (d d' : ℕ) (x : Bytes) (m : SftpMessage) (c : C)
      → measure (at d x m c) < n
      → IsReady (at d x m c)
      → IsReady (at d' x m c)
      → outcome (receive w b deliver (at d x m c)) ≡ outcome (receive w b deliver (at d' x m c))

  module _ (n d d' : ℕ) (x : Bytes) (m : SftpMessage) (c : C) (below : Below n)
      (lt : measure (at d x m c) < suc n) (v : IsReady (at d x m c))
      (v' : IsReady (at d' x m c)) where
    both_again :
        (e e' : ℕ) (y : Bytes) (k : SftpMessage) (c' : C)
        → turn w b deliver (at d x m c) ≡ done (again (at e y k c'))
        → turn w b deliver (at d' x m c) ≡ done (again (at e' y k c'))
        → outcome (receive w b deliver (at d x m c)) ≡ outcome (receive w b deliver (at d' x m c))
    both_again e e' y k c' p q =
        let r = receive_again law deliver (at d x m c) (at e y k c') p v in
        let r' = receive_again law deliver (at d' x m c) (at e' y k c') q v' in
        rw (r.0, r'.0) (below e e' y k c' (omega (arith, r.2, lt)) r.1 r'.1)

    both_ended :
        (e e' : ℕ) (y : Bytes) (k : SftpMessage) (c' : C)
        → turn w b deliver (at d x m c) ≡ done (ended (at e y k c'))
        → turn w b deliver (at d' x m c) ≡ done (ended (at e' y k c'))
        → outcome (receive w b deliver (at d x m c)) ≡ outcome (receive w b deliver (at d' x m c))
    both_ended e e' y k c' p q =
        let r = receive-ended law deliver (at d x m c) (at e y k c') p v in
        let r' = receive-ended law deliver (at d' x m c) (at e' y k c') q v' in rw (r.0, r'.0)

    dated_by :
        (st : MessageState)
        → m.state ≡ st
        → IsValidBy st m
        → IsFilledBy st (at d x m c)
        → IsFilledBy st (at d' x m c)
        → outcome (receive w b deliver (at d x m c)) ≡ outcome (receive w b deliver (at d' x m c))
    dated_by init e vm f f' = elim (Bool-cases (ltb (length m.header + length x) 5)) [
      | inl few ↦
          let lt = ltb→lt _ _ few in
          both_ended _ _ _ _ _ (init_short law deliver d x m c e lt)
            (init_short law deliver d' x m c e lt)
      | inr enough ↦
          let ge : 5 ≤ length m.header + length x = ground arith in
          both_again _ _ _ _ _ (init_full law deliver d x m c e vm.0 ge)
            (init_full law deliver d' x m c e vm.0 ge)
    ]
    dated_by new e vm f f' =
        let h = Header-of law m.header vm.0 in
        elim (Bool-cases (ltb (length x) (sub32 h.size 1))) [
          | inl few ↦
              let lt = ltb→lt _ _ few in
              both_ended _ _ _ _ _ (new_short law deliver d x m c h e vm lt)
                (new_short law deliver d' x m c h e vm lt)
          | inr enough ↦
              let ge : sub32 h.size 1 ≤ length x = ground arith in
              both_again _ _ _ _ _ (new_full law deliver d x m c h e vm ge)
                (new_full law deliver d' x m c h e vm ge)
        ]
    dated_by incomplete e vm f f' =
        ap (λ (d : ℕ). outcome (receive w b deliver (at d x m c))) (f ∙ sym f')
    dated_by complete e vm f f' = elim (Result-cases (deliver m.type m.buffer c)) [
      | inl (why, stopped) ↦ rw (
        receive_stops law deliver (at d x m c) why
            (complete_stops law deliver d x m c e why stopped) v,
        receive_stops law deliver (at d' x m c) why
            (complete_stops law deliver d' x m c e why stopped) v',
      )
      | inr (c', delivered) ↦ elim (Bool-cases (ltb 0 (length x))) [
        | inl more ↦
            both_again _ _ _ _ _ (complete_more law deliver d x m c e c' delivered more)
              (complete_more law deliver d' x m c e c' delivered more)
        | inr last ↦
            both_ended _ _ _ _ _ (complete_last law deliver d x m c e c' delivered last)
              (complete_last law deliver d' x m c e c' delivered last)
      ]
    ]

  pub dated : (n : ℕ) → Below n
  dated zero d d' x m c lt v v' = absurd (omega arith)
  dated (suc n) d d' x m c lt v v' =
      dated_by n d d' x m c (dated n) lt v v' m.state refl v.0 v.1 v'.1
