-- ===== src/Sftp/Message/Progress.antt =====
-- The loop of `susshi_inspect_sftp_packet` (src/susshid/inspect-sftp.c) ends, and keeps its
-- messages valid.
use susshi.Prelude.{
  ℕ, ◌+◌, ◌-◌, ◌*◌, ◌≤◌, ◌<◌, ◌≡◌, refl, sym, ◌∙◌, inl, inr, false, Option, none, some, [], ◌∷◌,
  ◌++◌, length, take, drop, ltb, arith, Bool-cases, length-append, length-take, length-drop, ltb→lt,
}
use mathlib.Core.Path.{subst}
use susshi.Result.{Result, Result-cases, done, stop, Stop, crash}
use susshi.Gateway.{Bytes, Wire}
use susshi.Sftp.Buffer.{Buffers, sub32, min, IsLawful}
use susshi.Sftp.Message.{
  MessageState, init, new, incomplete, complete, SftpMessage, idle_message, kept_of, first_copy,
  later_copy, Receiving, again, ended, turn,
}
use susshi.Sftp.Message.Turns.{IsWithin, IsValidBy, IsValid, at, min_left, min_right}
use susshi.Sftp.Message.Cases.{
  Header-of, begun, continued, wanted, init_short, init_full, new_short, new_full, incomplete_short,
  incomplete_full, incomplete_past, complete_stops, complete_more, complete_last,
}

-- A packet whose data fills it, as far as the state asks for the announced length.
abbrev pub IsFilledBy : {C : Type 0} → MessageState → Receiving C → Type 0
IsFilledBy incomplete s = s.datalen ≡ length s.left
IsFilledBy _ s = Unit {0}

abbrev pub IsReady : {C : Type 0} → Receiving C → Type 0
IsReady s = IsValid s.msg × IsFilledBy s.msg.state s

-- Falls with each turn.
abbrev pub rank : MessageState → ℕ
rank init = 0
rank complete = 1
rank new = 2
rank incomplete = 2

abbrev pub measure : {C : Type 0} → Receiving C → ℕ
measure s = 4 * length s.left + rank s.msg.state

first_copy-IsWithin :
    (kept : Option ℕ) (k : ℕ) (x : Bytes)
    → k ≤ length x
    → IsWithin kept (take (first_copy kept k) x)
unfolding min
first_copy-IsWithin none k x h = tt
first_copy-IsWithin (some n) k x h = ground (arith, length-take (min k n) x)

later_copy-IsWithin :
    (kept : Option ℕ) (k : ℕ) (y x : Bytes)
    → later_copy kept k (length y) ≤ length x
    → IsWithin kept y
    → IsWithin kept (y ++ take (later_copy kept k (length y)) x)
unfolding min
later_copy-IsWithin none k y x h v = tt
later_copy-IsWithin (some n) k y x h v =
    let k : min (sub32 n (length y)) n ≤ n - length y = ground arith in
    omega (
      arith,
      length-append y (take (min (sub32 n (length y)) n) x),
      length-take (min (sub32 n (length y)) n) x h,
    )

pub nothing_left : (x : Bytes) → ltb 0 (length x) ≡ false → x ≡ []
nothing_left [] h = refl
nothing_left (a ∷ x) h = absurd (ground arith)

module _ {b : Buffers} {w : Wire} (law : IsLawful b w) where
  module _ {C : Type 0} (deliver : ℕ → Bytes → C → Result C) where
    has_state : (m : SftpMessage) (st : MessageState) → m.state ≡ st → IsValidBy st m → IsValid m
    has_state m st e v = subst (λ (st : MessageState). IsValidBy st m) (sym e) v

    -- What a turn from a state that is ready does.
    pub data Progress (s : Receiving C) : Type 0 where
      stops : (e : Stop) → turn w b deliver s ≡ stop e → Progress s
      ends :
          (t : Receiving C)
          → turn w b deliver s ≡ done (ended t)
          → IsValid t.msg
          → t.left ≡ []
          → Progress s
      goes :
          (t : Receiving C)
          → turn w b deliver s ≡ done (again t)
          → IsReady t
          → measure t < measure s
          → Progress s

    module _ (d : ℕ) (x : Bytes) (m : SftpMessage) (c : C) where
      Progress-init : m.state ≡ init → IsValidBy init m → Progress (at d x m c)
      Progress-init e v = elim (Bool-cases (ltb (length m.header + length x) 5)) [
        | inl few ↦
            ends (at d [] (record m { header = m.header ++ x }) c)
              (init_short law deliver d x m c e (ltb→lt _ _ few))
              (has_state (record m { header = m.header ++ x }) init e
                (omega (arith, length-append m.header x, ltb→lt _ _ few), v.1, v.2))
              refl
        | inr enough ↦
            let le : 5 ≤ length m.header + length x = ground arith in
            goes
              (at d (drop (5 - length m.header) x)
                (record m { header = m.header ++ take (5 - length m.header) x; state = new }) c)
              (init_full law deliver d x m c e v.0 le)
              (
                (
                  omega (
                    arith,
                    length-append m.header (take (5 - length m.header) x),
                    length-take (5 - length m.header) x (omega arith),
                  ),
                  v.1,
                  v.2,
                ),
                tt,
              )
              (rw e (omega (arith, length-drop (5 - length m.header) x)))
      ]

      Progress-new : m.state ≡ new → IsValidBy new m → Progress (at d x m c)
      Progress-new e v =
          let h = Header-of law m.header v.0 in
          elim (Bool-cases (ltb (length x) (sub32 h.size 1))) [
            | inl few ↦
                ends (at (sub32 d 5) [] (begun h m incomplete (length x) x) c)
                  (new_short law deliver d x m c h e v (ltb→lt _ _ few))
                  (
                    ltb→lt _ _ few,
                    omega arith,
                    first_copy-IsWithin (kept_of h.type) (length x) x (omega arith),
                  )
                  refl
            | inr enough ↦
                let le : sub32 h.size 1 ≤ length x = ground arith in
                goes
                  (at (sub32 d 5) (drop (sub32 h.size 1) x) (begun h m complete (sub32 h.size 1) x)
                    c)
                  (new_full law deliver d x m c h e v le) (tt, tt)
                  (rw e (omega (arith, length-drop (sub32 h.size 1) x)))
          ]

      Progress-incomplete :
          m.state ≡ incomplete → IsValidBy incomplete m → d ≡ length x → Progress (at d x m c)
      Progress-incomplete e v filled =
          let more = m.length - m.received in
          elim (Bool-cases (ltb (length x) more)) [
            | inl few ↦
                let lt : length x < more = ltb→lt _ _ few in
                let all : min more d ≡ length x = min_right more d (omega arith) ∙ filled in
                elim (Bool-cases (ltb (length x) (wanted m (length x)))) [
                  | inl past ↦
                      stops crash
                        (incomplete_past law deliver d x m c e v filled (rw all (ltb→lt _ _ past)))
                  | inr fits ↦
                      let le : wanted m (length x) ≤ length x = ground arith in
                      ends (at d [] (record (continued m (length x) x) { state = incomplete }) c)
                        (incomplete_short law deliver d x m c e v filled lt le)
                        (
                          omega arith,
                          v.1,
                          later_copy-IsWithin (kept_of m.type) (length x) m.buffer x le v.2,
                        )
                        refl
                ]
            | inr enough ↦
                let ge : more ≤ length x = ground arith in
                let all : min more d ≡ more = min_left more d (omega arith) in
                elim (Bool-cases (ltb (length x) (wanted m more))) [
                  | inl past ↦
                      stops crash
                        (incomplete_past law deliver d x m c e v filled (rw all (ltb→lt _ _ past)))
                  | inr fits ↦
                      let le : wanted m more ≤ length x = ground arith in
                      goes (at d (drop more x) (record (continued m more x) { state = complete }) c)
                        (incomplete_full law deliver d x m c e v filled ge le) (tt, tt)
                        (rw e (omega (arith, length-drop more x)))
                ]
          ]

      Progress-complete : m.state ≡ complete → Progress (at d x m c)
      Progress-complete e = elim (Result-cases (deliver m.type m.buffer c)) [
        | inl (why, stopped) ↦ stops why (complete_stops law deliver d x m c e why stopped)
        | inr (c', delivered) ↦ elim (Bool-cases (ltb 0 (length x))) [
          | inl more ↦
              goes (at d x idle_message c') (complete_more law deliver d x m c e c' delivered more)
                ((omega arith, refl, refl), tt) (rw e (omega arith))
          | inr last ↦
              ends (at d x idle_message c') (complete_last law deliver d x m c e c' delivered last)
                (omega arith, refl, refl) (nothing_left x last)
        ]
      ]

    pub progress : (s : Receiving C) → IsReady s → Progress s
    progress s (v, filled) = by_state s.datalen s.left s.msg s.core s.msg.state refl v filled
      where
        by_state :
            (d : ℕ) (x : Bytes) (m : SftpMessage) (c : C) (st : MessageState)
            → m.state ≡ st
            → IsValidBy st m
            → IsFilledBy st (at d x m c)
            → Progress (at d x m c)
        by_state d x m c init e v f = Progress-init d x m c e v
        by_state d x m c new e v f = Progress-new d x m c e v
        by_state d x m c incomplete e v f = Progress-incomplete d x m c e v f
        by_state d x m c complete e v f = Progress-complete d x m c e
