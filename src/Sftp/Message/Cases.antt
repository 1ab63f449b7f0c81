-- ===== src/Sftp/Message/Cases.antt =====
-- What each turn of `susshi_inspect_sftp_packet` (src/susshid/inspect-sftp.c) makes of a valid
-- message, by whether the packet has the rest of the part that is being read.
use susshi.Prelude.{
  ℕ, ◌+◌, ◌-◌, ◌≤◌, ◌<◌, ◌≡◌, ◌∙◌, true, false, some, [], ◌∷◌, ◌++◌, length, take, drop, ltb, ◌==◌,
  arith, ap, length-append, length-take, ==_refl, take_all, drop_all,
}
use susshi.Result.{Result, Stop, done, stop, crash}
use susshi.Gateway.{Bytes, Wire}
use susshi.Sftp.Buffer.{Buffers, add32, sub32, min, network32, IsLawful}
use susshi.Sftp.Message.{
  MessageState, init, new, incomplete, complete, SftpMessage, idle_message, kept_of, first_copy,
  later_copy, again, ended, turn_by, Receiving, turn,
}
use susshi.Sftp.Message.Turns.{
  IsValidBy, at, min_left, min_right, sub32-five, turn_init_lem, turn_new_lem, turn_incomplete_lem,
  turn_incomplete_past, turn_complete_lem,
}

-- A header of five bytes has a length and a type.
pub record Header (w : Wire) (h : Bytes) : Type 0 where
  pub size : ℕ
  pub type : ℕ
  pub rest : Bytes
  pub rest' : Bytes
  pub reads_size : w.get_u32 h ≡ some (size, rest)
  pub reads_type : w.get_u8 rest ≡ some (type, rest')

-- The message that begins with a header, after the first `k` bytes of its data.
abbrev pub begun :
    {w : Wire} {x : Bytes} → Header w x → SftpMessage → MessageState → ℕ → Bytes → SftpMessage
begun h m st k x = record m {
  state = st;
  header = h.rest';
  type = h.type;
  length = sub32 h.size 1;
  received = k;
  buffer = take (first_copy (kept_of h.type) k) x;
}

-- How many bytes a later packet that has `k` bytes of the message copies.
abbrev pub wanted : SftpMessage → ℕ → ℕ
wanted m k = later_copy (kept_of m.type) k (length m.buffer)

-- The message after `k` more bytes of its data.
abbrev pub continued : SftpMessage → ℕ → Bytes → SftpMessage
continued m k x = record m { received = m.received + k; buffer = m.buffer ++ take (wanted m k) x }

module _ {b : Buffers} {w : Wire} (law : IsLawful b w) where
  pub Header-of : (h : Bytes) → length h ≡ 5 → Header w h
  Header-of (p ∷ q ∷ r ∷ s ∷ t ∷ []) e = record {
    size = network32 p q r s;
    type = t;
    rest = t ∷ [];
    rest' = [];
    reads_size = law.get_u32_lem p q r s (t ∷ []);
    reads_type = law.get_u8_lem t [];
  }
  Header-of [] e = absurd (omega arith)
  Header-of (p ∷ []) e = absurd (omega arith)
  Header-of (p ∷ q ∷ []) e = absurd (omega arith)
  Header-of (p ∷ q ∷ r ∷ []) e = absurd (omega arith)
  Header-of (p ∷ q ∷ r ∷ s ∷ []) e = absurd (omega arith)
  Header-of (p ∷ q ∷ r ∷ s ∷ t ∷ u ∷ h) e = absurd (omega arith)

  module _ {C : Type 0} (deliver : ℕ → Bytes → C → Result C) where
    turn_is :
        (s : Receiving C) (st : MessageState)
        → s.msg.state ≡ st
        → turn w b deliver s ≡ turn_by w b deliver st s
    unfolding turn
    turn_is s st e = ap (λ (st : MessageState). turn_by w b deliver st s) e

    module _ (d : ℕ) (x : Bytes) (m : SftpMessage) (c : C) where
      pub init_short :
          m.state ≡ init
          → length m.header + length x < 5
          → turn w b deliver (at d x m c)
            ≡ done (ended (at d [] (record m { header = m.header ++ x }) c))
      init_short e few =
          let k : min (length x) (sub32 5 (length m.header)) ≡ length x =
            min_left (length x) _ (omega arith) in
          let n : (length (m.header ++ x) == 5) ≡ false =
            ground (arith, length-append m.header x) in
          turn_is (at d x m c) init e
          ∙ turn_init_lem law deliver d x m c (length x) k (omega arith)
          ∙ rw (take_all (length x) x (omega arith), drop_all (length x) x (omega arith), n)

      pub init_full :
          m.state ≡ init
          → length m.header < 5
          → 5 ≤ length m.header + length x
          → turn w b deliver (at d x m c)
            ≡ done (
                again (
                  at d
                    (drop (5 - length m.header) x)
                    (record m { header = m.header ++ take (5 - length m.header) x; state = new })
                    c))
      init_full e lt enough =
          let k : min (length x) (sub32 5 (length m.header)) ≡ 5 - length m.header =
            min_right (length x) _ (omega arith) ∙ sub32-five (length m.header) lt in
          let n : (length (m.header ++ take (5 - length m.header) x) == 5) ≡ true = ground (
            arith,
            length-append m.header (take (5 - length m.header) x),
            length-take (5 - length m.header) x,
          ) in
          turn_is (at d x m c) init e
          ∙ turn_init_lem law deliver d x m c (5 - length m.header) k (omega arith)
          ∙ rw n

      pub new_short :
          (h : Header w m.header)
          → m.state ≡ new
          → IsValidBy new m
          → length x < sub32 h.size 1
          → turn w b deliver (at d x m c)
            ≡ done (ended (at (sub32 d 5) [] (begun h m incomplete (length x) x) c))
      new_short h e v few =
          let k : min (length x) (sub32 h.size 1) ≡ length x =
            min_left (length x) _ (omega arith) in
          let r : add32 m.received (length x) ≡ length x = omega (arith, v.1) in
          let n : (sub32 h.size 1 == length x) ≡ false = ground arith in
          turn_is (at d x m c) new e
          ∙ turn_new_lem law deliver d x m c h.size h.type (length x) h.rest h.rest' h.reads_size
              h.reads_type k (omega arith)
          ∙ rw (r, n, v.2, drop_all (length x) x (omega arith))

      pub new_full :
          (h : Header w m.header)
          → m.state ≡ new
          → IsValidBy new m
          → sub32 h.size 1 ≤ length x
          → turn w b deliver (at d x m c)
            ≡ done (
                again (
                  at
                    (sub32 d 5)
                    (drop (sub32 h.size 1) x)
                    (begun h m complete (sub32 h.size 1) x)
                    c))
      new_full h e v enough =
          let k : min (length x) (sub32 h.size 1) ≡ sub32 h.size 1 =
            min_right (length x) _ (omega arith) in
          let r : add32 m.received (sub32 h.size 1) ≡ sub32 h.size 1 = omega (arith, v.1) in
          let n : (sub32 h.size 1 == sub32 h.size 1) ≡ true = ==_refl (sub32 h.size 1) in
          turn_is (at d x m c) new e
          ∙ turn_new_lem law deliver d x m c h.size h.type (sub32 h.size 1) h.rest h.rest'
              h.reads_size h.reads_type k enough
          ∙ rw (r, n, v.2)

      module _ (e : m.state ≡ incomplete) (v : IsValidBy incomplete m) (filled : d ≡ length x) where
        pub incomplete_short :
            length x < m.length - m.received
            → wanted m (length x) ≤ length x
            → turn w b deliver (at d x m c)
              ≡ done (ended (at d [] (record (continued m (length x) x) { state = incomplete }) c))
        incomplete_short few fits =
            let k : min (m.length - m.received) d ≡ length x =
              min_right _ d (omega arith) ∙ filled in
            let n : (m.received + length x == m.length) ≡ false = ground arith in
            turn_is (at d x m c) incomplete e
            ∙ turn_incomplete_lem law deliver d x m c (length x) v.0 v.1 k (omega arith) fits
            ∙ rw (n, drop_all (length x) x (omega arith), e)

        pub incomplete_full :
            m.length - m.received ≤ length x
            → wanted m (m.length - m.received) ≤ length x
            → turn w b deliver (at d x m c)
              ≡ done (
                  again (
                    at d
                      (drop (m.length - m.received) x)
                      (record (continued m (m.length - m.received) x) { state = complete })
                      c))
        incomplete_full enough fits =
            let k : min (m.length - m.received) d ≡ m.length - m.received =
              min_left _ d (omega arith) in
            let n : (m.received + (m.length - m.received) == m.length) ≡ true =
              ground (arith, v.0) in
            turn_is (at d x m c) incomplete e
            ∙ turn_incomplete_lem law deliver d x m c (m.length - m.received) v.0 v.1 k enough fits
            ∙ rw n

        pub incomplete_past :
            length x < wanted m (min (m.length - m.received) d)
            → turn w b deliver (at d x m c) ≡ stop crash
        incomplete_past past =
            turn_is (at d x m c) incomplete e
            ∙ turn_incomplete_past law deliver d x m c v.0 v.1 past

      module _ (e : m.state ≡ complete) where
        pub complete_stops :
            (why : Stop)
            → deliver m.type m.buffer c ≡ stop why
            → turn w b deliver (at d x m c) ≡ stop why
        complete_stops why stopped =
            turn_is (at d x m c) complete e ∙ turn_complete_lem law deliver d x m c ∙ rw stopped

        pub complete_more :
            (c' : C)
            → deliver m.type m.buffer c ≡ done c'
            → ltb 0 (length x) ≡ true
            → turn w b deliver (at d x m c) ≡ done (again (at d x idle_message c'))
        complete_more c' delivered more =
            turn_is (at d x m c) complete e
            ∙ turn_complete_lem law deliver d x m c
            ∙ rw (delivered, more)

        pub complete_last :
            (c' : C)
            → deliver m.type m.buffer c ≡ done c'
            → ltb 0 (length x) ≡ false
            → turn w b deliver (at d x m c) ≡ done (ended (at d x idle_message c'))
        complete_last c' delivered last =
            turn_is (at d x m c) complete e
            ∙ turn_complete_lem law deliver d x m c
            ∙ rw (delivered, last)
