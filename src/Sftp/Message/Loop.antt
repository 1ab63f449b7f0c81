-- ===== src/Sftp/Message/Loop.antt =====
-- The loop of `susshi_inspect_sftp_packet` (src/susshid/inspect-sftp.c) ends, and is its first turn
-- followed by the loop.
use susshi.Prelude.{
  ℕ, zero, suc, ◌<◌, ◌≡◌, refl, sym, ◌∙◌, inl, inr, true, some, [], ltb, arith, ap, Bool-cases,
  ltb→lt,
}
use mathlib.Core.Path.{subst}
use susshi.Result.{Result, done, stop, Stop}
use susshi.Gateway.{Bytes, Wire}
use susshi.Sftp.Buffer.{Buffers, IsLawful}
use susshi.Sftp.Message.{
  MessageState, init, new, incomplete, complete, Receiving, Turn, again, ended, turn, turns, follow,
  fuel_for, returned, receive,
}
use susshi.Sftp.Message.Turns.{IsValid}
use susshi.Sftp.Message.Progress.{IsReady, rank, measure, stops, ends, goes, progress}

rank_small : (st : MessageState) → ltb (rank st) 3 ≡ true
rank_small init = refl
rank_small new = refl
rank_small incomplete = refl
rank_small complete = refl

enough : {C : Type 0} (s : Receiving C) → measure s < fuel_for s
enough s = elim (Bool-cases (ltb (rank s.msg.state) 3)) [
  | inl lt ↦ omega (arith, ltb→lt _ _ lt)
  | inr ge ↦ cc (rank_small s.msg.state, ge)
]

module _ {b : Buffers} {w : Wire} (law : IsLawful b w) {C : Type 0}
    (deliver : ℕ → Bytes → C → Result C) where
  -- More fuel than the measure is enough, and more does not matter.
  turns_enough :
      (f g : ℕ) (s : Receiving C)
      → IsReady s
      → measure s < f
      → measure s < g
      → (r : Result (Receiving C)) × (turns w b deliver f s ≡ some r)
        × (turns w b deliver g s ≡ some r)
  unfolding turns
  turns_enough zero g s v lf lg = absurd (omega arith)
  turns_enough (suc f) zero s v lf lg = absurd (omega arith)
  turns_enough (suc f) (suc g) s v lf lg = elim (progress law deliver s v) [
    | stops e p ↦ (stop e, rw p, rw p)
    | ends t p vt l ↦ (done t, rw p, rw p)
    | goes t p vt lt ↦
        let r = turns_enough f g t vt (omega arith) (omega arith) in (r.0, rw p r.1, rw p r.2)
  ]

  -- With a valid message under way and, in the middle of a message, the number of the packet's bytes
  -- in `datalen`, the loop over the states ends: the fuel of four turns for each byte and four more
  -- gives a result, which is the one of the code. The buffers behave as documented.
  pub receive_total :
      (s : Receiving C)
      → IsReady s
      → (r : Result (Receiving C)) × (turns w b deliver (fuel_for s) s ≡ some r)
        × (receive w b deliver s ≡ r)
  unfolding receive
  receive_total s v =
      let r = turns_enough (fuel_for s) (fuel_for s) s v (enough s) (enough s) in
      (r.0, r.1, ap returned r.1)

  turns-receive :
      (f : ℕ) (s : Receiving C)
      → IsReady s
      → measure s < f
      → turns w b deliver f s ≡ some (receive w b deliver s)
  turns-receive f s v lt =
      let t = receive_total s v in
      let r = turns_enough f (fuel_for s) s v lt (enough s) in r.1 ∙ cc (r.2, t.1, t.2)

  step :
      (f : ℕ) (s : Receiving C) (r : Result (Turn C))
      → turn w b deliver s ≡ r
      → turns w b deliver (suc f) s ≡ follow (turns w b deliver f) r
  unfolding turns
  step f s r p = ap (follow (turns w b deliver f)) p

  -- What the loop does after a first turn of each kind.
  pub receive_again :
      (s t : Receiving C)
      → turn w b deliver s ≡ done (again t)
      → IsReady s
      → (receive w b deliver s ≡ receive w b deliver t) × IsReady t × (measure t < measure s)
  receive_again s t p v = elim (progress law deliver s v) [
    | stops e q ↦ cc
    | ends u q vu l ↦ cc
    | goes u q vu lt ↦
        let same : u ≡ t = cc in
        subst
          (λ (t : Receiving C).
            (receive w b deliver s ≡ receive w b deliver t) × IsReady t × (measure t < measure s))
          same
          (
            cc (
              turns-receive (suc (measure s)) s v (omega arith),
              turns-receive (measure s) u vu lt,
              step (measure s) s _ q,
            ),
            vu,
            lt,
          )
  ]

  pub receive-ended :
      (s t : Receiving C)
      → turn w b deliver s ≡ done (ended t)
      → IsReady s
      → (receive w b deliver s ≡ done t) × IsValid t.msg
  receive-ended s t p v = elim (progress law deliver s v) [
    | stops e q ↦ cc
    | goes u q vu lt ↦ cc
    | ends u q vu l ↦
        let same : u ≡ t = cc in
        subst (λ (t : Receiving C). (receive w b deliver s ≡ done t) × IsValid t.msg) same
          (cc (turns-receive (suc (measure s)) s v (omega arith), step (measure s) s _ q), vu)
  ]

  pub receive_stops :
      (s : Receiving C) (e : Stop)
      → turn w b deliver s ≡ stop e
      → IsReady s
      → receive w b deliver s ≡ stop e
  receive_stops s e p v =
      cc (turns-receive (suc (measure s)) s v (omega arith), step (measure s) s _ p)

  -- From a valid message, a packet that is received to its end leaves a valid message, and nothing
  -- of the packet.
  pub receive-IsValid :
      (s r : Receiving C)
      → IsReady s
      → receive w b deliver s ≡ done r
      → IsValid r.msg × (r.left ≡ [])
  receive-IsValid s r v e = below (suc (measure s)) s v (omega arith) e
    where
      below :
          (n : ℕ) (s : Receiving C)
          → IsReady s
          → measure s < n
          → receive w b deliver s ≡ done r
          → IsValid r.msg × (r.left ≡ [])
      below zero s v lt e = absurd (omega arith)
      below (suc n) s v lt e = elim (progress law deliver s v) [
        | stops why q ↦ cc (receive_stops s why q v, e)
        | ends t q vt l ↦
            let same : t ≡ r = cc ((receive-ended s t q v).0, e) in
            subst (λ (t : Receiving C). IsValid t.msg × (t.left ≡ [])) same (vt, l)
        | goes t q vt less ↦ below n t vt (omega arith) (sym (receive_again s t q v).0 ∙ e)
      ]
