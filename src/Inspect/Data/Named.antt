-- ===== src/Inspect/Data/Named.antt =====
-- Which channel a CLOSE message is about: the lookups of `susshi_inspect_channel_close` in
-- src/susshid/inspect-channel.c.
use susshi.Prelude.{ℕ, ◌≡◌, ◌⊎◌, inl, inr, sym, ◌∙◌, ap, Option, none, some, get_elem?}
use mathlib.Core.Path.{subst}
use susshi.Session.{Side, the_other_side, no_channel, Channel, Session}
use susshi.Gateway.{Gateway}
use susshi.Channels.Find.{Addresses, IsFirst, find_channel_exact}
use susshi.Inspect.Data.{by_opener_first}

-- No channel is addressed by the arguments.
abbrev pub Nobody : Side → ℕ → ℕ → Session → Type 0
Nobody side a b s =
    (j : ℕ) (d : Channel) → get_elem? s.channels j ≡ some (some d) → ¬ Addresses side a b d

-- The packet's number names the channel of slot `i`: it is the first channel that the other side
-- opened with this number, or there is none and it is the first one that the sender opened and for
-- which its peer gave this number.
abbrev pub IsNamed : Side → ℕ → Session → ℕ → Channel → Type 0
IsNamed sender ch s i c =
    IsFirst (the_other_side sender) ch no_channel s i c
    ⊎ (Nobody (the_other_side sender) ch no_channel s × IsFirst sender no_channel ch s i c)

module _ (g : Gateway) (sender : Side) (ch : ℕ) (s : Session) where
  pub by_opener_first-IsNamed :
      (i : ℕ) (c : Channel)
      → by_opener_first g sender ch s ≡ some i
      → get_elem? s.channels i ≡ some (some c)
      → IsNamed sender ch s i c
  by_opener_first-IsNamed i c h used =
      elim (find_channel_exact (the_other_side sender) ch no_channel s) [
        | inl (k, d, e, first) ↦ inl (named first (same_slot k (rw e at h)))
        | inr (e, nobody) ↦ elim (find_channel_exact sender no_channel ch s) [
          | inl (k, d, e1, first) ↦ inr (nobody, named first (same_slot k (rw (e, e1) at h)))
          | inr (e1, n) ↦ absurd (nothing (rw (e, e1) at h))
        ]
      ]
    where
      named :
          {side : Side} {a b k : ℕ} {d : Channel}
          → IsFirst side a b s k d
          → k ≡ i
          → IsFirst side a b s i c
      named {side} {a} {b} {k} {d} f e =
          let there : some (some d) ≡ some (some c) =
            sym f.is_used ∙ ap (λ n. get_elem? s.channels n) e ∙ used in
          let same : d ≡ c = cc in
          record {
            is_used = used;
            addressed = subst (λ q. Addresses side a b q) same f.addressed;
            earlier = λ j q lt. f.earlier j q (rw e lt);
          }

      same_slot : (k : ℕ) → some k ≡ some i → k ≡ i
      same_slot k e = cc

      nothing : ◌≡◌ {A = Option ℕ} none (some i) → ⊥
      nothing e = cc

  pub by_opener_first-Nobody :
      by_opener_first g sender ch s ≡ none
      → Nobody (the_other_side sender) ch no_channel s × Nobody sender no_channel ch s
  by_opener_first-Nobody h = elim (find_channel_exact (the_other_side sender) ch no_channel s) [
    | inl (k, d, e, first) ↦ absurd (found k (rw e at h))
    | inr (e, nobody) ↦ elim (find_channel_exact sender no_channel ch s) [
      | inl (k, d, e1, first) ↦ absurd (found k (rw (e, e1) at h))
      | inr (e1, n) ↦ (nobody, n)
    ]
  ]
    where
      found : (k : ℕ) → ◌≡◌ {A = Option ℕ} (some k) none → ⊥
      found k e = cc
