-- ===== src/Channels/Slots.antt =====
-- Facts about the slots of the table of src/susshid/inspect-channel.c: lists with free entries.
use susshi.Prelude.{
  ℕ, zero, suc, ◌<◌, ◌≡◌, refl, true, false, Option, none, some, List, [], ◌∷◌, get_elem?, arith,
}
use susshi.Session.{Channel, Side}
use susshi.Channels.Table.{slot_matches, find_slot}

abbrev pub Slots : Type 0
Slots = List (Option Channel)

module _ (sender : Side) (sender_ch recipient_ch : ℕ) where
  -- Slot `i` is used by a channel that matches.
  pub record IsHit (l : Slots) (i : ℕ) (c : Channel) : Type 0 where
    pub is_used : get_elem? l i ≡ some (some c)
    pub matches : slot_matches sender sender_ch recipient_ch (some c) ≡ true

  pub find_slot-IsHit :
      (l : Slots) (i : ℕ)
      → find_slot sender sender_ch recipient_ch l ≡ some i
      → (c : Channel) × IsHit l i c
  unfolding find_slot
  find_slot-IsHit [] i h = cc
  find_slot-IsHit (none ∷ l) zero h = ground arith
  find_slot-IsHit (none ∷ l) (suc i) h =
      let r = find_slot-IsHit l i (ground arith) in
      (r.0, record { is_used = r.1.is_used; matches = r.1.matches })
  find_slot-IsHit (some c ∷ l) zero h = (c, record { is_used = refl; matches = ground arith })
  find_slot-IsHit (some c ∷ l) (suc i) h =
      let r = find_slot-IsHit l i (ground arith) in
      (r.0, record { is_used = r.1.is_used; matches = r.1.matches })

  -- No slot in front of the one that is found has a channel that matches.
  pub find_slot-first :
      (l : Slots) (i j : ℕ) (c : Channel)
      → find_slot sender sender_ch recipient_ch l ≡ some i
      → j < i
      → get_elem? l j ≡ some (some c)
      → slot_matches sender sender_ch recipient_ch (some c) ≡ false
  unfolding find_slot
  find_slot-first [] i j c h lt g = cc
  find_slot-first (o ∷ l) zero j c h lt g = absurd (omega arith)
  find_slot-first (o ∷ l) (suc i) zero c h lt g = ground arith
  find_slot-first (o ∷ l) (suc i) (suc j) c h lt g =
      find_slot-first l i j c (ground arith) (omega arith) g

  pub find_slot-none :
      (l : Slots) (j : ℕ) (c : Channel)
      → find_slot sender sender_ch recipient_ch l ≡ none
      → get_elem? l j ≡ some (some c)
      → slot_matches sender sender_ch recipient_ch (some c) ≡ false
  unfolding find_slot
  find_slot-none [] j c h g = cc
  find_slot-none (o ∷ l) zero c h g = ground arith
  find_slot-none (o ∷ l) (suc j) c h g = find_slot-none l j c (ground arith) g
