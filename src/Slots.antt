-- ===== src/Slots.antt =====
-- Tables of slots that grow: the loops that `susshi_alloc_new_channel` and `susshi_free_channel` of
-- src/susshid/inspect-channel.c share with the tables of requests and handles of
-- src/susshid/inspect-sftp.c.
pub mod Removal
pub mod Laws
use susshi.Prelude.{
  ℕ, suc, ◌+◌, Bool, true, false, Option, none, some, List, [], ◌∷◌, ◌++◌, length, get_elem?, set,
  replicate, ltb, leb, if◌then◌else◌,
}
use susshi.Result.{Result, done, stop, fatal, crash}

module _ {A : Type 0} where
  abbrev pub is_used : Option A → Bool
  is_used none = false
  is_used (some a) = true

  unfoldable pub num_open : List (Option A) → ℕ
  num_open [] = 0
  num_open (slot ∷ slots) = (if is_used slot then 1 else 0) + num_open slots

  -- The loop that tries to find a free slot.
  unfoldable pub free_slot : List (Option A) → Option ℕ
  free_slot [] = none
  free_slot (none ∷ slots) = some 0
  free_slot (some a ∷ slots) = elim (free_slot slots) [ none ↦ none | some i ↦ some (suc i) ]

  abbrev pub initial : List (Option A) → List (Option A)
  initial [] = replicate 10 none
  initial slots = slots

  abbrev pub place : A → Option ℕ → List (Option A) → Result (ℕ × List (Option A))
  place fresh (some i) slots = done (i, set slots i (some fresh))
  place fresh none slots =
      if ltb 10000 (length slots)
      then stop fatal
      else done (length slots, slots ++ some fresh ∷ replicate 9 none)

  unfoldable pub alloc : A → List (Option A) → Result (ℕ × List (Option A))
  unfolding free_slot
  alloc fresh slots = place fresh (free_slot (initial slots)) (initial slots)

  -- `id <= alloc` lets the index one past the end through, where the read of the slot is out of
  -- bounds.
  abbrev pub release_by : Option (Option A) → ℕ → List (Option A) → Result (List (Option A))
  release_by none i slots = if leb i (length slots) then stop crash else done slots
  release_by (some none) i slots = done slots
  release_by (some (some a)) i slots = done (set slots i none)

  unfoldable pub release : ℕ → List (Option A) → Result (List (Option A))
  release i slots = release_by (get_elem? slots i) i slots

  -- The first slot in use whose contents pass a test; `none` is -1.
  abbrev pub passes : (A → Bool) → Option A → Bool
  passes test none = false
  passes test (some a) = test a

  unfoldable pub find_slot_by : (A → Bool) → List (Option A) → Option ℕ
  find_slot_by test [] = none
  find_slot_by test (slot ∷ slots) =
      let rest = find_slot_by test slots in
      if passes test slot then some 0 else elim rest [ none ↦ none | some i ↦ some (suc i) ]
