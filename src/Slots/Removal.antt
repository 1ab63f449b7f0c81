-- ===== src/Slots/Removal.antt =====
-- The slots that are free, and the removal of an element, for the tables that grow in tens in
-- src/susshid/inspect-channel.c and inspect-sftp.c.
use susshi.Prelude.{
  ℕ, zero, suc, ◌+◌, ◌<◌, ◌≡◌, ◌≢◌, refl, ap, Option, none, some, List, [], ◌∷◌, ◌++◌, length,
  get_elem?, set, replicate, arith,
}
use susshi.Slots.{num_open, free_slot}

module _ {A : Type 0} where
  pub free_slot-is_free :
      (l : List (Option A)) (i : ℕ) → free_slot l ≡ some i → get_elem? l i ≡ some none
  unfolding free_slot
  free_slot-is_free [] i h = cc
  free_slot-is_free (none ∷ l) zero h = refl
  free_slot-is_free (none ∷ l) (suc i) h = cc
  free_slot-is_free (some c ∷ l) zero h = ground arith
  free_slot-is_free (some c ∷ l) (suc i) h = free_slot-is_free l i (ground arith)

  pub free_slot-none : (l : List (Option A)) → free_slot l ≡ none → num_open l ≡ length l
  unfolding free_slot num_open
  free_slot-none [] h = refl
  free_slot-none (none ∷ l) h = cc
  free_slot-none (some c ∷ l) h = omega (arith, free_slot-none l (ground arith))

  num_open-le : (l : List (Option A)) → num_open l < length l + 1
  unfolding num_open
  num_open-le [] = omega arith
  num_open-le (none ∷ l) = omega (arith, num_open-le l)
  num_open-le (some c ∷ l) = omega (arith, num_open-le l)

  -- A table with as many entries as slots has no free slot.
  pub free_slot-full : (l : List (Option A)) → num_open l ≡ length l → free_slot l ≡ none
  unfolding num_open free_slot
  free_slot-full [] h = refl
  free_slot-full (none ∷ l) h = absurd (omega (arith, h, num_open-le l))
  free_slot-full (some c ∷ l) h = rw (free_slot-full l (omega (arith, h)))

  pub num_open-set :
      (l : List (Option A)) (i : ℕ) (c : A)
      → get_elem? l i ≡ some none
      → num_open (set l i (some c)) ≡ num_open l + 1
  unfolding num_open
  num_open-set [] i c h = cc
  num_open-set (none ∷ l) zero c h = omega arith
  num_open-set (some d ∷ l) zero c h = cc
  num_open-set (none ∷ l) (suc i) c h = omega (arith, num_open-set l i c h)
  num_open-set (some d ∷ l) (suc i) c h = omega (arith, num_open-set l i c h)

  pub num_open-clear :
      (l : List (Option A)) (i : ℕ) (c : A)
      → get_elem? l i ≡ some (some c)
      → num_open (set l i none) + 1 ≡ num_open l
  unfolding num_open
  num_open-clear [] i c h = cc
  num_open-clear (none ∷ l) zero c h = cc
  num_open-clear (some d ∷ l) zero c h = omega arith
  num_open-clear (none ∷ l) (suc i) c h = omega (arith, num_open-clear l i c h)
  num_open-clear (some d ∷ l) (suc i) c h = omega (arith, num_open-clear l i c h)

  pub num_open-update :
      (l : List (Option A)) (i : ℕ) (c d : A)
      → get_elem? l i ≡ some (some c)
      → num_open (set l i (some d)) ≡ num_open l
  unfolding num_open
  num_open-update [] i c d h = cc
  num_open-update (none ∷ l) zero c d h = cc
  num_open-update (some e ∷ l) zero c d h = omega arith
  num_open-update (none ∷ l) (suc i) c d h = omega (arith, num_open-update l i c d h)
  num_open-update (some e ∷ l) (suc i) c d h = omega (arith, num_open-update l i c d h)

  pub num_open-append : (l m : List (Option A)) → num_open (l ++ m) ≡ num_open l + num_open m
  unfolding num_open
  num_open-append [] m = omega arith
  num_open-append (none ∷ l) m = omega (arith, num_open-append l m)
  num_open-append (some c ∷ l) m = omega (arith, num_open-append l m)

  pub get_elem?-append_end :
      (l m : List (Option A)) (c : A) → get_elem? (l ++ some c ∷ m) (length l) ≡ some (some c)
  get_elem?-append_end [] m c = refl
  get_elem?-append_end (x ∷ l) m c = get_elem?-append_end l m c

  pub replicate_free : (n j : ℕ) (a : A) → get_elem? (replicate n none) j ≡ some (some a) → ⊥
  replicate_free zero j a h = cc
  replicate_free (suc n) zero a h = cc
  replicate_free (suc n) (suc j) a h = replicate_free n j a h

  pub get_elem?-append_other :
      (l : List (Option A)) (b : A) (n j : ℕ) (a : A)
      → length l ≢ j
      → get_elem? (l ++ some b ∷ replicate n none) j ≡ some (some a)
      → get_elem? l j ≡ some (some a)
  get_elem?-append_other [] b n zero a ne h = absurd (ne refl)
  get_elem?-append_other [] b n (suc j) a ne h = absurd (replicate_free n j a h)
  get_elem?-append_other (o ∷ l) b n zero a ne h = h
  get_elem?-append_other (o ∷ l) b n (suc j) a ne h =
      get_elem?-append_other l b n j a (λ e. ne (ap suc e)) h

  pub get_elem?-append_left :
      (l m : List (Option A)) (i : ℕ) (o : Option A)
      → get_elem? l i ≡ some o
      → get_elem? (l ++ m) i ≡ some o
  get_elem?-append_left [] m i o h = cc
  get_elem?-append_left (x ∷ l) m zero o h = h
  get_elem?-append_left (x ∷ l) m (suc i) o h = get_elem?-append_left l m i o h

  pub get_elem?-length : (l : List (Option A)) → get_elem? l (length l) ≡ none
  get_elem?-length [] = refl
  get_elem?-length (x ∷ l) = get_elem?-length l

  -- The table `m` is `l` with the entry of slot `i` taken out.
  pub record IsRemoved (l m : List (Option A)) (i : ℕ) : Type 0 where
    pub gone : get_elem? m i ≡ some none
    pub others : (j : ℕ) → i ≢ j → get_elem? m j ≡ get_elem? l j
    pub one_less : num_open m + 1 ≡ num_open l
    pub same_length : length m ≡ length l
