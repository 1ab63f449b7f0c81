-- ===== src/Slots/Laws.antt =====
-- What the operations on a table of slots do to it.
use susshi.Prelude.{
  ◌*◌, ℕ, zero, suc, ◌+◌, ◌<◌, ◌≡◌, ◌≢◌, ◌⊎◌, refl, sym, ap, ◌∙◌, inl, inr, true, false, Bool,
  Option, none, some, List, [], ◌∷◌, ◌++◌, length, get_elem?, set, replicate, ltb, arith,
  Option-cases, Bool-cases, length-append, length-set, get_elem?-set_self, get_elem?-set_ne,
  get_elem?-lt, ltb→lt, lt→ltb,
}
use mathlib.Core.Path.{subst₂}
use susshi.Result.{done, stop, fatal, crash}
use susshi.Slots.{num_open, free_slot, initial, place, alloc, release_by, release, find_slot_by}
use susshi.Slots.Removal.{
  free_slot-is_free, free_slot-none, free_slot-full, num_open-set, num_open-clear, num_open-append,
  get_elem?-append_end, replicate_free, get_elem?-append_other, get_elem?-append_left,
  get_elem?-length, IsRemoved,
}

-- A length has grown by a multiple of ten.
abbrev pub InTens : ℕ → ℕ → Type 0
InTens n m = (k : ℕ) × (m ≡ n + 10 * k)

pub InTens-same : (n m : ℕ) → m ≡ n → InTens n m
InTens-same n m e = (0, omega (arith, e))

pub InTens-trans : (n m k : ℕ) → InTens n m → InTens m k → InTens n k
InTens-trans n m k (a, e) (b, h) = (a + b, omega (arith, e, h))

module _ {A : Type 0} (zeroed : A) where
  -- The table `m` is `l` with a fresh entry in a slot `i` that nothing used.
  pub record IsAdded (l m : List (Option A)) (i : ℕ) : Type 0 where
    pub fresh : get_elem? m i ≡ some (some zeroed)
    pub was_free : (c : A) → get_elem? l i ≢ some (some c)
    pub kept : (j : ℕ) (c : A) → get_elem? l j ≡ some (some c) → get_elem? m j ≡ some (some c)
    pub no_more :
        (j : ℕ) (a : A) → get_elem? m j ≡ some (some a) → i ≢ j → get_elem? l j ≡ some (some a)
    pub one_more : num_open m ≡ num_open l + 1
    pub in_tens : InTens (length l) (length m)

  set-IsAdded :
      (l : List (Option A)) (i : ℕ)
      → get_elem? l i ≡ some none
      → IsAdded l (set l i (some zeroed)) i
  set-IsAdded l i free = record {
    fresh = get_elem?-set_self l i (some zeroed) (get_elem?-lt l i none free);
    was_free = λ c e. cc (sym free, e);
    kept = λ j c e. rw (get_elem?-set_ne l i j (some zeroed) (λ ij. cc)) e;
    no_more = λ j a e ij. sym (get_elem?-set_ne l i j (some zeroed) ij) ∙ e;
    one_more = num_open-set l i zeroed free;
    in_tens = InTens-same (length l) _ (rw length-set);
  }

  append-IsAdded :
      (l : List (Option A)) → IsAdded l (l ++ some zeroed ∷ replicate 9 none) (length l)
  append-IsAdded l = record {
    fresh = get_elem?-append_end l (replicate 9 none) zeroed;
    was_free = λ c e. cc (get_elem?-length l, e);
    kept = λ j c e. get_elem?-append_left l (some zeroed ∷ replicate 9 none) j (some c) e;
    no_more = λ j a e ij. get_elem?-append_other l zeroed 9 j a ij e;
    one_more = unfold num_open in omega (arith, num_open-append l (some zeroed ∷ replicate 9 none));
    in_tens = (1, omega (arith, length-append l (some zeroed ∷ replicate 9 none)));
  }

  place_found :
      (l m : List (Option A)) (k i : ℕ)
      → place zeroed (some k) l ≡ done (i, m)
      → (k ≡ i) × (set l k (some zeroed) ≡ m)
  place_found l m k i h = ground arith

  place_full :
      (l m : List (Option A)) (i : ℕ)
      → place zeroed none l ≡ done (i, m)
      → (length l ≡ i) × (l ++ some zeroed ∷ replicate 9 none ≡ m)
  place_full l m i h = ground arith

  place-IsAdded :
      (l m : List (Option A)) (i : ℕ) → place zeroed (free_slot l) l ≡ done (i, m) → IsAdded l m i
  place-IsAdded l m i h = elim (Option-cases (free_slot l)) [
    | inl full ↦
        let e = place_full l m i (rw full at h) in
        subst₂ (λ i m. IsAdded l m i) e.0 e.1 (append-IsAdded l)
    | inr (k, found) ↦
        let e = place_found l m k i (rw found at h) in
        subst₂ (λ i m. IsAdded l m i) e.0 e.1 (set-IsAdded l k (free_slot-is_free l k found))
  ]

  -- The first ten slots are not in use.
  initial-IsAdded : (l m : List (Option A)) (i : ℕ) → IsAdded (initial l) m i → IsAdded l m i
  initial-IsAdded [] m i a = record {
    fresh = a.fresh;
    was_free = λ c e. cc;
    kept = λ j c e. cc;
    no_more = λ j b e ij. absurd (replicate_free 10 j b (a.no_more j b e ij));
    one_more = unfold num_open in a.one_more;
    in_tens = InTens-trans 0 10 (length m) (1, refl) a.in_tens;
  }
  initial-IsAdded (x ∷ l) m i a = a

  -- `place` fails only on a full table of more than 10000 slots.
  place_total :
      (l : List (Option A))
      → ((num_open l ≡ length l) × (10000 < length l) × (place zeroed (free_slot l) l ≡ stop fatal))
        ⊎ ((i : ℕ) × (m : List (Option A)) × (place zeroed (free_slot l) l ≡ done (i, m)))
  place_total l = elim (Option-cases (free_slot l)) [
    | inl full ↦ elim (Bool-cases (ltb 10000 (length l))) [
      | inl big ↦ inl (free_slot-none l full, ltb→lt 10000 (length l) big, rw (full, big))
      | inr small ↦ inr (length l, l ++ some zeroed ∷ replicate 9 none, rw (full, small))
    ]
    | inr (k, found) ↦ inr (k, set l k (some zeroed), rw found)
  ]

  initial_full :
      (l : List (Option A))
      → (num_open (initial l) ≡ length (initial l)) × (10000 < length (initial l))
      → (num_open l ≡ length l) × (10000 < length l)
  initial_full [] h = absurd (omega (arith, h.1))
  initial_full (x ∷ l) h = h

  -- An allocation that returns.
  pub alloc-IsAdded : (l m : List (Option A)) (i : ℕ) → alloc zeroed l ≡ done (i, m) → IsAdded l m i
  unfolding alloc
  alloc-IsAdded l m i h = initial-IsAdded l m i (place-IsAdded (initial l) m i h)

  pub alloc_total :
      (l : List (Option A))
      → ((num_open l ≡ length l) × (10000 < length l) × (alloc zeroed l ≡ stop fatal))
        ⊎ ((i : ℕ) × (m : List (Option A)) × (alloc zeroed l ≡ done (i, m)))
  unfolding alloc
  alloc_total l = elim (place_total (initial l)) [
    | inl (all_used, big, e) ↦ let t = initial_full l (all_used, big) in inl (t.0, t.1, e)
    | inr (i, m, e) ↦ inr (i, m, e)
  ]

  -- A full table of more than 10000 slots ends the process.
  pub alloc_full :
      (l : List (Option A)) → num_open l ≡ length l → 10000 < length l → alloc zeroed l ≡ stop fatal
  unfolding alloc
  alloc_full [] all_used big = absurd (omega (arith, big))
  alloc_full (x ∷ l) all_used big =
      rw (free_slot-full (x ∷ l) all_used, lt→ltb 10000 (length (x ∷ l)) big)

module _ {A : Type 0} (l : List (Option A)) where
  pub release-IsRemoved :
      (i : ℕ) (a : A)
      → get_elem? l i ≡ some (some a)
      → (release i l ≡ done (set l i none)) × IsRemoved l (set l i none) i
  unfolding release
  release-IsRemoved i a used = (
    rw used,
    record {
      gone = get_elem?-set_self l i none (get_elem?-lt l i (some a) used);
      others = λ j ne. get_elem?-set_ne l i j none ne;
      one_less = num_open-clear l i a used;
      same_length = length-set l i none;
    },
  )

  -- The index just past the end.
  pub release_past : release (length l) l ≡ stop crash
  unfolding release
  release_past = rw (get_elem?-length l) (ground arith)

  pub length-release : (i : ℕ) (m : List (Option A)) → release i l ≡ done m → length m ≡ length l
  unfolding release
  length-release i m h = by_slot (get_elem? l i) h
    where
      by_slot : (o : Option (Option A)) → release_by o i l ≡ done m → length m ≡ length l
      by_slot none h = ap length (ground arith)
      by_slot (some none) h = ap length (cc)
      by_slot (some (some a)) h =
          let e : set l i none ≡ m = cc in sym (ap length e) ∙ length-set l i none

module _ {A : Type 0} (test : A → Bool) where
  -- What is found is in use and passes the test.
  find_slot_by-some :
      (l : List (Option A)) (i : ℕ)
      → find_slot_by test l ≡ some i
      → (a : A) × (get_elem? l i ≡ some (some a)) × (test a ≡ true)
  unfolding find_slot_by
  find_slot_by-some [] i h = cc
  find_slot_by-some (none ∷ l) zero h = ground arith
  find_slot_by-some (none ∷ l) (suc i) h = find_slot_by-some l i (ground arith)
  find_slot_by-some (some a ∷ l) zero h = (a, refl, ground arith)
  find_slot_by-some (some a ∷ l) (suc i) h = find_slot_by-some l i (ground arith)

  -- The only slot in use that passes the test is found.
  pub find_slot_by_unique :
      (l : List (Option A)) (i : ℕ) (a : A)
      → get_elem? l i ≡ some (some a)
      → test a ≡ true
      → ((j : ℕ) (b : A) → get_elem? l j ≡ some (some b) → j ≢ i → test b ≡ false)
      → find_slot_by test l ≡ some i
  unfolding find_slot_by
  find_slot_by_unique [] i a used t others = cc
  find_slot_by_unique (o ∷ l) zero a used t others = let e : o ≡ some a = cc in rw (e, t)
  find_slot_by_unique (none ∷ l) (suc i) a used t others =
      rw (find_slot_by_unique l i a used t (λ j b u ne. others (suc j) b u (λ h. ne (omega arith))))
  find_slot_by_unique (some b ∷ l) (suc i) a used t others = rw (
    others 0 b refl (λ h. absurd (omega arith)),
    find_slot_by_unique l i a used t (λ j b u ne. others (suc j) b u (λ h. ne (omega arith))),
  )
