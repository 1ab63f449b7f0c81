-- ===== src/Scp/Content.antt =====
-- The content of files in src/susshid/inspect-scp.c: it is counted once and not read as messages.
use susshi.Prelude.{
  ℕ, ◌+◌, ◌-◌, ◌≤◌, ◌<◌, ◌≡◌, ◌∙◌, refl, sym, ap, true, false, List, [], ◌∷◌, length, ltb, arith,
  some, inl, inr, Bool-cases,
}
use susshi.Result.{Result, done, ◌>>=◌}
use susshi.Gateway.{Bytes}
use susshi.Session.{Side}
use susshi.Scp.{
  ScpLibrary, ScpState, from_source, report_file, readmsg, content, from_source_side,
  inspect_scp_data,
}

-- The packets of one side, one after the other.
unfoldable pub inspect_packets : ScpLibrary → Side → List Bytes → ScpState → Result ScpState
inspect_packets l sender [] s = done s
inspect_packets l sender (x ∷ xs) s = do
  s ← inspect_scp_data l sender x s
  inspect_packets l sender xs s

-- The data of the packets, and how long it is.
pub data Carries (l : ScpLibrary) : List Bytes → ℕ → Type 0 where
  no_packet : Carries l [] 0
  packet :
      (x text rest : Bytes) (xs : List Bytes) (n : ℕ)
      → l.wire.get_string x ≡ some (text, rest)
      → Carries l xs n
      → Carries l (x ∷ xs) (length text + n)

-- The state after `k` bytes of content.
abbrev pub lowered : ℕ → ScpState → ScpState
lowered k s = record s { scp_read_ahead = s.scp_read_ahead - k }

lowered_twice : (j k : ℕ) (s : ScpState) → lowered k (lowered j s) ≡ lowered (j + k) s
lowered_twice j k s =
    let e : s.scp_read_ahead - j - k ≡ s.scp_read_ahead - (j + k) = omega arith in
    ap (λ (n : ℕ). record s { scp_read_ahead = n }) e

lowered_none : (s : ScpState) → lowered 0 s ≡ s
lowered_none s =
    let e : s.scp_read_ahead - 0 ≡ s.scp_read_ahead = omega arith in
    ap (λ (n : ℕ). record s { scp_read_ahead = n }) e

module _ (l : ScpLibrary) (sender : Side) where
  content_lem :
      (x : Bytes) (s : ScpState)
      → length x ≤ s.scp_read_ahead
      → content l x s ≡ lowered (length x) s
  unfolding readmsg
  content_lem x s le = let e : ltb (s.scp_read_ahead + 1) (length x) ≡ false = ground arith in rw e

  counted_lem : (s : ScpState) → s.scp_files_maycount ≡ false → report_file sender s ≡ s
  unfolding report_file
  counted_lem s e = rw e

  -- Nothing is left to count.
  later :
      (x : Bytes) (s : ScpState)
      → s.scp_files_maycount ≡ false
      → length x ≤ s.scp_read_ahead
      → from_source_side l sender x s ≡ lowered (length x) s
  unfolding from_source_side readmsg
  later x s counted le = elim (Bool-cases (ltb 0 s.scp_read_ahead)) [
    | inl more ↦ rw (more, counted_lem s counted) (content_lem x s le)
    | inr no_more ↦ rw no_more (nothing x (ground arith))
  ]
    where
      nothing : (x : Bytes) → length x ≡ 0 → readmsg l x 0 s ≡ lowered (length x) s
      nothing [] e = sym (lowered_none s)
      nothing (a ∷ x) e = absurd (omega arith)

  report_file-ahead : (s : ScpState) → (report_file sender s).scp_read_ahead ≡ s.scp_read_ahead
  unfolding report_file
  report_file-ahead s = ground arith

  report_file-counted : (s : ScpState) → (report_file sender s).scp_files_maycount ≡ false
  unfolding report_file
  report_file-counted s = ground arith

  report_file-source :
      (s : ScpState) → from_source sender (report_file sender s) ≡ from_source sender s
  unfolding report_file from_source
  report_file-source s = ground arith

  first :
      (x : Bytes) (s : ScpState)
      → 0 < s.scp_read_ahead
      → length x ≤ s.scp_read_ahead
      → from_source_side l sender x s ≡ lowered (length x) (report_file sender s)
  unfolding from_source_side
  first x s some_left le =
      let e : ltb 0 s.scp_read_ahead ≡ true = ground arith in
      rw e (content_lem x (report_file sender s) (rw (report_file-ahead s) le))

  pub inspected :
      (x text rest : Bytes) (s : ScpState)
      → l.wire.get_string x ≡ some (text, rest)
      → from_source sender s ≡ true
      → inspect_scp_data l sender x s ≡ done (from_source_side l sender text s)
  unfolding inspect_scp_data
  inspected x text rest s e source = rw (e, source)

  source_lowered : (k : ℕ) (s : ScpState) → from_source sender (lowered k s) ≡ from_source sender s
  unfolding from_source
  source_lowered k s = refl

  all_later :
      (xs : List Bytes) (k : ℕ) (s : ScpState)
      → Carries l xs k
      → from_source sender s ≡ true
      → s.scp_files_maycount ≡ false
      → k ≤ s.scp_read_ahead
      → inspect_packets l sender xs s ≡ done (lowered k s)
  unfolding inspect_packets
  all_later _ _ s no_packet source counted le = rw (lowered_none s) refl
  all_later _ _ s (packet x text rest xs n e c) source counted le =
      rw (inspected x text rest s e source, later text s counted (omega arith))
        (all_later xs n (lowered (length text) s) c (source_lowered (length text) s ∙ source)
            counted (omega arith)
          ∙ rw (lowered_twice (length text) n s))

  -- While bytes of a file are awaited, packets of the source with no more bytes than these, however
  -- they are cut, lower the number that is awaited by their length; with the first of them a file
  -- that is not counted yet is counted with its full length. They are not read as messages: nothing
  -- is logged, and nothing else changes.
  pub inspect_packets_counted :
      (x : Bytes) (xs : List Bytes) (k : ℕ) (s : ScpState)
      → Carries l (x ∷ xs) k
      → from_source sender s ≡ true
      → 0 < s.scp_read_ahead
      → k ≤ s.scp_read_ahead
      → inspect_packets l sender (x ∷ xs) s ≡ done (lowered k (report_file sender s))
  unfolding inspect_packets
  inspect_packets_counted _ _ _ s (packet x text rest xs n e c) source some_left le =
      let t : ScpState = report_file sender s in
      let room : length text + n ≤ t.scp_read_ahead = rw (report_file-ahead s) le in
      rw (inspected x text rest s e source, first text s some_left (omega arith))
        (all_later xs n (lowered (length text) t) c
            (source_lowered (length text) t ∙ report_file-source s ∙ source) (report_file-counted s)
            (omega arith)
          ∙ rw (lowered_twice (length text) n t))
