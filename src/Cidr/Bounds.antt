-- ===== src/Cidr/Bounds.antt =====
-- What `inet_net_pton_ipv6` of src/shared/cidr.c returns, and where it writes.
use susshi.Prelude.{◌-◌, ◌<◌, ◌⊎◌, ℕ, ◌≤◌, ◌≡◌, some, List, length}
use susshi.Result.{Result, done, stop, crash}
use susshi.Cidr.Parse.{Scan, breaks, scan_all, Parsed, refused, parsed, after_loop, end_of}

-- What is parsed: a length of at most 128, and a destination of the same size.
abbrev pub Fits : List ℕ → Parsed → Type 0
Fits dst refused = Unit
Fits dst (parsed bits out) = (bits ≤ 128) × (length out ≡ length dst)

-- The groups after the `::` of the text are more than the prefix needs bytes in all.
pub record IsCrowded (src : List ℕ) : Type 0 where
  pub last : Scan
  pub colonp : ℕ
  pub ends : after_loop (scan_all src) ≡ breaks last
  pub has_double : last.colonp ≡ some colonp
  pub no_room : end_of last < last.tp - colonp

-- The parser returns what fits, or the text is crowded and it writes in front of `tmp`.
abbrev pub Answers : List ℕ → List ℕ → Result Parsed → Type 0
Answers src dst m = ((p : Parsed) × (m ≡ done p) × Fits dst p) ⊎ (IsCrowded src × (m ≡ stop crash))
