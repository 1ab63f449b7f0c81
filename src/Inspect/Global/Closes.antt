-- ===== src/Inspect/Global/Closes.antt =====
-- The requests by which a peer says that it opens no more sessions.
use susshi.Prelude.{
  ℕ, String, ◌≡◌, refl, Bool, true, false, ◌||◌, not, ◌==◌, some, is_empty, str_eq, arith,
}
use susshi.Result.{◌>>=◌}
use susshi.Result.Ensures.{Ensures, Ensures-done, Ensures-need}
use susshi.Session.{Side, Session}
use susshi.Gateway.{Bytes, Gateway}
use susshi.Inspect.Global.{judge_global, conclude_global, global_request}

abbrev pub closes_sessions : String → Bool
closes_sessions name =
    str_eq name "no-more-sessions@openssh.com" || str_eq name "simple@putty.projects.tartarus.org"

-- The request is granted, whoever sends it.
pub global_request-closes :
    (g : Gateway) (sender : Side) (buffer : Bytes) (s : Session) (name : String) (rest : Bytes)
    → is_empty buffer ≡ false
    → g.wire.get_cstring buffer ≡ some (name, rest)
    → closes_sessions name ≡ true
    → Ensures
        (λ r. (r.forward ≡ true) × (r.session.no_more_sessions ≡ true))
        (global_request g sender buffer s)
unfolding global_request judge_global conclude_global
global_request-closes g sender buffer s name rest filled reads closes =
    rw (filled, reads)
      (Ensures-need (g.wire.get_u8 rest) _
        λ (want, r2) e. by_name (str_eq name "no-more-sessions@openssh.com") refl want r2)
  where
    by_name :
        (b : Bool)
        → str_eq name "no-more-sessions@openssh.com" ≡ b
        → (want : ℕ) (r2 : Bytes)
        → Ensures
            (λ r. (r.forward ≡ true) × (r.session.no_more_sessions ≡ true))
            (judge_global g sender name (not (want == 0)) r2 s >>= conclude_global g sender buffer)
    by_name true e want r2 = rw e (Ensures-done _ (refl, refl))
    by_name false e want r2 =
        let p : str_eq name "simple@putty.projects.tartarus.org" ≡ true =
          ground (arith, closes, e) in
        rw (e, p) (Ensures-done _ (refl, refl))
