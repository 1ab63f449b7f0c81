-- ===== src/Acl/Laws.antt =====
-- What the access rules of src/susshid/chef.c allow, and what they deny whatever the rules say.
use susshi.Prelude.{
  ℕ, String, ◌≡◌, refl, ap, ◌⊎◌, ◌↔◌, inl, inr, Bool, true, false, ◌&&◌, ◌||◌, Option, some, List,
  [], ◌∷◌, any, str_eq, eq_iff, starts_with, Bool-cases, arith,
}
use mathlib.Core.Path.{subst}
use susshi.Result.{done, ◌>>=◌}
use susshi.Acl.{
  Element, text, other_element, boolean, array, other_json, Unpacked, failed, absent, present,
  Context, allow, deny, elements, unpacked, allow_if, is_text, found, pattern_matches, is_localhost,
  host_match, port_match, parts_match, socket_matches, bool_value, acl_string, acl_regex,
  acl_socket, acl_bool,
}

-- Some element has the property, with its place.
abbrev pub Some : (Element → Type 0) → List Element → Type 0
Some P [] = ⊥
Some P (e ∷ es) = P e ⊎ Some P es

any_iff_Some :
    (p : Element → Bool) (P : Element → Type 0) (es : List Element)
    → ((e : Element) → (p e ≡ true) ↔ P e)
    → (any p es ≡ true) ↔ Some P es
any_iff_Some p P [] h = (λ e. cc, λ s. absurd s)
any_iff_Some p P (e ∷ es) h = elim (Bool-cases (p e)) [
  | inl yes_e ↦ (λ _. inl ((h e).0 yes_e), λ _. rw yes_e)
  | inr no_e ↦ (
    λ a. inr ((any_iff_Some p P es h).0 (rw no_e at a)),
    elim [
      | inl pe ↦ absurd (grind (arith, (h e).1 pe))
      | inr rest ↦ rw no_e ((any_iff_Some p P es h).1 rest)
    ],
  )
]

allow_if_iff : (b : Bool) → (allow_if b ≡ allow) ↔ (b ≡ true)
allow_if_iff b = ground arith

-- The host part of a rule covers the address `ip`.
abbrev pub CoversHost : Bool → String → String → Type 0
CoversHost true rule ip =
    ((str_eq ip "localhost" || starts_with ip "127") ≡ false) × ((rule ≡ "*") ⊎ (rule ≡ ip))
CoversHost false rule ip =
    (rule ≡ "*") ⊎ (rule ≡ ip) ⊎ ((rule ≡ "localhost") × (is_localhost ip ≡ true))

host_match_iff :
    (bastion : Bool) (rule ip : String)
    → (host_match bastion rule ip ≡ true) ↔ CoversHost bastion rule ip
unfolding host_match
host_match_iff true rule ip = ground (arith, eq_iff rule "*", eq_iff rule ip)
host_match_iff false rule ip =
    ground (arith, eq_iff rule "*", eq_iff rule ip, eq_iff rule "localhost", eq_iff ip "localhost")

-- A rule of the array is `host|port`, and both parts cover what is asked for.
pub record Grants (c : Context) (ip : String) (port : ℕ) (rule : Element) : Type 0 where
  pub body : String
  pub is_body : rule ≡ text body
  pub host : String
  pub prt : String
  pub parts : c.split body ≡ host ∷ prt ∷ []
  pub covers_host : CoversHost c.bastion host ip
  pub covers_port : (prt ≡ "*") ⊎ (prt ≡ c.decimal port)

port_match_iff :
    (c : Context) (prt : String) (port : ℕ)
    → (port_match c prt port ≡ true) ↔ ((prt ≡ "*") ⊎ (prt ≡ c.decimal port))
unfolding port_match
port_match_iff c prt port = ground (arith, eq_iff prt "*", eq_iff prt (c.decimal port))

both_true : (a b : Bool) → ((a && b) ≡ true) ↔ ((a ≡ true) × (b ≡ true))
both_true a b = ground arith

-- `prt` is the second of the two parts of the rule.
PartsCover : Context → String → ℕ → List String → Type 0
PartsCover c ip port ps =
    (host : String) × (prt : String) × (ps ≡ host ∷ prt ∷ [])
    × CoversHost c.bastion host ip
    × ((prt ≡ "*") ⊎ (prt ≡ c.decimal port))

parts_match_iff :
    (c : Context) (ip : String) (port : ℕ) (ps : List String)
    → (parts_match c ip port ps ≡ true) ↔ PartsCover c ip port ps
unfolding PartsCover
parts_match_iff c ip port [] = (λ e. cc, λ g. cc (g.2))
parts_match_iff c ip port (h ∷ []) = (λ e. cc, λ g. cc (g.2))
parts_match_iff c ip port (h ∷ p ∷ []) = (
  λ e.
      let t = (both_true (host_match c.bastion h ip) (port_match c p port)).0 e in
      (h, p, refl, (host_match_iff c.bastion h ip).0 t.0, (port_match_iff c p port).0 t.1),
  λ g.
      let eh : g.0 ≡ h = cc (g.2) in
      let ep : g.1 ≡ p = cc (g.2) in
      (both_true (host_match c.bastion h ip) (port_match c p port)).1 (
        (host_match_iff c.bastion h ip).1 (rw eh at (g.3)),
        (port_match_iff c p port).1 (rw ep at (g.4)),
      ),
)
parts_match_iff c ip port (h ∷ p ∷ q ∷ r) = (λ e. cc, λ g. cc (g.2))

socket_matches_iff :
    (c : Context) (ip : String) (port : ℕ) (e : Element)
    → (socket_matches c ip port e ≡ true) ↔ Grants c ip port e
unfolding PartsCover
socket_matches_iff c ip port (text b) = (
  λ h.
      let g = (parts_match_iff c ip port (c.split b)).0 h in
      record {
        body = b;
        is_body = refl;
        host = g.0;
        prt = g.1;
        parts = g.2;
        covers_host = g.3;
        covers_port = g.4;
      },
  λ g.
      let e : g.body ≡ b = cc (g.is_body) in
      let parts : c.split b ≡ g.host ∷ g.prt ∷ [] = rw e at (g.parts) in
      (parts_match_iff c ip port (c.split b)).1
        (g.host, g.prt, parts, g.covers_host, g.covers_port),
)
socket_matches_iff c ip port other_element = (λ h. cc, λ g. cc (g.is_body))

-- The rules for the key are an array, and some element of it has the property.
abbrev pub InArray : (Element → Type 0) → Unpacked → Type 0
InArray P u = (es : List Element) × (u ≡ present (array es)) × Some P es

module _ (p : Element → Bool) (P : Element → Type 0) (h : (e : Element) → (p e ≡ true) ↔ P e) where
  array_iff : (es : List Element) → (allow_if (any p es) ≡ allow) ↔ InArray P (present (array es))
  array_iff es =
      let both = any_iff_Some p P es h in
      let opens = allow_if_iff (any p es) in
      (
        λ a. (es, refl, both.0 (opens.0 a)),
        λ (fs, e, some_f).
            let same : fs ≡ es = cc in opens.1 (both.1 (subst (λ l. Some P l) same some_f)),
      )

  -- What the three functions answer for a key, by what was unpacked.
  unpacked_iff :
      (u : Unpacked)
      → ((unpacked u >>= λ obj. done (allow_if (any p (elements obj)))) ≡ done allow) ↔ InArray P u
  unfolding unpacked
  unpacked_iff failed = (λ e. cc, λ (es, e, _). cc)
  unpacked_iff absent = (λ e. cc, λ (es, e, _). cc)
  unpacked_iff (present (boolean b)) = (λ e. cc, λ (es, e, _). cc)
  unpacked_iff (present other_json) = (λ e. cc, λ (es, e, _). cc)
  unpacked_iff (present (array es)) =
      let iff = array_iff es in (λ e. iff.0 (cc), λ a. ap done (iff.1 a))

-- A forwarding to `host` and `port` is allowed exactly when the session's rules for the key are an
-- array with an element `host|port` that covers both: `*`, the normalised address itself, in
-- gateway mode also `localhost` for `localhost`, 127.0.0.1 and ::1, and in bastion mode nothing for
-- `localhost` and for what starts with 127.
pub acl_socket-allow_iff :
    (c : Context) (key host : String) (port : ℕ)
    → (acl_socket c key host port ≡ done allow)
      ↔ InArray (Grants c (c.normalize host) port) (c.unpack key)
unfolding acl_socket
acl_socket-allow_iff c key host port =
    let ip = c.normalize host in
    unpacked_iff (socket_matches c ip port) (Grants c ip port) (socket_matches_iff c ip port)
      (c.unpack key)

is_text_iff : (value : String) (e : Element) → (is_text value e ≡ true) ↔ (e ≡ text value)
is_text_iff value (text t) = ground (arith, eq_iff value t)
is_text_iff value other_element = ground arith

-- A pattern of the rules that compiles and is found in the value.
pub record Matches (c : Context) (value : String) (rule : Element) : Type 0 where
  pub pattern_text : String
  pub is_pattern : rule ≡ text pattern_text
  pub is_found : c.search pattern_text value ≡ some true

found_iff : (r : Option Bool) → (found r ≡ true) ↔ (r ≡ some true)
found_iff r = ground arith

pattern_matches_iff :
    (c : Context) (value : String) (e : Element)
    → (pattern_matches c value e ≡ true) ↔ Matches c value e
pattern_matches_iff c value (text t) = (
  λ h. record {
    pattern_text = t;
    is_pattern = refl;
    is_found = (found_iff (c.search t value)).0 h;
  },
  λ m.
      let e : m.pattern_text ≡ t = cc (m.is_pattern) in
      (found_iff (c.search t value)).1 (rw e at (m.is_found)),
)
pattern_matches_iff c value other_element = (λ h. cc, λ m. cc (m.is_pattern))

-- A subsystem name is allowed exactly when the session's rules for the key are an array with this
-- name, and a command exactly when they are an array with a pattern that compiles and matches it.
pub acl_string-acl_regex-allow_iff :
    (c : Context) (key value : String)
    → ((acl_string c key value ≡ done allow) ↔ InArray (λ e. e ≡ text value) (c.unpack key))
      × ((acl_regex c key value ≡ done allow) ↔ InArray (Matches c value) (c.unpack key))
unfolding acl_string acl_regex
acl_string-acl_regex-allow_iff c key value = (
  unpacked_iff (is_text value) (λ e. e ≡ text value) (is_text_iff value) (c.unpack key),
  unpacked_iff (pattern_matches c value) (Matches c value) (pattern_matches_iff c value)
      (c.unpack key),
)

-- A yes-or-no right is granted exactly when the Chef sent the key with that truth value.
pub acl_bool-allow_iff :
    (c : Context) (key : String) (value : Bool)
    → (acl_bool c key value ≡ allow) ↔ (c.unpack key ≡ present (boolean value))
unfolding acl_bool
acl_bool-allow_iff c key value = by_answer (c.unpack key)
  where
    by_answer : (u : Unpacked) → (bool_value u value ≡ allow) ↔ (u ≡ present (boolean value))
    by_answer failed = ground arith
    by_answer absent = ground arith
    by_answer (present (boolean b)) = ground arith
    by_answer (present (array es)) = ground arith
    by_answer (present other_json) = ground arith

-- Without a context for the target every question is denied.
pub acl_deny_by_default :
    (c : Context) (key value : String) (port : ℕ) (b : Bool)
    → c.unpack key ≡ failed
    → (acl_string c key value ≡ done deny)
      × (acl_regex c key value ≡ done deny)
      × (acl_socket c key value port ≡ done deny)
      × (acl_bool c key b ≡ deny)
unfolding acl_string acl_regex acl_socket acl_bool unpacked
acl_deny_by_default c key value port b h = (rw h, rw h, rw h, rw h)
