-- ===== src/Acl.antt =====
-- The access rules of a session, src/susshid/chef.c: what `susshi_chef_authz_acl_string`,
-- `_regex`, `_socket` and `_bool` answer for a key of the context that the Chef sent.
pub mod Laws
mod Tests
use susshi.Prelude.{
  ℕ, String, Bool, true, false, not, ◌&&◌, ◌||◌, Option, none, some, List, [], ◌∷◌, any, str_eq,
  starts_with, if◌then◌else◌,
}
use susshi.Result.{Result, done, stop, crash, ◌>>=◌}

pub data AclState : Type 0 where
  deny allow : AclState

-- The JSON values that the functions tell apart.
pub data Element : Type 0 where
  text : String → Element
  other_element : Element

pub data Json : Type 0 where
  boolean : Bool → Json
  array : List Element → Json
  other_json : Json

-- What `json_unpack(session_context, "{s{s{s?o}}}", "Target", <target>, key, &obj)` does for the
-- session's target: it fails, it succeeds without writing `obj` (the key is optional), or it
-- writes `obj`.
pub data Unpacked : Type 0 where
  failed absent : Unpacked
  present : Json → Unpacked

-- `normalize` is `inet_pton` then `inet_ntop`, with the text kept if it is no address; `split` is
-- `bsplit(_, '|')`; `search` is `pcre2_compile` and `pcre2_match`, `none` if the pattern does not
-- compile; `decimal` is `bformat("%d", _)`.
pub record Context : Type 0 where
  pub unpack : String → Unpacked
  pub bastion : Bool
  pub normalize : String → String
  pub split : String → List String
  pub search : String → String → Option Bool
  pub decimal : ℕ → String

-- `obj` after the call. It starts out uninitialised, and `json_is_array` reads through it if the call
-- succeeds: for an absent key this is undefined.
unfoldable pub unpacked : Unpacked → Result (Option Json)
unpacked failed = done none
unpacked absent = stop crash
unpacked (present j) = done (some j)

abbrev pub elements : Option Json → List Element
elements (some (array es)) = es
elements _ = []

abbrev pub allow_if : Bool → AclState
allow_if true = allow
allow_if false = deny

abbrev pub is_text : String → Element → Bool
is_text value (text e) = str_eq value e
is_text value other_element = false

unfoldable pub acl_string : Context → String → String → Result AclState
unfolding unpacked
acl_string c key value = do
  obj ← unpacked (c.unpack key)
  done (allow_if (any (is_text value) (elements obj)))

-- A pattern that does not compile is skipped.
abbrev pub found : Option Bool → Bool
found (some true) = true
found _ = false

abbrev pub pattern_matches : Context → String → Element → Bool
pattern_matches c value (text e) = found (c.search e value)
pattern_matches c value other_element = false

unfoldable pub acl_regex : Context → String → String → Result AclState
unfolding unpacked
acl_regex c key value = do
  obj ← unpacked (c.unpack key)
  done (allow_if (any (pattern_matches c value) (elements obj)))

abbrev pub is_localhost : String → Bool
is_localhost ip = str_eq ip "localhost" || str_eq ip "127.0.0.1" || str_eq ip "::1"

-- The host part of a rule against the normalised host.
unfoldable pub host_match : Bool → String → String → Bool
host_match bastion rule ip =
    if bastion
    then (if str_eq ip "localhost" || starts_with ip "127"
        then false
        else str_eq rule "*" || str_eq rule ip)
    else if str_eq rule "*"
    then true
    else if str_eq rule "localhost"
    then is_localhost ip
    else str_eq rule ip

unfoldable pub port_match : Context → String → ℕ → Bool
port_match c rule port = str_eq rule "*" || str_eq rule (c.decimal port)

abbrev pub parts_match : Context → String → ℕ → List String → Bool
parts_match c ip port (host ∷ prt ∷ []) = host_match c.bastion host ip && port_match c prt port
parts_match c ip port _ = false

abbrev pub socket_matches : Context → String → ℕ → Element → Bool
socket_matches c ip port (text e) = parts_match c ip port (c.split e)
socket_matches c ip port other_element = false

unfoldable pub acl_socket : Context → String → String → ℕ → Result AclState
unfolding unpacked host_match port_match
acl_socket c key host port = do
  obj ← unpacked (c.unpack key)
  done (allow_if (any (socket_matches c (c.normalize host) port) (elements obj)))

abbrev pub bool_is : Bool → Bool → Bool
bool_is true b = b
bool_is false b = not b

-- Here `obj` starts out as NULL and is tested, so an absent key denies.
abbrev pub bool_value : Unpacked → Bool → AclState
bool_value (present (boolean b)) value = allow_if (bool_is b value)
bool_value _ value = deny

unfoldable pub acl_bool : Context → String → Bool → AclState
acl_bool c key value = bool_value (c.unpack key) value
