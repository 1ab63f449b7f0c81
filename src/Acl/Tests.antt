-- ===== src/Acl/Tests.antt =====
-- The access rules, on a small concrete context.
use susshi.Prelude.{
  String, ◌≡◌, ◌↔◌, refl, Bool, true, false, none, [], ◌∷◌, ◌==◌, str_eq, if◌then◌else◌,
}
use susshi.Result.{done, stop, crash}
use susshi.Acl.{
  allow, deny, Unpacked, failed, absent, present, array, boolean, text, Context, unpacked,
  host_match, port_match, acl_string, acl_regex, acl_socket,
}
use susshi.Acl.Laws.{InArray, Grants, Matches, acl_socket-allow_iff, acl_string-acl_regex-allow_iff}

-- Forwarding to any port of the loopback address, interactive sessions, one subsystem,
-- and no key for commands.
abbrev answers : String → Unpacked
answers key =
    if str_eq key "SSHLocalForwards"
    then present (array (text "localhost|*" ∷ []))
    else if str_eq key "SSHInteractive"
    then present (boolean true)
    else if str_eq key "SSHSessionSubsystems"
    then present (array (text "netconf" ∷ []))
    else if str_eq key "SSHCommandExecs"
    then absent
    else failed

abbrev rules : Bool → Context
rules bastion = record {
  unpack = answers;
  bastion = bastion;
  normalize = λ host. host;
  split = λ r. if str_eq r "localhost|*" then "localhost" ∷ "*" ∷ [] else r ∷ [];
  search = λ pattern value. none;
  decimal = λ port. if port == 80 then "80" else "0";
}

loopback_allowed : acl_socket (rules false) "SSHLocalForwards" "127.0.0.1" 80 ≡ done allow
unfolding acl_socket unpacked host_match port_match
loopback_allowed = refl

acl_socket-allow_iff_example :
    (acl_socket (rules false) "SSHLocalForwards" "127.0.0.1" 80 ≡ done allow)
    ↔ InArray (Grants (rules false) "127.0.0.1" 80) (present (array (text "localhost|*" ∷ [])))
acl_socket-allow_iff_example = acl_socket-allow_iff (rules false) "SSHLocalForwards" "127.0.0.1" 80

acl_string-acl_regex-allow_iff_example :
    ((acl_string (rules false) "SSHSessionSubsystems" "netconf" ≡ done allow)
      ↔ InArray (λ e. e ≡ text "netconf") (present (array (text "netconf" ∷ []))))
    × ((acl_regex (rules false) "SSHSessionSubsystems" "netconf" ≡ done allow)
        ↔ InArray (Matches (rules false) "netconf") (present (array (text "netconf" ∷ []))))
acl_string-acl_regex-allow_iff_example =
    acl_string-acl_regex-allow_iff (rules false) "SSHSessionSubsystems" "netconf"

subsystem_listed : acl_string (rules false) "SSHSessionSubsystems" "netconf" ≡ done allow
unfolding acl_string unpacked
subsystem_listed = refl

-- For a key that is absent the uninitialised pointer is read.
absent_key : acl_string (rules false) "SSHCommandExecs" "netconf" ≡ stop crash
unfolding acl_string unpacked
absent_key = refl

bastion_shut : acl_socket (rules true) "SSHLocalForwards" "127.0.0.1" 80 ≡ done deny
unfolding acl_socket unpacked host_match port_match
bastion_shut = refl
