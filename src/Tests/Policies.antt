-- ===== src/Tests/Policies.antt =====
-- Runs of kinetic_sdk/security/policy.py.
use kinetic_sdk_agents.Prelude.{
  ◌≡◌, refl, ◌⊎◌, String, true, false, ◌&&◌, none, some, List, [], ◌∷◌, any,
}
use kinetic_sdk_agents.Prelude.Dict.{Dict, get}
use kinetic_sdk_agents.Prelude.Json.{Json, str}
use kinetic_sdk_agents.Prelude.Sets.{has}
use kinetic_sdk_agents.Agent.{PermissionDecision}
use kinetic_sdk_agents.Policy.{
  PolicyRule, Library, applies, check_rules, check_allow_list, matches_pattern, patterns_or_none,
}
use kinetic_sdk_agents.Policy.Laws.{Deciding, Silent, check_rules-first, check_allow_list-exact}
use kinetic_sdk_agents.Policy.Paths.{path_matches_prefix}

passwd : path_matches_prefix "/etc/../etc//./passwd" "/etc" ≡ true
unfolding path_matches_prefix
passwd = refl

etcetera : path_matches_prefix "/etcetera/notes.txt" "/etc" ≡ false
unfolding path_matches_prefix
etcetera = refl

escape : path_matches_prefix "/srv/../etc/passwd" "/srv" ≡ false
unfolding path_matches_prefix
escape = refl

-- A file of the current directory whose name begins with two dots is not found inside it.
hidden : path_matches_prefix "..data/notes.txt" "." ≡ false
unfolding path_matches_prefix
hidden = refl

-- The parent of the parent is found inside the parent.
above : path_matches_prefix "../../etc" ".." ≡ true
unfolding path_matches_prefix
above = refl

-- No pattern compiles, so that each is searched for as it stands.
abbrev literal : Library
literal = record {
  search = λ pattern body. none;
  hostname = λ url. none;
  serialise_input = λ input. "sudo ls";
}

abbrev deny : PermissionDecision
deny = record { allowed = false; reason = "no policy rule matched"; requires_confirmation = false }

abbrev etc_rule : PolicyRule
etc_rule = record {
  tool_name = none;
  path_prefix = some "/etc";
  domain_pattern = none;
  command_pattern = none;
  decision = deny;
}

abbrev input : Dict Json
input = ("path", str "/etc/passwd") ∷ []

etc_applies : applies literal etc_rule "read" input ≡ true
unfolding applies
etc_applies = refl

check_rules-first_example :
    Deciding literal "read" input
      (etc_rule ∷ [])
      (check_rules literal (etc_rule ∷ []) deny "read" input)
    ⊎ (Silent literal "read" input (etc_rule ∷ [])
        × (check_rules literal (etc_rule ∷ []) deny "read" input ≡ deny))
check_rules-first_example = check_rules-first literal "read" input (etc_rule ∷ []) deny

abbrev confirm : Dict (List String)
confirm = ("terminal", "rm -rf" ∷ "sudo" ∷ []) ∷ []

sudo_wants_confirmation :
    (check_allow_list literal ("terminal" ∷ []) confirm "terminal" input).requires_confirmation
    ≡ true
unfolding check_allow_list
sudo_wants_confirmation = refl

check_allow_list-exact_example :
    ((check_allow_list literal ("terminal" ∷ []) confirm "terminal" input).allowed
      ≡ has "terminal" ("terminal" ∷ []))
    × ((check_allow_list literal ("terminal" ∷ []) confirm "terminal" input).requires_confirmation
        ≡ (has "terminal" ("terminal" ∷ [])
            && any
                (λ p. matches_pattern literal p (literal.serialise_input input))
                (patterns_or_none literal (get "terminal" confirm))))
check_allow_list-exact_example =
    check_allow_list-exact literal ("terminal" ∷ []) confirm "terminal" input
