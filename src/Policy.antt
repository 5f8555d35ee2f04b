-- ===== src/Policy.antt =====
-- kinetic_sdk/security/policy.py: the permission policies. The regular expressions (`re.search`,
-- `none` for a pattern that does not compile), the URL parser (where
-- it returns) and `json.dumps` are parameters.
pub mod Paths
pub mod Laws
use Prim.Native.String.{◌++◌ as str_append}
use kinetic_sdk_agents.Prelude.{
  String, Bool, true, false, ◌&&◌, not, Option, none, some, List, [], ◌∷◌, if◌then◌else◌, str_eq,
  starts_with,
}
use kinetic_sdk_agents.Prelude.Dict.{Dict, get}
use kinetic_sdk_agents.Prelude.Json.{Json, null, bool, num, str, arr, obj}
use kinetic_sdk_agents.Prelude.Sets.{has}
use kinetic_sdk_agents.Prelude.Text.{occurs_in}
use kinetic_sdk_agents.Agent.{PermissionDecision}
use kinetic_sdk_agents.Policy.Paths.{path_matches_prefix}

pub record PolicyRule : Type 0 where
  pub tool_name : Option String
  pub path_prefix : Option String
  pub domain_pattern : Option String
  pub command_pattern : Option String
  pub decision : PermissionDecision

-- What the policies use of the standard library.
pub record Library : Type 0 where
  pub search : String → String → Option Bool
  pub hostname : String → Option String
  pub serialise_input : Dict Json → String

-- `x if isinstance(x, str) else None` of a looked up value
abbrev pub text_of : Option Json → Option String
text_of none = none
text_of (some (str s)) = some s
text_of (some null) = none
text_of (some (bool b)) = none
text_of (some (num n)) = none
text_of (some (arr xs)) = none
text_of (some (obj fs)) = none

-- A selector that is not given holds; one on a missing or non-string value does not.
abbrev pub selects : (String → String → Bool) → Option String → Option String → Bool
selects test none value = true
selects test (some pattern) none = false
selects test (some pattern) (some value) = test pattern value

module _ (lib : Library) where
  abbrev pub or_literal : String → String → Option Bool → Bool
  or_literal pattern body (some found) = found
  or_literal pattern body none = occurs_in pattern body

  unfoldable pub matches_pattern : String → String → Bool
  unfolding occurs_in
  matches_pattern pattern body = or_literal pattern body (lib.search pattern body)

  unfoldable pub first_match : List String → String → Option String
  unfolding matches_pattern
  first_match [] body = none
  first_match (p ∷ ps) body =
      let later = first_match ps body in if matches_pattern p body then some p else later

  -- `if isinstance(x, str) and x`
  abbrev pub nonempty_text : Option String → Option String
  nonempty_text none = none
  nonempty_text (some s) = if str_eq s "" then none else some s

  -- A bare host is parsed behind `//`.
  abbrev pub host_of : Option String → Option String
  host_of none = none
  host_of (some url) = lib.hostname (if occurs_in "://" url then url else str_append "//" url)

  abbrev pub domain_or_host : Option String → Option String → Option String
  domain_or_host (some domain) url = some domain
  domain_or_host none url = host_of url

  unfoldable pub input_domain : Dict Json → Option String
  unfolding get occurs_in
  input_domain input =
      domain_or_host (nonempty_text (text_of (get "domain" input)))
        (nonempty_text (text_of (get "url" input)))

  -- The four selectors of one rule, in the loop's order.
  unfoldable pub applies : PolicyRule → String → Dict Json → Bool
  unfolding matches_pattern input_domain path_matches_prefix get
  applies r tool_name input =
      selects str_eq r.tool_name (some tool_name)
      && (selects (λ prefix path. path_matches_prefix path prefix) r.path_prefix
            (text_of (get "path" input))
          && (selects matches_pattern r.domain_pattern (input_domain input)
              && selects matches_pattern r.command_pattern (text_of (get "command" input))))

  -- `RuleBasedPolicy.check`
  unfoldable pub check_rules :
      List PolicyRule → PermissionDecision → String → Dict Json → PermissionDecision
  unfolding applies
  check_rules [] default tool_name input = default
  check_rules (r ∷ rs) default tool_name input =
      let later = check_rules rs default tool_name input in
      if applies r tool_name input then r.decision else later

  abbrev pub allowed_because : Option String → PermissionDecision
  allowed_because none = record {
    allowed = true;
    reason = "tool in allow-list";
    requires_confirmation = false;
  }
  allowed_because (some pattern) = record {
    allowed = true;
    reason = str_append "input matched dangerous pattern " pattern;
    requires_confirmation = true;
  }

  abbrev pub patterns_or_none : Option (List String) → List String
  patterns_or_none none = []
  patterns_or_none (some ps) = ps

  -- `AllowListPolicy.check`
  unfoldable pub check_allow_list :
      List String → Dict (List String) → String → Dict Json → PermissionDecision
  unfolding has get first_match
  check_allow_list always_allow confirm tool_name input =
      if not (has tool_name always_allow)
      then record {
        allowed = false;
        reason = "tool not in allow-list";
        requires_confirmation = false;
      }
      else allowed_because
          (first_match (patterns_or_none (get tool_name confirm)) (lib.serialise_input input))
