-- ===== src/Policy/Laws.antt =====
-- What the policies decide.
use kinetic_sdk_agents.Prelude.{
  ◌≡◌, refl, ap, ◌⊎◌, inl, inr, String, Bool, true, false, ◌&&◌, Bool-cases, Option, none, some,
  List, [], ◌∷◌, ◌++◌, if◌then◌else◌, any,
}
use kinetic_sdk_agents.Prelude.Dict.{Dict, get}
use kinetic_sdk_agents.Prelude.Json.{Json}
use kinetic_sdk_agents.Prelude.Sets.{has}
use kinetic_sdk_agents.Agent.{PermissionDecision}
use kinetic_sdk_agents.Policy.{
  PolicyRule, Library, applies, check_rules, matches_pattern, first_match, allowed_because,
  patterns_or_none, check_allow_list,
}

module _ (lib : Library) (tool_name : String) (input : Dict Json) where
  -- No rule of the list applies to the call.
  abbrev pub Silent : List PolicyRule → Type 0
  Silent [] = Unit
  Silent (r ∷ rs) = (applies lib r tool_name input ≡ false) × Silent rs

  -- The rule that decides: it applies, and no rule before it does.
  pub record Deciding (rules : List PolicyRule) (decision : PermissionDecision) : Type 0 where
    pub before : List PolicyRule
    pub rule : PolicyRule
    pub behind : List PolicyRule
    pub stands : rules ≡ before ++ rule ∷ behind
    pub silent : Silent before
    pub matching : applies lib rule tool_name input ≡ true
    pub decides : decision ≡ rule.decision

  -- A rule-based policy decides by the first rule of its list that applies to the call, and by its
  -- default exactly where none does.
  pub check_rules-first :
      (rules : List PolicyRule) (default : PermissionDecision)
      → Deciding rules (check_rules lib rules default tool_name input)
        ⊎ (Silent rules × (check_rules lib rules default tool_name input ≡ default))
  unfolding check_rules
  check_rules-first [] default = inr (tt, refl)
  check_rules-first (r ∷ rs) default =
      tried (applies lib r tool_name input) refl (check_rules-first rs default)
    where
      later : PermissionDecision
      later = check_rules lib rs default tool_name input

      tried :
          (b : Bool)
          → applies lib r tool_name input ≡ b
          → Deciding rs later ⊎ (Silent rs × (later ≡ default))
          → Deciding (r ∷ rs) (if b then r.decision else later)
            ⊎ (Silent (r ∷ rs) × ((if b then r.decision else later) ≡ default))
      tried true this _ = inl (record {
        before = [];
        rule = r;
        behind = rs;
        stands = refl;
        silent = tt;
        matching = this;
        decides = refl;
      })
      tried false other (inl d) = inl (record {
        before = r ∷ d.before;
        rule = d.rule;
        behind = d.behind;
        stands = ap (λ l. r ∷ l) d.stands;
        silent = (other, d.silent);
        matching = d.matching;
        decides = d.decides;
      })
      tried false other (inr (silent, e)) = inr ((other, silent), e)

abbrev is_some : Option String → Bool
is_some none = false
is_some (some p) = true

first_match-any :
    (lib : Library) (ps : List String) (body : String)
    → is_some (first_match lib ps body) ≡ any (λ p. matches_pattern lib p body) ps
unfolding first_match
first_match-any lib [] body = refl
first_match-any lib (p ∷ ps) body = elim (Bool-cases (matches_pattern lib p body)) [
  | inl found ↦ rw found refl
  | inr other ↦ rw other (first_match-any lib ps body)
]

-- An allow-list policy allows exactly the listed tools, and wants a confirmation exactly for a
-- listed tool with an input that one of the tool's patterns matches.
pub check_allow_list-exact :
    (lib : Library) (always_allow : List String) (confirm : Dict (List String)) (tool_name : String)
    (input : Dict Json)
    → ((check_allow_list lib always_allow confirm tool_name input).allowed
        ≡ has tool_name always_allow)
      × ((check_allow_list lib always_allow confirm tool_name input).requires_confirmation ≡ (
          has tool_name always_allow
          && any
              (λ p. matches_pattern lib p (lib.serialise_input input))
              (patterns_or_none lib (get tool_name confirm))))
unfolding check_allow_list
check_allow_list-exact lib always_allow confirm tool_name input =
    elim (Bool-cases (has tool_name always_allow)) [
      | inl listed ↦
          rw listed (by_match (first_match lib patterns body) (first_match-any lib patterns body))
      | inr unlisted ↦ rw unlisted (refl, refl)
    ]
  where
    patterns : List String
    patterns = patterns_or_none lib (get tool_name confirm)

    body : String
    body = lib.serialise_input input

    by_match :
        (o : Option String)
        → is_some o ≡ any (λ p. matches_pattern lib p body) patterns
        → ((allowed_because lib o).allowed ≡ true)
          × ((allowed_because lib o).requires_confirmation
              ≡ any (λ p. matches_pattern lib p body) patterns)
    by_match none e = (refl, e)
    by_match (some p) e = (refl, e)
