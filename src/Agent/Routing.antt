-- ===== src/Agent/Routing.antt =====
-- kinetic_sdk/agent/agent.py, `_classify_and_route`, `_apply_mode`, `escalate` and `_maybe_escalate`;
-- kinetic_sdk/agent/modes.py, `escalates_to`; kinetic_sdk/agent/classifier.py, `to_mode`.
pub mod Laws
use kinetic_sdk_agents.Prelude.{
  ℕ, zero, suc, ◌+◌, Bool, true, false, ◌&&◌, ◌||◌, Option, none, some, List, [], ◌∷◌, leb, ◌==◌,
  if◌then◌else◌,
}
use kinetic_sdk_agents.Agent.{AgentMode, flash, max_mode}

-- The agent's fields of routing. `escalations` counts the `agent.escalated` events.
pub record Routing : Type 0 where
  pub mode : AgentMode
  pub enable_extended_reasoning : Bool
  pub sticky_max : Bool
  pub max_iterations : ℕ
  pub max_iterations_override : Option ℕ
  pub escalations : ℕ

-- `MODE_MAX_ITERATIONS` and `FLASH_ESCALATION_THRESHOLD`
abbrev pub mode_max_iterations : AgentMode → ℕ
mode_max_iterations flash = 5
mode_max_iterations max_mode = 50

abbrev pub flash_escalation_threshold : ℕ
flash_escalation_threshold = 3

pub data TaskComplexity : Type 0 where
  simple complex : TaskComplexity

unfoldable pub to_mode : TaskComplexity → AgentMode
to_mode simple = flash
to_mode complex = max_mode

unfoldable pub escalates_to : AgentMode → Option AgentMode
escalates_to flash = some max_mode
escalates_to max_mode = none

abbrev pub is_max : AgentMode → Bool
is_max flash = false
is_max max_mode = true

-- The override if the caller gave one, and the mode's cap otherwise.
abbrev pub cap : Option ℕ → AgentMode → ℕ
cap none m = mode_max_iterations m
cap (some n) m = n

-- `__init__`
unfoldable pub new : Option ℕ → Routing
new override = record {
  mode = max_mode;
  enable_extended_reasoning = true;
  sticky_max = false;
  max_iterations = cap override max_mode;
  max_iterations_override = override;
  escalations = 0;
}

unfoldable pub apply_mode : AgentMode → Routing → Routing
apply_mode m s = record s {
  mode = m;
  enable_extended_reasoning = is_max m;
  max_iterations = cap s.max_iterations_override m;
}

-- `escalate`: without an override the cap becomes the target's.
abbrev pub raised_cap : Option ℕ → AgentMode → ℕ → ℕ
raised_cap none target old = mode_max_iterations target
raised_cap (some n) target old = old

abbrev pub escalate_to : Option AgentMode → Routing → Routing × Bool
escalate_to none s = (s, false)
escalate_to (some target) s = (
  record s {
    mode = target;
    enable_extended_reasoning = is_max target;
    sticky_max = is_max target || s.sticky_max;
    max_iterations = raised_cap s.max_iterations_override target s.max_iterations;
    escalations = s.escalations + 1;
  },
  true,
)

unfoldable pub escalate : Routing → Routing × Bool
unfolding escalates_to
escalate s = escalate_to (escalates_to s.mode) s

-- `_classify_and_route`; `none` stands for a classifier that raised.
abbrev pub route : Bool → AgentMode → Routing → Routing
route true flash s = apply_mode max_mode s
route false flash s = apply_mode flash s
route sticky max_mode s = apply_mode max_mode (record s { sticky_max = true })

unfoldable pub classify_and_route : Option AgentMode → Routing → Routing
unfolding apply_mode
classify_and_route none s = apply_mode max_mode s
classify_and_route (some m) s = route s.sticky_max m s

-- `_maybe_escalate`, and whether the run has escalated.
abbrev pub escalate_if : Bool → Routing → Routing × Bool
escalate_if true s = escalate s
escalate_if false s = (s, false)

abbrev pub if_flash : AgentMode → ℕ → Bool → Routing → Routing × Bool
if_flash max_mode iteration triggered_by_error s = (s, false)
if_flash flash iteration triggered_by_error s =
    escalate_if
      ((iteration == 0 && triggered_by_error) || leb flash_escalation_threshold (iteration + 1)) s

unfoldable pub maybe_escalate : ℕ → Bool → Bool → Routing → Routing × Bool
unfolding escalate
maybe_escalate iteration triggered_by_error true s = (s, true)
maybe_escalate iteration triggered_by_error false s = if_flash s.mode iteration triggered_by_error s
