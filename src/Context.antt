-- ===== src/Context.antt =====
-- kinetic_sdk/context/manager.py: the truncating context manager's settings. A float setting is an
-- exact fraction, and a comparison with it is by cross multiplication. What `json.dumps` returns
-- is a parameter, the record `Codec`. The children model the estimate, the trimming of tool
-- results, the choice of the tail, and the compaction itself.
pub mod Estimate
pub mod Trim
pub mod Tail
pub mod Compact
use kinetic_sdk_agents.Prelude.{
  ℕ, ◌*◌, ◌+◌, ◌<◌, ◌≤◌, String, Bool, true, false, ◌&&◌, Option, none, some, List, ltb, leb,
}
use kinetic_sdk_agents.Prelude.Json.{Json}
use kinetic_sdk_agents.Conversation.{Block}

pub record Fraction : Type 0 where
  pub numer : ℕ
  pub denom : ℕ

-- `limit * fraction <= count`, and `count > limit * fraction`.
abbrev pub share_le : ℕ → Fraction → ℕ → Bool
share_le limit f count = leb (limit * f.numer) (count * f.denom)

abbrev pub share_lt : ℕ → Fraction → ℕ → Bool
share_lt limit f count = ltb (limit * f.numer) (count * f.denom)

pub record ContextBudget : Type 0 where
  pub system_prompt : Fraction
  pub history : Fraction
  pub tool_output : Fraction
  pub memory : Fraction
  pub plan : Fraction

-- `json.dumps` of a list of blocks and of a metadata value.
pub record Codec : Type 0 where
  pub dump_blocks : List Block → String
  pub dump_value : Json → String

-- `SimpleTruncateContextManager`'s attributes; `tool_output_compressor` is its `compress` method.
pub record Manager : Type 0 where
  pub keep_last_tool_results : ℕ
  pub safety_threshold : Fraction
  pub chars_per_token : ℕ
  pub token_counter : Option (String → ℕ)
  pub max_tool_result_chars : Option ℕ
  pub budget : Option ContextBudget
  pub tool_output_compressor : Option (String → ℕ → String)
  pub tail_token_budget : Option Fraction
  pub budget_context_limit : Option ℕ

-- `0 < f <= 1`
abbrev pub in_unit : Fraction → Bool
in_unit f = ltb 0 f.numer && leb f.numer f.denom

abbrev pub optional {ℓ} : {A : Type ℓ} → (A → Bool) → Option A → Bool
optional p none = true
optional p (some a) = p a

-- The checks of `__init__`: `false` is its ValueError. (Counts are natural numbers here.)
unfoldable pub accepts : Manager → Bool
accepts m =
    in_unit m.safety_threshold
    && leb 1 m.chars_per_token
    && optional (leb 100) m.max_tool_result_chars
    && optional in_unit m.tail_token_budget
