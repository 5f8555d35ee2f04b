-- ===== src/Budget/Run.antt =====
-- kinetic_sdk/agent/budget.py, `RunBudget`: optional caps on the LLM calls and tokens of a root run.
pub mod Laws
use kinetic_sdk_agents.Prelude.{
  ℕ, zero, suc, ◌+◌, Bool, true, false, ◌||◌, Option, none, some, List, [], ◌∷◌, leb, if◌then◌else◌,
  Result, ok, err,
}

pub record RunBudget : Type 0 where
  pub max_calls : Option ℕ
  pub max_tokens : Option ℕ
  pub used_calls : ℕ
  pub used_tokens : ℕ

-- `RunBudgetExceeded`, by the limit that it names, and the constructor's ValueError.
pub data Error : Type 0 where
  value_error calls_exhausted tokens_exhausted : Error

-- A limit that is given must be positive.
abbrev pub accepts : Option ℕ → Bool
accepts none = true
accepts (some zero) = false
accepts (some (suc n)) = true

unfoldable pub new : Option ℕ → Option ℕ → Result Error RunBudget
new max_calls max_tokens =
    if accepts max_calls
    then (if accepts max_tokens
        then ok (record {
          max_calls = max_calls;
          max_tokens = max_tokens;
          used_calls = 0;
          used_tokens = 0;
        })
        else err value_error)
    else err value_error

-- `limit is not None and used >= limit`
abbrev pub reached : Option ℕ → ℕ → Bool
reached none used = false
reached (some limit) used = leb limit used

unfoldable pub check : RunBudget → Result Error Unit
check b =
    if reached b.max_calls b.used_calls
    then err calls_exhausted
    else if reached b.max_tokens b.used_tokens
    then err tokens_exhausted
    else ok tt

unfoldable pub exhausted : RunBudget → Bool
exhausted b = if reached b.max_calls b.used_calls then true else reached b.max_tokens b.used_tokens

-- A provider's usage mapping: a count is `none` where it is missing or no int. (Counts are taken
-- to be non-negative.)
pub record Usage : Type 0 where
  pub input_tokens : Option ℕ
  pub output_tokens : Option ℕ

abbrev pub or_zero : Option ℕ → ℕ
or_zero none = 0
or_zero (some n) = n

abbrev pub usage_tokens : Option Usage → ℕ
usage_tokens none = 0
usage_tokens (some u) = or_zero u.input_tokens + or_zero u.output_tokens

unfoldable pub record_usage : Option Usage → RunBudget → RunBudget
record_usage u b = record b {
  used_calls = b.used_calls + 1;
  used_tokens = b.used_tokens + usage_tokens u;
}

-- The loop's use of it: `check` before each LLM call, `record` after it, until `check` raises.
-- The list holds the usage of each call that would be made; the second result counts those made.
unfoldable pub guarded_calls : List (Option Usage) → RunBudget → RunBudget × ℕ
unfolding check record_usage
guarded_calls [] b = (b, 0)
guarded_calls (u ∷ us) b =
    let (b', n) = guarded_calls us (record_usage u b) in
    elim (check b) [ ok _ ↦ (b', suc n) | err e ↦ (b, 0) ]
