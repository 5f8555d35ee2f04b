-- ===== src/Budget/Repetition.antt =====
-- kinetic_sdk/subagent/budget.py, `RepetitionCircuitBreaker`: one agent's run of identical calls.
-- `_stable_serialise` (`json.dumps` with sorted keys) is a parameter, so a call is recorded by its
-- name and the text that its arguments serialise to.
pub mod Laws
use kinetic_sdk_agents.Prelude.{
  ℕ, zero, suc, ◌+◌, String, Bool, true, false, ◌&&◌, Option, none, some, List, [], ◌∷◌, ltb,
  if◌then◌else◌, Result, ok, err, str_eq,
}
use kinetic_sdk_agents.Prelude.Json.{Json}

pub record Key : Type 0 where
  pub tool_name : String
  pub arguments : String

abbrev pub same_key : Key → Key → Bool
same_key k j = str_eq k.tool_name j.tool_name && str_eq k.arguments j.arguments

-- `key == self._last_key`
abbrev pub is_last : Key → Option Key → Bool
is_last k none = false
is_last k (some j) = same_key k j

pub record Breaker : Type 0 where
  pub max_repeats : ℕ
  pub last_key : Option Key
  pub count : ℕ

pub data Error : Type 0 where
  value_error repetition_limit : Error

unfoldable pub new : ℕ → Result Error Breaker
new zero = err value_error
new (suc n) = ok (record { max_repeats = suc n; last_key = none; count = 0 })

-- The counter is written before the limit is tested, so a refused call counts too.
unfoldable pub count_key : Key → Breaker → Breaker
count_key key b =
    if is_last key b.last_key
    then record b { count = b.count + 1 }
    else record b { last_key = some key; count = 1 }

unfoldable pub record_key : Key → Breaker → Breaker × Result Error Unit
unfolding count_key
record_key key b =
    let b' = count_key key b in
    (b', (if ltb b'.max_repeats b'.count then err repetition_limit else ok tt))

unfoldable pub record_call : (Json → String) → String → Json → Breaker → Breaker × Result Error Unit
unfolding record_key
record_call serialise tool_name arguments b =
    record_key (record { tool_name = tool_name; arguments = serialise arguments }) b

unfoldable pub reset : Breaker → Breaker
reset b = record b { last_key = none; count = 0 }

-- The breaker after a history of calls, the newest first.
unfoldable pub after : List Key → Breaker → Breaker
unfolding count_key
after [] b = b
after (k ∷ older) b = count_key k (after older b)
