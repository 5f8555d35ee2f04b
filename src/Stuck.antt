-- ===== src/Stuck.antt =====
-- kinetic_sdk/agent/stuck_detector.py: a sliding window over the latest tool calls and results.
-- The digests (`json.dumps` and SHA-256) are parameters of `check` and `observe`.
pub mod Window
use kinetic_sdk_agents.Prelude.{
  ℕ, zero, suc, ◌+◌, ◌-◌, String, Bool, true, false, ◌&&◌, Option, none, some, List, [], ◌∷◌, ◌++◌,
  ltb, leb, if◌then◌else◌, length, drop, Result, ok, err, str_eq,
}
use kinetic_sdk_agents.Prelude.Json.{Json}

-- (tool_name, args_hash, result_hash)
pub record Call : Type 0 where
  pub tool_name : String
  pub args_hash : String
  pub result_hash : String

abbrev pub same_call : Call → Call → Bool
same_call c d =
    str_eq c.tool_name d.tool_name
    && (str_eq c.args_hash d.args_hash && str_eq c.result_hash d.result_hash)

pub record StuckDetector : Type 0 where
  pub window_size : ℕ
  pub repeat_threshold : ℕ
  pub calls : List Call

pub data Error : Type 0 where
  value_error : Error

unfoldable pub new : ℕ → ℕ → Result Error StuckDetector
new zero threshold = err value_error
new (suc w) zero = err value_error
new (suc w) (suc t) = ok (record { window_size = suc w; repeat_threshold = suc t; calls = [] })

-- `deque(maxlen=n).append`: the oldest falls out of a full deque.
unfoldable pub push : ℕ → Call → List Call → List Call
push maxlen c calls =
    if ltb (length calls) maxlen then calls ++ c ∷ [] else drop 1 (calls ++ c ∷ [])

-- `sum(candidate == call for candidate in self._calls)`
unfoldable pub occurrences : Call → List Call → ℕ
occurrences c [] = 0
occurrences c (d ∷ ds) = if same_call d c then suc (occurrences c ds) else occurrences c ds

unfoldable pub observe_call : Call → StuckDetector → StuckDetector × Bool
unfolding push occurrences
observe_call c s =
    let calls : List Call = push s.window_size c s.calls in
    (record s { calls = calls }, leb s.repeat_threshold (occurrences c calls))

-- `outcome` is what `check` builds of the result: output, error and failure category.
unfoldable pub check : (Json → String) → String → Json → Json → StuckDetector → StuckDetector × Bool
unfolding observe_call
check digest tool_name arguments outcome s =
    observe_call
      (record { tool_name = tool_name; args_hash = digest arguments; result_hash = digest outcome })
      s

-- The detector after a history of calls, the oldest first.
unfoldable pub observe_all : List Call → StuckDetector → StuckDetector
unfolding observe_call
observe_all [] s = s
observe_all (c ∷ cs) s = observe_all cs (observe_call c s).0
