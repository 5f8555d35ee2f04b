-- ===== src/Context/Tail.antt =====
-- `_tail_start` and `_expand_to_group_boundary`: where the protected tail begins.
pub mod Boundary
pub mod Newest
use kinetic_sdk_agents.Prelude.{
  ℕ, zero, suc, ◌+◌, ◌-◌, min, String, Bool, true, false, ◌||◌, Option, none, some, List, [], ◌∷◌,
  ◌++◌, ltb, leb, ◌==◌, if◌then◌else◌, length, drop, get_elem?,
}
use kinetic_sdk_agents.Prelude.Sets.{has, subset}
use kinetic_sdk_agents.Conversation.{Message, Content}
use kinetic_sdk_agents.Conversation.Replay.{
  needed, provided, message_tool_use_ids, message_tool_result_ids, message_has_tool_result,
}
use kinetic_sdk_agents.Context.{Manager, Codec, Fraction, share_lt}
use kinetic_sdk_agents.Context.Estimate.{count_tokens, stringify_content}

-- The ids of `messages[i]`. (An index past the end is not reached, and has none here.)
abbrev pub ids_at : (Message → List String) → ℕ → List Message → List String
ids_at ids i ms = elim (get_elem? ms i) [ none ↦ [] | some m ↦ ids m ]

-- The `while` loop, with the sets accumulated so far.
unfoldable pub widen : List Message → ℕ → List String → List String → ℕ
unfolding subset
widen ms zero need have = zero
widen ms (suc k) need have = elim (subset need have) [
  | true ↦ suc k
  | false ↦
      widen ms k (ids_at message_tool_result_ids k ms ++ need)
        (ids_at message_tool_use_ids k ms ++ have)
]

unfoldable pub expand_to_group_boundary : List Message → ℕ → ℕ
unfolding widen needed provided
expand_to_group_boundary ms start =
    widen ms start (needed (drop start ms)) (provided (drop start ms))

-- `[i for i, msg in enumerate(messages) if _message_has_tool_result(msg)]`
unfoldable pub tool_result_idx : ℕ → List Message → List ℕ
unfolding message_has_tool_result
tool_result_idx i [] = []
tool_result_idx i (m ∷ ms) =
    if message_has_tool_result m then i ∷ tool_result_idx (suc i) ms else tool_result_idx (suc i) ms

abbrev pub reverse_onto : List ℕ → List ℕ → List ℕ
reverse_onto [] acc = acc
reverse_onto (i ∷ is) acc = reverse_onto is (i ∷ acc)

-- `max(0, min(anchor - 1, n - 1))`
abbrev pub before : ℕ → ℕ → ℕ
before anchor n = min (anchor - 1) (n - 1)

module _ (codec : Codec) (m : Manager) where
  abbrev pub cost_at : List Message → ℕ → ℕ
  cost_at ms i = elim (get_elem? ms i) [
    | none ↦ 0
    | some x ↦ count_tokens m (stringify_content codec x.content)
  ]

  -- The budget loop over the newest results: how many it has selected, what they cost, and the
  -- last one selected. It breaks at the count cap or at the first that is too expensive.
  unfoldable pub select_tail : List Message → ℕ → Fraction → List ℕ → ℕ → ℕ → Option ℕ → Option ℕ
  unfolding count_tokens
  select_tail ms limit share [] selected total last = last
  select_tail ms limit share (i ∷ is) selected total last =
      let cost : ℕ = cost_at ms i in
      let rest : Option ℕ = select_tail ms limit share is (suc selected) (total + cost) (some i) in
      if leb m.keep_last_tool_results selected || share_lt limit share (total + cost)
      then last
      else rest

  -- The anchor by count: the Nth result from the end, or the first of fewer, or the last message.
  abbrev pub anchor_by_count : List ℕ → ℕ → ℕ
  anchor_by_count [] n = n - 1
  anchor_by_count (i ∷ is) n =
      if leb m.keep_last_tool_results (length (i ∷ is))
      then elim (get_elem? (i ∷ is) (length (i ∷ is) - m.keep_last_tool_results)) [
        | none ↦ i
        | some anchor ↦ anchor
      ]
      else i

  abbrev pub or_last : ℕ → Option ℕ → ℕ
  or_last n none = n - 1
  or_last n (some anchor) = anchor

  abbrev pub anchor_by_budget : List Message → Option Fraction → Option ℕ → List ℕ → ℕ
  anchor_by_budget ms (some share) (some limit) idx =
      or_last (length ms) (select_tail ms limit share (reverse_onto idx []) 0 0 none)
  anchor_by_budget ms (some share) none idx = anchor_by_count idx (length ms)
  anchor_by_budget ms none limit idx = anchor_by_count idx (length ms)

  unfoldable pub tail_start : List Message → ℕ
  unfolding tool_result_idx select_tail expand_to_group_boundary
  tail_start ms =
      let n : ℕ = length ms in
      let anchor : ℕ =
        anchor_by_budget ms m.tail_token_budget m.budget_context_limit (tool_result_idx 0 ms) in
      if m.keep_last_tool_results == 0 then n else expand_to_group_boundary ms (before anchor n)
