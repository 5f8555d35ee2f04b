-- ===== src/Context/Tail/Newest.antt =====
-- The newest tool results stay in the tail.
use kinetic_sdk_agents.Prelude.{
  ℕ, zero, suc, ◌+◌, ◌-◌, ◌≤◌, min, ◌≡◌, refl, sym, ap, ◌∙◌, inl, inr, false, Bool-cases, none,
  some, List, get_elem?-lt, leb→le, [], ◌∷◌, length, drop, get_elem?, arith, ◌==◌, leb,
  if◌then◌else◌,
}
use native.Mathlib.Nat.{le_trans}
use kinetic_sdk_agents.Conversation.{Message}
use kinetic_sdk_agents.Conversation.Replay.{message_has_tool_result}
use kinetic_sdk_agents.Context.{Manager, Codec}
use kinetic_sdk_agents.Context.Tail.{
  tool_result_idx, anchor_by_count, expand_to_group_boundary, tail_start, before,
}
use kinetic_sdk_agents.Context.Tail.Boundary.{expand-IsBoundary}

-- How many messages carry a tool result.
unfoldable pub result_count : List Message → ℕ
result_count [] = 0
result_count (m ∷ ms) = if message_has_tool_result m then suc (result_count ms) else result_count ms

length-idx : (i : ℕ) (ms : List Message) → length (tool_result_idx i ms) ≡ result_count ms
unfolding tool_result_idx result_count
length-idx i [] = refl
length-idx i (m ∷ ms) = ground (arith, length-idx (suc i) ms)

result_count-drop_mono :
    (a b : ℕ) (ms : List Message) → a ≤ b → result_count (drop b ms) ≤ result_count (drop a ms)
unfolding result_count
result_count-drop_mono zero zero ms h = omega arith
result_count-drop_mono zero (suc b) [] h = omega arith
result_count-drop_mono zero (suc b) (m ∷ ms) h =
    ground (arith, result_count-drop_mono zero b ms (omega arith))
result_count-drop_mono (suc a) zero ms h = absurd (omega arith)
result_count-drop_mono (suc a) (suc b) [] h = omega arith
result_count-drop_mono (suc a) (suc b) (m ∷ ms) h = result_count-drop_mono a b ms (omega arith)

idx_lower : (i p a : ℕ) (ms : List Message) → get_elem? (tool_result_idx i ms) p ≡ some a → i ≤ a
unfolding tool_result_idx
idx_lower i p a [] h = cc
idx_lower i zero a (m ∷ ms) h = ground (arith, idx_lower (suc i) zero a ms)
idx_lower i (suc p) a (m ∷ ms) h =
    ground (arith, idx_lower (suc i) p a ms, idx_lower (suc i) (suc p) a ms)

-- The entry at position `p` of the indices is an index from which all but `p` results lie.
idx_count :
    (i p a : ℕ) (ms : List Message)
    → get_elem? (tool_result_idx i ms) p ≡ some a
    → result_count (drop (a - i) ms) + p ≡ result_count ms
unfolding tool_result_idx result_count
idx_count i p a [] h = cc
idx_count i zero a (m ∷ ms) h = elim (Bool-cases (message_has_tool_result m)) [
  | inl here ↦ let e : a - i ≡ 0 = ground arith in rw e (omega arith)
  | inr past ↦
      let k : get_elem? (tool_result_idx (suc i) ms) zero ≡ some a = rw past at h in
      let e : a - i ≡ suc (a - suc i) = omega (arith, idx_lower (suc i) zero a ms k) in
      rw (e, past) (idx_count (suc i) zero a ms k)
]
idx_count i (suc p) a (m ∷ ms) h = elim (Bool-cases (message_has_tool_result m)) [
  | inl here ↦
      let k : get_elem? (tool_result_idx (suc i) ms) p ≡ some a = rw here at h in
      let e : a - i ≡ suc (a - suc i) = omega (arith, idx_lower (suc i) p a ms k) in
      rw (e, here) (omega (arith, idx_count (suc i) p a ms k))
  | inr past ↦
      let k : get_elem? (tool_result_idx (suc i) ms) (suc p) ≡ some a = rw past at h in
      let e : a - i ≡ suc (a - suc i) = omega (arith, idx_lower (suc i) (suc p) a ms k) in
      rw (e, past) (idx_count (suc i) (suc p) a ms k)
]

-- The same from the first index.
count-at :
    (p a : ℕ) (ms : List Message) (idx : List ℕ)
    → tool_result_idx 0 ms ≡ idx
    → get_elem? idx p ≡ some a
    → result_count (drop a ms) + p ≡ length idx
count-at p a ms idx e h =
    let first : a - 0 ≡ a = omega arith in
    rw first at (idx_count 0 p a ms (rw e h)) ∙ sym (length-idx 0 ms) ∙ ap length e

-- Whatever the widening does, at least as many results as from `anchor` stay behind `before anchor`.
count-before :
    (ms : List Message) (anchor : ℕ)
    → result_count (drop anchor ms)
      ≤ result_count (drop (expand_to_group_boundary ms (before anchor (length ms))) ms)
count-before ms anchor =
    result_count-drop_mono _ anchor ms (omega (arith, (expand-IsBoundary ms _).at_most))

module _ (codec : Codec) (m : Manager) where
  -- The anchor by count leaves `min N (all results)` results behind it.
  count-anchor :
      (ms : List Message) (idx : List ℕ)
      → tool_result_idx 0 ms ≡ idx
      → 1 ≤ m.keep_last_tool_results
      → min m.keep_last_tool_results (result_count ms)
        ≤ result_count (drop (anchor_by_count codec m idx (length ms)) ms)
  count-anchor ms [] e h = omega (arith, length-idx 0 ms, ap length e)
  count-anchor ms (i ∷ is) e h =
      elim (Bool-cases (leb m.keep_last_tool_results (length (i ∷ is)))) [
        | inl enough ↦
            let (anchor, at) =
              get_elem?-lt (i ∷ is) (length (i ∷ is) - m.keep_last_tool_results) (omega arith) in
            let fact : min m.keep_last_tool_results (result_count ms)
                ≤ result_count (drop anchor ms) =
              omega (
                arith,
                length-idx 0 ms,
                ap length e,
                leb→le _ _ enough,
                count-at (length (i ∷ is) - m.keep_last_tool_results) anchor ms (i ∷ is) e at,
              ) in
            rw (enough, at) fact
        | inr few ↦
            rw few (omega (arith, length-idx 0 ms, ap length e, count-at 0 i ms (i ∷ is) e refl))
      ]

  -- Selecting the tail by count, with N at least 1, it holds at least N messages with a tool
  -- result, or all of them where there are fewer.
  pub tail_start-newest :
      (ms : List Message)
      → m.tail_token_budget ≡ none
      → 1 ≤ m.keep_last_tool_results
      → min m.keep_last_tool_results (result_count ms)
        ≤ result_count (drop (tail_start codec m ms) ms)
  unfolding tail_start
  tail_start-newest ms by_count h =
      let some_ : (m.keep_last_tool_results == 0) ≡ false = ground arith in
      rw (some_, by_count)
        (le_trans (count-anchor ms (tool_result_idx 0 ms) refl h) (count-before ms _))
