-- ===== src/Context/Trim/Ids.antt =====
-- Trimming leaves the tool ids of every message alone.
use kinetic_sdk_agents.Prelude.{
  ℕ, ◌-◌, max, ◌≡◌, refl, ap₂, ◌||◌, Bool-cases, Option, none, some, List, [], ◌∷◌, ◌++◌, inl, inr,
  any, leb,
}
use kinetic_sdk_agents.Prelude.Text.{text_length}
use kinetic_sdk_agents.Conversation.{
  Block, Content, Message, text, image, tool_use, tool_result, plain, blocks,
}
use kinetic_sdk_agents.Conversation.Replay.{
  block_use_ids, block_result_ids, blocks_use_ids, blocks_result_ids, content_use_ids,
  content_result_ids, message_tool_use_ids, message_tool_result_ids,
}
use kinetic_sdk_agents.Conversation.Replay.SameIds.{SameIds, SameIds-refl}
use kinetic_sdk_agents.Context.{Manager, ContextBudget}
use kinetic_sdk_agents.Context.Trim.{
  truncate_block, truncate_blocks, truncate_content, truncate_messages, oversized, truncate_up_to,
  truncate_oversized_tool_results, reduce_block, reduce_blocks, reduce_content, reduce_messages,
  compact_tool_output_to_budget, allowed_chars, tool_output_chars,
}

-- Two blocks, two lists of blocks or two contents with the same ids.
abbrev SameBlock : Block → Block → Type 0
SameBlock b c = (block_use_ids b ≡ block_use_ids c) × (block_result_ids b ≡ block_result_ids c)

abbrev SameBlocks : List Block → List Block → Type 0
SameBlocks b c = (blocks_use_ids b ≡ blocks_use_ids c) × (blocks_result_ids b ≡ blocks_result_ids c)

SameBlocks-cons :
    (b c : Block) (bs cs : List Block)
    → SameBlock b c
    → SameBlocks bs cs
    → SameBlocks (b ∷ bs) (c ∷ cs)
SameBlocks-cons b c bs cs h k = (ap₂ (◌++◌) h.0 k.0, ap₂ (◌++◌) h.1 k.1)

truncate_block_same : (m : Manager) (limit : ℕ) (b : Block) → SameBlock b (truncate_block m limit b)
unfolding truncate_block
truncate_block_same m limit (text s) = (refl, refl)
truncate_block_same m limit (image t d) = (refl, refl)
truncate_block_same m limit (tool_use id name input) = (refl, refl)
truncate_block_same m limit (tool_result id body e o) =
    elim (Bool-cases (leb (text_length body) limit)) [
      | inl fits ↦ rw fits (refl, refl)
      | inr over ↦ rw over (refl, refl)
    ]

truncate_blocks_same :
    (m : Manager) (limit : ℕ) (bs : List Block) → SameBlocks bs (truncate_blocks m limit bs)
unfolding truncate_blocks
truncate_blocks_same m limit [] = (refl, refl)
truncate_blocks_same m limit (b ∷ bs) =
    SameBlocks-cons b (truncate_block m limit b) bs (truncate_blocks m limit bs)
      (truncate_block_same m limit b) (truncate_blocks_same m limit bs)

truncate_content_same :
    (m : Manager) (limit : ℕ) (c : Content)
    → (content_use_ids c ≡ content_use_ids (truncate_content m limit c))
      × (content_result_ids c ≡ content_result_ids (truncate_content m limit c))
truncate_content_same m limit (plain s) = (refl, refl)
truncate_content_same m limit (blocks bs) = elim (Bool-cases (any (oversized limit) bs)) [
  | inl over ↦ rw over (truncate_blocks_same m limit bs)
  | inr fits ↦ rw fits (refl, refl)
]

truncate_messages_same :
    (m : Manager) (limit : ℕ) (ms : List Message) → SameIds ms (truncate_messages m limit ms)
unfolding truncate_messages message_tool_use_ids message_tool_result_ids
truncate_messages_same m limit [] = tt
truncate_messages_same m limit (x ∷ xs) =
    let (u, r) = truncate_content_same m limit x.content in
    (u, r, truncate_messages_same m limit xs)

pub truncate_oversized_same :
    (m : Manager) (ms : List Message) → SameIds ms (truncate_oversized_tool_results m ms)
unfolding truncate_oversized_tool_results
truncate_oversized_same m ms = up_to m.max_tool_result_chars
  where
    up_to : (limit : Option ℕ) → SameIds ms (truncate_up_to m limit ms)
    up_to none = SameIds-refl ms
    up_to (some limit) = truncate_messages_same m limit ms

module _ (m : Manager) (allowed : ℕ) where
  reduce_block_same :
      (b : Block) (remaining : ℕ) → SameBlock b (reduce_block m allowed b remaining).0
  unfolding reduce_block
  reduce_block_same (text s) remaining = (refl, refl)
  reduce_block_same (image t d) remaining = (refl, refl)
  reduce_block_same (tool_use id name input) remaining = (refl, refl)
  reduce_block_same (tool_result id body e o) remaining =
      let target : ℕ = max 100 (text_length body - (remaining - allowed)) in
      elim (Bool-cases (leb remaining allowed || leb (text_length body) target)) [
        | inl keep ↦ rw keep (refl, refl)
        | inr cut ↦ rw cut (truncate_block_same m target (tool_result id body e o))
      ]

  reduce_blocks_same :
      (bs : List Block) (remaining : ℕ) → SameBlocks bs (reduce_blocks m allowed bs remaining).0
  unfolding reduce_blocks
  reduce_blocks_same [] remaining = (refl, refl)
  reduce_blocks_same (b ∷ bs) remaining =
      let (b', left) = reduce_block m allowed b remaining in
      SameBlocks-cons b b' bs (reduce_blocks m allowed bs left).0 (reduce_block_same b remaining)
        (reduce_blocks_same bs left)

  reduce_content_same :
      (c : Content) (remaining : ℕ)
      → (content_use_ids c ≡ content_use_ids (reduce_content m allowed c remaining).0)
        × (content_result_ids c ≡ content_result_ids (reduce_content m allowed c remaining).0)
  reduce_content_same (plain s) remaining = (refl, refl)
  reduce_content_same (blocks bs) remaining = reduce_blocks_same bs remaining

  reduce_messages_same :
      (ms : List Message) (remaining : ℕ) → SameIds ms (reduce_messages m allowed ms remaining)
  unfolding reduce_messages message_tool_use_ids message_tool_result_ids
  reduce_messages_same [] remaining = tt
  reduce_messages_same (x ∷ xs) remaining =
      let (u, r) = reduce_content_same x.content remaining in
      (u, r, reduce_messages_same xs (reduce_content m allowed x.content remaining).1)

pub compact_tool_output_same :
    (m : Manager) (limit : ℕ) (b : ContextBudget) (ms : List Message)
    → SameIds ms (compact_tool_output_to_budget m limit b ms)
unfolding compact_tool_output_to_budget
compact_tool_output_same m limit b ms =
    elim (Bool-cases (leb (tool_output_chars ms) (allowed_chars m limit b))) [
      | inl fits ↦ rw fits (SameIds-refl ms)
      | inr over ↦
          rw over (reduce_messages_same m (allowed_chars m limit b) ms (tool_output_chars ms))
    ]
