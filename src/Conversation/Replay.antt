-- ===== src/Conversation/Replay.antt =====
-- Which histories a provider accepts: the ids that a message's blocks carry
-- (kinetic_sdk/context/manager.py, `_message_tool_use_ids`, `_message_tool_result_ids`), and the
-- invariant of a replay-valid history over them.
pub mod Laws
pub mod SameIds
pub mod Round
use kinetic_sdk_agents.Prelude.{
  ◌≡◌, String, Bool, true, false, ◌||◌, not, List, [], ◌∷◌, ◌++◌, str_eq, if◌then◌else◌,
}
use kinetic_sdk_agents.Prelude.Sets.{has, subset}
use kinetic_sdk_agents.Conversation.{
  Message, Block, Content, text, image, tool_use, tool_result, plain, blocks,
}

-- `block.get("id")` must be truthy: an empty id does not count.
abbrev pub truthy : String → List String
truthy id = if str_eq id "" then [] else id ∷ []

abbrev pub block_use_ids : Block → List String
block_use_ids (text _) = []
block_use_ids (image _ _) = []
block_use_ids (tool_use id _ _) = truthy id
block_use_ids (tool_result _ _ _ _) = []

abbrev pub block_result_ids : Block → List String
block_result_ids (text _) = []
block_result_ids (image _ _) = []
block_result_ids (tool_use _ _ _) = []
block_result_ids (tool_result id _ _ _) = truthy id

abbrev pub blocks_use_ids : List Block → List String
blocks_use_ids [] = []
blocks_use_ids (b ∷ bs) = block_use_ids b ++ blocks_use_ids bs

abbrev pub blocks_result_ids : List Block → List String
blocks_result_ids [] = []
blocks_result_ids (b ∷ bs) = block_result_ids b ++ blocks_result_ids bs

abbrev pub content_use_ids : Content → List String
content_use_ids (plain _) = []
content_use_ids (blocks bs) = blocks_use_ids bs

abbrev pub content_result_ids : Content → List String
content_result_ids (plain _) = []
content_result_ids (blocks bs) = blocks_result_ids bs

unfoldable pub message_tool_use_ids : Message → List String
message_tool_use_ids m = content_use_ids m.content

unfoldable pub message_tool_result_ids : Message → List String
message_tool_result_ids m = content_result_ids m.content

abbrev pub nonempty : List String → Bool
nonempty [] = false
nonempty (_ ∷ _) = true

unfoldable pub message_has_tool_result : Message → Bool
message_has_tool_result m = nonempty (message_tool_result_ids m)

unfoldable pub message_has_tool_content : Message → Bool
message_has_tool_content m =
    nonempty (message_tool_use_ids m) || nonempty (message_tool_result_ids m)

-- The ids of a whole span: what `needed` and `provided` accumulate.
unfoldable pub needed : List Message → List String
needed [] = []
needed (m ∷ ms) = message_tool_result_ids m ++ needed ms

unfoldable pub provided : List Message → List String
provided [] = []
provided (m ∷ ms) = message_tool_use_ids m ++ provided ms

-- Each tool result comes behind the tool use that it answers; `seen` holds the ids used so far.
abbrev pub Backed : List String → List Message → Type 0
Backed seen [] = Unit
Backed seen (m ∷ ms) =
    (subset (message_tool_result_ids m) seen ≡ true) × Backed (message_tool_use_ids m ++ seen) ms

-- Each tool use has a result behind it.
abbrev pub Answered : List Message → Type 0
Answered [] = Unit
Answered (m ∷ ms) = (subset (message_tool_use_ids m) (needed ms) ≡ true) × Answered ms

-- No id in the first list is in the second.
abbrev pub Disjoint : List String → List String → Type 0
Disjoint [] ys = Unit
Disjoint (x ∷ xs) ys = (has x ys ≡ false) × Disjoint xs ys

-- No message uses an id that a later message uses again.
abbrev pub Fresh : List Message → Type 0
Fresh [] = Unit
Fresh (m ∷ ms) = Disjoint (message_tool_use_ids m) (provided ms) × Fresh ms

-- A history that can be sent: results behind their uses, uses answered, ids not used again.
pub record IsReplayable (ms : List Message) : Type 0 where
  pub backed : Backed [] ms
  pub answered : Answered ms
  pub fresh : Fresh ms
