-- ===== src/Context/Trim.antt =====
-- Trimming of oversized tool results: `_head_tail`, `_truncate_block`,
-- `_truncate_oversized_tool_results` and `_compact_tool_output_to_budget`.
pub mod Ids
pub mod Size
use Prim.Native.String.{◌++◌ as str_append}
use kinetic_sdk_agents.Prelude.{
  ℕ, zero, suc, ◌+◌, ◌-◌, ◌*◌, ◌/◌, max, String, Bool, true, false, ◌||◌, Option, none, some, List,
  [], ◌∷◌, ltb, leb, if◌then◌else◌, any,
}
use kinetic_sdk_agents.Prelude.Int.{ℤ, sub_ℕ}
use kinetic_sdk_agents.Prelude.Text.{text_length, text_take, text_last, decimal}
use kinetic_sdk_agents.Conversation.{
  Block, Content, Message, text, image, tool_use, tool_result, plain, blocks,
}
use kinetic_sdk_agents.Context.{Manager, ContextBudget, Fraction}

-- `TRUNCATION_MARKER.format(n=omitted)`
unfoldable pub truncation_marker : ℕ → String
unfolding decimal
truncation_marker n =
    str_append "\n[... " (str_append (decimal n) " ký tự ở giữa đã được cắt bớt ...]\n")

-- Called only with more characters than the limit, so that the count does not fall below 0.
unfoldable pub head_tail : String → ℕ → String
unfolding text_length text_take text_last truncation_marker
head_tail s limit =
    let head : ℕ = limit * 2 / 3 in
    let tail : ℕ = limit - head in
    let omitted : ℕ = text_length s - head - tail in
    str_append (text_take head s) (str_append (truncation_marker omitted) (text_last tail s))

unfoldable pub compressed : Manager → String → ℕ → String
unfolding head_tail
compressed m s limit = elim m.tool_output_compressor [
  | none ↦ head_tail s limit
  | some compress ↦ compress s limit
]

-- `limit` is `self.max_tool_result_chars`, which the caller has set.
unfoldable pub truncate_block : Manager → ℕ → Block → Block
unfolding compressed text_length
truncate_block m limit (text s) = text s
truncate_block m limit (image t d) = image t d
truncate_block m limit (tool_use id name input) = tool_use id name input
truncate_block m limit (tool_result id body is_error omitted) =
    if leb (text_length body) limit
    then tool_result id body is_error omitted
    else tool_result id (compressed m body limit) is_error
        (some (sub_ℕ (text_length body) (text_length (compressed m body limit))))

abbrev pub oversized : ℕ → Block → Bool
oversized limit (text _) = false
oversized limit (image _ _) = false
oversized limit (tool_use _ _ _) = false
oversized limit (tool_result _ body _ _) = ltb limit (text_length body)

unfoldable pub truncate_blocks : Manager → ℕ → List Block → List Block
unfolding truncate_block
truncate_blocks m limit [] = []
truncate_blocks m limit (b ∷ bs) = truncate_block m limit b ∷ truncate_blocks m limit bs

abbrev pub truncate_content : Manager → ℕ → Content → Content
truncate_content m limit (plain s) = plain s
truncate_content m limit (blocks bs) =
    if any (oversized limit) bs then blocks (truncate_blocks m limit bs) else blocks bs

unfoldable pub truncate_messages : Manager → ℕ → List Message → List Message
unfolding truncate_blocks
truncate_messages m limit [] = []
truncate_messages m limit (x ∷ xs) =
    record x { content = truncate_content m limit x.content } ∷ truncate_messages m limit xs

abbrev pub truncate_up_to : Manager → Option ℕ → List Message → List Message
truncate_up_to m none ms = ms
truncate_up_to m (some limit) ms = truncate_messages m limit ms

unfoldable pub truncate_oversized_tool_results : Manager → List Message → List Message
unfolding truncate_messages
truncate_oversized_tool_results m ms = truncate_up_to m m.max_tool_result_chars ms

-- The first loop of `_compact_tool_output_to_budget`: the characters of all tool results.
abbrev pub block_chars : Block → ℕ
block_chars (text _) = 0
block_chars (image _ _) = 0
block_chars (tool_use _ _ _) = 0
block_chars (tool_result _ body _ _) = text_length body

unfoldable pub blocks_chars : List Block → ℕ
blocks_chars [] = 0
blocks_chars (b ∷ bs) = block_chars b + blocks_chars bs

abbrev pub content_chars : Content → ℕ
content_chars (plain _) = 0
content_chars (blocks bs) = blocks_chars bs

unfoldable pub tool_output_chars : List Message → ℕ
unfolding blocks_chars
tool_output_chars [] = 0
tool_output_chars (m ∷ ms) = content_chars m.content + tool_output_chars ms

-- The second loop, in the same order: `remaining` is threaded through, and once it is within
-- `allowed` (the `break`) every later block is kept.
module _ (m : Manager) (allowed : ℕ) where
  unfoldable pub reduce_block : Block → ℕ → Block × ℕ
  unfolding truncate_block text_length
  reduce_block (text s) remaining = (text s, remaining)
  reduce_block (image t d) remaining = (image t d, remaining)
  reduce_block (tool_use id name input) remaining = (tool_use id name input, remaining)
  reduce_block (tool_result id body is_error omitted) remaining =
      let old : Block = tool_result id body is_error omitted in
      let target : ℕ = max 100 (text_length body - (remaining - allowed)) in
      let new : Block = truncate_block m target old in
      if leb remaining allowed || leb (text_length body) target
      then (old, remaining)
      else (new, remaining + block_chars new - text_length body)

  unfoldable pub reduce_blocks : List Block → ℕ → List Block × ℕ
  unfolding reduce_block
  reduce_blocks [] remaining = ([], remaining)
  reduce_blocks (b ∷ bs) remaining =
      let (b', left) = reduce_block b remaining in
      let (bs', rest) = reduce_blocks bs left in (b' ∷ bs', rest)

  abbrev pub reduce_content : Content → ℕ → Content × ℕ
  reduce_content (plain s) remaining = (plain s, remaining)
  reduce_content (blocks bs) remaining =
      let (bs', left) = reduce_blocks bs remaining in (blocks bs', left)

  unfoldable pub reduce_messages : List Message → ℕ → List Message
  unfolding reduce_blocks
  reduce_messages [] remaining = []
  reduce_messages (x ∷ xs) remaining =
      let (content', left) = reduce_content x.content remaining in
      record x { content = content' } ∷ reduce_messages xs left

-- `max(100, int(limit * budget.tool_output * chars_per_token))`
unfoldable pub allowed_chars : Manager → ℕ → ContextBudget → ℕ
allowed_chars m limit b =
    max 100 (limit * b.tool_output.numer * m.chars_per_token / b.tool_output.denom)

unfoldable pub compact_tool_output_to_budget :
    Manager → ℕ → ContextBudget → List Message → List Message
unfolding tool_output_chars allowed_chars reduce_messages
compact_tool_output_to_budget m limit b ms =
    let total : ℕ = tool_output_chars ms in
    let allowed : ℕ = allowed_chars m limit b in
    if leb total allowed then ms else reduce_messages m allowed ms total
