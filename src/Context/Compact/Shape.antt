-- ===== src/Context/Compact/Shape.antt =====
-- What compaction keeps and what it drops.
use kinetic_sdk_agents.Prelude.Json.{Json}
use kinetic_sdk_agents.Prelude.Dict.{get, get-put}
use kinetic_sdk_agents.Prelude.{
  ◌∙◌, String, str_eq, if◌then◌else◌, ℕ, suc, ◌-◌, ◌<◌, ◌≤◌, ◌≡◌, refl, ap, inl, inr, false, ◌||◌,
  Bool-cases, Option, none, some, List, [], ◌∷◌, ◌++◌, leb, length, take, drop, arith,
  length-append, length-take, length-drop,
}
use kinetic_sdk_agents.Conversation.{Message, ConversationState}
use kinetic_sdk_agents.Context.{Manager, Codec, ContextBudget}
use kinetic_sdk_agents.Context.Trim.{
  truncate_oversized_tool_results, truncate_up_to, truncate_messages, reduce_messages,
  reduce_content, compact_tool_output_to_budget, allowed_chars, tool_output_chars,
}
use kinetic_sdk_agents.Context.Tail.{tail_start}
use kinetic_sdk_agents.Context.Tail.Boundary.{tail_start-le}
use kinetic_sdk_agents.Context.Compact.{
  head_end, cut_middle, within_budget, same_messages, compact, summary_message, compact_summarizing,
  with_summary, progressed, span_within_budget,
}

length-truncate_messages :
    (m : Manager) (limit : ℕ) (ms : List Message)
    → length (truncate_messages m limit ms) ≡ length ms
unfolding truncate_messages
length-truncate_messages m limit [] = refl
length-truncate_messages m limit (x ∷ xs) = ap suc (length-truncate_messages m limit xs)

length-truncate :
    (m : Manager) (ms : List Message) → length (truncate_oversized_tool_results m ms) ≡ length ms
unfolding truncate_oversized_tool_results
length-truncate m ms = go m.max_tool_result_chars
  where
    go : (limit : Option ℕ) → length (truncate_up_to m limit ms) ≡ length ms
    go none = refl
    go (some limit) = length-truncate_messages m limit ms

length-reduce_messages :
    (m : Manager) (allowed : ℕ) (ms : List Message) (remaining : ℕ)
    → length (reduce_messages m allowed ms remaining) ≡ length ms
unfolding reduce_messages
length-reduce_messages m allowed [] remaining = refl
length-reduce_messages m allowed (x ∷ xs) remaining =
    ap suc (length-reduce_messages m allowed xs (reduce_content m allowed x.content remaining).1)

length-compact_tool_output :
    (m : Manager) (limit : ℕ) (b : ContextBudget) (ms : List Message)
    → length (compact_tool_output_to_budget m limit b ms) ≡ length ms
unfolding compact_tool_output_to_budget
length-compact_tool_output m limit b ms =
    elim (Bool-cases (leb (tool_output_chars ms) (allowed_chars m limit b))) [
      | inl fits ↦ rw fits refl
      | inr over ↦
          rw over (length-reduce_messages m (allowed_chars m limit b) ms (tool_output_chars ms))
    ]

-- A head of `h` messages, one message, and the suffix from `t`, with `h < t`.
length-splice :
    (h t : ℕ) (ms : List Message) (x : Message)
    → h < t
    → t ≤ length ms
    → length (take h ms ++ (x ∷ drop t ms)) ≤ length ms
length-splice h t ms x lt le =
    omega (arith, length-append (take h ms) (x ∷ drop t ms), length-take h ms, length-drop t ms)

abbrev pub Compacted : ConversationState → ConversationState → Type 0
Compacted s t =
    (length t.messages ≤ length s.messages)
    × (t.system_prompt ≡ s.system_prompt)
    × (t.max_messages ≡ s.max_messages)

module _ (codec : Codec) (m : Manager) (elide : List Message → ℕ → Message) where
  length-cut_middle : (ms : List Message) → length (cut_middle codec m elide ms) ≤ length ms
  unfolding cut_middle
  length-cut_middle ms = elim (Bool-cases (leb (length ms) 2 || leb (t - h) 0)) [
    | inl whole ↦ rw whole (omega (arith, length-truncate m ms))
    | inr cut ↦ rw cut (omega (arith, length-truncate m (spliced cut), shorter cut))
  ]
    where
      t : ℕ
      t = tail_start codec m ms

      h : ℕ
      h = head_end ms t

      spliced : (leb (length ms) 2 || leb (t - h) 0) ≡ false → List Message
      spliced cut = take h ms ++ (elide (drop h (take t ms)) (t - h) ∷ drop t ms)

      shorter :
          (cut : (leb (length ms) 2 || leb (t - h) 0) ≡ false) → length (spliced cut) ≤ length ms
      shorter cut = length-splice h t ms _ (ground arith) (tail_start-le codec m ms)

  length-within_budget :
      (ms : List Message) (b : Option ContextBudget) (limit : Option ℕ)
      → length (within_budget codec m elide ms b limit) ≤ length ms
  length-within_budget ms none limit = length-cut_middle ms
  length-within_budget ms (some b) none = length-cut_middle ms
  length-within_budget ms (some b) (some limit) =
      go (same_messages (compact_tool_output_to_budget m limit b ms) ms)
    where
      go :
          (d : Dec (compact_tool_output_to_budget m limit b ms ≡ ms))
          → length (elim d as (λ _. List Message) [
            | yes _ ↦ cut_middle codec m elide ms
            | no _ ↦ compact_tool_output_to_budget m limit b ms
          ])
            ≤ length ms
      go (yes _) = length-cut_middle ms
      go (no _) = omega (arith, length-compact_tool_output m limit b ms)

  -- No longer, with the same system prompt and cap.
  compact-Compacted : (s : ConversationState) → Compacted s (compact codec m elide s)
  unfolding compact
  compact-Compacted s =
      (length-within_budget s.messages m.budget m.budget_context_limit, refl, refl)

-- Compaction, by the truncating manager or the summarizing one, never makes a history longer, and
-- leaves the system prompt and the cap as they were. Of the metadata, the first leaves all, and the
-- second all but the structured summary.
pub compact-le :
    (codec : Codec) (m : Manager) (elide : List Message → ℕ → Message)
    (summarize : Option Json → List Message → String)
    (structured : Option Json → List Message → Option Json) (s : ConversationState)
    → Compacted s (compact codec m elide s)
      × ((compact codec m elide s).metadata ≡ s.metadata)
      × Compacted s (compact_summarizing codec m summarize structured s)
      × ((key : String)
          → str_eq "structured_summary" key ≡ false
          → get key (compact_summarizing codec m summarize structured s).metadata
            ≡ get key s.metadata)
unfolding compact_summarizing compact
compact-le codec m elide summarize structured s =
    (compact-Compacted codec m elide s, refl, kept written, others written)
  where
    by_summary : List Message → ℕ → Message
    by_summary = summary_message (summarize (get "structured_summary" s.metadata))

    compacted : ConversationState
    compacted = compact codec m by_summary s

    written : Option Json
    written =
        progressed structured (get "structured_summary" s.metadata)
          (span_within_budget codec m by_summary s.messages m.budget m.budget_context_limit)

    kept : (o : Option Json) → Compacted s (with_summary o compacted)
    kept none = compact-Compacted codec m by_summary s
    kept (some v) = compact-Compacted codec m by_summary s

    others :
        (o : Option Json) (key : String)
        → str_eq "structured_summary" key ≡ false
        → get key (with_summary o compacted).metadata ≡ get key s.metadata
    others none key h = refl
    others (some v) key h =
        get-put "structured_summary" key v s.metadata
        ∙ ap (λ b. if b then some v else get key s.metadata) h
