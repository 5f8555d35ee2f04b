-- ===== src/Conversation/Replay/SameIds.antt =====
-- Histories whose messages carry the same tool ids, one by one: they are replayable together.
use kinetic_sdk_agents.Prelude.{◌≡◌, refl, ap₂, String, List, [], ◌∷◌, ◌++◌}
use kinetic_sdk_agents.Conversation.{Message}
use kinetic_sdk_agents.Conversation.Replay.{
  needed, provided, Backed, Answered, Fresh, IsReplayable, message_tool_use_ids,
  message_tool_result_ids,
}

abbrev pub SameIds : List Message → List Message → Type 0
SameIds [] [] = Unit
SameIds (x ∷ xs) (y ∷ ys) =
    (message_tool_use_ids x ≡ message_tool_use_ids y)
    × (message_tool_result_ids x ≡ message_tool_result_ids y)
    × SameIds xs ys
SameIds _ _ = ⊥

pub SameIds-refl : (xs : List Message) → SameIds xs xs
SameIds-refl [] = tt
SameIds-refl (x ∷ xs) = (refl, refl, SameIds-refl xs)

pub needed_same : (xs ys : List Message) → SameIds xs ys → needed xs ≡ needed ys
unfolding needed
needed_same [] [] s = refl
needed_same [] (y ∷ ys) s = elim s [ ]
needed_same (x ∷ xs) [] s = elim s [ ]
needed_same (x ∷ xs) (y ∷ ys) s = ap₂ (◌++◌) s.1 (needed_same xs ys s.2)

pub provided_same : (xs ys : List Message) → SameIds xs ys → provided xs ≡ provided ys
unfolding provided
provided_same [] [] s = refl
provided_same [] (y ∷ ys) s = elim s [ ]
provided_same (x ∷ xs) [] s = elim s [ ]
provided_same (x ∷ xs) (y ∷ ys) s = ap₂ (◌++◌) s.0 (provided_same xs ys s.2)

Backed-same :
    (seen : List String) (xs ys : List Message) → SameIds xs ys → Backed seen xs → Backed seen ys
Backed-same seen [] [] s b = tt
Backed-same seen [] (y ∷ ys) s b = elim s [ ]
Backed-same seen (x ∷ xs) [] s b = elim s [ ]
Backed-same seen (x ∷ xs) (y ∷ ys) s b =
    (rw (← s.1) b.0, rw (← s.0) (Backed-same (message_tool_use_ids x ++ seen) xs ys s.2 b.1))

Answered_same : (xs ys : List Message) → SameIds xs ys → Answered xs → Answered ys
Answered_same [] [] s a = tt
Answered_same [] (y ∷ ys) s a = elim s [ ]
Answered_same (x ∷ xs) [] s a = elim s [ ]
Answered_same (x ∷ xs) (y ∷ ys) s a =
    (rw (← s.0, ← needed_same xs ys s.2) a.0, Answered_same xs ys s.2 a.1)

Fresh-same : (xs ys : List Message) → SameIds xs ys → Fresh xs → Fresh ys
Fresh-same [] [] s f = tt
Fresh-same [] (y ∷ ys) s f = elim s [ ]
Fresh-same (x ∷ xs) [] s f = elim s [ ]
Fresh-same (x ∷ xs) (y ∷ ys) s f =
    (rw (← s.0, ← provided_same xs ys s.2) f.0, Fresh-same xs ys s.2 f.1)

pub IsReplayable-same : (xs ys : List Message) → SameIds xs ys → IsReplayable xs → IsReplayable ys
IsReplayable-same xs ys s r = record {
  backed = Backed-same [] xs ys s r.backed;
  answered = Answered_same xs ys s r.answered;
  fresh = Fresh-same xs ys s r.fresh;
}
