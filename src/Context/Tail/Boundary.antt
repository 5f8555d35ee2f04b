-- ===== src/Context/Tail/Boundary.antt =====
-- The boundary that `_expand_to_group_boundary` finds.
use kinetic_sdk_agents.Prelude.{
  ℕ, zero, suc, ◌≤◌, ◌<◌, ◌≡◌, refl, ◌⊎◌, inl, inr, String, true, false, Bool-cases, List, [], ◌∷◌,
  ◌++◌, length, drop, arith, ◌==◌,
}
use kinetic_sdk_agents.Prelude.Sets.{subset}
use kinetic_sdk_agents.Conversation.{Message}
use kinetic_sdk_agents.Conversation.Replay.{
  needed, provided, message_tool_use_ids, message_tool_result_ids,
}
use kinetic_sdk_agents.Context.{Manager, Codec}
use kinetic_sdk_agents.Context.Tail.{ids_at, widen, expand_to_group_boundary, tail_start}

needed-drop :
    (k : ℕ) (ms : List Message)
    → ids_at message_tool_result_ids k ms ++ needed (drop (suc k) ms) ≡ needed (drop k ms)
unfolding needed
needed-drop zero [] = refl
needed-drop zero (m ∷ ms) = refl
needed-drop (suc k) [] = refl
needed-drop (suc k) (m ∷ ms) = needed-drop k ms

provided-drop :
    (k : ℕ) (ms : List Message)
    → ids_at message_tool_use_ids k ms ++ provided (drop (suc k) ms) ≡ provided (drop k ms)
unfolding provided
provided-drop zero [] = refl
provided-drop zero (m ∷ ms) = refl
provided-drop (suc k) [] = refl
provided-drop (suc k) (m ∷ ms) = provided-drop k ms

-- Every result of the suffix from `k` has its use in that suffix.
abbrev pub IsClosed : List Message → ℕ → Type 0
IsClosed ms k = subset (needed (drop k ms)) (provided (drop k ms)) ≡ true

-- The boundary is not behind the start, is closed unless it is 0, and no closed index lies between.
pub record IsBoundary (ms : List Message) (start b : ℕ) : Type 0 where
  pub at_most : b ≤ start
  pub closed : (b ≡ 0) ⊎ IsClosed ms b
  pub latest : (k : ℕ) → b < k → k ≤ start → IsClosed ms k → ⊥

widen-IsBoundary :
    (ms : List Message) (start : ℕ) (need have : List String)
    → need ≡ needed (drop start ms)
    → have ≡ provided (drop start ms)
    → IsBoundary ms start (widen ms start need have)
unfolding widen
widen-IsBoundary ms zero need have en eh = record {
  at_most = omega arith;
  closed = inl refl;
  latest = λ k a b c. omega arith;
}
widen-IsBoundary ms (suc j) need have en eh = elim (Bool-cases (subset need have)) [
  | inl closed ↦
      rw (closed, widen)
        (record {
          at_most = omega arith;
          closed = inr (rw (← en, ← eh) closed);
          latest = λ k a b c. omega arith;
        })
  | inr torn ↦
      rw (torn, widen)
        (later torn (
          widen-IsBoundary ms j (ids_at message_tool_result_ids j ms ++ need)
            (ids_at message_tool_use_ids j ms ++ have) (rw en (needed-drop j ms))
            (rw eh (provided-drop j ms))))
]
  where
    later : {b : ℕ} → subset need have ≡ false → IsBoundary ms j b → IsBoundary ms (suc j) b
    later torn r = record {
      at_most = omega (arith, r.at_most);
      closed = r.closed;
      latest = λ k a up c. elim (Bool-cases (k == suc j)) [
        | inl e ↦ let same : k ≡ suc j = ground arith in cc (torn, en, eh, same, c)
        | inr n ↦ r.latest k a (ground arith) c
      ];
    }

-- Widening finds the last index, not behind the start, from which every kept result has its use;
-- only where there is none is the result 0.
pub expand-IsBoundary :
    (ms : List Message) (start : ℕ) → IsBoundary ms start (expand_to_group_boundary ms start)
unfolding expand_to_group_boundary
expand-IsBoundary ms start =
    widen-IsBoundary ms start (needed (drop start ms)) (provided (drop start ms)) refl refl

-- A suffix past the end needs nothing.
drop_all : (ms : List Message) → drop (length ms) ms ≡ []
drop_all [] = refl
drop_all (m ∷ ms) = drop_all ms

-- The tail never holds a result without its use, unless it is the whole history.
pub tail_start-IsClosed :
    (codec : Codec) (m : Manager) (ms : List Message)
    → (tail_start codec m ms ≡ 0) ⊎ IsClosed ms (tail_start codec m ms)
unfolding tail_start needed subset
tail_start-IsClosed codec m ms = elim (Bool-cases (m.keep_last_tool_results == 0)) [
  | inl nothing ↦ rw nothing (inr (rw (drop_all ms) refl))
  | inr some_ ↦ rw some_ ((expand-IsBoundary ms _).closed)
]

pub tail_start-le :
    (codec : Codec) (m : Manager) (ms : List Message) → tail_start codec m ms ≤ length ms
unfolding tail_start
tail_start-le codec m ms = elim (Bool-cases (m.keep_last_tool_results == 0)) [
  | inl nothing ↦ rw nothing (omega arith)
  | inr some_ ↦ rw some_ (omega (arith, (expand-IsBoundary ms _).at_most))
]
