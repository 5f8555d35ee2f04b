-- ===== src/Conversation/Replay/Round.antt =====
-- A round of tool calls behind a replayable history: an assistant's message with tool uses, and
-- messages that hold their results.
use kinetic_sdk_agents.Prelude.{
  ◌≡◌, refl, String, true, false, ◌||◌, List, [], ◌∷◌, ◌++◌, arith, eq_iff, ap, ◌⊎◌, inl, inr,
  Bool-cases,
}
use kinetic_sdk_agents.Prelude.Sets.{has, subset, has-append, subset→has, subset_intro}
use kinetic_sdk_agents.Conversation.Replay.Laws.{has-Disjoint}
use kinetic_sdk_agents.Conversation.{Message}
use kinetic_sdk_agents.Conversation.Replay.{
  needed, provided, Backed, Answered, Fresh, Disjoint, IsReplayable, message_tool_use_ids,
  message_tool_result_ids,
}

-- Messages that each hold one result, for these ids in this order.
pub data Results : List String → List Message → Type 0 where
  done : Results [] []
  one :
      (id : String) (ids : List String) (m : Message) (ms : List Message)
      → message_tool_use_ids m ≡ []
      → message_tool_result_ids m ≡ id ∷ []
      → Results ids ms
      → Results (id ∷ ids) (m ∷ ms)

needed-Results : (ids : List String) (ms : List Message) → Results ids ms → needed ms ≡ ids
unfolding needed
needed-Results _ _ done = refl
needed-Results _ _ (one id ids m ms u r rest) = rw (r, needed-Results ids ms rest) refl

provided-Results : (ids : List String) (ms : List Message) → Results ids ms → provided ms ≡ []
unfolding provided
provided-Results _ _ done = refl
provided-Results _ _ (one id ids m ms u r rest) = rw (u, provided-Results ids ms rest) refl

Backed-Results :
    (seen ids : List String) (ms : List Message)
    → Results ids ms
    → ((a : String) → has a ids ≡ true → has a seen ≡ true)
    → Backed seen ms
unfolding has subset
Backed-Results seen _ _ done all = tt
Backed-Results seen _ _ (one id ids m ms u r rest) all =
    let first : has id seen ≡ true = all id (ground (arith, eq_iff id id)) in
    (rw (r, first) refl, rw u (Backed-Results seen ids ms rest (λ a h. all a (ground arith))))

Answered-Results : (ids : List String) (ms : List Message) → Results ids ms → Answered ms
unfolding subset
Answered-Results _ _ done = tt
Answered-Results _ _ (one id ids m ms u r rest) = (rw u refl, Answered-Results ids ms rest)

Fresh-Results : (ids : List String) (ms : List Message) → Results ids ms → Fresh ms
Fresh-Results _ _ done = tt
Fresh-Results _ _ (one id ids m ms u r rest) = (rw u tt, Fresh-Results ids ms rest)

-- The ids used so far, once a history has been read.
abbrev seen_after : List String → List Message → List String
seen_after seen [] = seen
seen_after seen (m ∷ ms) = seen_after (message_tool_use_ids m ++ seen) ms

Backed-append :
    (seen : List String) (xs ys : List Message)
    → Backed seen xs
    → Backed (seen_after seen xs) ys
    → Backed seen (xs ++ ys)
Backed-append seen [] ys h k = k
Backed-append seen (x ∷ xs) ys h k =
    (h.0, Backed-append (message_tool_use_ids x ++ seen) xs ys h.1 k)

needed-append :
    (a : String) (xs ys : List Message)
    → has a (needed (xs ++ ys)) ≡ (has a (needed xs) || has a (needed ys))
unfolding needed has
needed-append a [] ys = refl
needed-append a (x ∷ xs) ys = ground (
  arith,
  has-append a (message_tool_result_ids x) (needed (xs ++ ys)),
  has-append a (message_tool_result_ids x) (needed xs),
  needed-append a xs ys,
)

Answered-append : (xs ys : List Message) → Answered xs → Answered ys → Answered (xs ++ ys)
Answered-append [] ys h k = k
Answered-append (x ∷ xs) ys h k = (
  subset_intro (message_tool_use_ids x) (needed (xs ++ ys)) (λ a u.
      ground
        (arith, needed-append a xs ys, subset→has a (message_tool_use_ids x) (needed xs) h.0 u)),
  Answered-append xs ys h.1 k,
)

provided-append :
    (a : String) (xs ys : List Message)
    → has a (provided (xs ++ ys)) ≡ (has a (provided xs) || has a (provided ys))
unfolding provided has
provided-append a [] ys = refl
provided-append a (x ∷ xs) ys = ground (
  arith,
  has-append a (message_tool_use_ids x) (provided (xs ++ ys)),
  has-append a (message_tool_use_ids x) (provided xs),
  provided-append a xs ys,
)

-- No id is in both lists.
abbrev pub Apart : List String → List String → Type 0
Apart xs ys = (a : String) → has a xs ≡ true → has a ys ≡ true → ⊥

Apart-Disjoint : (xs ys : List String) → Apart xs ys → Disjoint xs ys
unfolding has
Apart-Disjoint [] ys apart = tt
Apart-Disjoint (x ∷ xs) ys apart =
    (fresh (Bool-cases (has x ys)), Apart-Disjoint xs ys (λ a h k. apart a (ground arith) k))
  where
    fresh : (has x ys ≡ true) ⊎ (has x ys ≡ false) → has x ys ≡ false
    fresh (inl there) = absurd (apart x (ground (arith, eq_iff x x)) there)
    fresh (inr new) = new

Fresh-append :
    (xs ys : List Message)
    → Fresh xs
    → Fresh ys
    → Apart (provided xs) (provided ys)
    → Fresh (xs ++ ys)
unfolding provided
Fresh-append [] ys h k apart = k
Fresh-append (x ∷ xs) ys h k apart = (
  Apart-Disjoint (message_tool_use_ids x) (provided (xs ++ ys))
      (λ a u p. both a u (ground (arith, provided-append a xs ys))),
  Fresh-append xs ys h.1 k
      (λ a p q. apart a (ground (arith, has-append a (message_tool_use_ids x) (provided xs))) q),
)
  where
    both :
        (a : String)
        → has a (message_tool_use_ids x) ≡ true
        → (has a (provided xs) ≡ true) ⊎ (has a (provided ys) ≡ true)
        → ⊥
    both a u (inl p) = has-Disjoint a (message_tool_use_ids x) (provided xs) h.0 u p
    both a u (inr q) =
        apart a (ground (arith, has-append a (message_tool_use_ids x) (provided xs))) q

-- A message with tool uses whose ids the history has not used, and then one result for each of
-- those uses in their order, extend a replayable history to a replayable one.
pub round-IsReplayable :
    (ms : List Message) (turn : Message) (ids : List String) (rs : List Message)
    → IsReplayable ms
    → message_tool_result_ids turn ≡ []
    → message_tool_use_ids turn ≡ ids
    → Apart (provided ms) ids
    → Results ids rs
    → IsReplayable (ms ++ turn ∷ rs)
unfolding provided has subset
round-IsReplayable ms turn ids rs h no_results uses apart results = record {
  backed = Backed-append [] ms (turn ∷ rs) h.backed (
    rw no_results refl,
    Backed-Results _ ids rs results (λ a i.
        ground
          (arith, has-append a (message_tool_use_ids turn) (seen_after [] ms), ap (has a) uses)),
  );
  answered = Answered-append ms (turn ∷ rs) h.answered (
    subset_intro (message_tool_use_ids turn) (needed rs)
        (λ a u. ground (arith, ap (has a) uses, ap (has a) (needed-Results ids rs results))),
    Answered-Results ids rs results,
  );
  fresh =
      Fresh-append ms (turn ∷ rs) h.fresh
        (
          rw (provided-Results ids rs results) (Apart-Disjoint _ [] (λ a u k. cc)),
          Fresh-Results ids rs results,
        )
        (λ a p q. apart a p (
          ground (
            arith,
            has-append a (message_tool_use_ids turn) (provided rs),
            ap (has a) (provided-Results ids rs results),
            ap (has a) uses,
          )));
}
