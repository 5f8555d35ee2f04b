-- ===== src/Conversation/Replay/Laws.antt =====
-- The replay invariant under suffixes, and under the message that stands in for a cut span.
use kinetic_sdk_agents.Prelude.{
  ℕ, zero, suc, ◌≡◌, refl, String, true, false, ◌||◌, List, [], ◌∷◌, ◌++◌, drop, arith, Bool-cases,
  inl, inr, str_eq, eq_iff,
}
use kinetic_sdk_agents.Prelude.Sets.{has, subset, has-append, subset→has, subset_intro}
use kinetic_sdk_agents.Conversation.{Message}
use kinetic_sdk_agents.Conversation.Replay.{
  needed, provided, Backed, Answered, Fresh, Disjoint, IsReplayable, message_tool_use_ids,
  message_tool_result_ids, message_has_tool_content,
}

pub Answered-drop : (n : ℕ) (ms : List Message) → Answered ms → Answered (drop n ms)
Answered-drop zero ms h = h
Answered-drop (suc n) [] h = h
Answered-drop (suc n) (m ∷ ms) h = Answered-drop n ms h.1

pub Fresh-drop : (n : ℕ) (ms : List Message) → Fresh ms → Fresh (drop n ms)
Fresh-drop zero ms h = h
Fresh-drop (suc n) [] h = h
Fresh-drop (suc n) (m ∷ ms) h = Fresh-drop n ms h.1

-- `seen` may be replaced by any set that has the same of the ids that the span needs.
Backed-change :
    (s t : List String) (ms : List Message)
    → ((a : String) → has a (needed ms) ≡ true → has a s ≡ true → has a t ≡ true)
    → Backed s ms
    → Backed t ms
unfolding needed
Backed-change s t [] sub h = tt
Backed-change s t (m ∷ ms) sub h = (
  subset_intro (message_tool_result_ids m) t (λ a r.
      sub a (ground (arith, has-append a (message_tool_result_ids m) (needed ms)))
        (subset→has a (message_tool_result_ids m) s h.0 r)),
  Backed-change (message_tool_use_ids m ++ s) (message_tool_use_ids m ++ t) ms
      (λ a n u. ground (
        arith,
        has-append a (message_tool_use_ids m) s,
        has-append a (message_tool_use_ids m) t,
        sub a,
        has-append a (message_tool_result_ids m) (needed ms),
      ))
      h.1,
)

pub has-Disjoint :
    (a : String) (xs ys : List String) → Disjoint xs ys → has a xs ≡ true → has a ys ≡ true → ⊥
unfolding has
has-Disjoint a [] ys d h k = cc
has-Disjoint a (x ∷ xs) ys d h k = elim (Bool-cases (str_eq x a)) [
  | inl e ↦ let same : x ≡ a = (eq_iff x a).0 e in cc (same, d.0)
  | inr n ↦ has-Disjoint a xs ys d.1 (rw n at h) k
]

-- A suffix whose results all find a use inside it needs nothing of what stood before it.
Backed-suffix :
    (seen : List String) (n : ℕ) (ms : List Message)
    → Backed seen ms
    → Fresh ms
    → ((a : String) → has a seen ≡ true → has a (provided ms) ≡ true → ⊥)
    → subset (needed (drop n ms)) (provided (drop n ms)) ≡ true
    → Backed [] (drop n ms)
unfolding provided
Backed-suffix seen zero ms b f apart inside =
    Backed-change seen [] ms
      (λ a r s. absurd (apart a s (subset→has a (needed ms) (provided ms) inside r))) b
Backed-suffix seen (suc n) [] b f apart inside = tt
Backed-suffix seen (suc n) (m ∷ ms) b f apart inside =
    Backed-suffix (message_tool_use_ids m ++ seen) n ms b.1 f.1 apart' inside
  where
    apart' :
        (a : String)
        → has a (message_tool_use_ids m ++ seen) ≡ true
        → has a (provided ms) ≡ true
        → ⊥
    apart' a h k = elim (Bool-cases (has a (message_tool_use_ids m))) [
      | inl used ↦ has-Disjoint a (message_tool_use_ids m) (provided ms) f.0 used k
      | inr new ↦
          apart a (ground (arith, has-append a (message_tool_use_ids m) seen))
            (ground (arith, has-append a (message_tool_use_ids m) (provided ms)))
    ]

pub drop-IsReplayable :
    (n : ℕ) (ms : List Message)
    → IsReplayable ms
    → subset (needed (drop n ms)) (provided (drop n ms)) ≡ true
    → IsReplayable (drop n ms)
unfolding has
drop-IsReplayable n ms r inside = record {
  backed = Backed-suffix [] n ms r.backed r.fresh (λ a h k. cc) inside;
  answered = Answered-drop n ms r.answered;
  fresh = Fresh-drop n ms r.fresh;
}

no_tool_content :
    (m : Message)
    → message_has_tool_content m ≡ false
    → (message_tool_use_ids m ≡ []) × (message_tool_result_ids m ≡ [])
unfolding message_has_tool_content
no_tool_content m h = ground arith

-- A message without tool blocks may stand in front of any replayable history.
pub cons-IsReplayable :
    (m : Message) (ms : List Message)
    → message_has_tool_content m ≡ false
    → IsReplayable ms
    → IsReplayable (m ∷ ms)
unfolding subset
cons-IsReplayable m ms h r =
    let (u, n) = no_tool_content m h in
    record {
      backed = (rw n refl, rw u r.backed);
      answered = (rw u refl, r.answered);
      fresh = (rw u tt, r.fresh);
    }

needed-provided :
    (a : String) (seen : List String) (ms : List Message)
    → Backed seen ms
    → has a (needed ms) ≡ true
    → (has a (provided ms) || has a seen) ≡ true
unfolding needed provided has
needed-provided a seen [] b h = cc
needed-provided a seen (m ∷ ms) b h = ground (
  arith,
  has-append a (message_tool_result_ids m) (needed ms),
  has-append a (message_tool_use_ids m) (provided ms),
  has-append a (message_tool_use_ids m) seen,
  subset→has a (message_tool_result_ids m) seen b.0,
  needed-provided a (message_tool_use_ids m ++ seen) ms b.1,
)

-- A replayable history has no result without a use.
pub IsReplayable-subset :
    (ms : List Message) → IsReplayable ms → subset (needed ms) (provided ms) ≡ true
unfolding has
IsReplayable-subset ms r =
    subset_intro (needed ms) (provided ms)
      (λ a h. ground (arith, needed-provided a [] ms r.backed h))
