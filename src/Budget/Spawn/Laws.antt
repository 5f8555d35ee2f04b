-- ===== src/Budget/Spawn/Laws.antt =====
-- The budget is spent exactly, whoever calls and in whatever order.
use kinetic_sdk_agents.Prelude.{
  ℕ, zero, suc, ◌+◌, ◌-◌, ◌≤◌, min, ◌≡◌, refl, ap, String, true, false, List, [], ◌∷◌, length,
  arith, leb, Result, ok, err,
}
use kinetic_sdk_agents.Prelude.Dict.{Dict, get, put}
use kinetic_sdk_agents.Budget.Spawn.{
  SpawnBudget, Error, budget_exceeded, calls_of, record_tool_call, remaining, record_all,
}

-- What all agents together have been charged.
unfoldable pub charged : Dict ℕ → ℕ
charged [] = 0
charged ((a, n) ∷ d) = n + charged d

charged-put : (a : String) (n : ℕ) (d : Dict ℕ) → charged (put a n d) + calls_of a d ≡ charged d + n
unfolding charged get put
charged-put a n [] = omega arith
charged-put a n ((j, w) ∷ d) = ground (arith, charged-put a n d)

-- The counter is within the cap, and is the sum of what the agents were charged.
pub record IsValid (b : SpawnBudget) : Type 0 where
  pub within : b.used ≤ b.max_calls
  pub summed : charged b.per_agent ≡ b.used

-- With room for some calls, those are granted, and the later ones are refused.
abbrev pub outcomes : ℕ → ℕ → List (Result Error Unit)
outcomes room zero = []
outcomes zero (suc n) = err budget_exceeded ∷ outcomes zero n
outcomes (suc room) (suc n) = ok tt ∷ outcomes room n

record-IsValid : (a : String) (b : SpawnBudget) → IsValid b → IsValid (record_tool_call a b).0
unfolding record_tool_call
record-IsValid a b v = ground (arith, charged-put a (calls_of a b.per_agent + 1) b.per_agent)

-- What a sequence of calls does, with `room` calls left.
record Spent (callers : List String) (room : ℕ) (b : SpawnBudget) : Type 0 where
  valid : IsValid (record_all callers b).0
  cap : (record_all callers b).0.max_calls ≡ b.max_calls
  count : (record_all callers b).0.used ≡ b.used + min (length callers) room
  results : (record_all callers b).1 ≡ outcomes room (length callers)

spent :
    (callers : List String) (room : ℕ) (b : SpawnBudget)
    → b.used + room ≡ b.max_calls
    → IsValid b
    → Spent callers room b
unfolding record_all
spent [] room b e v = record { valid = v; cap = refl; count = omega arith; results = refl }
spent (a ∷ as') zero b e v =
    let full : leb b.max_calls b.used ≡ true = ground arith in
    let step : record_tool_call a b ≡ (b, err budget_exceeded) = rw (record_tool_call, full) refl in
    let rest = spent as' zero b e v in
    record {
      valid = rw step rest.valid;
      cap = rw step rest.cap;
      count = rw step (omega (arith, rest.count));
      results = rw step (ap (λ l. err budget_exceeded ∷ l) rest.results);
    }
spent (a ∷ as') (suc room) b e v =
    let free : leb b.max_calls b.used ≡ false = ground arith in
    let b' : SpawnBudget = record b {
      used = b.used + 1;
      per_agent = put a (calls_of a b.per_agent + 1) b.per_agent;
    } in
    let step : record_tool_call a b ≡ (b', ok tt) = rw (record_tool_call, free) refl in
    let rest = spent as' room b' (omega arith) (rw step at (record-IsValid a b v)) in
    record {
      valid = rw step rest.valid;
      cap = rw step rest.cap;
      count = rw step (omega (arith, rest.count));
      results = rw step (ap (λ l. ok tt ∷ l) rest.results);
    }

-- From a valid budget, any sequence of calls by any agents leaves it valid with the same cap;
-- the counter has grown by the number of calls, up to what remained; and the calls are granted
-- until what remained is used up, and refused from then on.
pub record_all_exact :
    (callers : List String) (b : SpawnBudget)
    → IsValid b
    → IsValid (record_all callers b).0
      × ((record_all callers b).0.max_calls ≡ b.max_calls)
      × ((record_all callers b).0.used ≡ b.used + min (length callers) (remaining b))
      × ((record_all callers b).1 ≡ outcomes (remaining b) (length callers))
unfolding remaining
record_all_exact callers b v =
    let r = spent callers (b.max_calls - b.used) b (omega (arith, v.within)) v in
    (r.valid, r.cap, r.count, r.results)
