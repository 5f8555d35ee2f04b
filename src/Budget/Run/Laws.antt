-- ===== src/Budget/Run/Laws.antt =====
-- A root run makes no LLM call past its caps.
use kinetic_sdk_agents.Prelude.{
  ℕ, zero, suc, ◌+◌, ◌≤◌, ◌<◌, ◌≡◌, refl, ◌↔◌, ◌⊎◌, inl, inr, true, false, Bool-cases, Option, none,
  some, List, [], ◌∷◌, length, arith, leb, ok, err,
}
use kinetic_sdk_agents.Budget.Run.{
  RunBudget, Error, calls_exhausted, tokens_exhausted, reached, check, exhausted, Usage,
  record_usage, guarded_calls, usage_tokens,
}

-- A limit that is `some n` is at least `k`; no limit admits everything.
abbrev pub WithinLimit : ℕ → Option ℕ → Type 0
WithinLimit k none = Unit
WithinLimit k (some n) = k ≤ n

check-cases : (b : RunBudget) → (check b ≡ ok tt) ⊎ ((e : Error) × (check b ≡ err e))
unfolding check
check-cases b = elim (Bool-cases (reached b.max_calls b.used_calls)) [
  | inl calls ↦ inr (calls_exhausted, rw calls refl)
  | inr more ↦ elim (Bool-cases (reached b.max_tokens b.used_tokens)) [
    | inl tokens ↦ inr (tokens_exhausted, rw (more, tokens) refl)
    | inr left ↦ inl (rw (more, left) refl)
  ]
]

-- `exhausted` is true exactly where `check` raises, and false exactly where it returns.
check-exhausted :
    (b : RunBudget)
    → ((check b ≡ ok tt) ↔ (exhausted b ≡ false))
      × (((e : Error) × (check b ≡ err e)) ↔ (exhausted b ≡ true))
unfolding check exhausted
check-exhausted b = elim (Bool-cases (reached b.max_calls b.used_calls)) [
  | inl calls ↦ rw calls (((λ h. cc), λ h. cc), ((λ h. refl), λ h. (calls_exhausted, refl)))
  | inr more ↦ elim (Bool-cases (reached b.max_tokens b.used_tokens)) [
    | inl tokens ↦
        rw (more, tokens) (((λ h. cc), λ h. cc), ((λ h. refl), λ h. (tokens_exhausted, refl)))
    | inr left ↦ rw (more, left) (((λ h. refl), λ h. refl), ((λ (e, h). cc), λ h. cc))
  ]
]

check-calls : (b : RunBudget) → check b ≡ ok tt → WithinLimit (b.used_calls + 1) b.max_calls
unfolding check
check-calls b h = go b.max_calls refl
  where
    go : (limit : Option ℕ) → b.max_calls ≡ limit → WithinLimit (b.used_calls + 1) limit
    go none e = tt
    go (some n) e = elim (Bool-cases (leb n b.used_calls)) [
      | inl full ↦ cc (rw (e, full) at h)
      | inr room ↦ ground arith
    ]

-- The tokens of the first `n` calls.
abbrev pub tokens_of : ℕ → List (Option Usage) → ℕ
tokens_of zero us = 0
tokens_of (suc n) [] = 0
tokens_of (suc n) (u ∷ us) = usage_tokens u + tokens_of n us

-- What guarded calls leave behind.
pub record Guarded (us : List (Option Usage)) (b : RunBudget) (r : RunBudget × ℕ) : Type 0 where
  pub calls : r.0.used_calls ≡ b.used_calls + r.1
  pub tokens : r.0.used_tokens ≡ b.used_tokens + tokens_of r.1 us
  pub cap : r.0.max_calls ≡ b.max_calls
  pub within : WithinLimit r.0.used_calls b.max_calls
  pub made : r.1 ≤ length us
  pub stopped : r.1 < length us → exhausted r.0 ≡ true

-- From a budget within its call limit, guarding each LLM call by `check` makes calls until the
-- wanted ones are made or the budget is exhausted, charges each of them with its tokens, and never
-- passes the call limit.
pub guarded_calls-Guarded :
    (us : List (Option Usage)) (b : RunBudget)
    → WithinLimit b.used_calls b.max_calls
    → Guarded us b (guarded_calls us b)
unfolding guarded_calls
guarded_calls-Guarded [] b w = record {
  calls = omega arith;
  tokens = omega arith;
  cap = refl;
  within = w;
  made = omega arith;
  stopped = λ h. absurd (omega arith);
}
guarded_calls-Guarded (u ∷ us) b w = elim (check-cases b) [
  | inl free ↦ charged free (guarded_calls-Guarded us (record_usage u b) (check-calls b free))
  | inr (e, full) ↦
      rw (full, guarded_calls)
        (record {
          calls = omega arith;
          tokens = omega arith;
          cap = refl;
          within = w;
          made = omega arith;
          stopped = λ h. (check-exhausted b).1.0 (e, full);
        })
]
  where
    charged :
        check b ≡ ok tt
        → Guarded us (record_usage u b) (guarded_calls us (record_usage u b))
        → Guarded (u ∷ us) b (guarded_calls (u ∷ us) b)
    charged free g =
        rw (free, guarded_calls)
          (record {
            calls = omega (arith, g.calls);
            tokens = omega (arith, g.tokens);
            cap = g.cap;
            within = g.within;
            made = omega (arith, g.made);
            stopped = λ h. g.stopped (omega arith);
          })
