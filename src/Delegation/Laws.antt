-- ===== src/Delegation/Laws.antt =====
-- What the guards of kinetic_sdk/subagent/delegation.py charge.
use kinetic_sdk_agents.Prelude.{
  ◌⊎◌, inl, inr, ◌++◌, append_assoc, str_eq_refl, ltb, ℕ, suc, ◌+◌, ◌≤◌, ◌≡◌, refl, sym, ap, ◌∙◌,
  subst, String, Bool, true, false, Option, none, some, List, [], ◌∷◌, length, leb, str_eq,
  if◌then◌else◌, Result, ok, err, arith,
}
use kinetic_sdk_agents.Agent.{ToolCall}
use kinetic_sdk_agents.Agent.Loop.{LlmResponse}
use kinetic_sdk_agents.Budget.Spawn.{SpawnBudget, calls_of, record_tool_call}
use kinetic_sdk_agents.Prelude.Dict.{Dict, get, put, get-put, get-put-here}
use kinetic_sdk_agents.Budget.Spawn
use kinetic_sdk_agents.Budget.Repetition.{Breaker, record_call, record_key, count_key}
use kinetic_sdk_agents.Budget.Repetition
use kinetic_sdk_agents.Delegation.{
  Client, provider, guarded, serialized, Tree, Failure, llm_failed, budget_exceeded,
  repetition_limit, Providers, with_breaker, counted, after_budget, charge, then_charge, charge_all,
  Answer, from_provider, answered, guard, chat, unguarded,
}

-- No guard inside; and at most one, on the outside.
abbrev pub Plain : Client → Type 0
Plain (provider name) = Unit
Plain (guarded c agent_id) = ⊥
Plain (serialized c) = Plain c

abbrev pub AtMostOnce : Client → Type 0
AtMostOnce (provider name) = Unit
AtMostOnce (guarded c agent_id) = Plain c
AtMostOnce (serialized c) = Plain c

unguarded-Plain : {W : Type 0} (p : Providers W) (c : Client) → AtMostOnce c → Plain (unguarded p c)
unguarded-Plain p (provider name) h = tt
unguarded-Plain p (guarded c agent_id) h = h
unguarded-Plain p (serialized c) h = h

-- What a call does to the budget.
abbrev Spent : String → SpawnBudget → SpawnBudget × Result Spawn.Error Unit → Type 0
Spent agent_id b (b', ok u) =
    (b'.used ≡ b.used + 1)
    × (b'.max_calls ≡ b.max_calls)
    × (b'.used ≤ b'.max_calls)
    × (calls_of agent_id b'.per_agent ≡ calls_of agent_id b.per_agent + 1)
    × ((other : String)
        → str_eq agent_id other ≡ false
        → calls_of other b'.per_agent ≡ calls_of other b.per_agent)
Spent agent_id b (b', err e) = (b' ≡ b) × (b.max_calls ≤ b.used)

abbrev stored_count : Option ℕ → ℕ
stored_count none = 0
stored_count (some n) = n

calls_of-stored_count : (a : String) (d : Dict ℕ) → calls_of a d ≡ stored_count (get a d)
calls_of-stored_count a d = go (get a d)
  where
    go : (o : Option ℕ) → elim o [ none ↦ 0 | some n ↦ n ] ≡ stored_count o
    go none = refl
    go (some n) = refl

record_tool_call-Spent :
    (agent_id : String) (b : SpawnBudget) → Spent agent_id b (record_tool_call agent_id b)
unfolding record_tool_call
record_tool_call-Spent agent_id b = go (leb b.max_calls b.used) refl
  where
    n : ℕ
    n = calls_of agent_id b.per_agent + 1

    go :
        (x : Bool)
        → leb b.max_calls b.used ≡ x
        → Spent agent_id b (
            if x
            then (b, err Spawn.budget_exceeded)
            else (record b { used = b.used + 1; per_agent = put agent_id n b.per_agent }, ok tt))
    go true e = (refl, ground arith)
    go false e = (
      refl,
      refl,
      ground arith,
      calls_of-stored_count agent_id (put agent_id n b.per_agent)
          ∙ ap stored_count (get-put-here agent_id n b.per_agent),
      λ other h.
          calls_of-stored_count other (put agent_id n b.per_agent)
          ∙ ap stored_count (
              get-put agent_id other n b.per_agent
              ∙ ap (λ x. if x then some n else get other b.per_agent) h)
          ∙ sym (calls_of-stored_count other b.per_agent),
    )

with_breaker-others :
    (agent_id : String) (breaker : Breaker) (breakers : String → Breaker) (other : String)
    → str_eq agent_id other ≡ false
    → with_breaker agent_id breaker breakers other ≡ breakers other
with_breaker-others agent_id breaker breakers other h =
    ap (λ b. if b then breaker else breakers other) h

with_breaker-own :
    (agent_id : String) (breaker : Breaker) (breakers : String → Breaker)
    → with_breaker agent_id breaker breakers agent_id ≡ breaker
with_breaker-own agent_id breaker breakers =
    ap (λ b. if b then breaker else breakers agent_id) (str_eq_refl agent_id)

module _ {W : Type 0} (p : Providers W) where
  -- A breaker that has counted these calls.
  abbrev pub after_calls : List ToolCall → Breaker → Breaker
  after_calls [] b = b
  after_calls (call ∷ calls) b =
      after_calls calls
        (count_key (record { tool_name = call.name; arguments = p.serialise call.arguments }) b)

  -- These calls were charged: to the budget, to the agent in it, and to the agent's breaker; and
  -- nothing was to another agent.
  abbrev pub Charges : String → List ToolCall → Tree → Tree → Type 0
  Charges agent_id calls t t' =
      (t'.budget.used ≡ t.budget.used + length calls)
      × (t'.budget.max_calls ≡ t.budget.max_calls)
      × (t'.budget.used ≤ t'.budget.max_calls)
      × (calls_of agent_id t'.budget.per_agent
          ≡ calls_of agent_id t.budget.per_agent + length calls)
      × (t'.breakers agent_id ≡ after_calls calls (t.breakers agent_id))
      × ((other : String)
          → str_eq agent_id other ≡ false
          → (t'.breakers other ≡ t.breakers other)
            × (calls_of other t'.budget.per_agent ≡ calls_of other t.budget.per_agent))

  -- Why a guard raises.
  abbrev pub Spoilt : String → Failure → Tree → Type 0
  Spoilt agent_id llm_failed t = ⊥
  Spoilt agent_id budget_exceeded t = t.budget.max_calls ≤ t.budget.used
  Spoilt agent_id repetition_limit t =
      suc (t.breakers agent_id).max_repeats ≤ (t.breakers agent_id).count

  -- Where the charges succeed, each call was charged; where one fails, those up to it.
  abbrev pub Charged : String → List ToolCall → Tree → Tree × Result Failure Unit → Type 0
  Charged agent_id calls t (t', ok u) =
      Charges agent_id calls t t'
      × ((calls ≡ []) ⊎ ((t'.breakers agent_id).count ≤ (t'.breakers agent_id).max_repeats))
  Charged agent_id calls t (t', err e) =
      (first : List ToolCall) × (rest : List ToolCall) × (calls ≡ first ++ rest)
      × Charges agent_id first t t'
      × Spoilt agent_id e t'

  Charges-none :
      (agent_id : String) (t : Tree) → t.budget.used ≤ t.budget.max_calls → Charges agent_id [] t t
  Charges-none agent_id t within =
      (omega arith, refl, within, omega arith, refl, λ other h. (refl, refl))

  -- A call, and then more.
  Charges-then :
      (agent_id : String) (call : ToolCall) (calls : List ToolCall) (t t1 t2 : Tree)
      → Charges agent_id (call ∷ []) t t1
      → Charges agent_id calls t1 t2
      → Charges agent_id (call ∷ calls) t t2
  Charges-then agent_id call calls t t1 t2 (u, c, w, n, b, o) (u', c', w', n', b', o') = (
    omega arith,
    c' ∙ c,
    w',
    omega arith,
    b' ∙ ap (after_calls calls) b,
    λ other h. ((o' other h).0 ∙ (o other h).0, (o' other h).1 ∙ (o other h).1),
  )

  -- What the breaker says of a call.
  abbrev Said : ToolCall → Breaker → Breaker × Result Repetition.Error Unit → Type 0
  Said call b (b', ok u) = (b' ≡ after_calls (call ∷ []) b) × (b'.count ≤ b'.max_repeats)
  Said call b (b', err e) = (b' ≡ after_calls (call ∷ []) b) × (suc b'.max_repeats ≤ b'.count)

  record_call-Said :
      (call : ToolCall) (b : Breaker)
      → Said call b (record_call p.serialise call.name call.arguments b)
  unfolding record_call record_key
  record_call-Said call b = go (ltb b'.max_repeats b'.count) refl
    where
      b' : Breaker
      b' = after_calls (call ∷ []) b

      go :
          (x : Bool)
          → ltb b'.max_repeats b'.count ≡ x
          → Said call b (b', (if x then err Repetition.repetition_limit else ok tt))
      go true e = (refl, ground arith)
      go false e = (refl, ground arith)

  charge-Charged :
      (agent_id : String) (call : ToolCall) (t : Tree)
      → t.budget.used ≤ t.budget.max_calls
      → Charged agent_id (call ∷ []) t (charge p agent_id call t)
  unfolding charge
  charge-Charged agent_id call t within =
      go (record_tool_call agent_id t.budget) (record_tool_call-Spent agent_id t.budget)
    where
      charged :
          (budget : SpawnBudget) (breaker : Breaker)
          → Spent agent_id t.budget (budget, ok tt)
          → breaker ≡ after_calls (call ∷ []) (t.breakers agent_id)
          → Charges agent_id
              (call ∷ [])
              t
              (record { budget = budget; breakers = with_breaker agent_id breaker t.breakers })
      charged budget breaker (x, c, w, n, o) same = (
        x,
        c,
        w,
        n,
        with_breaker-own agent_id breaker t.breakers ∙ same,
        λ other h. (with_breaker-others agent_id breaker t.breakers other h, o other h),
      )

      one :
          (budget : SpawnBudget) (r : Breaker × Result Repetition.Error Unit)
          → Spent agent_id t.budget (budget, ok tt)
          → Said call (t.breakers agent_id) r
          → Charged agent_id (call ∷ []) t (counted p agent_id (record t { budget = budget }) r)
      one budget (breaker, ok u) h (same, le) = (
        charged budget breaker h same,
        inr (
            subst (λ b. b.count ≤ b.max_repeats)
              (sym (with_breaker-own agent_id breaker t.breakers)) le),
      )
      one budget (breaker, err e) h (same, over) = (
        call ∷ [],
        [],
        refl,
        charged budget breaker h same,
        subst (λ b. suc b.max_repeats ≤ b.count)
            (sym (with_breaker-own agent_id breaker t.breakers)) over,
      )

      go :
          (r : SpawnBudget × Result Spawn.Error Unit)
          → Spent agent_id t.budget r
          → Charged agent_id (call ∷ []) t (after_budget p agent_id call t r)
      go (budget, ok u) h =
          one budget (record_call p.serialise call.name call.arguments (t.breakers agent_id)) h
            (record_call-Said call (t.breakers agent_id))
      go (budget, err e) (same, full) =
          subst (λ b. Charged agent_id (call ∷ []) t (record t { budget = b }, err budget_exceeded))
            (sym same) ([], call ∷ [], refl, Charges-none agent_id t within, full)

  charge_all-Charged :
      (agent_id : String) (calls : List ToolCall) (t : Tree)
      → t.budget.used ≤ t.budget.max_calls
      → Charged agent_id calls t (charge_all p agent_id calls t)
  unfolding charge_all
  charge_all-Charged agent_id [] t within = (Charges-none agent_id t within, inl refl)
  charge_all-Charged agent_id (call ∷ calls) t within =
      first (charge p agent_id call t) (charge-Charged agent_id call t within)
        (λ t1. charge_all-Charged agent_id calls t1)
    where
      still :
          (t1 t2 : Tree)
          → (call ∷ [] ≡ []) ⊎ ((t1.breakers agent_id).count ≤ (t1.breakers agent_id).max_repeats)
          → Charges agent_id calls t1 t2
          → (calls ≡ []) ⊎ ((t2.breakers agent_id).count ≤ (t2.breakers agent_id).max_repeats)
          → (call ∷ calls ≡ [])
            ⊎ ((t2.breakers agent_id).count ≤ (t2.breakers agent_id).max_repeats)
      still t1 t2 h k (inr le) = inr le
      still t1 t2 (inl e) k (inl none_) = let clash : ⊥ = cc in elim clash [ ]
      still t1 t2 (inr le) (u, c, w, n, b, o) (inl none_) = inr (
          subst (λ x. x.count ≤ x.max_repeats)
            (sym (b ∙ ap (λ l. after_calls l (t1.breakers agent_id)) none_)) le)

      more :
          (t1 : Tree) (r : Tree × Result Failure Unit)
          → Charges agent_id (call ∷ []) t t1
          → (call ∷ [] ≡ []) ⊎ ((t1.breakers agent_id).count ≤ (t1.breakers agent_id).max_repeats)
          → Charged agent_id calls t1 r
          → Charged agent_id (call ∷ calls) t r
      more t1 (t2, ok u) h le (k, le') =
          (Charges-then agent_id call calls t t1 t2 h k, still t1 t2 le k le')
      more t1 (t2, err e) h le (done, rest, split, k, why) = (
        call ∷ done,
        rest,
        ap (λ l. call ∷ l) split,
        Charges-then agent_id call done t t1 t2 h k,
        why,
      )

      alone :
          (t1 : Tree) (e : Failure)
          → Charged agent_id (call ∷ []) t (t1, err e)
          → Charged agent_id (call ∷ calls) t (t1, err e)
      alone t1 e (done, rest, split, k, why) =
          (done, rest ++ calls, ap (λ l. l ++ calls) split ∙ append_assoc done rest calls, k, why)

      first :
          (r : Tree × Result Failure Unit)
          → Charged agent_id (call ∷ []) t r
          → ((t1 : Tree)
              → t1.budget.used ≤ t1.budget.max_calls
              → Charged agent_id calls t1 (charge_all p agent_id calls t1))
          → Charged agent_id (call ∷ calls) t (then_charge p r (charge_all p agent_id calls))
      first (t1, err e) h rest = alone t1 e h
      first (t1, ok u) (k, le) rest = more t1 (charge_all p agent_id calls t1) k le (rest t1 k.2)

  -- A client without a guard leaves the budget and the breakers alone.
  chat-Plain : (c : Client) (w : W) (t : Tree) → Plain c → (chat p c w t).1 ≡ t
  unfolding chat
  chat-Plain (provider name) w t h = go (p.answer name w)
    where
      go : (r : Option LlmResponse × W) → (from_provider p r t).1 ≡ t
      go (none, w') = refl
      go (some response, w') = refl
  chat-Plain (guarded c agent_id) w t h = elim h [ ]
  chat-Plain (serialized c) w t h = chat-Plain c w t h

  -- What a guard makes of the answer of the client inside.
  abbrev pub Answered : String → Tree → Answer p → Answer p → Type 0
  Answered agent_id t (w, t0, err e) a = a ≡ (w, t, err e)
  Answered agent_id t (w, t0, ok response) (w', t', ok response') =
      (w' ≡ w) × (response' ≡ response) × Charged agent_id response.tool_calls t (t', ok tt)
  Answered agent_id t (w, t0, ok response) (w', t', err e) =
      (w' ≡ w) × Charged agent_id response.tool_calls t (t', err e)

  pub chat-Answered :
      (c : Client) (agent_id : String) (w : W) (t : Tree)
      → Plain c
      → t.budget.used ≤ t.budget.max_calls
      → Answered agent_id t (chat p c w t) (chat p (guarded c agent_id) w t)
  unfolding chat
  chat-Answered c agent_id w t plain within = go (chat p c w t) (chat-Plain c w t plain)
    where
      charged :
          (w' : W) (t' : Tree) (response : LlmResponse) (r : Tree × Result Failure Unit)
          → Charged agent_id response.tool_calls t r
          → Answered agent_id t (w', t', ok response) (answered p w' response r)
      charged w' t' response (t2, ok u) h = (refl, refl, h)
      charged w' t' response (t2, err e) h = (refl, h)

      go : (a : Answer p) → a.1 ≡ t → Answered agent_id t a (guard p agent_id a)
      go (w', t', err e) h = ap (λ x. (w', x, err e)) h
      go (w', t', ok response) h =
          subst
            (λ x. Answered agent_id t (w', t', ok response) (guard p agent_id (w', x, ok response)))
            (sym h)
            (charged w' t' response (charge_all p agent_id response.tool_calls t)
              (charge_all-Charged agent_id response.tool_calls t within))
